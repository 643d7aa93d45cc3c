-- ===== src/Traffic/Timetable.antt =====
-- When a run's messages are due: the tables that `_run` of backend/app/traffic/controller.py sets up,
-- the choice of the next source, and the loop over them. Times are whole microseconds, and the phases
-- that the random generator draws are an argument. A key is a flow's index and a source.
pub mod Tables
pub mod Plan
pub mod Order
use meshtastic_lab.Base.{
  ℕ, zero, suc, ◌+◌, ◌-◌, ◌*◌, ◌/◌, Bool, true, false, ◌&&◌, ◌||◌, String, List, [], ◌∷◌, map,
  Option, none, some, ltb, ◌==◌, if◌then◌else◌, length,
}
use meshtastic_lab.Base.Dict
use meshtastic_lab.Base.Members.{Equality, both}
use meshtastic_lab.Models.Scenario.{texts, numbers}
use meshtastic_lab.Traffic.Model.{
  TrafficFlow, TrafficRunRequest, SourceTiming, aligned, evenly_staggered, deterministic_jitter,
}
use meshtastic_lab.Traffic.Schedule.{messages_per_source, nth}

abbrev pub SlotKey : Type 0
SlotKey = ℕ × String

abbrev pub slot_keys : Equality SlotKey
slot_keys = both numbers texts

-- `60 / flow.messages_per_minute`
abbrev pub interval_of : ℕ → ℕ
interval_of messages_per_minute = 60_000_000_000 / messages_per_minute

-- `_source_offsets_for` for one source, the `index`-th of `count`; `phase` is `random()` times the
-- interval.
abbrev pub offset_of : SourceTiming → ℕ → ℕ → ℕ → ℕ → ℕ
offset_of aligned interval count index phase = 0
offset_of evenly_staggered interval count index phase = index * interval / count
offset_of deterministic_jitter interval count index phase = phase

unfoldable pub offsets_from :
    SourceTiming → ℕ → ℕ → (String → ℕ) → ℕ → List String → List (String × ℕ) → List (String × ℕ)
offsets_from timing interval count phase index [] offsets = offsets
offsets_from timing interval count phase index (source ∷ sources) offsets =
    offsets_from timing interval count phase (index + 1) sources
      (Dict.put texts source (offset_of timing interval count index (phase source)) offsets)

-- What the tables hold for a flow: its interval, its sources' offsets and how many messages each of
-- them sends.
pub record Cadence : Type 0 where
  pub interval : ℕ
  pub offsets : List (String × ℕ)
  pub quota : ℕ

-- `_flow_source_offsets` and `_messages_per_flow` with the interval.
abbrev pub cadence : ℕ → (String → ℕ) → TrafficFlow → Cadence
cadence duration phase flow =
    let interval = interval_of flow.messages_per_minute in
    record {
      interval = interval;
      offsets =
          offsets_from flow.source_timing interval (length flow.source_nodes) phase 0
            flow.source_nodes [];
      quota = messages_per_source duration flow.messages_per_minute;
    }

-- `schedule_order`: the place of each key.
unfoldable pub source_orders :
    ℕ → ℕ → List String → List (SlotKey × (ℕ × ℕ)) → List (SlotKey × (ℕ × ℕ))
source_orders flow_index index [] orders = orders
source_orders flow_index index (source ∷ sources) orders =
    source_orders flow_index (index + 1) sources
      (Dict.put slot_keys (flow_index, source) (flow_index, index) orders)

unfoldable pub flow_orders :
    ℕ → List TrafficFlow → List (SlotKey × (ℕ × ℕ)) → List (SlotKey × (ℕ × ℕ))
flow_orders flow_index [] orders = orders
flow_orders flow_index (flow ∷ flows) orders =
    flow_orders (flow_index + 1) flows (source_orders flow_index 0 flow.source_nodes orders)

abbrev pub schedule_order : List TrafficFlow → List (SlotKey × (ℕ × ℕ))
schedule_order flows = flow_orders 0 flows []

-- `next_tick` as the loop finds it.
abbrev pub first_ticks : List TrafficFlow → List (SlotKey × ℕ)
first_ticks flows = map (λ e. (e.0, 0)) (schedule_order flows)

abbrev pub place : SlotKey → List (SlotKey × (ℕ × ℕ)) → ℕ × ℕ
place k orders = elim (Dict.get slot_keys k orders) [ none ↦ (0, 0) | some p ↦ p ]

module _ (duration : ℕ) (phases : ℕ → String → ℕ) (flows : List TrafficFlow) where
  -- `messages_per_source[flow_index]`; an index of no flow is not a key's.
  unfoldable pub quota : SlotKey → ℕ
  quota k = elim (nth k.0 flows) [
    | none ↦ 0
    | some flow ↦ (cadence duration (phases k.0) flow).quota
  ]

  -- When the tick of a key is due, from the start of the run.
  unfoldable pub due : SlotKey → ℕ → ℕ
  due k tick = elim (nth k.0 flows) [
    | none ↦ 0
    | some flow ↦
        let c = cadence duration (phases k.0) flow in
        Dict.number texts k.1 c.offsets + tick * c.interval
  ]

  -- The comparison of `min`: by the time, then by the place.
  unfoldable pub precedes : SlotKey × ℕ → SlotKey × ℕ → Bool
  precedes a b =
      let (f, i) = place a.0 (schedule_order flows) in
      let (g, j) = place b.0 (schedule_order flows) in
      ltb (due a.0 a.1) (due b.0 b.1)
      || ((due a.0 a.1 == due b.0 b.1) && (ltb f g || ((f == g) && ltb i j)))

  -- `min(next_tick, ...)`, with the tick of the key.
  unfoldable pub earliest : SlotKey × ℕ → List (SlotKey × ℕ) → SlotKey × ℕ
  earliest best [] = best
  earliest best (slot ∷ slots) = earliest (if precedes slot best then slot else best) slots

  -- The end of a turn.
  unfoldable pub advance : SlotKey → ℕ → List (SlotKey × ℕ) → List (SlotKey × ℕ)
  advance k tick slots =
      if tick + 1 == quota k
      then Dict.delete slot_keys k slots
      else Dict.put slot_keys k (tick + 1) slots

-- How the loop ends: it returns, a turn raises, or the fuel runs out.
pub data Looped (S : Type 0) : Type 0 where
  ended : S → Looped S
  raised : Looped S
  exhausted : Looped S

module _ {S : Type 0} (duration : ℕ) (phases : ℕ → String → ℕ) (flows : List TrafficFlow)
    (turn : SlotKey → ℕ → S → Option S) where
  -- `while next_tick`; `turn` is the body up to the next tick, `none` an exception.
  unfoldable pub schedule_loop : ℕ → List (SlotKey × ℕ) → S → Looped S
  schedule_loop fuel [] s = ended s
  schedule_loop zero (slot ∷ slots) s = exhausted
  schedule_loop (suc fuel) (slot ∷ slots) s =
      let (k, tick) = earliest duration phases flows slot slots in
      elim (turn k tick s) [
        | none ↦ raised
        | some later ↦
            schedule_loop fuel (advance duration phases flows k tick (slot ∷ slots)) later
      ]
