-- ===== src/Traffic/Timetable/Tables.antt =====
-- What is in the tables of `_run` when its loop begins: backend/app/traffic/controller.py.
use meshtastic_lab.Base.{
  ℕ, zero, suc, ◌+◌, ◌*◌, ◌≤◌, ◌<◌, ◌≡◌, refl, Bool, true, false, ◌&&◌, ◌||◌, String, List, [], ◌∷◌,
  map, none, some, arith, ◌==◌, if◌then◌else◌, length, is_some,
}
use meshtastic_lab.Base.Dict
use meshtastic_lab.Base.Dict.{HasUniqueKeys}
use meshtastic_lab.Base.Members.{member}
use meshtastic_lab.Models.Scenario.{texts}
use meshtastic_lab.Traffic.Model.{TrafficFlow}
use meshtastic_lab.Traffic.Schedule.{nth, messages_per_source, scheduled_messages}
use meshtastic_lab.Traffic.Timetable.{
  SlotKey, slot_keys, quota, source_orders, flow_orders, schedule_order, first_ticks,
}
use meshtastic_lab.Traffic.Timetable.Plan.{Slots, IsWithin, IsTable, remaining}

abbrev Orders : Type 0
Orders = List (SlotKey × (ℕ × ℕ))

abbrev is_key : SlotKey → Orders → Bool
is_key k orders = is_some (Dict.get slot_keys k orders)

-- Whether the flow of a key has the source of the key.
abbrev pub has_source : SlotKey → List TrafficFlow → Bool
has_source k flows = elim (nth k.0 flows) [
  | none ↦ false
  | some flow ↦ member texts k.1 flow.source_nodes
]

-- The same for flows that are counted from `b` on.
has_source_from : ℕ → SlotKey → List TrafficFlow → Bool
has_source_from b k [] = false
has_source_from b k (flow ∷ flows) =
    ((k.0 == b) && member texts k.1 flow.source_nodes) || has_source_from (b + 1) k flows

is_key-source_orders :
    (k : SlotKey) (b n : ℕ) (sources : List String) (orders : Orders)
    → is_key k (source_orders b n sources orders)
      ≡ (((k.0 == b) && member texts k.1 sources) || is_key k orders)
unfolding source_orders member
is_key-source_orders k b n [] orders = ground arith
is_key-source_orders (i, s) b n (source ∷ sources) orders = ground (
  arith,
  texts.same_iff source s,
  texts.same_iff s source,
  Dict.get-put slot_keys (b, source) (i, s) (b, n) orders,
  is_key-source_orders (i, s) b (n + 1) sources (Dict.put slot_keys (b, source) (b, n) orders),
)

is_key-flow_orders :
    (k : SlotKey) (b : ℕ) (flows : List TrafficFlow) (orders : Orders)
    → is_key k (flow_orders b flows orders) ≡ (has_source_from b k flows || is_key k orders)
unfolding flow_orders has_source_from
is_key-flow_orders k b [] orders = refl
is_key-flow_orders k b (flow ∷ flows) orders = ground (
  arith,
  is_key-flow_orders k (b + 1) flows (source_orders b 0 flow.source_nodes orders),
  is_key-source_orders k b 0 flow.source_nodes orders,
)

has_source_from_before :
    (b : ℕ) (k : SlotKey) (flows : List TrafficFlow) → k.0 < b → has_source_from b k flows ≡ false
unfolding has_source_from
has_source_from_before b k [] h = refl
has_source_from_before b k (flow ∷ flows) h = ground (arith, has_source_from_before (b + 1) k flows)

has_source_from_lem :
    (b i : ℕ) (s : String) (flows : List TrafficFlow)
    → has_source_from b (b + i, s) flows ≡ has_source (i, s) flows
unfolding has_source_from nth
has_source_from_lem b i s [] = refl
has_source_from_lem b zero s (flow ∷ flows) =
    ground (arith, has_source_from_before (b + 1) (b + 0, s) flows)
has_source_from_lem b (suc i) s (flow ∷ flows) =
    let moved : b + suc i ≡ (b + 1) + i = omega arith in
    rw moved (ground (arith, has_source_from_lem (b + 1) i s flows))

-- A key is in the table exactly if its flow has its source.
is_key-schedule_order :
    (k : SlotKey) (flows : List TrafficFlow) → is_key k (schedule_order flows) ≡ has_source k flows
unfolding Dict.get
is_key-schedule_order (i, s) flows =
    ground (arith, is_key-flow_orders (i, s) 0 flows [], has_source_from_lem 0 i s flows)

get-map_zero :
    (k : SlotKey) (orders : Orders)
    → Dict.get {V = ℕ} slot_keys k (map (λ e. (e.0, 0)) orders)
      ≡ (if is_key k orders then some 0 else none)
unfolding Dict.get
get-map_zero k [] = refl
get-map_zero k ((j, p) ∷ orders) = ground (arith, get-map_zero k orders)

pub get-first_ticks :
    (k : SlotKey) (flows : List TrafficFlow)
    → Dict.get slot_keys k (first_ticks flows) ≡ (if has_source k flows then some 0 else none)
get-first_ticks k flows =
    rw (← is_key-schedule_order k flows) (get-map_zero k (schedule_order flows))

source_orders-HasUniqueKeys :
    (b n : ℕ) (sources : List String) (orders : Orders)
    → HasUniqueKeys slot_keys orders
    → HasUniqueKeys slot_keys (source_orders b n sources orders)
unfolding source_orders
source_orders-HasUniqueKeys b n [] orders u = u
source_orders-HasUniqueKeys b n (source ∷ sources) orders u =
    source_orders-HasUniqueKeys b (n + 1) sources _
      (Dict.put-HasUniqueKeys slot_keys (b, source) (b, n) orders u)

flow_orders-HasUniqueKeys :
    (b : ℕ) (flows : List TrafficFlow) (orders : Orders)
    → HasUniqueKeys slot_keys orders
    → HasUniqueKeys slot_keys (flow_orders b flows orders)
unfolding flow_orders
flow_orders-HasUniqueKeys b [] orders u = u
flow_orders-HasUniqueKeys b (flow ∷ flows) orders u =
    flow_orders-HasUniqueKeys (b + 1) flows _
      (source_orders-HasUniqueKeys b 0 flow.source_nodes orders u)

zeros : Orders → Slots
zeros orders = map (λ e. (e.0, 0)) orders

zeros-HasUniqueKeys :
    (orders : Orders) → HasUniqueKeys slot_keys orders → HasUniqueKeys slot_keys (zeros orders)
unfolding zeros
zeros-HasUniqueKeys [] u = tt
zeros-HasUniqueKeys ((k, p) ∷ orders) u =
    (rw (get-map_zero k orders, u.0), zeros-HasUniqueKeys orders u.1)

module _ (duration : ℕ) (phases : ℕ → String → ℕ) (flows : List TrafficFlow) where
  abbrev limit : SlotKey → ℕ
  limit k = quota duration phases flows k

  has_source-quota : (k : SlotKey) → has_source k flows ≡ true → 0 < limit k
  unfolding quota messages_per_source
  has_source-quota k h = ground arith

  IsWithin-each :
      (slots : Slots)
      → HasUniqueKeys slot_keys slots
      → ((k : SlotKey) (t : ℕ) → Dict.get slot_keys k slots ≡ some t → t < limit k)
      → IsWithin duration phases flows slots
  unfolding Dict.get
  IsWithin-each [] u below = tt
  IsWithin-each ((j, t) ∷ slots) u below = (
    below j t (ground (arith, slot_keys.same_iff j j)),
    IsWithin-each slots u.1 (λ k v e. below k v (ground (arith, slot_keys.same_iff j k))),
  )

  pub first_ticks-IsTable : IsTable duration phases flows (first_ticks flows)
  unfolding zeros
  first_ticks-IsTable =
      let unique =
        zeros-HasUniqueKeys (schedule_order flows) (flow_orders-HasUniqueKeys 0 flows [] tt) in
      record { unique_keys = unique; within = IsWithin-each (first_ticks flows) unique below }
    where
      below :
          (k : SlotKey) (t : ℕ) → Dict.get slot_keys k (first_ticks flows) ≡ some t → t < limit k
      below k t e = ground (arith, get-first_ticks k flows, has_source-quota k)

  -- What all keys of a table have to send.
  weight : Orders → ℕ
  weight [] = 0
  weight ((k, p) ∷ orders) = limit k + weight orders

  remaining-zeros :
      (orders : Orders) → remaining duration phases flows (zeros orders) ≡ weight orders
  unfolding remaining zeros weight
  remaining-zeros [] = refl
  remaining-zeros ((k, p) ∷ orders) = omega (arith, remaining-zeros orders)

  weight-put :
      (k : SlotKey) (p : ℕ × ℕ) (orders : Orders)
      → weight (Dict.put slot_keys k p orders) ≤ weight orders + limit k
  unfolding weight Dict.put
  weight-put k p [] = omega arith
  weight-put k p ((j, q) ∷ orders) = ground (arith, slot_keys.same_iff j k, weight-put k p orders)

  weight-source_orders :
      (b n each : ℕ) (sources : List String) (orders : Orders)
      → ((s : String) → limit (b, s) ≡ each)
      → weight (source_orders b n sources orders) ≤ weight orders + length sources * each
  unfolding source_orders
  weight-source_orders b n each [] orders h = omega arith
  weight-source_orders b n each (source ∷ sources) orders h =
      let rest =
        weight-source_orders b (n + 1) each sources (Dict.put slot_keys (b, source) (b, n) orders)
          h in
      grind (arith, rest, weight-put (b, source) (b, n) orders, h source)

  -- The flows from index `b` on.
  abbrev IsSuffix : ℕ → List TrafficFlow → Type 0
  IsSuffix b rest = (j : ℕ) → nth (b + j) flows ≡ nth j rest

  weight-flow_orders :
      (b : ℕ) (rest : List TrafficFlow) (orders : Orders)
      → IsSuffix b rest
      → weight (flow_orders b rest orders) ≤ weight orders + scheduled_messages duration rest
  unfolding flow_orders scheduled_messages nth quota
  weight-flow_orders b [] orders h = omega arith
  weight-flow_orders b (flow ∷ rest) orders h =
      let here : nth b flows ≡ some flow = let e : b + 0 ≡ b = omega arith in rw e at (h 0) in
      let tail =
        weight-flow_orders (b + 1) rest (source_orders b 0 flow.source_nodes orders)
          (λ j. let e : b + 1 + j ≡ b + suc j = omega arith in rw e (h (suc j))) in
      let each = messages_per_source duration flow.messages_per_minute in
      let front = weight-source_orders b 0 each flow.source_nodes orders (λ s. rw (quota, here)) in
      omega (arith, tail, front)

  -- No more messages than the number that `start` checks.
  pub remaining-first_ticks :
      remaining duration phases flows (first_ticks flows) ≤ scheduled_messages duration flows
  unfolding zeros weight
  remaining-first_ticks = omega (
    arith,
    remaining-zeros (schedule_order flows),
    weight-flow_orders 0 flows [] (λ j. let e : 0 + j ≡ j = omega arith in rw e),
  )
