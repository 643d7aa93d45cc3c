-- ===== src/Traffic/Generator/Turns.antt =====
-- The messages that a run sends: `_run` of backend/app/traffic/controller.py.
use meshtastic_lab.Base.{
  ℕ, ◌-◌, ◌≡◌, ◌∙◌, ap, refl, Bool, true, false, some, none, arith, String, List, [], Option,
  if◌then◌else◌,
}
use meshtastic_lab.Metrics.Packet.{Protobuf}
use meshtastic_lab.Traffic.Generator.{TurnInput, Generator, source_turn, begin_drain, generate}
use meshtastic_lab.Traffic.Model.{TrafficFlow, TrafficRunRequest}
use meshtastic_lab.Traffic.Schedule.{scheduling_flows, maximum_sequence}
use meshtastic_lab.Traffic.Timetable.{SlotKey, first_ticks, quota}
use meshtastic_lab.Traffic.Timetable.Order.{InTime, plan-InTime, NotBefore-start}
use meshtastic_lab.Traffic.Timetable.Plan.{
  Slots, plan, count_up, ticks_of, open_ticks, take_turns, ticks_of-plan, schedule_loop-plan,
}
use meshtastic_lab.Traffic.Timetable.Tables.{
  has_source, get-first_ticks, first_ticks-IsTable, remaining-first_ticks,
}

-- Turns in the order of their times, in which each source of each flow has its ticks from zero
-- to its number of messages, in order and each once, and nobody else has one.
pub record IsSchedule (request : TrafficRunRequest) (phases : ℕ → String → ℕ) (turns : Slots)
    : Type 0 where
  pub in_time : InTime request.duration_seconds phases (scheduling_flows request) 0 turns
  pub complete :
      (k : SlotKey)
      → ticks_of k turns ≡ (
          if has_source k (scheduling_flows request)
          then count_up 0 (quota request.duration_seconds phases (scheduling_flows request) k)
          else [])

open_ticks_if :
    (duration : ℕ) (phases : ℕ → String → ℕ) (flows : List TrafficFlow) (k : SlotKey) (b : Bool)
    → open_ticks duration phases flows k (if b then some 0 else none)
      ≡ (if b then count_up 0 (quota duration phases flows k) else [])
open_ticks_if duration phases flows k true =
    let e : quota duration phases flows k - 0 ≡ quota duration phases flows k = omega arith in rw e
open_ticks_if duration phases flows k false = refl

module _ (pb : Protobuf) (parse_identifier : List ℕ → Option (String × ℕ)) (world : ℕ → TurnInput)
    (request : TrafficRunRequest) (phases : ℕ → String → ℕ) where
  -- The loop of a run always ends, with its phase DRAINING or by an exception of one of its turns:
  -- it takes, up to the first exception, the turns of a schedule that goes by the times at which
  -- messages are due and in which every source of every flow has its number of messages, each tick
  -- once and in order.
  pub generate-IsSchedule :
      (g : Generator)
      → (turns : Slots) × (generate pb parse_identifier world request phases g
          ≡ begin_drain pb parse_identifier world request
              (take_turns (source_turn pb parse_identifier world request) turns g))
        × IsSchedule request phases turns
  unfolding generate maximum_sequence
  generate-IsSchedule g =
      let flows = scheduling_flows request in
      let table = first_ticks-IsTable request.duration_seconds phases flows in
      let enough = remaining-first_ticks request.duration_seconds phases flows in
      (
        plan request.duration_seconds phases flows (maximum_sequence request) (first_ticks flows),
        ap (begin_drain pb parse_identifier world request) (
            schedule_loop-plan request.duration_seconds phases flows
              (source_turn pb parse_identifier world request) (maximum_sequence request)
              (first_ticks flows) g table enough),
        record {
          in_time =
              plan-InTime request.duration_seconds phases flows 0 _ _ (NotBefore-start _ _ _ _);
          complete = λ k.
              ticks_of-plan request.duration_seconds phases flows k _ _ table enough
              ∙ ap (open_ticks request.duration_seconds phases flows k) (get-first_ticks k flows)
              ∙ open_ticks_if request.duration_seconds phases flows k (has_source k flows);
        },
      )
