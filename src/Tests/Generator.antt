-- ===== src/Tests/Generator.antt =====
-- A concrete schedule for `_run` of backend/app/traffic/controller.py.
use meshtastic_lab.Base.{ℕ, ◌≡◌, refl, String, List, [], ◌∷◌, none, some}
use meshtastic_lab.Base.Dict
use meshtastic_lab.Tests.Traffic.{protobuf, parse, request, running}
use meshtastic_lab.Traffic.Generator.{
  TurnInput, first_generator, source_turn, begin_drain, generate,
}
use meshtastic_lab.Traffic.Generator.Turns.{IsSchedule, generate-IsSchedule}
use meshtastic_lab.Traffic.Model.{TrafficFlow, TrafficRunRequest, fixed, aligned, evenly_staggered}
use meshtastic_lab.Traffic.Schedule.{messages_per_source, nth}
use meshtastic_lab.Traffic.Timetable.{
  SlotKey, earliest, precedes, due, quota, advance, offsets_from, source_orders, flow_orders,
  first_ticks,
}
use meshtastic_lab.Traffic.Timetable.Plan.{plan, take_turns}

-- Two sources that send twice in a minute, by turns, and one that sends once in the minute.
abbrev fast : TrafficFlow
fast = record {
  name = "fast";
  source_nodes = "a" ∷ "b" ∷ [];
  destination_strategy = fixed;
  fixed_destination = some "c";
  messages_per_minute = 2000;
  source_timing = evenly_staggered;
}

abbrev slow : TrafficFlow
slow = record fast { name = "slow"; messages_per_minute = 1000; source_timing = aligned }

abbrev two_flows : List TrafficFlow
two_flows = fast ∷ record slow { source_nodes = "b" ∷ [] } ∷ []

abbrev no_phase : ℕ → String → ℕ
no_phase flow source = 0

-- At 0 s both flows begin, in their order; then the second source of the first flow, and again both.
plan_of_flows :
    plan 60_000 no_phase two_flows 9 (first_ticks two_flows)
    ≡ ((0, "a"), 0) ∷ ((1, "b"), 0) ∷ ((0, "b"), 0) ∷ ((0, "a"), 1) ∷ ((0, "b"), 1) ∷ []
unfolding plan earliest precedes due quota advance offsets_from source_orders flow_orders
    messages_per_source nth Dict.get Dict.put Dict.delete Dict.number
plan_of_flows = refl

abbrev calm : ℕ → TurnInput
calm n = record {
  reports = [];
  now = n;
  choice = λ nodes. none;
  draws = n ∷ [];
  airtime = 1;
  delay = 1;
  refused = none;
}

abbrev two_flow_request : TrafficRunRequest
two_flow_request = record request { flows = two_flows }

generate-IsSchedule_example :
    (turns : List (SlotKey × ℕ)) × (generate protobuf parse calm two_flow_request no_phase
        (first_generator protobuf parse calm two_flow_request [] running)
      ≡ begin_drain protobuf parse calm two_flow_request (
          take_turns
            (source_turn protobuf parse calm two_flow_request)
            turns
            (first_generator protobuf parse calm two_flow_request [] running)))
    × IsSchedule two_flow_request no_phase turns
generate-IsSchedule_example =
    generate-IsSchedule protobuf parse calm two_flow_request no_phase
      (first_generator protobuf parse calm two_flow_request [] running)
