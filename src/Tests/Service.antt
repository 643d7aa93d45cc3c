-- ===== src/Tests/Service.antt =====
-- Concrete simulations for backend/app/simulator/service.py.
use meshtastic_lab.Base.{ℕ, refl, Bool, true, false, String, List, [], ◌∷◌, none, some, arith}
use meshtastic_lab.Metrics.Events.{Detail, init}
use meshtastic_lab.Models.Scenario.{star}
use meshtastic_lab.Simulator.Service.{stopped, SimulatorService}
use meshtastic_lab.Simulator.Service.Commands.{
  ServiceCommand, starts, stops, applies, hears_gateway, cleans_up, resets, hears_radio,
  perform_commands,
}
use meshtastic_lab.Simulator.Service.History.{perform_commands-IsAtRest}
use meshtastic_lab.Simulator.Service.Invariant.{IsAtRest}
use meshtastic_lab.Simulator.Service.Lifecycle.{Startup, Wait, start}
use meshtastic_lab.Simulator.Service.Outcome.{undisturbed, Ends, start-Ends}
use meshtastic_lab.Simulator.Service.Radio.{ServiceProtobuf}
use meshtastic_lab.Simulator.Service.Reports.{local_stats}
use meshtastic_lab.Tests.Scenarios.{pair_scenario}
use meshtastic_lab.Tests.Traffic.{protobuf, parse}
use meshtastic_lab.Traffic.Controller.Receipts.{FromRadio}
use meshtastic_lab.Traffic.Runner.{Runner}

abbrev simulation : SimulatorService
simulation = record {
  scenario = pair_scenario;
  state = stopped;
  simulation_id = none;
  message = Detail.text "Ready";
  warming_up_until = none;
  event_broker = init 100 10 "stream";
  gateways = [];
  verifications = [];
  node_metrics = [];
  nodeinfo_observations = [];
  local_stats_response_ids = [];
  control_packet_id = 1;
  medium = none;
  traffic = none;
  volatile_results = [];
  last_traffic_summary = none;
  failure_cleanup = none;
  starting_up = false;
  measures_lag = false;
  late_finalizations = [];
}

simulation-IsAtRest : IsAtRest simulation
simulation-IsAtRest = record {
  has = (refl, refl, refl, refl);
  bounded = omega arith;
  settled = refl;
}

abbrev service_protobuf : ServiceProtobuf
service_protobuf = record {
  nodeinfo_app = 4;
  telemetry_app = 67;
  parse_telemetry = λ payload. some (local_stats 1 2 3 4);
}

abbrev finalizes : Runner → Bool × Runner
finalizes r = (true, r)

abbrev no_file : String → Bool
no_file run_id = false

abbrev numbers : List (String × ℕ)
numbers = ("a", 10) ∷ ("b", 11) ∷ []

abbrev commands : List (ℕ × ServiceCommand)
commands =
    (1, starts finalizes no_file true true "one" 30 (undisturbed numbers 0 2))
    ∷ (2, applies star)
    ∷ (3, hears_radio "a" FromRadio.other (λ n. "error"))
    ∷ (4, hears_gateway "a" "gateway.failed" "closed")
    ∷ (5, cleans_up finalizes no_file (λ r. r))
    ∷ (6, stops finalizes no_file)
    ∷ (7, resets "fresh")
    ∷ []

perform_commands-IsAtRest_example :
    IsAtRest (perform_commands protobuf parse service_protobuf commands simulation)
perform_commands-IsAtRest_example =
    perform_commands-IsAtRest protobuf parse service_protobuf commands simulation
      simulation-IsAtRest

-- The medium fails while the nodes warm up.
abbrev disturbed : Startup
disturbed = record (undisturbed numbers 0 2) { warm_up = Wait.fails "MEDIUM_FAILED" "a: closed" }

start-Ends_example : Ends (start 5 finalizes no_file true true "one" 30 disturbed simulation)
start-Ends_example = start-Ends 5 finalizes no_file "one" 30 disturbed simulation refl (omega arith)
