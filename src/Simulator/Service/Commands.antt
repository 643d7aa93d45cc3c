-- ===== src/Simulator/Service/Commands.antt =====
-- The commands and reports that reach the simulation, one after another:
-- backend/app/simulator/service.py.
use meshtastic_lab.Base.{
  ℕ, Bool, true, false, ◌&&◌, if◌then◌else◌, is_some, String, List, [], ◌∷◌, Option, none, some,
}
use meshtastic_lab.Metrics.Packet.{Protobuf}
use meshtastic_lab.Models.Scenario.{Scenario, DirectedLink, TopologyPreset}
use meshtastic_lab.Simulator.Service.{
  LifecycleState, failed, SimulatorService, Commanded, done, conflict, broken,
  schedule_runtime_failure,
}
use meshtastic_lab.Simulator.Service.Lifecycle.{
  Startup, start, stop, reset, replace_scenario, clean_up_failure,
}
use meshtastic_lab.Simulator.Service.Radio.{ServiceProtobuf, on_from_radio}
use meshtastic_lab.Traffic.Controller.Receipts.{FromRadio}
use meshtastic_lab.Simulator.Service.Reports.{on_gateway_event}
use meshtastic_lab.Simulator.Service.Runs.{start_traffic, stop_traffic, settle_late}
use meshtastic_lab.Simulator.Service.Topology.{update_links, apply_topology}
use meshtastic_lab.Traffic.Model.{TrafficRunRequest}
use meshtastic_lab.Traffic.Runner.{Runner}
use meshtastic_lab.Traffic.Schedule.{FailedReceptionSample}

pub data ServiceCommand : Type 0 where
  starts :
      (Runner → Bool × Runner)
      → (String → Bool)
      → Bool
      → Bool
      → String
      → ℕ
      → Startup
      → ServiceCommand
  stops : (Runner → Bool × Runner) → (String → Bool) → ServiceCommand
  resets : String → ServiceCommand
  replaces : Scenario → ServiceCommand
  updates : List DirectedLink → ServiceCommand
  applies : TopologyPreset → ServiceCommand
  starts_traffic :
      String
      → TrafficRunRequest
      → (String → Bool)
      → Option FailedReceptionSample
      → Bool
      → Bool
      → ServiceCommand
  stops_traffic : (Runner → Runner) → ServiceCommand
  settles : (String → Bool) → Runner → ServiceCommand
  fails : String → String → ServiceCommand
  cleans_up : (Runner → Bool × Runner) → (String → Bool) → (Runner → Runner) → ServiceCommand
  hears_gateway : String → String → String → ServiceCommand
  hears_radio : String → FromRadio → (ℕ → String) → ServiceCommand

-- The simulation after a command, whether it returns or raises.
abbrev pub after_command : Commanded → SimulatorService
after_command (done s) = s
after_command (conflict code s) = s
after_command (broken s) = s

abbrev pub is_failed : LifecycleState → Bool
is_failed failed = true
is_failed other = false

-- A failure's cleanup is due. `start`, `stop` and `reset` wait for it, so that it finds the simulation
-- FAILED.
abbrev pub cleanup_due : SimulatorService → Bool
cleanup_due s = is_some s.failure_cleanup && is_failed s.state

-- A report whose handling raises is one that changes nothing here.
abbrev pub or_unchanged : SimulatorService → Option SimulatorService → SimulatorService
or_unchanged s none = s
or_unchanged s (some later) = later

module _ (pb : Protobuf) (decode : List ℕ → Option (String × ℕ)) (sp : ServiceProtobuf) where
  unfoldable pub perform_command : ℕ → ServiceCommand → SimulatorService → SimulatorService
  perform_command now (starts stop_run persisted collision provenance id warmup w) s =
      after_command (start now stop_run persisted collision provenance id warmup w s)
  perform_command now (stops stop_run persisted) s = after_command (stop now stop_run persisted s)
  perform_command now (resets stream_id) s = after_command (reset now stream_id s)
  perform_command now (replaces scenario) s = after_command (replace_scenario scenario s)
  perform_command now (updates links) s = after_command (update_links pb now links s)
  perform_command now (applies preset) s = after_command (apply_topology pb now preset s)
  perform_command now (starts_traffic run_id request persisted sample meanwhile full) s =
      after_command (start_traffic now run_id request persisted sample meanwhile full s)
  perform_command now (stops_traffic stop_run) s = stop_traffic stop_run s
  perform_command now (settles persisted r) s = settle_late persisted r s
  perform_command now (fails category detail) s = schedule_runtime_failure now category detail s
  perform_command now (cleans_up stop_run persisted fail_run) s =
      if cleanup_due s then clean_up_failure now stop_run persisted fail_run s else s
  perform_command now (hears_gateway node kind detail) s = on_gateway_event now node kind detail s
  perform_command now (hears_radio node message queue_error) s =
      or_unchanged s (on_from_radio pb decode sp now node message queue_error s)

  unfoldable pub perform_commands : List (ℕ × ServiceCommand) → SimulatorService → SimulatorService
  perform_commands [] s = s
  perform_commands ((now, command) ∷ commands) s =
      perform_commands commands (perform_command now command s)
