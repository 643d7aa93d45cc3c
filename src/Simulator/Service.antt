-- ===== src/Simulator/Service.antt =====
-- The life cycle of a simulation: backend/app/simulator/service.py.
-- A command runs under the life cycle's lock, so it is one step; a failure that comes while `start`
-- waits is an outcome of that wait. What the processes, the gateways and the firmware answer is an
-- argument, and so is how the traffic controller's `stop` ends. Gateways are kept by their node ids,
-- verifications by the node numbers, the medium by its links.
pub mod Lifecycle
pub mod Topology
pub mod Runs
pub mod Reports
pub mod Radio
pub mod Commands
pub mod Invariant
pub mod Starting
pub mod Stopping
pub mod Running
pub mod Reported
pub mod History
pub mod Outcome
use Prim.Native.String.{◌++◌ as append}
use meshtastic_lab.Base.{
  ℕ, ◌+◌, ◌-◌, ◌*◌, min, Bool, true, false, not, ◌&&◌, ◌||◌, String, str_eq, List, [], ◌∷◌, ◌++◌,
  map, Option, none, some, ltb, ◌==◌, if◌then◌else◌, length, is_empty, drop, is_some,
}
use meshtastic_lab.Base.Dict
use meshtastic_lab.Base.Members
use meshtastic_lab.Metrics.Events.{EventBroker, EventType, Detail, packet_event, publish, clear}
use meshtastic_lab.Models.Scenario.{Scenario, Pair, texts, node_ids, link_map}
use meshtastic_lab.Simulator.Medium.{Links}
use meshtastic_lab.Traffic.Model.{TrafficController, TrafficRunState, TrafficRunPhase}
use meshtastic_lab.Traffic.Results.{TrafficResult, TrafficRunSummary}
use meshtastic_lab.Traffic.Runner.{Runner, summary, result_is_finalized}

pub data LifecycleState : Type 0 where
  stopped starting warming_up running stopping failed : LifecycleState

-- `SimulationConflict.code`
pub data Conflict : Type 0 where
  invalid_lifecycle_state native_collision_unavailable build_metadata_unavailable : Conflict
  scenario_locked invalid_link_update unknown_link topology_history_full : Conflict
  traffic_run_active local_stats_unavailable packet_id_quarantine_full : Conflict
  invalid_traffic_request : Conflict

-- `_NodeMetrics`
pub record NodeMetrics : Type 0 where
  pub tx : ℕ
  pub rx : ℕ
  pub rx_bad : ℕ
  pub rx_bad_initialized : Bool
  pub rx_duplicate : ℕ
  pub channel_utilization : Option ℕ

abbrev pub new_metrics : Bool → NodeMetrics
new_metrics initialized = record {
  tx = 0;
  rx = 0;
  rx_bad = 0;
  rx_bad_initialized = initialized;
  rx_duplicate = 0;
  channel_utilization = none;
}

-- `late_finalizations` are the controllers whose finalization is still awaited.
pub record SimulatorService : Type 0 where
  pub scenario : Scenario
  pub state : LifecycleState
  pub simulation_id : Option String
  pub message : Detail
  pub warming_up_until : Option ℕ
  pub event_broker : EventBroker
  pub gateways : List String
  pub verifications : List (String × ℕ)
  pub node_metrics : List (String × NodeMetrics)
  pub nodeinfo_observations : List Pair
  pub local_stats_response_ids : List (String × ℕ)
  pub control_packet_id : ℕ
  pub medium : Option Links
  pub traffic : Option Runner
  pub volatile_results : List (String × TrafficResult)
  pub last_traffic_summary : Option TrafficRunSummary
  pub failure_cleanup : Option Detail
  pub starting_up : Bool
  pub measures_lag : Bool
  pub late_finalizations : List Runner

-- How a command ends: it returns, or raises a conflict or another exception.
pub data Commanded : Type 0 where
  done : SimulatorService → Commanded
  conflict : Conflict → SimulatorService → Commanded
  broken : SimulatorService → Commanded

abbrev pub state_name : LifecycleState → String
state_name stopped = "STOPPED"
state_name starting = "STARTING"
state_name warming_up = "WARMING_UP"
state_name running = "RUNNING"
state_name stopping = "STOPPING"
state_name failed = "FAILED"

-- `_publish_lifecycle`
abbrev pub publish_lifecycle : ℕ → SimulatorService → SimulatorService
publish_lifecycle now s = record s {
  event_broker =
      (publish
        (record (packet_event now EventType.lifecycle) {
          result = some (state_name s.state);
          detail = some s.message;
        })
        s.event_broker).0;
}

abbrev pub enter : ℕ → LifecycleState → Detail → SimulatorService → SimulatorService
enter now state message s = publish_lifecycle now (record s { state = state; message = message })

abbrev pub max_volatile_results : ℕ
max_volatile_results = 8

-- The loop that drops the oldest results.
unfoldable pub bound_results : List (String × TrafficResult) → List (String × TrafficResult)
bound_results results = drop (length results - max_volatile_results) results

-- `_archive_unpersisted_traffic_result`; `persisted` says whether the run's file is there.
unfoldable pub archive_result : (String → Bool) → Runner → SimulatorService → SimulatorService
archive_result persisted r s = elim r.controller.current [
  | none ↦ s
  | some run ↦
      if not (result_is_finalized run.run_id r) || persisted run.run_id
      then s
      else elim r.frozen_result [
        | none ↦ s
        | some result ↦ record s {
          volatile_results =
              bound_results (Dict.put texts result.run.run_id result s.volatile_results);
        }
      ]
]

-- The traffic part of `_cleanup_resources_unlocked`: `stopped_as` is what `traffic.stop` returns and
-- the controller after it.
unfoldable pub stop_controller :
    (Runner → Bool × Runner) → (String → Bool) → SimulatorService → SimulatorService
stop_controller stop_traffic persisted s = elim s.traffic [
  | none ↦ s
  | some r ↦
      let (finalized, ended) = stop_traffic r in
      let noted = record s { last_traffic_summary = summary ended } in
      if finalized
      then archive_result persisted ended noted
      else record noted { late_finalizations = ended ∷ s.late_finalizations }
]

-- `_cleanup_resources_unlocked`
unfoldable pub cleanup_resources :
    (Runner → Bool × Runner) → (String → Bool) → SimulatorService → SimulatorService
cleanup_resources stop_traffic persisted s = record (stop_controller stop_traffic persisted s) {
  measures_lag = false;
  medium = none;
  traffic = none;
  gateways = [];
  verifications = [];
}

-- `_schedule_runtime_failure` behind its guard.
abbrev pub fail_simulation : ℕ → String → String → SimulatorService → SimulatorService
fail_simulation now category detail s =
    let message = Detail.text (append category (append ": " detail)) in
    record (enter now failed message s) {
      failure_cleanup =
          if s.starting_up || is_some s.failure_cleanup then s.failure_cleanup else some message;
    }

abbrev pub fail_in : LifecycleState → ℕ → String → String → SimulatorService → SimulatorService
fail_in stopping now category detail s = s
fail_in stopped now category detail s = s
fail_in failed now category detail s = s
fail_in other now category detail s = fail_simulation now category detail s

-- `_schedule_runtime_failure`
unfoldable pub schedule_runtime_failure : ℕ → String → String → SimulatorService → SimulatorService
schedule_runtime_failure now category detail s = fail_in s.state now category detail s
