-- ===== src/Simulator/Service/Runs.antt =====
-- Traffic runs of a simulation: `start_traffic`, `stop_traffic`, `traffic_result` and what belongs to
-- them of backend/app/simulator/service.py. The files of earlier results are an argument.
use meshtastic_lab.Base.{
  ℕ, Bool, true, false, not, String, str_eq, List, ◌++◌, map, Option, none, some, if◌then◌else◌,
}
use meshtastic_lab.Base.Dict
use meshtastic_lab.Base.Members
use meshtastic_lab.Models.Scenario.{texts, node_ids}
use meshtastic_lab.Simulator.Service.{
  Conflict, SimulatorService, Commanded, done, conflict, archive_result,
}
use meshtastic_lab.Simulator.Service.Topology.{is_running}
use meshtastic_lab.Traffic.Model.{TrafficRunRequest, TrafficRunState}
use meshtastic_lab.Traffic.Results.{TrafficResult, TrafficRunSummary}
use meshtastic_lab.Traffic.Runner.{Runner, start_run, summary, result_is_finalized}
use meshtastic_lab.Traffic.Schedule.{
  FailedReceptionSample, StartError, already_active, too_many_messages, payload_too_small, invalid,
  Started, refused, started, start,
}

abbrev pub is_run_active : TrafficRunState → Bool
is_run_active TrafficRunState.running = true
is_run_active TrafficRunState.stopping = true
is_run_active other = false

-- The `except` clauses around `traffic.start`.
abbrev pub start_conflict : StartError → Conflict
start_conflict already_active = Conflict.traffic_run_active
start_conflict too_many_messages = Conflict.invalid_traffic_request
start_conflict payload_too_small = Conflict.invalid_traffic_request
start_conflict (invalid error) = Conflict.invalid_traffic_request

-- What `traffic.start` leaves; `quarantine_full` is the PacketIdQuarantineCapacityError, which comes
-- after all other checks.
unfoldable pub start_outcome : Bool → Started → Runner → SimulatorService → Commanded
start_outcome quarantine_full (refused error) r s = conflict (start_conflict error) s
start_outcome true (started c) r s = conflict Conflict.packet_id_quarantine_full s
start_outcome false (started c) r s = done (record s { traffic = some (start_run (started c) r) })

-- `start_traffic` behind the sample; `stopped_meanwhile` says that the simulation does not run any
-- more, or has another controller.
unfoldable pub start_sampled :
    ℕ
    → String
    → TrafficRunRequest
    → (String → Bool)
    → Bool
    → Bool
    → FailedReceptionSample
    → Runner
    → SimulatorService
    → Commanded
start_sampled now run_id request persisted stopped_meanwhile quarantine_full baseline r s =
    if stopped_meanwhile
    then conflict Conflict.invalid_lifecycle_state s
    else start_outcome quarantine_full
        (start r.active now run_id request (node_ids s.scenario) (some baseline) r.controller) r
        (archive_result persisted r s)

-- `start_traffic`; a sample that is not taken is the exception of `_sample_local_stats`.
unfoldable pub start_traffic :
    ℕ
    → String
    → TrafficRunRequest
    → (String → Bool)
    → Option FailedReceptionSample
    → Bool
    → Bool
    → SimulatorService
    → Commanded
start_traffic now run_id request persisted sample stopped_meanwhile quarantine_full s =
    elim s.traffic [
      | none ↦ conflict Conflict.invalid_lifecycle_state s
      | some r ↦
          if not (is_running s.state)
          then conflict Conflict.invalid_lifecycle_state s
          else if is_run_active r.controller.state
          then conflict Conflict.traffic_run_active s
          else elim sample [
            | none ↦ conflict Conflict.local_stats_unavailable s
            | some baseline ↦
                start_sampled now run_id request persisted stopped_meanwhile quarantine_full
                  baseline r s
          ]
    ]

-- `stop_traffic`; the argument is the traffic controller's `stop`.
unfoldable pub stop_traffic : (Runner → Runner) → SimulatorService → SimulatorService
stop_traffic stop s = elim s.traffic [ none ↦ s | some r ↦ record s { traffic = some (stop r) } ]

abbrev pub is_current : String → Option Runner → Bool
is_current run_id none = false
is_current run_id (some r) = elim r.controller.current [
  | none ↦ false
  | some run ↦ str_eq run.run_id run_id
]

-- Where the result of a run is found: with the controller, which has a terminal result or not yet, in
-- a file, among the volatile ones, or nowhere, a FileNotFoundError.
pub data Found : Type 0 where
  of_controller : Runner → Found
  in_file : Found
  volatile : TrafficResult → Found
  not_found : Found

abbrev pub found_volatile : Option TrafficResult → Found
found_volatile none = not_found
found_volatile (some result) = volatile result

abbrev pub found_elsewhere : (String → Bool) → String → SimulatorService → Found
found_elsewhere persisted run_id s =
    if persisted run_id then in_file else found_volatile (Dict.get texts run_id s.volatile_results)

-- `traffic_result`
unfoldable pub traffic_result : (String → Bool) → String → SimulatorService → Found
traffic_result persisted run_id s = elim s.traffic [
  | none ↦ found_elsewhere persisted run_id s
  | some r ↦
      if is_current run_id (some r) then of_controller r else found_elsewhere persisted run_id s
]

-- `traffic_result_is_complete`; `none` is the FileNotFoundError.
unfoldable pub traffic_result_is_complete :
    (String → Bool) → String → SimulatorService → Option Bool
traffic_result_is_complete persisted run_id s = elim (traffic_result persisted run_id s) [
  | of_controller r ↦ some (result_is_finalized run_id r)
  | in_file ↦ some true
  | volatile result ↦ some true
  | not_found ↦ none
]

-- `current_traffic_summary`
unfoldable pub current_traffic_summary : SimulatorService → Option TrafficRunSummary
current_traffic_summary s = elim s.traffic [ none ↦ s.last_traffic_summary | some r ↦ summary r ]

-- `completed_runs`, not sorted.
unfoldable pub completed_runs : List String → SimulatorService → List String
completed_runs files s = Members.distinct texts (files ++ map (λ e. e.0) s.volatile_results)

-- `_settle_late_traffic_finalization` after the finalization; `run` is the controller's run.
unfoldable pub settle_late : (String → Bool) → Runner → SimulatorService → SimulatorService
settle_late persisted r s =
    let replaces : Bool = elim (summary r) [
      | none ↦ false
      | some now ↦ elim s.last_traffic_summary [
        | none ↦ true
        | some last ↦ str_eq last.run_id now.run_id
      ]
    ] in
    archive_result persisted r
      (if replaces then record s { last_traffic_summary = summary r } else s)
