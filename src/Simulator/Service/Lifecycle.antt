-- ===== src/Simulator/Service/Lifecycle.antt =====
-- The commands on the life cycle: `start`, `stop`, `reset`, `replace_scenario` and the cleanup after
-- a failure of backend/app/simulator/service.py.
use Prim.Native.String.{◌++◌ as append}
use meshtastic_lab.Base.{
  ℕ, ◌+◌, ◌-◌, ◌*◌, min, Bool, true, false, not, String, List, [], map, none, some, ◌==◌,
  if◌then◌else◌, length, Option,
}
use meshtastic_lab.Metrics.Events.{Detail, clear}
use meshtastic_lab.Models.Scenario.{Scenario, node_ids, link_map}
use meshtastic_lab.Models.Scenario.Defaults.{default_scenario}
use meshtastic_lab.Simulator.Service.{
  LifecycleState, stopped, starting, warming_up, running, stopping, failed, Conflict, new_metrics,
  SimulatorService, Commanded, done, conflict, broken, publish_lifecycle, enter, cleanup_resources,
  schedule_runtime_failure,
}
use meshtastic_lab.Traffic.Init.{new_controller, new_runner}
use meshtastic_lab.Traffic.Runner.{Runner}

-- What a wait of `start` brings: it goes on, raises, or goes on after a failure of a process, a
-- gateway or the medium, with its category and detail.
pub data Wait : Type 0 where
  goes_on : Wait
  raises : String → Wait
  fails : String → String → Wait

-- The waits of `start`, in their order: for the processes, the gateways, the configuration of the
-- nodes, the medium, the warm-up and the public clients. The configuration gives the nodes' numbers,
-- the warm-up the pairs that are missing and those expected.
pub record Startup : Type 0 where
  pub processes : Wait
  pub gateways : Wait
  pub configuration : Wait
  pub node_numbers : List (String × ℕ)
  pub medium : Wait
  pub warm_up : Wait
  pub missing_pairs : ℕ
  pub expected_pairs : ℕ
  pub clients : Wait

-- Where `start` stands: it goes on, or has raised an exception.
pub data Progress : Type 0 where
  reached : SimulatorService → Progress
  raised : String → SimulatorService → Progress

-- `_warmup_deadline_seconds`
unfoldable pub warmup_deadline_seconds : SimulatorService → ℕ
warmup_deadline_seconds s = min 30 (10 + 2 * length s.scenario.nodes)

module _ (now : ℕ) where
  -- A wait with the `_raise_if_startup_failed` behind it.
  unfoldable pub await : Wait → Progress → Progress
  await goes_on (reached s) = reached s
  await (raises error) (reached s) = raised error s
  await (fails category detail) (reached s) =
      raised (append category (append ": " detail)) (schedule_runtime_failure now category detail s)
  await wait (raised error s) = raised error s

  abbrev pub after : (SimulatorService → SimulatorService) → Progress → Progress
  after f (reached s) = reached (f s)
  after f (raised error s) = raised error s

  abbrev pub begin_startup : String → SimulatorService → SimulatorService
  begin_startup id s =
      record (enter now starting (Detail.text "Starting native firmware processes")
        (record s { simulation_id = some id })) { starting_up = true }

  abbrev pub create_gateways : SimulatorService → SimulatorService
  create_gateways s = record s {
    node_metrics = map (λ id. (id, new_metrics s.scenario.fresh_state)) (node_ids s.scenario);
    local_stats_response_ids = [];
    gateways = node_ids s.scenario;
  }

  abbrev pub configure : SimulatorService → SimulatorService
  configure s = record s { message = Detail.text "Configuring and verifying native nodes" }

  abbrev pub create_medium : List (String × ℕ) → SimulatorService → SimulatorService
  create_medium numbers s = record s {
    verifications = numbers;
    traffic =
        some
          (new_runner (new_controller now numbers (node_ids s.scenario) s.event_broker.stream_id));
    medium = some (link_map s.scenario);
  }

  abbrev pub begin_warm_up : ℕ → SimulatorService → SimulatorService
  begin_warm_up warmup_seconds s =
      let until = now + warmup_deadline_seconds s + warmup_seconds in
      record (enter now warming_up
        (Detail.text "Firmware is exchanging NodeInfo and establishing routes")
        (record s { warming_up_until = some until })) { nodeinfo_observations = [] }

  -- `fewer` are the pairs that were observed, of those expected, if some are missing.
  abbrev pub begin_running : ℕ → ℕ → SimulatorService → SimulatorService
  begin_running missing expected s =
      let fewer = if missing == 0 then none else some (expected - missing, expected) in
      enter now running (Detail.nodes_running (length s.gateways) fewer)
        (record s { warming_up_until = none; measures_lag = true })

  -- The `try` block of `start`.
  unfoldable pub startup : String → ℕ → Startup → SimulatorService → Progress
  unfolding await
  startup id warmup_seconds w s = after (begin_running w.missing_pairs w.expected_pairs) (
      await w.clients (
        await w.warm_up (
          after (begin_warm_up warmup_seconds) (
            await w.medium (
              after (create_medium w.node_numbers) (
                await w.configuration (
                  after configure (
                    await w.gateways (
                      after create_gateways
                        (await w.processes (reached (begin_startup id s))))))))))))

  module _ (stop_traffic : Runner → Bool × Runner) (persisted : String → Bool) where
    -- The end of `start`, with its `except` and `finally`.
    abbrev pub end_startup : Progress → Commanded
    end_startup (reached s) = done (record s { starting_up = false })
    end_startup (raised error s) =
        broken
          (record (cleanup_resources stop_traffic persisted
            (enter now failed (Detail.text (append "Startup failed: " error)) s)) {
              starting_up = false;
            })

    -- `start` from STOPPED, or from FAILED after the cleanup.
    unfoldable pub start_stopped : Bool → Bool → String → ℕ → Startup → SimulatorService → Commanded
    start_stopped collision provenance id warmup_seconds w s =
        if not collision
        then conflict Conflict.native_collision_unavailable s
        else if not provenance
        then conflict Conflict.build_metadata_unavailable s
        else end_startup (startup id warmup_seconds w s)

    abbrev pub start_in :
        LifecycleState → Bool → Bool → String → ℕ → Startup → SimulatorService → Commanded
    start_in running collision provenance id warmup_seconds w s = done s
    start_in warming_up collision provenance id warmup_seconds w s = done s
    start_in stopped collision provenance id warmup_seconds w s =
        start_stopped collision provenance id warmup_seconds w s
    start_in failed collision provenance id warmup_seconds w s =
        start_stopped collision provenance id warmup_seconds w
          (cleanup_resources stop_traffic persisted s)
    start_in other collision provenance id warmup_seconds w s =
        conflict Conflict.invalid_lifecycle_state s

    -- `start`; `collision` and `provenance` are what `capabilities` finds.
    unfoldable pub start : Bool → Bool → String → ℕ → Startup → SimulatorService → Commanded
    start collision provenance id warmup_seconds w s =
        start_in s.state collision provenance id warmup_seconds w s

    -- `stop` behind its guard.
    abbrev pub stop_simulation : SimulatorService → SimulatorService
    stop_simulation s =
        enter now stopped (Detail.text "Stopped")
          (record (cleanup_resources stop_traffic persisted (
            enter now stopping (Detail.text "Stopping traffic, gateways, and native processes")
              s)) { simulation_id = none; warming_up_until = none })

    abbrev pub stop_in : LifecycleState → SimulatorService → Commanded
    stop_in stopped s = done s
    stop_in other s = done (stop_simulation s)

    -- `stop`
    unfoldable pub stop : SimulatorService → Commanded
    stop s = stop_in s.state s

    -- `_fail_traffic_and_cleanup`, the task that a failure leaves behind; `fail_traffic` is what the
    -- traffic controller's `fail` does.
    unfoldable pub clean_up_failure : (Runner → Runner) → SimulatorService → SimulatorService
    clean_up_failure fail_traffic s =
        record (cleanup_resources stop_traffic persisted
          (elim s.traffic [ none ↦ s | some r ↦ record s { traffic = some (fail_traffic r) } ])) {
            failure_cleanup = none;
          }

  -- `reset` behind its guard; a default scenario that does not validate would be an exception.
  abbrev pub reset_to : Option Scenario → String → SimulatorService → Commanded
  reset_to none stream_id s = broken s
  reset_to (some scenario) stream_id s =
      let published = publish_lifecycle now (record s {
        scenario = scenario;
        message =
            Detail.text
              "Scenario reset to the five-node full mesh; packet evidence and daemon logs were cleared; saved runs were preserved";
      }) in
      done (record published { event_broker = clear now stream_id published.event_broker })

  abbrev pub reset_in : LifecycleState → String → SimulatorService → Commanded
  reset_in stopped stream_id s = reset_to (default_scenario 5) stream_id s
  reset_in other stream_id s = conflict Conflict.invalid_lifecycle_state s

  -- `reset`; `stream_id` is the fresh one of the cleared event broker.
  unfoldable pub reset : String → SimulatorService → Commanded
  reset stream_id s = reset_in s.state stream_id s

abbrev pub replace_in : LifecycleState → Scenario → SimulatorService → Commanded
replace_in stopped scenario s = done (record s { scenario = scenario })
replace_in other scenario s = conflict Conflict.scenario_locked s

-- `replace_scenario`
unfoldable pub replace_scenario : Scenario → SimulatorService → Commanded
replace_scenario scenario s = replace_in s.state scenario s
