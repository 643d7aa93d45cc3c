-- ===== src/Traffic/Runner.antt =====
-- A run's end and its result: `stop`, `fail`, `_finish`, `_wait_for_active_finalization`,
-- `summary` and the end of `_run` of
-- backend/app/traffic/controller.py.
-- What a wait brings is an argument: the controller when the finalization that was under way has
-- ended, or none after the time limit; what the sampler of the nodes' statistics answers, or none
-- when it raises; and the error of the file system, if it raised one. While the result is written
-- the phase is FINALIZING, in which no report changes the controller.
pub mod Late
pub mod Sampled
pub mod Finish
use mathlib.Core.Option
use meshtastic_lab.Base.{
  ℕ, Bool, true, false, not, ◌||◌, String, str_eq, ◌++◌, Option, none, some, if◌then◌else◌,
}
use meshtastic_lab.Metrics.Calculations.{MetricsSnapshot}
use meshtastic_lab.Metrics.Packet.{Protobuf}
use meshtastic_lab.Traffic.Model.{TrafficController, TrafficRun, TrafficRunState, TrafficRunPhase}
use meshtastic_lab.Traffic.Controller.{metric_events, is_active_state}
use meshtastic_lab.Traffic.Controller.Submission.{is_some, finalize_pending_submissions}
use meshtastic_lab.Traffic.Results.{
  TrafficResult, terminal_result, frozen, TrafficRunSummary, summarize_result, live_summary,
  final_metrics, live_metrics_snapshot, summary_metrics,
}
use meshtastic_lab.Traffic.Sampling.{sample_final_failed_receptions}
use meshtastic_lab.Traffic.Schedule.{FailedReceptionSample, Started, refused, started}

-- The controller with its task and its result; `active` is a task that is not done.
pub record Runner : Type 0 where
  pub controller : TrafficController
  pub active : Bool
  pub frozen_result : Option TrafficResult
  pub finalization_done : Bool
  pub finalization_wait_timed_out : Bool

-- `finished`: the call returns; `raised`: an exception leaves it.
pub data Ended : Type 0 where
  finished : Bool → Runner → Ended
  raised : Runner → Ended

abbrev pub with_controller : TrafficController → Runner → Runner
with_controller c r = record r { controller = c }

-- `_wait_for_active_finalization`: the first part is its result.
unfoldable pub wait_for_active_finalization : Option Runner → Runner → Bool × Runner
wait_for_active_finalization other r =
    if r.finalization_done
    then (true, r)
    else if r.finalization_wait_timed_out
    then (false, r)
    else elim other [
      | some later ↦ (true, later)
      | none ↦ (false, record r { finalization_wait_timed_out = true })
    ]

-- The end of `_finish`.
unfoldable pub freeze : ℕ → MetricsSnapshot → TrafficResult → Runner → Runner
freeze now metrics result r =
    let c = r.controller in
    record r {
      controller = record c {
        current = some result.run;
        state = result.state;
        phase = TrafficRunPhase.terminal;
        published = c.published ++ metric_events now "snapshot" (summary_metrics metrics) c;
      };
      frozen_result = some result;
      finalization_done = true;
    }

module _ (pb : Protobuf) where
  -- `_finish` in the phase FINALIZING, after the pending submissions; without a run,
  -- `current.model_copy` raises.
  unfoldable pub finalize_run : ℕ → TrafficRunState → Option String → Runner → Ended
  finalize_run now state error r =
      let c = r.controller in
      elim c.current [
        | none ↦ raised (record r { finalization_done = true })
        | some run ↦ elim (final_metrics run c) [
          | none ↦ raised (record r { finalization_done = true })
          | some metrics ↦
              finished true
                (freeze now metrics (frozen error (terminal_result now state run metrics c)) r)
        ]
      ]

  abbrev pub finalizing : ℕ → Runner → Runner
  finalizing now r =
      with_controller
        (finalize_pending_submissions pb now
          (record (r.controller) { phase = TrafficRunPhase.finalizing }))
        (record r { finalization_done = false })

  -- `_finish`
  unfoldable pub finish : ℕ → TrafficRunState → Option Runner → Option String → Runner → Ended
  finish now state other error r =
      if not (is_some r.controller.current) || is_some r.frozen_result
      then finished true r
      else let (done, later) = wait_for_active_finalization other r in
        if done then finalize_run now state error (finalizing now later) else finished false later

  -- `_cancel_run_task` and what follows it in `stop` and `fail`.
  abbrev pub wind_up : ℕ → Option FailedReceptionSample → Runner → Runner
  wind_up now answer r = record r {
    active = false;
    controller =
        sample_final_failed_receptions pb now answer
          (finalize_pending_submissions pb now r.controller);
  }

  -- `terminal` of `stop`
  abbrev pub terminal_of : TrafficRunState → TrafficRunState
  terminal_of TrafficRunState.failed = TrafficRunState.failed
  terminal_of other = TrafficRunState.cancelled

  -- The end of `stop`, when the run's task and the sampler have ended.
  unfoldable pub end_stop :
      ℕ → Option FailedReceptionSample → Option Runner → Option String → Runner → Ended
  end_stop now answer again error w =
      if is_some w.frozen_result
      then finished true (wind_up now answer w)
      else finish now (terminal_of w.controller.state) again error (wind_up now answer w)

  -- `stop` behind the wait for a finalization. `waited` is what other tasks do while it waits for the
  -- run's task and for the sampler: late reports, or an end that the run's task reaches by itself.
  -- `again` is what the wait of `_finish` brings.
  unfoldable pub stop_run :
      ℕ
      → (Runner → Runner)
      → Option FailedReceptionSample
      → Option Runner
      → Option String
      → Runner
      → Ended
  stop_run now waited answer again error r = elim r.controller.state [
    | TrafficRunState.failed ↦
        let w = waited r in
        let c = sample_final_failed_receptions pb now answer w.controller in
        let ended = record w { active = false; controller = c } in
        if is_some w.frozen_result
        then finished true ended
        else finish now TrafficRunState.failed again error ended
    | _ ↦
        if not r.active
        then finished true r
        else end_stop now answer again error (
            waited (with_controller (record (r.controller) { state = TrafficRunState.stopping }) r))
  ]

  -- `stop`
  unfoldable pub stop :
      ℕ
      → Option Runner
      → (Runner → Runner)
      → Option FailedReceptionSample
      → Option Runner
      → Option String
      → Runner
      → Ended
  stop now other waited answer again error r =
      if is_some r.frozen_result
      then finished true r
      else let (done, later) = wait_for_active_finalization other r in
        if done then stop_run now waited answer again error later else finished false later

  -- The end of `fail`, when the run's task and the sampler have ended.
  unfoldable pub end_fail :
      ℕ → Option FailedReceptionSample → Option Runner → Option String → Runner → Ended
  end_fail now answer again error w =
      if is_some w.frozen_result
      then finished true (wind_up now answer w)
      else finish now TrafficRunState.failed again error (wind_up now answer w)

  -- What `fail` does to the run before its waits.
  abbrev pub failing : String → TrafficRun → Runner → Runner
  failing reason run r =
      with_controller
        (record (r.controller) {
          state = TrafficRunState.stopping;
          current = some (record run { failure = some reason });
        })
        r

  -- `fail` behind the wait for a finalization; `waited` is as in `stop`.
  unfoldable pub fail_run :
      ℕ
      → String
      → (Runner → Runner)
      → Option FailedReceptionSample
      → Option Runner
      → Option String
      → Runner
      → Ended
  fail_run now reason waited answer again error r = elim r.controller.current [
    | none ↦ finished true r
    | some run ↦
        if not (is_active_state true r.controller.state)
        then finished true r
        else end_fail now answer again error (waited (failing reason run r))
  ]

  -- `fail`
  unfoldable pub fail :
      ℕ
      → String
      → Option Runner
      → (Runner → Runner)
      → Option FailedReceptionSample
      → Option Runner
      → Option String
      → Runner
      → Ended
  fail now reason other waited answer again error r =
      let (done, later) = wait_for_active_finalization other r in
      if done then fail_run now reason waited answer again error later else finished false later

  -- The end of `_run` after the drain.
  unfoldable pub complete_run :
      ℕ → Option FailedReceptionSample → Option Runner → Option String → Runner → Ended
  complete_run now answer other error r =
      finish now TrafficRunState.completed other error
        (with_controller (sample_final_failed_receptions pb now answer r.controller) r)

  -- The `except Exception` of `_run`.
  unfoldable pub crash_run : ℕ → String → Option Runner → Option String → Runner → Ended
  crash_run now reason other error r =
      let c = record (r.controller) { state = TrafficRunState.stopping } in
      finish now TrafficRunState.failed other error (
        with_controller
          (elim c.current [
            | none ↦ c
            | some run ↦ record c { current = some (record run { failure = some reason }) }
          ])
          r)

-- `start` as it leaves the result and the task.
unfoldable pub start_run : Started → Runner → Runner
start_run (refused error) r = r
start_run (started c) r = record r {
  controller = c;
  active = true;
  frozen_result = none;
  finalization_wait_timed_out = false;
}

-- `summary`; the live metrics are always there.
unfoldable pub summary : Runner → Option TrafficRunSummary
summary r = elim r.frozen_result [
  | some result ↦ if is_some r.controller.current then some (summarize_result result) else none
  | none ↦ elim r.controller.current [
    | none ↦ none
    | some run ↦ Option.map (live_summary run r.controller) (live_metrics_snapshot run r.controller)
  ]
]

-- `result_is_finalized`
unfoldable pub result_is_finalized : String → Runner → Bool
result_is_finalized run_id r = elim r.frozen_result [
  | none ↦ false
  | some result ↦ str_eq result.run.run_id run_id
]
