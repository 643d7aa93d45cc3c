-- ===== src/Traffic/Runner/Finish.antt =====
-- How a run ends: `_finish`, `stop`, `fail` and the end of `_run` of
-- backend/app/traffic/controller.py.
use meshtastic_lab.Base.{
  List, ℕ, ◌≡◌, ◌∙◌, refl, sym, ap, subst, true, String, [], Option, none, some, length,
}
use meshtastic_lab.Base.Members
use meshtastic_lab.Models.Scenario.{numbers}
use meshtastic_lab.Metrics.Calculations.{MetricsSnapshot, calculate_metrics, snapshot_of}
use meshtastic_lab.Metrics.Packet.{Protobuf}
use meshtastic_lab.Traffic.Model.{TrafficController, TrafficRun, TrafficRunState, TrafficRunPhase}
use meshtastic_lab.Traffic.Controller.Accounts.{HasAccounts}
use meshtastic_lab.Traffic.Controller.Ledger.{submitted_bit, failed_bit, transmitted_bit}
use meshtastic_lab.Traffic.Controller.Store.{sum_of}
use meshtastic_lab.Traffic.Controller.Submission.{finalize_pending_submissions}
use meshtastic_lab.Traffic.Results.{
  TrafficResult, frozen, terminal_result, persistence_failure, final_metrics, final_input,
}
use meshtastic_lab.Traffic.Runner.Sampled.{
  failure_of, IsUnderway, finalize_pending_submissions-IsUnderway,
  sample_final_failed_receptions-IsUnderway,
}
use meshtastic_lab.Traffic.Sampling.{sample_final_failed_receptions}
use meshtastic_lab.Traffic.Schedule.{FailedReceptionSample}
use meshtastic_lab.Traffic.Runner.{
  end_stop, terminal_of, Runner, stop, stop_run, complete_run, wind_up, with_controller, Ended,
  finished, freeze, finalize_run, finalizing, finish, wait_for_active_finalization,
}

-- The outcome of the run: what its task or its stop says, or FAILED if the result was not written.
abbrev pub outcome : Option String → TrafficRunState → TrafficRunState
outcome none state = state
outcome (some error) state = TrafficRunState.failed

-- The failure that the result shows.
abbrev pub failure_shown : Option String → Option String → Option String
failure_shown none failure = failure
failure_shown (some error) failure = some (persistence_failure failure error)

-- The result's counters are those of its own messages, and its deliveries are the size of the run's
-- set of delivered messages.
pub record IsTrue (delivered_sequences : List ℕ) (result : TrafficResult) : Type 0 where
  pub requested : result.run.requested ≡ length result.generated_messages
  pub submitted : result.run.submitted ≡ sum_of submitted_bit result.generated_messages
  pub submission_failed : result.run.submission_failed ≡ sum_of failed_bit result.generated_messages
  pub transmitted : result.transmitted ≡ sum_of transmitted_bit result.generated_messages
  pub delivered : result.delivered ≡ length (Members.distinct numbers delivered_sequences)

-- A controller whose run has ended with this result.
pub record IsTerminal (result : TrafficResult) (r : Runner) : Type 0 where
  pub frozen_as : r.frozen_result ≡ some result
  pub shown : r.controller.current ≡ some result.run
  pub state : r.controller.state ≡ result.state
  pub phase : r.controller.phase ≡ TrafficRunPhase.terminal
  pub nothing_pending : r.controller.pending_submissions ≡ []
  pub finalized : r.finalization_done ≡ true

-- A call that ends the run in a state, with a failure.
pub record Settles (state : TrafficRunState) (failure error : Option String) (ended : Ended)
    : Type 0 where
  pub runner : Runner
  pub result : TrafficResult
  pub returns : ended ≡ finished true runner
  pub terminal : IsTerminal result runner
  pub outcome_of : result.state ≡ outcome error state
  pub failed_as : result.run.failure ≡ failure_shown error failure
  pub counted : IsTrue runner.controller.delivered_sequences result

frozen-IsTrue :
    (error : Option String) (sequences : List ℕ) (result : TrafficResult)
    → IsTrue sequences result
    → IsTrue sequences (frozen error result)
unfolding frozen
frozen-IsTrue none sequences result v = v
frozen-IsTrue (some error) sequences result v = record {
  requested = v.requested;
  submitted = v.submitted;
  submission_failed = v.submission_failed;
  transmitted = v.transmitted;
  delivered = v.delivered;
}

frozen-state :
    (error : Option String) (result : TrafficResult)
    → (frozen error result).state ≡ outcome error result.state
unfolding frozen
frozen-state none result = refl
frozen-state (some error) result = refl

frozen-failure :
    (error : Option String) (result : TrafficResult)
    → (frozen error result).run.failure ≡ failure_shown error result.run.failure
unfolding frozen
frozen-failure none result = refl
frozen-failure (some error) result = refl

final_metrics-returns :
    (run : TrafficRun) (c : TrafficController)
    → HasAccounts c
    → (metrics : MetricsSnapshot) × (final_metrics run c ≡ some metrics)
unfolding final_metrics calculate_metrics
final_metrics-returns run c v = (
  snapshot_of (final_input run c) c.per_node_airtime_ms,
  rw (final_metrics, calculate_metrics, v.airtimes_by_node) refl,
)

module _ (pb : Protobuf) (now : ℕ) where
  finalize_run-Settles :
      (state : TrafficRunState) (failure error : Option String) (r : Runner)
      → r.controller.pending_submissions ≡ []
      → IsUnderway failure r.controller
      → Settles state failure error (finalize_run pb now state error r)
  unfolding finalize_run freeze
  finalize_run-Settles state failure error r empty u =
      let c = r.controller in
      let (metrics, e) = final_metrics-returns u.run c u.accounts in
      let result = terminal_result now state u.run metrics c in
      record {
        runner = freeze now metrics (frozen error result) r;
        result = frozen error result;
        returns = simp (u.shown, finalize_run, e);
        terminal = record {
          frozen_as = refl;
          shown = refl;
          state = refl;
          phase = refl;
          nothing_pending = empty;
          finalized = refl;
        };
        outcome_of = frozen-state error result;
        failed_as =
            frozen-failure error result
            ∙ ap (failure_shown error) (ap failure_of (sym u.shown) ∙ u.failed_as);
        counted = frozen-IsTrue error c.delivered_sequences result (record {
          requested = u.true_counters.all_generated;
          submitted = u.true_counters.all_submitted;
          submission_failed = u.true_counters.all_failed;
          transmitted = u.true_counters.all_transmitted;
          delivered = u.accounts.unique;
        });
      }

  finish_open :
      (state : TrafficRunState) (other : Option Runner) (error : Option String) (r : Runner)
      (run : TrafficRun)
      → r.controller.current ≡ some run
      → r.frozen_result ≡ none
      → r.finalization_done ≡ true
      → finish pb now state other error r ≡ finalize_run pb now state error (finalizing pb now r)
  unfolding finish wait_for_active_finalization
  finish_open state other error r run at_run unfrozen done =
      simp (finish, at_run, unfrozen, done, wait_for_active_finalization)

  finish-Settles :
      (state : TrafficRunState) (failure : Option String) (other : Option Runner)
      (error : Option String) (r : Runner)
      → r.frozen_result ≡ none
      → r.finalization_done ≡ true
      → IsUnderway failure r.controller
      → Settles state failure error (finish pb now state other error r)
  unfolding finalize_pending_submissions
  finish-Settles state failure other error r unfrozen done u =
      let c = record (r.controller) { phase = TrafficRunPhase.finalizing } in
      let begun : IsUnderway failure c = record {
        run = u.run;
        shown = u.shown;
        failed_as = u.failed_as;
        true_counters = u.true_counters;
        accounts = u.accounts;
      } in
      subst (Settles state failure error)
        (sym (finish_open state other error r u.run u.shown unfrozen done))
        (finalize_run-Settles state failure error (finalizing pb now r) refl
          (finalize_pending_submissions-IsUnderway pb now failure c begun))

module _ (pb : Protobuf) (now : ℕ) (answer : Option FailedReceptionSample)
    (other again : Option Runner) (failure error : Option String) (r : Runner)
    (unfrozen : r.frozen_result ≡ none) (done : r.finalization_done ≡ true)
    (u : IsUnderway failure r.controller) where
  -- The end of a run after its drain, while no other finalization is under way, its counters are true
  -- and no report comes while the sampler works: its result is COMPLETED with no submission pending, or FAILED with the reason if it could
  -- not be written. The result's numbers of requested, submitted, failed and transmitted messages are
  -- those of its messages, and that of delivered ones is the size of the run's set of delivered messages.
  pub complete_run-Settles :
      Settles TrafficRunState.completed failure error (complete_run pb now answer other error r)
  unfolding complete_run
  complete_run-Settles =
      finish-Settles pb now TrafficRunState.completed failure other error
        (with_controller (sample_final_failed_receptions pb now answer r.controller) r) unfrozen
        done (sample_final_failed_receptions-IsUnderway pb now failure answer r.controller u)

module _ (pb : Protobuf) (now : ℕ) (waited : Runner → Runner)
    (answer : Option FailedReceptionSample) (other again : Option Runner)
    (failure error : Option String) (r : Runner) where
  -- What the run is when the waits of `stop` are over.
  abbrev stopped_run : Runner
  stopped_run =
      waited (with_controller (record (r.controller) { state = TrafficRunState.stopping }) r)

  -- A stop of a RUNNING run that has no result and whose task still works, while no finalization is
  -- under way, ends it, if what other tasks do while it waits leaves the run without a result, no
  -- finalization under way and its counters true: the call returns true with no submission pending,
  -- and the result is CANCELLED, or FAILED if the run has failed in the meantime or the result could
  -- not be written. The result's numbers of requested, submitted, failed and transmitted messages are
  -- those of its messages, and that of delivered ones is the size of the run's set of delivered messages.
  pub stop-Settles :
      r.frozen_result ≡ none
      → r.finalization_done ≡ true
      → r.controller.state ≡ TrafficRunState.running
      → r.active ≡ true
      → stopped_run.frozen_result ≡ none
      → stopped_run.finalization_done ≡ true
      → IsUnderway failure stopped_run.controller
      → Settles
          (terminal_of pb stopped_run.controller.state)
          failure
          error
          (stop pb now other waited answer again error r)
  unfolding stop stop_run wait_for_active_finalization end_stop finish
  stop-Settles unfrozen done runs works still_open still_done u =
      subst (Settles (terminal_of pb stopped_run.controller.state) failure error)
        (sym (begins ∙ ends stopped_run still_open))
        (finish-Settles pb now (terminal_of pb stopped_run.controller.state) failure again error
          (wind_up pb now answer stopped_run) still_open still_done
          (sample_final_failed_receptions-IsUnderway pb now failure answer _
            (finalize_pending_submissions-IsUnderway pb now failure _ u)))
    where
      running_stop :
          stop_run pb now waited answer again error r
          ≡ end_stop pb now answer again error stopped_run
      running_stop = rw (stop_run, runs, works) refl

      waits_over :
          stop pb now other waited answer again error r
          ≡ stop_run pb now waited answer again error r
      waits_over = simp (stop, unfrozen, wait_for_active_finalization, done)

      begins :
          stop pb now other waited answer again error r
          ≡ end_stop pb now answer again error stopped_run
      begins = waits_over ∙ running_stop

      ends :
          (w : Runner)
          → w.frozen_result ≡ none
          → end_stop pb now answer again error w
            ≡ finish pb now
                (terminal_of pb w.controller.state)
                again
                error
                (wind_up pb now answer w)
      ends w h = simp (end_stop, h)

  -- What other tasks do during a wait keeps the run under way, with true counters and its failure,
  -- and neither ends it nor begins to end it.
  pub record IsHarmless : Type 0 where
    pub underway :
        (reason : Option String) (x : Runner)
        → IsUnderway reason x.controller
        → IsUnderway reason (waited x).controller
    pub unfrozen : (x : Runner) → x.frozen_result ≡ none → (waited x).frozen_result ≡ none
    pub done : (x : Runner) → x.finalization_done ≡ true → (waited x).finalization_done ≡ true
