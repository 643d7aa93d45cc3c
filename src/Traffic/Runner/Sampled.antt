-- ===== src/Traffic/Runner/Sampled.antt =====
-- What the last sample and the finalization leave as it was: backend/app/traffic/controller.py.
use meshtastic_lab.Base.{
  ℕ, ◌≡◌, ◌∙◌, refl, sym, ap, subst, not, String, List, [], ◌∷◌, ◌++◌, Option, none, some, inl, inr,
  arith, Bool-cases, is_empty,
}
use meshtastic_lab.Base.Dict
use meshtastic_lab.Base.Members
use meshtastic_lab.Metrics.Packet.{Protobuf}
use meshtastic_lab.Models.Scenario.{texts}
use meshtastic_lab.Traffic.Model.{TrafficController, TrafficRun}
use meshtastic_lab.Traffic.Controller.Accounts.{
  HasAccounts, failed-HasAccounts, duplicates-HasAccounts, finalize_pending_submissions-HasAccounts,
}
use meshtastic_lab.Traffic.Controller.Handlers.{finalize_pending_submissions-IsLedger}
use meshtastic_lab.Traffic.Controller.History.{failed-IsLedger, duplicates-IsLedger}
use meshtastic_lab.Traffic.Controller.Ledger.{IsLedger, current-IsLedger}
use meshtastic_lab.Traffic.Controller.Radio.{record_failed_receptions, record_duplicate_receptions}
use meshtastic_lab.Traffic.Controller.Submission.{
  is_some, settle, resolve_submission, finalize_each, finalize_pending_submissions,
}
use meshtastic_lab.Traffic.Drain.Settled.{finalize_pending_submissions-runs}
use meshtastic_lab.Traffic.Sampling.{
  sample_failed, sample_duplicates, sampled_or_missing, note_missing,
  sample_final_failed_receptions,
}
use meshtastic_lab.Traffic.Schedule.{FailedReceptionSample, without_total}

abbrev pub failure_of : Option TrafficRun → Option String
failure_of none = none
failure_of (some run) = run.failure

-- A run whose counters and accounts are true, with its failure.
pub record IsUnderway (failure : Option String) (c : TrafficController) : Type 0 where
  pub run : TrafficRun
  pub shown : c.current ≡ some run
  pub failed_as : failure_of c.current ≡ failure
  pub true_counters : IsLedger c
  pub accounts : HasAccounts c

module _ (pb : Protobuf) (now : ℕ) where
  failed-current :
      (node : String) (total : ℕ) (c : TrafficController)
      → (record_failed_receptions pb now node total c).current ≡ c.current
  unfolding record_failed_receptions
  failed-current node total c = ground arith

  duplicates-current :
      (node : String) (total : ℕ) (c : TrafficController)
      → (record_duplicate_receptions pb now node total c).current ≡ c.current
  unfolding record_duplicate_receptions
  duplicates-current node total c = ground arith

  resolve_submission-failure :
      (source : String) (ref : ℕ) (error : String) (c : TrafficController)
      → failure_of (resolve_submission pb now source ref (some error) c).current
        ≡ failure_of c.current
  unfolding resolve_submission settle
  resolve_submission-failure source ref error c = ground arith

  finalize_each-failure :
      (entries : List ((String × ℕ) × ℕ)) (c : TrafficController)
      → failure_of (finalize_each pb now entries c).current ≡ failure_of c.current
  unfolding finalize_each
  finalize_each-failure [] c = refl
  finalize_each-failure (((source, packet_id), ref) ∷ entries) c =
      finalize_each-failure entries _
      ∙ resolve_submission-failure source ref "firmware queue admission timed out" c

  module _ (failure : Option String) where
    pub finalize_pending_submissions-IsUnderway :
        (c : TrafficController)
        → IsUnderway failure c
        → IsUnderway failure (finalize_pending_submissions pb now c)
    unfolding finalize_pending_submissions
    finalize_pending_submissions-IsUnderway c u =
        let (run, e) = finalize_pending_submissions-runs pb now u.run c u.shown in
        record {
          run = run;
          shown = e;
          failed_as = finalize_each-failure c.pending_submissions c ∙ u.failed_as;
          true_counters = finalize_pending_submissions-IsLedger pb now c u.true_counters;
          accounts = finalize_pending_submissions-HasAccounts pb now c u.accounts;
        }

    failed-IsUnderway :
        (node : String) (total : ℕ) (c : TrafficController)
        → IsUnderway failure c
        → IsUnderway failure (record_failed_receptions pb now node total c)
    failed-IsUnderway node total c u = record {
      run = u.run;
      shown = failed-current node total c ∙ u.shown;
      failed_as = ap failure_of (failed-current node total c) ∙ u.failed_as;
      true_counters = failed-IsLedger pb (λ bytes. none) now node total c u.true_counters;
      accounts = failed-HasAccounts pb now node total c u.accounts;
    }

    duplicates-IsUnderway :
        (node : String) (total : ℕ) (c : TrafficController)
        → IsUnderway failure c
        → IsUnderway failure (record_duplicate_receptions pb now node total c)
    duplicates-IsUnderway node total c u = record {
      run = u.run;
      shown = duplicates-current node total c ∙ u.shown;
      failed_as = ap failure_of (duplicates-current node total c) ∙ u.failed_as;
      true_counters = duplicates-IsLedger pb (λ bytes. none) now node total c u.true_counters;
      accounts = duplicates-HasAccounts pb now node total c u.accounts;
    }

    sample_failed-IsUnderway :
        (totals : List (String × ℕ)) (missing : List String) (c : TrafficController)
        → IsUnderway failure c
        → IsUnderway failure (sample_failed pb now totals missing c).1
    unfolding sample_failed
    sample_failed-IsUnderway [] missing c u = u
    sample_failed-IsUnderway ((node, total) ∷ totals) missing c u =
        elim (Bool-cases (is_some (Dict.get texts node c.latest_failed_receptions))) [
          | inl e ↦
              rw (sample_failed, e)
                (sample_failed-IsUnderway totals missing _ (failed-IsUnderway node total c u))
          | inr e ↦ rw (sample_failed, e) (sample_failed-IsUnderway totals (node ∷ missing) c u)
        ]

    sample_duplicates-IsUnderway :
        (totals : List (String × ℕ)) (c : TrafficController)
        → IsUnderway failure c
        → IsUnderway failure (sample_duplicates pb now totals c)
    unfolding sample_duplicates
    sample_duplicates-IsUnderway [] c u = u
    sample_duplicates-IsUnderway ((node, total) ∷ totals) c u =
        elim (Bool-cases (is_some (Dict.get texts node c.latest_duplicate_receptions))) [
          | inl e ↦
              rw (sample_duplicates, e)
                (sample_duplicates-IsUnderway totals _ (duplicates-IsUnderway node total c u))
          | inr e ↦ rw (sample_duplicates, e) (sample_duplicates-IsUnderway totals c u)
        ]

    note_missing-run :
        (missing : List String) (run : TrafficRun) (c : TrafficController)
        → c.current ≡ some run
        → note_missing pb missing c ≡ record c {
          current = some (record run {
            missing_local_stats_nodes = missing;
            failed_reception_metrics_complete = is_empty missing;
          });
        }
    unfolding note_missing
    note_missing-run missing run c e = simp (e, note_missing)

    note_missing-IsUnderway :
        (missing : List String) (c : TrafficController)
        → IsUnderway failure c
        → IsUnderway failure (note_missing pb missing c)
    note_missing-IsUnderway missing c u =
        subst (IsUnderway failure) (sym (note_missing-run missing u.run c u.shown)) (record {
          run = _;
          shown = refl;
          failed_as = ap failure_of (sym u.shown) ∙ u.failed_as;
          true_counters = current-IsLedger u.run _ c u.shown refl refl refl u.true_counters;
          accounts = u.accounts;
        })

    pub sample_final_failed_receptions-IsUnderway :
        (answer : Option FailedReceptionSample) (c : TrafficController)
        → IsUnderway failure c
        → IsUnderway failure (sample_final_failed_receptions pb now answer c)
    unfolding sample_final_failed_receptions
    sample_final_failed_receptions-IsUnderway answer c u = elim (Bool-cases (not c.has_sampler)) [
      | inl e ↦ rw (sample_final_failed_receptions, e) u
      | inr e ↦
          let sample = sampled_or_missing pb answer c in
          let known = u.run.missing_local_stats_nodes ++ sample.missing_nodes in
          let (missing, counted) = sample_failed pb now sample.totals known c in
          rw (sample_final_failed_receptions, e, u.shown)
            (note_missing-IsUnderway
              (Members.distinct texts (missing ++ without_total sample.totals c.node_ids)) _
              (sample_duplicates-IsUnderway sample.duplicate_totals counted
                (sample_failed-IsUnderway sample.totals known c u)))
    ]
