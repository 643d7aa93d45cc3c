-- ===== src/Traffic/Sampling.antt =====
-- The last sample of the nodes' statistics: `_sample_final_failed_receptions` of
-- backend/app/traffic/controller.py. What the sampler answers is an argument, none when it raises.
use meshtastic_lab.Traffic.Controller.Radio.{record_failed_receptions, record_duplicate_receptions}
use meshtastic_lab.Base.{
  ℕ, not, String, List, [], ◌∷◌, ◌++◌, Option, none, some, if◌then◌else◌, is_empty,
}
use meshtastic_lab.Base.Dict
use meshtastic_lab.Base.Members
use meshtastic_lab.Metrics.Packet.{Protobuf}
use meshtastic_lab.Models.Scenario.{texts}
use meshtastic_lab.Traffic.Model.{TrafficController}
use meshtastic_lab.Traffic.Controller.Radio.{record_failed_receptions, record_duplicate_receptions}
use meshtastic_lab.Traffic.Controller.Submission.{is_some}
use meshtastic_lab.Traffic.Schedule.{FailedReceptionSample, without_total}

module _ (pb : Protobuf) where
  -- The loop over the sample's totals, with the nodes that had no baseline.
  unfoldable pub sample_failed :
      ℕ → List (String × ℕ) → List String → TrafficController → List String × TrafficController
  sample_failed now [] missing c = (missing, c)
  sample_failed now ((node, total) ∷ totals) missing c =
      if is_some (Dict.get texts node c.latest_failed_receptions)
      then sample_failed now totals missing (record_failed_receptions pb now node total c)
      else sample_failed now totals (node ∷ missing) c

  unfoldable pub sample_duplicates : ℕ → List (String × ℕ) → TrafficController → TrafficController
  sample_duplicates now [] c = c
  sample_duplicates now ((node, total) ∷ totals) c = sample_duplicates now totals (
      if is_some (Dict.get texts node c.latest_duplicate_receptions)
      then record_duplicate_receptions pb now node total c
      else c)

  -- The sample, or none of the nodes when the sampler raised.
  abbrev pub sampled_or_missing :
      Option FailedReceptionSample → TrafficController → FailedReceptionSample
  sampled_or_missing (some sample) c = sample
  sampled_or_missing none c = record {
    totals = [];
    duplicate_totals = [];
    missing_nodes = c.node_ids;
  }

  unfoldable pub note_missing : List String → TrafficController → TrafficController
  note_missing missing c = elim c.current [
    | none ↦ c
    | some run ↦ record c {
      current = some (record run {
        missing_local_stats_nodes = missing;
        failed_reception_metrics_complete = is_empty missing;
      });
    }
  ]

  -- `_sample_final_failed_receptions`; the missing nodes are not sorted.
  unfoldable pub sample_final_failed_receptions :
      ℕ → Option FailedReceptionSample → TrafficController → TrafficController
  sample_final_failed_receptions now answer c = if not c.has_sampler then c else elim c.current [
    | none ↦ c
    | some run ↦
        let sample = sampled_or_missing answer c in
        let known = run.missing_local_stats_nodes ++ sample.missing_nodes in
        let (missing, counted) = sample_failed now sample.totals known c in
        note_missing (Members.distinct texts (missing ++ without_total sample.totals c.node_ids))
          (sample_duplicates now sample.duplicate_totals counted)
  ]
