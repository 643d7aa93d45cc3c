-- ===== src/Traffic/Results/Agreement.antt =====
-- The live metrics of a run and its final ones: backend/app/traffic/controller.py.
use meshtastic_lab.Base.{ℕ, ◌≡◌, refl, String, List, Option, none, some}
use meshtastic_lab.Base.Members
use meshtastic_lab.Metrics.Calculations.{
  MetricsSnapshot, calculate_metrics, tally, tally_airtimes, sum, snapshot_of,
}
use meshtastic_lab.Metrics.Packet.{Protobuf}
use meshtastic_lab.Traffic.Model.{TrafficController, TrafficRun, TrafficRunRequest}
use meshtastic_lab.Traffic.Controller.Accounts.{HasAccounts, Accounted}
use meshtastic_lab.Traffic.Controller.Accounts.History.{perform_all-Accounted}
use meshtastic_lab.Traffic.Controller.History.{Command, perform_all}
use meshtastic_lab.Traffic.Results.{final_input, live_input, final_metrics, live_metrics_snapshot}
use meshtastic_lab.Traffic.Schedule.{FailedReceptionSample, begin, reset_accumulators}

-- What the two snapshots count in different ways and have in common.
pub record Agrees (live final : MetricsSnapshot) : Type 0 where
  pub transmissions : live.rf_transmissions ≡ final.rf_transmissions
  pub drops : live.drops_by_reason ≡ final.drops_by_reason
  pub airtime : live.observed_airtime_ms ≡ final.observed_airtime_ms
  pub counts_by_node : live.per_node_transmit_counts ≡ final.per_node_transmit_counts
  pub airtimes_by_node : live.per_node_airtime_ms ≡ final.per_node_airtime_ms

abbrev pub Agree : TrafficRun → TrafficController → Type 0
Agree run c =
    (live : MetricsSnapshot) × (final : MetricsSnapshot) × (live_metrics_snapshot run c ≡ some live)
    × (final_metrics run c ≡ some final)
    × Agrees live final

HasAccounts-Agree : (run : TrafficRun) (c : TrafficController) → HasAccounts c → Agree run c
unfolding live_metrics_snapshot final_metrics calculate_metrics
HasAccounts-Agree run c v = (
  snapshot_of (live_input run c) c.per_node_airtime_ms,
  snapshot_of (final_input run c) c.per_node_airtime_ms,
  refl,
  rw (final_metrics, calculate_metrics, v.airtimes_by_node) refl,
  record {
    transmissions = v.all_transmissions;
    drops = v.drops;
    airtime = v.all_airtime;
    counts_by_node = v.counts_by_node;
    airtimes_by_node = refl;
  },
)

-- A controller, if the calls raised no exception.
abbrev pub Agreed : TrafficRun → Option TrafficController → Type 0
Agreed run none = Unit
Agreed run (some c) = Agree run c

Accounted-Agreed : (run : TrafficRun) (o : Option TrafficController) → Accounted o → Agreed run o
Accounted-Agreed run none v = tt
Accounted-Agreed run (some c) v = HasAccounts-Agree run c v

begin-HasAccounts :
    (now : ℕ) (run_id : String) (request : TrafficRunRequest) (nodes : List String)
    (baseline : Option FailedReceptionSample) (c : TrafficController)
    → HasAccounts (begin now run_id request nodes baseline c)
unfolding begin reset_accumulators tally tally_airtimes sum Members.distinct
begin-HasAccounts now run_id request nodes baseline c = record {
  all_transmissions = refl;
  all_airtime = refl;
  counts_by_node = refl;
  airtimes_by_node = refl;
  drops = refl;
  unique = refl;
}

module _ (pb : Protobuf) (parse_identifier : List ℕ → Option (String × ℕ)) where
  -- After a run has begun and after every sequence of calls that raises no exception, the live
  -- metrics and the final ones can both be computed, and what the air has carried is the same in
  -- both: the transmissions, the drops by reason, the airtime, and the counts and airtimes per node,
  -- which the live ones take from counters kept along the way and the final ones compute from the
  -- lists of all transmissions and drops. Deliveries and latencies are not compared.
  pub live_metrics-final_metrics :
      (now : ℕ) (run_id : String) (request : TrafficRunRequest) (nodes : List String)
      (baseline : Option FailedReceptionSample) (c : TrafficController)
      (commands : List (ℕ × Command)) (run : TrafficRun)
      → Agreed run
          (perform_all pb parse_identifier commands (begin now run_id request nodes baseline c))
  live_metrics-final_metrics now run_id request nodes baseline c commands run =
      Accounted-Agreed run _ (
        perform_all-Accounted pb parse_identifier commands _
          (begin-HasAccounts now run_id request nodes baseline c))
