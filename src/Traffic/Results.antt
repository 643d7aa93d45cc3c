-- ===== src/Traffic/Results.antt =====
-- The result of a run, its summary and its metrics: `_final_metrics`, `_live_metrics_snapshot`,
-- `_summary_metrics`, `summarize_result` and the results of `_finish` of
-- backend/app/traffic/controller.py.
pub mod Agreement
use Prim.Native.String.{◌++◌ as append}
use meshtastic_lab.Base.{
  ℕ, Bool, not, ◌&&◌, String, str_eq, List, [], ◌∷◌, Option, none, some, if◌then◌else◌, length,
  is_empty,
}
use meshtastic_lab.Base.Dict
use meshtastic_lab.Base.Members
use meshtastic_lab.Metrics.Calculations.{MetricsSnapshot, MetricsInput, calculate_metrics}
use meshtastic_lab.Metrics.Events.{MetricValue}
use meshtastic_lab.Models.Scenario.{texts, numbers}
use meshtastic_lab.Traffic.Model.{
  TrafficController, TrafficRun, TrafficRunRequest, TrafficRunState, TrafficRunPhase, TrafficKind,
  broadcast_text, direct_text, GeneratedMessage,
}
use meshtastic_lab.Traffic.Drain.{is_direct, unresolved_direct_messages}
use meshtastic_lab.Traffic.Schedule.{candidates}

-- A terminal result.
pub record TrafficResult : Type 0 where
  pub run : TrafficRun
  pub state : TrafficRunState
  pub finished_at : ℕ
  pub transmitted : ℕ
  pub delivered : ℕ
  pub generated_messages : List GeneratedMessage
  pub metrics : MetricsSnapshot

-- A message that reached another node than its source, or its destination.
unfoldable pub is_delivered : TrafficKind → GeneratedMessage → Bool
is_delivered direct_text m = Members.member texts m.destination_node m.delivered_to
is_delivered broadcast_text m = not (is_empty (candidates m.source_node m.delivered_to))

-- The sequence numbers of the messages that a test selects.
unfoldable pub sequences_of : (GeneratedMessage → Bool) → List GeneratedMessage → List ℕ
sequences_of p [] = []
sequences_of p (m ∷ ms) = let rest = sequences_of p ms in if p m then m.sequence ∷ rest else rest

-- The receivers of each broadcast but its source.
unfoldable pub receivers_per_broadcast : TrafficKind → List GeneratedMessage → List (ℕ × ℕ)
receivers_per_broadcast direct_text ms = []
receivers_per_broadcast broadcast_text [] = []
receivers_per_broadcast broadcast_text (m ∷ ms) =
    Dict.put numbers m.sequence
      (length (Members.distinct texts (candidates m.source_node m.delivered_to)))
      (receivers_per_broadcast broadcast_text ms)

abbrev pub expected_acknowledgments : TrafficRunRequest → TrafficController → ℕ
expected_acknowledgments request c =
    if is_direct request.kind && request.acknowledgment_requested then c.submitted_count else 0

-- The arguments of `calculate_metrics` in `_final_metrics`.
abbrev pub final_input : TrafficRun → TrafficController → MetricsInput
final_input run c = record {
  generated = c.generated_count;
  delivered =
      length (Members.distinct numbers (sequences_of (is_delivered run.request.kind) c.messages));
  delivered_count = none;
  acknowledged = c.acknowledgments;
  acknowledgment_expected = expected_acknowledgments run.request c;
  latencies_ms = c.latencies_ms;
  rf_transmitters = c.rf_transmitters;
  relay_transmissions = c.relay_transmissions;
  duplicate_receptions = c.duplicates;
  failed_receptions = c.failed_receptions;
  drop_reasons = c.drop_reasons;
  airtimes_ms = c.airtimes_ms;
  event_loop_lag_ms = c.event_loop_lag_ms;
  receiver_deliveries = some c.receiver_deliveries;
  receiver_delivery_opportunities = some c.receiver_opportunities;
  receivers_per_broadcast = receivers_per_broadcast run.request.kind c.messages;
  rf_transmission_count = none;
  observed_airtime_ms = none;
  per_node_transmit_counts = none;
  per_node_airtime_ms = none;
  drops_by_reason = none;
}

-- `_final_metrics`; `none` is the ValueError of lists of different lengths.
unfoldable pub final_metrics : TrafficRun → TrafficController → Option MetricsSnapshot
final_metrics run c = calculate_metrics (final_input run c)

-- The arguments of `calculate_metrics` in `_live_metrics_snapshot`.
abbrev pub live_input : TrafficRun → TrafficController → MetricsInput
live_input run c = record (final_input run c) {
  delivered = 0;
  delivered_count = some c.unique_deliveries;
  latencies_ms = c.live_latencies_ms;
  rf_transmitters = [];
  rf_transmission_count = some c.rf_transmission_count;
  drop_reasons = [];
  drops_by_reason = some c.drop_counts;
  airtimes_ms = [];
  observed_airtime_ms = some c.observed_airtime_ms;
  per_node_transmit_counts = some c.per_node_transmit_counts;
  per_node_airtime_ms = some c.per_node_airtime_ms;
  receivers_per_broadcast = [];
}

-- `_live_metrics_snapshot` of a run.
unfoldable pub live_metrics_snapshot : TrafficRun → TrafficController → Option MetricsSnapshot
live_metrics_snapshot run c = calculate_metrics (live_input run c)

abbrev pub optional_count : Option ℕ → MetricValue
optional_count none = MetricValue.missing
optional_count (some n) = MetricValue.count n

-- `_summary_metrics`, by alias: all but the receivers per broadcast.
abbrev pub summary_metrics : MetricsSnapshot → List (String × MetricValue)
summary_metrics m =
    ("generatedApplicationMessages", MetricValue.count m.generated_application_messages)
    ∷ (
      "uniqueApplicationMessagesDelivered",
      MetricValue.count m.unique_application_messages_delivered,
    )
    ∷ ("deliveryRatio", MetricValue.ratio m.delivery_ratio)
    ∷ ("receiverDeliveries", MetricValue.count m.receiver_deliveries)
    ∷ ("receiverDeliveryRatio", MetricValue.ratio m.receiver_delivery_ratio)
    ∷ ("acknowledgmentSuccessRatio", MetricValue.ratio m.acknowledgment_success_ratio)
    ∷ ("medianLatencyMs", MetricValue.latency m.median_latency)
    ∷ ("p95LatencyMs", MetricValue.latency m.p95_latency)
    ∷ ("p99LatencyMs", MetricValue.latency m.p99_latency)
    ∷ ("rfTransmissions", MetricValue.count m.rf_transmissions)
    ∷ ("rfTransmissionsPerDelivery", MetricValue.ratio m.rf_transmissions_per_delivery)
    ∷ ("relayTransmissions", MetricValue.count m.relay_transmissions)
    ∷ ("duplicateReceptions", MetricValue.count m.duplicate_receptions)
    ∷ ("failedReceptions", MetricValue.count m.failed_receptions)
    ∷ ("dropsByReason", MetricValue.counts m.drops_by_reason)
    ∷ ("observedAirtimeMs", MetricValue.count m.observed_airtime_ms)
    ∷ ("perNodeTransmitCounts", MetricValue.counts m.per_node_transmit_counts)
    ∷ ("perNodeAirtimeMs", MetricValue.counts m.per_node_airtime_ms)
    ∷ ("eventLoopLagMs", optional_count m.event_loop_lag_ms)
    ∷ []

-- The failure of a run whose result was not written.
unfoldable pub persistence_failure : Option String → String → String
persistence_failure none error = append "result persistence failed: " error
persistence_failure (some failure) error =
    let text = append "result persistence failed: " error in
    if str_eq failure "" then text else append failure (append "; " text)

-- The terminal result, as `_freeze_and_persist` returns it or as it is after its error.
unfoldable pub frozen : Option String → TrafficResult → TrafficResult
frozen none result = result
frozen (some error) result = record result {
  state = TrafficRunState.failed;
  run = record (result.run) { failure = some (persistence_failure result.run.failure error) };
}

abbrev pub terminal_result :
    ℕ → TrafficRunState → TrafficRun → MetricsSnapshot → TrafficController → TrafficResult
terminal_result now state run metrics c = record {
  run = record run {
    requested = c.generated_count;
    submitted = c.submitted_count;
    submission_failed = c.submission_failed_count;
  };
  state = state;
  finished_at = now;
  transmitted = c.transmitted_count;
  delivered = c.unique_deliveries;
  generated_messages = c.messages;
  metrics = metrics;
}

-- The fields of a summary that the controller computes.
pub record TrafficRunSummary : Type 0 where
  pub run_id : String
  pub state : TrafficRunState
  pub phase : TrafficRunPhase
  pub requested : ℕ
  pub submitted : ℕ
  pub submission_failed : ℕ
  pub transmitted : ℕ
  pub delivered : ℕ
  pub pending_firmware_admissions : ℕ
  pub unresolved_direct_messages : ℕ
  pub metrics : List (String × MetricValue)
  pub failure : Option String

-- `summarize_result`; what a result does not have is the model's default.
abbrev pub summarize_result : TrafficResult → TrafficRunSummary
summarize_result result = record {
  run_id = result.run.run_id;
  state = result.state;
  phase = TrafficRunPhase.terminal;
  requested = result.run.requested;
  submitted = result.run.submitted;
  submission_failed = result.run.submission_failed;
  transmitted = result.transmitted;
  delivered = result.delivered;
  pending_firmware_admissions = 0;
  unresolved_direct_messages = 0;
  metrics = summary_metrics result.metrics;
  failure = result.run.failure;
}

abbrev pub live_summary : TrafficRun → TrafficController → MetricsSnapshot → TrafficRunSummary
live_summary run c metrics = record {
  run_id = run.run_id;
  state = c.state;
  phase = c.phase;
  requested = c.generated_count;
  submitted = c.submitted_count;
  submission_failed = c.submission_failed_count;
  transmitted = c.transmitted_count;
  delivered = c.unique_deliveries;
  pending_firmware_admissions = length c.pending_submissions;
  unresolved_direct_messages = unresolved_direct_messages c;
  metrics = summary_metrics metrics;
  failure = run.failure;
}
