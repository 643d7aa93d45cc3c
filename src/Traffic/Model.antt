-- ===== src/Traffic/Model.antt =====
-- The data of backend/app/traffic/controller.py: requests, messages, a run, and the controller.
-- Times are ticks of the monotonic clock and a latency is a difference of two of them. Rates are
-- in thousandths of a message per minute, durations in thousandths of a second.
use meshtastic_lab.Base.{ℕ, Bool, String, List, Option}
use meshtastic_lab.Metrics.Events.{PacketEvent}
use meshtastic_lab.Models.Scenario.{DirectedLink}

pub data TrafficKind : Type 0 where
  broadcast_text direct_text : TrafficKind

pub data DestinationStrategy : Type 0 where
  fixed round_robin deterministic_random : DestinationStrategy

pub data SourceTiming : Type 0 where
  aligned evenly_staggered deterministic_jitter : SourceTiming

pub data TrafficRunState : Type 0 where
  idle running stopping completed cancelled failed : TrafficRunState

pub data TrafficRunPhase : Type 0 where
  generating draining finalizing terminal : TrafficRunPhase

pub record TrafficFlow : Type 0 where
  pub name : String
  pub source_nodes : List String
  pub destination_strategy : DestinationStrategy
  pub fixed_destination : Option String
  pub messages_per_minute : ℕ
  pub source_timing : SourceTiming

pub record TrafficRunRequest : Type 0 where
  pub kind : TrafficKind
  pub source_nodes : List String
  pub destination_strategy : DestinationStrategy
  pub fixed_destination : Option String
  pub messages_per_minute : ℕ
  pub payload_bytes : ℕ
  pub duration_seconds : ℕ
  pub acknowledgment_requested : Bool
  pub source_timing : SourceTiming
  pub flows : List TrafficFlow
  pub seed : ℕ

pub record GeneratedMessage : Type 0 where
  pub sequence : ℕ
  pub flow : String
  pub source_node : String
  pub destination_node : String
  pub packet_id : ℕ
  pub generated_monotonic : ℕ
  pub submitted : Bool
  pub submission_error : Option String
  pub transmitted : Bool
  pub delivered_to : List String
  pub acknowledged : Bool
  pub latency_ms : Option ℕ

pub record TopologyChange : Type 0 where
  pub event_sequence : ℕ
  pub monotonic_seconds : ℕ
  pub link : DirectedLink

-- The fields of a run's result that the controller changes while it runs.
pub record TrafficRun : Type 0 where
  pub run_id : String
  pub request : TrafficRunRequest
  pub requested : ℕ
  pub submitted : ℕ
  pub submission_failed : ℕ
  pub topology_changes : List TopologyChange
  pub missing_local_stats_nodes : List String
  pub failed_reception_metrics_complete : Bool
  pub failure : Option String

-- The controller. A generated message is one object that the result and three dictionaries share:
-- `messages` holds the objects, and the dictionaries hold their sequence numbers. What the code
-- publishes to the event broker is appended to `published`. `_messages_by_key`, which nothing
-- reads, is left out.
pub record TrafficController : Type 0 where
  pub hardware_ids : List (String × ℕ)
  pub node_ids : List String
  pub has_sampler : Bool
  pub broker_stream_id : String
  pub event_stream_id : Option String
  pub state : TrafficRunState
  pub phase : TrafficRunPhase
  pub current : Option TrafficRun
  pub last_sequence : ℕ
  pub messages : List GeneratedMessage
  pub messages_by_packet : List ((ℕ × ℕ) × ℕ)
  pub pending_submissions : List ((String × ℕ) × ℕ)
  pub routing_terminal_sequences : List ℕ
  pub delivered_sequences : List ℕ
  pub latencies_ms : List ℕ
  pub live_latencies_ms : List ℕ
  pub rf_transmitters : List String
  pub airtimes_ms : List ℕ
  pub relay_transmissions : ℕ
  pub duplicates : ℕ
  pub failed_receptions : ℕ
  pub latest_failed_receptions : List (String × ℕ)
  pub latest_duplicate_receptions : List (String × ℕ)
  pub drop_reasons : List String
  pub drop_counts : List (String × ℕ)
  pub event_loop_lag_ms : Option ℕ
  pub generated_count : ℕ
  pub submitted_count : ℕ
  pub submission_failed_count : ℕ
  pub transmitted_count : ℕ
  pub unique_deliveries : ℕ
  pub receiver_deliveries : ℕ
  pub receiver_opportunities : ℕ
  pub acknowledgments : ℕ
  pub rf_transmission_count : ℕ
  pub observed_airtime_ms : ℕ
  pub per_node_transmit_counts : List (String × ℕ)
  pub per_node_airtime_ms : List (String × ℕ)
  pub maximum_packet_airtime_ms : ℕ
  pub maximum_retransmission_delay_ms : ℕ
  pub last_activity_monotonic : ℕ
  pub published : List PacketEvent
