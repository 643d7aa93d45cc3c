-- ===== src/Tests/Traffic.antt =====
-- A concrete run for backend/app/traffic/controller.py: one message, taken by the firmware,
-- transmitted, received and acknowledged.
use meshtastic_lab.Base.{
  ℕ, ◌+◌, ◌*◌, ◌≡◌, ◌≤◌, ◌<◌, refl, true, false, String, List, [], ◌∷◌, Option, none, some, max,
  arith, eq_iff,
}
use meshtastic_lab.Base.Dict
use meshtastic_lab.Base.Members.{member, distinct}
use meshtastic_lab.Metrics.Packet.{Protobuf, MeshPacket, Content, decoded, mesh_packet_port_number}
use meshtastic_lab.Models.Scenario.{texts}
use meshtastic_lab.Traffic.Model.{
  TrafficController, TrafficRun, TrafficRunRequest, TrafficRunState, TrafficRunPhase, TrafficFlow,
  direct_text, round_robin, aligned,
}
use meshtastic_lab.Traffic.Controller.Ledger.{IsLedger}
use meshtastic_lab.Traffic.Controller.Handlers.{Keeps}
use meshtastic_lab.Traffic.Controller.Submission.{
  submit, finalize_pending_submissions, enqueue, is_addressable, record_queue_status,
  resolve_submission, settle, finalize_each,
}
use meshtastic_lab.Traffic.Controller.Radio.{record_rf_transmission, account_transmission}
use meshtastic_lab.Traffic.Controller.Receive.{handle_from_radio, handle_routing, handle_text}
use meshtastic_lab.Traffic.Controller.Receipts.{queue_status, packet, acknowledge, deliver}
use meshtastic_lab.Traffic.Controller.{
  accepts_run_events, find_message, store_message, metric_events, message_for_packet_identity,
  answered_request,
}
use meshtastic_lab.Traffic.Controller.Answers.{handle_from_radio-Keeps}
use meshtastic_lab.Traffic.Controller.History.{
  Command, submits, hears, transmits, perform, perform_all, perform_all-Keeps, drains, finalizes,
}
use meshtastic_lab.Traffic.Schedule.{
  begin, reset_accumulators, start, check_flow, check_destination, all_known, choose_destination,
  messages_per_source, candidates, next_in_turn, nth,
}
use meshtastic_lab.Traffic.Schedule.Start.{
  begin-IsLedger, Readies, start-Readies, messages_per_source-ceiling,
}
use meshtastic_lab.Traffic.Schedule.Destination.{IsTarget, choose_destination-IsTarget}
use meshtastic_lab.Traffic.Drain.{drain, attempt_budget, drain_windows, drain_turn, ready_to_settle}
use meshtastic_lab.Traffic.Drain.Windows.{AreWindows, all_attempts, drain_windows-AreWindows}
use meshtastic_lab.Traffic.Drain.Settled.{
  expired_if, is_pending, Drains, finalize_pending_submissions-settles, drain-returns,
}

abbrev pub protobuf : Protobuf
protobuf = record {
  parse_compressed = λ bytes. none;
  parse_routing = λ bytes. some 0;
  serialized_length = λ port bytes request. 0;
  error_name = λ n. "ERROR";
  unknown_app = 0;
  text_message_app = 1;
  routing_app = 5;
  simulator_app = 69;
  error_none = 0;
  rate_limit_exceeded = 38;
}

-- Every text is the first message of the run.
abbrev pub parse : List ℕ → Option (String × ℕ)
parse bytes = some ("run", 1)

abbrev flow : TrafficFlow
flow = record {
  name = "default";
  source_nodes = "a" ∷ [];
  destination_strategy = round_robin;
  fixed_destination = none;
  messages_per_minute = 1000;
  source_timing = aligned;
}

abbrev pub request : TrafficRunRequest
request = record {
  kind = direct_text;
  source_nodes = "a" ∷ [];
  destination_strategy = round_robin;
  fixed_destination = none;
  messages_per_minute = 1000;
  payload_bytes = 64;
  duration_seconds = 60_000;
  acknowledgment_requested = true;
  source_timing = aligned;
  flows = flow ∷ [];
  seed = 1;
}

abbrev pub idle : TrafficController
idle = record {
  hardware_ids = ("a", 11) ∷ ("b", 12) ∷ [];
  node_ids = "a" ∷ "b" ∷ [];
  has_sampler = false;
  broker_stream_id = "s";
  event_stream_id = none;
  state = TrafficRunState.idle;
  phase = TrafficRunPhase.terminal;
  current = none;
  last_sequence = 0;
  messages = [];
  messages_by_packet = [];
  pending_submissions = [];
  routing_terminal_sequences = [];
  delivered_sequences = [];
  latencies_ms = [];
  live_latencies_ms = [];
  rf_transmitters = [];
  airtimes_ms = [];
  relay_transmissions = 0;
  duplicates = 0;
  failed_receptions = 0;
  latest_failed_receptions = [];
  latest_duplicate_receptions = [];
  drop_reasons = [];
  drop_counts = [];
  event_loop_lag_ms = none;
  generated_count = 0;
  submitted_count = 0;
  submission_failed_count = 0;
  transmitted_count = 0;
  unique_deliveries = 0;
  receiver_deliveries = 0;
  receiver_opportunities = 0;
  acknowledgments = 0;
  rf_transmission_count = 0;
  observed_airtime_ms = 0;
  per_node_transmit_counts = [];
  per_node_airtime_ms = [];
  maximum_packet_airtime_ms = 0;
  maximum_retransmission_delay_ms = 0;
  last_activity_monotonic = 0;
  published = [];
}

abbrev pub nodes : List String
nodes = "a" ∷ "b" ∷ []

-- The controller of the run, and the run.
abbrev pub running : TrafficController
running = begin 0 "run" request nodes none idle

abbrev packet_of : ℕ → ℕ → ℕ → Content → MeshPacket
packet_of id from to content = record {
  id = id;
  from_number = from;
  to_number = to;
  rx_time = 0;
  hop_limit = 3;
  hop_start = 3;
  variant = decoded content;
}

abbrev text_packet : MeshPacket
text_packet = packet_of 500 11 12 (record { portnum = 1; payload = []; request_id = 0 })

abbrev answer_packet : MeshPacket
answer_packet = packet_of 501 12 11 (record { portnum = 5; payload = []; request_id = 500 })

abbrev pub commands : List (ℕ × Command)
commands =
    (1, submits "default" "a" "b" 500 40 90 43 none)
    ∷ (2, hears "a" (queue_status 500 0) (λ n. "error"))
    ∷ (3, transmits "a" text_packet 40)
    ∷ (4, hears "b" (packet text_packet) (λ n. "error"))
    ∷ (5, hears "a" (packet answer_packet) (λ n. "error"))
    ∷ (6, drains)
    ∷ (7, finalizes)
    ∷ []

running-IsLedger : IsLedger running
running-IsLedger = begin-IsLedger 0 "run" request nodes none idle

perform_all-Keeps_example : Keeps (perform_all protobuf parse commands running)
perform_all-Keeps_example = perform_all-Keeps protobuf parse commands running running-IsLedger

-- The counters of a run: generated, submitted, transmitted, delivered, acknowledged.
abbrev counters : Option TrafficController → Option (ℕ × ℕ × ℕ × ℕ × ℕ)
counters none = none
counters (some c) = some (
  c.generated_count, c.submitted_count, c.transmitted_count, c.receiver_deliveries,
  c.acknowledgments,
)

counters_of_run : counters (perform_all protobuf parse commands running) ≡ some (1, 1, 1, 1, 1)
unfolding perform_all perform submit begin is_addressable Dict.get handle_from_radio enqueue
    accepts_run_events record_rf_transmission record_queue_status Dict.put resolve_submission
    find_message settle message_for_packet_identity answered_request mesh_packet_port_number
    Dict.add_to Dict.delete member account_transmission acknowledge deliver handle_routing
    handle_text finalize_each finalize_pending_submissions metric_events store_message
    reset_accumulators
counters_of_run = refl

handle_from_radio-Keeps_example :
    Keeps (handle_from_radio protobuf parse 4 "b" (packet text_packet) (λ n. "error") running)
handle_from_radio-Keeps_example =
    handle_from_radio-Keeps protobuf parse 4 "b" (packet text_packet) (λ n. "error") running
      running-IsLedger

abbrev pub the_run : TrafficRun
the_run = record {
  run_id = "run";
  request = request;
  requested = 0;
  submitted = 0;
  submission_failed = 0;
  topology_changes = [];
  missing_local_stats_nodes = [];
  failed_reception_metrics_complete = true;
  failure = none;
}

-- A run with no message yet.
abbrev pub waiting_for_first : TrafficController
waiting_for_first = record idle {
  current = some the_run;
  state = TrafficRunState.running;
  phase = TrafficRunPhase.generating;
}

addressable : is_addressable "b" waiting_for_first ≡ true
unfolding is_addressable Dict.get
addressable = refl

a_known : Dict.get texts "a" waiting_for_first.hardware_ids ≡ some 11
unfolding Dict.get
a_known = refl

pub first-IsLedger : IsLedger waiting_for_first
first-IsLedger = record {
  all_generated = refl;
  all_submitted = refl;
  all_failed = refl;
  all_transmitted = refl;
  all_acknowledged = refl;
  all_delivered = refl;
  mirrored = (refl, refl, refl);
  sound = tt;
}

start-Readies_example : Readies request (start false 0 "run" request nodes none idle)
start-Readies_example = start-Readies false 0 "run" request nodes none idle

messages_per_source-ceiling_example :
    (90_000 * 1000 ≤ messages_per_source 90_000 1000 * 60_000_000)
    × (1 ≤ messages_per_source 90_000 1000)
    × (1 < messages_per_source 90_000 1000
        → (messages_per_source 90_000 1000 * 60_000_000 < 90_000 * 1000 + 60_000_000))
messages_per_source-ceiling_example = messages_per_source-ceiling 90_000 1000

-- A generator that chooses the first element.
abbrev first : List String → Option String
first [] = none
first (x ∷ xs) = some x

first-member : (xs : List String) (x : String) → first xs ≡ some x → member texts x xs ≡ true
unfolding member
first-member [] x h = cc
first-member (y ∷ ys) x h = ground (arith, eq_iff x y)

flow_checks : check_flow direct_text nodes flow ≡ none
unfolding check_flow check_destination all_known member distinct
flow_checks = refl

a_sends : member texts "a" flow.source_nodes ≡ true
unfolding member
a_sends = refl

turn_of_a :
    choose_destination first direct_text flow.destination_strategy flow.fixed_destination "a" nodes
      (("a", 4) ∷ [])
    ≡ some ("b", ("a", 5) ∷ [])
unfolding choose_destination candidates next_in_turn nth Dict.get Dict.put
turn_of_a = refl

choose_destination-IsTarget_example : IsTarget "a" nodes "b"
choose_destination-IsTarget_example =
    choose_destination-IsTarget first first-member flow "a" nodes (("a", 4) ∷ []) (("a", 5) ∷ [])
      "b" flow_checks a_sends turn_of_a

-- A controller that waits for the firmware's answer to one message.
abbrev waiting : TrafficController
waiting = enqueue protobuf 1 "default" "a" "b" 500 40 90 11 the_run idle

waiting_run : waiting.current ≡ some (record the_run { requested = 1 })
unfolding enqueue
waiting_run = refl

drain_windows-AreWindows_example :
    AreWindows
      (max (max waiting.maximum_retransmission_delay_ms waiting.maximum_packet_airtime_ms) 1)
      (all_attempts request 3)
      (max waiting.maximum_packet_airtime_ms 1)
      (drain_windows 3 waiting)
drain_windows-AreWindows_example =
    drain_windows-AreWindows 3 (record the_run { requested = 1 }) waiting waiting_run

finalize_pending_submissions-settles_example :
    ((finalize_pending_submissions protobuf 9 waiting).pending_submissions ≡ [])
    × ((n : ℕ)
        → find_message n (finalize_pending_submissions protobuf 9 waiting).messages
          ≡ expired_if (is_pending n waiting.pending_submissions) (find_message n waiting.messages))
finalize_pending_submissions-settles_example =
    finalize_pending_submissions-settles protobuf 9 (record the_run { requested = 1 }) waiting
      waiting_run

drain-returns_example :
    Drains
      (2000 + (drain_windows 3 waiting).1)
      (drain protobuf 3 none 2000 waiting ((6120, waiting) ∷ []))
unfolding drain_turn ready_to_settle enqueue Dict.put drain_windows attempt_budget
drain-returns_example =
    drain-returns protobuf 3 2000 (record the_run { requested = 1 }) waiting [] 6120 waiting
      waiting_run (omega arith) (omega arith, (tt, tt))
