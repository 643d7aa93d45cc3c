-- ===== src/Traffic/Controller/Receipts.antt =====
-- What a receipt, an acknowledgment and a routing error change: the branches of
-- `handle_from_radio` of backend/app/traffic/controller.py.
use meshtastic_lab.Base.{
  ℕ, ◌+◌, ◌-◌, Bool, true, not, String, str_eq, List, [], ◌∷◌, ◌++◌, drop, Option, none, some, ◌==◌,
  if◌then◌else◌, length,
}
use meshtastic_lab.Base.Dict
use meshtastic_lab.Base.Members
use meshtastic_lab.Metrics.Events.{EventType, MetricValue, packet_event}
use meshtastic_lab.Metrics.Packet.{Protobuf, MeshPacket}
use meshtastic_lab.Models.Scenario.{texts, numbers}
use meshtastic_lab.Traffic.Model.{
  TrafficController, TrafficRun, TrafficKind, broadcast_text, direct_text, GeneratedMessage,
}
use meshtastic_lab.Traffic.Controller.{
  note_activity, publish_event, publish_metric_update, store_message,
}

abbrev pub live_latency_sample_size : ℕ
live_latency_sample_size = 2048

-- A queue status, or a packet; other variants of FromRadio are ignored.
pub data FromRadio : Type 0 where
  queue_status : ℕ → ℕ → FromRadio
  packet : MeshPacket → FromRadio
  other : FromRadio

-- `deque(maxlen=LIVE_LATENCY_SAMPLE_SIZE).append`
abbrev pub append_sample : List ℕ → ℕ → List ℕ
append_sample xs x =
    if length xs == live_latency_sample_size then drop 1 (xs ++ (x ∷ [])) else xs ++ (x ∷ [])

abbrev pub is_applicable_receiver : TrafficKind → String → GeneratedMessage → Bool
is_applicable_receiver direct_text node m = str_eq node m.destination_node
is_applicable_receiver broadcast_text node m = not (str_eq node m.source_node)

abbrev pub first_latency : Option ℕ → ℕ → ℕ
first_latency none latency = latency
first_latency (some old) latency = old

-- A first copy at a receiver.
unfoldable pub deliver :
    Protobuf
    → ℕ
    → String
    → MeshPacket
    → TrafficRun
    → GeneratedMessage
    → TrafficController
    → TrafficController
deliver pb now node p run m c =
    let latency = now - m.generated_monotonic in
    let seen = Members.member numbers m.sequence c.delivered_sequences in
    let counted = record c {
      messages =
          store_message
            (record m {
              delivered_to = m.delivered_to ++ (node ∷ []);
              latency_ms = some (first_latency m.latency_ms latency);
            })
            c.messages;
      receiver_deliveries = c.receiver_deliveries + 1;
      delivered_sequences =
          if seen then c.delivered_sequences else m.sequence ∷ c.delivered_sequences;
      unique_deliveries = if seen then c.unique_deliveries else c.unique_deliveries + 1;
      latencies_ms = c.latencies_ms ++ (latency ∷ []);
      live_latencies_ms = append_sample c.live_latencies_ms latency;
    } in
    let noted = note_activity now counted in
    publish_event
      (record (packet_event now EventType.application_receive) {
        transmitter = some m.source_node;
        intended_destination = some m.destination_node;
        receiver = some node;
        mesh_packet_id = some p.id;
        traffic_run_id = some run.run_id;
        traffic_sequence = some m.sequence;
        port_number = some pb.text_message_app;
        result = some "delivered";
      })
      (publish_metric_update now
        (("uniqueApplicationMessagesDelivered", MetricValue.count noted.unique_deliveries)
          ∷ ("receiverDeliveries", MetricValue.count noted.receiver_deliveries)
          ∷ ("latestLatencyMs", MetricValue.count latency)
          ∷ [])
        noted)

-- A further copy at a receiver; the firmware's own statistics count it where they are sampled.
unfoldable pub note_duplicate : ℕ → TrafficController → TrafficController
note_duplicate now c =
    let counted = record c { duplicates = c.duplicates + 1 } in
    if c.has_sampler
    then c
    else publish_metric_update now
        (("duplicateReceptions", MetricValue.count counted.duplicates) ∷ []) counted

-- The end of the routing branch: the event of an answer.
abbrev pub publish_answer :
    Protobuf
    → ℕ
    → String
    → EventType
    → MeshPacket
    → TrafficRun
    → GeneratedMessage
    → String
    → TrafficController
    → TrafficController
publish_answer pb now node kind p run m result c =
    publish_event
      (record (packet_event now kind) {
        receiver = some node;
        mesh_packet_id = some p.id;
        traffic_run_id = some run.run_id;
        traffic_sequence = some m.sequence;
        port_number = some pb.routing_app;
        result = some result;
      })
      (note_activity now c)

-- A routing answer with no error.
unfoldable pub acknowledge :
    Protobuf
    → ℕ
    → String
    → MeshPacket
    → TrafficRun
    → GeneratedMessage
    → TrafficController
    → TrafficController
acknowledge pb now node p run m c =
    let counted = record c {
      messages = store_message (record m { acknowledged = true }) c.messages;
      acknowledgments = c.acknowledgments + 1;
    } in
    publish_answer pb now node EventType.acknowledgment p run m "acknowledged" (
      if m.acknowledged
      then c
      else publish_metric_update now
          (("acknowledgments", MetricValue.count counted.acknowledgments) ∷ []) counted)

-- A routing answer with an error.
unfoldable pub note_routing_error :
    Protobuf
    → ℕ
    → String
    → String
    → MeshPacket
    → TrafficRun
    → GeneratedMessage
    → TrafficController
    → TrafficController
note_routing_error pb now node reason p run m c =
    let counted = record c {
      routing_terminal_sequences =
          if Members.member numbers m.sequence c.routing_terminal_sequences
          then c.routing_terminal_sequences
          else m.sequence ∷ c.routing_terminal_sequences;
      drop_reasons = c.drop_reasons ++ (reason ∷ []);
      drop_counts = Dict.add_to texts reason 1 c.drop_counts;
    } in
    publish_answer pb now node EventType.routing_error p run m reason (
      publish_metric_update now (("dropsByReason", MetricValue.counts counted.drop_counts) ∷ [])
        counted)
