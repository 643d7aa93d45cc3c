-- ===== src/Traffic/Controller.antt =====
-- Metric updates, correlation and the handlers of backend/app/traffic/controller.py.
pub mod Submission
pub mod Radio
pub mod Receipts
pub mod Receive
pub mod Store
pub mod Accounts
pub mod Ledger
pub mod Handlers
pub mod Answers
pub mod History
use meshtastic_lab.Base.{
  ℕ, zero, suc, ◌+◌, ◌-◌, ◌≡◌, Bool, true, false, not, ◌&&◌, ◌||◌, String, str_eq, List, [], ◌∷◌,
  ◌++◌, Option, none, some, ltb, ◌==◌, if◌then◌else◌, length, map,
}
use meshtastic_lab.Base.Dict
use meshtastic_lab.Base.Members
use meshtastic_lab.Base.Members.{Equality}
use meshtastic_lab.Metrics.Events.{PacketEvent, EventType, MetricValue, packet_event}
use meshtastic_lab.Metrics.Packet.{
  Protobuf, MeshPacket, Payload, decoded, encrypted, unset, mesh_packet_port_number,
}
use meshtastic_lab.Models.Scenario.{texts, numbers}
use meshtastic_lab.Traffic.Model.{
  TrafficController, TrafficRun, TrafficRunRequest, TrafficRunState, TrafficRunPhase, TrafficKind,
  GeneratedMessage,
}

abbrev pub places : Equality (String × ℕ)
places = Members.both texts numbers

abbrev pub identities : Equality (ℕ × ℕ)
identities = Members.both numbers numbers

-- `_accepts_run_events`
abbrev pub is_active_state : Bool → TrafficRunState → Bool
is_active_state allow_failed TrafficRunState.running = true
is_active_state allow_failed TrafficRunState.stopping = true
is_active_state allow_failed TrafficRunState.failed = allow_failed
is_active_state allow_failed other = false

abbrev pub is_open_phase : TrafficRunPhase → Bool
is_open_phase TrafficRunPhase.generating = true
is_open_phase TrafficRunPhase.draining = true
is_open_phase other = false

unfoldable pub accepts_run_events : Bool → TrafficController → Bool
accepts_run_events allow_failed c = is_open_phase c.phase && is_active_state allow_failed c.state

abbrev pub note_activity : ℕ → TrafficController → TrafficController
note_activity now c = record c { last_activity_monotonic = now }

abbrev pub publish_event : PacketEvent → TrafficController → TrafficController
publish_event e c = record c { published = c.published ++ (e ∷ []) }

same_stream : Option String → String → Bool
same_stream none current = false
same_stream (some s) current = str_eq s current

-- The event of `_publish_metric_update` with its `result`, or none.
unfoldable pub metric_events :
    ℕ → String → List (String × MetricValue) → TrafficController → List PacketEvent
unfolding same_stream
metric_events now result values c = elim c.current [
  | none ↦ []
  | some run ↦
      if same_stream c.event_stream_id c.broker_stream_id
      then record (packet_event now EventType.metrics) {
        traffic_run_id = some run.run_id;
        metric_update = values;
        result = some result;
      }
        ∷ []
      else []
]

-- `_publish_metric_update`
abbrev pub publish_metric_update :
    ℕ → List (String × MetricValue) → TrafficController → TrafficController
publish_metric_update now values c = record c {
  published = c.published ++ metric_events now "update" values c;
}

-- The message object of a sequence number.
unfoldable pub find_message : ℕ → List GeneratedMessage → Option GeneratedMessage
find_message n [] = none
find_message n (m ∷ ms) = if m.sequence == n then some m else find_message n ms

-- The message of an optional sequence number.
abbrev pub found_message : Option ℕ → List GeneratedMessage → Option GeneratedMessage
found_message none ms = none
found_message (some n) ms = find_message n ms

-- A write to the message object: every holder of the reference sees it.
unfoldable pub store_message : GeneratedMessage → List GeneratedMessage → List GeneratedMessage
store_message m [] = []
store_message m (k ∷ ms) = if k.sequence == m.sequence then m ∷ ms else k ∷ store_message m ms

-- `_packet_origin`
abbrev pub packet_origin : MeshPacket → ℕ
packet_origin p = p.from_number

own_transmission : TrafficController → Option String → MeshPacket → Bool
own_transmission c none p = false
own_transmission c (some node) p = elim (Dict.get texts node c.hardware_ids) [
  | none ↦ false
  | some number ↦ number == packet_origin p
]

port_is : ℕ → Option ℕ → Bool
port_is port none = false
port_is port (some p) = p == port

request_of : MeshPacket → ℕ
request_of p = elim p.variant [ decoded c ↦ c.request_id | encrypted b ↦ 0 | unset ↦ 0 ]

module _ (pb : Protobuf) where
  -- The request that a response answers: the `if`/`elif` of `_message_for_packet_identity`.
  unfoldable pub answered_request : MeshPacket → Option String → TrafficController → Option ℕ
  unfolding own_transmission port_is request_of
  answered_request p transmitter c =
      let port = mesh_packet_port_number pb p in
      if port_is pb.routing_app port && not (request_of p == 0)
      then some (request_of p)
      else if port_is pb.unknown_app port
          && (not (p.rx_time == 0) && own_transmission c transmitter p)
      then some p.rx_time
      else none

  -- `_message_for_packet_identity`: the message's sequence number; an answer becomes a further
  -- identity of the message.
  unfoldable pub message_for_packet_identity :
      MeshPacket → Option String → TrafficController → Option ℕ × List ((ℕ × ℕ) × ℕ)
  message_for_packet_identity p transmitter c =
      let known = c.messages_by_packet in
      let own : Option ℕ × List ((ℕ × ℕ) × ℕ) =
        (Dict.get identities (packet_origin p, p.id) known, known) in
      elim (answered_request p transmitter c) [
        | none ↦ own
        | some request ↦ elim (Dict.get identities (p.to_number, request) known) [
          | none ↦ own
          | some ref ↦ (some ref, Dict.put identities (packet_origin p, p.id) ref known)
        ]
      ]
