-- ===== src/Tests/Gateways.antt =====
-- A concrete gateway for backend/app/gateway/node_gateway.py.
use meshtastic_lab.Base.{
  take, ℕ, ◌+◌, ◌≡◌, refl, if◌then◌else◌, ◌==◌, true, false, List, [], ◌∷◌, ◌++◌, Option, none,
  some, arith, length,
}
use meshtastic_lab.Gateway.Framing.{Frame}
use meshtastic_lab.Metrics.Packet.{Protobuf, decoded}
use meshtastic_lab.Gateway.Multiplexer.{
  NodeGateway, RadioMessage, config_complete, mesh_packet, handle_frames, stopped,
}
use meshtastic_lab.Gateway.Multiplexer.Bounded.{
  ends_start, Step, starts, connects, sends, reads, writes_downstream, fails, stops,
}
use meshtastic_lab.Gateway.Multiplexer.Delivery.{ordinary, handle_frames_accounts}

abbrev protobuf : Protobuf
protobuf = record {
  parse_compressed = λ bytes. none;
  parse_routing = λ bytes. some 0;
  serialized_length = λ port bytes request. 0;
  error_name = λ n. "ERROR";
  unknown_app = 0;
  text_message_app = 1;
  routing_app = 5;
  simulator_app = 69;
  error_none = 0;
  rate_limit_exceeded = 38;
}

-- The first byte tells the message: 1 a simulated packet, 2 the end of a configuration.
abbrev parse : List ℕ → Option RadioMessage
parse [] = none
parse (n ∷ rest) =
    if n == 1
    then some (
        mesh_packet (record {
          id = 9;
          from_number = 11;
          to_number = 12;
          rx_time = 0;
          hop_limit = 3;
          hop_start = 3;
          variant = decoded (record { portnum = 69; payload = []; request_id = 0 });
        }))
    else some (config_complete n)

abbrev frame : ℕ → Frame
frame n = record { raw = 0x94 ∷ 0xc3 ∷ 0 ∷ 1 ∷ n ∷ []; payload = n ∷ [] }

abbrev gateway : NodeGateway
gateway = record {
  state = stopped;
  has_failed = false;
  is_starting = false;
  external_connected = false;
  client_writer = some 4;
  public_clients_enabled = true;
  rejected_clients = 0;
  dropped_external_frames = 0;
  queue_size = 1;
  rf_frames = [];
  downstream_writes = [];
  external_writes = [];
  config_waiters = [];
  handled = [];
  events = [];
}

abbrev frames : List Frame
frames = frame 1 ∷ frame 2 ∷ frame 3 ∷ []

abbrev steps : List Step
steps =
    starts
    ∷ ends_start true
    ∷ connects 4 true
    ∷ sends (7 ∷ []) "traffic"
    ∷ reads (frame 1)
    ∷ reads (frame 2)
    ∷ reads (frame 3)
    ∷ writes_downstream
    ∷ fails
    ∷ starts
    ∷ fails
    ∷ stops
    ∷ ends_start true
    ∷ stops
    ∷ []

handle_frames_accounts_example :
    ((handle_frames protobuf parse frames gateway).external_writes
      ≡ take gateway.queue_size (gateway.external_writes ++ ordinary protobuf parse frames))
    × (length (handle_frames protobuf parse frames gateway).external_writes
          + (handle_frames protobuf parse frames gateway).dropped_external_frames
        ≡ length gateway.external_writes
          + gateway.dropped_external_frames
          + length (ordinary protobuf parse frames))
handle_frames_accounts_example =
    handle_frames_accounts protobuf parse frames 4 gateway refl (omega arith) (omega arith)
