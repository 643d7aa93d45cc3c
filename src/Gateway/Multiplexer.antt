-- ===== src/Gateway/Multiplexer.antt =====
-- The gateway of one node: backend/app/gateway/node_gateway.py.
-- A task of the gateway is an operation here: what it does between two waits. A writer is known by
-- a number, sockets are left out, and an exception is the Boolean or Option beside the new state.
-- `is_starting` is that a start has the lifecycle lock.
-- What is handed to `from_radio_handler` and to `event_handler` is appended to `handled` and `events`.
pub mod Bounded
pub mod Invariant
pub mod Delivery
use meshtastic_lab.Base.{
  ℕ, zero, suc, ◌+◌, ◌-◌, Bool, true, false, not, ◌&&◌, ◌||◌, String, List, [], ◌∷◌, ◌++◌, Option,
  none, some, ltb, ◌==◌, if◌then◌else◌, length, map,
}
use meshtastic_lab.Base.Dict
use meshtastic_lab.Gateway.Framing.{Frame, encode_frame}
use meshtastic_lab.Metrics.Packet.{Protobuf, MeshPacket, decoded, encrypted, unset}
use meshtastic_lab.Models.Scenario.{numbers}

pub data GatewayState : Type 0 where
  stopped connecting running failed stopping : GatewayState

-- The future of a configuration request.
pub data Waiter : Type 0 where
  pending complete broken : Waiter

-- What the gateway tells of a message from the radio.
pub data RadioMessage : Type 0 where
  config_complete : ℕ → RadioMessage
  mesh_packet : MeshPacket → RadioMessage
  other_variant : RadioMessage

pub record DownstreamWrite : Type 0 where
  pub raw : List ℕ
  pub source : String

pub record NodeGateway : Type 0 where
  pub state : GatewayState
  pub has_failed : Bool
  pub is_starting : Bool
  pub external_connected : Bool
  pub client_writer : Option ℕ
  pub public_clients_enabled : Bool
  pub rejected_clients : ℕ
  pub dropped_external_frames : ℕ
  pub queue_size : ℕ
  pub rf_frames : List MeshPacket
  pub downstream_writes : List DownstreamWrite
  pub external_writes : List (List ℕ)
  pub config_waiters : List (ℕ × Waiter)
  pub handled : List RadioMessage
  pub events : List String

abbrev pub emit : String → NodeGateway → NodeGateway
emit kind g = record g { events = g.events ++ (kind ∷ []) }

-- `Queue.full`: a queue of size 0 has no limit.
abbrev pub is_full {ℓ} : {A : Type ℓ} → ℕ → List A → Bool
is_full size queue = ltb 0 size && not (ltb (length queue) size)

abbrev pub is_running : GatewayState → Bool
is_running running = true
is_running other = false

-- `_fail` does nothing in these states.
abbrev pub is_ended : GatewayState → Bool
is_ended stopping = true
is_ended stopped = true
is_ended failed = true
is_ended other = false

break_waiter : ℕ × Waiter → ℕ × Waiter
break_waiter (nonce, pending) = (nonce, broken)
break_waiter (nonce, complete) = (nonce, complete)
break_waiter (nonce, broken) = (nonce, broken)

-- `_fail`; closing the client's writer ends its tasks, which is `disconnect`.
unfoldable pub fail : NodeGateway → NodeGateway
unfolding break_waiter
fail g =
    if is_ended g.state
    then g
    else let broken_off = emit "gateway.failed" (record g { state = failed; has_failed = true }) in
      record broken_off { config_waiters = map break_waiter g.config_waiters }

-- `_close_transports`: the waiters are broken and forgotten.
abbrev pub close_transports : NodeGateway → NodeGateway
close_transports g = record g { client_writer = none; config_waiters = [] }

-- `_start_unlocked` up to its first wait, for which the lock is free. The Boolean is whether it
-- does not raise.
unfoldable pub start : NodeGateway → NodeGateway × Bool
start g = if g.is_starting then (g, true) else elim g.state [
  | running ↦ (g, true)
  | connecting ↦ (g, false)
  | stopping ↦ (g, false)
  | stopped ↦ (record g { state = connecting; has_failed = false; is_starting = true }, true)
  | failed ↦ (record g { state = connecting; has_failed = false; is_starting = true }, true)
]

-- The rest of `_start_unlocked`: `ready` tells whether the radio and the listeners were there. What
-- the state is by then is not looked at.
unfoldable pub end_start : Bool → NodeGateway → NodeGateway × Bool
end_start ready g =
    if not g.is_starting
    then (g, true)
    else if ready
    then (emit "gateway.started" (record g { state = running; is_starting = false }), true)
    else (close_transports (record g { state = failed; is_starting = false }), false)

-- `stop`, which waits while a start has the lock.
unfoldable pub stop : NodeGateway → NodeGateway
stop g = if g.is_starting then g else elim g.state [
  | stopped ↦ close_transports g
  | _ ↦
      emit "gateway.stopped"
        (record (close_transports g) { state = stopped; external_connected = false })
]

-- `send_to_radio` of a serialized message; `none` is a GatewayError, or the ValueError of a
-- message that is too long.
unfoldable pub send_to_radio : List ℕ → String → NodeGateway → Option NodeGateway
send_to_radio message source g =
    if not (is_running g.state) then none else elim (encode_frame message) [
      | none ↦ none
      | some raw ↦
          if is_full g.queue_size g.downstream_writes
          then none
          else some (record g {
            downstream_writes = g.downstream_writes ++ (record { raw = raw; source = source } ∷ []);
          })
    ]

abbrev pub reject_client : NodeGateway → NodeGateway
reject_client g =
    emit "gateway.client_rejected" (record g { rejected_clients = g.rejected_clients + 1 })

-- `_handle_client` up to its wait.
unfoldable pub connect : ℕ → Bool → NodeGateway → NodeGateway
connect writer is_public g =
    if is_public && not g.public_clients_enabled then reject_client g else elim g.client_writer [
      | some other ↦ reject_client g
      | none ↦
          emit "gateway.client_connected"
            (record g { external_connected = is_public; client_writer = some writer })
    ]

abbrev pub release : ℕ → Option ℕ → Option ℕ
release writer none = none
release writer (some current) = if current == writer then none else some current

-- The end of `_handle_client` for the client of a writer.
unfoldable pub disconnect : ℕ → NodeGateway → NodeGateway
disconnect writer g = emit "gateway.client_disconnected" (record g {
  client_writer = release writer g.client_writer;
  external_connected = false;
  external_writes = [];
})

-- A turn of `_external_writer_loop` and of `_downstream_writer_loop`; `none` waits.
unfoldable pub write_external : NodeGateway → Option (List ℕ × NodeGateway)
write_external g = elim g.external_writes [
  | [] ↦ none
  | raw ∷ rest ↦ some (raw, record g { external_writes = rest })
]

unfoldable pub write_downstream : NodeGateway → Option (DownstreamWrite × NodeGateway)
write_downstream g = elim g.downstream_writes [
  | [] ↦ none
  | write ∷ rest ↦
      some (write, emit "gateway.downstream_write" (record g { downstream_writes = rest }))
]

-- A turn of `_node_loop` of the medium: `rf_frames.get`.
unfoldable pub take_rf_frame : NodeGateway → Option (MeshPacket × NodeGateway)
take_rf_frame g = elim g.rf_frames [
  | [] ↦ none
  | p ∷ rest ↦ some (p, record g { rf_frames = rest })
]

-- A waiter that is done keeps its result.
abbrev pub complete_waiter : ℕ → Option Waiter → List (ℕ × Waiter) → List (ℕ × Waiter)
complete_waiter nonce (some pending) waiters = Dict.put numbers nonce complete waiters
complete_waiter nonce other waiters = waiters

-- The waiters behind a message.
unfoldable pub resolve_waiter : RadioMessage → List (ℕ × Waiter) → List (ℕ × Waiter)
resolve_waiter (config_complete nonce) waiters =
    complete_waiter nonce (Dict.get numbers nonce waiters) waiters
resolve_waiter (mesh_packet p) waiters = waiters
resolve_waiter other_variant waiters = waiters

-- The frame's raw bytes for the client, if there is one.
abbrev pub forward_to : Option ℕ → List ℕ → NodeGateway → NodeGateway
forward_to none raw g = g
forward_to (some writer) raw g =
    if is_full g.queue_size g.external_writes
    then emit "gateway.external_backpressure"
        (record g { dropped_external_frames = g.dropped_external_frames + 1 })
    else record g { external_writes = g.external_writes ++ (raw ∷ []) }

module _ (pb : Protobuf) (parse_from_radio : List ℕ → Option RadioMessage) where
  abbrev pub is_simulated_packet : MeshPacket → Bool
  is_simulated_packet p = elim p.variant [
    | decoded content ↦ content.portnum == pb.simulator_app
    | encrypted bytes ↦ false
    | unset ↦ false
  ]

  abbrev pub divert : MeshPacket → NodeGateway → NodeGateway
  divert p g =
      if is_full g.queue_size g.rf_frames
      then emit "gateway.rf_queue_full" g
      else emit "gateway.rf_transmit" (record g { rf_frames = g.rf_frames ++ (p ∷ []) })

  abbrev pub pass_on : RadioMessage → List ℕ → NodeGateway → NodeGateway
  pass_on (mesh_packet p) raw g =
      if is_simulated_packet p then divert p g else forward_to g.client_writer raw g
  pass_on (config_complete nonce) raw g = forward_to g.client_writer raw g
  pass_on other_variant raw g = forward_to g.client_writer raw g

  abbrev pub handle_message : Option RadioMessage → List ℕ → NodeGateway → NodeGateway
  handle_message none raw g = emit "gateway.invalid_from_radio" g
  handle_message (some message) raw g = pass_on message raw (record g {
    handled = g.handled ++ (message ∷ []);
    config_waiters = resolve_waiter message g.config_waiters;
  })

  -- `_handle_downstream_frame`
  unfoldable pub handle_downstream_frame : Frame → NodeGateway → NodeGateway
  handle_downstream_frame frame g = handle_message (parse_from_radio frame.payload) frame.raw g

  -- The frames of `_downstream_reader_loop`.
  unfoldable pub handle_frames : List Frame → NodeGateway → NodeGateway
  handle_frames [] g = g
  handle_frames (frame ∷ frames) g = handle_frames frames (handle_downstream_frame frame g)
