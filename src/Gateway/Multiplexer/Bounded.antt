-- ===== src/Gateway/Multiplexer/Bounded.antt =====
-- The bounds of a gateway, its steps, and what the calls from outside keep: `NodeGateway` of
-- backend/app/gateway/node_gateway.py.
use meshtastic_lab.Base.{
  ℕ, ◌≤◌, ◌≡◌, refl, inl, inr, Bool, true, false, not, ◌&&◌, String, List, [], ◌∷◌, ◌++◌, Option,
  none, some, arith, length, length-append, Bool-cases, Option-cases,
}
use meshtastic_lab.Gateway.Framing.{Frame, encode_frame}
use meshtastic_lab.Metrics.Packet.{Protobuf, MeshPacket}
use meshtastic_lab.Gateway.Multiplexer.{
  GatewayState, NodeGateway, DownstreamWrite, RadioMessage, running, connecting, stopped, failed,
  is_full, is_running, is_ended, fail, start, end_start, stop, send_to_radio, connect, disconnect,
  write_external, write_downstream, take_rf_frame, forward_to, handle_downstream_frame,
}

abbrev pub is_connecting : GatewayState → Bool
is_connecting connecting = true
is_connecting other = false

-- The queues are within their size, and a gateway that connects is in the middle of a start.
pub record WithinBounds (size : ℕ) (rf : List MeshPacket) (writes : List DownstreamWrite)
    (external : List (List ℕ)) (state : GatewayState) (is_starting : Bool) : Type 0 where
  pub bounded_size : 1 ≤ size
  pub rf_fits : length rf ≤ size
  pub writes_fit : length writes ≤ size
  pub external_fits : length external ≤ size
  pub connects_starting : (is_connecting state && not is_starting) ≡ false

abbrev pub IsGateway : NodeGateway → Type 0
IsGateway g =
    WithinBounds g.queue_size g.rf_frames g.downstream_writes g.external_writes g.state
      g.is_starting

-- What happens to a gateway.
pub data Step : Type 0 where
  starts stops fails : Step
  ends_start : Bool → Step
  sends : List ℕ → String → Step
  connects : ℕ → Bool → Step
  disconnects : ℕ → Step
  reads : Frame → Step
  writes_external writes_downstream takes_rf_frame : Step

-- The gateway behind a call, which is the old one where the call raises or waits.
abbrev pub or_same {ℓ} : {A : Type ℓ} → NodeGateway → Option (A × NodeGateway) → NodeGateway
or_same g none = g
or_same g (some r) = r.1

abbrev pub or_old : NodeGateway → Option NodeGateway → NodeGateway
or_old g none = g
or_old g (some h) = h

module _ (pb : Protobuf) (parse_from_radio : List ℕ → Option RadioMessage) where
  unfoldable pub gateway_step : Step → NodeGateway → NodeGateway
  gateway_step starts g = (start g).0
  gateway_step (ends_start ready) g = (end_start ready g).0
  gateway_step stops g = stop g
  gateway_step fails g = fail g
  gateway_step (sends message source) g = or_old g (send_to_radio message source g)
  gateway_step (connects writer is_public) g = connect writer is_public g
  gateway_step (disconnects writer) g = disconnect writer g
  gateway_step (reads frame) g = handle_downstream_frame pb parse_from_radio frame g
  gateway_step writes_external g = or_same g (write_external g)
  gateway_step writes_downstream g = or_same g (write_downstream g)
  gateway_step takes_rf_frame g = or_same g (take_rf_frame g)

  unfoldable pub gateway_run : List Step → NodeGateway → NodeGateway
  gateway_run [] g = g
  gateway_run (step ∷ steps) g = gateway_run steps (gateway_step step g)

in_state :
    {size : ℕ} {rf : List MeshPacket} {writes : List DownstreamWrite} {external : List (List ℕ)}
    {state : GatewayState} {is_starting : Bool} (state' : GatewayState) (is_starting' : Bool)
    → (is_connecting state' && not is_starting') ≡ false
    → WithinBounds size rf writes external state is_starting
    → WithinBounds size rf writes external state' is_starting'
in_state state' is_starting' h v = record {
  bounded_size = v.bounded_size;
  rf_fits = v.rf_fits;
  writes_fit = v.writes_fit;
  external_fits = v.external_fits;
  connects_starting = h;
}

pub start-IsGateway : (g : NodeGateway) → IsGateway g → IsGateway (start g).0
unfolding start
start-IsGateway g v = ground (arith, v, in_state connecting true refl v)

pub end_start-IsGateway :
    (ready : Bool) (g : NodeGateway) → IsGateway g → IsGateway (end_start ready g).0
unfolding end_start
end_start-IsGateway true g v = elim (Bool-cases (not g.is_starting)) [
  | inl idle ↦ simp (end_start, idle) v
  | inr busy ↦ simp (end_start, busy) (in_state running false refl v)
]
end_start-IsGateway false g v = elim (Bool-cases (not g.is_starting)) [
  | inl idle ↦ simp (end_start, idle) v
  | inr busy ↦ simp (end_start, busy) (in_state failed false refl v)
]

pub stop-IsGateway : (g : NodeGateway) → IsGateway g → IsGateway (stop g)
unfolding stop
stop-IsGateway g v = ground (arith, v, in_state stopped g.is_starting refl v)

pub fail-IsGateway : (g : NodeGateway) → IsGateway g → IsGateway (fail g)
unfolding fail
fail-IsGateway g v = elim (Bool-cases (is_ended g.state)) [
  | inl e ↦ rw (fail, e) v
  | inr e ↦ rw (fail, e) (in_state failed g.is_starting refl v)
]

-- A queue that is not full has room for one more.
pub grown-le {ℓ} :
    {A : Type ℓ} (size : ℕ) (queue : List A) (x : A)
    → 1 ≤ size
    → is_full size queue ≡ false
    → length (queue ++ (x ∷ [])) ≤ size
grown-le size queue x positive room = ground (arith, length-append queue (x ∷ []))

pub send_to_radio-IsGateway :
    (message : List ℕ) (source : String) (g : NodeGateway)
    → IsGateway g
    → IsGateway (or_old g (send_to_radio message source g))
unfolding send_to_radio
send_to_radio-IsGateway message source g v = elim (Bool-cases (not (is_running g.state))) [
  | inl e ↦ rw (send_to_radio, e) v
  | inr e ↦ elim (Option-cases (encode_frame message)) [
    | inl long ↦ rw (send_to_radio, e, long) v
    | inr (raw, short) ↦ elim (Bool-cases (is_full g.queue_size g.downstream_writes)) [
      | inl full ↦ rw (send_to_radio, e, short, full) v
      | inr room ↦
          rw (send_to_radio, e, short, room)
            (record {
              bounded_size = v.bounded_size;
              rf_fits = v.rf_fits;
              writes_fit = grown-le g.queue_size g.downstream_writes _ v.bounded_size room;
              external_fits = v.external_fits;
              connects_starting = v.connects_starting;
            })
    ]
  ]
]

pub connect-IsGateway :
    (writer : ℕ) (is_public : Bool) (g : NodeGateway)
    → IsGateway g
    → IsGateway (connect writer is_public g)
unfolding connect
connect-IsGateway writer is_public g v =
    elim (Bool-cases (is_public && not g.public_clients_enabled)) [
      | inl e ↦ rw (connect, e) v
      | inr e ↦ elim (Option-cases g.client_writer) [
        | inl free ↦ rw (connect, e, free) v
        | inr (other, taken) ↦ rw (connect, e, taken) v
      ]
    ]

pub forward_to-IsGateway :
    (client : Option ℕ) (raw : List ℕ) (g : NodeGateway)
    → IsGateway g
    → IsGateway (forward_to client raw g)
forward_to-IsGateway none raw g v = v
forward_to-IsGateway (some writer) raw g v =
    elim (Bool-cases (is_full g.queue_size g.external_writes)) [
      | inl full ↦ rw full v
      | inr room ↦ rw room (record {
        bounded_size = v.bounded_size;
        rf_fits = v.rf_fits;
        writes_fit = v.writes_fit;
        external_fits = grown-le g.queue_size g.external_writes raw v.bounded_size room;
        connects_starting = v.connects_starting;
      })
    ]
