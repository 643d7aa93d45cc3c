-- ===== src/Traffic/Controller/Answers.antt =====
-- The counters of backend/app/traffic/controller.py under `handle_from_radio`.
use meshtastic_lab.Base.{
  ℕ, ◌≡◌, refl, inl, inr, Bool, true, false, not, ◌&&◌, ◌||◌, String, List, [], ◌∷◌, Option, none,
  some, arith, ◌==◌, str_eq, if◌then◌else◌, Bool-cases, Option-cases, length-append,
}
use meshtastic_lab.Base.Dict
use meshtastic_lab.Base.Members
use meshtastic_lab.Metrics.Packet.{Protobuf, MeshPacket, Content, decoded_content}
use meshtastic_lab.Models.Scenario.{texts}
use meshtastic_lab.Traffic.Model.{TrafficController, TrafficRun, GeneratedMessage}
use meshtastic_lab.Traffic.Controller.{
  find_message, found_message, message_for_packet_identity, accepts_run_events, packet_origin,
}
use meshtastic_lab.Traffic.Controller.Radio.{identified}
use meshtastic_lab.Traffic.Controller.Receive.{
  handle_text, receive, receive_identified, answer, answer_if, answered_by, route, route_reference,
  route_from, handle_content, dispatch, handle_routing, handle_from_radio,
}
use meshtastic_lab.Traffic.Controller.Receipts.{
  FromRadio, queue_status, packet, other, deliver, note_duplicate, acknowledge, note_routing_error,
  is_applicable_receiver,
}
use meshtastic_lab.Traffic.Controller.Store.{All-find_message}
use meshtastic_lab.Traffic.Controller.Ledger.{IsLedger, IsSound, Ledger-store}
use meshtastic_lab.Traffic.Controller.Handlers.{
  Keeps, found-at, record_queue_status-IsLedger, rejection-IsLedger,
}

module _ (pb : Protobuf) (parse_identifier : List ℕ → Option (String × ℕ)) (now : ℕ) where
  acknowledge-IsLedger :
      (node : String) (p : MeshPacket) (run : TrafficRun) (ref : ℕ) (m : GeneratedMessage)
      (c : TrafficController)
      → find_message ref c.messages ≡ some m
      → IsLedger c
      → IsLedger (acknowledge pb now node p run m c)
  unfolding acknowledge
  acknowledge-IsLedger node p run ref m c found v = elim (Bool-cases m.acknowledged) [
    | inl e ↦ rw (acknowledge, e) v
    | inr e ↦
        rw (acknowledge, e)
          (Ledger-store ref m (record m { acknowledged = true }) _ _ c.messages _ _ _ _ _ _ _ _ _ _
            _ found refl (ground (arith, All-find_message ref m IsSound c.messages found v.sound))
            v.mirrored refl refl refl (ground arith) refl v)
  ]

  deliver-IsLedger :
      (node : String) (p : MeshPacket) (run : TrafficRun) (ref : ℕ) (m : GeneratedMessage)
      (c : TrafficController)
      → find_message ref c.messages ≡ some m
      → IsLedger c
      → IsLedger (deliver pb now node p run m c)
  unfolding deliver
  deliver-IsLedger node p run ref m c found v =
      Ledger-store ref m _ _ _ c.messages _ _ _ _ _ _ _ _ _ _ _ found refl
        (ground (arith, All-find_message ref m IsSound c.messages found v.sound)) v.mirrored refl
        refl refl refl (omega (arith, length-append m.delivered_to (node ∷ []))) v

  receive-IsLedger :
      (node : String) (p : MeshPacket) (sequence : ℕ) (run : TrafficRun) (ref : Option ℕ)
      (o : Option GeneratedMessage) (c : TrafficController)
      → found_message ref c.messages ≡ o
      → IsLedger c
      → IsLedger (receive pb parse_identifier now node p sequence run o c)
  unfolding note_duplicate
  receive-IsLedger node p sequence run ref none c e v = v
  receive-IsLedger node p sequence run ref (some m) c e v =
      let (n, found) = found-at pb now ref m c.messages e in
      elim (Bool-cases (
        not (m.sequence == sequence)
        || (not m.submitted || not (is_applicable_receiver run.request.kind node m)))) [
          | inl skip ↦ rw skip v
          | inr fits ↦ rw fits (elim (Bool-cases (Members.member texts node m.delivered_to)) [
            | inl again ↦
                rw again (elim (Bool-cases c.has_sampler) [ inl e ↦ rw e v | inr e ↦ rw e v ])
            | inr first ↦ rw first (deliver-IsLedger node p run n m c found v)
          ])
        ]

  receive_identified-IsLedger :
      (node : String) (p : MeshPacket) (run : TrafficRun) (o : Option (String × ℕ))
      (c : TrafficController)
      → IsLedger c
      → IsLedger (receive_identified pb parse_identifier now node p run o c)
  receive_identified-IsLedger node p run none c v = v
  receive_identified-IsLedger node p run (some (run_id, sequence)) c v =
      elim (Bool-cases (str_eq run_id run.run_id)) [
        | inl e ↦ rw e (
            receive-IsLedger node p sequence run (message_for_packet_identity pb p none c).0 _
              (identified pb p none c) refl v)
        | inr e ↦ rw e v
      ]

  answer_if-Keeps :
      (o : Option Bool) (yes_c no_c : TrafficController)
      → IsLedger yes_c
      → IsLedger no_c
      → Keeps (answer_if pb parse_identifier o yes_c no_c)
  answer_if-Keeps none yes_c no_c h k = tt
  answer_if-Keeps (some true) yes_c no_c h k = h
  answer_if-Keeps (some false) yes_c no_c h k = k

  answer-Keeps :
      (node : String) (own ref : ℕ) (p : MeshPacket) (reason : ℕ) (run : TrafficRun)
      (o : Option GeneratedMessage) (c : TrafficController)
      → find_message ref c.messages ≡ o
      → IsLedger c
      → Keeps (answer pb parse_identifier now node own p reason run o c)
  unfolding note_routing_error
  answer-Keeps node own ref p reason run none c e v = v
  answer-Keeps node own ref p reason run (some m) c e v =
      elim (Bool-cases (reason == pb.error_none)) [
        | inl good ↦ rw good (
            answer_if-Keeps
              (answered_by pb parse_identifier run.request.kind (packet_origin p) own m c) _ c
              (acknowledge-IsLedger node p run ref m c e v) v)
        | inr bad ↦ rw bad v
      ]

  Keeps-if :
      (b : Bool) (x y : Option TrafficController)
      → (b ≡ true → Keeps x)
      → (b ≡ false → Keeps y)
      → Keeps (if b then x else y)
  Keeps-if true x y h k = h refl
  Keeps-if false x y h k = k refl

  route-Keeps :
      (node : String) (own : ℕ) (p : MeshPacket) (reason : Option ℕ) (ref : ℕ) (run : TrafficRun)
      (o : Option GeneratedMessage) (c : TrafficController)
      → find_message ref c.messages ≡ o
      → IsLedger c
      → Keeps (route pb parse_identifier now node own p reason ref run o c)
  route-Keeps node own p reason ref run none c e v = v
  route-Keeps node own p none ref run (some m) c e v = tt
  route-Keeps node own p (some reason) ref run (some m) c e v =
      Keeps-if m.transmitted _ _ (λ _. answer-Keeps node own ref p reason run (some m) c e v)
        (λ unsent.
          Keeps-if (reason == pb.rate_limit_exceeded) _ _
            (λ _. answer-Keeps node own ref p reason run _ _ refl (
              rejection-IsLedger pb now node ref "firmware text-message rate limit exceeded" m c e
                unsent v))
            (λ _. v))

  route_reference-Keeps :
      (node : String) (own : ℕ) (p : MeshPacket) (reason : Option ℕ) (run : TrafficRun)
      (ref : Option ℕ) (c : TrafficController)
      → IsLedger c
      → Keeps (route_reference pb parse_identifier now node own p reason run ref c)
  route_reference-Keeps node own p reason run none c v = v
  route_reference-Keeps node own p reason run (some ref) c v =
      route-Keeps node own p reason ref run _ c refl v

  route_from-Keeps :
      (node : String) (own : Option ℕ) (p : MeshPacket) (content : Content) (run : TrafficRun)
      (c : TrafficController)
      → IsLedger c
      → Keeps (route_from pb parse_identifier now node own p content run c)
  route_from-Keeps node none p content run c v = v
  route_from-Keeps node (some own) p content run c v =
      route_reference-Keeps node own p (pb.parse_routing content.payload) run _ c v

  handle_content-Keeps :
      (node : String) (p : MeshPacket) (run : TrafficRun) (o : Option Content)
      (c : TrafficController)
      → IsLedger c
      → Keeps (handle_content pb parse_identifier now node p run o c)
  unfolding handle_text handle_routing
  handle_content-Keeps node p run none c v = v
  handle_content-Keeps node p run (some content) c v =
      elim (Bool-cases (content.portnum == pb.text_message_app)) [
        | inl text ↦
            rw text (receive_identified-IsLedger node p run (parse_identifier content.payload) c v)
        | inr other_port ↦
            rw other_port
              (elim (Bool-cases
                (content.portnum == pb.routing_app && not (content.request_id == 0))) [
                  | inl routing ↦
                      rw routing (
                        route_from-Keeps node (Dict.get texts node c.hardware_ids) p content run c
                          v)
                  | inr neither ↦ rw neither v
                ])
      ]

  dispatch-Keeps :
      (node : String) (message : FromRadio) (queue_error : ℕ → String) (run : TrafficRun)
      (c : TrafficController)
      → IsLedger c
      → Keeps (dispatch pb parse_identifier now node message queue_error run c)
  dispatch-Keeps node (queue_status packet_id res) queue_error run c v =
      record_queue_status-IsLedger pb now node packet_id res queue_error c v
  dispatch-Keeps node (packet p) queue_error run c v =
      handle_content-Keeps node p run (decoded_content p) c v
  dispatch-Keeps node other queue_error run c v = v

  -- If the counters are the sums over the messages, a message from a radio that is handled without
  -- an exception, whatever it is, keeps them so.
  pub handle_from_radio-Keeps :
      (node : String) (message : FromRadio) (queue_error : ℕ → String) (c : TrafficController)
      → IsLedger c
      → Keeps (handle_from_radio pb parse_identifier now node message queue_error c)
  unfolding handle_from_radio
  handle_from_radio-Keeps node message queue_error c v = elim (Option-cases c.current) [
    | inl e ↦ rw (e, handle_from_radio) v
    | inr (run, at_run) ↦ elim (Bool-cases (accepts_run_events false c)) [
      | inl e ↦ rw (at_run, handle_from_radio, e) (dispatch-Keeps node message queue_error run c v)
      | inr e ↦ rw (at_run, handle_from_radio, e) v
    ]
  ]
