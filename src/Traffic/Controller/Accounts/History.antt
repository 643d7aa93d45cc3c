-- ===== src/Traffic/Controller/Accounts/History.antt =====
-- The live accounts of backend/app/traffic/controller.py over the calls of a run.
use meshtastic_lab.Base.{
  ℕ, inl, inr, false, String, List, [], ◌∷◌, Option, none, some, arith, ◌==◌, Bool-cases,
  Option-cases, subst,
}
use meshtastic_lab.Base.Dict
use meshtastic_lab.Metrics.Packet.{Protobuf, MeshPacket, Content, decoded_content}
use meshtastic_lab.Models.Scenario.{texts}
use meshtastic_lab.Traffic.Model.{TrafficController, TrafficRun, GeneratedMessage}
use meshtastic_lab.Traffic.Controller.{find_message, identities, accepts_run_events}
use meshtastic_lab.Traffic.Controller.Submission.{record_pretransmission_rejection}
use meshtastic_lab.Traffic.Controller.Receive.{
  handle_routing, handle_from_radio, answer, route, route_from, dispatch, handle_content,
}
use meshtastic_lab.Traffic.Controller.Receipts.{FromRadio, queue_status, packet, other}
use meshtastic_lab.Traffic.Controller.History.{Command, perform, perform_all}
use meshtastic_lab.Traffic.Controller.Accounts.{
  HasAccounts, Accounted, Accounted-if, submit-HasAccounts, record_queue_status-HasAccounts,
  rejection-HasAccounts, record_rf_transmission-HasAccounts, failed-HasAccounts,
  duplicates-HasAccounts, topology-HasAccounts, lag-HasAccounts, handle_text-HasAccounts,
  acknowledge-HasAccounts, routing_error-HasAccounts, record_drop-HasAccounts,
  finalize_pending_submissions-HasAccounts,
}

module _ (pb : Protobuf) (parse_identifier : List ℕ → Option (String × ℕ)) (now : ℕ) where
  answer-Accounted :
      (node : String) (own : ℕ) (p : MeshPacket) (reason : ℕ) (run : TrafficRun)
      (o : Option GeneratedMessage) (c : TrafficController)
      → HasAccounts c
      → Accounted (answer pb parse_identifier now node own p reason run o c)
  answer-Accounted node own p reason run none c v = v
  answer-Accounted node own p reason run (some m) c v = ground (
    arith,
    v,
    acknowledge-HasAccounts pb now node p run m c v,
    routing_error-HasAccounts pb now node (pb.error_name reason) p run m c v,
  )

  route-Accounted :
      (node : String) (own : ℕ) (p : MeshPacket) (reason : Option ℕ) (ref : ℕ) (run : TrafficRun)
      (o : Option GeneratedMessage) (c : TrafficController)
      → HasAccounts c
      → Accounted (route pb parse_identifier now node own p reason ref run o c)
  route-Accounted node own p reason ref run none c v = v
  route-Accounted node own p none ref run (some m) c v = tt
  route-Accounted node own p (some reason) ref run (some m) c v =
      let rejected =
        record_pretransmission_rejection pb now node ref "firmware text-message rate limit exceeded"
          c in
      Accounted-if m.transmitted _ _ (answer-Accounted node own p reason run (some m) c v) (
        Accounted-if (reason == pb.rate_limit_exceeded) _ _
          (answer-Accounted node own p reason run (find_message ref rejected.messages) rejected
            (rejection-HasAccounts pb now node ref "firmware text-message rate limit exceeded" c v))
          v)

  route_from-Accounted :
      (node : String) (own : Option ℕ) (p : MeshPacket) (content : Content) (run : TrafficRun)
      (c : TrafficController)
      → HasAccounts c
      → Accounted (route_from pb parse_identifier now node own p content run c)
  route_from-Accounted node none p content run c v = v
  route_from-Accounted node (some own) p content run c v =
      elim (Option-cases (Dict.get identities (own, content.request_id) c.messages_by_packet)) [
        | inl e ↦ rw e v
        | inr (ref, e) ↦ rw e (
            route-Accounted node own p (pb.parse_routing content.payload) ref run
              (find_message ref c.messages) c v)
      ]

  handle_content-Accounted :
      (node : String) (p : MeshPacket) (run : TrafficRun) (o : Option Content)
      (c : TrafficController)
      → HasAccounts c
      → Accounted (handle_content pb parse_identifier now node p run o c)
  unfolding handle_routing
  handle_content-Accounted node p run none c v = v
  handle_content-Accounted node p run (some content) c v = ground (
    arith,
    v,
    handle_text-HasAccounts pb now parse_identifier node p content run c v,
    route_from-Accounted node (Dict.get texts node c.hardware_ids) p content run c v,
  )

  dispatch-Accounted :
      (node : String) (message : FromRadio) (queue_error : ℕ → String) (run : TrafficRun)
      (c : TrafficController)
      → HasAccounts c
      → Accounted (dispatch pb parse_identifier now node message queue_error run c)
  dispatch-Accounted node (queue_status packet_id res) queue_error run c v =
      record_queue_status-HasAccounts pb now node packet_id res queue_error c v
  dispatch-Accounted node (packet p) queue_error run c v =
      handle_content-Accounted node p run (decoded_content p) c v
  dispatch-Accounted node other queue_error run c v = v

  handle_from_radio-Accounted :
      (node : String) (message : FromRadio) (queue_error : ℕ → String) (c : TrafficController)
      → HasAccounts c
      → Accounted (handle_from_radio pb parse_identifier now node message queue_error c)
  unfolding handle_from_radio
  handle_from_radio-Accounted node message queue_error c v = elim (Option-cases c.current) [
    | inl e ↦ rw (e, handle_from_radio) v
    | inr (run, at_run) ↦ elim (Bool-cases (accepts_run_events false c)) [
      | inl e ↦
          rw (at_run, handle_from_radio, e) (dispatch-Accounted node message queue_error run c v)
      | inr e ↦ rw (at_run, handle_from_radio, e) v
    ]
  ]

  perform-Accounted :
      (command : Command) (c : TrafficController)
      → HasAccounts c
      → Accounted (perform pb parse_identifier now command c)
  unfolding perform
  perform-Accounted (Command.submits flow source destination packet_id airtime delay size refused) c
        v =
      submit-HasAccounts pb now flow source destination packet_id airtime delay size refused c v
  perform-Accounted (Command.hears node message queue_error) c v =
      handle_from_radio-Accounted node message queue_error c v
  perform-Accounted (Command.transmits transmitter p airtime) c v =
      record_rf_transmission-HasAccounts pb now transmitter p airtime c v
  perform-Accounted (Command.drops transmitter p reason) c v =
      record_drop-HasAccounts pb now transmitter p reason c v
  perform-Accounted (Command.samples_failed node count) c v =
      failed-HasAccounts pb now node count c v
  perform-Accounted (Command.samples_duplicates node count) c v =
      duplicates-HasAccounts pb now node count c v
  perform-Accounted (Command.changes_link event link) c v =
      topology-HasAccounts pb now event link c v
  perform-Accounted (Command.measures_lag lag) c v = lag-HasAccounts pb now lag c v
  perform-Accounted Command.drains c v = v
  perform-Accounted Command.finalizes c v = finalize_pending_submissions-HasAccounts pb now c v

module _ (pb : Protobuf) (parse_identifier : List ℕ → Option (String × ℕ)) where
  -- If the accounts kept along the way (transmissions, airtime, both per node, drops by reason) are
  -- what the run's lists of transmitters, airtimes and drop reasons give, they still are after every
  -- sequence of calls that raises no exception.
  pub perform_all-Accounted :
      (commands : List (ℕ × Command)) (c : TrafficController)
      → HasAccounts c
      → Accounted (perform_all pb parse_identifier commands c)
  unfolding perform_all
  perform_all-Accounted [] c v = v
  perform_all-Accounted ((now, command) ∷ commands) c v =
      let kept = perform-Accounted pb parse_identifier now command c v in
      elim (Option-cases (perform pb parse_identifier now command c)) [
        | inl e ↦ rw (perform_all, e) tt
        | inr (c', e) ↦
            rw (perform_all, e) (perform_all-Accounted commands c' (subst Accounted e kept))
      ]
