-- ===== src/Traffic/Controller/Receive.antt =====
-- What the nodes' own clients report: `handle_from_radio` of backend/app/traffic/controller.py.
use meshtastic_lab.Base.{
  ℕ, Bool, true, false, not, ◌&&◌, ◌||◌, String, str_eq, List, Option, none, some, ◌==◌,
  if◌then◌else◌,
}
use meshtastic_lab.Base.Dict
use meshtastic_lab.Base.Members
use meshtastic_lab.Metrics.Packet.{Protobuf, MeshPacket, Content, decoded_content}
use meshtastic_lab.Models.Scenario.{texts}
use meshtastic_lab.Traffic.Model.{
  TrafficController, TrafficRun, TrafficKind, broadcast_text, direct_text, GeneratedMessage,
}
use meshtastic_lab.Traffic.Controller.{identities, accepts_run_events, find_message, packet_origin}
use meshtastic_lab.Traffic.Controller.Radio.{correlated, identified}
use meshtastic_lab.Traffic.Controller.Submission.{
  record_queue_status, record_pretransmission_rejection,
}
use meshtastic_lab.Traffic.Controller.Receipts.{
  FromRadio, is_applicable_receiver, deliver, note_duplicate, acknowledge, note_routing_error,
  queue_status, packet, other,
}

module _ (pb : Protobuf) (parse_identifier : List ℕ → Option (String × ℕ)) where
  -- The rest of the text branch behind the lookup.
  abbrev pub receive :
      ℕ
      → String
      → MeshPacket
      → ℕ
      → TrafficRun
      → Option GeneratedMessage
      → TrafficController
      → TrafficController
  receive now node p sequence run none c = c
  receive now node p sequence run (some m) c =
      if not (m.sequence == sequence)
        || (not m.submitted || not (is_applicable_receiver run.request.kind node m))
      then c
      else if Members.member texts node m.delivered_to
      then note_duplicate now c
      else deliver pb now node p run m c

  -- The identifier is of this run.
  abbrev pub receive_identified :
      ℕ
      → String
      → MeshPacket
      → TrafficRun
      → Option (String × ℕ)
      → TrafficController
      → TrafficController
  receive_identified now node p run none c = c
  receive_identified now node p run (some (run_id, sequence)) c =
      if str_eq run_id run.run_id
      then receive now node p sequence run (correlated pb p none c) (identified pb p none c)
      else c

  -- The text branch; `_parse_identifier` is an argument.
  unfoldable pub handle_text :
      ℕ → String → MeshPacket → Content → TrafficRun → TrafficController → TrafficController
  handle_text now node p content run c =
      receive_identified now node p run (parse_identifier content.payload) c

  -- The answer is from the destination, or, of a broadcast, from another node.
  -- `none` is the KeyError of an unknown destination.
  abbrev pub answered_by : TrafficKind → ℕ → ℕ → GeneratedMessage → TrafficController → Option Bool
  answered_by direct_text response own m c =
      elim (Dict.get texts m.destination_node c.hardware_ids) [
        | none ↦ none
        | some number ↦ some (response == number)
      ]
  answered_by broadcast_text response own m c = some (not (response == own))

  abbrev pub answer_if :
      Option Bool → TrafficController → TrafficController → Option TrafficController
  answer_if none yes_c no_c = none
  answer_if (some true) yes_c no_c = some yes_c
  answer_if (some false) yes_c no_c = some no_c

  -- The routing branch behind the lookup of its message; after a rejection it reads it again.
  abbrev pub answer :
      ℕ
      → String
      → ℕ
      → MeshPacket
      → ℕ
      → TrafficRun
      → Option GeneratedMessage
      → TrafficController
      → Option TrafficController
  answer now node own p reason run none c = some c
  answer now node own p reason run (some m) c =
      if reason == pb.error_none
      then answer_if (answered_by run.request.kind (packet_origin p) own m c)
          (acknowledge pb now node p run m c) c
      else some (note_routing_error pb now node (pb.error_name reason) p run m c)

  -- A message that is not known to be transmitted takes no answer but the rate limit's rejection.
  abbrev pub route :
      ℕ
      → String
      → ℕ
      → MeshPacket
      → Option ℕ
      → ℕ
      → TrafficRun
      → Option GeneratedMessage
      → TrafficController
      → Option TrafficController
  route now node own p reason ref run none c = some c
  route now node own p none ref run (some m) c = none
  route now node own p (some reason) ref run (some m) c =
      let rejected =
        record_pretransmission_rejection pb now node ref "firmware text-message rate limit exceeded"
          c in
      if m.transmitted
      then answer now node own p reason run (some m) c
      else if reason == pb.rate_limit_exceeded
      then answer now node own p reason run (find_message ref rejected.messages) rejected
      else some c

  abbrev pub route_reference :
      ℕ
      → String
      → ℕ
      → MeshPacket
      → Option ℕ
      → TrafficRun
      → Option ℕ
      → TrafficController
      → Option TrafficController
  route_reference now node own p reason run none c = some c
  route_reference now node own p reason run (some ref) c =
      route now node own p reason ref run (find_message ref c.messages) c

  abbrev pub route_from :
      ℕ
      → String
      → Option ℕ
      → MeshPacket
      → Content
      → TrafficRun
      → TrafficController
      → Option TrafficController
  route_from now node none p content run c = some c
  route_from now node (some own) p content run c =
      route_reference now node own p (pb.parse_routing content.payload) run
        (Dict.get identities (own, content.request_id) c.messages_by_packet) c

  -- The routing branch. `none` is an exception: an answer that does not parse.
  unfoldable pub handle_routing :
      ℕ → String → MeshPacket → Content → TrafficRun → TrafficController → Option TrafficController
  handle_routing now node p content run c =
      route_from now node (Dict.get texts node c.hardware_ids) p content run c

  abbrev pub handle_content :
      ℕ
      → String
      → MeshPacket
      → TrafficRun
      → Option Content
      → TrafficController
      → Option TrafficController
  handle_content now node p run none c = some c
  handle_content now node p run (some content) c =
      if content.portnum == pb.text_message_app
      then some (handle_text now node p content run c)
      else if content.portnum == pb.routing_app && not (content.request_id == 0)
      then handle_routing now node p content run c
      else some c

  abbrev pub dispatch :
      ℕ
      → String
      → FromRadio
      → (ℕ → String)
      → TrafficRun
      → TrafficController
      → Option TrafficController
  dispatch now node (queue_status packet_id res) queue_error run c =
      some (record_queue_status pb now node packet_id res queue_error c)
  dispatch now node (packet p) queue_error run c =
      handle_content now node p run (decoded_content p) c
  dispatch now node other queue_error run c = some c

  -- `handle_from_radio`; `none` is an exception.
  unfoldable pub handle_from_radio :
      ℕ → String → FromRadio → (ℕ → String) → TrafficController → Option TrafficController
  handle_from_radio now node message queue_error c = elim c.current [
    | none ↦ some c
    | some run ↦
        if accepts_run_events false c then dispatch now node message queue_error run c else some c
  ]
