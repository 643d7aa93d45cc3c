-- ===== src/Traffic/Controller/Accounts.antt =====
-- The live accounts of backend/app/traffic/controller.py against the lists that the final metrics
-- are computed from.
pub mod History
use meshtastic_lab.Base.{
  ℕ, ◌≡◌, ◌∙◌, sym, ap, inl, inr, Bool, true, false, String, List, [], ◌∷◌, ◌++◌, Option, none,
  some, arith, ◌==◌, if◌then◌else◌, Bool-cases, Option-cases, length, length-append, subst,
}
use meshtastic_lab.Base.Dict
use meshtastic_lab.Base.Members
use meshtastic_lab.Metrics.Calculations.{tally, tally_airtimes, sum}
use meshtastic_lab.Metrics.Calculations.Tallies.{sum-append, tally-append, tally_airtimes-append}
use meshtastic_lab.Metrics.Events.{PacketEvent}
use meshtastic_lab.Metrics.Packet.{Protobuf, MeshPacket, Content, decoded_content}
use meshtastic_lab.Models.Scenario.{texts, numbers, DirectedLink}
use meshtastic_lab.Traffic.Model.{TrafficController, TrafficRun, GeneratedMessage}
use meshtastic_lab.Traffic.Controller.{find_message, identities, accepts_run_events, packet_origin}
use meshtastic_lab.Traffic.Controller.Submission.{
  settle, resolve_submission, record_queue_status, record_pretransmission_rejection, finalize_each,
  finalize_pending_submissions, enqueue, submit, reject,
}
use meshtastic_lab.Traffic.Controller.Radio.{
  account_transmission, record_rf_transmission, account_drop, record_drop, charge, identified,
  record_failed_receptions, record_duplicate_receptions, record_topology_change, set_event_loop_lag,
}
use meshtastic_lab.Traffic.Controller.Receive.{
  handle_text, handle_routing, handle_from_radio, answer, route, route_from, dispatch,
  handle_content,
}
use meshtastic_lab.Traffic.Controller.Receipts.{
  deliver, note_duplicate, acknowledge, note_routing_error, FromRadio, queue_status, packet, other,
}
use meshtastic_lab.Traffic.Controller.History.{first_part, Command, perform, perform_all}

-- What is counted along the way is what the lists give at the end.
pub record Accounts (rf_transmitters : List String) (airtimes : List ℕ) (drop_reasons : List String)
    (rf_transmission_count observed_airtime : ℕ)
    (transmit_counts airtime_by_node drop_counts : List (String × ℕ)) (delivered_sequences : List ℕ)
    (unique_deliveries : ℕ) : Type 0 where
  pub all_transmissions : rf_transmission_count ≡ length rf_transmitters
  pub all_airtime : observed_airtime ≡ sum airtimes
  pub counts_by_node : transmit_counts ≡ tally rf_transmitters
  pub airtimes_by_node : tally_airtimes [] rf_transmitters airtimes ≡ some airtime_by_node
  pub drops : drop_counts ≡ tally drop_reasons
  pub unique : unique_deliveries ≡ length (Members.distinct numbers delivered_sequences)

abbrev pub HasAccounts : TrafficController → Type 0
HasAccounts c =
    Accounts c.rf_transmitters c.airtimes_ms c.drop_reasons c.rf_transmission_count
      c.observed_airtime_ms c.per_node_transmit_counts c.per_node_airtime_ms c.drop_counts
      c.delivered_sequences c.unique_deliveries

-- A handler that may raise: where it returns, the accounts hold.
abbrev pub Accounted : Option TrafficController → Type 0
Accounted none = Unit
Accounted (some c) = HasAccounts c

pub Accounted-if :
    (b : Bool) (x y : Option TrafficController)
    → Accounted x
    → Accounted y
    → Accounted (if b then x else y)
Accounted-if true x y h k = h
Accounted-if false x y h k = k

drops-grow :
    (reason : String) (c : TrafficController)
    → HasAccounts c
    → Dict.add_to texts reason 1 c.drop_counts ≡ tally (c.drop_reasons ++ (reason ∷ []))
drops-grow reason c v =
    ap (Dict.add_to texts reason 1) v.drops ∙ sym (tally-append c.drop_reasons reason)

module _ (pb : Protobuf) (now : ℕ) where
  resolve_submission-HasAccounts :
      (source : String) (ref : ℕ) (error : Option String) (c : TrafficController)
      → HasAccounts c
      → HasAccounts (resolve_submission pb now source ref error c)
  unfolding resolve_submission settle
  resolve_submission-HasAccounts source ref none c v = ground (arith, v)
  resolve_submission-HasAccounts source ref (some e) c v = ground (arith, v)

  pub record_queue_status-HasAccounts :
      (node : String) (packet_id res : ℕ) (queue_error : ℕ → String) (c : TrafficController)
      → HasAccounts c
      → HasAccounts (record_queue_status pb now node packet_id res queue_error c)
  unfolding record_queue_status resolve_submission settle
  record_queue_status-HasAccounts node packet_id res queue_error c v = ground (arith, v)

  pub rejection-HasAccounts :
      (source : String) (ref : ℕ) (reason : String) (c : TrafficController)
      → HasAccounts c
      → HasAccounts (record_pretransmission_rejection pb now source ref reason c)
  unfolding record_pretransmission_rejection reject
  rejection-HasAccounts source ref reason c v = ground (arith, v)

  finalize_each-HasAccounts :
      (entries : List ((String × ℕ) × ℕ)) (c : TrafficController)
      → HasAccounts c
      → HasAccounts (finalize_each pb now entries c)
  unfolding finalize_each
  finalize_each-HasAccounts [] c v = v
  finalize_each-HasAccounts (((source, packet_id), ref) ∷ entries) c v =
      finalize_each-HasAccounts entries _ (resolve_submission-HasAccounts source ref _ c v)

  pub finalize_pending_submissions-HasAccounts :
      (c : TrafficController) → HasAccounts c → HasAccounts (finalize_pending_submissions pb now c)
  unfolding finalize_pending_submissions
  finalize_pending_submissions-HasAccounts c v = finalize_each-HasAccounts c.pending_submissions c v

  pub submit-HasAccounts :
      (flow source destination : String) (packet_id airtime delay marker_size : ℕ)
      (refused : Option String) (c : TrafficController)
      → HasAccounts c
      → Accounted
          (submit pb now flow source destination packet_id airtime delay marker_size refused c)
  unfolding submit enqueue resolve_submission settle
  submit-HasAccounts flow source destination packet_id airtime delay marker_size none c v =
      ground (arith, v)
  submit-HasAccounts flow source destination packet_id airtime delay marker_size (some e) c v =
      ground (arith, v)

  account_transmission-HasAccounts :
      (transmitter : String) (origin own airtime : ℕ) (m : GeneratedMessage) (c : TrafficController)
      → HasAccounts c
      → HasAccounts (account_transmission now transmitter origin own airtime m c)
  unfolding account_transmission
  account_transmission-HasAccounts transmitter origin own airtime m c v = record {
    all_transmissions =
        omega (arith, v.all_transmissions, length-append c.rf_transmitters (transmitter ∷ []));
    all_airtime = omega (arith, v.all_airtime, sum-append c.airtimes_ms airtime);
    counts_by_node =
        ap (Dict.add_to texts transmitter 1) v.counts_by_node
        ∙ sym (tally-append c.rf_transmitters transmitter);
    airtimes_by_node =
        tally_airtimes-append [] c.per_node_airtime_ms c.rf_transmitters c.airtimes_ms transmitter
          airtime v.airtimes_by_node;
    drops = v.drops;
    unique = v.unique;
  }

  charge-HasAccounts :
      (transmitter : String) (p : MeshPacket) (airtime : ℕ) (run : TrafficRun) (own : Option ℕ)
      (o : Option GeneratedMessage) (c : TrafficController)
      → HasAccounts c
      → Accounted (first_part (charge pb now transmitter p airtime run own o c))
  charge-HasAccounts transmitter p airtime run own none c v = v
  charge-HasAccounts transmitter p airtime run none (some m) c v = elim (Bool-cases m.submitted) [
    | inl sent ↦ rw sent tt
    | inr unsent ↦ rw unsent v
  ]
  charge-HasAccounts transmitter p airtime run (some own) (some m) c v =
      ground
        (arith, v, account_transmission-HasAccounts transmitter (packet_origin p) own airtime m c v)

  pub record_rf_transmission-HasAccounts :
      (transmitter : String) (p : MeshPacket) (airtime : ℕ) (c : TrafficController)
      → HasAccounts c
      → Accounted (first_part (record_rf_transmission pb now transmitter p airtime c))
  unfolding record_rf_transmission
  record_rf_transmission-HasAccounts transmitter p airtime c v = elim (Option-cases c.current) [
    | inl e ↦ rw (e, record_rf_transmission) v
    | inr (run, at_run) ↦ elim (Bool-cases (accepts_run_events false c)) [
      | inl e ↦
          rw (at_run, record_rf_transmission, e)
            (charge-HasAccounts transmitter p airtime run _ _ (identified pb p (some transmitter) c)
              v)
      | inr e ↦ rw (at_run, record_rf_transmission, e) v
    ]
  ]

  pub record_drop-HasAccounts :
      (transmitter : String) (p : MeshPacket) (reason : String) (c : TrafficController)
      → HasAccounts c
      → HasAccounts (record_drop pb now transmitter p reason c)
  unfolding record_drop account_drop
  record_drop-HasAccounts transmitter p reason c v = ground (arith, v, drops-grow reason c v)

  pub failed-HasAccounts :
      (node : String) (total : ℕ) (c : TrafficController)
      → HasAccounts c
      → HasAccounts (record_failed_receptions pb now node total c)
  unfolding record_failed_receptions
  failed-HasAccounts node total c v = ground (arith, v)

  pub duplicates-HasAccounts :
      (node : String) (total : ℕ) (c : TrafficController)
      → HasAccounts c
      → HasAccounts (record_duplicate_receptions pb now node total c)
  unfolding record_duplicate_receptions
  duplicates-HasAccounts node total c v = ground (arith, v)

  pub topology-HasAccounts :
      (event : PacketEvent) (link : DirectedLink) (c : TrafficController)
      → HasAccounts c
      → Accounted (record_topology_change pb event link c)
  unfolding record_topology_change
  topology-HasAccounts event link c v = ground (arith, v)

  pub lag-HasAccounts :
      (lag : ℕ) (c : TrafficController)
      → HasAccounts c
      → HasAccounts (set_event_loop_lag pb now lag c)
  unfolding set_event_loop_lag
  lag-HasAccounts lag c v = ground (arith, v)

  pub handle_text-HasAccounts :
      (parse_identifier : List ℕ → Option (String × ℕ)) (node : String) (p : MeshPacket)
      (content : Content) (run : TrafficRun) (c : TrafficController)
      → HasAccounts c
      → HasAccounts (handle_text pb parse_identifier now node p content run c)
  unfolding handle_text deliver note_duplicate Members.distinct
  handle_text-HasAccounts parse_identifier node p content run c v = ground (arith, v)

  pub acknowledge-HasAccounts :
      (node : String) (p : MeshPacket) (run : TrafficRun) (m : GeneratedMessage)
      (c : TrafficController)
      → HasAccounts c
      → HasAccounts (acknowledge pb now node p run m c)
  unfolding acknowledge
  acknowledge-HasAccounts node p run m c v = ground (arith, v)

  pub routing_error-HasAccounts :
      (node reason : String) (p : MeshPacket) (run : TrafficRun) (m : GeneratedMessage)
      (c : TrafficController)
      → HasAccounts c
      → HasAccounts (note_routing_error pb now node reason p run m c)
  unfolding note_routing_error
  routing_error-HasAccounts node reason p run m c v = record {
    all_transmissions = v.all_transmissions;
    all_airtime = v.all_airtime;
    counts_by_node = v.counts_by_node;
    airtimes_by_node = v.airtimes_by_node;
    drops = drops-grow reason c v;
    unique = v.unique;
  }
