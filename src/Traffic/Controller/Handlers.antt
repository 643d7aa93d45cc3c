-- ===== src/Traffic/Controller/Handlers.antt =====
-- The counters of backend/app/traffic/controller.py under submissions and the medium's reports.
use meshtastic_lab.Base.{
  ℕ, ◌+◌, ◌≡◌, refl, sym, inl, inr, true, false, not, ◌||◌, String, List, [], ◌∷◌, Option, none,
  some, arith, ltb, ◌==◌, if◌then◌else◌, All-append, Bool-cases, Option-cases, length-append, subst,
}
use meshtastic_lab.Base.Dict
use meshtastic_lab.Metrics.Packet.{Protobuf, MeshPacket}
use meshtastic_lab.Models.Scenario.{texts}
use meshtastic_lab.Traffic.Model.{TrafficController, TrafficRun, GeneratedMessage}
use meshtastic_lab.Traffic.Controller.{
  find_message, found_message, places, accepts_run_events, packet_origin,
}
use meshtastic_lab.Traffic.Controller.Submission.{
  is_some, resolve_submission, record_queue_status, record_pretransmission_rejection, finalize_each,
  finalize_pending_submissions, enqueue, submit, is_addressable, new_message,
}
use meshtastic_lab.Traffic.Controller.Radio.{
  account_transmission, record_rf_transmission, account_drop, record_drop, charge, charge_drop,
  correlated, identified,
}
use meshtastic_lab.Traffic.Controller.Store.{sum_of-append, All-find_message}
use meshtastic_lab.Traffic.Controller.Ledger.{
  IsLedger, IsSound, Ledger-store, Mirrors-run, reject-IsLedger, resolve_submission-IsLedger,
  submitted_bit, failed_bit, transmitted_bit, acknowledged_bit, receivers,
}

-- A handler that may raise: where it returns, the ledger holds.
abbrev pub Keeps : Option TrafficController → Type 0
Keeps none = Unit
Keeps (some c) = IsLedger c

module _ (pb : Protobuf) (now : ℕ) where
  pub record_queue_status-IsLedger :
      (node : String) (packet_id res : ℕ) (queue_error : ℕ → String) (c : TrafficController)
      → IsLedger c
      → IsLedger (record_queue_status pb now node packet_id res queue_error c)
  unfolding record_queue_status
  record_queue_status-IsLedger node packet_id res queue_error c v =
      elim (Bool-cases (packet_id == 0)) [
        | inl e ↦ rw (e, record_queue_status) v
        | inr e ↦ elim (Option-cases (Dict.get places (node, packet_id) c.pending_submissions)) [
          | inl missing ↦ rw (e, record_queue_status, missing) v
          | inr (ref, found) ↦
              rw (e, record_queue_status, found)
                (resolve_submission-IsLedger pb now node ref _
                  (record c {
                    pending_submissions =
                        Dict.delete places (node, packet_id) c.pending_submissions;
                  })
                  v)
        ]
      ]

  finalize_each-IsLedger :
      (entries : List ((String × ℕ) × ℕ)) (c : TrafficController)
      → IsLedger c
      → IsLedger (finalize_each pb now entries c)
  unfolding finalize_each
  finalize_each-IsLedger [] c v = v
  finalize_each-IsLedger (((source, packet_id), ref) ∷ entries) c v =
      finalize_each-IsLedger entries _ (resolve_submission-IsLedger pb now source ref _ c v)

  pub finalize_pending_submissions-IsLedger :
      (c : TrafficController) → IsLedger c → IsLedger (finalize_pending_submissions pb now c)
  unfolding finalize_pending_submissions
  finalize_pending_submissions-IsLedger c v = finalize_each-IsLedger c.pending_submissions c v

  pub rejection-IsLedger :
      (source : String) (ref : ℕ) (reason : String) (m : GeneratedMessage) (c : TrafficController)
      → find_message ref c.messages ≡ some m
      → m.transmitted ≡ false
      → IsLedger c
      → IsLedger (record_pretransmission_rejection pb now source ref reason c)
  unfolding record_pretransmission_rejection
  rejection-IsLedger source ref reason m c found unsent v = elim (Option-cases c.current) [
    | inl e ↦ rw (e, record_pretransmission_rejection) v
    | inr (run, at_run) ↦ elim (Bool-cases (is_some m.submission_error)) [
      | inl e ↦ rw (at_run, record_pretransmission_rejection, found, e) v
      | inr e ↦
          rw (at_run, record_pretransmission_rejection, found, e)
            (reject-IsLedger pb now source run ref m c at_run found v reason e unsent)
    ]
  ]

  enqueue-IsLedger :
      (flow source destination : String) (packet_id airtime delay origin : ℕ) (run : TrafficRun)
      (c : TrafficController)
      → c.current ≡ some run
      → IsLedger c
      → IsLedger (enqueue pb now flow source destination packet_id airtime delay origin run c)
  unfolding enqueue
  enqueue-IsLedger flow source destination packet_id airtime delay origin run c at_run v =
      let born : List GeneratedMessage =
        new_message pb now flow source destination packet_id c ∷ [] in
      let mirror = Mirrors-run c run at_run v in
      record {
        all_generated = omega (arith, v.all_generated, length-append c.messages born);
        all_submitted = omega (arith, v.all_submitted, sum_of-append submitted_bit c.messages born);
        all_failed = omega (arith, v.all_failed, sum_of-append failed_bit c.messages born);
        all_transmitted =
            omega (arith, v.all_transmitted, sum_of-append transmitted_bit c.messages born);
        all_acknowledged =
            omega (arith, v.all_acknowledged, sum_of-append acknowledged_bit c.messages born);
        all_delivered = omega (arith, v.all_delivered, sum_of-append receivers c.messages born);
        mirrored = (refl, mirror.1, mirror.2);
        sound =
            All-append IsSound c.messages born v.sound
              (record { one_outcome = refl; sent_if_transmitted = refl }, tt);
      }

  -- A submission that raises nothing keeps the counters equal to the sums over the messages, whether
  -- the gateway takes the message or refuses it.
  pub submit-Keeps :
      (flow source destination : String) (packet_id airtime delay marker_size : ℕ)
      (refused : Option String) (c : TrafficController)
      → IsLedger c
      → Keeps (submit pb now flow source destination packet_id airtime delay marker_size refused c)
  unfolding submit
  submit-Keeps flow source destination packet_id airtime delay marker_size refused c v =
      elim (Option-cases c.current) [
        | inl e ↦ rw (e, submit) v
        | inr (run, at_run) ↦
            elim (Bool-cases
              (ltb run.request.payload_bytes marker_size || not (is_addressable destination c))) [
                | inl e ↦ rw (at_run, submit, e) tt
                | inr e ↦ elim (Option-cases (Dict.get texts source c.hardware_ids)) [
                  | inl unknown ↦ rw (at_run, submit, e, unknown) tt
                  | inr (origin, known) ↦
                      rw (at_run, submit, e, known)
                        (answered origin run
                          (enqueue-IsLedger flow source destination packet_id airtime delay origin
                            run c at_run v)
                          refused)
                ]
              ]
      ]
    where
      answered :
          (origin : ℕ) (run : TrafficRun)
          → IsLedger (enqueue pb now flow source destination packet_id airtime delay origin run c)
          → (o : Option String)
          → Keeps (elim o [
            | none ↦
                some (enqueue pb now flow source destination packet_id airtime delay origin run c)
            | some error ↦ some (
                resolve_submission pb now source
                  (c.last_sequence + 1)
                  (some error)
                  (record (enqueue pb now flow source destination packet_id airtime delay origin run
                    c) {
                      pending_submissions =
                          Dict.delete places
                            (source, packet_id)
                            (enqueue pb now flow source destination packet_id airtime delay origin
                              run c).pending_submissions;
                    }))
          ])
      answered origin run h none = h
      answered origin run h (some error) =
          resolve_submission-IsLedger pb now source (c.last_sequence + 1) (some error) _ h

  account_transmission-IsLedger :
      (transmitter : String) (origin own airtime ref : ℕ) (m : GeneratedMessage)
      (c : TrafficController)
      → find_message ref c.messages ≡ some m
      → m.submitted ≡ true
      → IsLedger c
      → IsLedger (account_transmission now transmitter origin own airtime m c)
  unfolding account_transmission
  account_transmission-IsLedger transmitter origin own airtime ref m c found sent v =
      elim (Bool-cases m.transmitted) [
        | inl e ↦ rw (account_transmission, e) v
        | inr e ↦
            rw (account_transmission, e)
              (Ledger-store ref m (record m { transmitted = true }) _ _ c.messages _ _ _ _ _ _ _ _ _
                _ _ found refl
                (ground (arith, All-find_message ref m IsSound c.messages found v.sound)) v.mirrored
                refl refl (ground arith) refl refl v)
      ]

  pub found-at :
      (ref : Option ℕ) (m : GeneratedMessage) (ms : List GeneratedMessage)
      → found_message ref ms ≡ some m
      → (n : ℕ) × (find_message n ms ≡ some m)
  found-at none m ms e = absurd (none_some e)
    where
      none_some : none ≡ some m → ⊥
      none_some h = cc
  found-at (some n) m ms e = (n, e)

  -- `record_rf_transmission`, where it returns.
  abbrev pub KeepsFirst : Option (TrafficController × Option (String × ℕ)) → Type 0
  KeepsFirst none = Unit
  KeepsFirst (some (c, ids)) = IsLedger c

  charge-Keeps :
      (transmitter : String) (p : MeshPacket) (airtime : ℕ) (run : TrafficRun) (own ref : Option ℕ)
      (o : Option GeneratedMessage) (c : TrafficController)
      → found_message ref c.messages ≡ o
      → IsLedger c
      → KeepsFirst (charge pb now transmitter p airtime run own o c)
  charge-Keeps transmitter p airtime run own ref none c e v = v
  charge-Keeps transmitter p airtime run none ref (some m) c e v = elim (Bool-cases m.submitted) [
    | inl sent ↦ rw sent tt
    | inr unsent ↦ rw unsent v
  ]
  charge-Keeps transmitter p airtime run (some own) ref (some m) c e v =
      let (n, found) = found-at ref m c.messages e in
      elim (Bool-cases m.submitted) [
        | inl sent ↦
            subst
              (λ b. KeepsFirst (
                if b
                then some (
                  account_transmission now transmitter (packet_origin p) own airtime m c,
                  some (run.run_id, m.sequence),
                )
                else some (c, none)))
              (sym sent)
              (account_transmission-IsLedger transmitter (packet_origin p) own airtime n m c found
                sent v)
        | inr unsent ↦
            subst
              (λ b. KeepsFirst (
                if b
                then some (
                  account_transmission now transmitter (packet_origin p) own airtime m c,
                  some (run.run_id, m.sequence),
                )
                else some (c, none)))
              (sym unsent) v
      ]

  -- A transmission that is recorded without an exception keeps the counters equal to the sums over
  -- the messages.
  pub record_rf_transmission-Keeps :
      (transmitter : String) (p : MeshPacket) (airtime : ℕ) (c : TrafficController)
      → IsLedger c
      → KeepsFirst (record_rf_transmission pb now transmitter p airtime c)
  unfolding record_rf_transmission
  record_rf_transmission-Keeps transmitter p airtime c v = elim (Option-cases c.current) [
    | inl e ↦ rw (e, record_rf_transmission) v
    | inr (run, at_run) ↦ elim (Bool-cases (accepts_run_events false c)) [
      | inl e ↦
          rw (at_run, record_rf_transmission, e)
            (charge-Keeps transmitter p airtime run _ _ _ (identified pb p (some transmitter) c)
              refl v)
      | inr e ↦ rw (at_run, record_rf_transmission, e) v
    ]
  ]

  charge_drop-IsLedger :
      (reason : String) (o : Option GeneratedMessage) (c : TrafficController)
      → IsLedger c
      → IsLedger (charge_drop pb now reason o c)
  unfolding account_drop
  charge_drop-IsLedger reason none c v = v
  charge_drop-IsLedger reason (some m) c v = elim (Bool-cases m.submitted) [
    | inl e ↦ rw e v
    | inr e ↦ rw e v
  ]

  pub record_drop-IsLedger :
      (transmitter : String) (p : MeshPacket) (reason : String) (c : TrafficController)
      → IsLedger c
      → IsLedger (record_drop pb now transmitter p reason c)
  unfolding record_drop
  record_drop-IsLedger transmitter p reason c v = elim (Option-cases c.current) [
    | inl e ↦ rw (e, record_drop) v
    | inr (run, at_run) ↦ elim (Bool-cases (accepts_run_events false c)) [
      | inl e ↦
          rw (at_run, record_drop, e)
            (charge_drop-IsLedger reason (correlated pb p (some transmitter) c)
              (identified pb p (some transmitter) c) v)
      | inr e ↦ rw (at_run, record_drop, e) v
    ]
  ]
