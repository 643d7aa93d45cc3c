-- ===== src/Traffic/Controller/History.antt =====
-- The counters of backend/app/traffic/controller.py over a whole run: the calls that the gateways,
-- the medium, the statistics and the run's own task make, in any order.
use meshtastic_lab.Base.{
  ℕ, ◌-◌, refl, inl, inr, true, false, not, String, List, [], ◌∷◌, Option, none, some, ltb,
  Bool-cases, Option-cases, subst,
}
use meshtastic_lab.Base.Dict
use meshtastic_lab.Metrics.Events.{PacketEvent}
use meshtastic_lab.Metrics.Packet.{Protobuf, MeshPacket}
use meshtastic_lab.Models.Scenario.{texts, DirectedLink}
use meshtastic_lab.Traffic.Model.{TrafficController, TrafficRunPhase}
use meshtastic_lab.Traffic.Controller.{accepts_run_events}
use meshtastic_lab.Traffic.Controller.Submission.{submit, finalize_pending_submissions}
use meshtastic_lab.Traffic.Controller.Radio.{
  record_rf_transmission, record_drop, record_failed_receptions, record_duplicate_receptions,
  record_topology_change, set_event_loop_lag, has_topology_change_capacity,
}
use meshtastic_lab.Traffic.Controller.Receive.{handle_from_radio}
use meshtastic_lab.Traffic.Controller.Receipts.{FromRadio}
use meshtastic_lab.Traffic.Controller.Ledger.{IsLedger, current-IsLedger}
use meshtastic_lab.Traffic.Controller.Handlers.{
  Keeps, KeepsFirst, submit-Keeps, finalize_pending_submissions-IsLedger,
  record_rf_transmission-Keeps, record_drop-IsLedger,
}
use meshtastic_lab.Traffic.Controller.Answers.{handle_from_radio-Keeps}

-- The calls of a run, with what the code around the controller passes them.
pub data Command : Type 0 where
  submits :
      (flow source destination : String) (packet_id airtime delay marker_size : ℕ)
      (refused : Option String)
      → Command
  hears : (node : String) (message : FromRadio) (queue_error : ℕ → String) → Command
  transmits : (transmitter : String) (p : MeshPacket) (airtime : ℕ) → Command
  drops : (transmitter : String) (p : MeshPacket) (reason : String) → Command
  samples_failed samples_duplicates : (node : String) (count : ℕ) → Command
  changes_link : (event : PacketEvent) (link : DirectedLink) → Command
  measures_lag : ℕ → Command
  drains finalizes : Command

abbrev pub first_part : Option (TrafficController × Option (String × ℕ)) → Option TrafficController
first_part none = none
first_part (some r) = some r.0

module _ (pb : Protobuf) (parse_identifier : List ℕ → Option (String × ℕ)) where
  -- `none` is an exception.
  unfoldable pub perform : ℕ → Command → TrafficController → Option TrafficController
  perform now (submits flow source destination packet_id airtime delay marker_size refused) c =
      submit pb now flow source destination packet_id airtime delay marker_size refused c
  perform now (hears node message queue_error) c =
      handle_from_radio pb parse_identifier now node message queue_error c
  perform now (transmits transmitter p airtime) c =
      first_part (record_rf_transmission pb now transmitter p airtime c)
  perform now (drops transmitter p reason) c = some (record_drop pb now transmitter p reason c)
  perform now (samples_failed node count) c = some (record_failed_receptions pb now node count c)
  perform now (samples_duplicates node count) c =
      some (record_duplicate_receptions pb now node count c)
  perform now (changes_link event link) c = record_topology_change pb event link c
  perform now (measures_lag lag) c = some (set_event_loop_lag pb now lag c)
  perform now drains c = some (record c { phase = TrafficRunPhase.draining })
  perform now finalizes c = some (finalize_pending_submissions pb now c)

  unfoldable pub perform_all : List (ℕ × Command) → TrafficController → Option TrafficController
  perform_all [] c = some c
  perform_all ((now, command) ∷ commands) c = elim (perform now command c) [
    | none ↦ none
    | some c' ↦ perform_all commands c'
  ]

  pub failed-IsLedger :
      (now : ℕ) (node : String) (count : ℕ) (c : TrafficController)
      → IsLedger c
      → IsLedger (record_failed_receptions pb now node count c)
  unfolding record_failed_receptions
  failed-IsLedger now node count c v = elim (Option-cases c.current) [
    | inl e ↦ rw (e, record_failed_receptions) v
    | inr (run, at_run) ↦ elim (Bool-cases (not (accepts_run_events true c))) [
      | inl e ↦ rw (at_run, record_failed_receptions, e) v
      | inr e ↦ elim (Option-cases (Dict.get texts node c.latest_failed_receptions)) [
        | inl f ↦ rw (at_run, record_failed_receptions, e, f) v
        | inr (previous, f) ↦ elim (Bool-cases (ltb 0 (count - previous))) [
          | inl g ↦ rw (at_run, record_failed_receptions, e, f, g) v
          | inr g ↦ rw (at_run, record_failed_receptions, e, f, g) v
        ]
      ]
    ]
  ]

  pub duplicates-IsLedger :
      (now : ℕ) (node : String) (count : ℕ) (c : TrafficController)
      → IsLedger c
      → IsLedger (record_duplicate_receptions pb now node count c)
  unfolding record_duplicate_receptions
  duplicates-IsLedger now node count c v = elim (Option-cases c.current) [
    | inl e ↦ rw (e, record_duplicate_receptions) v
    | inr (run, at_run) ↦ elim (Bool-cases (not (accepts_run_events true c))) [
      | inl e ↦ rw (at_run, record_duplicate_receptions, e) v
      | inr e ↦ elim (Option-cases (Dict.get texts node c.latest_duplicate_receptions)) [
        | inl f ↦ rw (at_run, record_duplicate_receptions, e, f) v
        | inr (previous, f) ↦ elim (Bool-cases (ltb 0 (count - previous))) [
          | inl g ↦ rw (at_run, record_duplicate_receptions, e, f, g) v
          | inr g ↦ rw (at_run, record_duplicate_receptions, e, f, g) v
        ]
      ]
    ]
  ]

  topology-Keeps :
      (event : PacketEvent) (link : DirectedLink) (c : TrafficController)
      → IsLedger c
      → Keeps (record_topology_change pb event link c)
  unfolding record_topology_change
  topology-Keeps event link c v = elim (Option-cases c.current) [
    | inl e ↦ rw (e, record_topology_change) v
    | inr (run, at_run) ↦ elim (Bool-cases (not (accepts_run_events false c))) [
      | inl e ↦ rw (at_run, record_topology_change, e) v
      | inr e ↦ elim (Bool-cases (has_topology_change_capacity pb 1 c)) [
        | inl f ↦
            rw (at_run, record_topology_change, e, f)
              (current-IsLedger run _ c at_run refl refl refl v)
        | inr f ↦ rw (at_run, record_topology_change, e, f) tt
      ]
    ]
  ]

  lag-IsLedger :
      (now lag : ℕ) (c : TrafficController)
      → IsLedger c
      → IsLedger (set_event_loop_lag pb now lag c)
  unfolding set_event_loop_lag
  lag-IsLedger now lag c v = elim (Option-cases c.current) [
    | inl e ↦ rw (e, set_event_loop_lag) v
    | inr (run, at_run) ↦ elim (Bool-cases (accepts_run_events false c)) [
      | inl e ↦ rw (at_run, set_event_loop_lag, e) v
      | inr e ↦ rw (at_run, set_event_loop_lag, e) v
    ]
  ]

  first_part-Keeps :
      (o : Option (TrafficController × Option (String × ℕ)))
      → KeepsFirst pb 0 o
      → Keeps (first_part o)
  first_part-Keeps none h = tt
  first_part-Keeps (some (c, ids)) h = h

  perform-Keeps :
      (now : ℕ) (command : Command) (c : TrafficController)
      → IsLedger c
      → Keeps (perform now command c)
  unfolding perform
  perform-Keeps now (submits flow source destination packet_id airtime delay marker_size refused) c
        v =
      submit-Keeps pb now flow source destination packet_id airtime delay marker_size refused c v
  perform-Keeps now (hears node message queue_error) c v =
      handle_from_radio-Keeps pb parse_identifier now node message queue_error c v
  perform-Keeps now (transmits transmitter p airtime) c v =
      first_part-Keeps _ (record_rf_transmission-Keeps pb now transmitter p airtime c v)
  perform-Keeps now (drops transmitter p reason) c v =
      record_drop-IsLedger pb now transmitter p reason c v
  perform-Keeps now (samples_failed node count) c v = failed-IsLedger now node count c v
  perform-Keeps now (samples_duplicates node count) c v = duplicates-IsLedger now node count c v
  perform-Keeps now (changes_link event link) c v = topology-Keeps event link c v
  perform-Keeps now (measures_lag lag) c v = lag-IsLedger now lag c v
  perform-Keeps now drains c v = v
  perform-Keeps now finalizes c v = finalize_pending_submissions-IsLedger pb now c v

  -- If the six counters are the sums over the run's messages (generated, submitted, failed,
  -- transmitted and acknowledged ones, and receivers they were delivered to), the run shows the first
  -- three of them, no message is both submitted and failed, and none that the firmware did not take
  -- is transmitted, then all of this still holds after every sequence of calls that raises no
  -- exception.
  pub perform_all-Keeps :
      (commands : List (ℕ × Command)) (c : TrafficController)
      → IsLedger c
      → Keeps (perform_all commands c)
  unfolding perform_all
  perform_all-Keeps [] c v = v
  perform_all-Keeps ((now, command) ∷ commands) c v =
      let kept = perform-Keeps now command c v in
      elim (Option-cases (perform now command c)) [
        | inl e ↦ rw (perform_all, e) tt
        | inr (c', e) ↦ rw (perform_all, e) (perform_all-Keeps commands c' (subst Keeps e kept))
      ]
