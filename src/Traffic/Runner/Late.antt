-- ===== src/Traffic/Runner/Late.antt =====
-- Reports that come when a run is being finalized or has ended: backend/app/traffic/controller.py.
use meshtastic_lab.Base.{
  ℕ, ◌≡◌, ap, Bool, true, false, refl, ◌&&◌, String, List, Option, some, inl, inr, Option-cases,
}
use meshtastic_lab.Metrics.Packet.{Protobuf}
use meshtastic_lab.Traffic.Model.{TrafficController, TrafficRunPhase}
use meshtastic_lab.Traffic.Controller.{accepts_run_events, is_open_phase, is_active_state}
use meshtastic_lab.Traffic.Controller.Radio.{
  record_rf_transmission, record_drop, record_failed_receptions, record_duplicate_receptions,
  record_topology_change, set_event_loop_lag,
}
use meshtastic_lab.Traffic.Controller.Receive.{handle_from_radio}
use meshtastic_lab.Traffic.Controller.History.{Command, perform}

-- What reaches the controller from outside the run's own task.
abbrev pub IsReport : Command → Type 0
IsReport (Command.submits flow source destination packet_id airtime delay marker_size refused) = ⊥
IsReport Command.drains = ⊥
IsReport Command.finalizes = ⊥
IsReport other = Unit

-- `FINALIZING` and `TERMINAL`.
abbrev pub IsClosed : TrafficRunPhase → Type 0
IsClosed TrafficRunPhase.generating = ⊥
IsClosed TrafficRunPhase.draining = ⊥
IsClosed TrafficRunPhase.finalizing = Unit
IsClosed TrafficRunPhase.terminal = Unit

closed-is_open_phase : (phase : TrafficRunPhase) → IsClosed phase → is_open_phase phase ≡ false
closed-is_open_phase TrafficRunPhase.generating closed = elim closed [ ]
closed-is_open_phase TrafficRunPhase.draining closed = elim closed [ ]
closed-is_open_phase TrafficRunPhase.finalizing closed = refl
closed-is_open_phase TrafficRunPhase.terminal closed = refl

closed-accepts :
    (allow_failed : Bool) (c : TrafficController)
    → IsClosed c.phase
    → accepts_run_events allow_failed c ≡ false
unfolding accepts_run_events
closed-accepts allow_failed c closed =
    ap (λ b. b && is_active_state allow_failed c.state) (closed-is_open_phase c.phase closed)

module _ (pb : Protobuf) (parse_identifier : List ℕ → Option (String × ℕ)) where
  -- In the phases FINALIZING and TERMINAL no report changes the controller, and none raises.
  late-report_ignored :
      (now : ℕ) (command : Command) (c : TrafficController)
      → IsReport command
      → IsClosed c.phase
      → perform pb parse_identifier now command c ≡ some c
  unfolding perform handle_from_radio record_rf_transmission record_drop record_failed_receptions
      record_duplicate_receptions record_topology_change set_event_loop_lag
  late-report_ignored now (Command.hears node message queue_error) c report closed =
      elim (Option-cases c.current) [
        | inl e ↦ simp (e, perform, handle_from_radio)
        | inr (run, e) ↦ simp (e, perform, handle_from_radio, closed-accepts false c closed)
      ]
  late-report_ignored now (Command.transmits transmitter p airtime) c report closed =
      elim (Option-cases c.current) [
        | inl e ↦ simp (e, perform, record_rf_transmission)
        | inr (run, e) ↦ simp (e, perform, record_rf_transmission, closed-accepts false c closed)
      ]
  late-report_ignored now (Command.drops transmitter p reason) c report closed =
      elim (Option-cases c.current) [
        | inl e ↦ simp (e, perform, record_drop)
        | inr (run, e) ↦ simp (e, perform, record_drop, closed-accepts false c closed)
      ]
  late-report_ignored now (Command.samples_failed node count) c report closed =
      elim (Option-cases c.current) [
        | inl e ↦ simp (e, perform, record_failed_receptions)
        | inr (run, e) ↦ simp (e, perform, record_failed_receptions, closed-accepts true c closed)
      ]
  late-report_ignored now (Command.samples_duplicates node count) c report closed =
      elim (Option-cases c.current) [
        | inl e ↦ simp (e, perform, record_duplicate_receptions)
        | inr (run, e) ↦
            simp (e, perform, record_duplicate_receptions, closed-accepts true c closed)
      ]
  late-report_ignored now (Command.changes_link event link) c report closed =
      elim (Option-cases c.current) [
        | inl e ↦ simp (e, perform, record_topology_change)
        | inr (run, e) ↦ simp (e, perform, record_topology_change, closed-accepts false c closed)
      ]
  late-report_ignored now (Command.measures_lag lag) c report closed =
      elim (Option-cases c.current) [
        | inl e ↦ simp (e, perform, set_event_loop_lag)
        | inr (run, e) ↦ simp (e, perform, set_event_loop_lag, closed-accepts false c closed)
      ]
  late-report_ignored now
        (Command.submits flow source destination packet_id airtime delay size refused) c report
        closed =
      elim report [ ]
  late-report_ignored now Command.drains c report closed = elim report [ ]
  late-report_ignored now Command.finalizes c report closed = elim report [ ]
