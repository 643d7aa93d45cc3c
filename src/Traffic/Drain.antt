-- ===== src/Traffic/Drain.antt =====
-- The end of a run: `_drain`, `_drain_windows` and `_unresolved_direct_messages` of
-- backend/app/traffic/controller.py. Times are milliseconds. The loop of `_drain` reads the
-- clock and the controller each time it wakes: it runs over the list of what it reads.
pub mod Windows
pub mod Settled
use meshtastic_lab.Base.{
  ℕ, zero, suc, ◌+◌, ◌-◌, ◌*◌, max, min, Bool, true, false, not, ◌&&◌, ◌||◌, List, [], ◌∷◌, Option,
  none, some, ltb, leb, ◌==◌, if◌then◌else◌, is_empty,
}
use meshtastic_lab.Base.Members
use meshtastic_lab.Metrics.Packet.{Protobuf}
use meshtastic_lab.Models.Scenario.{texts, numbers}
use meshtastic_lab.Traffic.Model.{
  TrafficController, TrafficRun, TrafficRunRequest, TrafficKind, broadcast_text, direct_text,
  GeneratedMessage,
}
use meshtastic_lab.Traffic.Controller.Submission.{is_some, finalize_pending_submissions}

abbrev pub intermediate_transmission_attempts : ℕ
intermediate_transmission_attempts = 2

abbrev pub reliable_unicast_attempts : ℕ
reliable_unicast_attempts = 3

abbrev pub max_drain : ℕ
max_drain = 300_000

abbrev pub is_direct : TrafficKind → Bool
is_direct broadcast_text = false
is_direct direct_text = true

-- How often a packet may be sent on its way over one hop.
unfoldable pub attempt_budget : ℕ → TrafficRunRequest → ℕ
attempt_budget hop_limit request =
    max
      (if is_direct request.kind && request.acknowledgment_requested
        then reliable_unicast_attempts
        else 1)
      (if ltb 0 hop_limit then intermediate_transmission_attempts else 1)

-- `_drain_windows`: the quiet time and the deadline.
unfoldable pub drain_windows : ℕ → TrafficController → ℕ × ℕ
drain_windows hop_limit c = elim c.current [
  | none ↦ (0, 0)
  | some run ↦
      let packet_airtime = max c.maximum_packet_airtime_ms 1 in
      let retransmission_delay =
        max (max c.maximum_retransmission_delay_ms c.maximum_packet_airtime_ms) 1 in
      let quiet = max 3000 retransmission_delay in
      let deadline =
        retransmission_delay * (hop_limit + 1) * attempt_budget hop_limit run.request
        + packet_airtime
        + quiet in
      (quiet, min max_drain (max quiet deadline))
]

-- The test of the loop of `_unresolved_direct_messages`.
unfoldable pub is_unresolved : Bool → List ℕ → GeneratedMessage → Bool
is_unresolved acknowledgment_required terminal m =
    if is_some m.submission_error
    then false
    else if Members.member numbers m.sequence terminal
    then false
    else if not m.submitted || not (Members.member texts m.destination_node m.delivered_to)
    then true
    else acknowledgment_required && not m.acknowledged

unfoldable pub count_unresolved : Bool → List ℕ → List GeneratedMessage → ℕ
count_unresolved acknowledgment_required terminal [] = 0
count_unresolved acknowledgment_required terminal (m ∷ ms) =
    let rest = count_unresolved acknowledgment_required terminal ms in
    if is_unresolved acknowledgment_required terminal m then rest + 1 else rest

unfoldable pub unresolved_direct_messages : TrafficController → ℕ
unresolved_direct_messages c = elim c.current [
  | none ↦ 0
  | some run ↦
      if is_direct run.request.kind
      then count_unresolved run.request.acknowledgment_requested c.routing_terminal_sequences
          c.messages
      else 0
]

-- `messages_resolved` of the loop; the run is there.
abbrev pub messages_resolved : TrafficController → Bool
messages_resolved c = unresolved_direct_messages c == 0

unfoldable pub ready_to_settle : TrafficController → Bool
ready_to_settle c = is_empty c.pending_submissions && messages_resolved c

-- How a turn of the loop ends: `return`, `break`, or a wait.
pub data DrainTurn : Type 0 where
  settled timed_out : DrainTurn
  waits : ℕ → DrainTurn

unfoldable pub drain_turn : ℕ → ℕ → ℕ → TrafficController → DrainTurn
drain_turn quiet deadline now c =
    let quiet_end = c.last_activity_monotonic + quiet in
    if ready_to_settle c && leb quiet_end now
    then settled
    else if leb deadline now
    then timed_out
    else waits (
        if ready_to_settle c
        then min (deadline - now) (max (quiet_end - now) 1)
        else deadline - now)

-- The loop of `_drain` with the finalization behind it, and the time when it ends; `none` is a loop
-- that still waits. A wait ends early where there is activity: the list has what the loop reads
-- each time it wakes.
unfoldable pub drain_loop :
    Protobuf → ℕ → ℕ → List (ℕ × TrafficController) → Option (ℕ × TrafficController)
drain_loop pb quiet deadline [] = none
drain_loop pb quiet deadline ((now, c) ∷ later) =
    let rest = drain_loop pb quiet deadline later in
    elim (drain_turn quiet deadline now c) [
      | settled ↦ some (now, c)
      | timed_out ↦ some (now, finalize_pending_submissions pb now c)
      | waits duration ↦ rest
    ]

-- `_drain` from a time on, with the `settle_seconds` that a controller may be given, which is then
-- the time of the only wait.
unfoldable pub drain :
    Protobuf
    → ℕ
    → Option ℕ
    → ℕ
    → TrafficController
    → List (ℕ × TrafficController)
    → Option (ℕ × TrafficController)
drain pb hop_limit (some settle) now c [] = none
drain pb hop_limit (some settle) now c ((woken, d) ∷ later) =
    some (now + settle, finalize_pending_submissions pb (now + settle) d)
drain pb hop_limit none now c later =
    if is_some c.current
    then drain_loop pb (drain_windows hop_limit c).0 (now + (drain_windows hop_limit c).1)
        ((now, c) ∷ later)
    else some (now, c)
