-- ===== src/Traffic/Drain/Windows.antt =====
-- The bounds of `_drain_windows` of backend/app/traffic/controller.py.
use meshtastic_lab.Base.{
  ℕ, zero, suc, ◌+◌, ◌*◌, ◌≤◌, ◌≡◌, ◌&&◌, min, max, some, arith, if◌then◌else◌,
}
use meshtastic_lab.Traffic.Model.{TrafficController, TrafficRun, TrafficRunRequest}
use meshtastic_lab.Traffic.Drain.{attempt_budget, drain_windows, is_direct, max_drain}

-- How often a packet may be sent over all hops: three times by the source of a direct message with
-- an acknowledgment and else once, and twice by every node that passes it on.
abbrev pub all_attempts : TrafficRunRequest → ℕ → ℕ
all_attempts request zero =
    if is_direct request.kind && request.acknowledgment_requested then 3 else 1
all_attempts request (suc hops) = all_attempts request hops + 2

-- What a pair of windows, the quiet time and the deadline, promises.
pub record AreWindows (delay attempts airtime : ℕ) (windows : ℕ × ℕ) : Type 0 where
  pub at_least : 3000 ≤ windows.0
  pub covers_retransmission : delay ≤ windows.0
  pub at_most : windows.1 ≤ max_drain
  pub quiet_first : min max_drain windows.0 ≤ windows.1
  pub enough : min max_drain (delay * attempts + airtime + windows.0) ≤ windows.1

attempts_le :
    (request : TrafficRunRequest) (hops budget : ℕ)
    → all_attempts request zero ≤ budget
    → 2 ≤ budget
    → all_attempts request hops ≤ (hops + 1) * budget
attempts_le request zero budget first passed = omega (arith, first)
attempts_le request (suc hops) budget first passed =
    let step : (suc hops + 1) * budget ≡ (hops + 1) * budget + budget = omega arith in
    omega (arith, step, attempts_le request hops budget first passed, passed)

all_attempts-le :
    (request : TrafficRunRequest) (hops : ℕ)
    → all_attempts request hops ≤ (hops + 1) * attempt_budget hops request
unfolding attempt_budget
all_attempts-le request zero = ground arith
all_attempts-le request (suc hops) =
    attempts_le request (suc hops) (attempt_budget (suc hops) request) (ground arith) (ground arith)

times_le : (a b c : ℕ) → b ≤ c → a * b ≤ a * c
times_le zero b c h = omega arith
times_le (suc a) b c h =
    let left : suc a * b ≡ a * b + b = omega arith in
    let right : suc a * c ≡ a * c + c = omega arith in
    omega (arith, left, right, times_le a b c h, h)

-- During a run, the quiet time is at least three seconds and a retransmission's delay. The deadline
-- is at most five minutes, and otherwise not before the quiet time, and leaves time for every attempt
-- of the source and of every node that may pass a packet on, its airtime and the quiet time.
pub drain_windows-AreWindows :
    (hop_limit : ℕ) (run : TrafficRun) (c : TrafficController)
    → c.current ≡ some run
    → AreWindows
        (max (max c.maximum_retransmission_delay_ms c.maximum_packet_airtime_ms) 1)
        (all_attempts run.request hop_limit)
        (max c.maximum_packet_airtime_ms 1)
        (drain_windows hop_limit c)
unfolding drain_windows
drain_windows-AreWindows hop_limit run c at_run =
    let budget = attempt_budget hop_limit run.request in
    let attempts = all_attempts run.request hop_limit in
    let delay = max (max c.maximum_retransmission_delay_ms c.maximum_packet_airtime_ms) 1 in
    let regroup : delay * (hop_limit + 1) * budget ≡ delay * ((hop_limit + 1) * budget) =
      omega arith in
    let covers : delay * attempts ≤ delay * ((hop_limit + 1) * budget) =
      times_le delay attempts ((hop_limit + 1) * budget) (all_attempts-le run.request hop_limit) in
    rw (at_run, drain_windows)
      (record {
        at_least = omega arith;
        covers_retransmission = omega arith;
        at_most = omega arith;
        quiet_first = omega arith;
        enough = omega (arith, regroup, covers);
      })
