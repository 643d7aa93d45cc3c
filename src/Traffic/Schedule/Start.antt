-- ===== src/Traffic/Schedule/Start.antt =====
-- What `start` of backend/app/traffic/controller.py guarantees for the run.
use meshtastic_lab.Base.{
  ℕ, zero, suc, ◌+◌, ◌/◌, ◌*◌, ◌≤◌, ◌<◌, ◌≡◌, refl, Bool, true, false, String, List, Option, arith,
  ltb, Option-cases, Bool-cases, inl, inr,
}
use meshtastic_lab.Traffic.Model.{TrafficController, TrafficRunRequest}
use meshtastic_lab.Traffic.Controller.{accepts_run_events}
use meshtastic_lab.Traffic.Controller.Ledger.{IsLedger}
use meshtastic_lab.Traffic.Schedule.{
  messages_per_source, maximum_sequence, digits_from, marker_size, FailedReceptionSample, begin,
  Started, refused, started, start, reset_accumulators, check_flows, scheduling_flows,
  max_traffic_messages_per_run,
}

-- A source's messages are enough for its rate over the whole run, and one fewer is too few, but
-- there is always one.
pub messages_per_source-ceiling :
    (duration rate : ℕ)
    → (duration * rate ≤ messages_per_source duration rate * 60_000_000)
      × (1 ≤ messages_per_source duration rate)
      × (1 < messages_per_source duration rate
          → (messages_per_source duration rate * 60_000_000 < duration * rate + 60_000_000))
unfolding messages_per_source
messages_per_source-ceiling duration rate = (omega arith, omega arith, λ h. omega arith)

digits_mono : (fuel n m : ℕ) → n ≤ m → digits_from fuel n ≤ digits_from fuel m
unfolding digits_from
digits_mono zero n m h = omega arith
digits_mono (suc fuel) n m h = ground (arith, digits_mono fuel (n / 10) (m / 10) (omega arith))

-- What holds of a run that starts.
pub record IsReady (request : TrafficRunRequest) (c : TrafficController) : Type 0 where
  pub true_counters : IsLedger c
  pub is_open : accepts_run_events false c ≡ true
  pub few_messages : maximum_sequence request ≤ max_traffic_messages_per_run
  pub markers_fit :
      (sequence : ℕ)
      → sequence ≤ maximum_sequence request
      → marker_size sequence ≤ request.payload_bytes

abbrev pub Readies : TrafficRunRequest → Started → Type 0
Readies request (refused error) = Unit
Readies request (started c) = IsReady request c

pub begin-IsLedger :
    (now : ℕ) (run_id : String) (request : TrafficRunRequest) (nodes : List String)
    (baseline : Option FailedReceptionSample) (c : TrafficController)
    → IsLedger (begin now run_id request nodes baseline c)
unfolding begin reset_accumulators
begin-IsLedger now run_id request nodes baseline c = record {
  all_generated = refl;
  all_submitted = refl;
  all_failed = refl;
  all_transmitted = refl;
  all_acknowledged = refl;
  all_delivered = refl;
  mirrored = (refl, refl, refl);
  sound = tt;
}

begin-IsReady :
    (now : ℕ) (run_id : String) (request : TrafficRunRequest) (nodes : List String)
    (baseline : Option FailedReceptionSample) (c : TrafficController)
    → ltb max_traffic_messages_per_run (maximum_sequence request) ≡ false
    → ltb request.payload_bytes (marker_size (maximum_sequence request)) ≡ false
    → IsReady request (begin now run_id request nodes baseline c)
unfolding begin accepts_run_events marker_size
begin-IsReady now run_id request nodes baseline c few fits = record {
  true_counters = begin-IsLedger now run_id request nodes baseline c;
  is_open = refl;
  few_messages = ground arith;
  markers_fit = λ n h. ground (arith, digits_mono 20 n (maximum_sequence request) h);
}

-- Where `start` returns, the counters are true of the run's empty message list, the run takes
-- events, it schedules at most 10 000 messages, and the identifier of every sequence number that it
-- can reach fits the payload.
pub start-Readies :
    (active : Bool) (now : ℕ) (run_id : String) (request : TrafficRunRequest) (nodes : List String)
    (baseline : Option FailedReceptionSample) (c : TrafficController)
    → Readies request (start active now run_id request nodes baseline c)
unfolding start
start-Readies true now run_id request nodes baseline c = tt
start-Readies false now run_id request nodes baseline c =
    elim (Option-cases (check_flows request.kind nodes (scheduling_flows request))) [
      | inr (error, e) ↦ rw (start, e) tt
      | inl e ↦ elim (Bool-cases (ltb max_traffic_messages_per_run (maximum_sequence request))) [
        | inl many ↦ rw (start, e, many) tt
        | inr few ↦
            elim (Bool-cases (ltb request.payload_bytes (marker_size (maximum_sequence request)))) [
              | inl small ↦ rw (start, e, few, small) tt
              | inr fits ↦
                  rw (start, e, few, fits)
                    (begin-IsReady now run_id request nodes baseline c few fits)
            ]
      ]
    ]
