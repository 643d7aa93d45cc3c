-- ===== src/Tests/Runs.antt =====
-- Concrete ends of a run for backend/app/traffic/controller.py.
use meshtastic_lab.Base.{ℕ, ◌≡◌, ◌≤◌, refl, true, false, List, [], ◌∷◌, Option, none, some, arith}
use meshtastic_lab.Metrics.Calculations.{percentile_ordered, sorted, tally, tally_airtimes, sum}
use meshtastic_lab.Metrics.Calculations.Percentiles.{IsValue, value_of, percentile_mono}
use meshtastic_lab.Tests.Traffic.{
  protobuf, parse, request, idle, nodes, running, the_run, waiting_for_first, first-IsLedger,
  commands,
}
use meshtastic_lab.Traffic.Model.{TrafficRunState}
use meshtastic_lab.Traffic.Controller.Accounts.{HasAccounts}
use meshtastic_lab.Traffic.Controller.History.{perform_all}
use meshtastic_lab.Base.Dict
use meshtastic_lab.Base.Members
use meshtastic_lab.Traffic.Identifiers.{
  no_ids, allocate_packet_id, draw_id, purge, quarantine_ids, retained, discard,
}
use meshtastic_lab.Traffic.Identifiers.Reuse.{
  IdStep, allocates, retires, Ids, id_step, id_steps, ApartIfReturned, id_steps-ApartIfReturned,
}
use meshtastic_lab.Traffic.Results.Agreement.{Agreed, live_metrics-final_metrics}
use meshtastic_lab.Traffic.Runner.{Runner, stop, complete_run}
use meshtastic_lab.Traffic.Runner.Sampled.{IsUnderway}
use meshtastic_lab.Traffic.Runner.Finish.{Settles, stop-Settles, complete_run-Settles}

abbrev latencies : List ℕ
latencies = 30 ∷ 10 ∷ 20 ∷ []

percentile_mono_example :
    IsValue (percentile_ordered (sorted latencies) 50 1)
    × IsValue (percentile_ordered (sorted latencies) 95 1)
    × (value_of (percentile_ordered (sorted latencies) 50 1)
        ≤ value_of (percentile_ordered (sorted latencies) 95 1))
percentile_mono_example = percentile_mono latencies 50 95 (omega arith) (omega arith) (omega arith)

first-HasAccounts : HasAccounts waiting_for_first
unfolding tally tally_airtimes sum Members.distinct
first-HasAccounts = record {
  all_transmissions = refl;
  all_airtime = refl;
  counts_by_node = refl;
  airtimes_by_node = refl;
  drops = refl;
  unique = refl;
}

first-IsUnderway : IsUnderway none waiting_for_first
first-IsUnderway = record {
  run = the_run;
  shown = refl;
  failed_as = refl;
  true_counters = first-IsLedger;
  accounts = first-HasAccounts;
}

abbrev runner : Runner
runner = record {
  controller = waiting_for_first;
  active = true;
  frozen_result = none;
  finalization_done = true;
  finalization_wait_timed_out = false;
}

stop-Settles_example :
    Settles TrafficRunState.cancelled none none
      (stop protobuf 9 none (λ r. r) none none none runner)
stop-Settles_example =
    stop-Settles protobuf 9 (λ r. r) none none none none none runner refl refl refl refl refl refl
      (record {
        run = the_run;
        shown = refl;
        failed_as = refl;
        true_counters = first-IsLedger;
        accounts = first-HasAccounts;
      })

complete_run-Settles_example :
    Settles TrafficRunState.completed none none (complete_run protobuf 9 none none none runner)
complete_run-Settles_example =
    complete_run-Settles protobuf 9 none none none none none runner refl refl first-IsUnderway

live_metrics-final_metrics_example : Agreed the_run (perform_all protobuf parse commands running)
live_metrics-final_metrics_example =
    live_metrics-final_metrics protobuf parse 0 "run" request nodes none idle commands the_run

abbrev id_history : List (ℕ × IdStep)
id_history =
    (0, allocates (7 ∷ []))
    ∷ (1000, allocates (7 ∷ 8 ∷ []))
    ∷ (5000, retires)
    ∷ (10, allocates (8 ∷ 7 ∷ 9 ∷ []))
    ∷ (293_990, allocates (7 ∷ []))
    ∷ []

id_steps-ApartIfReturned_example : ApartIfReturned (id_steps 0 id_history (no_ids, []))
id_steps-ApartIfReturned_example = id_steps-ApartIfReturned 0 id_history

abbrev given_ids : Option Ids → List (ℕ × ℕ)
given_ids none = []
given_ids (some r) = r.1

-- Five minutes after its first allocation 7 is free again.
ids_of_history :
    given_ids (id_steps 0 id_history (no_ids, []))
    ≡ (7, 300_000) ∷ (9, 6010) ∷ (8, 1000) ∷ (7, 0) ∷ []
unfolding id_steps id_step allocate_packet_id draw_id purge quarantine_ids retained discard Dict.get
    Dict.put Members.member
ids_of_history = refl
