-- ===== src/Traffic/Schedule.antt =====
-- What a run is allowed to schedule: `start`, the checks of a request, the choice of a destination
-- and `_reset_accumulators` of backend/app/traffic/controller.py.
-- The packet ids of `_retire_packet_ids` are in Traffic/Identifiers.antt. The random generator's
-- `choice` is an argument, and so is the fresh run id, which has the 36 characters of a UUID.
pub mod Destination
pub mod Start
use meshtastic_lab.Base.{
  ℕ, zero, suc, ◌+◌, ◌-◌, ◌*◌, ◌/◌, ◌%◌, max, Bool, true, false, not, ◌&&◌, ◌||◌, String, str_eq,
  List, [], ◌∷◌, ◌++◌, Option, none, some, ltb, ◌==◌, if◌then◌else◌, length, is_empty,
}
use meshtastic_lab.Base.Dict
use meshtastic_lab.Base.Members
use meshtastic_lab.Models.Scenario.{texts}
use meshtastic_lab.Traffic.Model.{
  TrafficController, TrafficRun, TrafficRunRequest, TrafficRunState, TrafficRunPhase, TrafficFlow,
  TrafficKind, broadcast_text, direct_text, DestinationStrategy, fixed, round_robin,
  deterministic_random,
}

abbrev pub max_traffic_messages_per_run : ℕ
max_traffic_messages_per_run = 10_000

-- `_messages_per_source`: minutes times messages per minute, rounded up, and at least one. Both
-- arguments are in thousandths.
unfoldable pub messages_per_source : ℕ → ℕ → ℕ
messages_per_source duration rate = max 1 ((duration * rate + 59_999_999) / 60_000_000)

-- `scheduling_flows`
abbrev pub scheduling_flows : TrafficRunRequest → List TrafficFlow
scheduling_flows request =
    if is_empty request.flows
    then record {
      name = "default";
      source_nodes = request.source_nodes;
      destination_strategy = request.destination_strategy;
      fixed_destination = request.fixed_destination;
      messages_per_minute = request.messages_per_minute;
      source_timing = request.source_timing;
    }
      ∷ []
    else request.flows

-- The sum of `_maximum_sequence`, with `_messages_per_flow`.
unfoldable pub scheduled_messages : ℕ → List TrafficFlow → ℕ
scheduled_messages duration [] = 0
scheduled_messages duration (flow ∷ flows) =
    length flow.source_nodes * messages_per_source duration flow.messages_per_minute
    + scheduled_messages duration flows

unfoldable pub maximum_sequence : TrafficRunRequest → ℕ
maximum_sequence request = scheduled_messages request.duration_seconds (scheduling_flows request)

pub data RequestError : Type 0 where
  unknown_sources sources_not_unique unknown_destination destination_is_source : RequestError

unfoldable pub all_known : List String → List String → Bool
all_known known [] = true
all_known known (node ∷ nodes) = Members.member texts node known && all_known known nodes

-- The checks on a fixed destination of direct traffic; `none` is no error.
unfoldable pub check_destination : TrafficKind → List String → TrafficFlow → Option RequestError
check_destination broadcast_text known flow = none
check_destination direct_text known flow = elim flow.destination_strategy [
  | round_robin ↦ none
  | deterministic_random ↦ none
  | fixed ↦ elim flow.fixed_destination [
    | none ↦ none
    | some destination ↦
        if not (Members.member texts destination known)
        then some unknown_destination
        else if Members.member texts destination flow.source_nodes
        then some destination_is_source
        else none
  ]
]

unfoldable pub check_flow : TrafficKind → List String → TrafficFlow → Option RequestError
check_flow kind known flow =
    if not (all_known known flow.source_nodes)
    then some unknown_sources
    else if not (length (Members.distinct texts flow.source_nodes) == length flow.source_nodes)
    then some sources_not_unique
    else check_destination kind known flow

-- `_validate_request_nodes` over the flows: the first error, or none.
unfoldable pub check_flows : TrafficKind → List String → List TrafficFlow → Option RequestError
check_flows kind known [] = none
check_flows kind known (flow ∷ flows) = elim (check_flow kind known flow) [
  | some error ↦ some error
  | none ↦ check_flows kind known flows
]

-- The nodes that a message of `source` can go to.
unfoldable pub candidates : String → List String → List String
candidates source [] = []
candidates source (node ∷ nodes) =
    let rest = candidates source nodes in if str_eq node source then rest else node ∷ rest

unfoldable pub nth {ℓ} : {A : Type ℓ} → ℕ → List A → Option A
nth n [] = none
nth zero (x ∷ xs) = some x
nth (suc n) (x ∷ xs) = nth n xs

-- A turn of the round robin: `none` is a KeyError, or no node to choose from.
unfoldable pub next_in_turn :
    String → List String → List (String × ℕ) → Option (String × List (String × ℕ))
next_in_turn source nodes turns = elim (Dict.get texts source turns) [
  | none ↦ none
  | some index ↦ if is_empty nodes then none else elim (nth (index % length nodes) nodes) [
    | none ↦ none
    | some destination ↦ some (destination, Dict.put texts source (index + 1) turns)
  ]
]

-- `_choose_destination`, with the round robin's indices; `none` is an exception.
unfoldable pub choose_destination :
    (List String → Option String)
    → TrafficKind
    → DestinationStrategy
    → Option String
    → String
    → List String
    → List (String × ℕ)
    → Option (String × List (String × ℕ))
choose_destination choice broadcast_text strategy fixed_destination source nodes turns =
    some ("broadcast", turns)
choose_destination choice direct_text fixed none source nodes turns = none
choose_destination choice direct_text fixed (some destination) source nodes turns =
    some (destination, turns)
choose_destination choice direct_text round_robin fixed_destination source nodes turns =
    next_in_turn source (candidates source nodes) turns
choose_destination choice direct_text deterministic_random fixed_destination source nodes turns =
    elim (choice (candidates source nodes)) [
      | none ↦ none
      | some destination ↦ some (destination, turns)
    ]

-- The number of decimal digits, on fuel.
unfoldable pub digits_from : ℕ → ℕ → ℕ
digits_from zero n = 1
digits_from (suc fuel) n = let rest = digits_from fuel (n / 10) in if ltb n 10 then 1 else suc rest

-- The length of `ML1:<run id>:<sequence>:`.
unfoldable pub marker_size : ℕ → ℕ
marker_size sequence = 3 + 1 + 36 + 1 + digits_from 20 sequence + 1

-- `_reset_accumulators` but for the packet ids.
unfoldable pub reset_accumulators : ℕ → TrafficController → TrafficController
reset_accumulators now c = record c {
  last_sequence = 0;
  messages_by_packet = [];
  pending_submissions = [];
  routing_terminal_sequences = [];
  delivered_sequences = [];
  latencies_ms = [];
  live_latencies_ms = [];
  rf_transmitters = [];
  airtimes_ms = [];
  relay_transmissions = 0;
  duplicates = 0;
  failed_receptions = 0;
  latest_failed_receptions = [];
  latest_duplicate_receptions = [];
  drop_reasons = [];
  drop_counts = [];
  event_loop_lag_ms = none;
  generated_count = 0;
  submitted_count = 0;
  submission_failed_count = 0;
  transmitted_count = 0;
  unique_deliveries = 0;
  receiver_deliveries = 0;
  receiver_opportunities = 0;
  acknowledgments = 0;
  rf_transmission_count = 0;
  observed_airtime_ms = 0;
  per_node_transmit_counts = [];
  per_node_airtime_ms = [];
  maximum_packet_airtime_ms = 0;
  maximum_retransmission_delay_ms = 0;
  last_activity_monotonic = now;
}

-- `FailedReceptionSample`
pub record FailedReceptionSample : Type 0 where
  pub totals : List (String × ℕ)
  pub duplicate_totals : List (String × ℕ)
  pub missing_nodes : List String

-- `_normalize_failed_reception_sample`
abbrev pub normalize_sample : Option FailedReceptionSample → FailedReceptionSample
normalize_sample none = record { totals = []; duplicate_totals = []; missing_nodes = [] }
normalize_sample (some sample) = sample

-- The nodes with no total.
unfoldable pub without_total : List (String × ℕ) → List String → List String
without_total totals [] = []
without_total totals (node ∷ nodes) =
    let rest = without_total totals nodes in
    elim (Dict.get texts node totals) [ none ↦ node ∷ rest | some n ↦ rest ]

-- `missing_stats_nodes`, not sorted.
unfoldable pub missing_stats_nodes : Bool → Option FailedReceptionSample → List String → List String
missing_stats_nodes has_sampler none nodes = nodes
missing_stats_nodes false (some sample) nodes = sample.missing_nodes ++ nodes
missing_stats_nodes true (some sample) nodes =
    sample.missing_nodes ++ without_total sample.totals nodes

pub data StartError : Type 0 where
  already_active too_many_messages payload_too_small : StartError
  invalid : RequestError → StartError

-- The controller of a run that begins.
unfoldable pub begin :
    ℕ
    → String
    → TrafficRunRequest
    → List String
    → Option FailedReceptionSample
    → TrafficController
    → TrafficController
unfolding reset_accumulators
begin now run_id request nodes baseline c =
    let missing = missing_stats_nodes c.has_sampler baseline nodes in
    record (reset_accumulators now c) {
      node_ids = nodes;
      event_stream_id = some c.broker_stream_id;
      latest_failed_receptions = (normalize_sample baseline).totals;
      latest_duplicate_receptions = (normalize_sample baseline).duplicate_totals;
      messages = [];
      current = some (record {
        run_id = run_id;
        request = request;
        requested = 0;
        submitted = 0;
        submission_failed = 0;
        topology_changes = [];
        missing_local_stats_nodes = missing;
        failed_reception_metrics_complete = is_empty missing;
        failure = none;
      });
      state = TrafficRunState.running;
      phase = TrafficRunPhase.generating;
    }

-- `start`: why it raises, or the controller of the run; `active` is a task that is not done and
-- `nodes` are those of the scenario's snapshot.
pub data Started : Type 0 where
  refused : StartError → Started
  started : TrafficController → Started

unfoldable pub start :
    Bool
    → ℕ
    → String
    → TrafficRunRequest
    → List String
    → Option FailedReceptionSample
    → TrafficController
    → Started
start active now run_id request nodes baseline c =
    if active
    then refused already_active
    else elim (check_flows request.kind nodes (scheduling_flows request)) [
      | some error ↦ refused (invalid error)
      | none ↦
          if ltb max_traffic_messages_per_run (maximum_sequence request)
          then refused too_many_messages
          else if ltb request.payload_bytes (marker_size (maximum_sequence request))
          then refused payload_too_small
          else started (begin now run_id request nodes baseline c)
    ]
