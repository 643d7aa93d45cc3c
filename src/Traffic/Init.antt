-- ===== src/Traffic/Init.antt =====
-- A new traffic controller: `TrafficController.__init__` of backend/app/traffic/controller.py.
use meshtastic_lab.Base.{ℕ, true, false, String, List, [], none}
use meshtastic_lab.Traffic.Model.{TrafficController, TrafficRunState, TrafficRunPhase}
use meshtastic_lab.Traffic.Runner.{Runner}

-- `TrafficController.__init__`
abbrev pub new_controller : ℕ → List (String × ℕ) → List String → String → TrafficController
new_controller now hardware_ids nodes stream = record {
  hardware_ids = hardware_ids;
  node_ids = nodes;
  has_sampler = true;
  broker_stream_id = stream;
  event_stream_id = none;
  state = TrafficRunState.idle;
  phase = TrafficRunPhase.terminal;
  current = none;
  last_sequence = 0;
  messages = [];
  messages_by_packet = [];
  pending_submissions = [];
  routing_terminal_sequences = [];
  delivered_sequences = [];
  latencies_ms = [];
  live_latencies_ms = [];
  rf_transmitters = [];
  airtimes_ms = [];
  relay_transmissions = 0;
  duplicates = 0;
  failed_receptions = 0;
  latest_failed_receptions = [];
  latest_duplicate_receptions = [];
  drop_reasons = [];
  drop_counts = [];
  event_loop_lag_ms = none;
  generated_count = 0;
  submitted_count = 0;
  submission_failed_count = 0;
  transmitted_count = 0;
  unique_deliveries = 0;
  receiver_deliveries = 0;
  receiver_opportunities = 0;
  acknowledgments = 0;
  rf_transmission_count = 0;
  observed_airtime_ms = 0;
  per_node_transmit_counts = [];
  per_node_airtime_ms = [];
  maximum_packet_airtime_ms = 0;
  maximum_retransmission_delay_ms = 0;
  last_activity_monotonic = now;
  published = [];
}

abbrev pub new_runner : TrafficController → Runner
new_runner c = record {
  controller = c;
  active = false;
  frozen_result = none;
  finalization_done = true;
  finalization_wait_timed_out = false;
}
