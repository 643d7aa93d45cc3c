-- ===== src/Simulator/Service/Reports.antt =====
-- What gateways and firmware report to the simulation: `_on_gateway_event`, `_on_from_radio`,
-- `_sample_local_stats` and the control packets of backend/app/simulator/service.py.
-- Protobuf's telemetry message is an argument as it was parsed.
use Prim.Native.String.{◌++◌ as append}
use meshtastic_lab.Base.{
  ℕ, ◌+◌, ◌%◌, ◌^◌, Bool, true, false, not, ◌&&◌, ◌||◌, String, str_eq, List, [], ◌∷◌, map, Option,
  none, some, ltb, ◌==◌, if◌then◌else◌, is_empty,
}
use meshtastic_lab.Base.Dict
use meshtastic_lab.Base.Members
use meshtastic_lab.Metrics.Events.{EventType, Detail, packet_event, publish}
use meshtastic_lab.Metrics.Packet.{Protobuf}
use meshtastic_lab.Models.Scenario.{pairs, texts}
use meshtastic_lab.Simulator.Medium.{hardware_node}
use meshtastic_lab.Simulator.Service.{
  LifecycleState, running, warming_up, SimulatorService, schedule_runtime_failure,
}
use meshtastic_lab.Traffic.Controller.Radio.{record_failed_receptions, record_duplicate_receptions}
use meshtastic_lab.Traffic.Runner.{with_controller}
use meshtastic_lab.Traffic.Schedule.{FailedReceptionSample}

-- The states in which a gateway's failure ends the simulation.
abbrev pub is_live : LifecycleState → Bool
is_live running = true
is_live warming_up = true
is_live other = false

abbrev pub is_node_state : String → Bool
is_node_state kind = Members.member texts kind (
    "gateway.started" ∷ "gateway.stopped" ∷ "gateway.failed" ∷ "gateway.client_connected"
    ∷ "gateway.client_disconnected" ∷ [])

-- `_on_gateway_event`
unfoldable pub on_gateway_event : ℕ → String → String → String → SimulatorService → SimulatorService
on_gateway_event now node kind detail s =
    let announced =
      if is_node_state kind
      then record s {
        event_broker =
            (publish
              (record (packet_event now EventType.node_state) {
                transmitter = some node;
                result = some kind;
                detail = some (Detail.text detail);
              })
              s.event_broker).0;
      }
      else s in
    let overloaded = str_eq kind "gateway.rf_queue_full" in
    if (str_eq kind "gateway.failed" || overloaded) && is_live s.state
    then schedule_runtime_failure now
        (if overloaded then "SIMULATOR_OVERLOAD" else "GATEWAY_FAILED")
        (append "Gateway for " (append node (append ": " detail))) announced
    else announced

-- The variants of a telemetry message that the service reads.
pub data Telemetry : Type 0 where
  local_stats : ℕ → ℕ → ℕ → ℕ → Telemetry
  device_metrics : ℕ → Telemetry
  other_variant : Telemetry

-- A node's name for the nodes that have heard its NodeInfo.
unfoldable pub observe_nodeinfo : String → ℕ → SimulatorService → SimulatorService
observe_nodeinfo node number s = elim (hardware_node number s.verifications) [
  | none ↦ s
  | some source ↦
      if str_eq source node || Members.member pairs (source, node) s.nodeinfo_observations
      then s
      else record s { nodeinfo_observations = (source, node) ∷ s.nodeinfo_observations }
]

abbrev pub collision_event : ℕ → String → SimulatorService → SimulatorService
collision_event now node s = record s {
  event_broker =
      (publish
        (record (packet_event now EventType.collision) {
          receiver = some node;
          result = some "native-rx-bad";
          detail = some (Detail.text "Firmware local statistics incremented num_packets_rx_bad");
        })
        s.event_broker).0;
}

module _ (pb : Protobuf) where
  -- The counters that the traffic controller takes over.
  unfoldable pub report_receptions : ℕ → String → ℕ → ℕ → SimulatorService → SimulatorService
  report_receptions now node rx_bad duplicates s = elim s.traffic [
    | none ↦ s
    | some r ↦ record s {
      traffic = some (
          with_controller
            (record_duplicate_receptions pb now node duplicates
              (record_failed_receptions pb now node rx_bad r.controller))
            r);
    }
  ]

  -- The telemetry branch of `_on_from_radio`; `request_id` is that of the packet.
  unfoldable pub on_telemetry : ℕ → String → ℕ → Telemetry → SimulatorService → SimulatorService
  on_telemetry now node request_id telemetry s = elim (Dict.get texts node s.node_metrics) [
    | none ↦ s
    | some metrics ↦ elim telemetry [
      | other_variant ↦ s
      | device_metrics utilization ↦ record s {
        node_metrics =
            Dict.put texts node (record metrics { channel_utilization = some utilization })
              s.node_metrics;
      }
      | local_stats tx rx rx_bad duplicates ↦
          let counted = report_receptions now node rx_bad duplicates (record s {
            node_metrics =
                Dict.put texts node
                  (record metrics {
                    tx = tx;
                    rx = rx;
                    rx_bad = rx_bad;
                    rx_bad_initialized = true;
                    rx_duplicate = duplicates;
                  })
                  s.node_metrics;
          }) in
          let announced =
            if metrics.rx_bad_initialized && ltb metrics.rx_bad rx_bad
            then collision_event now node counted
            else counted in
          record announced {
            local_stats_response_ids =
                Dict.put texts node request_id announced.local_stats_response_ids;
          }
    ]
  ]

-- `_next_control_packet_id`; the mask is that of 32 bits.
unfoldable pub next_control_packet_id : ℕ → ℕ
next_control_packet_id id = let next = (id + 1) % 2 ^ 32 in if next == 0 then 1 else next

-- The sample that `_sample_local_stats` makes of the nodes' answers: of a node that answered, its
-- failed and its duplicate receptions.
unfoldable pub sample_totals : (ℕ × ℕ → ℕ) → List (String × Option (ℕ × ℕ)) → List (String × ℕ)
sample_totals choose [] = []
sample_totals choose ((node, none) ∷ answers) = sample_totals choose answers
sample_totals choose ((node, some value) ∷ answers) =
    (node, choose value) ∷ sample_totals choose answers

unfoldable pub silent_nodes : List (String × Option (ℕ × ℕ)) → List String
silent_nodes [] = []
silent_nodes ((node, none) ∷ answers) = node ∷ silent_nodes answers
silent_nodes ((node, some value) ∷ answers) = silent_nodes answers

-- Each node is a gateway and is verified.
unfoldable pub nodes_ready : SimulatorService → Bool
nodes_ready s =
    let verified = map (λ e. e.0) s.verifications in
    not (is_empty s.gateways) && (all_in s.gateways verified && all_in verified s.gateways)
  where
    all_in : List String → List String → Bool
    all_in [] ys = true
    all_in (x ∷ xs) ys = Members.member texts x ys && all_in xs ys

-- `_sample_local_stats`; `none` is the RuntimeError of nodes that are not ready.
unfoldable pub sample_local_stats :
    List (String × Option (ℕ × ℕ)) → SimulatorService → Option FailedReceptionSample
sample_local_stats answers s =
    if nodes_ready s
    then some (record {
      totals = sample_totals (λ v. v.0) answers;
      duplicate_totals = sample_totals (λ v. v.1) answers;
      missing_nodes = silent_nodes answers;
    })
    else none
