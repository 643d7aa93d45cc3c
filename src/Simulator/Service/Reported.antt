-- ===== src/Simulator/Service/Reported.antt =====
-- Traffic runs and reports of a simulation at rest: backend/app/simulator/service.py.
use meshtastic_lab.Base.{
  ℕ, ◌≡◌, ◌∙◌, sym, subst, inl, inr, Bool, true, false, not, ◌&&◌, ◌||◌, String, str_eq, List, ◌∷◌,
  Option, none, some, arith, Bool-cases, Option-cases, ◌==◌, if◌then◌else◌, ltb,
}
use meshtastic_lab.Base.Dict
use meshtastic_lab.Base.Members
use meshtastic_lab.Metrics.Packet.{Protobuf, MeshPacket, Content, decoded_content}
use meshtastic_lab.Models.Scenario.{texts, pairs}
use meshtastic_lab.Simulator.Medium.{hardware_node}
use meshtastic_lab.Simulator.Service.{
  Conflict, SimulatorService, conflict, NodeMetrics, archive_result,
}
use meshtastic_lab.Simulator.Service.Commands.{or_unchanged, after_command}
use meshtastic_lab.Simulator.Service.Invariant.{IsAtRest, archive_result-IsAtRest}
use meshtastic_lab.Simulator.Service.Radio.{
  ServiceProtobuf, hear_traffic, hear_telemetry, hear_content, hear_message, on_from_radio,
}
use meshtastic_lab.Simulator.Service.Reports.{
  Telemetry, local_stats, device_metrics, other_variant, is_node_state, on_gateway_event,
  observe_nodeinfo, collision_event, report_receptions, on_telemetry,
}
use meshtastic_lab.Simulator.Service.Running.{traffic-IsAtRest, by_end, if-IsAtRest}
use meshtastic_lab.Simulator.Service.Runs.{
  is_run_active, start_outcome, start_sampled, start_traffic, stop_traffic, settle_late,
}
use meshtastic_lab.Simulator.Service.Starting.{failure-IsAtRest}
use meshtastic_lab.Simulator.Service.Topology.{is_running}
use meshtastic_lab.Traffic.Model.{TrafficRunRequest}
use meshtastic_lab.Traffic.Controller.Radio.{record_failed_receptions, record_duplicate_receptions}
use meshtastic_lab.Traffic.Controller.Receive.{handle_from_radio}
use meshtastic_lab.Traffic.Controller.Receipts.{FromRadio, queue_status, packet, other}
use meshtastic_lab.Traffic.Runner.{Runner, start_run, with_controller}
use meshtastic_lab.Traffic.Schedule.{FailedReceptionSample, Started, refused, started}

archive_result-traffic :
    (persisted : String → Bool) (r : Runner) (s : SimulatorService)
    → (archive_result persisted r s).traffic ≡ s.traffic
unfolding archive_result
archive_result-traffic persisted r s = ground arith

-- A choice between two simulations at rest.
either-IsAtRest :
    (b : Bool) (x y : SimulatorService) → IsAtRest x → IsAtRest y → IsAtRest (if b then x else y)
either-IsAtRest true x y h k = h
either-IsAtRest false x y h k = k

-- A simulation that equals another.
by_equal : (s t : SimulatorService) → s ≡ t → IsAtRest t → IsAtRest s
by_equal s t e v = subst IsAtRest (sym e) v

start_outcome-IsAtRest :
    (full : Bool) (outcome : Started) (r : Runner) (s : SimulatorService)
    → s.traffic ≡ some r
    → IsAtRest s
    → IsAtRest (after_command (start_outcome full outcome r s))
unfolding start_outcome
start_outcome-IsAtRest full (refused error) r s e v = v
start_outcome-IsAtRest true (started c) r s e v = v
start_outcome-IsAtRest false (started c) r s e v =
    traffic-IsAtRest r (start_run (started c) r) s e v

module _ (now : ℕ) (run_id : String) (request : TrafficRunRequest) (persisted : String → Bool)
    (stopped_meanwhile quarantine_full : Bool) where
  start_sampled-IsAtRest :
      (baseline : FailedReceptionSample) (r : Runner) (s : SimulatorService)
      → s.traffic ≡ some r
      → IsAtRest s
      → IsAtRest (
          after_command (
            start_sampled now run_id request persisted stopped_meanwhile quarantine_full baseline r
              s))
  unfolding start_sampled
  start_sampled-IsAtRest baseline r s e v =
      if-IsAtRest stopped_meanwhile _ _ (λ _. v)
        (λ _.
          start_outcome-IsAtRest quarantine_full _ r _ (archive_result-traffic persisted r s ∙ e)
            (archive_result-IsAtRest persisted r s v))

  pub start_traffic-IsAtRest :
      (sample : Option FailedReceptionSample) (s : SimulatorService)
      → IsAtRest s
      → IsAtRest (
          after_command
            (start_traffic now run_id request persisted sample stopped_meanwhile quarantine_full s))
  unfolding start_traffic
  start_traffic-IsAtRest sample s v =
      let command =
        start_traffic now run_id request persisted sample stopped_meanwhile quarantine_full s in
      elim (Option-cases s.traffic) [
        | inl e ↦
            by_end command (conflict Conflict.invalid_lifecycle_state s) (simp (start_traffic, e)) v
        | inr (r, e) ↦ elim (Bool-cases (not (is_running s.state))) [
          | inl idle ↦
              by_end command (conflict Conflict.invalid_lifecycle_state s)
                (simp (start_traffic, e, idle)) v
          | inr runs ↦ elim (Bool-cases (is_run_active r.controller.state)) [
            | inl active ↦
                by_end command (conflict Conflict.traffic_run_active s)
                  (simp (start_traffic, e, runs, active)) v
            | inr ready ↦ elim (Option-cases sample) [
              | inl missing ↦
                  by_end command (conflict Conflict.local_stats_unavailable s)
                    (simp (start_traffic, e, runs, ready, missing)) v
              | inr (baseline, taken) ↦
                  by_end command
                    (start_sampled now run_id request persisted stopped_meanwhile quarantine_full
                      baseline r s)
                    (simp (start_traffic, e, runs, ready, taken))
                    (start_sampled-IsAtRest baseline r s e v)
            ]
          ]
        ]
      ]

pub stop_traffic-IsAtRest :
    (stop : Runner → Runner) (s : SimulatorService) → IsAtRest s → IsAtRest (stop_traffic stop s)
unfolding stop_traffic
stop_traffic-IsAtRest stop s v = elim (Option-cases s.traffic) [
  | inl e ↦ by_equal (stop_traffic stop s) s (simp (stop_traffic, e)) v
  | inr (r, e) ↦
      by_equal (stop_traffic stop s) (record s { traffic = some (stop r) }) (simp (stop_traffic, e))
        (traffic-IsAtRest r (stop r) s e v)
]

pub settle_late-IsAtRest :
    (persisted : String → Bool) (r : Runner) (s : SimulatorService)
    → IsAtRest s
    → IsAtRest (settle_late persisted r s)
unfolding settle_late
settle_late-IsAtRest persisted r s v =
    archive_result-IsAtRest persisted r _ (either-IsAtRest _ _ s v v)

pub on_gateway_event-IsAtRest :
    (now : ℕ) (node kind detail : String) (s : SimulatorService)
    → IsAtRest s
    → IsAtRest (on_gateway_event now node kind detail s)
unfolding on_gateway_event
on_gateway_event-IsAtRest now node kind detail s v =
    let announced = either-IsAtRest (is_node_state kind) _ s v v in
    either-IsAtRest _ _ _ (failure-IsAtRest now _ _ _ announced) announced

observe_nodeinfo-IsAtRest :
    (node : String) (number : ℕ) (s : SimulatorService)
    → IsAtRest s
    → IsAtRest (observe_nodeinfo node number s)
unfolding observe_nodeinfo
observe_nodeinfo-IsAtRest node number s v =
    elim (Option-cases (hardware_node number s.verifications)) [
      | inl e ↦ by_equal (observe_nodeinfo node number s) s (simp (observe_nodeinfo, e)) v
      | inr (source, e) ↦
          let noted = record s {
            nodeinfo_observations = (source, node) ∷ s.nodeinfo_observations;
          } in
          by_equal (observe_nodeinfo node number s)
            (if str_eq source node || Members.member pairs (source, node) s.nodeinfo_observations
              then s
              else noted)
            (simp (observe_nodeinfo, e)) (either-IsAtRest _ s noted v v)
    ]

module _ (pb : Protobuf) (now : ℕ) where
  report_receptions-IsAtRest :
      (node : String) (rx_bad duplicates : ℕ) (s : SimulatorService)
      → IsAtRest s
      → IsAtRest (report_receptions pb now node rx_bad duplicates s)
  unfolding report_receptions
  report_receptions-IsAtRest node rx_bad duplicates s v = elim (Option-cases s.traffic) [
    | inl e ↦
        by_equal (report_receptions pb now node rx_bad duplicates s) s (simp (report_receptions, e))
          v
    | inr (r, e) ↦
        let later =
          with_controller
            (record_duplicate_receptions pb now node duplicates
              (record_failed_receptions pb now node rx_bad r.controller))
            r in
        by_equal (report_receptions pb now node rx_bad duplicates s)
          (record s { traffic = some later }) (simp (report_receptions, e))
          (traffic-IsAtRest r later s e v)
  ]

  on_telemetry-IsAtRest :
      (node : String) (request_id : ℕ) (telemetry : Telemetry) (s : SimulatorService)
      → IsAtRest s
      → IsAtRest (on_telemetry pb now node request_id telemetry s)
  unfolding on_telemetry
  on_telemetry-IsAtRest node request_id telemetry s v =
      elim (Option-cases (Dict.get texts node s.node_metrics)) [
        | inl e ↦
            by_equal (on_telemetry pb now node request_id telemetry s) s (simp (on_telemetry, e)) v
        | inr (metrics, e) ↦ known telemetry metrics e
      ]
    where
      known :
          (telemetry : Telemetry) (metrics : NodeMetrics)
          → Dict.get texts node s.node_metrics ≡ some metrics
          → IsAtRest (on_telemetry pb now node request_id telemetry s)
      known other_variant metrics e =
          by_equal (on_telemetry pb now node request_id other_variant s) s (simp (on_telemetry, e))
            v
      known (device_metrics utilization) metrics e =
          let later = record s {
            node_metrics =
                Dict.put texts node (record metrics { channel_utilization = some utilization })
                  s.node_metrics;
          } in
          by_equal (on_telemetry pb now node request_id (device_metrics utilization) s) later
            (simp (on_telemetry, e)) v
      known (local_stats tx rx rx_bad duplicates) metrics e =
          let counted = report_receptions pb now node rx_bad duplicates (record s {
            node_metrics =
                Dict.put texts node
                  (record metrics {
                    tx = tx;
                    rx = rx;
                    rx_bad = rx_bad;
                    rx_bad_initialized = true;
                    rx_duplicate = duplicates;
                  })
                  s.node_metrics;
          }) in
          let announced =
            if metrics.rx_bad_initialized && ltb metrics.rx_bad rx_bad
            then collision_event now node counted
            else counted in
          let kept = report_receptions-IsAtRest node rx_bad duplicates _ v in
          by_equal (on_telemetry pb now node request_id (local_stats tx rx rx_bad duplicates) s)
            (record announced {
              local_stats_response_ids =
                  Dict.put texts node request_id announced.local_stats_response_ids;
            })
            (simp (on_telemetry, e))
            (either-IsAtRest (metrics.rx_bad_initialized && ltb metrics.rx_bad rx_bad)
              (collision_event now node counted) counted kept kept)

module _ (pb : Protobuf) (decode : List ℕ → Option (String × ℕ)) (sp : ServiceProtobuf) where
  hear_telemetry-IsAtRest :
      (now : ℕ) (node : String) (content : Content) (s : SimulatorService)
      → IsAtRest s
      → IsAtRest (hear_telemetry pb decode sp now node content s)
  hear_telemetry-IsAtRest now node content s v =
      either-IsAtRest (content.portnum == sp.telemetry_app) _ s
        (parsed (sp.parse_telemetry content.payload)) v
    where
      parsed :
          (o : Option Telemetry)
          → IsAtRest (elim o [
            | none ↦ s
            | some telemetry ↦ on_telemetry pb now node content.request_id telemetry s
          ])
      parsed none = v
      parsed (some telemetry) = on_telemetry-IsAtRest pb now node content.request_id telemetry s v

  hear_content-IsAtRest :
      (now : ℕ) (node : String) (p : MeshPacket) (o : Option Content) (s : SimulatorService)
      → IsAtRest s
      → IsAtRest (hear_content pb decode sp now node p o s)
  hear_content-IsAtRest now node p none s v = v
  hear_content-IsAtRest now node p (some content) s v =
      hear_telemetry-IsAtRest now node content _
        (either-IsAtRest _ _ s (observe_nodeinfo-IsAtRest node p.from_number s v) v)

  hear_message-IsAtRest :
      (now : ℕ) (node : String) (message : FromRadio) (s : SimulatorService)
      → IsAtRest s
      → IsAtRest (hear_message pb decode sp now node message s)
  hear_message-IsAtRest now node (packet p) s v =
      hear_content-IsAtRest now node p (decoded_content p) s v
  hear_message-IsAtRest now node (queue_status id result) s v = v
  hear_message-IsAtRest now node other s v = v

  pub on_from_radio-IsAtRest :
      (now : ℕ) (node : String) (message : FromRadio) (queue_error : ℕ → String)
      (s : SimulatorService)
      → IsAtRest s
      → IsAtRest (or_unchanged s (on_from_radio pb decode sp now node message queue_error s))
  unfolding on_from_radio hear_traffic
  on_from_radio-IsAtRest now node message queue_error s v =
      let later = or_unchanged s (on_from_radio pb decode sp now node message queue_error s) in
      elim (Option-cases s.traffic) [
        | inl gone ↦
            by_equal later (hear_message pb decode sp now node message s)
              (simp (on_from_radio, hear_traffic, gone))
              (hear_message-IsAtRest now node message s v)
        | inr (r, present) ↦
            elim (Option-cases
              (handle_from_radio pb decode now node message queue_error r.controller)) [
                | inl raises ↦
                    by_equal later s (simp (on_from_radio, hear_traffic, present, raises)) v
                | inr (c, handled) ↦
                    let heard = record s { traffic = some (with_controller c r) } in
                    by_equal later (hear_message pb decode sp now node message heard)
                      (simp (on_from_radio, hear_traffic, present, handled))
                      (hear_message-IsAtRest now node message heard
                        (traffic-IsAtRest r (with_controller c r) s present v))
              ]
      ]
