-- ===== src/Traffic/Controller/Radio.antt =====
-- What the medium and the statistics report: `record_rf_transmission`, `record_drop`,
-- `record_failed_receptions`, `record_duplicate_receptions`, the topology changes and the event
-- loop lag of backend/app/traffic/controller.py.
use meshtastic_lab.Base.{
  ℕ, ◌+◌, ◌-◌, Bool, true, false, not, String, List, [], ◌∷◌, ◌++◌, Option, none, some, ltb, ◌==◌,
  if◌then◌else◌, length,
}
use meshtastic_lab.Base.Dict
use meshtastic_lab.Metrics.Events.{PacketEvent, MetricValue}
use meshtastic_lab.Metrics.Packet.{Protobuf, MeshPacket}
use meshtastic_lab.Models.Scenario.{texts, DirectedLink}
use meshtastic_lab.Traffic.Model.{TrafficController, TrafficRun, GeneratedMessage}
use meshtastic_lab.Traffic.Controller.{
  accepts_run_events, note_activity, publish_metric_update, found_message, store_message,
  packet_origin, message_for_packet_identity,
}

abbrev pub max_topology_changes_per_run : ℕ
max_topology_changes_per_run = 10_000

abbrev pub rf_metrics : TrafficController → List (String × MetricValue)
rf_metrics c =
    ("rfTransmissions", MetricValue.count c.rf_transmission_count)
    ∷ ("observedAirtimeMs", MetricValue.count c.observed_airtime_ms)
    ∷ ("relayTransmissions", MetricValue.count c.relay_transmissions)
    ∷ ("perNodeTransmitCounts", MetricValue.counts c.per_node_transmit_counts)
    ∷ ("perNodeAirtimeMs", MetricValue.counts c.per_node_airtime_ms)
    ∷ []

-- The accounting of one transmission of message `m`; `own` is `hardware_ids[transmitter]`.
unfoldable pub account_transmission :
    ℕ → String → ℕ → ℕ → ℕ → GeneratedMessage → TrafficController → TrafficController
account_transmission now transmitter origin own airtime m c =
    let counted = record c {
      messages =
          if m.transmitted
          then c.messages
          else store_message (record m { transmitted = true }) c.messages;
      transmitted_count = if m.transmitted then c.transmitted_count else c.transmitted_count + 1;
      rf_transmitters = c.rf_transmitters ++ (transmitter ∷ []);
      airtimes_ms = c.airtimes_ms ++ (airtime ∷ []);
      rf_transmission_count = c.rf_transmission_count + 1;
      observed_airtime_ms = c.observed_airtime_ms + airtime;
      per_node_transmit_counts = Dict.add_to texts transmitter 1 c.per_node_transmit_counts;
      per_node_airtime_ms = Dict.add_to texts transmitter airtime c.per_node_airtime_ms;
      relay_transmissions =
          if origin == own then c.relay_transmissions else c.relay_transmissions + 1;
    } in
    let noted = note_activity now counted in publish_metric_update now (rf_metrics noted) noted

-- The accounting of one drop.
unfoldable pub account_drop : ℕ → String → TrafficController → TrafficController
account_drop now reason c =
    let noted = note_activity now (record c {
      drop_reasons = c.drop_reasons ++ (reason ∷ []);
      drop_counts = Dict.add_to texts reason 1 c.drop_counts;
    }) in
    publish_metric_update now (("dropsByReason", MetricValue.counts noted.drop_counts) ∷ []) noted

module _ (pb : Protobuf) where
  -- The controller with the packet's identities noted, and the message that was found.
  abbrev pub identified : MeshPacket → Option String → TrafficController → TrafficController
  identified p transmitter c = record c {
    messages_by_packet = (message_for_packet_identity pb p transmitter c).1;
  }

  abbrev pub correlated : MeshPacket → Option String → TrafficController → Option GeneratedMessage
  correlated p transmitter c =
      found_message (message_for_packet_identity pb p transmitter c).0 c.messages

  -- The rest of `record_rf_transmission` behind the lookup; `own` is that of the transmitter.
  abbrev pub charge :
      ℕ
      → String
      → MeshPacket
      → ℕ
      → TrafficRun
      → Option ℕ
      → Option GeneratedMessage
      → TrafficController
      → Option (TrafficController × Option (String × ℕ))
  charge now transmitter p airtime run own none c = some (c, none)
  charge now transmitter p airtime run none (some m) c =
      if m.submitted then none else some (c, none)
  charge now transmitter p airtime run (some own) (some m) c =
      if m.submitted
      then some (
        account_transmission now transmitter (packet_origin p) own airtime m c,
        some (run.run_id, m.sequence),
      )
      else some (c, none)

  -- `record_rf_transmission`: the controller, and the run id and sequence of the message.
  -- A transmitter that is no node is a KeyError of `hardware_ids[transmitter]`, the outer none.
  unfoldable pub record_rf_transmission :
      ℕ
      → String
      → MeshPacket
      → ℕ
      → TrafficController
      → Option (TrafficController × Option (String × ℕ))
  record_rf_transmission now transmitter p airtime c = elim c.current [
    | none ↦ some (c, none)
    | some run ↦
        if accepts_run_events false c
        then charge now transmitter p airtime run (Dict.get texts transmitter c.hardware_ids)
            (correlated p (some transmitter) c) (identified p (some transmitter) c)
        else some (c, none)
  ]

  abbrev pub charge_drop :
      ℕ → String → Option GeneratedMessage → TrafficController → TrafficController
  charge_drop now reason none c = c
  charge_drop now reason (some m) c = if m.submitted then account_drop now reason c else c

  -- `record_drop`
  unfoldable pub record_drop :
      ℕ → String → MeshPacket → String → TrafficController → TrafficController
  record_drop now transmitter p reason c = elim c.current [
    | none ↦ c
    | some run ↦
        if accepts_run_events false c
        then charge_drop now reason (correlated p (some transmitter) c)
            (identified p (some transmitter) c)
        else c
  ]

  -- `record_failed_receptions`
  unfoldable pub record_failed_receptions : ℕ → String → ℕ → TrafficController → TrafficController
  record_failed_receptions now node total c = elim c.current [
    | none ↦ c
    | some run ↦
        if not (accepts_run_events true c)
        then c
        else let latest = record c {
          latest_failed_receptions = Dict.put texts node total c.latest_failed_receptions;
        } in
          elim (Dict.get texts node c.latest_failed_receptions) [
            | none ↦ latest
            | some previous ↦
                let delta = total - previous in
                let counted = record latest { failed_receptions = c.failed_receptions + delta } in
                if ltb 0 delta
                then publish_metric_update now
                    (("failedReceptions", MetricValue.count counted.failed_receptions) ∷ []) counted
                else counted
          ]
  ]

  -- `record_duplicate_receptions`
  unfoldable pub record_duplicate_receptions :
      ℕ → String → ℕ → TrafficController → TrafficController
  record_duplicate_receptions now node total c = elim c.current [
    | none ↦ c
    | some run ↦
        if not (accepts_run_events true c)
        then c
        else let latest = record c {
          latest_duplicate_receptions = Dict.put texts node total c.latest_duplicate_receptions;
        } in
          elim (Dict.get texts node c.latest_duplicate_receptions) [
            | none ↦ latest
            | some previous ↦
                let delta = total - previous in
                let counted = record latest { duplicates = c.duplicates + delta } in
                if ltb 0 delta
                then publish_metric_update now
                    (("duplicateReceptions", MetricValue.count counted.duplicates) ∷ []) counted
                else counted
          ]
  ]

  -- `ensure_topology_change_capacity`: whether it lets the changes pass, or raises.
  unfoldable pub has_topology_change_capacity : ℕ → TrafficController → Bool
  has_topology_change_capacity additional c = elim c.current [
    | none ↦ true
    | some run ↦
        if not (accepts_run_events false c)
        then true
        else not (ltb max_topology_changes_per_run (length run.topology_changes + additional))
  ]

  -- `record_topology_change`; `none` is the RuntimeError of a full timeline.
  unfoldable pub record_topology_change :
      PacketEvent → DirectedLink → TrafficController → Option TrafficController
  record_topology_change event link c = elim c.current [
    | none ↦ some c
    | some run ↦
        if not (accepts_run_events false c)
        then some c
        else if has_topology_change_capacity 1 c
        then some (record c {
          current = some (record run {
            topology_changes =
                run.topology_changes
                ++ (record {
                  event_sequence = event.sequence;
                  monotonic_seconds = event.monotonic_seconds;
                  link = link;
                }
                    ∷ []);
          });
        })
        else none
  ]

  -- `set_event_loop_lag`
  unfoldable pub set_event_loop_lag : ℕ → ℕ → TrafficController → TrafficController
  set_event_loop_lag now lag c = elim c.current [
    | none ↦ c
    | some run ↦
        if accepts_run_events false c
        then publish_metric_update now (("eventLoopLagMs", MetricValue.count lag) ∷ [])
            (record c { event_loop_lag_ms = some lag })
        else c
  ]
