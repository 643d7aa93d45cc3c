-- ===== src/Traffic/Controller/Submission.antt =====
-- Submission and firmware admission: `_submit`, `_record_queue_status`, `_resolve_submission`,
-- `_record_pretransmission_rejection` and `_finalize_pending_submissions` of
-- backend/app/traffic/controller.py. `now` is the clock; the packet id that `_allocate_packet_id`
-- chose and the gateway's answer are arguments.
pub use meshtastic_lab.Base.{is_some}
use meshtastic_lab.Base.{
  ℕ, ◌+◌, ◌-◌, Bool, true, false, not, ◌||◌, String, str_eq, List, [], ◌∷◌, ◌++◌, Option, none,
  some, ltb, ◌==◌, max, if◌then◌else◌, length,
}
use meshtastic_lab.Base.Dict
use meshtastic_lab.Metrics.Events.{PacketEvent, EventType, MetricValue, Detail, packet_event}
use meshtastic_lab.Metrics.Packet.{Protobuf}
use meshtastic_lab.Models.Scenario.{texts}
use meshtastic_lab.Traffic.Model.{
  TrafficController, TrafficRun, TrafficKind, broadcast_text, direct_text, GeneratedMessage,
}
use meshtastic_lab.Traffic.Controller.{
  places, identities, note_activity, publish_event, publish_metric_update, find_message,
  store_message,
}

abbrev pub submission_event :
    ℕ → Protobuf → String → GeneratedMessage → TrafficRun → String → Option String → PacketEvent
submission_event now pb source m run result error = record (packet_event now EventType.traffic) {
  transmitter = some source;
  intended_destination = some m.destination_node;
  mesh_packet_id = some m.packet_id;
  traffic_run_id = some run.run_id;
  traffic_sequence = some m.sequence;
  port_number = some pb.text_message_app;
  result = some result;
  detail = elim error [ none ↦ none | some e ↦ some (Detail.text e) ];
}

abbrev pub submission_metrics : TrafficController → List (String × MetricValue)
submission_metrics c =
    ("submitted", MetricValue.count c.submitted_count)
    ∷ ("submissionFailed", MetricValue.count c.submission_failed_count)
    ∷ []

-- The activity note and the two events that end a settlement.
abbrev pub announce : ℕ → PacketEvent → TrafficController → TrafficController
announce now event c =
    let noted = note_activity now c in
    publish_event event (publish_metric_update now (submission_metrics noted) noted)

-- `to` of the packet can be filled in.
unfoldable pub is_addressable : String → TrafficController → Bool
is_addressable destination c =
    str_eq destination "broadcast" || is_some (Dict.get texts destination c.hardware_ids)

module _ (pb : Protobuf) where
  -- The two branches of `_resolve_submission` for a message that is still open.
  unfoldable pub settle :
      ℕ
      → String
      → Option String
      → TrafficRun
      → GeneratedMessage
      → TrafficController
      → TrafficController
  settle now source none run m c =
      announce now (submission_event now pb source m run "submitted" none) (record c {
        messages = store_message (record m { submitted = true }) c.messages;
        submitted_count = c.submitted_count + 1;
        current = some (record run { submitted = c.submitted_count + 1 });
      })
  settle now source (some error) run m c =
      announce now (submission_event now pb source m run "submission-failed" (some error))
        (record c {
          messages = store_message (record m { submission_error = some error }) c.messages;
          submission_failed_count = c.submission_failed_count + 1;
          current = some (record run { submission_failed = c.submission_failed_count + 1 });
        })

  unfoldable pub resolve_submission :
      ℕ → String → ℕ → Option String → TrafficController → TrafficController
  resolve_submission now source ref error c = elim c.current [
    | none ↦ c
    | some run ↦ elim (find_message ref c.messages) [
      | none ↦ c
      | some m ↦
          if m.submitted || is_some m.submission_error then c else settle now source error run m c
    ]
  ]

  -- `status.res` is in FIRMWARE_QUEUE_SUCCESS.
  abbrev pub queue_success : ℕ → Bool
  queue_success res = res == 0 || res == 35

  -- `_record_queue_status`; the text of `_firmware_queue_error` is an argument.
  unfoldable pub record_queue_status :
      ℕ → String → ℕ → ℕ → (ℕ → String) → TrafficController → TrafficController
  record_queue_status now node packet_id res queue_error c =
      if packet_id == 0 then c else elim (Dict.get places (node, packet_id) c.pending_submissions) [
        | none ↦ c
        | some ref ↦
            resolve_submission now node ref
              (if queue_success res then none else some (queue_error res))
              (record c {
                pending_submissions = Dict.delete places (node, packet_id) c.pending_submissions;
              })
      ]

  -- The body of `_record_pretransmission_rejection` behind its guard.
  unfoldable pub reject :
      ℕ → String → String → TrafficRun → GeneratedMessage → TrafficController → TrafficController
  reject now source reason run m c =
      let submitted = if m.submitted then c.submitted_count - 1 else c.submitted_count in
      announce now (submission_event now pb source m run "submission-failed" (some reason))
        (record c {
          pending_submissions = Dict.delete places (source, m.packet_id) c.pending_submissions;
          messages =
              store_message (record m { submitted = false; submission_error = some reason })
                c.messages;
          submitted_count = submitted;
          submission_failed_count = c.submission_failed_count + 1;
          current = some (record run {
            submitted = if m.submitted then c.submitted_count - 1 else run.submitted;
            submission_failed = c.submission_failed_count + 1;
          });
        })

  unfoldable pub record_pretransmission_rejection :
      ℕ → String → ℕ → String → TrafficController → TrafficController
  record_pretransmission_rejection now source ref reason c = elim c.current [
    | none ↦ c
    | some run ↦ elim (find_message ref c.messages) [
      | none ↦ c
      | some m ↦ if is_some m.submission_error then c else reject now source reason run m c
    ]
  ]

  -- The loop of `_finalize_pending_submissions` over a copy of the entries.
  unfoldable pub finalize_each : ℕ → List ((String × ℕ) × ℕ) → TrafficController → TrafficController
  finalize_each now [] c = c
  finalize_each now (((source, packet_id), ref) ∷ entries) c =
      finalize_each now entries
        (resolve_submission now source ref (some "firmware queue admission timed out") c)

  unfoldable pub finalize_pending_submissions : ℕ → TrafficController → TrafficController
  finalize_pending_submissions now c = record (finalize_each now c.pending_submissions c) {
    pending_submissions = [];
  }

  abbrev pub opportunities : TrafficKind → TrafficController → ℕ
  opportunities broadcast_text c = length c.node_ids - 1
  opportunities direct_text c = 1

  abbrev pub new_message : ℕ → String → String → String → ℕ → TrafficController → GeneratedMessage
  new_message now flow source destination packet_id c = record {
    sequence = c.last_sequence + 1;
    flow = flow;
    source_node = source;
    destination_node = destination;
    packet_id = packet_id;
    generated_monotonic = now;
    submitted = false;
    submission_error = none;
    transmitted = false;
    delivered_to = [];
    acknowledged = false;
    latency_ms = none;
  }

  -- `_submit` up to the gateway; `origin` is `hardware_ids[source]`, and `airtime` and `delay` are
  -- the packet's `airtime_ms` and `maximum_retransmission_delay_ms`.
  unfoldable pub enqueue :
      ℕ
      → String
      → String
      → String
      → ℕ
      → ℕ
      → ℕ
      → ℕ
      → TrafficRun
      → TrafficController
      → TrafficController
  enqueue now flow source destination packet_id airtime delay origin run c =
      let generated = record c {
        last_sequence = c.last_sequence + 1;
        messages = c.messages ++ (new_message now flow source destination packet_id c ∷ []);
        generated_count = c.generated_count + 1;
        receiver_opportunities = c.receiver_opportunities + opportunities run.request.kind c;
        current = some (record run { requested = c.generated_count + 1 });
        messages_by_packet =
            Dict.put identities (origin, packet_id) (c.last_sequence + 1) c.messages_by_packet;
        pending_submissions =
            Dict.put places (source, packet_id) (c.last_sequence + 1) c.pending_submissions;
      } in
      let announced =
        publish_metric_update now
          (("generatedApplicationMessages", MetricValue.count generated.generated_count) ∷ [])
          generated in
      note_activity now (record announced {
        maximum_packet_airtime_ms = max c.maximum_packet_airtime_ms airtime;
        maximum_retransmission_delay_ms = max c.maximum_retransmission_delay_ms delay;
      })

  -- `_submit`; `refused` is the gateway's error, if it raised one. A payload too small for the
  -- marker, and an unknown source or destination, raise before the message exists: `none`.
  unfoldable pub submit :
      ℕ
      → String
      → String
      → String
      → ℕ
      → ℕ
      → ℕ
      → ℕ
      → Option String
      → TrafficController
      → Option TrafficController
  submit now flow source destination packet_id airtime delay marker_size refused c =
      elim c.current [
        | none ↦ some c
        | some run ↦
            if ltb run.request.payload_bytes marker_size || not (is_addressable destination c)
            then none
            else elim (Dict.get texts source c.hardware_ids) [
              | none ↦ none
              | some origin ↦
                  let queued =
                    enqueue now flow source destination packet_id airtime delay origin run c in
                  elim refused [
                    | none ↦ some queued
                    | some error ↦ some (
                        resolve_submission now source (c.last_sequence + 1) (some error)
                          (record queued {
                            pending_submissions =
                                Dict.delete places (source, packet_id) queued.pending_submissions;
                          }))
                  ]
            ]
      ]
