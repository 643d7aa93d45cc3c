-- ===== src/Simulator/Service/Radio.antt =====
-- What a node's firmware reports to the simulation: `_on_from_radio` of
-- backend/app/simulator/service.py.
use meshtastic_lab.Base.{ℕ, String, List, Option, none, some, ◌==◌, if◌then◌else◌}
use meshtastic_lab.Metrics.Packet.{Protobuf, MeshPacket, Content, decoded_content}
use meshtastic_lab.Simulator.Service.{SimulatorService}
use meshtastic_lab.Simulator.Service.Reports.{Telemetry, observe_nodeinfo, on_telemetry}
use meshtastic_lab.Traffic.Controller.Receive.{handle_from_radio}
use meshtastic_lab.Traffic.Controller.Receipts.{FromRadio, queue_status, packet, other}
use meshtastic_lab.Traffic.Runner.{with_controller}

-- The port numbers that the service reads, and protobuf's parser of a telemetry message, which may
-- raise.
pub record ServiceProtobuf : Type 0 where
  pub nodeinfo_app : ℕ
  pub telemetry_app : ℕ
  pub parse_telemetry : List ℕ → Option Telemetry

module _ (pb : Protobuf) (decode : List ℕ → Option (String × ℕ)) where
  -- The call of the traffic controller.
  unfoldable pub hear_traffic :
      ℕ → String → FromRadio → (ℕ → String) → SimulatorService → Option SimulatorService
  hear_traffic now node message queue_error s = elim s.traffic [
    | none ↦ some s
    | some r ↦ elim (handle_from_radio pb decode now node message queue_error r.controller) [
      | none ↦ none
      | some later ↦ some (record s { traffic = some (with_controller later r) })
    ]
  ]

  module _ (sp : ServiceProtobuf) where
    abbrev pub hear_nodeinfo : String → MeshPacket → Content → SimulatorService → SimulatorService
    hear_nodeinfo node p content s =
        if content.portnum == sp.nodeinfo_app then observe_nodeinfo node p.from_number s else s

    abbrev pub hear_telemetry : ℕ → String → Content → SimulatorService → SimulatorService
    hear_telemetry now node content s =
        if content.portnum == sp.telemetry_app
        then elim (sp.parse_telemetry content.payload) [
          | none ↦ s
          | some telemetry ↦ on_telemetry pb now node content.request_id telemetry s
        ]
        else s

    abbrev pub hear_content :
        ℕ → String → MeshPacket → Option Content → SimulatorService → SimulatorService
    hear_content now node p none s = s
    hear_content now node p (some content) s =
        hear_telemetry now node content (hear_nodeinfo node p content s)

    abbrev pub hear_message : ℕ → String → FromRadio → SimulatorService → SimulatorService
    hear_message now node (packet p) s = hear_content now node p (decoded_content p) s
    hear_message now node (queue_status id result) s = s
    hear_message now node other s = s

    -- `_on_from_radio`; `none` is an exception of the traffic controller.
    unfoldable pub on_from_radio :
        ℕ → String → FromRadio → (ℕ → String) → SimulatorService → Option SimulatorService
    on_from_radio now node message queue_error s =
        elim (hear_traffic now node message queue_error s) [
          | none ↦ none
          | some heard ↦ some (hear_message now node message heard)
        ]
