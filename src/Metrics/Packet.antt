-- ===== src/Metrics/Packet.antt =====
-- Mesh packets as the metrics read them: the packet functions of backend/app/metrics/airtime.py.
-- The protobuf library is a parameter: its parsers, its port numbers and its error names.
use meshtastic_lab.Base.{ℕ, ◌+◌, String, List, Option, none, some, ◌==◌, if◌then◌else◌, length}

-- What the program uses of the generated protobuf code. `none` is a DecodeError.
pub record Protobuf : Type 0 where
  pub parse_compressed : List ℕ → Option (ℕ × List ℕ)
  pub parse_routing : List ℕ → Option ℕ
  pub serialized_length : ℕ → List ℕ → ℕ → ℕ
  pub error_name : ℕ → String
  pub unknown_app : ℕ
  pub text_message_app : ℕ
  pub routing_app : ℕ
  pub simulator_app : ℕ
  pub error_none : ℕ
  pub rate_limit_exceeded : ℕ

pub record Content : Type 0 where
  pub portnum : ℕ
  pub payload : List ℕ
  pub request_id : ℕ

-- `payload_variant`
pub data Payload : Type 0 where
  decoded : Content → Payload
  encrypted : List ℕ → Payload
  unset : Payload

pub record MeshPacket : Type 0 where
  pub id : ℕ
  pub from_number : ℕ
  pub to_number : ℕ
  pub rx_time : ℕ
  pub hop_limit : ℕ
  pub hop_start : ℕ
  pub variant : Payload

abbrev pub mesh_packet_header_bytes : ℕ
mesh_packet_header_bytes = 16

-- A Boolean on a packet's decoded content.
abbrev pub decoded_content : MeshPacket → Option Content
decoded_content p = elim p.variant [ decoded c ↦ some c | encrypted b ↦ none | unset ↦ none ]

module _ (pb : Protobuf) where
  -- The `data` of a decoded packet; `none` is the DecodeError of its compressed payload.
  unfoldable pub content_length : Content → Option ℕ
  content_length c =
      if c.portnum == pb.simulator_app
      then elim (pb.parse_compressed c.payload) [
        | none ↦ none
        | some (port, bytes) ↦
            if port == pb.unknown_app
            then some (length bytes + mesh_packet_header_bytes)
            else some (pb.serialized_length port bytes c.request_id + mesh_packet_header_bytes)
      ]
      else some (pb.serialized_length c.portnum c.payload c.request_id + mesh_packet_header_bytes)

  unfoldable pub mesh_packet_payload_length : MeshPacket → Option ℕ
  unfolding content_length
  mesh_packet_payload_length p = elim p.variant [
    | encrypted bytes ↦ some (length bytes + mesh_packet_header_bytes)
    | unset ↦ some mesh_packet_header_bytes
    | decoded c ↦ content_length c
  ]

  unfoldable pub mesh_packet_port_number : MeshPacket → Option ℕ
  mesh_packet_port_number p = elim p.variant [
    | encrypted bytes ↦ none
    | unset ↦ none
    | decoded c ↦
        if c.portnum == pb.simulator_app
        then elim (pb.parse_compressed c.payload) [
          | none ↦ some pb.simulator_app
          | some (port, bytes) ↦ some port
        ]
        else some c.portnum
  ]
