-- ===== src/Tests/Medium.antt =====
-- Concrete scenarios and transmissions for backend/app/simulator/medium.py.
use meshtastic_lab.Base.{
  ℕ, ◌≡◌, refl, Bool, true, false, String, List, [], ◌∷◌, none, some, pos, negsuc,
}
use meshtastic_lab.Metrics.Packet.{Protobuf, MeshPacket, unset, mesh_packet_payload_length}
use meshtastic_lab.Models.Scenario.{DirectedLink, put_link, get_link, pair_eq}
use meshtastic_lab.Simulator.Medium.{
  Links, Transmission, transmit, outgoing, forward, inject, disabled_event, rf_event, update_link,
  link_update,
}
use meshtastic_lab.Simulator.Medium.Transmit.{IsKeyed, IsTransmitted, transmit-IsTransmitted}
use meshtastic_lab.Simulator.Medium.Links.{IsUpdated, update_link-IsUpdated}

abbrev protobuf : Protobuf
protobuf = record {
  parse_compressed = λ bytes. none;
  parse_routing = λ bytes. some 0;
  serialized_length = λ port bytes request. 0;
  error_name = λ n. "ERROR";
  unknown_app = 0;
  text_message_app = 1;
  routing_app = 5;
  simulator_app = 69;
  error_none = 0;
  rate_limit_exceeded = 38;
}

abbrev packet_sent : MeshPacket
packet_sent = record {
  id = 77;
  from_number = 11;
  to_number = 0xffffffff;
  rx_time = 0;
  hop_limit = 3;
  hop_start = 3;
  variant = unset;
}

abbrev link_between : String → String → Bool → DirectedLink
link_between a b enabled = record {
  from_node = a;
  to_node = b;
  enabled = enabled;
  rssi_dbm = negsuc 84;
  snr_db = pos 8;
}

abbrev table : Links
table =
    (("a", "b"), link_between "a" "b" true)
    ∷ (("a", "c"), link_between "a" "c" false)
    ∷ (("b", "a"), link_between "b" "a" true)
    ∷ []

table-IsKeyed : IsKeyed table
table-IsKeyed = (refl, (refl, (refl, tt)))

abbrev hardware : List (String × ℕ)
hardware = ("a", 11) ∷ ("b", 12) ∷ ("c", 13) ∷ []

abbrev out_of_a : List DirectedLink
out_of_a = link_between "a" "b" true ∷ link_between "a" "c" false ∷ []

abbrev sent_from_a : Transmission
sent_from_a = record {
  published =
      rf_event protobuf 5 "a" packet_sent none (λ n. "!") hardware 16 40 out_of_a
      ∷ disabled_event protobuf 5 "a" packet_sent none (link_between "a" "c" false)
      ∷ [];
  drops = ("a", packet_sent, "link-disabled") ∷ [];
  injections = inject protobuf 5 "a" packet_sent none (link_between "a" "b" true) ∷ [];
}

transmitted_from_a :
    transmit protobuf 5 "a" packet_sent none (λ n. 40) (λ n. "!") hardware table ≡ some sent_from_a
unfolding transmit mesh_packet_payload_length outgoing forward
transmitted_from_a = refl

transmit-IsTransmitted_example : IsTransmitted protobuf 5 "a" packet_sent none table sent_from_a
transmit-IsTransmitted_example =
    transmit-IsTransmitted protobuf 5 "a" packet_sent none (λ n. 40) (λ n. "!") hardware table
      sent_from_a table-IsKeyed transmitted_from_a

abbrev enabled_table : Links
enabled_table =
    (("a", "b"), link_between "a" "b" true)
    ∷ (("a", "c"), link_between "a" "c" true)
    ∷ (("b", "a"), link_between "b" "a" true)
    ∷ []

enabled_a_c :
    update_link 9 (link_between "a" "c" true) table
    ≡ some (enabled_table, link_update 9 (link_between "a" "c" true))
unfolding update_link get_link put_link pair_eq
enabled_a_c = refl

update_link-IsUpdated_example : IsUpdated (link_between "a" "c" true) table enabled_table
update_link-IsUpdated_example =
    update_link-IsUpdated 9 (link_between "a" "c" true) table enabled_table
      (link_update 9 (link_between "a" "c" true)) table-IsKeyed enabled_a_c
