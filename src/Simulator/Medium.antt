-- ===== src/Simulator/Medium.antt =====
-- The radio medium: backend/app/simulator/medium.py.
-- What a call hands to the event broker, to the drop handler and to the gateways is its result.
-- The airtime, the transmission handler's answer and the text of an unknown node's number are
-- arguments. The injections run as tasks of their own, each in the order of `inject`.
pub mod Links
pub mod Transmit
use meshtastic_lab.Base.{
  ℕ, ◌+◌, Bool, true, false, not, ◌&&◌, String, str_eq, List, [], ◌∷◌, ◌++◌, map, Option, none,
  some, ◌==◌, if◌then◌else◌, length, ℤ, pos, negsuc,
}
use meshtastic_lab.Base.Members
use meshtastic_lab.Metrics.Events.{PacketEvent, EventType, packet_event}
use meshtastic_lab.Metrics.Packet.{
  Protobuf, MeshPacket, mesh_packet_payload_length, mesh_packet_port_number,
}
use meshtastic_lab.Models.Scenario.{
  DirectedLink, Pair, key, pairs, pair_eq, put_link, put_links, get_link,
}

unfoldable pub integer_eq : ℤ → ℤ → Bool
integer_eq (pos a) (pos b) = a == b
integer_eq (negsuc a) (negsuc b) = a == b
integer_eq (pos a) (negsuc b) = false
integer_eq (negsuc a) (pos b) = false

unfoldable pub flag_eq : Bool → Bool → Bool
flag_eq true b = b
flag_eq false b = not b

-- The equality of two links as models.
unfoldable pub link_eq : DirectedLink → DirectedLink → Bool
link_eq a b =
    str_eq a.from_node b.from_node
    && (str_eq a.to_node b.to_node
        && (flag_eq a.enabled b.enabled
            && (integer_eq a.rssi_dbm b.rssi_dbm && integer_eq a.snr_db b.snr_db)))

-- `_publish_link_update`
unfoldable pub link_update : ℕ → DirectedLink → PacketEvent
link_update now link = record (packet_event now EventType.link_updated) {
  transmitter = some link.from_node;
  receiver = some link.to_node;
  result = some (if link.enabled then "enabled" else "disabled");
  rssi_dbm = some link.rssi_dbm;
  snr_db = some link.snr_db;
}

-- The links of the medium, by their keys.
abbrev pub Links : Type 0
Links = List (Pair × DirectedLink)

-- `update_link`: the links and the event; `none` is the KeyError of an unknown link.
unfoldable pub update_link : ℕ → DirectedLink → Links → Option (Links × PacketEvent)
update_link now link links = elim (get_link (key link) links) [
  | none ↦ none
  | some old ↦ some (put_link link links, link_update now link)
]

unfoldable pub has_keys : Links → List Pair → Bool
has_keys links [] = true
has_keys links (k ∷ ks) = Members.member pairs k (map (λ e. e.0) links) && has_keys links ks

-- The equality of the two views of keys.
unfoldable pub same_keys : Links → Links → Bool
same_keys a b = has_keys a (map (λ e. e.0) b) && has_keys b (map (λ e. e.0) a)

abbrev pub differs : Option DirectedLink → DirectedLink → Bool
differs none link = true
differs (some old) link = not (link_eq old link)

-- `changed` of `apply_links`; every key is one of the old ones there.
unfoldable pub changed_links : Links → Links → List DirectedLink
changed_links old [] = []
changed_links old ((k, link) ∷ replacement) =
    let rest = changed_links old replacement in
    if differs (get_link k old) link then link ∷ rest else rest

-- `apply_links`; `none` is the ValueError of another set of links.
unfoldable pub apply_links : ℕ → List DirectedLink → Links → Option (Links × List PacketEvent)
apply_links now links old =
    let replacement = put_links links [] in
    if same_keys replacement old
    then some (replacement, map (link_update now) (changed_links old replacement))
    else none

unfoldable pub hardware_node : ℕ → List (String × ℕ) → Option String
hardware_node number [] = none
hardware_node number ((node, id) ∷ ids) =
    let rest = hardware_node number ids in if id == number then some node else rest

-- `_destination_node`; `hex` formats the number of a node that is not ours.
unfoldable pub destination_node : (ℕ → String) → List (String × ℕ) → ℕ → Option String
destination_node hex ids number =
    if number == 0xffffffff then some "broadcast" else elim (hardware_node number ids) [
      | some node ↦ some node
      | none ↦ if number == 0 then none else some (hex number)
    ]

-- A packet as a receiver gets it: `received` with its `rx_rssi` and `rx_snr`.
pub record Reception : Type 0 where
  pub packet : MeshPacket
  pub rx_rssi : ℤ
  pub rx_snr : ℤ

-- The injection at the end of one link, and the event that follows it.
pub record Injection : Type 0 where
  pub link : DirectedLink
  pub received : Reception
  pub event : PacketEvent

-- What one transmission hands on: events, calls of the drop handler, and injections.
pub record Transmission : Type 0 where
  pub published : List PacketEvent
  pub drops : List (String × MeshPacket × String)
  pub injections : List Injection

abbrev pub run_of : Option (String × ℕ) → Option String
run_of none = none
run_of (some (run_id, sequence)) = some run_id

abbrev pub sequence_of : Option (String × ℕ) → Option ℕ
sequence_of none = none
sequence_of (some (run_id, sequence)) = some sequence

-- The links out of a node, in the order of the dictionary.
unfoldable pub outgoing : String → Links → List DirectedLink
outgoing source [] = []
outgoing source ((k, link) ∷ links) =
    let rest = outgoing source links in if str_eq k.0 source then link ∷ rest else rest

unfoldable pub enabled_links : List DirectedLink → List DirectedLink
enabled_links [] = []
enabled_links (link ∷ links) =
    let rest = enabled_links links in if link.enabled then link ∷ rest else rest

module _ (pb : Protobuf) (now : ℕ) (transmitter : String) (p : MeshPacket)
    (correlation : Option (String × ℕ)) where
  -- The fields that the events of a transmission share.
  abbrev pub correlated_event : EventType → PacketEvent
  correlated_event kind = record (packet_event now kind) {
    transmitter = some transmitter;
    mesh_packet_id = some p.id;
    traffic_run_id = run_of correlation;
    traffic_sequence = sequence_of correlation;
    port_number = mesh_packet_port_number pb p;
  }

  unfoldable pub disabled_event : DirectedLink → PacketEvent
  disabled_event link = record (correlated_event EventType.link_disabled) {
    receiver = some link.to_node;
    result = some "link-disabled";
  }

  -- `_inject` at one link.
  unfoldable pub inject : DirectedLink → Injection
  inject link = record {
    link = link;
    received = record { packet = p; rx_rssi = link.rssi_dbm; rx_snr = link.snr_db };
    event = record (correlated_event EventType.rx_injected) {
      transmitter = some link.from_node;
      receiver = some link.to_node;
      hop_limit = some p.hop_limit;
      hop_start = some p.hop_start;
      rssi_dbm = some link.rssi_dbm;
      snr_db = some link.snr_db;
      result = some "injected-to-firmware";
    };
  }

  -- The loop of `transmit` over the links.
  unfoldable pub forward : List DirectedLink → Transmission
  forward [] = record { published = []; drops = []; injections = [] }
  forward (link ∷ links) =
      let rest = forward links in
      if link.enabled
      then record rest { injections = inject link ∷ rest.injections }
      else record rest {
        published = disabled_event link ∷ rest.published;
        drops = (transmitter, p, "link-disabled") ∷ rest.drops;
      }

  unfoldable pub rf_event :
      (ℕ → String) → List (String × ℕ) → ℕ → ℕ → List DirectedLink → PacketEvent
  rf_event hex hardware_ids payload_length airtime links =
      record (correlated_event EventType.rf_transmit) {
        intended_destination = destination_node hex hardware_ids p.to_number;
        receiver_set = map (λ link. link.to_node) (enabled_links links);
        hop_limit = some p.hop_limit;
        hop_start = some p.hop_start;
        packet_length = some payload_length;
        airtime_ms = some airtime;
        result = some "transmitted";
      }

  -- `transmit`; `airtime` is that of a payload length, and `none` is a packet that does not parse.
  unfoldable pub transmit : (ℕ → ℕ) → (ℕ → String) → List (String × ℕ) → Links → Option Transmission
  transmit airtime hex hardware_ids links = elim (mesh_packet_payload_length pb p) [
    | none ↦ none
    | some payload_length ↦
        let out = outgoing transmitter links in
        let rest = forward out in
        some (record rest {
          published =
              rf_event hex hardware_ids payload_length (airtime payload_length) out
              ∷ rest.published;
        })
  ]
