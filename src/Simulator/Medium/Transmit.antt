-- ===== src/Simulator/Medium/Transmit.antt =====
-- Who gets a transmission: `transmit` of backend/app/simulator/medium.py.
use meshtastic_lab.Base.{
  Bool, false, ◌&&◌, if◌then◌else◌, ℕ, ◌≡◌, refl, inl, inr, ap, ◌∙◌, true, String, str_eq, eq_iff,
  List, [], ◌∷◌, map, Option, some, arith, All, Bool-cases, Option-cases, subst,
}
use meshtastic_lab.Metrics.Events.{PacketEvent, EventType}
use meshtastic_lab.Metrics.Packet.{Protobuf, MeshPacket, mesh_packet_payload_length}
use meshtastic_lab.Models.Scenario.{DirectedLink, Pair, key}
use meshtastic_lab.Simulator.Medium.{
  Links, Injection, Transmission, outgoing, enabled_links, disabled_event, flag_eq, forward, inject,
  transmit, rf_event,
}

-- Every entry stands under its link's key.
abbrev pub IsKeyed : Links → Type 0
IsKeyed links = All (λ (e : Pair × DirectedLink). e.0 ≡ key e.1) links

-- The link is enabled and goes out of the transmitter, and its receiver gets the packet at the
-- link's own signal strength.
pub record IsInjected (transmitter : String) (p : MeshPacket) (i : Injection) : Type 0 where
  pub enabled : i.link.enabled ≡ true
  pub from_transmitter : i.link.from_node ≡ transmitter
  pub same_packet : i.received.packet ≡ p
  pub link_rssi : i.received.rx_rssi ≡ i.link.rssi_dbm
  pub link_snr : i.received.rx_snr ≡ i.link.snr_db

-- The links of a table that go out of a node and are enabled, or are not, in the table's order.
abbrev pub links_out : String → Bool → Links → List DirectedLink
links_out source enabled [] = []
links_out source enabled ((k, link) ∷ links) =
    let rest = links_out source enabled links in
    if str_eq link.from_node source && flag_eq link.enabled enabled then link ∷ rest else rest

-- The event tells that the packet of the transmitter did not get over a link to this receiver.
pub record IsReport (transmitter : String) (p : MeshPacket) (link : DirectedLink) (e : PacketEvent)
    : Type 0 where
  pub kind : e.event_type ≡ EventType.link_disabled
  pub sent_by : e.transmitter ≡ some transmitter
  pub missed_by : e.receiver ≡ some link.to_node
  pub of_packet : e.mesh_packet_id ≡ some p.id
  pub told : e.result ≡ some "link-disabled"

-- One event for each link, in their order.
abbrev pub AreReports : String → MeshPacket → List DirectedLink → List PacketEvent → Type 0
AreReports transmitter p [] [] = Unit
AreReports transmitter p [] (e ∷ events) = ⊥
AreReports transmitter p (link ∷ links) [] = ⊥
AreReports transmitter p (link ∷ links) (e ∷ events) =
    IsReport transmitter p link e × AreReports transmitter p links events

pub record IsForwarded (transmitter : String) (p : MeshPacket)
    (enabled disabled : List DirectedLink) (t : Transmission) : Type 0 where
  pub used : map (λ i. i.link) t.injections ≡ enabled
  pub dropped : t.drops ≡ map (λ link. (transmitter, p, "link-disabled")) disabled
  pub reported : AreReports transmitter p disabled t.published
  pub injected : All (IsInjected transmitter p) t.injections

module _ (pb : Protobuf) (now : ℕ) (transmitter : String) (p : MeshPacket)
    (correlation : Option (String × ℕ)) where
  forward-IsForwarded :
      (links : Links)
      → IsKeyed links
      → IsForwarded transmitter p
          (links_out transmitter true links)
          (links_out transmitter false links)
          (forward pb now transmitter p correlation (outgoing transmitter links))
  unfolding forward inject outgoing disabled_event flag_eq
  forward-IsForwarded [] h = record { used = refl; dropped = refl; reported = tt; injected = tt }
  forward-IsForwarded ((k, link) ∷ links) h =
      let rest = forward-IsForwarded links h.1 in
      let same : k.0 ≡ link.from_node = ap (λ (x : Pair). x.0) h.0 in
      elim (Bool-cases (str_eq link.from_node transmitter)) [
        | inl ours ↦
            let by_key = ap (λ n. str_eq n transmitter) same ∙ ours in
            elim (Bool-cases link.enabled) [
              | inl e ↦
                  simp (e, ours, by_key)
                    (record {
                      used = ap (◌∷◌ link) rest.used;
                      dropped = rest.dropped;
                      reported = rest.reported;
                      injected = (
                        record {
                          enabled = e;
                          from_transmitter = (eq_iff link.from_node transmitter).0 ours;
                          same_packet = refl;
                          link_rssi = refl;
                          link_snr = refl;
                        },
                        rest.injected,
                      );
                    })
              | inr e ↦
                  simp (e, ours, by_key)
                    (record {
                      used = rest.used;
                      dropped = ap (◌∷◌ (transmitter, p, "link-disabled")) rest.dropped;
                      reported = (
                        record {
                          kind = refl;
                          sent_by = refl;
                          missed_by = refl;
                          of_packet = refl;
                          told = refl;
                        },
                        rest.reported,
                      );
                      injected = rest.injected;
                    })
            ]
        | inr theirs ↦
            let by_key = ap (λ n. str_eq n transmitter) same ∙ theirs in simp (theirs, by_key) rest
      ]

  receivers-lem :
      (links : Links)
      → IsKeyed links
      → map (λ link. link.to_node) (enabled_links (outgoing transmitter links))
        ≡ map (λ link. link.to_node) (links_out transmitter true links)
  unfolding outgoing enabled_links flag_eq
  receivers-lem [] h = refl
  receivers-lem ((k, link) ∷ links) h =
      let rest = receivers-lem links h.1 in
      let same : k.0 ≡ link.from_node = ap (λ (x : Pair). x.0) h.0 in
      elim (Bool-cases (str_eq link.from_node transmitter)) [
        | inl ours ↦
            let by_key = ap (λ n. str_eq n transmitter) same ∙ ours in
            elim (Bool-cases link.enabled) [
              | inl e ↦ simp (e, ours, by_key) (ap (◌∷◌ link.to_node) rest)
              | inr e ↦ simp (e, ours, by_key) rest
            ]
        | inr theirs ↦
            let by_key = ap (λ n. str_eq n transmitter) same ∙ theirs in simp (theirs, by_key) rest
      ]

  -- What a transmission that returns hands on.
  pub record IsTransmitted (links : Links) (t : Transmission) : Type 0 where
    pub first : PacketEvent
    pub later : List PacketEvent
    pub published : t.published ≡ first ∷ later
    pub names_receivers :
        first.receiver_set ≡ map (λ link. link.to_node) (links_out transmitter true links)
    pub used : map (λ i. i.link) t.injections ≡ links_out transmitter true links
    pub injected : All (IsInjected transmitter p) t.injections
    pub dropped :
        t.drops
        ≡ map (λ link. (transmitter, p, "link-disabled")) (links_out transmitter false links)
    pub reported : AreReports transmitter p (links_out transmitter false links) later

  -- Over a table whose entries stand under their links' keys, a transmission that returns injects the
  -- packet over exactly the enabled links out of the transmitter, in the table's order, at each
  -- with the link's own strength; hands the drop handler the packet once for each link out of it that
  -- is disabled; and publishes first an event whose receiver set is the receivers of the enabled
  -- links, and then for each disabled one an event that names the transmitter, the packet, the
  -- receiver that missed it and the reason.
  pub transmit-IsTransmitted :
      (airtime : ℕ → ℕ) (hex : ℕ → String) (hardware_ids : List (String × ℕ)) (links : Links)
      (t : Transmission)
      → IsKeyed links
      → transmit pb now transmitter p correlation airtime hex hardware_ids links ≡ some t
      → IsTransmitted links t
  unfolding transmit rf_event
  transmit-IsTransmitted airtime hex hardware_ids links t keyed h =
      elim (Option-cases (mesh_packet_payload_length pb p)) [
        | inl e ↦ absurd (ground arith)
        | inr (n, e) ↦
            let out = outgoing transmitter links in
            let rest = forward-IsForwarded links keyed in
            let result : Transmission = record (forward pb now transmitter p correlation out) {
              published =
                  rf_event pb now transmitter p correlation hex hardware_ids n (airtime n) out
                  ∷ (forward pb now transmitter p correlation out).published;
            } in
            let same : result ≡ t = ground arith in
            subst (IsTransmitted links) same (record {
              first = rf_event pb now transmitter p correlation hex hardware_ids n (airtime n) out;
              later = (forward pb now transmitter p correlation out).published;
              published = refl;
              names_receivers = receivers-lem links keyed;
              used = rest.used;
              injected = rest.injected;
              dropped = rest.dropped;
              reported = rest.reported;
            })
      ]
