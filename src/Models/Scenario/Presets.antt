-- ===== src/Models/Scenario/Presets.antt =====
-- What `apply_topology_preset` makes of a scenario: backend/app/models/scenario.py.
use mathlib.Core.List.{Mem, Nodup}
use meshtastic_lab.Base.{
  suc, ◌↔◌, ◌⊎◌, is_some, ◌≡◌, refl, ◌∙◌, sym, ap, subst, inl, inr, Bool, true, false, ◌||◌, String,
  str_eq, eq_iff, List, [], ◌∷◌, map, some, arith, All, Bool-cases, Option-cases,
}
use meshtastic_lab.Base.Members.{member, member_iff}
use meshtastic_lab.Models.Scenario.{
  texts, pairs, Scenario, DirectedLink, TopologyPreset, full_mesh, line, star, all_isolated, Pair,
  pair_eq, pair_eq_iff, key, node_ids, put_link, put_links, get_link, preset_enables, links_between,
  generate_links, set_enabled, apply_topology_preset, default_rssi, default_snr,
}
use meshtastic_lab.Models.Scenario.Graph.{IsGraph, IsLink}
use meshtastic_lab.Models.Scenario.Generated.{
  index_of, FollowsPreset, Nodup-Indexed, links_between-FollowsPreset, links_between_complete,
}

module _ {κ} (P : DirectedLink → Type κ) where
  -- A value of the dictionary has its key and the property.
  abbrev Holds : Pair × DirectedLink → Type κ
  Holds e = (key e.1 ≡ e.0) × P e.1

  put_link-Holds :
      (link : DirectedLink) (m : List (Pair × DirectedLink))
      → P link
      → All Holds m
      → All Holds (put_link link m)
  unfolding put_link
  put_link-Holds link [] p h = ((refl, p), tt)
  put_link-Holds link ((k, l) ∷ m) p h = elim (Bool-cases (pair_eq k (key link))) [
    | inl e ↦ rw (put_link, e) ((sym ((pair_eq_iff k (key link)).0 e), p), h.1)
    | inr e ↦ rw (put_link, e) (h.0, put_link-Holds link m p h.1)
  ]

  put_links-Holds :
      (links : List DirectedLink) (m : List (Pair × DirectedLink))
      → All P links
      → All Holds m
      → All Holds (put_links links m)
  unfolding put_links
  put_links-Holds [] m p h = h
  put_links-Holds (link ∷ links) m p h =
      put_links-Holds links (put_link link m) p.1 (put_link-Holds link m p.0 h)

  get_link-Holds :
      (k : Pair) (m : List (Pair × DirectedLink)) (l : DirectedLink)
      → All Holds m
      → get_link k m ≡ some l
      → (key l ≡ k) × P l
  unfolding get_link
  get_link-Holds k [] l h e = absurd (ground arith)
  get_link-Holds k ((j, g) ∷ m) l h e = elim (Bool-cases (pair_eq j k)) [
    | inl same ↦
        let found : g ≡ l = ground arith in
        (ap key (sym found) ∙ h.0.0 ∙ (pair_eq_iff j k).0 same, subst P found h.0.1)
    | inr other ↦ get_link-Holds k m l h.1 (ground arith)
  ]

put_link-keeps :
    (k : Pair) (link : DirectedLink) (m : List (Pair × DirectedLink))
    → is_some (get_link k m) || pair_eq k (key link) ≡ true
    → is_some (get_link k (put_link link m)) ≡ true
unfolding put_link get_link
put_link-keeps k link [] h = ground (arith, pair_eq_iff k (key link), pair_eq_iff (key link) k)
put_link-keeps k link ((j, l) ∷ m) h = ground (
  arith,
  put_link-keeps k link m,
  pair_eq_iff j k,
  pair_eq_iff j (key link),
  pair_eq_iff k (key link),
)

put_links-keeps :
    (k : Pair) (links : List DirectedLink) (m : List (Pair × DirectedLink))
    → is_some (get_link k m) || member pairs k (map key links) ≡ true
    → is_some (get_link k (put_links links m)) ≡ true
unfolding put_links member
put_links-keeps k [] m h = ground arith
put_links-keeps k (link ∷ links) m h =
    put_links-keeps k links (put_link link m) (ground (arith, put_link-keeps k link m))

-- The links with the presets' settings.
record AreSet (preset : TopologyPreset) (hub : String) (ids : List String)
    (links links' : List DirectedLink) : Type 0 where
  same_keys : map key links' ≡ map key links
  known : All (IsLink ids) links'
  follows : All (FollowsPreset preset hub ids) links'

set_enabled-AreSet :
    (preset : TopologyPreset) (hub : String) (ids : List String)
    (generated : List (Pair × DirectedLink)) (links : List DirectedLink)
    → All (Holds (FollowsPreset preset hub ids)) generated
    → ((l : DirectedLink) → IsLink ids l → is_some (get_link (key l) generated) ≡ true)
    → All (IsLink ids) links
    → (links' : List DirectedLink) × (set_enabled generated links ≡ some links')
      × AreSet preset hub ids links links'
unfolding set_enabled
set_enabled-AreSet preset hub ids generated [] h total known =
    ([], refl, record { same_keys = refl; known = tt; follows = tt })
set_enabled-AreSet preset hub ids generated (l ∷ ls) h total known =
    let (rest, e, v) = set_enabled-AreSet preset hub ids generated ls h total known.1 in
    elim (Option-cases (get_link (key l) generated)) [
      | inl missing ↦ absurd (let there = total l known.0 in ground arith)
      | inr (g, found) ↦
          let (same, follows) =
            get_link-Holds (FollowsPreset preset hub ids) (key l) generated g h found in
          (
            record l { enabled = g.enabled } ∷ rest,
            rw (set_enabled, found, e) refl,
            record {
              same_keys = ap (◌∷◌ (key l)) v.same_keys;
              known = (
                record {
                  not_self = known.0.not_self;
                  from_known = known.0.from_known;
                  to_known = known.0.to_known;
                },
                v.known,
              );
              follows = (
                subst
                    (λ k.
                      g.enabled
                      ≡ preset_enables preset hub (index_of k.0 ids) k.0 (index_of k.1 ids) k.1)
                    same follows,
                v.follows,
              );
            },
          )
    ]

-- What a preset promises of a link between nodes of a list, whose first is the hub.
abbrev pub IsEnabledBy : TopologyPreset → String → List String → DirectedLink → Type 0
IsEnabledBy full_mesh hub ids link = link.enabled ≡ true
IsEnabledBy line hub ids link = (link.enabled ≡ true) ↔ (
    (suc (index_of link.from_node ids) ≡ index_of link.to_node ids)
    ⊎ (suc (index_of link.to_node ids) ≡ index_of link.from_node ids))
IsEnabledBy star hub ids link =
    (link.enabled ≡ true) ↔ ((link.from_node ≡ hub) ⊎ (link.to_node ≡ hub))
IsEnabledBy all_isolated hub ids link = link.enabled ≡ false

FollowsPreset-IsEnabledBy :
    (preset : TopologyPreset) (hub : String) (ids : List String) (link : DirectedLink)
    → FollowsPreset preset hub ids link
    → IsEnabledBy preset hub ids link
unfolding preset_enables
FollowsPreset-IsEnabledBy full_mesh hub ids link h = h
FollowsPreset-IsEnabledBy line hub ids link h = (
  λ e. ground (arith, h, e),
  λ e. elim e [ inl up ↦ ground (arith, h, up) | inr down ↦ ground (arith, h, down) ],
)
FollowsPreset-IsEnabledBy star hub ids link h = (
  λ e. elim (Bool-cases (str_eq link.from_node hub)) [
    | inl from_hub ↦ inl ((eq_iff link.from_node hub).0 from_hub)
    | inr other ↦ inr ((eq_iff link.to_node hub).0 (ground arith))
  ],
  λ e. elim e [
    | inl from_hub ↦ let t = (eq_iff link.from_node hub).1 from_hub in ground (arith, h, t)
    | inr to_hub ↦ let t = (eq_iff link.to_node hub).1 to_hub in ground (arith, h, t)
  ],
)
FollowsPreset-IsEnabledBy all_isolated hub ids link h = h

All-IsEnabledBy :
    (preset : TopologyPreset) (hub : String) (ids : List String) (links : List DirectedLink)
    → All (FollowsPreset preset hub ids) links
    → All (IsEnabledBy preset hub ids) links
All-IsEnabledBy preset hub ids [] h = tt
All-IsEnabledBy preset hub ids (l ∷ ls) h =
    (FollowsPreset-IsEnabledBy preset hub ids l h.0, All-IsEnabledBy preset hub ids ls h.1)

-- The scenario with the preset's links.
pub record IsPreset (preset : TopologyPreset) (hub : String) (s s' : Scenario) : Type 0 where
  pub graph : IsGraph s'
  pub same_nodes : s'.nodes ≡ s.nodes
  pub same_keys : map key s'.links ≡ map key s.links
  pub enabled : All (IsEnabledBy preset hub (node_ids s)) s'.links

module _ (s : Scenario) (preset : TopologyPreset) (hub : String) (others : List String)
    (nodes : node_ids s ≡ hub ∷ others) (g : IsGraph s) where
  abbrev generated : List DirectedLink
  generated = links_between preset default_rssi default_snr hub 0 (node_ids s) (node_ids s)

  generated-FollowsPreset :
      All (Holds (FollowsPreset preset hub (node_ids s))) (put_links generated [])
  generated-FollowsPreset =
      let indexed = Nodup-Indexed (node_ids s) g.ids_unique in
      put_links-Holds (FollowsPreset preset hub (node_ids s)) generated []
        (links_between-FollowsPreset preset default_rssi default_snr hub (node_ids s) 0 (node_ids s)
          (node_ids s) indexed indexed)
        tt

  generated-total :
      (l : DirectedLink)
      → IsLink (node_ids s) l
      → is_some (get_link (key l) (put_links generated [])) ≡ true
  unfolding get_link
  generated-total l v = put_links-keeps (key l) generated [] (
      links_between_complete preset default_rssi default_snr hub (node_ids s) 0 (node_ids s)
        (node_ids s) l.from_node l.to_node
        ((member_iff texts l.from_node (node_ids s)).1 v.from_known)
        ((member_iff texts l.to_node (node_ids s)).1 v.to_known)
        (differ (str_eq l.from_node l.to_node) refl))
    where
      differ : (b : Bool) → str_eq l.from_node l.to_node ≡ b → str_eq l.from_node l.to_node ≡ false
      differ true e = absurd (v.not_self ((eq_iff l.from_node l.to_node).0 e))
      differ false e = e

  generate_links-generated :
      generate_links (node_ids s) preset default_rssi default_snr ≡ some generated
  unfolding generate_links
  generate_links-generated =
      subst
        (λ ids.
          generate_links ids preset default_rssi default_snr
          ≡ some (links_between preset default_rssi default_snr hub 0 ids ids))
        (sym nodes) refl

  -- Of a valid scenario with at least one node, a preset makes a valid scenario with the same nodes
  -- and the same links, in which each link is enabled exactly if the preset says so of its ends:
  -- all in a full mesh, those of neighbours in the list in a line, those of the first node in a
  -- star, and none where all are isolated.
  pub apply_topology_preset-IsPreset :
      (s' : Scenario) × (apply_topology_preset s preset ≡ some s') × IsPreset preset hub s s'
  unfolding apply_topology_preset
  apply_topology_preset-IsPreset =
      let (links, e, v) =
        set_enabled-AreSet preset hub (node_ids s) (put_links generated []) s.links
          generated-FollowsPreset generated-total g.links_known in
      (
        record s { links = links },
        rw (apply_topology_preset, generate_links-generated, e) refl,
        record {
          graph = record {
            counted = g.counted;
            ids_unique = g.ids_unique;
            ports_unique = g.ports_unique;
            links_known = v.known;
            links_unique = subst Nodup (sym v.same_keys) g.links_unique;
            complete =
                λ a b m n other. subst (Mem (a, b)) (sym v.same_keys) (g.complete a b m n other);
          };
          same_nodes = refl;
          same_keys = v.same_keys;
          enabled = All-IsEnabledBy preset hub (node_ids s) links v.follows;
        },
      )
