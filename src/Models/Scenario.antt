-- ===== src/Models/Scenario.antt =====
-- Scenarios: backend/app/models/scenario.py.
-- Dictionaries are association lists and sets are lists with a membership test. What pydantic
-- checks of one field alone (patterns, ranges, base64) is left to it.
pub mod Graph
pub mod Generated
pub mod Presets
pub mod Defaults
use mathlib.Core.List.{foldl}
use meshtastic_lab.Base.{
  ℕ, zero, suc, ◌+◌, ◌-◌, ◌≡◌, ◌↔◌, refl, ap, Bool, true, false, not, ◌&&◌, ◌||◌, String, str_eq,
  eq_iff, List, [], ◌∷◌, ◌++◌, map, Option, none, some, arith, ltb, leb, ◌==◌, ==_iff,
  if◌then◌else◌, length, is_empty, ℤ, pos, negsuc,
}
use meshtastic_lab.Base.Members.{Equality, member, distinct}

pub data NodeRole : Type 0 where
  client client_mute router repeater : NodeRole

pub data TopologyPreset : Type 0 where
  full_mesh line star all_isolated : TopologyPreset

-- `collision_mode` has the one value `native`, and is left out.
pub record RfSettings : Type 0 where
  pub region : String
  pub modem_preset : String
  pub frequency_slot : ℕ
  pub hop_limit : ℕ

pub record ScenarioNode : Type 0 where
  pub id : String
  pub display_name : String
  pub role : NodeRole
  pub api_port : ℕ

pub record DirectedLink : Type 0 where
  pub from_node : String
  pub to_node : String
  pub enabled : Bool
  pub rssi_dbm : ℤ
  pub snr_db : ℤ

-- The schema version and the channel are left out.
pub record Scenario : Type 0 where
  pub name : String
  pub seed : ℕ
  pub node_count : ℕ
  pub rf : RfSettings
  pub nodes : List ScenarioNode
  pub links : List DirectedLink
  pub fresh_state : Bool

-- A key `(from, to)` of a link.
abbrev pub Pair : Type 0
Pair = String × String

abbrev pub key : DirectedLink → Pair
key link = (link.from_node, link.to_node)

unfoldable pub pair_eq : Pair → Pair → Bool
pair_eq a b = str_eq a.0 b.0 && str_eq a.1 b.1

pub pair_eq_iff : (a b : Pair) → (pair_eq a b ≡ true) ↔ (a ≡ b)
unfolding pair_eq
pair_eq_iff (a, b) (c, d) = ground (arith, eq_iff a c, eq_iff b d)

abbrev pub texts : Equality String
texts = record { same = str_eq; same_iff = eq_iff }

abbrev pub pairs : Equality Pair
pairs = record { same = pair_eq; same_iff = pair_eq_iff }

abbrev pub numbers : Equality ℕ
numbers = record { same = ◌==◌; same_iff = ==_iff }

abbrev pub node_ids : Scenario → List String
node_ids s = map (λ n. n.id) s.nodes

abbrev pub ports : Scenario → List ℕ
ports s = map (λ n. n.api_port) s.nodes

pub data GraphError : Type 0 where
  node_count_mismatch ids_not_unique ports_not_unique self_link : GraphError
  unknown_node duplicate_link missing_links : GraphError

-- The loop over the links; `link_keys` are those of the links before. `none` is no error.
unfoldable pub check_links : List String → List Pair → List DirectedLink → Option GraphError
check_links known link_keys [] = none
check_links known link_keys (link ∷ links) =
    let rest = check_links known (key link ∷ link_keys) links in
    if str_eq link.from_node link.to_node
    then some self_link
    else if not (member texts link.from_node known) || not (member texts link.to_node known)
    then some unknown_node
    else if member pairs (key link) link_keys
    then some duplicate_link
    else rest

unfoldable pub missing_from : String → List Pair → List String → List Pair
missing_from source link_keys [] = []
missing_from source link_keys (target ∷ targets) =
    let rest = missing_from source link_keys targets in
    if not (str_eq source target) && not (member pairs (source, target) link_keys)
    then (source, target) ∷ rest
    else rest

-- The comprehension over all ordered pairs of nodes.
unfoldable pub missing : List String → List String → List Pair → List Pair
missing [] targets link_keys = []
missing (source ∷ sources) targets link_keys =
    missing_from source link_keys targets ++ missing sources targets link_keys

-- `Scenario.validate_graph`: the first error, or none.
unfoldable pub validate_graph : Scenario → Option GraphError
validate_graph s =
    let ids = node_ids s in
    if not (s.node_count == length s.nodes)
    then some node_count_mismatch
    else if not (length ids == length (distinct texts ids))
    then some ids_not_unique
    else if not (length (ports s) == length (distinct numbers (ports s)))
    then some ports_not_unique
    else elim (check_links ids [] s.links) [
      | some e ↦ some e
      | none ↦ if is_empty (missing ids ids (map key s.links)) then none else some missing_links
    ]

-- A dictionary of links, in insertion order; a later link of a key replaces the value.
unfoldable pub put_link : DirectedLink → List (Pair × DirectedLink) → List (Pair × DirectedLink)
put_link link [] = (key link, link) ∷ []
put_link link ((k, l) ∷ m) =
    if pair_eq k (key link) then (k, link) ∷ m else (k, l) ∷ put_link link m

unfoldable pub put_links :
    List DirectedLink → List (Pair × DirectedLink) → List (Pair × DirectedLink)
put_links [] m = m
put_links (link ∷ links) m = put_links links (put_link link m)

unfoldable pub get_link : Pair → List (Pair × DirectedLink) → Option DirectedLink
get_link k [] = none
get_link k ((j, l) ∷ m) = if pair_eq j k then some l else get_link k m

-- `Scenario.link_map`
unfoldable pub link_map : Scenario → List (Pair × DirectedLink)
unfolding put_links
link_map s = put_links s.links []

-- `abs(source_index - target_index)`
abbrev distance : ℕ → ℕ → ℕ
distance a b = (a - b) + (b - a)

-- Whether a preset enables the link from one position to another.
unfoldable pub preset_enables : TopologyPreset → String → ℕ → String → ℕ → String → Bool
preset_enables full_mesh hub i source j target = true
preset_enables line hub i source j target = distance i j == 1
preset_enables star hub i source j target = str_eq source hub || str_eq target hub
preset_enables all_isolated hub i source j target = false

links_from : TopologyPreset → ℤ → ℤ → String → ℕ → String → ℕ → List String → List DirectedLink
links_from preset rssi snr hub i source j [] = []
links_from preset rssi snr hub i source j (target ∷ targets) =
    let rest = links_from preset rssi snr hub i source (suc j) targets in
    if str_eq source target
    then rest
    else record {
      from_node = source;
      to_node = target;
      enabled = preset_enables preset hub i source j target;
      rssi_dbm = rssi;
      snr_db = snr;
    }
      ∷ rest

pub links_between :
    TopologyPreset → ℤ → ℤ → String → ℕ → List String → List String → List DirectedLink
links_between preset rssi snr hub i [] targets = []
links_between preset rssi snr hub i (source ∷ sources) targets =
    links_from preset rssi snr hub i source 0 targets
    ++ links_between preset rssi snr hub (suc i) sources targets

-- `generate_links`; `none` is the IndexError of `node_ids[0]` on no nodes.
pub generate_links : List String → TopologyPreset → ℤ → ℤ → Option (List DirectedLink)
generate_links [] preset rssi snr = none
generate_links (hub ∷ ids) preset rssi snr =
    some (links_between preset rssi snr hub 0 (hub ∷ ids) (hub ∷ ids))

-- The links with `enabled` taken from the generated ones; `none` is a KeyError.
set_enabled : List (Pair × DirectedLink) → List DirectedLink → Option (List DirectedLink)
set_enabled generated [] = some []
set_enabled generated (link ∷ links) = elim (get_link (key link) generated) [
  | none ↦ none
  | some g ↦ elim (set_enabled generated links) [
    | none ↦ none
    | some rest ↦ some (record link { enabled = g.enabled } ∷ rest)
  ]
]

-- The default strengths of `generate_links`: -85 dBm and 8 dB.
abbrev pub default_rssi : ℤ
default_rssi = negsuc 84

abbrev pub default_snr : ℤ
default_snr = pos 8

-- `apply_topology_preset`; the new copy is not validated again.
pub apply_topology_preset : Scenario → TopologyPreset → Option Scenario
apply_topology_preset s preset =
    elim (generate_links (node_ids s) preset default_rssi default_snr) [
      | none ↦ none
      | some generated ↦ elim (set_enabled (put_links generated []) s.links) [
        | none ↦ none
        | some links ↦ some (record s { links = links })
      ]
    ]
