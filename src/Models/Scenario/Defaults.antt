-- ===== src/Models/Scenario/Defaults.antt =====
-- The scenario that the program starts with: `default_nodes` and `default_scenario` of
-- backend/app/models/scenario.py.
use Prim.Native.String.{◌++◌ as append}
use meshtastic_lab.Base.{
  ℕ, zero, suc, ◌+◌, ◌-◌, ◌/◌, ◌%◌, ◌≡◌, ◌≤◌, refl, true, false, ◌||◌, String, List, [], ◌∷◌,
  Option, none, some, Bool, Option-cases, inl, inr, arith, ltb, ◌==◌, if◌then◌else◌, map,
}
use meshtastic_lab.Base.Members.{member, distinct}
use meshtastic_lab.Models.Scenario.{
  Scenario, ScenarioNode, RfSettings, NodeRole, full_mesh, generate_links, default_rssi,
  default_snr, links_from, links_between, validate_graph, check_links, missing, missing_from,
  pair_eq, preset_enables,
}
use meshtastic_lab.Models.Scenario.Graph.{IsGraph, validate_graph_iff}

abbrev pub public_port_min : ℕ
public_port_min = 45001

abbrev pub public_port_max : ℕ
public_port_max = 45010

digit : ℕ → String
digit zero = "0"
digit (suc zero) = "1"
digit (suc (suc zero)) = "2"
digit (suc (suc (suc zero))) = "3"
digit (suc (suc (suc (suc zero)))) = "4"
digit (suc (suc (suc (suc (suc zero))))) = "5"
digit (suc (suc (suc (suc (suc (suc zero)))))) = "6"
digit (suc (suc (suc (suc (suc (suc (suc zero))))))) = "7"
digit (suc (suc (suc (suc (suc (suc (suc (suc zero)))))))) = "8"
digit (suc (suc (suc (suc (suc (suc (suc (suc (suc n))))))))) = "9"

-- The decimal text of a number of at most two digits.
unfoldable pub decimal : ℕ → String
unfolding digit
decimal n = if ltb n 10 then digit n else append (digit (n / 10)) (digit (n % 10))

-- The nodes from one index on; `none` is a port that the model of a node does not take.
unfoldable pub nodes_from : ℕ → ℕ → Option (List ScenarioNode)
unfolding decimal
nodes_from index zero = some []
nodes_from index (suc count) =
    let port = public_port_min + index - 1 in
    let rest = nodes_from (suc index) count in
    if ltb port public_port_min || ltb public_port_max port then none else elim rest [
      | none ↦ none
      | some nodes ↦ some (
          record {
            id = append "node-" (decimal index);
            display_name = append "Node " (decimal index);
            role = NodeRole.client;
            api_port = port;
          }
          ∷ nodes)
    ]

-- `default_nodes`; `none` is the ValueError of another count, or of a node.
unfoldable pub default_nodes : ℕ → Option (List ScenarioNode)
default_nodes count = if ltb count 2 || ltb 10 count then none else nodes_from 1 count

abbrev pub default_rf : RfSettings
default_rf = record {
  region = "US";
  modem_preset = "LONG_FAST";
  frequency_slot = 20;
  hop_limit = 4;
}

abbrev pub default_name : ℕ → String
default_name count =
    if count == 5 then "five-node-full-mesh" else append (decimal count) "-node-full-mesh"

-- `default_scenario` before its validation.
unfoldable pub unvalidated_scenario : ℕ → Option Scenario
unvalidated_scenario count = elim (default_nodes count) [
  | none ↦ none
  | some nodes ↦ elim (generate_links (map (λ n. n.id) nodes) full_mesh default_rssi default_snr) [
    | none ↦ none
    | some links ↦ some (record {
      name = default_name count;
      seed = 1;
      node_count = count;
      rf = default_rf;
      nodes = nodes;
      links = links;
      fresh_state = true;
    })
  ]
]

unfoldable pub validated : Option Scenario → Option Scenario
validated none = none
validated (some s) = elim (validate_graph s) [ none ↦ some s | some error ↦ none ]

-- `default_scenario`; `none` is a ValueError.
unfoldable pub default_scenario : ℕ → Option Scenario
default_scenario count = validated (unvalidated_scenario count)

abbrev pub returns : Option Scenario → Bool
returns none = false
returns (some s) = true

-- Every count is tried.
default_returns : (count : ℕ) → 2 ≤ count → count ≤ 10 → returns (default_scenario count) ≡ true
unfolding default_scenario validated unvalidated_scenario default_nodes nodes_from decimal
    generate_links links_between links_from preset_enables validate_graph check_links missing
    missing_from pair_eq member distinct
default_returns zero low high = absurd (omega arith)
default_returns (suc zero) low high = absurd (omega arith)
default_returns (suc (suc zero)) low high = refl
default_returns (suc (suc (suc zero))) low high = refl
default_returns (suc (suc (suc (suc zero)))) low high = refl
default_returns (suc (suc (suc (suc (suc zero))))) low high = refl
default_returns (suc (suc (suc (suc (suc (suc zero)))))) low high = refl
default_returns (suc (suc (suc (suc (suc (suc (suc zero))))))) low high = refl
default_returns (suc (suc (suc (suc (suc (suc (suc (suc zero)))))))) low high = refl
default_returns (suc (suc (suc (suc (suc (suc (suc (suc (suc zero))))))))) low high = refl
default_returns (suc (suc (suc (suc (suc (suc (suc (suc (suc (suc zero)))))))))) low high = refl
default_returns (suc (suc (suc (suc (suc (suc (suc (suc (suc (suc (suc n))))))))))) low high =
    absurd (omega arith)

validated-IsGraph :
    (o : Option Scenario)
    → returns (validated o) ≡ true
    → (s : Scenario) × (validated o ≡ some s) × (o ≡ some s) × IsGraph s
unfolding validated
validated-IsGraph none h = cc
validated-IsGraph (some s) h = elim (Option-cases (validate_graph s)) [
  | inl e ↦ (s, rw (validated, e) refl, refl, (validate_graph_iff s).0 e)
  | inr (error, e) ↦
      absurd
        (let stuck : returns (validated (some s)) ≡ false = rw (validated, e) refl in ground arith)
]

-- For every count from 2 to 10 the default scenario is built, passes its validation and is a
-- complete graph of nodes with their own ids and ports.
default_scenario-IsGraph :
    (count : ℕ)
    → 2 ≤ count
    → count ≤ 10
    → (s : Scenario) × (default_scenario count ≡ some s) × IsGraph s
unfolding default_scenario
default_scenario-IsGraph count low high =
    let (s, e, built, g) =
      validated-IsGraph (unvalidated_scenario count) (default_returns count low high) in
    (s, e, g)
