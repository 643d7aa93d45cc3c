-- ===== src/Tests/Scenarios.antt =====
-- Concrete scenarios for backend/app/models/scenario.py.
use meshtastic_lab.Base.{◌≡◌, ◌↔◌, refl, true, String, [], ◌∷◌, none, some, pos, negsuc, ℕ}
use meshtastic_lab.Base.Members.{member, distinct}
use meshtastic_lab.Models.Scenario.{
  Scenario, ScenarioNode, DirectedLink, NodeRole, validate_graph, check_links, missing,
  missing_from, pair_eq, star, apply_topology_preset,
}
use meshtastic_lab.Models.Scenario.Presets.{IsPreset, apply_topology_preset-IsPreset}
use meshtastic_lab.Models.Scenario.Graph.{IsGraph, validate_graph_iff}

abbrev node : String → ℕ → ScenarioNode
node id port = record { id = id; display_name = id; role = NodeRole.client; api_port = port }

abbrev link : String → String → DirectedLink
link a b = record {
  from_node = a;
  to_node = b;
  enabled = true;
  rssi_dbm = negsuc 84;
  snr_db = pos 8;
}

abbrev pub pair_scenario : Scenario
pair_scenario = record {
  name = "two";
  seed = 1;
  node_count = 2;
  rf = record { region = "US"; modem_preset = "LongFast"; frequency_slot = 20; hop_limit = 3 };
  nodes = node "a" 45001 ∷ node "b" 45002 ∷ [];
  links = link "a" "b" ∷ link "b" "a" ∷ [];
  fresh_state = true;
}

validate_graph_iff_example : (validate_graph pair_scenario ≡ none) ↔ IsGraph pair_scenario
validate_graph_iff_example = validate_graph_iff pair_scenario

pair-valid : validate_graph pair_scenario ≡ none
unfolding validate_graph check_links missing missing_from member distinct pair_eq
pair-valid = refl

pub pair-IsGraph : IsGraph pair_scenario
pair-IsGraph = (validate_graph_iff pair_scenario).0 pair-valid

apply_topology_preset-IsPreset_example :
    (s' : Scenario) × (apply_topology_preset pair_scenario star ≡ some s')
    × IsPreset star "a" pair_scenario s'
apply_topology_preset-IsPreset_example =
    apply_topology_preset-IsPreset pair_scenario star "a" ("b" ∷ []) refl pair-IsGraph
