-- ===== src/Simulator/Service/Topology.antt =====
-- Changes of the links while the simulation runs: `update_links`, `apply_topology` and
-- `_apply_runtime_scenario` of backend/app/simulator/service.py.
use meshtastic_lab.Base.{
  ℕ, Bool, true, false, not, ◌&&◌, ◌||◌, List, [], ◌∷◌, Option, none, some, ◌==◌, if◌then◌else◌,
  length, is_empty, is_some,
}
use meshtastic_lab.Metrics.Events.{PacketEvent, EventBroker, publish}
use meshtastic_lab.Metrics.Packet.{Protobuf}
use meshtastic_lab.Models.Scenario.{
  Scenario, DirectedLink, TopologyPreset, key, put_links, get_link, link_map, apply_topology_preset,
}
use meshtastic_lab.Simulator.Medium.{Links, differs, apply_links}
use meshtastic_lab.Simulator.Service.{
  LifecycleState, stopped, running, Conflict, SimulatorService, Commanded, done, conflict, broken,
}
use meshtastic_lab.Traffic.Controller.Radio.{has_topology_change_capacity, record_topology_change}
use meshtastic_lab.Traffic.Runner.{Runner, with_controller}

-- `changed`: the links that differ from the ones before; a link of a new key is a KeyError in the
-- code, and counts as changed here.
unfoldable pub differing : Links → List DirectedLink → List DirectedLink
differing previous [] = []
differing previous (link ∷ links) =
    let rest = differing previous links in
    if differs (get_link (key link) previous) link then link ∷ rest else rest

-- The events of the medium as the broker publishes them, with their sequence numbers.
unfoldable pub publish_all : List PacketEvent → EventBroker → EventBroker × List PacketEvent
publish_all [] broker = (broker, [])
publish_all (event ∷ events) broker =
    let (later, published) = publish event broker in
    let (last, rest) = publish_all events later in (last, published ∷ rest)

abbrev pub is_running : LifecycleState → Bool
is_running running = true
is_running other = false

module _ (pb : Protobuf) where
  -- The loop over the events and the links; `none` is the error of lists of different lengths, or
  -- of a full timeline.
  unfoldable pub record_changes : List PacketEvent → List DirectedLink → Runner → Option Runner
  record_changes [] [] r = some r
  record_changes [] (link ∷ links) r = none
  record_changes (event ∷ events) [] r = none
  record_changes (event ∷ events) (link ∷ links) r =
      elim (record_topology_change pb event link r.controller) [
        | none ↦ none
        | some c ↦ record_changes events links (with_controller c r)
      ]

  -- The end of `_apply_runtime_scenario`, with the controller if there is one.
  unfoldable pub note_changes : List PacketEvent → List DirectedLink → SimulatorService → Commanded
  note_changes events changed s = elim s.traffic [
    | none ↦ done s
    | some r ↦ elim (record_changes events changed r) [
      | none ↦ broken s
      | some later ↦ done (record s { traffic = some later })
    ]
  ]

  abbrev pub has_capacity : ℕ → Option Runner → Bool
  has_capacity additional none = true
  has_capacity additional (some r) = has_topology_change_capacity pb additional r.controller

  -- `_apply_runtime_scenario`
  unfoldable pub apply_runtime_scenario : ℕ → Scenario → SimulatorService → Commanded
  apply_runtime_scenario now updated s = elim s.medium [
    | none ↦ broken s
    | some links ↦
        let changed = differing (link_map s.scenario) updated.links in
        if not (has_capacity (length changed) s.traffic)
        then conflict Conflict.topology_history_full s
        else elim (apply_links now updated.links links) [
          | none ↦ broken s
          | some applied ↦
              let (broker, events) = publish_all applied.1 s.event_broker in
              note_changes events changed
                (record s { medium = some applied.0; event_broker = broker; scenario = updated })
        ]
  ]

  -- The links with the updates of their keys.
  unfoldable pub updated_links : Links → List DirectedLink → List DirectedLink
  updated_links updates [] = []
  updated_links updates (current ∷ links) =
      let rest = updated_links updates links in
      elim (get_link (key current) updates) [ none ↦ current ∷ rest | some link ↦ link ∷ rest ]

  -- Every key of the updates is one of the scenario's.
  unfoldable pub all_existing : Links → Links → Bool
  all_existing [] existing = true
  all_existing ((k, link) ∷ updates) existing =
      is_some (get_link k existing) && all_existing updates existing

  -- `update_links`
  unfoldable pub update_links : ℕ → List DirectedLink → SimulatorService → Commanded
  update_links now updates s =
      let update_map = put_links updates [] in
      if is_empty updates
      then conflict Conflict.invalid_link_update s
      else if not (length update_map == length updates)
      then conflict Conflict.invalid_link_update s
      else if not (is_running s.state) || not (is_some s.medium)
      then conflict Conflict.invalid_lifecycle_state s
      else if not (all_existing update_map (link_map s.scenario))
      then conflict Conflict.unknown_link s
      else apply_runtime_scenario now
          (record (s.scenario) { links = updated_links update_map s.scenario.links }) s

  -- `apply_topology` with the scenario that the preset makes.
  abbrev pub apply_in : LifecycleState → ℕ → Scenario → SimulatorService → Commanded
  apply_in stopped now updated s = done (record s { scenario = updated })
  apply_in other now updated s =
      if not (is_running s.state) || not (is_some s.medium)
      then conflict Conflict.invalid_lifecycle_state s
      else apply_runtime_scenario now updated s

  -- `apply_topology`; a preset that raises is `broken`.
  unfoldable pub apply_topology : ℕ → TopologyPreset → SimulatorService → Commanded
  apply_topology now preset s = elim (apply_topology_preset s.scenario preset) [
    | none ↦ broken s
    | some updated ↦ apply_in s.state now updated s
  ]
