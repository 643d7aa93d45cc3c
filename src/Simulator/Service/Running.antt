-- ===== src/Simulator/Service/Running.antt =====
-- Link changes, runs and reports while a simulation runs: backend/app/simulator/service.py.
use meshtastic_lab.Base.{
  ℕ, ◌≡◌, refl, sym, ap, subst, inl, inr, Bool, true, false, not, ◌||◌, String, List, [], Option,
  none, some, arith, length, Bool-cases, Option-cases, is_some, is_empty, if◌then◌else◌, ◌==◌,
}
use meshtastic_lab.Metrics.Events.{PacketEvent}
use meshtastic_lab.Metrics.Packet.{Protobuf}
use meshtastic_lab.Models.Scenario.{
  Scenario, DirectedLink, TopologyPreset, put_links, link_map, apply_topology_preset,
}
use meshtastic_lab.Simulator.Medium.{Links, apply_links}
use meshtastic_lab.Simulator.Service.{
  LifecycleState, stopped, starting, warming_up, running, stopping, failed, Conflict,
  SimulatorService, Commanded, done, conflict, broken,
}
use meshtastic_lab.Simulator.Service.Commands.{after_command}
use meshtastic_lab.Simulator.Service.Invariant.{IsAtRest, Resources}
use meshtastic_lab.Simulator.Service.Starting.{with_scenario}
use meshtastic_lab.Simulator.Service.Topology.{
  differing, publish_all, record_changes, note_changes, has_capacity, apply_runtime_scenario,
  updated_links, all_existing, is_running, update_links, apply_in, apply_topology,
}
use meshtastic_lab.Traffic.Runner.{Runner}

-- A traffic controller in place of another.
traffic-Resources :
    (k : LifecycleState) (medium : Option Links) (r r' : Runner) (gateways : List String)
    (numbers : List (String × ℕ)) (scenario : Scenario)
    → Resources k medium (some r) gateways numbers scenario
    → Resources k medium (some r') gateways numbers scenario
traffic-Resources stopped medium r r' gateways numbers scenario h = absurd (some_none h.1)
  where
    some_none : some r ≡ none → ⊥
    some_none e = cc
traffic-Resources running medium r r' gateways numbers scenario h = (h.0, refl)
traffic-Resources failed medium r r' gateways numbers scenario h = tt
traffic-Resources starting medium r r' gateways numbers scenario h = h
traffic-Resources warming_up medium r r' gateways numbers scenario h = h
traffic-Resources stopping medium r r' gateways numbers scenario h = h

pub traffic-IsAtRest :
    (r r' : Runner) (s : SimulatorService)
    → s.traffic ≡ some r
    → IsAtRest s
    → IsAtRest (record s { traffic = some r' })
traffic-IsAtRest r r' s e v = record {
  has =
      traffic-Resources s.state s.medium r r' s.gateways s.verifications s.scenario
        (subst (λ t. Resources s.state s.medium t s.gateways s.verifications s.scenario) e v.has);
  bounded = v.bounded;
  settled = v.settled;
}

-- A command that ends as another does.
pub by_end : (c c' : Commanded) → c ≡ c' → IsAtRest (after_command c') → IsAtRest (after_command c)
by_end c c' e v = subst (λ x. IsAtRest (after_command x)) (sym e) v

pub if-IsAtRest :
    (b : Bool) (x y : Commanded)
    → (b ≡ true → IsAtRest (after_command x))
    → (b ≡ false → IsAtRest (after_command y))
    → IsAtRest (after_command (if b then x else y))
if-IsAtRest true x y h k = h refl
if-IsAtRest false x y h k = k refl

module _ (pb : Protobuf) where
  note_changes-IsAtRest :
      (events : List PacketEvent) (changed : List DirectedLink) (s : SimulatorService)
      → IsAtRest s
      → IsAtRest (after_command (note_changes pb events changed s))
  unfolding note_changes
  note_changes-IsAtRest events changed s v = elim (Option-cases s.traffic) [
    | inl e ↦ by_end (note_changes pb events changed s) (done s) (simp (note_changes, e)) v
    | inr (r, e) ↦ elim (Option-cases (record_changes pb events changed r)) [
      | inl fails ↦
          by_end (note_changes pb events changed s) (broken s) (simp (note_changes, e, fails)) v
      | inr (later, kept) ↦
          by_end (note_changes pb events changed s) (done (record s { traffic = some later }))
            (simp (note_changes, e, kept)) (traffic-IsAtRest r later s e v)
    ]
  ]

  -- The scenario with links that the medium has taken over.
  applied-IsAtRest :
      (now : ℕ) (updated : Scenario) (s : SimulatorService) (links : Links)
      (applied : Links × List PacketEvent)
      → s.state ≡ running
      → apply_links now updated.links links ≡ some applied
      → IsAtRest s
      → IsAtRest (record s {
        medium = some applied.0;
        event_broker = (publish_all applied.1 s.event_broker).0;
        scenario = updated;
      })
  unfolding apply_links link_map
  applied-IsAtRest now updated s links applied e taken v =
      let same : applied.0 ≡ link_map updated = ground arith in
      let has =
        subst (λ k. Resources k s.medium s.traffic s.gateways s.verifications s.scenario) e v.has in
      record {
        has =
            subst (λ k. Resources k (some applied.0) s.traffic s.gateways s.verifications updated)
              (sym e) (ap some same, has.1);
        bounded = v.bounded;
        settled = v.settled;
      }

  apply_runtime-IsAtRest :
      (now : ℕ) (updated : Scenario) (s : SimulatorService)
      → s.state ≡ running
      → IsAtRest s
      → IsAtRest (after_command (apply_runtime_scenario pb now updated s))
  unfolding apply_runtime_scenario
  apply_runtime-IsAtRest now updated s e v =
      let changed = differing (link_map s.scenario) updated.links in
      let command = apply_runtime_scenario pb now updated s in
      elim (Option-cases s.medium) [
        | inl missing ↦ by_end command (broken s) (simp (apply_runtime_scenario, missing)) v
        | inr (links, present) ↦
            elim (Bool-cases (not (has_capacity pb (length changed) s.traffic))) [
              | inl full ↦
                  by_end command (conflict Conflict.topology_history_full s)
                    (simp (apply_runtime_scenario, present, full)) v
              | inr fits ↦ elim (Option-cases (apply_links now updated.links links)) [
                | inl refused ↦
                    by_end command (broken s)
                      (simp (apply_runtime_scenario, present, fits, refused)) v
                | inr (applied, taken) ↦
                    let later = record s {
                      medium = some applied.0;
                      event_broker = (publish_all applied.1 s.event_broker).0;
                      scenario = updated;
                    } in
                    let events = (publish_all applied.1 s.event_broker).1 in
                    by_end command (note_changes pb events changed later)
                      (simp (apply_runtime_scenario, present, fits, taken))
                      (note_changes-IsAtRest events changed later
                        (applied-IsAtRest now updated s links applied e taken v))
              ]
            ]
      ]

  -- The guard of a change at run time.
  guarded-IsAtRest :
      (now : ℕ) (updated : Scenario) (s : SimulatorService) (next : Commanded)
      → IsAtRest s
      → (s.state ≡ running → IsAtRest (after_command next))
      → IsAtRest (
          after_command (
            if not (is_running s.state) || not (is_some s.medium)
            then conflict Conflict.invalid_lifecycle_state s
            else next))
  guarded-IsAtRest now updated s next v kept =
      if-IsAtRest (not (is_running s.state) || not (is_some s.medium)) _ next (λ _. v)
        (λ h. kept (runs s.state (ground arith)))
    where
      runs : (k : LifecycleState) → is_running k ≡ true → k ≡ running
      runs running h = refl
      runs stopped h = cc
      runs starting h = cc
      runs warming_up h = cc
      runs stopping h = cc
      runs failed h = cc

  pub update_links-IsAtRest :
      (now : ℕ) (updates : List DirectedLink) (s : SimulatorService)
      → IsAtRest s
      → IsAtRest (after_command (update_links pb now updates s))
  unfolding update_links
  update_links-IsAtRest now updates s v =
      let updated = record (s.scenario) {
        links = updated_links pb (put_links updates []) s.scenario.links;
      } in
      if-IsAtRest (is_empty updates) _ _ (λ _. v)
        (λ _.
          if-IsAtRest (not (length (put_links updates []) == length updates)) _ _ (λ _. v)
            (λ _. guarded-IsAtRest now updated s _ v (λ runs.
              if-IsAtRest (not (all_existing pb (put_links updates []) (link_map s.scenario))) _ _
                (λ _. v) (λ _. apply_runtime-IsAtRest now updated s runs v))))

  pub apply_topology-IsAtRest :
      (now : ℕ) (preset : TopologyPreset) (s : SimulatorService)
      → IsAtRest s
      → IsAtRest (after_command (apply_topology pb now preset s))
  unfolding apply_topology
  apply_topology-IsAtRest now preset s v =
      elim (Option-cases (apply_topology_preset s.scenario preset)) [
        | inl e ↦ by_end (apply_topology pb now preset s) (broken s) (simp (apply_topology, e)) v
        | inr (updated, e) ↦
            by_end (apply_topology pb now preset s) (apply_in pb s.state now updated s)
              (simp (apply_topology, e)) (apply_in-IsAtRest s.state updated refl)
      ]
    where
      apply_in-IsAtRest :
          (k : LifecycleState) (updated : Scenario)
          → s.state ≡ k
          → IsAtRest (after_command (apply_in pb k now updated s))
      apply_in-IsAtRest stopped updated e = record {
        has = with_scenario updated s e v;
        bounded = v.bounded;
        settled = v.settled;
      }
      apply_in-IsAtRest starting updated e =
          guarded-IsAtRest now updated s _ v (λ runs. apply_runtime-IsAtRest now updated s runs v)
      apply_in-IsAtRest warming_up updated e =
          guarded-IsAtRest now updated s _ v (λ runs. apply_runtime-IsAtRest now updated s runs v)
      apply_in-IsAtRest running updated e =
          guarded-IsAtRest now updated s _ v (λ runs. apply_runtime-IsAtRest now updated s runs v)
      apply_in-IsAtRest stopping updated e =
          guarded-IsAtRest now updated s _ v (λ runs. apply_runtime-IsAtRest now updated s runs v)
      apply_in-IsAtRest failed updated e =
          guarded-IsAtRest now updated s _ v (λ runs. apply_runtime-IsAtRest now updated s runs v)
