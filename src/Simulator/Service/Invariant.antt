-- ===== src/Simulator/Service/Invariant.antt =====
-- What holds of a simulation between its commands: backend/app/simulator/service.py.
use meshtastic_lab.Base.{
  ℕ, ◌-◌, ◌≤◌, ◌≡◌, inl, inr, Bool, true, false, not, ◌||◌, String, List, [], Option, none, some,
  arith, length, length-drop, Bool-cases, Option-cases, is_some,
}
use meshtastic_lab.Models.Scenario.{Scenario, link_map}
use meshtastic_lab.Simulator.Medium.{Links}
use meshtastic_lab.Simulator.Service.{
  LifecycleState, stopped, running, failed, SimulatorService, bound_results, archive_result,
  stop_controller, max_volatile_results,
}
use meshtastic_lab.Traffic.Results.{TrafficResult}
use meshtastic_lab.Traffic.Runner.{Runner, result_is_finalized}

-- What a simulation at rest has: nothing when it is stopped; a traffic controller and a medium with
-- the scenario's links when it runs; anything until the cleanup when it failed.
abbrev pub Resources :
    LifecycleState
    → Option Links
    → Option Runner
    → List String
    → List (String × ℕ)
    → Scenario
    → Type 0
Resources stopped medium traffic gateways verifications scenario =
    (medium ≡ none) × (traffic ≡ none) × (gateways ≡ []) × (verifications ≡ [])
Resources running medium traffic gateways verifications scenario =
    (medium ≡ some (link_map scenario)) × (is_some traffic ≡ true)
Resources failed medium traffic gateways verifications scenario = Unit
Resources other medium traffic gateways verifications scenario = ⊥

pub record Rests (resources : Type 0) (results : List (String × TrafficResult)) (starting_up : Bool)
    : Type 0 where
  pub has : resources
  pub bounded : length results ≤ max_volatile_results
  pub settled : starting_up ≡ false

abbrev pub IsAtRest : SimulatorService → Type 0
IsAtRest s =
    Rests (Resources s.state s.medium s.traffic s.gateways s.verifications s.scenario)
      s.volatile_results s.starting_up

bound_results-length :
    (results : List (String × TrafficResult))
    → length (bound_results results) ≤ max_volatile_results
unfolding bound_results
bound_results-length results =
    let dropped = length-drop (length results - max_volatile_results) results in
    omega (arith, dropped)

pub archive_result-bounded :
    (persisted : String → Bool) (r : Runner) (s : SimulatorService)
    → length s.volatile_results ≤ max_volatile_results
    → length (archive_result persisted r s).volatile_results ≤ max_volatile_results
unfolding archive_result
archive_result-bounded persisted r s h = elim (Option-cases r.controller.current) [
  | inl e ↦ rw (archive_result, e) h
  | inr (run, e) ↦
      elim (Bool-cases (not (result_is_finalized run.run_id r) || persisted run.run_id)) [
        | inl skips ↦ rw (archive_result, e, skips) h
        | inr goes ↦ elim (Option-cases r.frozen_result) [
          | inl open_run ↦ rw (archive_result, e, goes, open_run) h
          | inr (result, at) ↦ rw (archive_result, e, goes, at) (bound_results-length _)
        ]
      ]
]

pub archive_result-IsAtRest :
    (persisted : String → Bool) (r : Runner) (s : SimulatorService)
    → IsAtRest s
    → IsAtRest (archive_result persisted r s)
unfolding archive_result
archive_result-IsAtRest persisted r s v = elim (Option-cases r.controller.current) [
  | inl e ↦ rw (archive_result, e) v
  | inr (run, e) ↦
      elim (Bool-cases (not (result_is_finalized run.run_id r) || persisted run.run_id)) [
        | inl skips ↦ rw (archive_result, e, skips) v
        | inr goes ↦ elim (Option-cases r.frozen_result) [
          | inl open_run ↦ rw (archive_result, e, goes, open_run) v
          | inr (result, at) ↦
              rw (archive_result, e, goes, at)
                (record { has = v.has; bounded = bound_results-length _; settled = v.settled })
        ]
      ]
]

module _ (stop_run : Runner → Bool × Runner) (persisted : String → Bool) where
  pub stop_controller-bounded :
      (s : SimulatorService)
      → length s.volatile_results ≤ max_volatile_results
      → length (stop_controller stop_run persisted s).volatile_results ≤ max_volatile_results
  unfolding stop_controller
  stop_controller-bounded s h = elim (Option-cases s.traffic) [
    | inl e ↦ rw (stop_controller, e) h
    | inr (r, e) ↦ elim (Bool-cases (stop_run r).0) [
      | inl ended ↦ rw (stop_controller, e, ended) (archive_result-bounded persisted _ _ h)
      | inr late ↦ rw (stop_controller, e, late) h
    ]
  ]

  archive_result-same :
      (r : Runner) (s : SimulatorService)
      → (archive_result persisted r s).starting_up ≡ s.starting_up
  unfolding archive_result
  archive_result-same r s = ground arith

  archive_result-state :
      (r : Runner) (s : SimulatorService) → (archive_result persisted r s).state ≡ s.state
  unfolding archive_result
  archive_result-state r s = ground arith

  pub stop_controller-settled :
      (s : SimulatorService) → (stop_controller stop_run persisted s).starting_up ≡ s.starting_up
  unfolding stop_controller
  stop_controller-settled s = elim (Option-cases s.traffic) [
    | inl e ↦ simp (stop_controller, e)
    | inr (r, e) ↦ elim (Bool-cases (stop_run r).0) [
      | inl ended ↦ simp (stop_controller, e, ended, archive_result-same)
      | inr late ↦ simp (stop_controller, e, late)
    ]
  ]

  pub stop_controller-state :
      (s : SimulatorService) → (stop_controller stop_run persisted s).state ≡ s.state
  unfolding stop_controller
  stop_controller-state s = elim (Option-cases s.traffic) [
    | inl e ↦ simp (stop_controller, e)
    | inr (r, e) ↦ elim (Bool-cases (stop_run r).0) [
      | inl ended ↦ simp (stop_controller, e, ended, archive_result-state)
      | inr late ↦ simp (stop_controller, e, late)
    ]
  ]
