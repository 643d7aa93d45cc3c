-- ===== src/Simulator/Service/Outcome.antt =====
-- How a start ends: backend/app/simulator/service.py.
use meshtastic_lab.Base.{
  ℕ, ◌≤◌, ◌≡◌, refl, sym, subst, Bool, true, false, String, List, [], none, some, length, is_some,
}
use meshtastic_lab.Models.Scenario.{link_map}
use meshtastic_lab.Simulator.Service.{
  stopped, running, failed, SimulatorService, Commanded, done, conflict, broken, cleanup_resources,
  max_volatile_results,
}
use meshtastic_lab.Simulator.Service.Invariant.{stop_controller-state}
use meshtastic_lab.Simulator.Service.Lifecycle.{
  goes_on, Startup, Progress, reached, raised, startup, end_startup, start_stopped, start_in, start,
}
use meshtastic_lab.Simulator.Service.Starting.{Along, Runs, startup-Along}
use meshtastic_lab.Traffic.Runner.{Runner}

-- A simulation that runs, or an exception behind which it is FAILED and nothing is left.
abbrev pub Ends : Commanded → Type 0
Ends (done s) =
    (s.state ≡ running)
    × (s.medium ≡ some (link_map s.scenario))
    × (is_some s.traffic ≡ true)
    × (s.starting_up ≡ false)
Ends (broken s) =
    (s.state ≡ failed)
    × (s.medium ≡ none)
    × (s.traffic ≡ none)
    × (s.gateways ≡ [])
    × (s.verifications ≡ [])
    × (s.starting_up ≡ false)
Ends (conflict code s) = ⊥

-- The waits that all go on.
abbrev pub undisturbed : List (String × ℕ) → ℕ → ℕ → Startup
undisturbed numbers missing expected = record {
  processes = goes_on;
  gateways = goes_on;
  configuration = goes_on;
  node_numbers = numbers;
  medium = goes_on;
  warm_up = goes_on;
  missing_pairs = missing;
  expected_pairs = expected;
  clients = goes_on;
}

-- A simulation with the medium and the controller of its start.
abbrev pub IsUp : List (String × ℕ) → SimulatorService → Commanded → Type 0
IsUp numbers before (done s) =
    (s.state ≡ running)
    × (s.medium ≡ some (link_map before.scenario))
    × (is_some s.traffic ≡ true)
    × (s.verifications ≡ numbers)
IsUp numbers before (conflict code s) = ⊥
IsUp numbers before (broken s) = ⊥

module _ (now : ℕ) (stop_run : Runner → Bool × Runner) (persisted : String → Bool) where
  end_startup-Ends : (p : Progress) → Along Runs p → Ends (end_startup now stop_run persisted p)
  unfolding cleanup_resources
  end_startup-Ends (reached s) h = (h.0, h.1.medium, h.1.traffic, refl)
  end_startup-Ends (raised error s) h =
      (stop_controller-state stop_run persisted _, refl, refl, refl, refl, refl)

  -- With the capabilities that `start` asks for, from STOPPED and with at most eight results kept, a
  -- start always ends, whatever its waits bring: it returns with a RUNNING simulation that has a
  -- traffic controller and a medium with exactly the scenario's links, or it raises and leaves a
  -- FAILED simulation without a medium, a traffic controller, gateways and verifications.
  pub start-Ends :
      (id : String) (warmup_seconds : ℕ) (w : Startup) (s : SimulatorService)
      → s.state ≡ stopped
      → length s.volatile_results ≤ max_volatile_results
      → Ends (start now stop_run persisted true true id warmup_seconds w s)
  unfolding start start_stopped
  start-Ends id warmup_seconds w s e room =
      subst (λ k. Ends (start_in now stop_run persisted k true true id warmup_seconds w s)) (sym e)
        (end_startup-Ends (startup now id warmup_seconds w s)
          (startup-Along now id warmup_seconds w s room))
