-- ===== src/Simulator/Service/Stopping.antt =====
-- The stop, the cleanup, the reset and a new scenario of a simulation:
-- backend/app/simulator/service.py.
use meshtastic_lab.Base.{
  ℕ, ◌≡◌, ◌∙◌, refl, sym, subst, inl, inr, Bool, false, String, [], Option, none, some,
  Option-cases,
}
use meshtastic_lab.Metrics.Events.{Detail}
use meshtastic_lab.Models.Scenario.{Scenario}
use meshtastic_lab.Models.Scenario.Defaults.{default_scenario}
use meshtastic_lab.Simulator.Service.{
  LifecycleState, stopped, starting, warming_up, running, stopping, failed, SimulatorService, enter,
  stop_controller, cleanup_resources,
}
use meshtastic_lab.Simulator.Service.Commands.{after_command}
use meshtastic_lab.Simulator.Service.Invariant.{
  IsAtRest, Resources, stop_controller-bounded, stop_controller-settled, stop_controller-state,
}
use meshtastic_lab.Simulator.Service.Lifecycle.{
  stop_in, stop_simulation, stop, reset_to, reset_in, replace_in, reset, replace_scenario,
  clean_up_failure,
}
use meshtastic_lab.Traffic.Runner.{Runner}
use meshtastic_lab.Simulator.Service.Starting.{HasRoom, with_scenario}

module _ (now : ℕ) where
  module _ (stop_run : Runner → Bool × Runner) (persisted : String → Bool) where
    -- A stop that cleans up.
    stopped-IsAtRest :
        (s : SimulatorService) → IsAtRest s → IsAtRest (stop_simulation now stop_run persisted s)
    unfolding cleanup_resources
    stopped-IsAtRest s v =
        let cleaning =
          enter now stopping (Detail.text "Stopping traffic, gateways, and native processes") s in
        record {
          has = (refl, refl, refl, refl);
          bounded = stop_controller-bounded stop_run persisted cleaning v.bounded;
          settled = stop_controller-settled stop_run persisted cleaning ∙ v.settled;
        }

    stop_in-IsAtRest :
        (s : SimulatorService) (k : LifecycleState)
        → IsAtRest s
        → IsAtRest (after_command (stop_in now stop_run persisted k s))
    stop_in-IsAtRest s stopped v = v
    stop_in-IsAtRest s starting v = stopped-IsAtRest s v
    stop_in-IsAtRest s warming_up v = stopped-IsAtRest s v
    stop_in-IsAtRest s running v = stopped-IsAtRest s v
    stop_in-IsAtRest s stopping v = stopped-IsAtRest s v
    stop_in-IsAtRest s failed v = stopped-IsAtRest s v

    cleaned :
        (s : SimulatorService)
        → s.state ≡ failed
        → HasRoom s
        → s.starting_up ≡ false
        → IsAtRest (record (cleanup_resources stop_run persisted s) { failure_cleanup = none })
    unfolding cleanup_resources
    cleaned s e h settled = record {
      has =
          subst (λ k. Resources k none none [] [] (stop_controller stop_run persisted s).scenario)
            (sym (stop_controller-state stop_run persisted s ∙ e)) tt;
      bounded = stop_controller-bounded stop_run persisted s h;
      settled = stop_controller-settled stop_run persisted s ∙ settled;
    }

    -- The task that cleans up after a failure, which leaves the state FAILED.
    pub clean_up-IsAtRest :
        (fail_run : Runner → Runner) (s : SimulatorService)
        → s.state ≡ failed
        → IsAtRest s
        → IsAtRest (clean_up_failure now stop_run persisted fail_run s)
    unfolding clean_up_failure cleanup_resources
    clean_up-IsAtRest fail_run s e v = elim (Option-cases s.traffic) [
      | inl none_left ↦ rw (clean_up_failure, none_left) (cleaned s e v.bounded v.settled)
      | inr (r, present) ↦
          rw (clean_up_failure, present)
            (cleaned (record s { traffic = some (fail_run r) }) e v.bounded v.settled)
    ]

    pub stop-IsAtRest :
        (s : SimulatorService)
        → IsAtRest s
        → IsAtRest (after_command (stop now stop_run persisted s))
    unfolding stop
    stop-IsAtRest s v = stop_in-IsAtRest s s.state v

  reset_to-IsAtRest :
      (o : Option Scenario) (stream_id : String) (s : SimulatorService)
      → s.state ≡ stopped
      → IsAtRest s
      → IsAtRest (after_command (reset_to now o stream_id s))
  reset_to-IsAtRest none stream_id s e v = v
  reset_to-IsAtRest (some scenario) stream_id s e v = record {
    has = with_scenario scenario s e v;
    bounded = v.bounded;
    settled = v.settled;
  }

  pub reset-IsAtRest :
      (stream_id : String) (s : SimulatorService)
      → IsAtRest s
      → IsAtRest (after_command (reset now stream_id s))
  unfolding reset
  reset-IsAtRest stream_id s v = reset_in-IsAtRest stream_id s s.state refl v
    where
      reset_in-IsAtRest :
          (stream_id : String) (s : SimulatorService) (k : LifecycleState)
          → s.state ≡ k
          → IsAtRest s
          → IsAtRest (after_command (reset_in now k stream_id s))
      reset_in-IsAtRest stream_id s stopped e v =
          reset_to-IsAtRest (default_scenario 5) stream_id s e v
      reset_in-IsAtRest stream_id s starting e v = v
      reset_in-IsAtRest stream_id s warming_up e v = v
      reset_in-IsAtRest stream_id s running e v = v
      reset_in-IsAtRest stream_id s stopping e v = v
      reset_in-IsAtRest stream_id s failed e v = v

replace_in-IsAtRest :
    (scenario : Scenario) (s : SimulatorService) (k : LifecycleState)
    → s.state ≡ k
    → IsAtRest s
    → IsAtRest (after_command (replace_in k scenario s))
replace_in-IsAtRest scenario s stopped e v = record {
  has = with_scenario scenario s e v;
  bounded = v.bounded;
  settled = v.settled;
}
replace_in-IsAtRest scenario s starting e v = v
replace_in-IsAtRest scenario s warming_up e v = v
replace_in-IsAtRest scenario s running e v = v
replace_in-IsAtRest scenario s stopping e v = v
replace_in-IsAtRest scenario s failed e v = v

pub replace_scenario-IsAtRest :
    (scenario : Scenario) (s : SimulatorService)
    → IsAtRest s
    → IsAtRest (after_command (replace_scenario scenario s))
unfolding replace_scenario
replace_scenario-IsAtRest scenario s v = replace_in-IsAtRest scenario s s.state refl v
