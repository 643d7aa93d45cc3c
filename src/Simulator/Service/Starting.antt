-- ===== src/Simulator/Service/Starting.antt =====
-- The start of a simulation: backend/app/simulator/service.py.
use meshtastic_lab.Base.{
  ℕ, ◌≤◌, ◌≡◌, ◌∙◌, refl, sym, subst, Bool, true, false, String, [], none, some, arith, length,
  is_some,
}
use meshtastic_lab.Models.Scenario.{Scenario, link_map}
use meshtastic_lab.Simulator.Service.{
  LifecycleState, stopped, starting, warming_up, running, stopping, failed, SimulatorService,
  fail_in, stop_controller, cleanup_resources, schedule_runtime_failure, max_volatile_results,
}
use meshtastic_lab.Simulator.Service.Commands.{after_command}
use meshtastic_lab.Simulator.Service.Invariant.{
  IsAtRest, Resources, stop_controller-bounded, stop_controller-settled, stop_controller-state,
}
use meshtastic_lab.Simulator.Service.Lifecycle.{
  Wait, goes_on, raises, fails, Startup, Progress, reached, raised, await, after, startup,
  end_startup, start_stopped, start_in, start, begin_startup, create_gateways, configure,
  create_medium, begin_warm_up, begin_running,
}
use meshtastic_lab.Traffic.Runner.{Runner}

-- A start on its way: the property of the simulation, or an exception with the results bounded.
abbrev pub Along : (SimulatorService → Type 0) → Progress → Type 0
Along P (reached s) = P s
Along P (raised error s) = length s.volatile_results ≤ max_volatile_results

abbrev pub HasRoom : SimulatorService → Type 0
HasRoom s = length s.volatile_results ≤ max_volatile_results

-- The medium and the traffic controller are there.
pub record IsReady (s : SimulatorService) : Type 0 where
  pub medium : s.medium ≡ some (link_map s.scenario)
  pub traffic : is_some s.traffic ≡ true
  pub room : HasRoom s

abbrev pub Runs : SimulatorService → Type 0
Runs s = (s.state ≡ running) × IsReady s

-- A simulation that is stopped is so with any scenario.
pub with_scenario :
    (scenario : Scenario) (s : SimulatorService)
    → s.state ≡ stopped
    → IsAtRest s
    → Resources s.state s.medium s.traffic s.gateways s.verifications scenario
with_scenario scenario s e v =
    subst (λ k. Resources k s.medium s.traffic s.gateways s.verifications scenario) (sym e)
      (subst (λ k. Resources k s.medium s.traffic s.gateways s.verifications s.scenario) e v.has)

module _ (now : ℕ) where
  fail_in-IsAtRest :
      (category detail : String) (s : SimulatorService) (k : LifecycleState)
      → IsAtRest s
      → IsAtRest (fail_in k now category detail s)
  fail_in-IsAtRest category detail s stopped v = v
  fail_in-IsAtRest category detail s stopping v = v
  fail_in-IsAtRest category detail s failed v = v
  fail_in-IsAtRest category detail s starting v = record {
    has = tt;
    bounded = v.bounded;
    settled = v.settled;
  }
  fail_in-IsAtRest category detail s warming_up v = record {
    has = tt;
    bounded = v.bounded;
    settled = v.settled;
  }
  fail_in-IsAtRest category detail s running v = record {
    has = tt;
    bounded = v.bounded;
    settled = v.settled;
  }

  pub failure-IsAtRest :
      (category detail : String) (s : SimulatorService)
      → IsAtRest s
      → IsAtRest (schedule_runtime_failure now category detail s)
  unfolding schedule_runtime_failure
  failure-IsAtRest category detail s v = fail_in-IsAtRest category detail s s.state v

  failure-HasRoom :
      (category detail : String) (s : SimulatorService)
      → HasRoom s
      → HasRoom (schedule_runtime_failure now category detail s)
  unfolding schedule_runtime_failure
  failure-HasRoom category detail s h = ground (arith, h)

  module _ (P : SimulatorService → Type 0) (room : (s : SimulatorService) → P s → HasRoom s) where
    await-Along : (w : Wait) (p : Progress) → Along P p → Along P (await now w p)
    unfolding await
    await-Along goes_on (reached s) h = h
    await-Along (raises error) (reached s) h = room s h
    await-Along (fails category detail) (reached s) h = failure-HasRoom category detail s (room s h)
    await-Along goes_on (raised error s) h = h
    await-Along (raises e) (raised error s) h = h
    await-Along (fails category detail) (raised error s) h = h

  after-Along :
      (P Q : SimulatorService → Type 0) (f : SimulatorService → SimulatorService) (p : Progress)
      → ((s : SimulatorService) → P s → Q (f s))
      → Along P p
      → Along Q (after now f p)
  after-Along P Q f (reached s) step h = step s h
  after-Along P Q f (raised error s) step h = h

  pub startup-Along :
      (id : String) (warmup_seconds : ℕ) (w : Startup) (s : SimulatorService)
      → HasRoom s
      → Along Runs (startup now id warmup_seconds w s)
  unfolding startup
  startup-Along id warmup_seconds w s h =
      let ready_room : (t : SimulatorService) → IsReady t → HasRoom t = λ t r. r.room in
      let any_room : (t : SimulatorService) → HasRoom t → HasRoom t = λ t r. r in
      after-Along IsReady Runs (begin_running now w.missing_pairs w.expected_pairs) _
        (λ t r. (refl, record { medium = r.medium; traffic = r.traffic; room = r.room }))
        (await-Along IsReady ready_room w.clients _ (
          await-Along IsReady ready_room w.warm_up _ (
            after-Along IsReady IsReady (begin_warm_up now warmup_seconds) _
              (λ t r. record { medium = r.medium; traffic = r.traffic; room = r.room })
              (await-Along IsReady ready_room w.medium _ (
                after-Along HasRoom IsReady (create_medium now w.node_numbers) _
                  (λ t r. record { medium = refl; traffic = refl; room = r })
                  (await-Along HasRoom any_room w.configuration _ (
                    after-Along HasRoom HasRoom (configure now) _ (λ t r. r)
                      (await-Along HasRoom any_room w.gateways _ (
                        after-Along HasRoom HasRoom (create_gateways now) _ (λ t r. r)
                          (await-Along HasRoom any_room w.processes
                            (reached (begin_startup now id s)) h))))))))))

  module _ (stop_run : Runner → Bool × Runner) (persisted : String → Bool) where
    cleanup-HasRoom :
        (s : SimulatorService) → HasRoom s → HasRoom (cleanup_resources stop_run persisted s)
    unfolding cleanup_resources
    cleanup-HasRoom s h = stop_controller-bounded stop_run persisted s h

    -- Nothing is left after a cleanup, whatever state the simulation enters then.
    cleaned-IsAtRest :
        (s : SimulatorService)
        → s.state ≡ failed
        → HasRoom s
        → IsAtRest (record (cleanup_resources stop_run persisted s) { starting_up = false })
    unfolding cleanup_resources
    cleaned-IsAtRest s e h = record {
      has =
          subst (λ k. Resources k none none [] [] (stop_controller stop_run persisted s).scenario)
            (sym (stop_controller-state stop_run persisted s ∙ e)) tt;
      bounded = stop_controller-bounded stop_run persisted s h;
      settled = refl;
    }

    end_startup-IsAtRest :
        (p : Progress)
        → Along Runs p
        → IsAtRest (after_command (end_startup now stop_run persisted p))
    end_startup-IsAtRest (reached s) h = record {
      has =
          subst (λ k. Resources k s.medium s.traffic s.gateways s.verifications s.scenario)
            (sym h.0) (h.1.medium, h.1.traffic);
      bounded = h.1.room;
      settled = refl;
    }
    end_startup-IsAtRest (raised error s) h = cleaned-IsAtRest _ refl h

    start_stopped-IsAtRest :
        (collision provenance : Bool) (id : String) (warmup_seconds : ℕ) (w : Startup)
        (s : SimulatorService)
        → IsAtRest s
        → IsAtRest (
            after_command
              (start_stopped now stop_run persisted collision provenance id warmup_seconds w s))
    unfolding start_stopped
    start_stopped-IsAtRest false provenance id warmup_seconds w s v = v
    start_stopped-IsAtRest true false id warmup_seconds w s v = v
    start_stopped-IsAtRest true true id warmup_seconds w s v =
        end_startup-IsAtRest (startup now id warmup_seconds w s)
          (startup-Along id warmup_seconds w s v.bounded)

    start_in-IsAtRest :
        (collision provenance : Bool) (id : String) (warmup_seconds : ℕ) (w : Startup)
        (s : SimulatorService) (k : LifecycleState)
        → s.state ≡ k
        → IsAtRest s
        → IsAtRest (
            after_command
              (start_in now stop_run persisted k collision provenance id warmup_seconds w s))
    unfolding cleanup_resources
    start_in-IsAtRest collision provenance id warmup_seconds w s stopped e v =
        start_stopped-IsAtRest collision provenance id warmup_seconds w s v
    start_in-IsAtRest collision provenance id warmup_seconds w s running e v = v
    start_in-IsAtRest collision provenance id warmup_seconds w s warming_up e v = v
    start_in-IsAtRest collision provenance id warmup_seconds w s starting e v = v
    start_in-IsAtRest collision provenance id warmup_seconds w s stopping e v = v
    start_in-IsAtRest collision provenance id warmup_seconds w s failed e v =
        start_stopped-IsAtRest collision provenance id warmup_seconds w
          (cleanup_resources stop_run persisted s)
          (record {
            has =
                subst
                  (λ k. Resources k none none [] [] (stop_controller stop_run persisted s).scenario)
                  (sym (stop_controller-state stop_run persisted s ∙ e)) tt;
            bounded = stop_controller-bounded stop_run persisted s v.bounded;
            settled = stop_controller-settled stop_run persisted s ∙ v.settled;
          })

    pub start-IsAtRest :
        (collision provenance : Bool) (id : String) (warmup_seconds : ℕ) (w : Startup)
        (s : SimulatorService)
        → IsAtRest s
        → IsAtRest (
            after_command (start now stop_run persisted collision provenance id warmup_seconds w s))
    unfolding start
    start-IsAtRest collision provenance id warmup_seconds w s v =
        start_in-IsAtRest collision provenance id warmup_seconds w s s.state refl v
