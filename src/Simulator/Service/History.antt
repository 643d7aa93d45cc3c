-- ===== src/Simulator/Service/History.antt =====
-- Any sequence of commands and reports: backend/app/simulator/service.py.
use meshtastic_lab.Base.{
  ℕ, ◌≡◌, refl, inl, inr, Bool, true, String, List, [], ◌∷◌, Option, arith, Bool-cases,
}
use meshtastic_lab.Metrics.Packet.{Protobuf}
use meshtastic_lab.Simulator.Service.{
  LifecycleState, stopped, starting, warming_up, running, stopping, failed, SimulatorService,
}
use meshtastic_lab.Simulator.Service.Commands.{
  ServiceCommand, starts, stops, resets, replaces, updates, applies, starts_traffic, stops_traffic,
  settles, fails, cleans_up, hears_gateway, hears_radio, is_failed, cleanup_due, perform_command,
  perform_commands,
}
use meshtastic_lab.Simulator.Service.Invariant.{IsAtRest}
use meshtastic_lab.Simulator.Service.Radio.{ServiceProtobuf}
use meshtastic_lab.Simulator.Service.Running.{update_links-IsAtRest, apply_topology-IsAtRest}
use meshtastic_lab.Simulator.Service.Starting.{start-IsAtRest, failure-IsAtRest}
use meshtastic_lab.Traffic.Runner.{Runner}
use meshtastic_lab.Simulator.Service.Reported.{
  start_traffic-IsAtRest, stop_traffic-IsAtRest, settle_late-IsAtRest, on_gateway_event-IsAtRest,
  on_from_radio-IsAtRest,
}
use meshtastic_lab.Simulator.Service.Stopping.{
  stop-IsAtRest, reset-IsAtRest, replace_scenario-IsAtRest, clean_up-IsAtRest,
}

module _ (pb : Protobuf) (decode : List ℕ → Option (String × ℕ)) (sp : ServiceProtobuf) where
  cleaned_up-IsAtRest :
      (now : ℕ) (stop_run : Runner → Bool × Runner) (persisted : String → Bool)
      (fail_run : Runner → Runner) (s : SimulatorService)
      → IsAtRest s
      → IsAtRest (perform_command pb decode sp now (cleans_up stop_run persisted fail_run) s)
  unfolding perform_command
  cleaned_up-IsAtRest now stop_run persisted fail_run s v = elim (Bool-cases (cleanup_due s)) [
    | inl due ↦
        rw due
          (clean_up-IsAtRest now stop_run persisted fail_run s (failed_state s.state (both due)) v)
    | inr idle ↦ rw idle v
  ]
    where
      both : cleanup_due s ≡ true → is_failed s.state ≡ true
      both due = ground arith

      failed_state : (k : LifecycleState) → is_failed k ≡ true → k ≡ failed
      failed_state failed h = refl
      failed_state stopped h = cc
      failed_state starting h = cc
      failed_state warming_up h = cc
      failed_state running h = cc
      failed_state stopping h = cc

  perform_command-IsAtRest :
      (now : ℕ) (command : ServiceCommand) (s : SimulatorService)
      → IsAtRest s
      → IsAtRest (perform_command pb decode sp now command s)
  unfolding perform_command
  perform_command-IsAtRest now (starts stop_run persisted collision provenance id warmup w) s v =
      start-IsAtRest now stop_run persisted collision provenance id warmup w s v
  perform_command-IsAtRest now (stops stop_run persisted) s v =
      stop-IsAtRest now stop_run persisted s v
  perform_command-IsAtRest now (resets stream_id) s v = reset-IsAtRest now stream_id s v
  perform_command-IsAtRest now (replaces scenario) s v = replace_scenario-IsAtRest scenario s v
  perform_command-IsAtRest now (updates links) s v = update_links-IsAtRest pb now links s v
  perform_command-IsAtRest now (applies preset) s v = apply_topology-IsAtRest pb now preset s v
  perform_command-IsAtRest now (starts_traffic run_id request persisted sample meanwhile full) s v =
      start_traffic-IsAtRest now run_id request persisted meanwhile full sample s v
  perform_command-IsAtRest now (stops_traffic stop_run) s v = stop_traffic-IsAtRest stop_run s v
  perform_command-IsAtRest now (settles persisted r) s v = settle_late-IsAtRest persisted r s v
  perform_command-IsAtRest now (fails category detail) s v =
      failure-IsAtRest now category detail s v
  perform_command-IsAtRest now (cleans_up stop_run persisted fail_run) s v =
      cleaned_up-IsAtRest now stop_run persisted fail_run s v
  perform_command-IsAtRest now (hears_gateway node kind detail) s v =
      on_gateway_event-IsAtRest now node kind detail s v
  perform_command-IsAtRest now (hears_radio node message queue_error) s v =
      on_from_radio-IsAtRest pb decode sp now node message queue_error s v

  -- After any commands and reports a simulation that was at rest is at rest: stopped without a
  -- medium, a traffic controller, gateways and verifications, running with a traffic controller and
  -- a medium that holds exactly the scenario's links, or failed, with at most eight results that are
  -- kept in memory and no start in progress.
  pub perform_commands-IsAtRest :
      (commands : List (ℕ × ServiceCommand)) (s : SimulatorService)
      → IsAtRest s
      → IsAtRest (perform_commands pb decode sp commands s)
  unfolding perform_commands
  perform_commands-IsAtRest [] s v = v
  perform_commands-IsAtRest ((now, command) ∷ commands) s v =
      perform_commands-IsAtRest commands (perform_command pb decode sp now command s)
        (perform_command-IsAtRest now command s v)
