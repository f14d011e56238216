-- ===== src/Tests/Controls.antt =====
use dst_nucleus.Prelude.{true, false, none, ◌≡◌, refl, ◌∷◌, []}
use dst_nucleus.Daemon.Reboot.{
  graceful_reboot, RebootConf, reboot_orders, countdown, announced, EndsWithSave, to_master,
  graceful_reboot-fives,
}
use dst_nucleus.Daemon.Control.{two_turns, api_restart_needs_crash_reboot, api_stop_stops}
use dst_nucleus.Daemon.Lifecycle.{
  IsSafe, World, initial, Reach-IsSafe, next, here, makes, arms, drains, launches, sets_gate, posts,
  takes_switch, make_step, main_at, armed, drained, settled, with_daemon, take_step,
}
use dst_nucleus.Daemon.{
  main_turn, api_halt, post, make_context, arm, drain, launch, Daemon, Conf, api_restart, api_stop,
  waiting, turn, boot, idle, api_start, success200,
}

-- The daemon's loop, its control endpoints and the graceful reboot.
abbrev both : Conf
both = record { enable_master = true; enable_caves = true; crash_reboot = false }

abbrev up : Daemon
up = record {
  phase = waiting;
  run_gate = true;
  action_bus = none;
  kill_switch = true;
  cancelled = false;
  master_running = true;
  caves_running = true;
}

abbrev booted : Daemon
booted = main_turn both (initial true).daemon

boots_both : (booted.phase ≡ waiting) × (booted.master_running ≡ true)
unfolding main_turn turn boot launch drain arm make_context
boots_both = (refl, refl)

abbrev made_world : World
made_world = make_step (initial true)

abbrev armed_world : World
armed_world = main_at armed made_world (arm made_world.daemon)

abbrev drained_world : World
drained_world = main_at drained armed_world (drain armed_world.daemon)

abbrev up_world : World
up_world = main_at settled drained_world (launch both drained_world.daemon)

-- A stop request comes when the shards are up, and has taken the switch.
abbrev shut_world : World
shut_world = with_daemon up_world (record up_world.daemon { run_gate = false })

abbrev stopping_world : World
stopping_world = take_step (with_daemon shut_world (post api_halt shut_world.daemon))

up_world-booted : up_world.daemon ≡ booted
unfolding make_step make_context arm drain launch main_turn turn boot
up_world-booted = refl

Reach-IsSafe_example : IsSafe both stopping_world
unfolding make_step make_context arm drain launch
Reach-IsSafe_example = Reach-IsSafe {c = both} {auto_start = true} {w = stopping_world} (
    let r₁ = next here (makes (initial true) refl refl) in
    let r₂ = next r₁ (arms made_world refl) in
    let r₃ = next r₂ (drains armed_world refl) in
    let r₄ = next r₃ (launches drained_world refl) in
    let r₅ = next r₄ (sets_gate up_world false) in
    let r₆ = next r₅ (posts shut_world api_halt) in
    next r₆ (takes_switch (with_daemon shut_world (post api_halt shut_world.daemon))))

api_stop_stops_example :
    let d' = two_turns both (api_stop true up).0 in
    (d'.phase ≡ idle)
    × (d'.run_gate ≡ false)
    × (d'.master_running ≡ false)
    × (d'.caves_running ≡ false)
    × ((api_start true d').1 ≡ success200)
    × ((main_turn both (api_start true d').0).phase ≡ waiting)
    × ((main_turn both (api_start true d').0).master_running ≡ true)
    × ((main_turn both (api_start true d').0).caves_running ≡ true)
api_stop_stops_example = api_stop_stops both up refl tt

api_restart_needs_crash_reboot_example :
    let d' = two_turns both (api_restart true up).0 in (d'.phase ≡ idle) × (d'.run_gate ≡ false)
api_restart_needs_crash_reboot_example = api_restart_needs_crash_reboot both up refl refl

abbrev twelve_seconds : RebootConf
twelve_seconds = record { master_enabled = true; caves_enabled = false; grace_wait = 12 }

twelve_seconds-announced :
    announced (graceful_reboot false twelve_seconds none (λ j. false)) ≡ 10 ∷ 5 ∷ []
unfolding graceful_reboot reboot_orders countdown
twelve_seconds-announced = refl

graceful_reboot-fives_example :
    let os = graceful_reboot false twelve_seconds none (λ j. false) in
    (announced os ≡ 10 ∷ 5 ∷ []) × EndsWithSave to_master os
graceful_reboot-fives_example = graceful_reboot-fives twelve_seconds none (λ j. false) (λ j. refl)
