-- ===== src/Daemon/Control.antt =====
-- api.go and main.go: the control endpoints and a crash, with the two turns of `main` that follow.
use dst_nucleus.Prelude.{
  Option, ◌≡◌, some, Bool, true, ◌≢◌, none, false, if◌then◌else◌, ◌&&◌, arith,
}
use dst_nucleus.Daemon.{
  KernelAction, idle, booting, waiting, Conf, Daemon, main_turn, api_start, api_stop, api_restart,
  master_exits, caves_exits, turn, Option, some, Bool, true, none, system_halt, false, success200,
}

-- `main` takes what is in the bus, and goes on to the next head of its loop.
abbrev pub two_turns : Conf → Daemon → Daemon
two_turns c d = main_turn c (main_turn c d)

-- Is the action pending, if any, one that `main` survives? `动作_执行系统关机` is never sent on the bus.
abbrev pub IsBusAction : Option KernelAction → Type 0
IsBusAction none = Unit
IsBusAction (some a) = a ≢ system_halt

-- A stop request to a running daemon ends, whatever action but the halt of the system was pending
-- and however the crash policy is set, with `main` waiting for a start, the gate shut and no process
-- left; a start request is then taken, and behind the boot that follows `main` waits for an action, and of the two shards
-- exactly those run that the configuration enables.
pub api_stop_stops :
    (c : Conf) (d : Daemon)
    → d.phase ≡ waiting
    → IsBusAction d.action_bus
    → let d' = two_turns c (api_stop true d).0 in
      (d'.phase ≡ idle)
      × (d'.run_gate ≡ false)
      × (d'.master_running ≡ false)
      × (d'.caves_running ≡ false)
      × ((api_start true d').1 ≡ success200)
      × ((main_turn c (api_start true d').0).phase ≡ waiting)
      × ((main_turn c (api_start true d').0).master_running ≡ c.enable_master)
      × ((main_turn c (api_start true d').0).caves_running ≡ c.enable_caves)
unfolding main_turn turn api_stop api_start
api_stop_stops c d h b = ground arith

-- A restart request to a running daemon with an empty bus boots again exactly when restarts after a
-- crash are enabled; otherwise `main` is left waiting for a start, with the gate shut.
pub api_restart_needs_crash_reboot :
    (c : Conf) (d : Daemon)
    → d.phase ≡ waiting
    → d.action_bus ≡ none
    → let d' = two_turns c (api_restart true d).0 in
      (d'.phase ≡ (if c.crash_reboot then booting else idle)) × (d'.run_gate ≡ c.crash_reboot)
unfolding main_turn turn api_restart
api_restart_needs_crash_reboot c d h b = ground arith

-- When a shard exits by itself and nothing else is pending, `main` goes round with both
-- shards down, and boots again exactly when restarts after a crash are enabled and the gate is open.
pub crash_reboots :
    (c : Conf) (d : Daemon) (master : Bool)
    → d.phase ≡ waiting
    → d.action_bus ≡ none
    → let d' = two_turns c (if master then master_exits d else caves_exits d) in
      (d'.phase ≡ (if c.crash_reboot && d.run_gate then booting else idle))
      × (d'.master_running ≡ false)
      × (d'.caves_running ≡ false)
unfolding main_turn turn master_exits caves_exits
crash_reboots c d master h b = ground arith
