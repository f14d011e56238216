-- ===== src/Tests/Machines.antt =====
-- The keepers, the loops beside them, the probes and the streams of epochs.
use dst_nucleus.Mods.Digits.{bytes_to_uint64, span_digits}
use dst_nucleus.Prelude.{
  [], ◌∷◌, ◌++◌, ℕ, true, false, Bytes, Option, none, some, codes, ltb, ◌*◌, ◌-◌, ◌+◌, ◌≡◌, ◌≤◌,
  refl, arith, All,
}
use dst_nucleus.Prelude.Decimal.{pos}
use dst_nucleus.Daemon.{Daemon, Conf, main_turn, waiting}
use dst_nucleus.Telemetry.GameState.{GameState}
use dst_nucleus.Shards.Keeper.{Hold, Meets, run_keeper}
use dst_nucleus.Shards.Keeper.Released.{Released, at_wake, run_keeper-Released}
use dst_nucleus.Shards.Poller.{poll, watching, pulse, expiry, poll_step}
use dst_nucleus.Shards.Poller.Pulse.{NotBefore, poll-NotBefore}
use dst_nucleus.Updates.Monitor.{monitor, ticks, asked}
use dst_nucleus.Updates.Monitor.Alarms.{monitor-main_turn, phase_of, first_update, answers}
use dst_nucleus.Probe.{collect_process}
use dst_nucleus.Probe.Task.{Probed, probe_task, is_pid}
use dst_nucleus.Mods.Digits.{u64_mod}
use Prim.Native.Nat.{◌<◌}
use dst_nucleus.Probe.Share.{IsShare}
use dst_nucleus.Probe.Task.Twice.{cpu_of, file_ticks, probe_task-twice}
use dst_nucleus.Probe.Win32.{
  Win32, probe_win32, Win32Snapshot, collect_win32, times_of, share_u64, sub_u64, time_between,
}
use dst_nucleus.Shards.Pids.{master, caves}

abbrev up : Daemon
up = record {
  phase = waiting;
  run_gate = true;
  action_bus = none;
  kill_switch = true;
  cancelled = false;
  master_running = true;
  caves_running = true;
}

abbrev summer : GameState
summer = record {
  online_players = 3;
  world_days = 20;
  curr_season = 2;
  day_phase = 0;
  season_days_left = 5;
  abs_temp = pos 30;
  is_raining = false;
  is_snowing = false;
  moon_state = 0;
  nightmare_state = 0;
  celestial_wake = false;
  deerclops_timer = 0;
  bearger_timer = 0;
  moose_goose_timer = 0;
  dragonfly_timer = 0;
  bee_queen_timer = 0;
  klaus_timer = 0;
  toadstool_timer = 0;
  fuelweaver_timer = 0;
  malbatross_timer = 0;
  fruit_fly_lord_timer = 0;
  antlion_stomp_min_timer = 0;
}

abbrev held : Hold
held = record {
  daemon = up;
  epoch = 0;
  ready = false;
  pid_word = 9;
  game = summer;
  pipe = some [];
  acts = [];
  group = 2;
}

-- The shard becomes ready, and the other one takes another id.
abbrev busy : Hold → Hold
busy h = record h { ready = true; pid_word = h.pid_word + 1 }

abbrev crash : Meets
crash = record {
  started = some 77;
  now = 1700000000;
  meanwhile = busy;
  crashed = true;
  gone = true;
  obeys = false;
}

run_keeper-Released_example :
    Released master true crash (at_wake master 77 crash held) (run_keeper master true crash held)
run_keeper-Released_example = run_keeper-Released master true crash held 77 refl

poll-NotBefore_example :
    All
      (NotBefore (3000 + 10000))
      (poll master true (watching 9000) (pulse 3000 ∷ expiry 13500 ∷ []))
unfolding poll_step
poll-NotBefore_example =
    poll-NotBefore master true 1000 9000 3000 (expiry 13500 ∷ [])
      (omega arith, tt, (omega arith, omega arith, tt))

abbrev both_shards : Conf
both_shards = record { enable_master = true; enable_caves = true; crash_reboot = true }

monitor-main_turn_example :
    (main_turn both_shards (monitor false (ticks true true ∷ asked false true ∷ []) up).0).phase
    ≡ phase_of (first_update (answers false (ticks true true ∷ asked false true ∷ [])))
monitor-main_turn_example =
    monitor-main_turn both_shards false (ticks true true ∷ asked false true ∷ []) up refl refl

abbrev unprobed : Probed
unprobed = record {
  monitor = record { master_cpu = 0; master_mem = 0; caves_cpu = 0; caves_mem = 0 };
  snapshot = record { master_ticks = 0; caves_ticks = 0; taken = 0 };
}

-- A process that has used so many ticks of user time.
abbrev used : Bytes → ℕ → Option Bytes × Option Bytes
used digits pid =
    (none, some (codes "1 (dst) S 1 1 1 0 -1 0 0 0 0 0 " ++ (digits ++ codes " 4 0 0 20 0 1 ")))

abbrev before : ℕ → Option Bytes × Option Bytes
before = used (codes "100")

abbrev after : ℕ → Option Bytes × Option Bytes
after = used (codes "150")

probe_task-twice_example :
    let r = probe_task after 2000000000 7 (probe_task before 1000000000 7 unprobed) in
    IsShare (cpu_of caves r) (file_ticks after 7) (file_ticks before 7) 1000000000
    × (cpu_of caves r ≤ 1 * 10000)
unfolding is_pid collect_process bytes_to_uint64 span_digits
probe_task-twice_example =
    probe_task-twice caves before after 1000000000 2000000000 7 7 1 unprobed refl refl (omega arith)
      (fits refl) (short refl) (omega arith)
  where
    short :
        ltb ((file_ticks after 7 - file_ticks before 7) * 100000000000) u64_mod ≡ true
        → (file_ticks after 7 - file_ticks before 7) * 100000000000 < u64_mod
    short h = ground arith

    fits :
        ltb ((file_ticks after 7 - file_ticks before 7) * 10000000) (1000000000 + 1) ≡ true
        → (file_ticks after 7 - file_ticks before 7) * 10000000 ≤ 1000000000 * 1
    fits h = ground arith

abbrev idle_snapshot : Win32Snapshot
idle_snapshot = record {
  master_kernel = 0;
  master_user = 0;
  caves_kernel = 0;
  caves_user = 0;
  taken = 0;
}

abbrev with_times : ℕ → ℕ → Win32
with_times kernel pid = record { opened = true; times = some (kernel, 0); working_set = none }

-- On Windows, the master runs, is down, and runs again with another id: the figure of its CPU is out of all
-- bounds, since its times start anew.
restarted_share :
    let first =
      probe_win32 (with_times 5000) 1000 (7 * 4294967296 + 5) (unprobed.monitor, idle_snapshot) in
    let down = probe_win32 (with_times 6000) 2000 5 first in
    let again = probe_win32 (with_times 10) 3000 (8 * 4294967296 + 5) down in
    ltb 1000000 again.0.master_cpu ≡ true
unfolding probe_win32 collect_win32 times_of share_u64 sub_u64 time_between
restarted_share = refl
