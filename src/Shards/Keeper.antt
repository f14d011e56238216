-- ===== src/Shards/Keeper.antt =====
-- game.go, `运行主世界` and `运行洞穴`: the two keepers of the game processes, from their call to the last of
-- their deferred calls. What the process does, and what the others do while a keeper waits, are
-- arguments.
pub mod Released
use dst_nucleus.Prelude.{
  List, [], ◌∷◌, ℕ, Bool, true, false, Option, none, some, Bytes, ◌-◌, if◌then◌else◌,
}
use dst_nucleus.Daemon.{KernelAction, Daemon, post, master_crash, caves_crash}
use dst_nucleus.Telemetry.GameState.{GameState, init_game_state}
use dst_nucleus.Shards.Pids.{Shard, master, caves, put, clear, new_pid}
use dst_nucleus.Shards.Ending.{Found, Act, kill_process}

-- What a keeper writes to. `acts` is what was done to its process.
pub record Hold : Type 0 where
  pub daemon : Daemon
  pub epoch : ℕ  -- 当前世代
  pub ready : Bool  -- 就绪原子锁
  pub pid_word : ℕ
  pub game : GameState
  pub pipe : Option (List Bytes)
  pub acts : List Act
  pub group : ℕ  -- wg

-- What a keeper meets: the process id, if the process starts; the clock; what happens while it waits;
-- whether the end of the process wakes it, and not the end of `生命周期`; and how the process ends.
pub record Meets : Type 0 where
  pub started : Option ℕ
  pub now : ℕ
  pub meanwhile : Hold → Hold
  pub crashed : Bool
  pub gone : Bool
  pub obeys : Bool

unfoldable pub crash_of : Shard → KernelAction
crash_of master = master_crash
crash_of caves = caves_crash

unfoldable pub post_crash : Shard → Hold → Hold
unfolding post crash_of
post_crash s h = record h { daemon = post (crash_of s) h.daemon }

unfoldable pub set_running : Shard → Daemon → Daemon
set_running master d = record d { master_running = false }
set_running caves d = record d { caves_running = false }

-- `终止生命周期` and `wg.Done`, the two that are deferred first.
unfoldable pub sign_off : Shard → Hold → Hold
unfolding set_running
sign_off s h = record h {
  daemon = set_running s (record h.daemon { cancelled = true });
  group = h.group - 1;
}

-- The deferred calls that every way out of a keeper runs, the last one first.
unfoldable pub release : Shard → Bool → Hold → Hold
unfolding sign_off
release master enable_master h =
    let unready = record h { ready = false } in
    let cleared = record unready { game = init_game_state unready.game } in
    sign_off master (record cleared { epoch = 0 })
release caves enable_master h =
    let cleared = if enable_master then h else record h { game = init_game_state h.game } in
    let unready = record cleared { ready = false } in sign_off caves (record unready { epoch = 0 })

-- The deferred call of `杀掉进程`.
unfoldable pub end_process : Meets → Hold → Hold
end_process e h =
    let found : Found = record {
      started = true;
      ready = h.ready;
      gone = e.gone;
      obeys = e.obeys;
    } in
    let (acts, pipe) = kill_process found h.pipe in record h { acts = acts; pipe = pipe }

unfoldable pub keep_started : Shard → ℕ → Meets → Hold → Hold
unfolding post_crash end_process
keep_started s pid e h =
    let up = record h { epoch = e.now; pid_word = new_pid s (put pid) h.pid_word } in
    let waited = e.meanwhile up in
    let told = if e.crashed then post_crash s waited else waited in
    let cleared = record told { pid_word = new_pid s clear told.pid_word } in end_process e cleared

unfoldable pub run_keeper : Shard → Bool → Meets → Hold → Hold
unfolding keep_started release
run_keeper s enable_master e h = elim e.started [
  | none ↦ release s enable_master (post_crash s h)
  | some pid ↦ release s enable_master (keep_started s pid e h)
]
