-- ===== src/Daemon.antt =====
-- main.go, game.go, api.go: the life of the daemon. `main` waits for a start signal, boots the two
-- game processes, waits for an action, and takes everything down before it goes round again. The
-- API handlers and the process watchers act on the state that `main` reads.
pub mod Lifecycle
pub mod Control
pub mod Reboot
pub mod Announce
use dst_nucleus.Prelude.{ℕ, Bool, none, if◌then◌else◌, true, false, ◌&&◌, Option, not, some}

pub data KernelAction : Type 0 where
  noop master_crash caves_crash game_update mod_hot_update api_halt system_halt : KernelAction

-- Where `main` stands: at the wait for `API唤醒通道`; in front of the boot; at the wait for an
-- action; behind it, with the children still to be taken down; returned.
pub data Phase : Type 0 where
  idle booting waiting stopped : Phase
  acting : KernelAction → Phase

-- The switches of the configuration that the loop reads.
pub record Conf : Type 0 where
  pub enable_master : Bool
  pub enable_caves : Bool
  pub crash_reboot : Bool

pub record Daemon : Type 0 where
  pub phase : Phase
  pub run_gate : Bool  -- 允许服务器运行原子锁
  pub action_bus : Option KernelAction  -- a channel of capacity 1
  pub kill_switch : Bool  -- is 全局局部生命周期终结 set?
  pub cancelled : Bool  -- is 生命周期 done?
  pub master_running : Bool
  pub caves_running : Bool

-- `select { case 动作总线 <- a: default: }`.
unfoldable pub post : KernelAction → Daemon → Daemon
post a d = record d { action_bus = elim d.action_bus [ none ↦ some a | some b ↦ some b ] }

-- The head of the loop, with the gate as it is loaded there.
unfoldable pub loop_head : Daemon → Daemon
loop_head d = record d { phase = if d.run_gate then booting else idle }

-- `context.WithCancel`: the next context of the shards.
unfoldable pub make_context : Daemon → Daemon
make_context d = record d { cancelled = false }

-- `全局局部生命周期终结.Store(&终止函数)`.
unfoldable pub arm : Daemon → Daemon
arm d = record d { kill_switch = true }

-- `select { case <-动作总线: default: }`: a stale action is dropped.
unfoldable pub drain : Daemon → Daemon
drain d = record d { action_bus = none }

-- The processes that the configuration enables are started, and `main` comes to its wait.
unfoldable pub launch : Conf → Daemon → Daemon
launch c d = record d {
  phase = waiting;
  master_running = c.enable_master;
  caves_running = c.enable_caves;
}

-- From the boot to the wait, where nothing comes between.
unfoldable pub boot : Conf → Daemon → Daemon
unfolding launch drain arm make_context
boot c d = launch c (drain (arm (make_context d)))

-- The wait for an action; without one `main` stays where it is.
unfoldable pub take_action : Daemon → Daemon
take_action d = elim d.action_bus [
  | none ↦ d
  | some a ↦ record d { phase = acting a; action_bus = none }
]

-- `终止生命周期()`.
unfoldable pub call_cancel : Daemon → Daemon
call_cancel d = record d { cancelled = true }

-- `全局局部生命周期终结.Store(nil)`.
unfoldable pub disarm : Daemon → Daemon
disarm d = record d { kill_switch = false }

-- The two calls, and `wg.Wait()`, which returns when both processes are gone.
unfoldable pub take_down : Daemon → Daemon
unfolding disarm call_cancel
take_down d = record (disarm (call_cancel d)) { master_running = false; caves_running = false }

-- The gate behind the second switch on the action.
unfoldable pub gate_after : Conf → KernelAction → Bool → Bool
gate_after c master_crash gate = c.crash_reboot && gate
gate_after c caves_crash gate = c.crash_reboot && gate
gate_after c api_halt gate = c.crash_reboot && gate
gate_after c noop gate = gate
gate_after c game_update gate = gate
gate_after c mod_hot_update gate = gate
gate_after c system_halt gate = gate

-- From the first switch on the action to the next head of the loop.
unfoldable pub finish_action : Conf → KernelAction → Daemon → Daemon
unfolding take_down gate_after loop_head
finish_action c system_halt d = record (take_down d) { phase = stopped }
finish_action c noop d = loop_head (take_down d)
finish_action c master_crash d =
    loop_head (record (take_down d) { run_gate = gate_after c master_crash d.run_gate })
finish_action c caves_crash d =
    loop_head (record (take_down d) { run_gate = gate_after c caves_crash d.run_gate })
finish_action c game_update d = loop_head (take_down d)
finish_action c mod_hot_update d = loop_head (take_down d)
finish_action c api_halt d =
    loop_head (record (take_down d) { run_gate = gate_after c api_halt d.run_gate })

unfoldable pub turn : Conf → Phase → Daemon → Daemon
unfolding boot take_action finish_action
turn c idle d = d
turn c booting d = boot c d
turn c waiting d = take_action d
turn c (acting a) d = finish_action c a d
turn c stopped d = d

-- One turn of `main` by itself, from where it stands; it does not leave a wait that nothing ends.
unfoldable pub main_turn : Conf → Daemon → Daemon
unfolding turn
main_turn c d = turn c d.phase d

-- `API唤醒通道 <- struct{}{}` is received only where `main` waits for it.
unfoldable pub wake : Daemon → Phase → Daemon × Bool
wake d idle = (record d { phase = booting }, true)
wake d booting = (d, false)
wake d waiting = (d, false)
wake d stopped = (d, false)
wake d (acting a) = (d, false)

pub data Response : Type 0 where
  success200 post405 blocked409 : Response

unfoldable pub api_start : Bool → Daemon → Daemon × Response
unfolding wake
api_start is_post d =
    if not is_post
    then (d, post405)
    else let (d', received) = wake d d.phase in
      if received then (record d' { run_gate = true }, success200) else (d', blocked409)

-- `旧指针 != nil && CompareAndSwap(旧指针, nil)`: did this handler get the cancel function?
unfoldable pub take_switch : Daemon → Daemon × Bool
unfolding disarm
take_switch d = (disarm d, d.kill_switch)

-- With the call of what it got.
unfoldable pub cancel_shards : Daemon → Daemon
unfolding take_switch call_cancel
cancel_shards d = let (d', taken) = take_switch d in if taken then call_cancel d' else d'

unfoldable pub api_stop : Bool → Daemon → Daemon × Response
unfolding post cancel_shards
api_stop is_post d =
    if not is_post
    then (d, post405)
    else (cancel_shards (post api_halt (record d { run_gate = false })), success200)

unfoldable pub api_restart : Bool → Daemon → Daemon × Response
unfolding post cancel_shards wake
api_restart is_post d =
    if not is_post
    then (d, post405)
    else let d' = cancel_shards (post api_halt (record d { run_gate = true })) in
      ((wake d' d'.phase).0, success200)

-- `运行主世界`, from the end of the process on: a crash is posted, and the deferred cancel takes the
-- other shard down too.
unfoldable pub master_exits : Daemon → Daemon
unfolding post
master_exits d = record (post master_crash d) { master_running = false; cancelled = true }

unfoldable pub caves_exits : Daemon → Daemon
unfolding post
caves_exits d = record (post caves_crash d) { caves_running = false; cancelled = true }

-- The two functions where `生命周期` is done: they return without an action.
unfoldable pub master_aborts : Daemon → Daemon
master_aborts d = if d.cancelled then record d { master_running = false } else d

unfoldable pub caves_aborts : Daemon → Daemon
caves_aborts d = if d.cancelled then record d { caves_running = false } else d
