-- ===== src/Daemon/Lifecycle.antt =====
-- Every interleaving of `main`, the process watchers, the API handlers, the version monitor and the
-- signal watchdog, in the atomic steps of each.
use dst_nucleus.Prelude.{◌≡◌, Bool, arith, false, true, if◌then◌else◌, none, ◌||◌}
use dst_nucleus.Daemon.{
  KernelAction, Phase, idle, booting, waiting, stopped, acting, Conf, Daemon, post, make_context,
  arm, drain, launch, take_action, call_cancel, disarm, gate_after, loop_head, take_switch, wake,
  Bool, system_halt, false, true, none,
}

-- Where `main` stands within a boot or a take-down: at a place that its phase names; behind
-- `WithCancel`; behind the `Store` of the cancel function; behind the drain of the bus; behind
-- `终止生命周期()`; behind `Store(nil)`; behind the second switch on the action.
pub data Point : Type 0 where
  settled made armed drained closing closed gated : Point

-- `taken`: did a handler get the cancel function of the present context without having called it?
-- A call that comes only when the next context is made ends a context that is done already.
pub record World : Type 0 where
  pub daemon : Daemon
  pub point : Point
  pub taken : Bool

-- `main` as it is entered: nothing runs, and the gate is `自动启动服务器`.
abbrev pub initial : Bool → World
initial auto_start = record {
  daemon = record {
    phase = if auto_start then booting else idle;
    run_gate = auto_start;
    action_bus = none;
    kill_switch = false;
    cancelled = true;
    master_running = false;
    caves_running = false;
  };
  point = settled;
  taken = false;
}

-- A step of another goroutine than `main` on what they share.
abbrev pub with_daemon : World → Daemon → World
with_daemon w d = record w { daemon = d }

abbrev pub main_at : Point → World → Daemon → World
main_at p w d = record w { daemon = d; point = p }

unfoldable pub make_step : World → World
unfolding make_context
make_step w = record { daemon = make_context w.daemon; point = made; taken = false }

-- `CompareAndSwap(旧指针, nil)` of a handler.
unfoldable pub take_step : World → World
unfolding take_switch
take_step w = let (d, got) = take_switch w.daemon in record w { daemon = d; taken = got || w.taken }

-- The call of the function that it got.
unfoldable pub call_step : World → World
unfolding call_cancel
call_step w = record w { daemon = call_cancel w.daemon; taken = false }

-- What a handler does apart from its answer, a shard's watcher, a monitor and the watchdog can come at
-- any time and in any order here, which includes the orders of their code.
pub data Step (c : Conf) : World → World → Type 0 where
  -- `main`
  makes : (w : World) → w.daemon.phase ≡ booting → w.point ≡ settled → Step c w (make_step w)
  arms : (w : World) → w.point ≡ made → Step c w (main_at armed w (arm w.daemon))
  drains : (w : World) → w.point ≡ armed → Step c w (main_at drained w (drain w.daemon))
  launches : (w : World) → w.point ≡ drained → Step c w (main_at settled w (launch c w.daemon))
  takes_action :
      (w : World)
      → w.daemon.phase ≡ waiting
      → w.point ≡ settled
      → Step c w (with_daemon w (take_action w.daemon))
  halts :
      (w : World)
      → w.daemon.phase ≡ waiting
      → w.point ≡ settled
      → Step c w (with_daemon w (record w.daemon { phase = acting system_halt }))
  closes :
      (w : World) (a : KernelAction)
      → w.daemon.phase ≡ acting a
      → w.point ≡ settled
      → Step c w (main_at closing w (call_cancel w.daemon))
  disarms : (w : World) → w.point ≡ closing → Step c w (main_at closed w (disarm w.daemon))
  -- `wg.Wait` has returned
  gates :
      (w : World) (a : KernelAction)
      → w.daemon.phase ≡ acting a
      → w.point ≡ closed
      → w.daemon.master_running ≡ false
      → w.daemon.caves_running ≡ false
      → Step c w (main_at gated w (record w.daemon { run_gate = gate_after c a w.daemon.run_gate }))
  goes_round : (w : World) → w.point ≡ gated → Step c w (main_at settled w (loop_head w.daemon))
  returns :
      (w : World)
      → w.point ≡ gated
      → Step c w (main_at settled w (record w.daemon { phase = stopped }))
  quits :
      (w : World)
      → w.daemon.phase ≡ idle
      → Step c w (with_daemon w (record w.daemon { phase = stopped }))
  -- the handlers
  wakes : (w : World) → Step c w (with_daemon w (wake w.daemon w.daemon.phase).0)
  sets_gate : (w : World) (b : Bool) → Step c w (with_daemon w (record w.daemon { run_gate = b }))
  takes_switch : (w : World) → Step c w (take_step w)
  calls : (w : World) → w.taken ≡ true → Step c w (call_step w)
  -- a handler, a watcher of a shard, the log watcher or `运行版本监控`
  posts : (w : World) (a : KernelAction) → Step c w (with_daemon w (post a w.daemon))
  -- the deferred cancel of a shard's watcher, or the end of the global lifetime
  cancels : (w : World) → Step c w (with_daemon w (call_cancel w.daemon))
  master_ends : (w : World) → Step c w (with_daemon w (record w.daemon { master_running = false }))
  caves_ends : (w : World) → Step c w (with_daemon w (record w.daemon { caves_running = false }))

pub data Reach (c : Conf) (s : World) : World → Type 0 where
  here : Reach c s s
  next : {t u : World} → Reach c s t → Step c t u → Reach c s u

-- The phases in which `main` can stand at each point.
abbrev pub stands : Point → Phase → Bool
stands settled p = true
stands made booting = true
stands armed booting = true
stands drained booting = true
stands closing (acting a) = true
stands closed (acting a) = true
stands gated (acting a) = true
stands p q = false

-- Is `main` between the start of the shards and the return of `wg.Wait`?
abbrev pub is_up : Point → Phase → Bool
is_up settled waiting = true
is_up settled (acting a) = true
is_up closing p = true
is_up closed p = true
is_up p q = false

-- Is `main` between `Store(&终止函数)` and `Store(nil)`?
abbrev pub is_armable : Point → Phase → Bool
is_armable settled waiting = true
is_armable settled (acting a) = true
is_armable armed p = true
is_armable drained p = true
is_armable closing p = true
is_armable p q = false

-- Is the context made and the switch still to be set?
abbrev pub is_made : Point → Bool
is_made made = true
is_made p = false

abbrev pub is_closing : Point → Bool
is_closing closing = true
is_closing closed = true
is_closing gated = true
is_closing p = false

-- A game process runs only while `main` is up, only shards that the configuration enables run, the
-- switch is set only between its two stores, and a context that is not done can be ended by the switch,
-- or a handler is about to end it, or `main` is about to set the switch.
pub record IsSafe (c : Conf) (w : World) : Type 0 where
  pub placed : stands w.point w.daemon.phase ≡ true
  pub master_up : w.daemon.master_running ≡ true → is_up w.point w.daemon.phase ≡ true
  pub caves_up : w.daemon.caves_running ≡ true → is_up w.point w.daemon.phase ≡ true
  pub master_enabled : w.daemon.master_running ≡ true → c.enable_master ≡ true
  pub caves_enabled : w.daemon.caves_running ≡ true → c.enable_caves ≡ true
  pub switch_set : w.daemon.kill_switch ≡ true → is_armable w.point w.daemon.phase ≡ true
  pub switch_kept :
      w.daemon.cancelled ≡ false → (w.daemon.kill_switch || w.taken || is_made w.point) ≡ true
  pub done : is_closing w.point ≡ true → w.daemon.cancelled ≡ true

initial-IsSafe : (c : Conf) (auto_start : Bool) → IsSafe c (initial auto_start)
initial-IsSafe c true = ground arith
initial-IsSafe c false = ground arith

Step-IsSafe : {c : Conf} {v w : World} → Step c v w → IsSafe c v → IsSafe c w
Step-IsSafe (makes w h p) s = unfold make_step make_context in ground arith
Step-IsSafe (arms w p) s = unfold arm in ground arith
Step-IsSafe (drains w p) s = unfold drain in ground arith
Step-IsSafe (launches w p) s = unfold launch in ground arith
Step-IsSafe (takes_action w h p) s = unfold take_action in ground arith
Step-IsSafe (halts w h p) s = ground arith
Step-IsSafe (closes w a h p) s = unfold call_cancel in ground arith
Step-IsSafe (disarms w p) s = unfold disarm in ground arith
Step-IsSafe (gates w a h p m k) s = ground arith
Step-IsSafe (goes_round w p) s = unfold loop_head in ground arith
Step-IsSafe (returns w p) s = ground arith
Step-IsSafe (quits w h) s = ground arith
Step-IsSafe (wakes w) s = unfold wake in ground arith
Step-IsSafe (sets_gate w b) s = ground arith
Step-IsSafe (takes_switch w) s = unfold take_step take_switch disarm in ground arith
Step-IsSafe (calls w t) s = unfold call_step call_cancel in ground arith
Step-IsSafe (posts w a) s = unfold post in ground arith
Step-IsSafe (cancels w) s = unfold call_cancel in ground arith
Step-IsSafe (master_ends w) s = ground arith
Step-IsSafe (caves_ends w) s = ground arith

-- In every state that any interleaving of the atomic steps of `main`, the handlers, the watchers and the
-- monitors reaches from the start of `main`, in any configuration: a game process runs only between its
-- start and the return of the wait for it, and only if it is enabled; the kill switch is set only between
-- the store of the cancel function and the store of nil; and a context of the shards that is not done
-- has its switch set, or a handler has taken the switch and is still to call it, or `main` is about to
-- set it, having just made the context.
pub Reach-IsSafe :
    {c : Conf} {auto_start : Bool} {w : World} → Reach c (initial auto_start) w → IsSafe c w
Reach-IsSafe {c} {auto_start} here = initial-IsSafe c auto_start
Reach-IsSafe (next r st) = Step-IsSafe st (Reach-IsSafe r)
