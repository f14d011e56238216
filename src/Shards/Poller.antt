-- ===== src/Shards/Poller.antt =====
-- game.go, `主世界探针轮询器` and `洞穴探针轮询器`: the loops that ask whether a shard is ready, and then put the
-- Lua script into it again when its pulse stops. Times are in milliseconds.
pub mod Pulse
use dst_nucleus.Prelude.{List, [], ◌∷◌, ◌++◌, ℕ, Bool, true, false, ◌+◌, if◌then◌else◌}
use dst_nucleus.Shards.Pids.{Shard, master, caves}

-- Where a loop stands: it waits for the shard to be ready; it watches, until so late; it has returned.
pub data Phase : Type 0 where
  waiting over : Phase
  watching : ℕ → Phase

-- What the loop meets: a tick of 15 seconds, and whether the shard is ready behind it; a pulse; the end of the
-- watchdog's time; the end of `生命周期`.
pub data Meeting : Type 0 where
  tick : ℕ → Bool → Meeting
  pulse : ℕ → Meeting
  expiry : ℕ → Meeting
  done : Meeting

-- What is offered to the command channel, and when.
pub data Offer : Type 0 where
  sonar : ℕ → Offer
  parasite : ℕ → Offer

abbrev pub patience : ℕ
patience = 10000

-- Behind the first loop.
unfoldable pub start_watch : Shard → Bool → ℕ → Phase
start_watch master enable_parasite now = if enable_parasite then watching (now + patience) else over
start_watch caves enable_parasite now = watching (now + patience)

-- The head of the first loop.
unfoldable pub poll_head : Shard → Bool → ℕ → Bool → Phase
unfolding start_watch
poll_head s enable_parasite now ready = if ready then start_watch s enable_parasite now else waiting

unfoldable pub poll_step : Shard → Bool → Phase → Meeting → Phase × List Offer
unfolding poll_head
poll_step s enable_parasite waiting (tick now ready) =
    (poll_head s enable_parasite now ready, sonar now ∷ [])
poll_step s enable_parasite (watching until) (pulse now) = (watching (now + patience), [])
poll_step s enable_parasite (watching until) (expiry now) =
    (watching (now + patience), parasite now ∷ [])
poll_step s enable_parasite p done = (over, [])
poll_step s enable_parasite p _ = (p, [])

unfoldable pub poll : Shard → Bool → Phase → List Meeting → List Offer
unfolding poll_step
poll s enable_parasite p [] = []
poll s enable_parasite p (m ∷ ms) =
    let (p', offers) = poll_step s enable_parasite p m in offers ++ poll s enable_parasite p' ms
