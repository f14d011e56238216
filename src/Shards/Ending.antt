-- ===== src/Shards/Ending.antt =====
-- game.go, `杀掉进程`: how a process is ended when its keeper returns. The process itself, and whether it
-- is gone within 10 seconds of its order to shut down, are what the arguments say.
pub mod Ends
use dst_nucleus.Prelude.{
  List, [], ◌∷◌, Bool, true, false, Option, none, some, Bytes, codes, if◌then◌else◌, not,
}
use dst_nucleus.Commands.{offer}

-- What `杀掉进程` finds: was the process started, is it ready, did it end before (`死亡传感器`), and does it
-- end in time when it is told to?
pub record Found : Type 0 where
  pub started : Bool
  pub ready : Bool
  pub gone : Bool
  pub obeys : Bool

-- What is done, in order: the order goes to the channel, `终止生命周期` kills, and `<-死亡传感器` waits until
-- the process is gone.
pub data Act : Type 0 where
  ordered killed awaited : Act

abbrev pub shutdown_order : Bytes
shutdown_order = codes "c_shutdown(true)\n"

unfoldable pub kill_ordered : Bool → List Act
kill_ordered obeys = ordered ∷ (if obeys then awaited ∷ [] else killed ∷ awaited ∷ [])

-- The second half, behind the test whether the process is gone; `none` where the channel is nil.
unfoldable pub kill_ready : Bool → Option (List Bytes) → List Act × Option (List Bytes)
unfolding kill_ordered
kill_ready obeys none = (killed ∷ awaited ∷ [], none)
kill_ready obeys (some pipe) =
    let (pipe', sent) = offer shutdown_order pipe in
    (if sent then kill_ordered obeys else killed ∷ awaited ∷ [], some pipe')

unfoldable pub kill_process : Found → Option (List Bytes) → List Act × Option (List Bytes)
unfolding kill_ready
kill_process f pipe =
    if not f.started
    then ([], pipe)
    else if not f.ready
    then (killed ∷ awaited ∷ [], pipe)
    else if f.gone
    then ([], pipe)
    else kill_ready f.obeys pipe
