-- ===== src/Updates/Monitor.antt =====
-- update.go: `运行版本监控`, which asks for updates while the server runs, and `自动安装`; `api_checkupdate` of api.go,
-- which wakes the former. The answers of the probes and of the file system are arguments.
pub mod Alarms
use mathlib.Core.Option
use dst_nucleus.Prelude.{
  List, [], ◌∷◌, ℕ, Bool, true, false, Option, none, some, ◌==◌, not, if◌then◌else◌, ◌+◌,
}
use dst_nucleus.Daemon.{Daemon, KernelAction, post, game_update, mod_hot_update}

-- What wakes the monitor: the ticker, or a request; with the answers that the two probes would give, `true`
-- for an update (`状态_执行成功`).
pub data Alarm : Type 0 where
  ticks : Bool → Bool → Alarm
  asked : Bool → Bool → Alarm
  ended : Alarm

-- The two probes in order: the action that is posted, if one is.
unfoldable pub found_update : Bool → Bool → Option KernelAction
found_update game mods =
    if game then some game_update else if mods then some mod_hot_update else none

-- The daemon, and whether the monitor still runs.
unfoldable pub heed : Option KernelAction → Daemon × Bool → Daemon × Bool → Daemon × Bool
unfolding post
heed none rest now = rest
heed (some a) rest (d, running) = (post a d, false)

-- The monitor over its alarms; without the automatic updates its ticker never wakes it.
unfoldable pub monitor : Bool → List Alarm → Daemon → Daemon × Bool
unfolding found_update heed
monitor auto [] d = (d, true)
monitor auto (ticks game mods ∷ alarms) d =
    let rest = monitor auto alarms d in
    if auto then heed (found_update game mods) rest (d, true) else rest
monitor auto (asked game mods ∷ alarms) d =
    let rest = monitor auto alarms d in heed (found_update game mods) rest (d, true)
monitor auto (ended ∷ alarms) d = (d, false)

pub data Reply : Type 0 where
  success200 post405 invalid409 : Reply

-- `api_checkupdate`: the channel has no buffer, so the monitor must stand at its wait.
unfoldable pub api_checkupdate : Bool → Bool → Reply
api_checkupdate is_post listening =
    if not is_post then post405 else if listening then success200 else invalid409

-- `自动安装`. A round of its first loop: is SteamCMD there, and the code of the installer.
unfoldable pub install_steamcmd : List (Bool × ℕ) → Option (List ℕ)
install_steamcmd [] = none
install_steamcmd ((there, code) ∷ rounds) =
    let later = install_steamcmd rounds in
    if there
    then some []
    else if code == 0
    then some (code ∷ [])
    else Option.map (λ codes. code ∷ codes) later

-- A round of its second loop: is the game there, and is it there when the update has run. The result is how
-- often the update ran, `none` if the rounds do not end the loop.
unfoldable pub install_game : List (Bool × Bool) → Option ℕ
install_game [] = none
install_game ((there, after) ∷ rounds) =
    let later = install_game rounds in
    if there then some 0 else if after then some 1 else Option.map (λ n. 1 + n) later
