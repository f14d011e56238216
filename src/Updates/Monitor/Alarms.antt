-- ===== src/Updates/Monitor/Alarms.antt =====
-- What the monitor makes `main` do.
use dst_nucleus.Prelude.{List, [], ◌∷◌, Bool, true, false, Option, none, some, ◌≡◌, refl, ap, ◌∙◌}
use dst_nucleus.Daemon.{
  Daemon, Conf, KernelAction, Phase, waiting, acting, post, game_update, mod_hot_update, main_turn,
  turn, take_action,
}
use dst_nucleus.Updates.Monitor.{Alarm, ticks, asked, ended, found_update, heed, monitor}

-- The answers of the two probes at the alarms that the monitor heeds, up to its end.
abbrev pub answers : Bool → List Alarm → List (Bool × Bool)
answers auto [] = []
answers true (ticks game mods ∷ alarms) = (game, mods) ∷ answers true alarms
answers false (ticks game mods ∷ alarms) = answers false alarms
answers auto (asked game mods ∷ alarms) = (game, mods) ∷ answers auto alarms
answers auto (ended ∷ alarms) = []

-- The update that the first answer with one stands for, that of the game before that of the mods.
abbrev pub first_update : List (Bool × Bool) → Option KernelAction
first_update [] = none
first_update ((true, mods) ∷ rest) = some game_update
first_update ((false, true) ∷ rest) = some mod_hot_update
first_update ((false, false) ∷ rest) = first_update rest

-- The phase that the main loop is in behind an action.
abbrev pub phase_of : Option KernelAction → Phase
phase_of none = waiting
phase_of (some a) = acting a

abbrev pub posted : Option KernelAction → Daemon → Daemon
posted none d = d
posted (some a) d = post a d

monitor-posted :
    (auto : Bool) (alarms : List Alarm) (d : Daemon)
    → (monitor auto alarms d).0 ≡ posted (first_update (answers auto alarms)) d
unfolding monitor found_update heed
monitor-posted auto [] d = refl
monitor-posted true (ticks true mods ∷ alarms) d = refl
monitor-posted true (ticks false true ∷ alarms) d = refl
monitor-posted true (ticks false false ∷ alarms) d = monitor-posted true alarms d
monitor-posted false (ticks game mods ∷ alarms) d = monitor-posted false alarms d
monitor-posted auto (asked true mods ∷ alarms) d = refl
monitor-posted auto (asked false true ∷ alarms) d = refl
monitor-posted auto (asked false false ∷ alarms) d = monitor-posted auto alarms d
monitor-posted auto (ended ∷ alarms) d = refl

turn-posted :
    (c : Conf) (d : Daemon) (o : Option KernelAction)
    → d.phase ≡ waiting
    → d.action_bus ≡ none
    → (main_turn c (posted o d)).phase ≡ phase_of o
unfolding main_turn turn post take_action
turn-posted c d none p b = rw (p, b) refl
turn-posted c d (some a) p b = rw (p, b) refl

-- While `main` waits and nothing is pending: of all the alarms that the monitor meets, those of the ticker
-- only where the automatic updates are on, the first one at which a probe finds an update decides
-- what `main` does at its next turn, the update of the game before that of the mods; it stays at
-- its wait if none does.
pub monitor-main_turn :
    (c : Conf) (auto : Bool) (alarms : List Alarm) (d : Daemon)
    → d.phase ≡ waiting
    → d.action_bus ≡ none
    → (main_turn c (monitor auto alarms d).0).phase ≡ phase_of (first_update (answers auto alarms))
monitor-main_turn c auto alarms d p b =
    ap (λ e. (main_turn c e).phase) (monitor-posted auto alarms d)
    ∙ turn-posted c d (first_update (answers auto alarms)) p b
