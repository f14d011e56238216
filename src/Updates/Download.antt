-- ===== src/Updates/Download.antt =====
-- update.go: the probe for mod updates against the update that follows it; the race of two requests.
use dst_nucleus.Prelude.{
  [], ◌∷◌, inl, inr, List, Bool, ℕ, ◌≡◌, false, true, ◌&&◌, none, not, some, ◌↔◌, ◌||◌, List-cases,
  length, arith, ap, ◌⊎◌, ◌==◌, ◌∙◌, refl,
}
use dst_nucleus.Mods.Setup.{mem}
use dst_nucleus.Updates.Epochs.{Table}
use dst_nucleus.Updates.Version.{Reply, fire_request, fire_racing_request, success}
use dst_nucleus.Updates.Mods.{
  target_mods, is_outdated, update_available, delta_mods, final_update_list, probe_with,
  probe_mod_update, exec_mod_update,
}

mem-delta_mods :
    (local remote : Table) (targets : List ℕ) (i : ℕ)
    → mem i (delta_mods local remote targets) ≡ (mem i targets && is_outdated local remote i)
unfolding mem delta_mods
mem-delta_mods local remote [] i = refl
mem-delta_mods local remote (id ∷ ids) i =
    ground
      (arith, mem-delta_mods local remote ids i, λ (e : id ≡ i). ap (is_outdated local remote) e)

update_available-delta_mods :
    (local remote : Table) (targets : List ℕ)
    → update_available local remote targets ≡ not (length (delta_mods local remote targets) == 0)
unfolding update_available delta_mods
update_available-delta_mods local remote [] = refl
update_available-delta_mods local remote (id ∷ ids) =
    ground (arith, update_available-delta_mods local remote ids)

-- With both tables and an update, the list is the difference.
final_update_list-delta_mods :
    (local remote : Table) (targets : List ℕ)
    → update_available local remote targets ≡ true
    → final_update_list (local, true) (some remote) targets ≡ delta_mods local remote targets
unfolding final_update_list
final_update_list-delta_mods local remote targets h =
    elim (List-cases (delta_mods local remote targets)) [
      | inl e ↦ ground (arith, update_available-delta_mods local remote targets, ap length e)
      | inr (id, ids, e) ↦ rw (e, final_update_list) refl
    ]

downloads :
    (local : Table) (read : Bool) (remote : Table) (targets : List ℕ) (i : ℕ)
    → update_available local remote targets ≡ true
    → mem i (final_update_list (local, read) (some remote) targets)
      ≡ (mem i targets && (not read || is_outdated local remote i))
downloads local true remote targets i h =
    ap (mem i) (final_update_list-delta_mods local remote targets h)
    ∙ mem-delta_mods local remote targets i
downloads local false remote targets i h = unfold final_update_list in ground arith

-- When a probe with the given tables finds an update, the update that is run with the same tables
-- tells SteamCMD to download, of the ids that are not 0, exactly those that are out of date; or all
-- of them when the local table could not be read. It reports success when SteamCMD does.
pub exec_mod_update-probe_mod_update :
    (ids : List ℕ) (local : Table) (read : Bool) (remote : Table) (i : ℕ)
    → probe_mod_update false ids local (some remote) ≡ success
    → let r = exec_mod_update false ids (local, read) (some remote) true true in
      (mem i r.0 ≡ (mem i (target_mods ids) && (not read || is_outdated local remote i)))
      × (r.1 ≡ success)
unfolding exec_mod_update probe_mod_update probe_with
exec_mod_update-probe_mod_update ids local read remote i h = elim (List-cases (target_mods ids)) [
  | inl e ↦ ground (arith, e)
  | inr (id, rest, e) ↦
      ground (arith, e, ap length e, downloads local read remote (target_mods ids) i)
]

-- The race of the two requests, when both answers come in time: it has an answer exactly when one of
-- the requests has, and its answer is that of one of them; the order of arrival decides only between
-- two answers.
pub fire_racing_request-either :
    (proxy_first : Bool) (proxy direct : Reply)
    → let r = fire_racing_request proxy_first true true proxy direct in
      ((r ≡ none) ↔ ((fire_request proxy ≡ none) × (fire_request direct ≡ none)))
      × ((r ≡ fire_request proxy) ⊎ (r ≡ fire_request direct))
unfolding fire_racing_request
fire_racing_request-either true proxy direct = ground arith
fire_racing_request-either false proxy direct = ground arith
