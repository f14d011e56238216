-- ===== src/Updates/Mods.antt =====
-- update.go, `探测模组更新` and `执行模组更新`: is a mod out of date, and which mods are downloaded. The ids
-- are those that `读取行` returns, whose code is always 0.
use dst_nucleus.Prelude.{
  List, [], ◌∷◌, ℕ, Option, Bool, some, false, none, ltb, if◌then◌else◌, true, ◌==◌, length, ◌+◌,
  ◌||◌, not,
}
use dst_nucleus.Prelude.Decimal.{ℤ, pos, pos_part, neg_part}
use dst_nucleus.Updates.Epochs.{Table, epoch_of}
use dst_nucleus.Updates.Version.{Status, success, no_update, failed, blocked}

-- The ids that are not 0.
unfoldable pub target_mods : List ℕ → List ℕ
target_mods [] = []
target_mods (id ∷ ids) = if id == 0 then target_mods ids else id ∷ target_mods ids

-- `本地时间表[id]`, 0 where it is missing.
abbrev pub local_epoch : Table → ℕ → ℤ
local_epoch table id = elim (epoch_of id table) [ none ↦ pos 0 | some t ↦ t ]

abbrev pub after : ℤ → ℤ → Bool
after a b = ltb (pos_part b + neg_part a) (pos_part a + neg_part b)

unfoldable pub is_outdated : Table → Table → ℕ → Bool
unfolding epoch_of
is_outdated local remote id = elim (epoch_of id remote) [
  | none ↦ false
  | some t ↦ after t (local_epoch local id)
]

-- `发现更新`.
unfoldable pub update_available : Table → Table → List ℕ → Bool
unfolding is_outdated
update_available local remote [] = false
update_available local remote (id ∷ ids) =
    is_outdated local remote id || update_available local remote ids

unfoldable pub probe_with : Table → Option Table → List ℕ → Status
unfolding update_available
probe_with local remote [] = no_update
probe_with local none (id ∷ ids) = failed
probe_with local (some remote) (id ∷ ids) =
    if update_available local remote (id ∷ ids) then success else no_update

-- The lock is free again at the end.
unfoldable pub probe_mod_update : Bool → List ℕ → Table → Option Table → Status
unfolding probe_with target_mods
probe_mod_update busy ids local remote =
    if busy then blocked else probe_with local remote (target_mods ids)

-- `差异模组`.
unfoldable pub delta_mods : Table → Table → List ℕ → List ℕ
unfolding is_outdated
delta_mods local remote [] = []
delta_mods local remote (id ∷ ids) =
    let rest = delta_mods local remote ids in
    if is_outdated local remote id then id ∷ rest else rest

-- All of them where a table is missing, or where none differs.
unfoldable pub final_update_list : Table × Bool → Option Table → List ℕ → List ℕ
unfolding delta_mods
final_update_list (local, false) remote targets = targets
final_update_list (local, true) none targets = targets
final_update_list (local, true) (some remote) targets = elim (delta_mods local remote targets) [
  | [] ↦ targets
  | id ∷ ids ↦ id ∷ ids
]

-- The mods that SteamCMD is told to download, and the status; `started` and `finished` are its
-- answers.
unfoldable pub exec_mod_update :
    Bool → List ℕ → Table × Bool → Option Table → Bool → Bool → List ℕ × Status
unfolding final_update_list target_mods
exec_mod_update busy ids local remote started finished =
    if busy then ([], blocked) else if length (target_mods ids) == 0 then ([], no_update) else (
      final_update_list local remote (target_mods ids),
      if not started then failed else if not finished then failed else success,
    )
