-- ===== src/Updates/Freshness.antt =====
-- update.go: `探测模组更新` on the texts that it reads, SteamCMD's list and Steam's answer.
use dst_nucleus.Prelude.{
  List, [], ◌∷◌, ℕ, Bool, true, false, not, ◌&&◌, ◌||◌, Option, none, some, Bytes, ◌≡◌, refl, ap,
  ◌∙◌, ◌++◌, All, if◌then◌else◌, ◌==◌, arith, inl, inr, Bool-cases,
}
use dst_nucleus.Prelude.Decimal.{ℤ, pos}
use dst_nucleus.Mods.Setup.{mem}
use dst_nucleus.Updates.Version.{success, no_update}
use dst_nucleus.Updates.Epochs.{Table, epoch_of, fetch_local_mod_epochs, fetch_remote_mod_epochs}
use dst_nucleus.Updates.Epochs.Blocks.{
  Block, IsBlock, IsHead, lines_of, last_epoch, fetch_local_mod_epochs-lines_of,
}
use dst_nucleus.Updates.Epochs.Remote.{
  Entry, IsEntry, IsTail, answer_text, answer_table, last_update, epoch_of-answer_table,
}
use dst_nucleus.Updates.Mods.{
  target_mods, after, is_outdated, update_available, probe_with, probe_mod_update,
}

-- Is the time at Steam later than the one on disk? A mod that is not on disk has time 0.
abbrev pub is_newer : Option ℤ → Option ℤ → Bool
is_newer local none = false
is_newer none (some t) = after t (pos 0)
is_newer (some s) (some t) = after t s

-- Has one of the mods, of an id that is not 0, a later time at Steam than on disk?
abbrev pub any_newer : List Block → List Entry → List ℕ → Bool
any_newer bs es [] = false
any_newer bs es (id ∷ ids) =
    not (id == 0) && is_newer (last_epoch id bs) (last_update id es) || any_newer bs es ids

is_outdated-is_newer :
    (local remote : Table) (id : ℕ)
    → is_outdated local remote id ≡ is_newer (epoch_of id local) (epoch_of id remote)
unfolding is_outdated
is_outdated-is_newer local remote id = ground arith

module _ (bs : List Block) (es : List Entry) (local remote : Table) where
  -- The tables hold the times of the texts.
  abbrev Hold : ℕ → Type 0
  Hold id = (epoch_of id local ≡ last_epoch id bs) × (epoch_of id remote ≡ last_update id es)

  update_available-any_newer :
      (ids : List ℕ)
      → All Hold (target_mods ids)
      → update_available local remote (target_mods ids) ≡ any_newer bs es ids
  unfolding update_available target_mods
  update_available-any_newer [] h = refl
  update_available-any_newer (id ∷ ids) h = elim (Bool-cases (id == 0)) [
    | inl e ↦ rw e (update_available-any_newer ids (rw e at h))
    | inr e ↦
        let g : All Hold (id ∷ target_mods ids) = rw e at h in
        rw (e, update_available, is_outdated-is_newer local remote id, g.0.0, g.0.1)
          (ap (λ b. is_newer (last_epoch id bs) (last_update id es) || b)
            (update_available-any_newer ids g.1))
  ]

All-mem : {P : ℕ → Type 0} (xs : List ℕ) → ((k : ℕ) → mem k xs ≡ true → P k) → All P xs
unfolding mem
All-mem [] f = tt
All-mem (x ∷ xs) f = (f x (ground arith), All-mem xs (λ k m. f k (ground (arith, m))))

probe_with-answer_text :
    (local : Table) (es : List Entry) (tail : Bytes) (targets : List ℕ)
    → probe_with local (fetch_remote_mod_epochs targets (some (answer_text es tail))) targets
      ≡ (if update_available local (answer_table es tail) targets then success else no_update)
unfolding probe_with fetch_remote_mod_epochs update_available
probe_with-answer_text local es tail [] = refl
probe_with-answer_text local es tail (id ∷ ids) = refl

-- When SteamCMD's list of items, behind a head without an id on a line of its own, and Steam's answer are
-- well formed, whatever other lines stand in the items and whatever other text in the answer, the probe finds an update just if some mod of the list of ids, of an id that is not 0, has in
-- its last entry of the answer a later time than in its last item on disk, with time 0 for a mod that
-- is not on disk.
pub probe_mod_update-any_newer :
    (ids : List ℕ) (head : List Bytes) (bs : List Block) (es : List Entry) (tail : Bytes)
    → All IsHead head
    → All IsBlock bs
    → All IsEntry es
    → IsTail tail
    → probe_mod_update false ids
        (fetch_local_mod_epochs (target_mods ids) (some (head ++ lines_of bs))).0
        (fetch_remote_mod_epochs (target_mods ids) (some (answer_text es tail)))
      ≡ (if any_newer bs es ids then success else no_update)
unfolding probe_mod_update
probe_mod_update-any_newer ids head bs es tail hd hb he ht =
    let local : Table = (fetch_local_mod_epochs (target_mods ids) (some (head ++ lines_of bs))).0 in
    let held : All (Hold bs es local (answer_table es tail)) (target_mods ids) =
      All-mem (target_mods ids) (λ k m. (
        (fetch_local_mod_epochs-lines_of (target_mods ids) head bs k hd hb).0
            ∙ ap (λ b. if b then last_epoch k bs else none) m,
        epoch_of-answer_table k es tail he ht,
      )) in
    let found = update_available-any_newer bs es local (answer_table es tail) ids held in
    probe_with-answer_text local es tail (target_mods ids)
    ∙ ap (λ b. if b then success else no_update) found
