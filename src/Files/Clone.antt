-- ===== src/Files/Clone.antt =====
-- update.go, `复制文件`: a file is copied to a temporary file, which is renamed over the target when
-- the source did not change meanwhile; three rounds at most.
use dst_nucleus.Prelude.{
  ℕ, Bool, Option, Bytes, some, arith, none, suc, ◌≡◌, ◌<◌, if◌then◌else◌, length, ◌+◌, not, zero,
  ◌≢◌, Bool-cases, inl, inr, true, refl, false, ◌≤◌,
}
use Prim.Native.Nat.{ℕ, suc}
use dst_nucleus.Files.Stream.{Disk, rename_retry}
use dst_nucleus.Files.Snapshot.{Stat, same_stat}

-- What the calls of one round answer; `copied` is the text that `io.Copy` wrote to the temporary
-- file, or `none` behind its error, where the file holds `part`. The answers of `Sync` and `Close` are
-- not looked at: where one of them fails, `spoiled` is what the temporary file holds afterwards.
pub record Clone : Type 0 where
  pub before : Option Stat
  pub open_source : Bool
  pub create : Bool
  pub copied : Option Bytes
  pub part : Bytes
  pub spoiled : Option Bytes
  pub remove : Bool
  pub after : Option Stat
  pub rename : ℕ → Bool

pub record Outcome : Type 0 where
  pub count : ℕ
  pub code : ℕ
  pub disk : Disk

-- What the rename moves.
abbrev pub kept : Clone → Bytes → Bytes
kept c text = elim c.spoiled [ none ↦ text | some t ↦ t ]

-- `os.Remove(临时路径)`, whose answer is not looked at: a file that stays has a name of its own, and is
-- there whatever comes after it.
leave_temp : Clone → Bytes → Outcome → Outcome
leave_temp c text r = if c.remove then r else record r { disk = record r.disk { temp = some text } }

abbrev fail : Disk → ℕ → Outcome
fail d code = record { count = 0; code = code; disk = d }

-- Behind the second look.
clone_end : Clone → Bool → Bytes → Disk → Outcome → Outcome
unfolding rename_retry leave_temp
clone_end c same text d retry =
    if not same
    then leave_temp c (kept c text) retry
    else if rename_retry c.rename 0 5
    then record { count = length text; code = 0; disk = record d { target = some (kept c text) } }
    else leave_temp c (kept c text) (fail d 130)

copied_end : Clone → Stat → Option Stat → Bytes → Disk → Outcome → Outcome
unfolding clone_end same_stat leave_temp
copied_end c s none text d retry = leave_temp c (kept c text) (fail d 129)
copied_end c s (some t) text d retry = clone_end c (same_stat s t) text d retry

copy_end : Clone → Stat → Option Bytes → Disk → Outcome → Outcome
unfolding copied_end leave_temp
copy_end c s none d retry = leave_temp c c.part (fail d 128)
copy_end c s (some text) d retry = copied_end c s c.after text d retry

-- A round behind its first look.
clone_round : Clone → Option Stat → Disk → Outcome → Outcome
unfolding copy_end
clone_round c none d retry = fail d 128
clone_round c (some s) d retry =
    if not c.open_source
    then fail d 129
    else if not c.create
    then fail d 130
    else copy_end c s c.copied d retry

clone_from : (ℕ → Clone) → ℕ → ℕ → Disk → Outcome
unfolding clone_round
clone_from rounds i zero d = fail d 131
clone_from rounds i (suc k) d =
    let retry = clone_from rounds (i + 1) k d in clone_round (rounds i) (rounds i).before d retry

unfoldable pub clone_file : (ℕ → Clone) → Disk → Outcome
unfolding clone_from
clone_file rounds d = clone_from rounds 0 3 d

-- A round that copied `text` whole, between two looks at the source that agree.
pub record Whole (c : Clone) (text : Bytes) : Type 0 where
  pub stat : Stat
  pub later : Stat
  pub before : c.before ≡ some stat
  pub after : c.after ≡ some later
  pub same : same_stat stat later ≡ true
  pub copied : c.copied ≡ some text

-- A copy succeeds, and the target holds the text that one of the rounds copied, or what a failed Sync
-- or Close made of it, and the length of the text is returned; or it fails and the target is what it was.
-- A temporary file is left only by a round that could not remove it.
pub record Cloned (rounds : ℕ → Clone) (d : Disk) (r : Outcome) : Type 0 where
  pub copied :
      r.code ≡ 0
      → (j : ℕ) × (text : Bytes) × (j < 3)
        × Whole (rounds j) text
        × (r.disk.target ≡ some (kept (rounds j) text))
        × (r.count ≡ length text)
  pub untouched : r.code ≢ 0 → (r.disk.target ≡ d.target) × (r.count ≡ 0)
  pub left : r.disk.temp ≢ none → (j : ℕ) × (j < 3) × ((rounds j).remove ≡ false)

module _ (rounds : ℕ → Clone) (d : Disk) (clean : d.temp ≡ none) where
  fail-Cloned : (code : ℕ) → 0 < code → Cloned rounds d (fail d code)
  fail-Cloned code h = record {
    copied = λ e. absurd (omega arith);
    untouched = λ e. (refl, refl);
    left = λ ne. absurd (ne clean);
  }

  leave_temp-Cloned :
      (i : ℕ) (text : Bytes) (r : Outcome)
      → i < 3
      → Cloned rounds d r
      → Cloned rounds d (leave_temp (rounds i) text r)
  unfolding leave_temp
  leave_temp-Cloned i text r hi q = elim (Bool-cases (rounds i).remove) [
    | inl e ↦ rw e q
    | inr e ↦ rw e (record { copied = q.copied; untouched = q.untouched; left = λ ne. (i, hi, e) })
  ]

  Cloned-if :
      (b : Bool) {x y : Outcome}
      → Cloned rounds d x
      → Cloned rounds d y
      → Cloned rounds d (if b then x else y)
  Cloned-if true p q = p
  Cloned-if false p q = q

  moved-Cloned :
      (i : ℕ) (text : Bytes)
      → i < 3
      → Whole (rounds i) text
      → Cloned rounds d (record {
        count = length text;
        code = 0;
        disk = record d { target = some (kept (rounds i) text) };
      })
  moved-Cloned i text hi w = record {
    copied = λ z. (i, text, hi, w, refl, refl);
    untouched = λ ne. absurd (ne refl);
    left = λ ne. absurd (ne clean);
  }

  clone_end-Cloned :
      (i : ℕ) (same : Bool) (text : Bytes) (retry : Outcome)
      → i < 3
      → (same ≡ true → Whole (rounds i) text)
      → Cloned rounds d retry
      → Cloned rounds d (clone_end (rounds i) same text d retry)
  unfolding clone_end
  clone_end-Cloned i false text retry hi w r = leave_temp-Cloned i (kept (rounds i) text) retry hi r
  clone_end-Cloned i true text retry hi w r =
      Cloned-if (rename_retry (rounds i).rename 0 5) (moved-Cloned i text hi (w refl))
        (leave_temp-Cloned i (kept (rounds i) text) (fail d 130) hi (fail-Cloned 130 (omega arith)))

  copied_end-Cloned :
      (i : ℕ) (s : Stat) (t : Option Stat) (text : Bytes) (retry : Outcome)
      → i < 3
      → (rounds i).before ≡ some s
      → (rounds i).copied ≡ some text
      → (rounds i).after ≡ t
      → Cloned rounds d retry
      → Cloned rounds d (copied_end (rounds i) s t text d retry)
  unfolding copied_end
  copied_end-Cloned i s none text retry hi hb hc ha r =
      leave_temp-Cloned i (kept (rounds i) text) (fail d 129) hi (fail-Cloned 129 (omega arith))
  copied_end-Cloned i s (some t) text retry hi hb hc ha r =
      clone_end-Cloned i (same_stat s t) text retry hi
        (λ e. record { stat = s; later = t; before = hb; after = ha; same = e; copied = hc }) r

  copy_end-Cloned :
      (i : ℕ) (s : Stat) (c : Option Bytes) (retry : Outcome)
      → i < 3
      → (rounds i).before ≡ some s
      → (rounds i).copied ≡ c
      → Cloned rounds d retry
      → Cloned rounds d (copy_end (rounds i) s c d retry)
  unfolding copy_end
  copy_end-Cloned i s none retry hi hb hc r =
      leave_temp-Cloned i (rounds i).part (fail d 128) hi (fail-Cloned 128 (omega arith))
  copy_end-Cloned i s (some text) retry hi hb hc r =
      copied_end-Cloned i s (rounds i).after text retry hi hb hc refl r

  clone_round-Cloned :
      (i : ℕ) (b : Option Stat) (retry : Outcome)
      → i < 3
      → (rounds i).before ≡ b
      → Cloned rounds d retry
      → Cloned rounds d (clone_round (rounds i) b d retry)
  unfolding clone_round
  clone_round-Cloned i none retry hi hb r = fail-Cloned 128 (omega arith)
  clone_round-Cloned i (some s) retry hi hb r =
      Cloned-if (not (rounds i).open_source) (fail-Cloned 129 (omega arith)) (
        Cloned-if (not (rounds i).create) (fail-Cloned 130 (omega arith))
          (copy_end-Cloned i s (rounds i).copied retry hi hb refl r))

  clone_from-Cloned : (i k : ℕ) → i + k ≤ 3 → Cloned rounds d (clone_from rounds i k d)
  unfolding clone_from
  clone_from-Cloned i zero h = fail-Cloned 131 (omega arith)
  clone_from-Cloned i (suc k) h =
      clone_round-Cloned i (rounds i).before (clone_from rounds (i + 1) k d) (omega arith) refl
        (clone_from-Cloned (i + 1) k (omega arith))

-- Whatever the system answers in the three rounds, if no temporary file was there: with code 0 the target
-- holds what became of the text that one round copied whole between two looks with the same time and
-- size, which is the text itself unless its Sync or Close failed, and the length of the text is returned;
-- with another code the target is unchanged and the count is 0. A temporary file is left only if one of
-- the rounds could not remove its own.
pub clone_file-Cloned :
    (rounds : ℕ → Clone) (d : Disk) → d.temp ≡ none → Cloned rounds d (clone_file rounds d)
unfolding clone_file
clone_file-Cloned rounds d clean = clone_from-Cloned rounds d clean 0 3 (omega arith)
