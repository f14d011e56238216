-- ===== src/Config/Pristine.antt =====
use dst_nucleus.Prelude.{
  Bytes, ℕ, ◌∷◌, length, Bool, ◌≡◌, true, if◌then◌else◌, suc, false, ◌==◌, ◌<◌, ◌≤◌, [], Bool-cases,
  arith, zero, ◌↔◌, inl, ◌||◌, refl, sym, inr, ◌∙◌,
}
use Prim.Native.Nat.{ℕ, suc}

-- config.go: is the configuration file on disk still the generated one? Line ends are ignored.

abbrev is_newline : ℕ → Bool
is_newline c = c == b'\r' || c == b'\n'

-- The two inner loops: the suffix at which the cursor stops.
skip_newlines : Bytes → Bytes
skip_newlines [] = []
skip_newlines (c ∷ cs) = if is_newline c then skip_newlines cs else c ∷ cs

-- One round behind the inner loops; `next` is the next round. A cursor is the suffix it stands at.
compare_heads : (Bytes → Bytes → Bool) → Bytes → Bytes → Bool
compare_heads next [] [] = true
compare_heads next (x ∷ xs) (y ∷ ys) = if x == y then next xs ys else false
compare_heads next _ _ = false

-- The outer loop, on fuel.
compare_from : ℕ → Bytes → Bytes → Bool
compare_from zero file tpl = false
compare_from (suc n) file tpl =
    compare_heads (compare_from n) (skip_newlines file) (skip_newlines tpl)

unfoldable pub is_factory_default : Bytes → Bytes → Bool
unfolding compare_from compare_heads skip_newlines
is_factory_default file tpl = compare_from (suc (length file)) file tpl

-- The text without its line ends.
abbrev pub strip_newlines : Bytes → Bytes
strip_newlines [] = []
strip_newlines (c ∷ cs) = if is_newline c then strip_newlines cs else c ∷ strip_newlines cs

strip-skip : (s : Bytes) → strip_newlines (skip_newlines s) ≡ strip_newlines s
unfolding skip_newlines
strip-skip [] = refl
strip-skip (c ∷ cs) = ground (arith, strip-skip cs)

length-skip : (s : Bytes) → length (skip_newlines s) ≤ length s
unfolding skip_newlines
length-skip [] = omega arith
length-skip (c ∷ cs) = ground (arith, length-skip cs)

-- A suffix at which the inner loop stops begins with no line end.
abbrev StartsClean : Bytes → Type 0
StartsClean [] = Unit
StartsClean (c ∷ cs) = is_newline c ≡ false

skip-StartsClean : (s : Bytes) → StartsClean (skip_newlines s)
unfolding skip_newlines
skip-StartsClean [] = tt
skip-StartsClean (c ∷ cs) = elim (Bool-cases (is_newline c)) [
  | inl e ↦ rw e (skip-StartsClean cs)
  | inr e ↦ rw e e
]

compare_heads_iff :
    (next : Bytes → Bytes → Bool) (f t : Bytes)
    → StartsClean f
    → StartsClean t
    → ((xs ys : Bytes)
        → length xs < length f
        → (next xs ys ≡ true) ↔ (strip_newlines xs ≡ strip_newlines ys))
    → (compare_heads next f t ≡ true) ↔ (strip_newlines f ≡ strip_newlines t)
unfolding compare_heads
compare_heads_iff next [] [] p q ih = ground arith
compare_heads_iff next [] (y ∷ ys) p q ih = ground arith
compare_heads_iff next (x ∷ xs) [] p q ih = ground arith
compare_heads_iff next (x ∷ xs) (y ∷ ys) p q ih = ground (arith, ih xs ys (omega arith))

compare_from_iff :
    (n : ℕ) (f t : Bytes)
    → length f < n
    → (compare_from n f t ≡ true) ↔ (strip_newlines f ≡ strip_newlines t)
unfolding compare_from
compare_from_iff zero f t h = absurd (omega arith)
compare_from_iff (suc n) f t h =
    let r =
      compare_heads_iff (compare_from n) (skip_newlines f) (skip_newlines t) (skip-StartsClean f)
        (skip-StartsClean t)
        (λ xs ys lt. compare_from_iff n xs ys (omega (arith, length-skip f))) in
    (
      λ e. sym (strip-skip f) ∙ r.0 e ∙ strip-skip t,
      λ e. r.1 (strip-skip f ∙ e ∙ sym (strip-skip t)),
    )

-- For all files and templates the check terminates and answers true exactly when the two texts
-- are the same once every CR and LF byte is left out.
pub is_factory_default_iff :
    (file tpl : Bytes)
    → (is_factory_default file tpl ≡ true) ↔ (strip_newlines file ≡ strip_newlines tpl)
unfolding is_factory_default
is_factory_default_iff file tpl = compare_from_iff (suc (length file)) file tpl (omega arith)
