-- ===== src/Updates/Search/First.antt =====
-- The first occurrence of a key in a text.
use mathlib.Core.Option
use dst_nucleus.Prelude.{
  [], ◌∷◌, ◌++◌, Bytes, ◌≡◌, refl, ap, ◌∙◌, sym, some, true, false, ◌&&◌, ◌==◌, ◌≤◌, length,
  length-append, drop, has_prefix, arith, append_assoc, ◌<◌, ℕ, none, suc, Bool-cases, ◌+◌, zero,
  inr, inl,
}
use dst_nucleus.Updates.Search.{index_of, behind}

pub has_prefix-append :
    (s r p : Bytes) → length p ≤ length s → has_prefix (s ++ r) p ≡ has_prefix s p
has_prefix-append s r [] h = refl
has_prefix-append [] r (q ∷ ps) h = ground arith
has_prefix-append (c ∷ cs) r (q ∷ ps) h =
    ap (λ b. c == q && b) (has_prefix-append cs r ps (omega arith))

pub has_prefix_self : (p r : Bytes) → has_prefix (p ++ r) p ≡ true
has_prefix_self [] r = refl
has_prefix_self (c ∷ cs) r = ground (arith, has_prefix_self cs r)

pub drop-append : (xs ys : Bytes) → drop (length xs) (xs ++ ys) ≡ ys
drop-append [] ys = refl
drop-append (x ∷ xs) ys = drop-append xs ys

-- In front of the key, no occurrence of it starts.
abbrev pub IsFirst : Bytes → Bytes → Type 0
IsFirst key [] = Unit
IsFirst key (c ∷ cs) = (has_prefix ((c ∷ cs) ++ key) key ≡ false) × IsFirst key cs

pub index_of-prefix : (key s : Bytes) → has_prefix s key ≡ true → index_of key s ≡ some s
unfolding index_of
index_of-prefix key [] h = rw h refl
index_of-prefix key (c ∷ cs) h = rw h refl

pub index_of-IsFirst :
    (key gap rest : Bytes)
    → IsFirst key gap
    → index_of key (gap ++ (key ++ rest)) ≡ some (key ++ rest)
unfolding index_of
index_of-IsFirst key [] rest h = index_of-prefix key (key ++ rest) (has_prefix_self key rest)
index_of-IsFirst key (c ∷ cs) rest h =
    let longer : has_prefix (c ∷ (cs ++ (key ++ rest))) key ≡ false =
      ap (λ t. has_prefix (c ∷ t) key) (sym (append_assoc cs key rest))
      ∙ has_prefix-append (c ∷ (cs ++ key)) rest key (ground (arith, length-append cs key))
      ∙ h.0 in
    rw (longer, index_of) (index_of-IsFirst key cs rest h.1)

pub behind-IsFirst :
    (key gap rest : Bytes) → IsFirst key gap → behind key (gap ++ (key ++ rest)) ≡ some rest
unfolding behind
behind-IsFirst key gap rest h =
    ap (Option.map (drop (length key))) (index_of-IsFirst key gap rest h)
    ∙ ap some (drop-append key rest)

pub IsFirst-drop : (key : Bytes) (n : ℕ) (pre : Bytes) → IsFirst key pre → IsFirst key (drop n pre)
IsFirst-drop key zero pre h = h
IsFirst-drop key (suc n) [] h = tt
IsFirst-drop key (suc n) (c ∷ cs) h = IsFirst-drop key n cs h.1

has_prefix-longer : (s p r : Bytes) → has_prefix s p ≡ true → has_prefix (s ++ r) p ≡ true
has_prefix-longer s [] r h = refl
has_prefix-longer [] (q ∷ ps) r h = ground (arith, h)
has_prefix-longer (c ∷ cs) (q ∷ ps) r h = ground (arith, h, has_prefix-longer cs ps r)

has_prefix-length : (s p : Bytes) → has_prefix s p ≡ true → length p ≤ length s
has_prefix-length s [] h = omega arith
has_prefix-length [] (q ∷ ps) h = ground (arith, h)
has_prefix-length (c ∷ cs) (q ∷ ps) h = ground (arith, h, has_prefix-length cs ps)

has_prefix-short : (s p : Bytes) → length s < length p → has_prefix s p ≡ false
has_prefix-short s p lt = elim (Bool-cases (has_prefix s p)) [
  | inl e ↦ absurd (omega (arith, has_prefix-length s p e, lt))
  | inr e ↦ e
]

index_of-small : (key s : Bytes) → length s < length key → index_of key s ≡ none
unfolding index_of
index_of-small key [] lt = rw (has_prefix-short [] key lt) refl
index_of-small key (c ∷ cs) lt =
    rw (has_prefix-short (c ∷ cs) key lt, index_of) (index_of-small key cs (omega arith))

has_prefix-IsFirst :
    (key s future pre u : Bytes) (c : ℕ)
    → s ++ future ≡ (c ∷ pre) ++ (key ++ u)
    → IsFirst key (c ∷ pre)
    → has_prefix s key ≡ false
has_prefix-IsFirst key s future pre u c e h = elim (Bool-cases (has_prefix s key)) [
  | inr q ↦ q
  | inl q ↦
      let whole : has_prefix (s ++ future) key ≡ true = has_prefix-longer s key future q in
      let front : has_prefix ((c ∷ pre) ++ (key ++ u)) key ≡ false =
        ap (λ t. has_prefix t key) (sym (append_assoc (c ∷ pre) key u))
        ∙ has_prefix-append ((c ∷ pre) ++ key) u key (ground (arith, length-append (c ∷ pre) key))
        ∙ h.0 in
      let same : has_prefix ((c ∷ pre) ++ (key ++ u)) key ≡ true =
        ap (λ t. has_prefix t key) (sym e) ∙ whole in
      cc
]

-- A text that stops inside the first occurrence of the key, or in front of it, does not hold it.
pub index_of-short :
    (key s future pre u : Bytes)
    → s ++ future ≡ pre ++ (key ++ u)
    → IsFirst key pre
    → 0 < length key
    → length s < length pre + length key
    → index_of key s ≡ none
unfolding index_of
index_of-short key s future [] u e h filled lt = index_of-small key s (omega arith)
index_of-short key [] future (c ∷ cs) u e h filled lt = rw (has_prefix-short [] key filled) refl
index_of-short key (x ∷ xs) future (c ∷ cs) u e h filled lt =
    rw (has_prefix-IsFirst key (x ∷ xs) future cs u c e h, index_of)
      (index_of-short key xs future cs u (ground (arith, e)) h.1 filled (omega arith))
