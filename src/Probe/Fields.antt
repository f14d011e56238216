-- ===== src/Probe/Fields.antt =====
-- The line of /proc/<pid>/stat, read by `提取stat字段`.
use dst_nucleus.Prelude.Decimal.{append_uint}
use dst_nucleus.Probe.{after_last, skip_word, field_loop, read_uint, extract_stat_field}
use dst_nucleus.Prelude.{
  ◌∷◌, [], Bytes, List, ℕ, ◌++◌, All, ◌≢◌, ◌≡◌, arith, none, refl, some, length, ◌<◌, ◌≤◌, suc, ◌+◌,
  get_or, length-append, zero, ◌∙◌,
}
use dst_nucleus.Mods.Digits.{u64_mod, span_digits-append_uint, bytes_to_uint64-append_uint}

-- A field: not empty, and without blanks and closing brackets.
abbrev pub IsField : Bytes → Type 0
IsField [] = ⊥
IsField (c ∷ cs) = All (λ x. (x ≢ b' ') × (x ≢ b')')) (c ∷ cs)

-- The fields, each with a blank behind it, and the rest of the text.
abbrev pub fields : Bytes → List Bytes → Bytes
fields tail [] = tail
fields tail (f ∷ fs) = f ++ b' ' ∷ fields tail fs

abbrev pub stat_line : Bytes → List Bytes → Bytes → Bytes
stat_line head fs tail = head ++ b')' ∷ b' ' ∷ fields tail fs

after_last-none : (k : ℕ) (s : Bytes) → All (λ x. x ≢ k) s → after_last k s ≡ none
unfolding after_last
after_last-none k [] h = refl
after_last-none k (c ∷ cs) h = ground (arith, h.0, after_last-none k cs h.1)

after_last-append :
    (k : ℕ) (xs rest : Bytes) → after_last k rest ≡ none → after_last k (xs ++ k ∷ rest) ≡ some rest
unfolding after_last
after_last-append k [] rest h = ground arith
after_last-append k (x ∷ xs) rest h = ground (arith, after_last-append k xs rest h)

field-unbracketed :
    (f rest : Bytes)
    → All (λ x. (x ≢ b' ') × (x ≢ b')')) f
    → All (λ x. x ≢ b')') rest
    → All (λ x. x ≢ b')') (f ++ rest)
field-unbracketed [] rest h k = k
field-unbracketed (c ∷ cs) rest h k = (h.0.1, field-unbracketed cs rest h.1 k)

fields-unbracketed :
    (tail : Bytes) (fs : List Bytes)
    → All (λ x. x ≢ b')') tail
    → All IsField fs
    → All (λ x. x ≢ b')') (fields tail fs)
fields-unbracketed tail [] k h = k
fields-unbracketed tail ([] ∷ fs) k h = absurd h.0
fields-unbracketed tail ((c ∷ cs) ∷ fs) k h =
    field-unbracketed (c ∷ cs) (b' ' ∷ fields tail fs) h.0
      (ground arith, fields-unbracketed tail fs k h.1)

pub skip_word-append :
    (f rest : Bytes)
    → All (λ x. (x ≢ b' ') × (x ≢ b')')) f
    → skip_word (f ++ b' ' ∷ rest) ≡ b' ' ∷ rest
unfolding skip_word
skip_word-append [] rest h = refl
skip_word-append (c ∷ cs) rest h = ground (arith, h.0.0, skip_word-append cs rest h.1)

-- One field that is not the one looked for, with the blank behind it.
field_loop-skip :
    (n idx target : ℕ) (f rest : Bytes)
    → IsField f
    → idx + 1 ≢ target
    → field_loop (suc (suc n)) idx target (f ++ b' ' ∷ rest) ≡ field_loop n (idx + 1) target rest
unfolding field_loop
field_loop-skip n idx target [] rest h ne = absurd h
field_loop-skip n idx target (c ∷ cs) rest h ne =
    ground (arith, h.0.0, ne, skip_word-append cs rest h.1)

pub read_uint-append_uint :
    (v : ℕ) (rest : Bytes) → v < u64_mod → read_uint (append_uint v ++ b' ' ∷ rest) ≡ v
unfolding read_uint
read_uint-append_uint v rest h =
    rw (span_digits-append_uint v (b' ' ∷ rest) refl) (bytes_to_uint64-append_uint v h)

-- The field that is looked for.
field_loop-hit :
    (n idx : ℕ) (f rest : Bytes)
    → IsField f
    → field_loop (suc n) idx (idx + 1) (f ++ b' ' ∷ rest) ≡ read_uint (f ++ b' ' ∷ rest)
unfolding field_loop
field_loop-hit n idx [] rest h = absurd h
field_loop-hit n idx (c ∷ cs) rest h = ground (arith, h.0.0)

length-field : (f rest : Bytes) → IsField f → length rest + 2 ≤ length (f ++ b' ' ∷ rest)
length-field [] rest h = absurd h
length-field (c ∷ cs) rest h = omega (arith, length-append cs (b' ' ∷ rest))

field_loop-fields :
    (n idx j v : ℕ) (tail : Bytes) (fs : List Bytes)
    → All IsField fs
    → length (fields tail fs) ≤ n
    → j < length fs
    → get_or fs j [] ≡ append_uint v
    → v < u64_mod
    → field_loop n idx (idx + 1 + j) (fields tail fs) ≡ v
field_loop-fields n idx j v tail [] h k lt e hv = absurd (omega arith)
field_loop-fields zero idx j v tail (f ∷ fs) h k lt e hv =
    absurd (omega (arith, length-field f (fields tail fs) h.0))
field_loop-fields (suc zero) idx j v tail (f ∷ fs) h k lt e hv =
    absurd (omega (arith, length-field f (fields tail fs) h.0))
field_loop-fields (suc (suc n)) idx zero v tail (f ∷ fs) h k lt e hv =
    let next : idx + 1 + 0 ≡ idx + 1 = omega arith in
    let read : read_uint (f ++ b' ' ∷ fields tail fs) ≡ v =
      rw e (read_uint-append_uint v (fields tail fs) hv) in
    rw next (field_loop-hit (suc n) idx f (fields tail fs) h.0 ∙ read)
field_loop-fields (suc (suc n)) idx (suc j) v tail (f ∷ fs) h k lt e hv =
    let next : idx + 1 + suc j ≡ idx + 1 + 1 + j = omega arith in
    field_loop-skip n idx (idx + 1 + suc j) f (fields tail fs) h.0 (omega arith)
    ∙ rw next (
        field_loop-fields n (idx + 1) j v tail fs h.1
          (omega (arith, length-field f (fields tail fs) h.0)) (omega arith) e hv)

-- Whatever stands in front of the last closing bracket, brackets and blanks included, the j-th field
-- behind it is read when it is the text of a 64-bit number: the fields are not empty, hold no blank
-- and no closing bracket, and have a blank behind them; the rest of the text has no bracket either.
pub extract_stat_field-stat_line :
    (head tail : Bytes) (fs : List Bytes) (j v : ℕ)
    → All (λ x. x ≢ b')') tail
    → All IsField fs
    → j < length fs
    → get_or fs j [] ≡ append_uint v
    → v < u64_mod
    → extract_stat_field (stat_line head fs tail) (1 + j) ≡ v
unfolding extract_stat_field
extract_stat_field-stat_line head tail fs j v k h lt e hv =
    let clean : All (λ x. x ≢ b')') (b' ' ∷ fields tail fs) =
      (ground arith, fields-unbracketed tail fs k h) in
    let found : after_last b')' (stat_line head fs tail) ≡ some (b' ' ∷ fields tail fs) =
      after_last-append b')' head (b' ' ∷ fields tail fs)
        (after_last-none b')' (b' ' ∷ fields tail fs) clean) in
    rw (found, extract_stat_field)
      (field_loop-fields (length (stat_line head fs tail)) 0 j v tail fs h
        (omega (arith, length-append head (b')' ∷ b' ' ∷ fields tail fs))) lt e hv)
