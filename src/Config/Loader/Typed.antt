-- ===== src/Config/Loader/Typed.antt =====
-- What a field of each type takes from the text of its value, as numbers and letters.
use mathlib.Core.Option
use native.Mathlib.Nat.{pow-succ', add-mul, mul_assoc}
use dst_nucleus.Prelude.{
  ltb, sym, [], ◌∷◌, ℕ, true, false, Option, none, some, Bytes, ◌≡◌, refl, ap, ◌∙◌, ◌+◌, ◌-◌, ◌*◌,
  ◌^◌, ◌&&◌, ◌||◌, ◌==◌, arith, suc, leb, take, length, codes, Bool, if◌then◌else◌, Bool-cases, inl,
  inr, equal,
}
use dst_nucleus.Prelude.Decimal.{ℤ, pos, negated, parse_digits, parse_uint, parse_int}
use dst_nucleus.Config.Loader.{
  FieldValue, flag, word32, word64, int64, text, store_value, says_true,
}

-- A decimal text, by the place of each digit.
abbrev pub number : Bytes → ℕ
number [] = 0
number (c ∷ cs) = (c - b'0') * 10 ^ length cs + number cs

abbrev pub all_digits : Bytes → Bool
all_digits [] = true
all_digits (c ∷ cs) = leb b'0' c && leb c b'9' && all_digits cs

-- The number below a bound that a text writes.
abbrev pub number_below : ℕ → Bytes → Option ℕ
number_below bound [] = none
number_below bound (c ∷ cs) =
    if all_digits (c ∷ cs) && ltb (number (c ∷ cs)) bound then some (number (c ∷ cs)) else none

-- With a sign or without.
abbrev pub number_within : ℕ → Bytes → Option ℤ
number_within half [] = none
number_within half (c ∷ cs) =
    if c == b'-'
    then Option.map negated (number_below (half + 1) cs)
    else Option.map pos (number_below half (if c == b'+' then cs else c ∷ cs))

abbrev pub or_keep {ℓ} : {A : Type ℓ} → Option A → A → A
or_keep none a = a
or_keep (some b) a = b

-- What a field of each type takes from a text, and what it keeps.
abbrev pub reads_as : Bytes → FieldValue → FieldValue
reads_as value (flag b) =
    flag (equal (take 1 value) (codes "t") || equal (take 1 value) (codes "T"))
reads_as value (word32 n) = word32 (or_keep (number_below 4294967296 value) n)
reads_as value (word64 n) = word64 (or_keep (number_below 18446744073709551616 value) n)
reads_as value (int64 z) = int64 (or_keep (number_within 9223372036854775808 value) z)
reads_as value (text s) = text value

parse_digits-number :
    (acc : ℕ) (cs : Bytes)
    → parse_digits acc cs
      ≡ (if all_digits cs then some (acc * 10 ^ length cs + number cs) else none)
unfolding parse_digits
parse_digits-number acc [] = ap some (omega arith)
parse_digits-number acc (c ∷ cs) =
    let n = acc * 10 + (c - b'0') in
    let scale : acc * 10 * 10 ^ length cs ≡ acc * 10 ^ suc (length cs) =
      mul_assoc acc 10 (10 ^ length cs) ∙ ap (λ x. acc * x) (sym (pow-succ' 10 (length cs))) in
    let place : n * 10 ^ length cs + number cs ≡ acc * 10 ^ suc (length cs) + number (c ∷ cs) =
      ap (λ x. x + number cs) (add-mul (acc * 10) (c - b'0') (10 ^ length cs))
      ∙ omega (arith, scale) in
    elim (Bool-cases (leb b'0' c && leb c b'9')) [
      | inl e ↦ ground (arith, e, parse_digits-number n cs, place)
      | inr e ↦ ground (arith, e)
    ]

abbrev if_below : ℕ → Option ℕ → Option ℕ
if_below bound none = none
if_below bound (some n) = if ltb n bound then some n else none

if_below-if :
    (bound n : ℕ) (b : Bool)
    → if_below bound (if b then some n else none) ≡ (if b && ltb n bound then some n else none)
if_below-if bound n true = refl
if_below-if bound n false = refl

parse_uint-number_below : (bound : ℕ) (v : Bytes) → parse_uint bound v ≡ number_below bound v
unfolding parse_uint
parse_uint-number_below bound [] = refl
parse_uint-number_below bound (c ∷ cs) =
    let text = c ∷ cs in
    ap (if_below bound) (
      parse_digits-number 0 text ∙ ap (λ n. if all_digits text then some n else none) (omega arith))
    ∙ if_below-if bound (number text) (all_digits text)

parse_int-number_within : (half : ℕ) (v : Bytes) → parse_int half v ≡ number_within half v
unfolding parse_int
parse_int-number_within half [] = refl
parse_int-number_within half (c ∷ cs) = elim (Bool-cases (c == b'-')) [
  | inl e ↦ rw e (ap (Option.map negated) (parse_uint-number_below (half + 1) cs))
  | inr e ↦ elim (Bool-cases (c == b'+')) [
    | inl p ↦ rw (e, p) (ap (Option.map pos) (parse_uint-number_below half cs))
    | inr p ↦ rw (e, p) (ap (Option.map pos) (parse_uint-number_below half (c ∷ cs)))
  ]
]

or_keep-elim :
    {A : Type 0} (f : A → FieldValue) (a : A) (o o' : Option A)
    → o ≡ o'
    → elim o [ none ↦ f a | some b ↦ f b ] ≡ f (or_keep o' a)
or_keep-elim f a none o' e = ap (λ x. f (or_keep x a)) e
or_keep-elim f a (some b) o' e = ap (λ x. f (or_keep x a)) e

says_true-letter :
    (value : Bytes)
    → says_true value ≡ (equal (take 1 value) (codes "t") || equal (take 1 value) (codes "T"))
unfolding says_true
says_true-letter [] = refl
says_true-letter (c ∷ cs) = ground arith

pub store_value-reads_as : (value : Bytes) (v : FieldValue) → store_value value v ≡ reads_as value v
unfolding store_value
store_value-reads_as value (flag b) = ap flag (says_true-letter value)
store_value-reads_as value (word32 n) =
    or_keep-elim word32 n _ _ (parse_uint-number_below 4294967296 value)
store_value-reads_as value (word64 n) =
    or_keep-elim word64 n _ _ (parse_uint-number_below 18446744073709551616 value)
store_value-reads_as value (int64 z) =
    or_keep-elim int64 z _ _ (parse_int-number_within 9223372036854775808 value)
store_value-reads_as value (text s) = refl
