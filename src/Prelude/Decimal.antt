-- ===== src/Prelude/Decimal.antt =====
-- Decimal text as the program prints it (`strconv.AppendUint`, `AppendInt`) and reads it
-- (`strconv.ParseUint`, `ParseInt`), and signed integers for the latter.
pub mod Rounds
use Prim.Native.Nat.{ℕ, zero, suc, ◌+◌, ◌-◌, ◌*◌, ◌/◌, ◌%◌, ◌^◌, ◌≤◌, ◌<◌}
use mathlib.Core.Path.{◌≡◌}
use mathlib.Core.Logic.{inl, inr}
use mathlib.Core.Bool.{Bool, true, false, ◌&&◌}
use mathlib.Core.Option
use mathlib.Core.Option.{Option, none, some}
use mathlib.Core.List.{[], ◌∷◌, ◌++◌}
use native.Mathlib.Omega.{arith}
use native.Mathlib.Nat.{pow-suc}
use dst_nucleus.Prelude.Compare.{ltb, leb, ◌==◌, if◌then◌else◌, Bool-cases, lt→ltb}
use dst_nucleus.Prelude.Sequence.{Bytes, length, All, All-append, length-append}

abbrev pub is_digit : ℕ → Bool
is_digit c = leb b'0' c && leb c b'9'

-- The number n is below the fuel `suc n`, and each round divides it by ten.
decimal_onto : ℕ → ℕ → Bytes
decimal_onto zero n = []
decimal_onto (suc f) n = elim (ltb n 10) [
  | true ↦ (b'0' + n) ∷ []
  | false ↦ decimal_onto f (n / 10) ++ (b'0' + n % 10) ∷ []
]

-- `strconv.AppendUint(nil, n, 10)`.
unfoldable pub append_uint : ℕ → Bytes
unfolding decimal_onto
append_uint n = decimal_onto (suc n) n

-- `negsuc n` is -(n + 1).
pub data ℤ : Type 0 where
  pos : ℕ → ℤ
  negsuc : ℕ → ℤ

-- `strconv.AppendInt(nil, z, 10)`.
unfoldable pub append_int : ℤ → Bytes
append_int (pos n) = append_uint n
append_int (negsuc n) = b'-' ∷ append_uint (suc n)

-- The digits of a text read from the left; `none` at any other byte.
unfoldable pub parse_digits : ℕ → Bytes → Option ℕ
parse_digits acc [] = some acc
parse_digits acc (c ∷ cs) = if is_digit c then parse_digits (acc * 10 + (c - b'0')) cs else none

-- A result below the bound, or an error of range.
abbrev below : ℕ → Option ℕ → Option ℕ
below bound none = none
below bound (some n) = if ltb n bound then some n else none

-- `strconv.ParseUint(s, 10, bits)` with `bound` = 2 ^ bits; `none` is any error.
unfoldable pub parse_uint : ℕ → Bytes → Option ℕ
unfolding parse_digits
parse_uint bound [] = none
parse_uint bound (c ∷ cs) = below bound (parse_digits 0 (c ∷ cs))

-- The negative of a magnitude.
abbrev pub negated : ℕ → ℤ
negated zero = pos 0
negated (suc n) = negsuc n

-- `strconv.ParseInt(s, 10, bits)` with `half` = 2 ^ (bits - 1); `none` is any error.
unfoldable pub parse_int : ℕ → Bytes → Option ℤ
unfolding parse_uint
parse_int half [] = none
parse_int half (c ∷ cs) =
    if c == b'-'
    then Option.map negated (parse_uint (half + 1) cs)
    else if c == b'+'
    then Option.map pos (parse_uint half cs)
    else Option.map pos (parse_uint half (c ∷ cs))

pub parse_digits-append :
    (acc : ℕ) (xs ys : Bytes) (n : ℕ)
    → parse_digits acc xs ≡ some n
    → parse_digits acc (xs ++ ys) ≡ parse_digits n ys
unfolding parse_digits
parse_digits-append acc [] ys n h = ground arith
parse_digits-append acc (x ∷ xs) ys n h =
    ground (arith, parse_digits-append (acc * 10 + (x - b'0')) xs ys n)

parse_digits-decimal : (f n : ℕ) → n < f → parse_digits 0 (decimal_onto f n) ≡ some n
unfolding parse_digits decimal_onto
parse_digits-decimal zero n h = absurd (omega arith)
parse_digits-decimal (suc f) n h = elim (Bool-cases (ltb n 10)) [
  | inl e ↦ ground arith
  | inr e ↦ ground (
    arith,
    parse_digits-decimal f (n / 10),
    parse_digits-append 0 (decimal_onto f (n / 10)) ((b'0' + n % 10) ∷ []) (n / 10),
  )
]

decimal_onto-cons : (f n : ℕ) → n < f → (c : ℕ) × (cs : Bytes) × (decimal_onto f n ≡ c ∷ cs)
unfolding decimal_onto
decimal_onto-cons zero n h = absurd (omega arith)
decimal_onto-cons (suc f) n h = elim (Bool-cases (ltb n 10)) [
  | inl e ↦ (b'0' + n, [], ground arith)
  | inr e ↦
      let (c, cs, p) = decimal_onto-cons f (n / 10) (ground arith) in
      (c, cs ++ (b'0' + n % 10) ∷ [], ground arith)
]

-- A number below the bound is read back from its text.
pub parse_uint-append_uint : (bound n : ℕ) → n < bound → parse_uint bound (append_uint n) ≡ some n
unfolding parse_uint append_uint
parse_uint-append_uint bound n h =
    let (c, cs, p) = decimal_onto-cons (suc n) n (omega arith) in
    ground (arith, parse_digits-decimal (suc n) n)

decimal_onto_last : (f n : ℕ) → ltb n 10 ≡ true → decimal_onto (suc f) n ≡ (b'0' + n) ∷ []
unfolding decimal_onto
decimal_onto_last f n e = ground arith

decimal_onto_more :
    (f n : ℕ)
    → ltb n 10 ≡ false
    → decimal_onto (suc f) n ≡ decimal_onto f (n / 10) ++ (b'0' + n % 10) ∷ []
unfolding decimal_onto
decimal_onto_more f n e = ground arith

-- The text of a number holds digits only.
decimal_onto-digits : (f n : ℕ) → All (λ c. is_digit c ≡ true) (decimal_onto f n)
decimal_onto-digits zero n = unfold decimal_onto in tt
decimal_onto-digits (suc f) n = elim (Bool-cases (ltb n 10)) [
  | inl e ↦ rw (decimal_onto_last f n e) (ground arith, tt)
  | inr e ↦ rw (decimal_onto_more f n e) (
      All-append (λ c. is_digit c ≡ true) (decimal_onto f (n / 10)) _
        (decimal_onto-digits f (n / 10)) (ground arith, tt))
]

pub append_uint-digits : (n : ℕ) → All (λ c. is_digit c ≡ true) (append_uint n)
unfolding append_uint
append_uint-digits n = decimal_onto-digits (suc n) n

pub append_uint-cons : (n : ℕ) → (c : ℕ) × (cs : Bytes) × (append_uint n ≡ c ∷ cs)
unfolding append_uint
append_uint-cons n = decimal_onto-cons (suc n) n (omega arith)

length-decimal_onto : (k f n : ℕ) → n < 10 ^ suc k → length (decimal_onto f n) ≤ suc k
length-decimal_onto k zero n h = unfold decimal_onto in omega arith
length-decimal_onto zero (suc f) n h = rw (decimal_onto_last f n (lt→ltb n 10 h)) (omega arith)
length-decimal_onto (suc k) (suc f) n h = elim (Bool-cases (ltb n 10)) [
  | inl e ↦ rw (decimal_onto_last f n e) (omega arith)
  | inr e ↦ rw (decimal_onto_more f n e) (
      omega (
        arith,
        length-append (decimal_onto f (n / 10)) ((b'0' + n % 10) ∷ []),
        length-decimal_onto k f (n / 10) (omega (arith, pow-suc 10 (suc k), h)),
      ))
]

-- A number below 10 ^ (k + 1) is written in at most k + 1 digits.
pub length-append_uint : (k n : ℕ) → n < 10 ^ suc k → length (append_uint n) ≤ suc k
unfolding append_uint
length-append_uint k n h = length-decimal_onto k (suc n) n h

abbrev pub pos_part : ℤ → ℕ
pos_part (pos n) = n
pos_part (negsuc n) = 0

abbrev pub neg_part : ℤ → ℕ
neg_part (pos n) = 0
neg_part (negsuc n) = suc n

pub parse_digits-append_uint : (n : ℕ) → parse_digits 0 (append_uint n) ≡ some n
unfolding append_uint
parse_digits-append_uint n = parse_digits-decimal (suc n) n (omega arith)

unfoldable pub suc_ℤ : ℤ → ℤ
suc_ℤ (pos n) = pos (suc n)
suc_ℤ (negsuc zero) = pos 0
suc_ℤ (negsuc (suc n)) = negsuc n

unfoldable pub pred_ℤ : ℤ → ℤ
pred_ℤ (pos zero) = negsuc 0
pred_ℤ (pos (suc n)) = pos n
pred_ℤ (negsuc n) = negsuc (suc n)

unfoldable pub eqb_ℤ : ℤ → ℤ → Bool
eqb_ℤ (pos n) (pos m) = n == m
eqb_ℤ (negsuc n) (negsuc m) = n == m
eqb_ℤ (pos n) (negsuc m) = false
eqb_ℤ (negsuc n) (pos m) = false
