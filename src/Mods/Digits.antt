-- ===== src/Mods/Digits.antt =====
-- update.go, `字节转Uint64`: runs of digits as 64-bit numbers, with the wrap-around of the type.
use dst_nucleus.Prelude.{
  ℕ, ◌≡◌, refl, ◌<◌, Bytes, All, ◌++◌, some, ◌∷◌, arith, true, ◌*◌, if◌then◌else◌, ◌%◌, false, [],
  ◌+◌, ◌-◌,
}
use dst_nucleus.Prelude.Decimal.{
  append_uint, is_digit, parse_digits, append_uint-digits, parse_digits-append_uint,
}

abbrev pub u64_mod : ℕ
u64_mod = 18446744073709551616

-- The loop over the bytes; `v - '0'` wraps as a byte does.
unfoldable pub bytes_to_uint64_from : ℕ → Bytes → ℕ
bytes_to_uint64_from n [] = n
bytes_to_uint64_from n (v ∷ b) = bytes_to_uint64_from ((n * 10 + (v + 208) % 256) % u64_mod) b

unfoldable pub bytes_to_uint64 : Bytes → ℕ
unfolding bytes_to_uint64_from
bytes_to_uint64 b = bytes_to_uint64_from 0 b

-- The digits at the head of a text, and what follows them.
unfoldable pub span_digits : Bytes → Bytes × Bytes
span_digits [] = ([], [])
span_digits (c ∷ cs) =
    if is_digit c then (let (ds, rest) = span_digits cs in (c ∷ ds, rest)) else ([], c ∷ cs)

bytes_to_uint64_from-parse :
    (acc : ℕ) (b : Bytes) (n : ℕ)
    → parse_digits acc b ≡ some n
    → bytes_to_uint64_from (acc % u64_mod) b ≡ n % u64_mod
unfolding bytes_to_uint64_from parse_digits
bytes_to_uint64_from-parse acc [] n h = ground arith
bytes_to_uint64_from-parse acc (c ∷ cs) n h =
    ground (arith, bytes_to_uint64_from-parse (acc * 10 + (c - b'0')) cs n)

-- The text of a 64-bit number is read back as that number.
pub bytes_to_uint64-append_uint : (n : ℕ) → n < u64_mod → bytes_to_uint64 (append_uint n) ≡ n
unfolding bytes_to_uint64
bytes_to_uint64-append_uint n h =
    omega (arith, bytes_to_uint64_from-parse 0 (append_uint n) n (parse_digits-append_uint n))

-- A text that starts with something else than a digit, or is empty.
abbrev pub NoDigit : Bytes → Type 0
NoDigit [] = Unit
NoDigit (c ∷ cs) = is_digit c ≡ false

pub span_digits-append :
    (ds rest : Bytes)
    → All (λ c. is_digit c ≡ true) ds
    → NoDigit rest
    → span_digits (ds ++ rest) ≡ (ds, rest)
unfolding span_digits
span_digits-append [] [] h k = refl
span_digits-append [] (c ∷ cs) h k = rw k
span_digits-append (d ∷ ds) rest h k = ground (arith, span_digits-append ds rest h.1)

pub span_digits-append_uint :
    (n : ℕ) (rest : Bytes)
    → NoDigit rest
    → span_digits (append_uint n ++ rest) ≡ (append_uint n, rest)
span_digits-append_uint n rest = span_digits-append (append_uint n) rest (append_uint-digits n)

bytes_to_uint64_from-lt :
    (acc : ℕ) (b : Bytes) → acc < u64_mod → bytes_to_uint64_from acc b < u64_mod
unfolding bytes_to_uint64_from
bytes_to_uint64_from-lt acc [] h = h
bytes_to_uint64_from-lt acc (v ∷ b) h =
    bytes_to_uint64_from-lt ((acc * 10 + (v + 208) % 256) % u64_mod) b (omega arith)

pub bytes_to_uint64-lt : (b : Bytes) → bytes_to_uint64 b < u64_mod
unfolding bytes_to_uint64
bytes_to_uint64-lt b = bytes_to_uint64_from-lt 0 b (omega arith)
