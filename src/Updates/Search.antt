-- ===== src/Updates/Search.antt =====
-- What update.go uses of the standard library on texts: `bytes.Index`, `strconv.ParseInt` with its
-- error left aside, `bytes.TrimSpace` on ASCII text.
pub mod First
use mathlib.Core.Option
use dst_nucleus.Prelude.{
  [], ◌∷◌, ℕ, Bytes, Bool, Option, ◌==◌, ◌-◌, if◌then◌else◌, ◌*◌, leb, ◌+◌, true, has_prefix, ◌||◌,
  ltb, some, false, ◌&&◌, not, none, drop, length,
}
use dst_nucleus.Prelude.Decimal.{ℤ, pos, negated, is_digit}

-- The suffix that starts with the first occurrence of the pattern.
unfoldable pub index_of : Bytes → Bytes → Option Bytes
index_of pattern' [] = if has_prefix [] pattern' then some [] else none
index_of pattern' (c ∷ cs) =
    if has_prefix (c ∷ cs) pattern' then some (c ∷ cs) else index_of pattern' cs

-- The suffix behind the first occurrence.
unfoldable pub behind : Bytes → Bytes → Option Bytes
unfolding index_of
behind pattern' s = Option.map (drop (length pattern')) (index_of pattern' s)

-- The magnitude that `ParseUint` finds with 64 bits, or why it fails; what follows an overflow is not
-- looked at.
pub data Magnitude : Type 0 where
  valid : ℕ → Magnitude
  syntax range : Magnitude

unfoldable pub magnitude_from : ℕ → Bytes → Magnitude
magnitude_from acc [] = valid acc
magnitude_from acc (c ∷ cs) =
    let rest = magnitude_from (acc * 10 + (c - b'0')) cs in
    if not (is_digit c)
    then syntax
    else if ltb (acc * 10 + (c - b'0')) 18446744073709551616
    then rest
    else range

unfoldable pub magnitude : Bytes → Magnitude
unfolding magnitude_from
magnitude [] = syntax
magnitude (c ∷ cs) = magnitude_from 0 (c ∷ cs)

abbrev pub int64_half : ℕ
int64_half = 9223372036854775808

-- `ts, _ := strconv.ParseInt(s, 10, 64)`: 0 for no number, the nearest one out of range.
unfoldable pub signed_value : Bool → Magnitude → ℤ
signed_value negative syntax = pos 0
signed_value false range = pos (int64_half - 1)
signed_value true range = negated int64_half
signed_value false (valid n) = pos (if leb int64_half n then int64_half - 1 else n)
signed_value true (valid n) = negated (if ltb int64_half n then int64_half else n)

unfoldable pub int64_value : Bytes → ℤ
unfolding signed_value magnitude
int64_value [] = pos 0
int64_value (c ∷ cs) =
    if c == b'-'
    then signed_value true (magnitude cs)
    else if c == b'+'
    then signed_value false (magnitude cs)
    else signed_value false (magnitude (c ∷ cs))

abbrev pub is_blank : ℕ → Bool
is_blank c = c == b' ' || leb 9 c && leb c 13

unfoldable pub trim_left : Bytes → Bytes
trim_left [] = []
trim_left (c ∷ cs) = if is_blank c then trim_left cs else c ∷ cs

-- Without the blanks at its end.
unfoldable pub trim_right : Bytes → Bytes
trim_right [] = []
trim_right (c ∷ cs) = elim (trim_right cs) [
  | [] ↦ if is_blank c then [] else c ∷ []
  | d ∷ ds ↦ c ∷ d ∷ ds
]

-- On a text whose first and last bytes are ASCII; Unicode's blanks, which Go strips as well, are kept.
unfoldable pub trim_space : Bytes → Bytes
unfolding trim_left trim_right
trim_space s = trim_right (trim_left s)
