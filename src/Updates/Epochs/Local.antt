-- ===== src/Updates/Epochs/Local.antt =====
-- The times that `获取本地模组时间表` takes from SteamCMD's list of workshop items.
use dst_nucleus.Prelude.{
  [], ◌∷◌, Bytes, ℕ, All, ◌≡◌, ◌++◌, ◌<◌, true, none, ◌≢◌, some, ◌≤◌, arith, length, refl, ◌*◌,
  length-append, ◌+◌, ap, ◌-◌,
}
use dst_nucleus.Prelude.Decimal.{
  pos, append_uint, append_uint-digits, append_uint-cons, parse_digits, parse_digits-append_uint,
  is_digit,
}
use dst_nucleus.Mods.Digits.{bytes_to_uint64-append_uint, u64_mod}
use dst_nucleus.Updates.Search.{
  magnitude, magnitude_from, valid, int64_value, signed_value, int64_half,
}
use dst_nucleus.Updates.Epochs.{to_last_quote, behind_last_quote, all_digits, quoted_id, time_key}

abbrev pub Unquoted : Bytes → Type 0
Unquoted = All (λ c. c ≢ b'"')

to_last_quote-none : (s : Bytes) → Unquoted s → to_last_quote s ≡ none
unfolding to_last_quote
to_last_quote-none [] h = refl
to_last_quote-none (c ∷ cs) h = ground (arith, h.0, to_last_quote-none cs h.1)

pub to_last_quote-append :
    (xs rest : Bytes) → Unquoted rest → to_last_quote (xs ++ b'"' ∷ rest) ≡ some xs
unfolding to_last_quote
to_last_quote-append [] rest h = ground (arith, to_last_quote-none rest h)
to_last_quote-append (x ∷ xs) rest h = ground (arith, to_last_quote-append xs rest h)

behind_last_quote-none : (s : Bytes) → Unquoted s → behind_last_quote s ≡ none
unfolding behind_last_quote
behind_last_quote-none [] h = refl
behind_last_quote-none (c ∷ cs) h = ground (arith, h.0, behind_last_quote-none cs h.1)

pub behind_last_quote-append :
    (xs rest : Bytes) → Unquoted rest → behind_last_quote (xs ++ b'"' ∷ rest) ≡ some rest
unfolding behind_last_quote
behind_last_quote-append [] rest h = ground (arith, behind_last_quote-none rest h)
behind_last_quote-append (x ∷ xs) rest h = ground (arith, behind_last_quote-append xs rest h)

all_digits-All : (s : Bytes) → All (λ c. is_digit c ≡ true) s → all_digits s ≡ true
unfolding all_digits
all_digits-All [] h = refl
all_digits-All (c ∷ cs) h = ground (arith, h.0, all_digits-All cs h.1)

pub digits-Unquoted : (s : Bytes) → All (λ c. is_digit c ≡ true) s → Unquoted s
digits-Unquoted [] h = tt
digits-Unquoted (c ∷ cs) h = (ground (arith, h.0), digits-Unquoted cs h.1)

-- The number of a text whose digits stay in range.
parse_digits-ge : (acc : ℕ) (s : Bytes) (n : ℕ) → parse_digits acc s ≡ some n → acc ≤ n
unfolding parse_digits
parse_digits-ge acc [] n e = ground arith
parse_digits-ge acc (c ∷ cs) n e = ground (arith, parse_digits-ge (acc * 10 + (c - b'0')) cs n)

magnitude_from-parse_digits :
    (acc : ℕ) (s : Bytes) (n : ℕ)
    → parse_digits acc s ≡ some n
    → n < 18446744073709551616
    → magnitude_from acc s ≡ valid n
unfolding parse_digits magnitude_from
magnitude_from-parse_digits acc [] n e h = ground arith
magnitude_from-parse_digits acc (c ∷ cs) n e h = ground (
  arith,
  parse_digits-ge (acc * 10 + (c - b'0')) cs n,
  magnitude_from-parse_digits (acc * 10 + (c - b'0')) cs n,
)

pub int64_value-append_uint : (n : ℕ) → n < int64_half → int64_value (append_uint n) ≡ pos n
unfolding int64_value signed_value magnitude
int64_value-append_uint n h =
    let (c, cs, e) = append_uint-cons n in
    let digits : All (λ c. is_digit c ≡ true) (c ∷ cs) = rw e at (append_uint-digits n) in
    let parsed : parse_digits 0 (c ∷ cs) ≡ some n = rw e at (parse_digits-append_uint n) in
    rw e (ground (arith, digits.0, magnitude_from-parse_digits 0 (c ∷ cs) n parsed))

-- The line of an id, and the line of its time.
abbrev pub id_text : ℕ → Bytes
id_text id = b'"' ∷ (append_uint id ++ b'"' ∷ [])

abbrev pub time_text : Bytes → ℕ → Bytes
time_text tabs t = time_key ++ (tabs ++ b'"' ∷ (append_uint t ++ b'"' ∷ []))

pub quoted_id-id_text : (id : ℕ) → id < u64_mod → quoted_id (id_text id) ≡ some id
unfolding quoted_id
quoted_id-id_text id h =
    let (c, cs, e) = append_uint-cons id in
    let long : 2 ≤ length (append_uint id ++ b'"' ∷ []) =
      omega (arith, length-append (append_uint id) (b'"' ∷ []), ap length e) in
    let inner : to_last_quote (append_uint id ++ b'"' ∷ []) ≡ some (append_uint id) =
      to_last_quote-append (append_uint id) [] tt in
    rw (inner, quoted_id)
      (ground (
        arith,
        long,
        length-append (append_uint id) (b'"' ∷ []),
        all_digits-All (append_uint id) (append_uint-digits id),
        bytes_to_uint64-append_uint id h,
      ))
