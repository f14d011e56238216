-- ===== src/Mods/Overrides.antt =====
-- update.go, `解析Modoverrides`: the ids that a modoverrides.lua enables. A cursor is the byte that
-- stands before it, if any, and the suffix that it stands at; `深度` may fall below zero.
pub mod Bounds
use dst_nucleus.Mods.Digits.{bytes_to_uint64, span_digits}
use dst_nucleus.Prelude.Decimal.{is_digit, suc_ℤ, eqb_ℤ, pos, pred_ℤ, ℤ}
use dst_nucleus.Prelude.{
  ℕ, Bool, Option, ◌||◌, List, Bytes, ◌==◌, leb, true, false, ◌∷◌, some, if◌then◌else◌, length, suc,
  none, not, [], zero, ◌&&◌, drop, ◌++◌, has_prefix, codes,
}
use dst_nucleus.Mods.Setup.{mem, skip_comment, skip_quoted, workshop}

pub record Cursor : Type 0 where
  pub before : Option ℕ
  pub rest : Bytes

pub record State : Type 0 where
  pub result : List ℕ
  pub seen : List ℕ
  pub depth : ℤ
  pub curr_id : ℕ
  pub disabled : Bool

-- `字符合法表`: digits, letters and the underscore.
unfoldable pub is_var_char : ℕ → Bool
is_var_char b = is_digit b || (leb b'A' b && leb b b'Z') || (leb b'a' b && leb b b'z') || b == b'_'

-- The first byte of a text, if it has one, passes a test or there is none.
abbrev pub clean : Option ℕ → Bool
clean none = true
clean (some b) = not (is_var_char b)

abbrev pub is_space : ℕ → Bool
is_space c = c == b' ' || c == b'\t' || c == b'\r' || c == b'\n'

abbrev pub is_key_space : ℕ → Bool
is_key_space c = c == b' ' || c == b'\t' || c == b'"' || c == b'\''

unfoldable pub skip_while : (ℕ → Bool) → Option ℕ → Bytes → Cursor
skip_while p before [] = record { before = before; rest = [] }
skip_while p before (c ∷ cs) =
    if p c then skip_while p (some c) cs else record { before = before; rest = c ∷ cs }

is_opener : ℕ → Bool
is_opener c = c == b'"' || c == b'\''

first_is : ℕ → Bytes → Bool
first_is k [] = false
first_is k (c ∷ cs) = c == k

first_of_text : Bytes → Option ℕ
first_of_text [] = none
first_of_text (c ∷ cs) = some c

-- Behind `[`: blanks and quotes, `workshop-`, digits, blanks and quotes, `]`. The id and the suffix
-- behind the bracket; `none` where the text is another.
key_end : Bytes → Bytes → Option (ℕ × Bytes)
key_end [] r = none
key_end (d ∷ ds) r = if first_is b']' r then some (bytes_to_uint64 (d ∷ ds), drop 1 r) else none

unfoldable pub key_hit : Bytes → Option (ℕ × Bytes)
unfolding key_end first_is
key_hit cs =
    let a = (skip_while is_key_space none cs).rest in
    let digits = span_digits (drop 9 a) in
    let r = (skip_while is_key_space none digits.1).rest in
    if has_prefix a workshop then key_end digits.0 r else none

-- The value behind `=`: does it start with an f, and where the cursor stops.
enabled_value : Cursor → Bool × Cursor
enabled_value c = (first_is b'f' c.rest || first_is b'F' c.rest, c)

-- At an `e`, with `cs` behind it.
unfoldable pub enabled_hit : Option ℕ → Bytes → Option (Bool × Cursor)
unfolding first_is first_of_text enabled_value
enabled_hit before cs =
    let t = (skip_while is_space (some b'd') (drop 6 cs)).rest in
    if has_prefix cs (codes "nabled") && (clean before && clean (first_of_text (drop 6 cs)))
    then (if first_is b'=' t
        then some (enabled_value (skip_while is_space (some b'=') (drop 1 t)))
        else none)
    else none

-- `case '}'`.
unfoldable pub close_brace : State → State
unfolding eqb_ℤ pred_ℤ mem
close_brace st =
    let ended = eqb_ℤ st.depth (pos 2) && not (st.curr_id == 0) in
    let adds = ended && (not st.disabled && not (mem st.curr_id st.seen)) in
    record st {
      result = if adds then st.result ++ st.curr_id ∷ [] else st.result;
      seen = if adds then st.curr_id ∷ st.seen else st.seen;
      curr_id = if ended then 0 else st.curr_id;
      depth = pred_ℤ st.depth;
    }

abbrev pub here : ℕ → Bytes → Cursor
here c cs = record { before = some c; rest = cs }

take_key : State → Bytes → Option (ℕ × Bytes) → State × Cursor
take_key st cs none = (st, here b'[' cs)
take_key st cs (some (id, rest)) = (record st { curr_id = id; disabled = false }, here b']' rest)

take_enabled : State → Bytes → Option (Bool × Cursor) → State × Cursor
take_enabled st cs none = (st, here b'e' cs)
take_enabled st cs (some (off, cur)) = (record st { disabled = off || st.disabled }, cur)

-- One round of the loop, at a byte `c` with `cs` behind it and `before` in front of it.
unfoldable pub overrides_step : State → Option ℕ → ℕ → Bytes → State × Cursor
unfolding is_opener close_brace take_key take_enabled skip_quoted suc_ℤ eqb_ℤ
overrides_step st before c cs =
    if is_space c
    then (st, here c cs)
    else if c == b'-' && has_prefix cs (b'-' ∷ [])
    then (st, skip_while (λ k. not (k == b'\n')) (some b'-') (drop 1 cs))
    else if is_opener c
    then (st, here c (skip_quoted c cs))
    else if c == b'{'
    then (record st { depth = suc_ℤ st.depth }, here c cs)
    else if c == b'}'
    then (close_brace st, here c cs)
    else if eqb_ℤ st.depth (pos 1) && c == b'['
    then take_key st cs (key_hit cs)
    else if eqb_ℤ st.depth (pos 2) && not (st.curr_id == 0) && c == b'e'
    then take_enabled st cs (enabled_hit before cs)
    else (st, here c cs)

-- The loop, on fuel.
unfoldable pub overrides_loop : ℕ → State → Option ℕ → Bytes → State
unfolding overrides_step
overrides_loop zero st before s = st
overrides_loop (suc n) st before [] = st
overrides_loop (suc n) st before (c ∷ cs) =
    let (st', cur) = overrides_step st before c cs in overrides_loop n st' cur.before cur.rest

abbrev pub start : List ℕ → List ℕ → State
start result seen = record {
  result = result;
  seen = seen;
  depth = pos 0;
  curr_id = 0;
  disabled = false;
}

-- The ids found so far and the keys of `排重字典`, behind the whole text.
unfoldable pub parse_mod_overrides : Bytes → List ℕ → List ℕ → List ℕ × List ℕ
unfolding overrides_loop
parse_mod_overrides content result seen =
    let st = overrides_loop (length content) (start result seen) none content in
    (st.result, st.seen)
