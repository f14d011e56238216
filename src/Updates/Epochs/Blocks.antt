-- ===== src/Updates/Epochs/Blocks.antt =====
-- The list of workshop items, block by block.
use dst_nucleus.Prelude.{
  [], ◌∷◌, inl, inr, List, Bytes, ℕ, ◌<◌, ◌≡◌, ◌++◌, none, if◌then◌else◌, some, append_assoc, ◌==◌,
  arith, Option, codes, subst, All, has_prefix, false, sym, refl, ◌≢◌, Option-cases, ◌∙◌, true, ap,
}
use dst_nucleus.Prelude.Decimal.{ℤ, pos, append_uint, append_uint-digits, is_digit}
use dst_nucleus.Mods.Digits.{u64_mod}
use dst_nucleus.Mods.Setup.{mem}
use dst_nucleus.Updates.Search.{trim_space, int64_half}
use dst_nucleus.Updates.Epochs.{
  Table, Scan, epoch_of, to_last_quote, behind_last_quote, quoted_id, last_quoted, time_key,
  time_line, local_line, local_lines, fetch_local_mod_epochs, all_digits,
}
use dst_nucleus.Updates.Epochs.Local.{
  Unquoted, to_last_quote-append, behind_last_quote-append, digits-Unquoted,
  int64_value-append_uint, id_text, time_text, quoted_id-id_text,
}

time_text-quote :
    (tabs : Bytes) (t : ℕ)
    → time_text tabs t ≡ ((time_key ++ tabs) ++ b'"' ∷ append_uint t) ++ b'"' ∷ []
time_text-quote tabs t = simp append_assoc

last_quoted-time_text :
    (tabs : Bytes) (t : ℕ) → last_quoted (time_text tabs t) ≡ some (append_uint t)
unfolding last_quoted
last_quoted-time_text tabs t =
    let digits : Unquoted (append_uint t) =
      digits-Unquoted (append_uint t) (append_uint-digits t) in
    let front : to_last_quote (((time_key ++ tabs) ++ b'"' ∷ append_uint t) ++ b'"' ∷ [])
        ≡ some ((time_key ++ tabs) ++ b'"' ∷ append_uint t) =
      to_last_quote-append ((time_key ++ tabs) ++ b'"' ∷ append_uint t) [] tt in
    let key : to_last_quote ((time_key ++ tabs) ++ b'"' ∷ append_uint t) ≡ some (time_key ++ tabs) =
      to_last_quote-append (time_key ++ tabs) (append_uint t) digits in
    let back : behind_last_quote ((time_key ++ tabs) ++ b'"' ∷ append_uint t)
        ≡ some (append_uint t) =
      behind_last_quote-append (time_key ++ tabs) (append_uint t) digits in
    subst (λ s. last_quoted s ≡ some (append_uint t)) (sym (time_text-quote tabs t))
      (rw (front, last_quoted, key) back)

quoted_id-key :
    (c : ℕ) (rest : Bytes) → is_digit c ≡ false → c ≢ b'"' → quoted_id (b'"' ∷ c ∷ rest) ≡ none
unfolding quoted_id to_last_quote all_digits
quoted_id-key c rest h ne = elim (Option-cases (to_last_quote rest)) [
  | inl e ↦ ground (arith, e)
  | inr (before, e) ↦ ground (arith, e)
]

quoted_id-time_text : (tabs : Bytes) (t : ℕ) → quoted_id (time_text tabs t) ≡ none
quoted_id-time_text tabs t =
    quoted_id-key b't' (codes "imeupdated\"" ++ (tabs ++ b'"' ∷ (append_uint t ++ b'"' ∷ []))) refl
      (λ e. ground arith)

time_line-time_text :
    (tabs : Bytes) (t curr : ℕ) (table : Table)
    → t < int64_half
    → time_line (time_text tabs t) (curr, table)
      ≡ (0, if curr == 0 then table else (curr, pos t) ∷ table)
unfolding time_line
time_line-time_text tabs t curr table h =
    ground (arith, last_quoted-time_text tabs t, int64_value-append_uint t h)

-- A line that is neither an id nor a time.
pub record IsOther (line : Bytes) : Type 0 where
  pub no_id : quoted_id (trim_space line) ≡ none
  pub no_time : has_prefix (trim_space line) time_key ≡ false

-- One item: its id's line, some lines, its time's line, some lines. Blanks may stand round each line,
-- and blanks and tabs between the key and the time.
pub record Block : Type 0 where
  pub id : ℕ
  pub epoch : ℕ
  pub id_line : Bytes
  pub between : List Bytes
  pub tabs : Bytes
  pub time_row : Bytes
  pub behind : List Bytes

pub record IsBlock (b : Block) : Type 0 where
  pub positive : 0 < b.id
  pub id_word : b.id < u64_mod
  pub epoch_word : b.epoch < int64_half
  pub id_trimmed : trim_space b.id_line ≡ id_text b.id
  pub time_trimmed : trim_space b.time_row ≡ time_text b.tabs b.epoch
  pub between_other : All IsOther b.between
  pub behind_other : All IsOther b.behind

abbrev pub lines_of : List Block → List Bytes
lines_of [] = []
lines_of (b ∷ bs) = b.id_line ∷ (b.between ++ b.time_row ∷ (b.behind ++ lines_of bs))

-- The time of the last block of an id.
abbrev pub last_epoch : ℕ → List Block → Option ℤ
last_epoch k [] = none
last_epoch k (b ∷ bs) = elim (last_epoch k bs) [
  | some t ↦ some t
  | none ↦ if b.id == k then some (pos b.epoch) else none
]

local_line-other :
    (targets : List ℕ) (line : Bytes) (st : Scan)
    → IsOther line
    → local_line targets (trim_space line) st ≡ st
unfolding local_line time_line
local_line-other targets line (curr, table) h = ground (arith, h.no_id, h.no_time)

local_lines-others :
    (targets : List ℕ) (others rest : List Bytes) (st : Scan)
    → All IsOther others
    → local_lines targets (others ++ rest) st ≡ local_lines targets rest st
unfolding local_lines
local_lines-others targets [] rest st h = refl
local_lines-others targets (line ∷ others) rest st h =
    ap (local_lines targets (others ++ rest)) (local_line-other targets line st h.0)
    ∙ local_lines-others targets others rest st h.1

local_line-id_text :
    (targets : List ℕ) (id : ℕ) (st : Scan)
    → id < u64_mod
    → local_line targets (id_text id) st ≡ (if mem id targets then id else 0, st.1)
unfolding local_line
local_line-id_text targets id (curr, table) h = rw (quoted_id-id_text id h, local_line) refl

local_line-time_text :
    (targets : List ℕ) (tabs : Bytes) (t curr : ℕ) (table : Table)
    → t < int64_half
    → local_line targets (time_text tabs t) (curr, table)
      ≡ (0, if curr == 0 then table else (curr, pos t) ∷ table)
unfolding local_line
local_line-time_text targets tabs t curr table h =
    rw (quoted_id-time_text tabs t, local_line) (time_line-time_text tabs t curr table h)

-- What one block adds to the table.
abbrev added : List ℕ → Block → Table → Table
added targets b table = if mem b.id targets then (b.id, pos b.epoch) ∷ table else table

local_lines-block :
    (targets : List ℕ) (b : Block) (bs : List Block) (st : Scan)
    → IsBlock b
    → local_lines targets (lines_of (b ∷ bs)) st
      ≡ local_lines targets (lines_of bs) (0, added targets b st.1)
unfolding local_lines
local_lines-block targets b bs (c, table) h =
    let curr : ℕ = if mem b.id targets then b.id else 0 in
    let opened : local_line targets (trim_space b.id_line) (c, table) ≡ (curr, table) =
      ap (λ s. local_line targets s (c, table)) h.id_trimmed
      ∙ local_line-id_text targets b.id (c, table) h.id_word in
    let timed : local_line targets (trim_space b.time_row) (curr, table)
        ≡ (0, added targets b table) =
      ap (λ s. local_line targets s (curr, table)) h.time_trimmed
      ∙ local_line-time_text targets b.tabs b.epoch curr table h.epoch_word
      ∙ ap (λ t. (0, t)) (ground (arith, h.positive)) in
    ap (local_lines targets (b.between ++ b.time_row ∷ (b.behind ++ lines_of bs))) opened
    ∙ local_lines-others targets b.between (b.time_row ∷ (b.behind ++ lines_of bs)) (curr, table)
        h.between_other
    ∙ ap (local_lines targets (b.behind ++ lines_of bs)) timed
    ∙ local_lines-others targets b.behind (lines_of bs) (0, added targets b table) h.behind_other

-- A line of the head, which is not an id; a time in it counts for no item.
abbrev pub IsHead : Bytes → Type 0
IsHead line = quoted_id (trim_space line) ≡ none

local_lines-head :
    (targets : List ℕ) (head rest : List Bytes) (table : Table)
    → All IsHead head
    → local_lines targets (head ++ rest) (0, table) ≡ local_lines targets rest (0, table)
unfolding local_lines
local_lines-head targets [] rest table h = refl
local_lines-head targets (line ∷ head) rest table h =
    let passed : local_line targets (trim_space line) (0, table) ≡ (0, table) =
      unfold local_line time_line in ground (arith, h.0) in
    ap (local_lines targets (head ++ rest)) passed ∙ local_lines-head targets head rest table h.1

-- A table with the times of some blocks put in front.
abbrev overlaid : List ℕ → ℕ → Option ℤ → Option ℤ → Option ℤ
overlaid targets k found before =
    if mem k targets then (elim found [ some t ↦ some t | none ↦ before ]) else before

epoch_of-local_lines :
    (targets : List ℕ) (k : ℕ) (bs : List Block) (st : Scan)
    → All IsBlock bs
    → epoch_of k (local_lines targets (lines_of bs) st).1
      ≡ overlaid targets k (last_epoch k bs) (epoch_of k st.1)
epoch_of-local_lines targets k [] st h = unfold local_lines in ground arith
epoch_of-local_lines targets k (b ∷ bs) st h =
    ap (λ r. epoch_of k r.1) (local_lines-block targets b bs st h.0)
    ∙ epoch_of-local_lines targets k bs (0, added targets b st.1) h.1
    ∙ unfold epoch_of in ground (arith, λ (e : b.id ≡ k). ap (λ x. mem x targets) e)

-- From a well-formed list of workshop items behind any head the scan takes, for every mod that is asked for, the time
-- of its last item, and for no other mod a time, whatever other lines stand between and blanks round
-- the lines.
pub fetch_local_mod_epochs-lines_of :
    (targets : List ℕ) (head : List Bytes) (bs : List Block) (k : ℕ)
    → All IsHead head
    → All IsBlock bs
    → let (table, read) = fetch_local_mod_epochs targets (some (head ++ lines_of bs)) in
      (epoch_of k table ≡ (if mem k targets then last_epoch k bs else none)) × (read ≡ true)
unfolding fetch_local_mod_epochs
fetch_local_mod_epochs-lines_of targets head bs k hd h = (
  ap (λ r. epoch_of k r.1) (local_lines-head targets head (lines_of bs) [] hd)
      ∙ epoch_of-local_lines targets k bs (0, []) h
      ∙ unfold epoch_of in ground arith,
  refl,
)
