-- ===== src/Updates/Epochs.antt =====
-- update.go: `获取本地模组时间表` and `获取远程模组更新时间`, the times of the mods on disk and at Steam. A table is
-- the list of its stores, the latest first.
pub mod Local
pub mod Blocks
pub mod Remote
use dst_nucleus.Prelude.{
  List, [], ◌∷◌, Bytes, ℕ, Bool, some, if◌then◌else◌, Option, codes, suc, ◌==◌, length, none, not,
  false, true, ◌++◌, ◌+◌, zero, ◌&&◌, ◌||◌, has_prefix, ltb,
}
use dst_nucleus.Prelude.Decimal.{ℤ, pos, append_uint, is_digit}
use dst_nucleus.Mods.Digits.{bytes_to_uint64, span_digits}
use dst_nucleus.Mods.Setup.{mem}
use dst_nucleus.Updates.Search.{behind, int64_value, trim_space}

abbrev pub Table : Type 0
Table = List (ℕ × ℤ)

unfoldable pub epoch_of : ℕ → Table → Option ℤ
epoch_of id [] = none
epoch_of id ((k, t) ∷ table) = if k == id then some t else epoch_of id table

-- The text up to the last quote, if there is one.
unfoldable pub to_last_quote : Bytes → Option Bytes
to_last_quote [] = none
to_last_quote (c ∷ cs) = elim (to_last_quote cs) [
  | some before ↦ some (c ∷ before)
  | none ↦ if c == b'"' then some [] else none
]

-- The text behind the last quote.
unfoldable pub behind_last_quote : Bytes → Option Bytes
behind_last_quote [] = none
behind_last_quote (c ∷ cs) = elim (behind_last_quote cs) [
  | some rest ↦ some rest
  | none ↦ if c == b'"' then some cs else none
]

unfoldable pub all_digits : Bytes → Bool
all_digits [] = true
all_digits (c ∷ cs) = is_digit c && all_digits cs

-- What stands between the quotes at both ends of a line of more than two bytes, if it is digits.
unfoldable pub quoted_id : Bytes → Option ℕ
unfolding to_last_quote all_digits
quoted_id [] = none
quoted_id (c ∷ cs) =
    if not (c == b'"') || ltb (length cs) 2 then none else elim (to_last_quote cs) [
      | none ↦ none
      | some inner ↦
          if length inner + 1 == length cs && all_digits inner
          then some (bytes_to_uint64 inner)
          else none
    ]

-- The text between the last two quotes, the first of which does not start the line.
unfoldable pub last_quoted : Bytes → Option Bytes
unfolding to_last_quote behind_last_quote
last_quoted line = elim (to_last_quote line) [
  | none ↦ none
  | some before ↦ elim (to_last_quote before) [
    | none ↦ none
    | some [] ↦ none
    | some (c ∷ cs) ↦ behind_last_quote before
  ]
]

abbrev pub time_key : Bytes
time_key = codes "\"timeupdated\""

-- The mod whose block is read, 0 for none, and the table.
abbrev pub Scan : Type 0
Scan = ℕ × Table

unfoldable pub time_line : Bytes → Scan → Scan
unfolding last_quoted
time_line line (curr, table) =
    if not (curr == 0) && has_prefix line time_key
    then elim (last_quoted line) [
      | none ↦ (curr, table)
      | some text ↦ (0, (curr, int64_value text) ∷ table)
    ]
    else (curr, table)

-- One line, without the blanks at its ends.
unfoldable pub local_line : List ℕ → Bytes → Scan → Scan
unfolding quoted_id time_line
local_line targets line (curr, table) = elim (quoted_id line) [
  | some id ↦ (if mem id targets then id else 0, table)
  | none ↦ time_line line (curr, table)
]

unfoldable pub local_lines : List ℕ → List Bytes → Scan → Scan
unfolding local_line trim_space
local_lines targets [] st = st
local_lines targets (line ∷ lines) st =
    local_lines targets lines (local_line targets (trim_space line) st)

-- `lines` are what the scanner makes of the file's snapshot, `none` where that fails; the second part
-- says whether it was read.
unfoldable pub fetch_local_mod_epochs : List ℕ → Option (List Bytes) → Table × Bool
unfolding local_lines
fetch_local_mod_epochs targets none = ([], false)
fetch_local_mod_epochs targets (some lines) = ((local_lines targets lines (0, [])).1, true)

-- The form that is posted to Steam, as long as it fits the buffer of 65536 bytes.
unfoldable pub request_items : ℕ → List ℕ → Bytes
request_items i [] = []
request_items i (id ∷ ids) =
    codes "&publishedfileids["
    ++ (append_uint i ++ (codes "]=" ++ (append_uint id ++ request_items (i + 1) ids)))

unfoldable pub request_payload : List ℕ → Bytes
unfolding request_items
request_payload ids = codes "itemcount=" ++ (append_uint (length ids) ++ request_items 0 ids)

-- The id up to the next quote, and what is behind that.
unfoldable pub cut_quote : Bytes → Option (Bytes × Bytes)
cut_quote [] = none
cut_quote (c ∷ cs) =
    if c == b'"'
    then some ([], cs)
    else elim (cut_quote cs) [ none ↦ none | some (front, rest) ↦ some (c ∷ front, rest) ]

unfoldable pub skip_spaces : Bytes → Bytes
skip_spaces [] = []
skip_spaces (c ∷ cs) = if c == b' ' then skip_spaces cs else c ∷ cs

-- One round of the loop over the answer: the entry and the rest of the text.
unfoldable pub remote_entry : Bytes → Option ((ℕ × ℤ) × Bytes)
unfolding behind cut_quote skip_spaces
remote_entry s = elim (behind (codes "\"publishedfileid\":\"") s) [
  | none ↦ none
  | some at_id ↦ elim (cut_quote at_id) [
    | none ↦ none
    | some (id, after_id) ↦ elim (behind (codes "\"time_updated\":") after_id) [
      | none ↦ none
      | some at_time ↦
          let (digits, rest) = span_digits (skip_spaces at_time) in
          some ((bytes_to_uint64 id, int64_value digits), rest)
    ]
  ]
]

-- The loop, on fuel; a round that goes on takes at least one byte.
unfoldable pub remote_entries : ℕ → Bytes → Table → Table
unfolding remote_entry
remote_entries zero s table = table
remote_entries (suc n) s table = elim (remote_entry s) [
  | none ↦ table
  | some (entry, rest) ↦ remote_entries n rest (entry ∷ table)
]

-- `none` is the error of the request. For no mods nothing is asked.
unfoldable pub fetch_remote_mod_epochs : List ℕ → Option Bytes → Option Table
unfolding remote_entries
fetch_remote_mod_epochs [] response = some []
fetch_remote_mod_epochs (id ∷ ids) none = none
fetch_remote_mod_epochs (id ∷ ids) (some body) = some (remote_entries (length body) body [])
