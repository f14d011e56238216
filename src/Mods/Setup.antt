-- ===== src/Mods/Setup.antt =====
-- update.go, `解析Setup`: the ids in dedicated_server_mods_setup.lua; and the lines that `读取行`
-- appends to that file. A cursor is the suffix of the text that it stands at; the two maps are
-- lists of their keys.
pub mod Patch
pub mod Words
use dst_nucleus.Prelude.Decimal.{append_uint}
use dst_nucleus.Mods.Digits.{span_digits, bytes_to_uint64}
use dst_nucleus.Prelude.{
  ℕ, Bool, Bytes, List, codes, if◌then◌else◌, ◌++◌, false, suc, ◌∷◌, length, [], ◌==◌, zero, ◌||◌,
  ◌&&◌, has_prefix, drop, true,
}

pub record Scan : Type 0 where
  pub result : List ℕ
  pub seen : List ℕ
  pub setup_only : List ℕ

unfoldable pub mem : ℕ → List ℕ → Bool
mem k [] = false
mem k (x ∷ xs) = x == k || mem k xs

-- Up to the end of the line, which is left standing.
unfoldable pub skip_comment : Bytes → Bytes
skip_comment [] = []
skip_comment (c ∷ cs) = if c == b'\n' then c ∷ cs else skip_comment cs

-- Behind the closing quote; a backslash takes the next byte with it, past the end if there is none.
unfoldable pub skip_quoted : ℕ → Bytes → Bytes
skip_quoted quote [] = []
skip_quoted quote (c ∷ []) = []
skip_quoted quote (c ∷ d ∷ cs) = elim (c == b'\\') [
  | true ↦ skip_quoted quote cs
  | false ↦ elim (c == quote) [ true ↦ d ∷ cs | false ↦ skip_quoted quote (d ∷ cs) ]
]

skip_closers : Bytes → Bytes
skip_closers [] = []
skip_closers (c ∷ cs) = if c == b'"' || c == b'\'' || c == b')' then skip_closers cs else c ∷ cs

unfoldable pub add_id : Scan → Bytes → Scan
add_id st [] = st
add_id st (d ∷ ds) =
    let id = bytes_to_uint64 (d ∷ ds) in
    record {
      result = if mem id st.seen then st.result else st.result ++ id ∷ [];
      seen = if mem id st.seen then st.seen else id ∷ st.seen;
      setup_only = if mem id st.setup_only then st.setup_only else id ∷ st.setup_only;
    }

-- Behind `ServerModSetup("` or `workshop-`.
setup_hit : Scan → Bytes → Scan × Bytes
setup_hit st s = (add_id st (span_digits s).0, skip_closers (span_digits s).1)

abbrev pub setup_call : Bytes
setup_call = codes "ServerModSetup(\""

abbrev setup_call_single : Bytes
setup_call_single = codes "ServerModSetup('"

abbrev pub workshop : Bytes
workshop = codes "workshop-"

-- One round of the loop, at a byte `c` with `cs` behind it.
unfoldable pub setup_step : Scan → ℕ → Bytes → Scan × Bytes
unfolding setup_hit add_id skip_closers
setup_step st c cs =
    if c == b'-' && has_prefix cs (b'-' ∷ [])
    then (st, skip_comment (drop 1 cs))
    else if c == b'"' || c == b'\''
    then (st, skip_quoted c cs)
    else if has_prefix (c ∷ cs) setup_call || has_prefix (c ∷ cs) setup_call_single
    then setup_hit st (drop 16 (c ∷ cs))
    else if has_prefix (c ∷ cs) workshop
    then setup_hit st (drop 9 (c ∷ cs))
    else (st, cs)

-- The loop, on fuel.
unfoldable pub setup_loop : ℕ → Scan → Bytes → Scan
unfolding setup_step
setup_loop zero st s = st
setup_loop (suc n) st [] = st
setup_loop (suc n) st (c ∷ cs) = setup_loop n (setup_step st c cs).0 (setup_step st c cs).1

-- A round takes at least one byte, so this fuel is enough.
unfoldable pub parse_setup : Bytes → Scan → Scan
unfolding setup_loop
parse_setup content st = setup_loop (length content) st content

-- The line that `读取行` appends for an id that the setup file lacks.
unfoldable pub patch_line : ℕ → Bytes
patch_line id = setup_call ++ (append_uint id ++ codes "\")\n")

unfoldable pub patch : List ℕ → Bytes
patch [] = []
patch (id ∷ ids) = patch_line id ++ patch ids
