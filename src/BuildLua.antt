-- ===== src/BuildLua.antt =====
-- build_lua.go: the script parasite.lua is put on one line, which becomes parasite_min.lua.
pub mod OneLine
use dst_nucleus.Prelude.{
  List, [], ◌∷◌, ◌++◌, ℕ, Bool, true, false, Bytes, codes, has_prefix, length, ◌==◌, if◌then◌else◌,
}
use dst_nucleus.Updates.Search.{trim_space}

-- `bytes.Split` at the ends of lines; `line` is what is read of the first one.
unfoldable pub split_lines : Bytes → Bytes → List Bytes
split_lines line [] = line ∷ []
split_lines line (c ∷ cs) =
    let ended = line ∷ split_lines [] cs in
    let longer = split_lines (line ++ c ∷ []) cs in if c == b'\n' then ended else longer

-- Up to the first two dashes.
unfoldable pub cut_comment : Bytes → Bytes
cut_comment [] = []
cut_comment (c ∷ cs) =
    let rest = cut_comment cs in if has_prefix (c ∷ cs) (codes "--") then [] else c ∷ rest

-- The lines without their comments and the blanks at their ends, but for those that are empty then.
unfoldable pub clean_blocks : List Bytes → List Bytes
unfolding cut_comment
clean_blocks [] = []
clean_blocks (l ∷ ls) =
    let line = trim_space (cut_comment l) in
    let rest = clean_blocks ls in if length line == 0 then rest else line ∷ rest

-- `bytes.Join` with blanks.
unfoldable pub join_blanks : List Bytes → Bytes
join_blanks [] = []
join_blanks (l ∷ []) = l
join_blanks (l ∷ m ∷ ls) = l ++ b' ' ∷ join_blanks (m ∷ ls)

unfoldable pub minify : Bytes → Bytes
unfolding split_lines clean_blocks join_blanks
minify source = join_blanks (clean_blocks (split_lines [] source)) ++ b'\n' ∷ []
