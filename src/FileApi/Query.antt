-- ===== src/FileApi/Query.antt =====
-- api.go: the `target` parameter in the query of `api_file_read` and `api_file_write`.
use dst_nucleus.Prelude.{
  [], ◌∷◌, map, ℕ, Bytes, codes, if◌then◌else◌, suc, Option, leb, has_prefix, ◌==◌, length, drop,
  ◌&&◌, ◌||◌, ltb, zero, ◌+◌, none, some,
}

-- The block up to the next ampersand, and what is behind it.
unfoldable pub cut_block : Bytes → Bytes × Bytes
cut_block [] = ([], [])
cut_block (c ∷ cs) =
    if c == b'&' then ([], cs) else (let (block, rest) = cut_block cs in (c ∷ block, rest))

abbrev pub target_header : Bytes
target_header = codes "target="

-- The loop over the blocks, on fuel; a round takes at least one byte.
unfoldable pub find_target : ℕ → Bytes → Bytes
unfolding cut_block
find_target zero rest = []
find_target (suc n) [] = []
find_target (suc n) (c ∷ cs) =
    let next = find_target n (cut_block (c ∷ cs)).1 in
    if has_prefix (cut_block (c ∷ cs)).0 target_header then drop 7 (cut_block (c ∷ cs)).0 else next

unfoldable pub to_lower : ℕ → ℕ
to_lower c = if leb b'A' c && leb c b'Z' then c + 32 else c

-- The lowered target, of one to 32 bytes.
unfoldable pub query_target : Bytes → Option Bytes
unfolding find_target to_lower
query_target query =
    let t = find_target (length query) query in
    if length t == 0 || ltb 32 (length t) then none else some (map to_lower t)
