-- ===== src/Install/Paths.antt =====
-- What the installer uses of `path/filepath` on Linux: `Clean` and `Join`.
pub mod Rooted
use dst_nucleus.Prelude.{
  List, [], ◌∷◌, ◌++◌, ℕ, Bool, true, false, Bytes, codes, ◌==◌, if◌then◌else◌, equal, ◌||◌,
}

abbrev pub Parts : Type 0
Parts = List Bytes

-- The parts between the slashes; `part` is what is read of the first one.
unfoldable pub split_slash : Bytes → Bytes → Parts
split_slash part [] = part ∷ []
split_slash part (c ∷ cs) =
    let closed = part ∷ split_slash [] cs in
    let longer = split_slash (part ++ c ∷ []) cs in if c == b'/' then closed else longer

abbrev pub dot_dot : Bytes
dot_dot = codes ".."

-- The parent of a stack whose top is its head; above the root there is nothing, and a relative path
-- keeps its `..`.
unfoldable pub parent : Bool → Parts → Parts
parent rooted [] = if rooted then [] else dot_dot ∷ []
parent rooted (p ∷ ps) = if equal p dot_dot then dot_dot ∷ p ∷ ps else ps

unfoldable pub resolve : Bool → Parts → Bytes → Parts
unfolding parent
resolve rooted stack part =
    if equal part [] || equal part (codes ".")
    then stack
    else if equal part dot_dot
    then parent rooted stack
    else part ∷ stack

unfoldable pub resolve_all : Bool → Parts → Parts → Parts
unfolding resolve
resolve_all rooted stack [] = stack
resolve_all rooted stack (p ∷ ps) = resolve_all rooted (resolve rooted stack p) ps

-- Each part behind a slash, the bottom of the stack first, in front of a text.
unfoldable pub slashed : Parts → Bytes → Bytes
slashed [] rest = rest
slashed (p ∷ ps) rest = slashed ps (b'/' ∷ (p ++ rest))

unfoldable pub rooted_text : Parts → Bytes
unfolding slashed
rooted_text [] = b'/' ∷ []
rooted_text (p ∷ ps) = slashed (p ∷ ps) []

abbrev drop_first : Bytes → Bytes
drop_first [] = []
drop_first (c ∷ cs) = cs

unfoldable pub relative_text : Parts → Bytes
unfolding slashed
relative_text [] = codes "."
relative_text (p ∷ ps) = drop_first (slashed (p ∷ ps) [])

-- `filepath.Clean`.
unfoldable pub clean : Bytes → Bytes
unfolding split_slash resolve_all rooted_text relative_text
clean [] = codes "."
clean (c ∷ cs) =
    if c == b'/'
    then rooted_text (resolve_all true [] (split_slash [] (c ∷ cs)))
    else relative_text (resolve_all false [] (split_slash [] (c ∷ cs)))

-- `filepath.Join` of two elements; an empty one is passed over.
unfoldable pub join : Bytes → Bytes → Bytes
unfolding clean
join [] [] = []
join [] (c ∷ cs) = clean (c ∷ cs)
join (d ∷ ds) [] = clean (d ∷ ds)
join (d ∷ ds) (c ∷ cs) = clean ((d ∷ ds) ++ b'/' ∷ c ∷ cs)

-- Elements with slashes between them.
unfoldable pub slash_joined : Bytes → Parts → Bytes
slash_joined p [] = p
slash_joined p (q ∷ qs) = p ++ b'/' ∷ slash_joined q qs

-- `filepath.Join` of any number; the empty ones in front are passed over.
unfoldable pub join_all : Parts → Bytes
unfolding clean slash_joined
join_all [] = []
join_all ([] ∷ es) = join_all es
join_all ((c ∷ cs) ∷ es) = clean (slash_joined (c ∷ cs) es)
