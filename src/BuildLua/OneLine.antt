-- ===== src/BuildLua/OneLine.antt =====
-- What the one line of the script has in it.
use dst_nucleus.Prelude.{
  List, [], ◌∷◌, ◌++◌, ℕ, false, Bytes, codes, has_prefix, length, ◌==◌, ◌≡◌, refl, arith, All,
  All-append, OneLine, if◌then◌else◌, if-split, Bool-cases, inl, inr, subst, sym, ap,
}
use dst_nucleus.Updates.Search.{trim_space, trim_left, trim_right, is_blank}
use dst_nucleus.BuildLua.{split_lines, cut_comment, clean_blocks, join_blanks, minify}

-- Not two dashes in a row.
abbrev pub NoComment : Bytes → Type 0
NoComment [] = Unit
NoComment (c ∷ cs) = (has_prefix (c ∷ cs) (codes "--") ≡ false) × NoComment cs

prefix_cut :
    (c d : ℕ) (cs : Bytes)
    → has_prefix (c ∷ d ∷ cs) (codes "--") ≡ false
    → has_prefix (c ∷ cut_comment (d ∷ cs)) (codes "--") ≡ false
unfolding cut_comment
prefix_cut c d cs h = ground arith

cut_comment-NoComment : (s : Bytes) → NoComment (cut_comment s)
unfolding cut_comment
cut_comment-NoComment [] = tt
cut_comment-NoComment (c ∷ []) =
    if-split NoComment (has_prefix (c ∷ []) (codes "--")) [] (c ∷ []) (λ _. tt) (λ e. (e, tt))
cut_comment-NoComment (c ∷ d ∷ cs) =
    let rest = cut_comment-NoComment (d ∷ cs) in
    if-split NoComment (has_prefix (c ∷ d ∷ cs) (codes "--")) [] (c ∷ cut_comment (d ∷ cs))
      (λ _. tt) (λ e. (prefix_cut c d cs e, rest))

cut_comment-OneLine : (s : Bytes) → OneLine s → OneLine (cut_comment s)
unfolding cut_comment
cut_comment-OneLine [] h = tt
cut_comment-OneLine (c ∷ cs) h =
    if-split OneLine (has_prefix (c ∷ cs) (codes "--")) [] (c ∷ cut_comment cs) (λ _. tt)
      (λ _. (h.0, cut_comment-OneLine cs h.1))

-- What a text and its parts have in common here.
abbrev pub Flat : Bytes → Type 0
Flat s = OneLine s × NoComment s

trim_left-Flat : (s : Bytes) → Flat s → Flat (trim_left s)
unfolding trim_left
trim_left-Flat [] h = h
trim_left-Flat (c ∷ cs) h =
    if-split Flat (is_blank c) (trim_left cs) (c ∷ cs) (λ _. trim_left-Flat cs (h.0.1, h.1.1))
      (λ _. h)

longer_rest :
    (c : ℕ) (cs t rest : Bytes)
    → t ++ rest ≡ cs
    → (r : Bytes) × ((elim t [ [] ↦ if is_blank c then [] else c ∷ [] | d ∷ ds ↦ c ∷ d ∷ ds ]) ++ r
        ≡ c ∷ cs)
longer_rest c cs [] rest e = elim (Bool-cases (is_blank c)) [
  | inl b ↦ (c ∷ cs, rw b refl)
  | inr b ↦ (cs, rw b refl)
]
longer_rest c cs (d ∷ ds) rest e = (rest, ap (c ∷◌) e)

trim_right_rest : (s : Bytes) → (rest : Bytes) × (trim_right s ++ rest ≡ s)
unfolding trim_right
trim_right_rest [] = ([], refl)
trim_right_rest (c ∷ cs) =
    let (rest, same) = trim_right_rest cs in longer_rest c cs (trim_right cs) rest same

OneLine-append_left : (xs ys : Bytes) → OneLine (xs ++ ys) → OneLine xs
OneLine-append_left [] ys h = tt
OneLine-append_left (x ∷ xs) ys h = (h.0, OneLine-append_left xs ys h.1)

NoComment-append_left : (xs ys : Bytes) → NoComment (xs ++ ys) → NoComment xs
NoComment-append_left [] ys h = tt
NoComment-append_left (x ∷ []) ys h = (ground arith, tt)
NoComment-append_left (x ∷ y ∷ xs) ys h = (h.0, NoComment-append_left (y ∷ xs) ys h.1)

trim_space-Flat : (s : Bytes) → Flat s → Flat (trim_space s)
unfolding trim_space
trim_space-Flat s h =
    let t = trim_left s in
    let (rest, same) = trim_right_rest t in
    let whole : Flat (trim_right t ++ rest) = subst Flat (sym same) (trim_left-Flat s h) in
    (
      OneLine-append_left (trim_right t) rest whole.0,
      NoComment-append_left (trim_right t) rest whole.1,
    )

split_lines-OneLine : (line text : Bytes) → OneLine line → All OneLine (split_lines line text)
unfolding split_lines
split_lines-OneLine line [] h = (h, tt)
split_lines-OneLine line (c ∷ cs) h =
    let closed = split_lines-OneLine [] cs tt in
    if-split (All OneLine) (c == b'\n') _ _ (λ _. (h, closed))
      (λ e.
        split_lines-OneLine (line ++ c ∷ []) cs (All-append _ line (c ∷ []) h (ground arith, tt)))

clean_blocks-Flat : (ls : List Bytes) → All OneLine ls → All Flat (clean_blocks ls)
unfolding clean_blocks
clean_blocks-Flat [] h = tt
clean_blocks-Flat (l ∷ ls) h =
    let line = trim_space (cut_comment l) in
    let flat =
      trim_space-Flat (cut_comment l) (cut_comment-OneLine l h.0, cut_comment-NoComment l) in
    let rest = clean_blocks-Flat ls h.1 in
    if-split (All Flat) (length line == 0) _ _ (λ _. rest) (λ _. (flat, rest))

blank_between : (xs ys : Bytes) → NoComment xs → NoComment ys → NoComment (xs ++ b' ' ∷ ys)
blank_between [] ys h k = (refl, k)
blank_between (x ∷ []) ys h k = (ground arith, (refl, k))
blank_between (x ∷ y ∷ xs) ys h k = (h.0, blank_between (y ∷ xs) ys h.1 k)

join_blanks-Flat : (ls : List Bytes) → All Flat ls → Flat (join_blanks ls)
unfolding join_blanks
join_blanks-Flat [] h = (tt, tt)
join_blanks-Flat (l ∷ []) h = h.0
join_blanks-Flat (l ∷ m ∷ ls) h =
    let rest = join_blanks-Flat (m ∷ ls) h.1 in
    (
      All-append _ l (b' ' ∷ join_blanks (m ∷ ls)) h.0.0 (ground arith, rest.0),
      blank_between l (join_blanks (m ∷ ls)) h.0.1 rest.1,
    )

-- Whatever the script is, what is made of it is one line and its end; and no two dashes are left in it,
-- which would turn the rest of that line into a comment.
pub minify-Flat :
    (source : Bytes) → (line : Bytes) × (minify source ≡ line ++ b'\n' ∷ []) × Flat line
unfolding minify
minify-Flat source = (
  join_blanks (clean_blocks (split_lines [] source)),
  refl,
  join_blanks-Flat _ (clean_blocks-Flat (split_lines [] source) (split_lines-OneLine [] source tt)),
)
