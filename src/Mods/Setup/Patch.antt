-- ===== src/Mods/Setup/Patch.antt =====
-- update.go: `解析Setup` on the lines that `读取行` appends.
use dst_nucleus.Prelude.Decimal.{append_uint, append_uint-cons, append_uint-digits, is_digit}
use dst_nucleus.Mods.Digits.{
  span_digits, span_digits-append_uint, u64_mod, bytes_to_uint64, bytes_to_uint64-append_uint,
}
use dst_nucleus.Prelude.{
  OneLine, ℕ, ◌≡◌, refl, Bytes, length, ◌≤◌, arith, [], suc, ◌++◌, drop, codes, length-drop, ap,
  append_assoc, length-append, List, ◌∙◌, ◌<◌, zero, if◌then◌else◌, ◌||◌, ◌==◌, All, true, Bool,
  false,
}
use dst_nucleus.Mods.Setup.{
  Scan, mem, skip_comment, skip_quoted, skip_closers, add_id, setup_hit, setup_step, setup_loop,
  parse_setup, patch_line, patch, Bytes, span_digits, length, ◌∷◌, append_uint, drop, suc, codes,
  List, true, Bool,
}

-- Each round leaves less text.
length-skip_comment : (s : Bytes) → length (skip_comment s) ≤ length s
unfolding skip_comment
length-skip_comment [] = omega arith
length-skip_comment (c ∷ cs) = ground (arith, length-skip_comment cs)

pub length-skip_quoted : (q : ℕ) (s : Bytes) → length (skip_quoted q s) ≤ length s
unfolding skip_quoted
length-skip_quoted q [] = omega arith
length-skip_quoted q (c ∷ []) = omega arith
length-skip_quoted q (c ∷ d ∷ cs) =
    ground (arith, length-skip_quoted q cs, length-skip_quoted q (d ∷ cs))

length-skip_closers : (s : Bytes) → length (skip_closers s) ≤ length s
unfolding skip_closers
length-skip_closers [] = omega arith
length-skip_closers (c ∷ cs) = ground (arith, length-skip_closers cs)

pub length-span_digits : (s : Bytes) → length (span_digits s).1 ≤ length s
unfolding span_digits
length-span_digits [] = omega arith
length-span_digits (c ∷ cs) = ground (arith, length-span_digits cs)

length-setup_hit : (st : Scan) (s : Bytes) → length (setup_hit st s).1 ≤ length s
unfolding setup_hit
length-setup_hit st s = omega (arith, length-skip_closers (span_digits s).1, length-span_digits s)

-- What one round leaves.
record Ends (n : ℕ) (r : Scan × Bytes) : Type 0 where
  less : length r.1 ≤ n

Ends-if :
    (n : ℕ) (b : Bool) (x y : Scan × Bytes) → Ends n x → Ends n y → Ends n (if b then x else y)
Ends-if n true x y h k = h
Ends-if n false x y h k = k

setup_hit-Ends :
    (st : Scan) (k c : ℕ) (cs : Bytes) → Ends (length cs) (setup_hit st (drop (suc k) (c ∷ cs)))
setup_hit-Ends st k c cs = record {
  less = omega (arith, length-setup_hit st (drop k cs), length-drop k cs);
}

stay-Ends : (st : Scan) (cs s : Bytes) → length s ≤ length cs → Ends (length cs) (st, s)
stay-Ends st cs s h = record { less = h }

length-comment_tail : (cs : Bytes) → length (skip_comment (drop 1 cs)) ≤ length cs
length-comment_tail cs = omega (arith, length-skip_comment (drop 1 cs), length-drop 1 cs)

setup_step-Ends : (st : Scan) (c : ℕ) (cs : Bytes) → Ends (length cs) (setup_step st c cs)
unfolding setup_step
setup_step-Ends st c cs =
    Ends-if (length cs) _ _ _ (stay-Ends st cs (skip_comment (drop 1 cs)) (length-comment_tail cs))
      (Ends-if (length cs) _ _ _ (stay-Ends st cs (skip_quoted c cs) (length-skip_quoted c cs)) (
        Ends-if (length cs) _ _ _ (setup_hit-Ends st 15 c cs) (
          Ends-if (length cs) _ _ _ (setup_hit-Ends st 8 c cs) (stay-Ends st cs cs (omega arith)))))

-- The loop ends within as many rounds as the text has bytes: any two amounts of fuel that reach the
-- length of the text give the same scan.
pub setup_loop_enough :
    (n m : ℕ) (st : Scan) (s : Bytes)
    → length s ≤ n
    → length s ≤ m
    → setup_loop n st s ≡ setup_loop m st s
unfolding setup_loop
setup_loop_enough zero zero st [] h k = refl
setup_loop_enough zero (suc m) st [] h k = refl
setup_loop_enough (suc n) zero st [] h k = refl
setup_loop_enough (suc n) (suc m) st [] h k = refl
setup_loop_enough zero _ st (c ∷ cs) h k = absurd (omega arith)
setup_loop_enough (suc n) zero st (c ∷ cs) h k = absurd (omega arith)
setup_loop_enough (suc n) (suc m) st (c ∷ cs) h k =
    setup_loop_enough n m (setup_step st c cs).0 (setup_step st c cs).1
      (omega (arith, (setup_step-Ends st c cs).less))
      (omega (arith, (setup_step-Ends st c cs).less))

setup_hit-call :
    (st : Scan) (id : ℕ) (rest : Bytes)
    → setup_hit st (append_uint id ++ (b'"' ∷ b')' ∷ b'\n' ∷ rest))
      ≡ (add_id st (append_uint id), b'\n' ∷ rest)
unfolding setup_hit skip_closers
setup_hit-call st id rest = rw (span_digits-append_uint id (b'"' ∷ b')' ∷ b'\n' ∷ rest) refl)

patch_line-tail :
    (id : ℕ) (rest : Bytes)
    → patch_line id ++ rest
      ≡ codes "ServerModSetup(\"" ++ (append_uint id ++ (b'"' ∷ b')' ∷ b'\n' ∷ rest))
unfolding patch_line
patch_line-tail id rest = ap (codes "ServerModSetup(\"" ++◌) (append_assoc (append_uint id) _ rest)

setup_loop-patch_line :
    (n : ℕ) (st : Scan) (id : ℕ) (rest : Bytes)
    → setup_loop (suc (suc n)) st (patch_line id ++ rest)
      ≡ setup_loop n (add_id st (append_uint id)) rest
unfolding setup_loop setup_step
setup_loop-patch_line n st id rest =
    ap (setup_loop (suc (suc n)) st) (patch_line-tail id rest)
    ∙ ap (λ p. setup_loop (suc n) p.0 p.1) (setup_hit-call st id rest)

-- The scan behind a patch, taken id by id.
abbrev pub add_all : Scan → List ℕ → Scan
add_all st [] = st
add_all st (id ∷ ids) = add_all (add_id st (append_uint id)) ids

length-patch_line :
    (id : ℕ) (rest : Bytes) → suc (suc (length rest)) ≤ length (patch_line id ++ rest)
unfolding patch_line
length-patch_line id rest = omega (
  arith,
  length-append (patch_line id) rest,
  length-append (codes "ServerModSetup(\"") (append_uint id ++ codes "\")\n"),
)

setup_loop-patch :
    (ids : List ℕ) (n : ℕ) (st : Scan)
    → length (patch ids) ≤ n
    → setup_loop n st (patch ids) ≡ add_all st ids
unfolding patch
setup_loop-patch [] zero st h = unfold setup_loop in refl
setup_loop-patch [] (suc n) st h = unfold setup_loop in refl
setup_loop-patch (id ∷ ids) zero st h = absurd (omega (arith, length-patch_line id (patch ids)))
setup_loop-patch (id ∷ ids) (suc zero) st h =
    absurd (omega (arith, length-patch_line id (patch ids)))
setup_loop-patch (id ∷ ids) (suc (suc n)) st h =
    setup_loop-patch_line n st id (patch ids)
    ∙ setup_loop-patch ids n (add_id st (append_uint id))
        (omega (arith, length-patch_line id (patch ids)))

add_id-append_uint :
    (st : Scan) (id : ℕ)
    → id < u64_mod
    → add_id st (append_uint id) ≡ record {
      result = if mem id st.seen then st.result else st.result ++ id ∷ [];
      seen = if mem id st.seen then st.seen else id ∷ st.seen;
      setup_only = if mem id st.setup_only then st.setup_only else id ∷ st.setup_only;
    }
unfolding add_id
add_id-append_uint st id h =
    let (c, cs, p) = append_uint-cons id in
    let e : bytes_to_uint64 (c ∷ cs) ≡ id = rw p at (bytes_to_uint64-append_uint id h) in
    rw p (rw e refl)

mem-add :
    (i id : ℕ) (xs : List ℕ) → mem i (if mem id xs then xs else id ∷ xs) ≡ (mem i xs || (id == i))
unfolding mem
mem-add i id xs = ground (arith, λ (e : id ≡ i). ap (λ k. mem k xs) e)

setup_only-add_all :
    (ids : List ℕ) (st : Scan) (i : ℕ)
    → All (λ id. id < u64_mod) ids
    → mem i (add_all st ids).setup_only ≡ (mem i st.setup_only || mem i ids)
unfolding mem
setup_only-add_all [] st i h = ground arith
setup_only-add_all (id ∷ ids) st i h = ground (
  arith,
  setup_only-add_all ids (add_id st (append_uint id)) i h.1,
  ap (λ (t : Scan). mem i t.setup_only) (add_id-append_uint st id h.0),
  mem-add i id st.setup_only,
)

-- The lines appended for any list of 64-bit ids are read back: from any scan, the ids known from
-- the setup file are then those known before and those of the list, and no other.
pub parse_setup-patch :
    (ids : List ℕ) (st : Scan) (i : ℕ)
    → All (λ id. id < u64_mod) ids
    → mem i (parse_setup (patch ids) st).setup_only ≡ (mem i st.setup_only || mem i ids)
unfolding parse_setup
parse_setup-patch ids st i h =
    rw (setup_loop-patch ids (length (patch ids)) st (omega arith)) (setup_only-add_all ids st i h)

skip_comment-append : (xs ys : Bytes) → OneLine xs → skip_comment (xs ++ ys) ≡ skip_comment ys
unfolding skip_comment
skip_comment-append [] ys h = refl
skip_comment-append (x ∷ xs) ys h = ground (arith, h.0, skip_comment-append xs ys h.1)

append_uint-OneLine : (xs : Bytes) → All (λ c. is_digit c ≡ true) xs → OneLine xs
append_uint-OneLine [] h = tt
append_uint-OneLine (x ∷ xs) h = (ground arith, append_uint-OneLine xs h.1)

skip_comment-patch_line : (id : ℕ) → skip_comment (patch_line id) ≡ b'\n' ∷ []
unfolding patch_line skip_comment
skip_comment-patch_line id =
    skip_comment-append (append_uint id) (codes "\")\n")
      (append_uint-OneLine (append_uint id) (append_uint-digits id))

setup_loop-newline : (n : ℕ) (st : Scan) → setup_loop n st (b'\n' ∷ []) ≡ st
unfolding setup_loop setup_step
setup_loop-newline zero st = refl
setup_loop-newline (suc zero) st = refl
setup_loop-newline (suc (suc n)) st = refl

-- A setup file that is one comment with no line end at its end takes no patch: whatever the
-- comment and the id, the line that is appended for the id is read as part of the comment.
pub parse_setup-swallows :
    (text : Bytes) (id : ℕ) (st : Scan)
    → OneLine text
    → parse_setup ((b'-' ∷ b'-' ∷ text) ++ patch_line id) st ≡ st
unfolding parse_setup setup_loop setup_step
parse_setup-swallows text id st h =
    ap (setup_loop (suc (length (text ++ patch_line id))) st)
      (skip_comment-append text (patch_line id) h ∙ skip_comment-patch_line id)
    ∙ setup_loop-newline (suc (length (text ++ patch_line id))) st
