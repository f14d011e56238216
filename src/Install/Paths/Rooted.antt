-- ===== src/Install/Paths/Rooted.antt =====
-- The parts of cleaned absolute paths, and paths below others.
use dst_nucleus.Prelude.{
  [], ◌∷◌, ◌++◌, true, Bytes, codes, ◌==◌, ◌≡◌, ◌≢◌, refl, ap, ◌∙◌, sym, subst, append_assoc,
  append-nil, All, All-append, has_prefix, arith, inl, inr, Bool-cases, equal, ◌||◌, equal_iff,
  false,
}
use dst_nucleus.Install.Paths.{
  Parts, split_slash, dot_dot, parent, resolve, resolve_all, slashed, rooted_text, equal, false,
}

abbrev pub NoSlash : Bytes → Type 0
NoSlash = All (λ c. c ≢ b'/')

-- A name of a file or directory.
pub record Plain (p : Bytes) : Type 0 where
  pub no_slash : NoSlash p
  pub full : p ≢ []
  pub not_dot : p ≢ codes "."
  pub not_dot_dot : p ≢ dot_dot

pub split_slash-NoSlash : (part cs : Bytes) → NoSlash part → All NoSlash (split_slash part cs)
unfolding split_slash
split_slash-NoSlash part [] h = (h, tt)
split_slash-NoSlash part (c ∷ cs) h =
    let closed = split_slash-NoSlash [] cs tt in
    elim (Bool-cases (c == b'/')) [
      | inl e ↦ rw e (h, closed)
      | inr e ↦ rw e (
          split_slash-NoSlash (part ++ c ∷ []) cs (All-append _ part (c ∷ []) h (ground arith, tt)))
    ]

parent-Plain : (st : Parts) → All Plain st → All Plain (parent true st)
unfolding parent
parent-Plain [] h = tt
parent-Plain (p ∷ ps) h = elim (Bool-cases (equal p dot_dot)) [
  | inl e ↦ absurd (h.0.not_dot_dot ((equal_iff p dot_dot).0 e))
  | inr e ↦ rw e h.1
]

resolve-Plain : (st : Parts) (p : Bytes) → All Plain st → NoSlash p → All Plain (resolve true st p)
unfolding resolve
resolve-Plain st p h n =
    let plain : equal p dot_dot ≡ false → equal p [] || equal p (codes ".") ≡ false → Plain p =
      λ d e. record {
        no_slash = n;
        full = λ f. ground (arith, (equal_iff p []).1 f);
        not_dot = λ f. ground (arith, (equal_iff p (codes ".")).1 f);
        not_dot_dot = λ f. ground (arith, (equal_iff p dot_dot).1 f);
      } in
    elim (Bool-cases (equal p [] || equal p (codes "."))) [
      | inl e ↦ rw e h
      | inr e ↦ elim (Bool-cases (equal p dot_dot)) [
        | inl d ↦ rw (e, d) (parent-Plain st h)
        | inr d ↦ rw (e, d) (plain d e, h)
      ]
    ]

pub resolve_all-Plain :
    (st ps : Parts) → All Plain st → All NoSlash ps → All Plain (resolve_all true st ps)
unfolding resolve_all
resolve_all-Plain st [] h n = h
resolve_all-Plain st (p ∷ ps) h n =
    resolve_all-Plain (resolve true st p) ps (resolve-Plain st p h n.0) n.1

-- The parts of a stack, the top last, in front of others.
abbrev onto : Parts → Parts → Parts
onto [] acc = acc
onto (p ∷ ps) acc = onto ps (p ∷ acc)

-- Each part behind a slash.
abbrev forward : Parts → Bytes
forward [] = []
forward (p ∷ ps) = b'/' ∷ (p ++ forward ps)

slashed-forward : (st ps : Parts) → slashed st (forward ps) ≡ forward (onto st ps)
unfolding slashed
slashed-forward [] ps = refl
slashed-forward (p ∷ st) ps = slashed-forward st (p ∷ ps)

onto-append : (xs ys zs : Parts) → onto (xs ++ ys) zs ≡ onto ys (onto xs zs)
onto-append [] ys zs = refl
onto-append (x ∷ xs) ys zs = onto-append xs ys (x ∷ zs)

onto-onto : (xs ys zs : Parts) → onto (onto xs ys) zs ≡ onto ys (xs ++ zs)
onto-onto [] ys zs = refl
onto-onto (x ∷ xs) ys zs = onto-onto xs (x ∷ ys) zs

onto_nil : (xs ys : Parts) → onto xs ys ≡ onto xs [] ++ ys
onto_nil [] ys = refl
onto_nil (x ∷ xs) ys =
    onto_nil xs (x ∷ ys)
    ∙ sym (append_assoc (onto xs []) (x ∷ []) ys)
    ∙ ap (◌++ ys) (sym (onto_nil xs (x ∷ [])))

All-onto : (st ps : Parts) → All Plain st → All Plain ps → All Plain (onto st ps)
All-onto [] ps h k = k
All-onto (p ∷ st) ps h k = All-onto st (p ∷ ps) h.1 (h.0, k)

All-append_left : (xs ys : Parts) → All Plain (xs ++ ys) → All Plain xs
All-append_left [] ys h = tt
All-append_left (x ∷ xs) ys h = (h.0, All-append_left xs ys h.1)

slash_head : (ps : Parts) → (y : Bytes) × (forward ps ++ b'/' ∷ [] ≡ b'/' ∷ y)
slash_head [] = ([], refl)
slash_head (p ∷ ps) = ((p ++ forward ps) ++ b'/' ∷ [], refl)

prefix_part :
    (p q : Bytes) (ps : Parts) (y : Bytes)
    → NoSlash p
    → NoSlash q
    → has_prefix (p ++ forward ps) (q ++ b'/' ∷ y) ≡ true
    → (p ≡ q) × (has_prefix (forward ps) (b'/' ∷ y) ≡ true)
prefix_part [] [] ps y h k e = (refl, e)
prefix_part [] (c ∷ q) [] y h k e = ground arith
prefix_part [] (c ∷ q) (p ∷ ps) y h k e = ground (arith, k.0)
prefix_part (c ∷ p) [] ps y h k e = ground (arith, h.0)
prefix_part (c ∷ p) (d ∷ q) ps y h k e = ground (arith, prefix_part p q ps y h.1 k.1)

-- Texts of parts that start alike: so do the parts.
prefix_parts :
    (ps qs : Parts)
    → All NoSlash ps
    → All NoSlash qs
    → has_prefix (forward ps) (forward qs ++ b'/' ∷ []) ≡ true
    → (rest : Parts) × (ps ≡ qs ++ rest) × (rest ≢ [])
prefix_parts [] [] h k e = ground arith
prefix_parts (p ∷ ps) [] h k e = (p ∷ ps, refl, λ f. cc)
prefix_parts [] (q ∷ qs) h k e = ground arith
prefix_parts (p ∷ ps) (q ∷ qs) h k e =
    let (y, tail) = slash_head qs in
    let step = prefix_part p q ps y h.0 k.0 (
      sym (
        ap (λ t. has_prefix (p ++ forward ps) t)
          (append_assoc q (forward qs) (b'/' ∷ []) ∙ ap (q ++◌) tail))
      ∙ e) in
    let (rest, same, some_left) =
      prefix_parts ps qs h.1 k.1 (ap (has_prefix (forward ps)) tail ∙ step.1) in
    (rest, ap (◌∷ ps) step.0 ∙ ap (q ∷◌) same, some_left)

All-NoSlash : (ps : Parts) → All Plain ps → All NoSlash ps
All-NoSlash [] h = tt
All-NoSlash (p ∷ ps) h = (h.0.no_slash, All-NoSlash ps h.1)

-- Below the path of a stack, by plain names.
pub record Below (base : Parts) (path : Bytes) : Type 0 where
  pub names : Parts
  pub text : path ≡ rooted_text (names ++ base)
  pub plain : All Plain names
  pub some_name : names ≢ []

rooted_text-forward : (p : Bytes) (st : Parts) → rooted_text (p ∷ st) ≡ forward (onto (p ∷ st) [])
unfolding rooted_text
rooted_text-forward p st = slashed-forward (p ∷ st) []

forward-Below :
    (base st : Parts)
    → All Plain base
    → All Plain st
    → has_prefix (forward (onto st [])) (forward (onto base []) ++ b'/' ∷ []) ≡ true
    → Below base (rooted_text st)
forward-Below base st h k e =
    let (rest, same, left) =
      prefix_parts (onto st []) (onto base []) (All-NoSlash (onto st []) (All-onto st [] k tt))
        (All-NoSlash (onto base []) (All-onto base [] h tt)) e in
    let whole : st ≡ onto rest [] ++ base =
      sym (append-nil st)
      ∙ sym (onto-onto st [] [])
      ∙ ap (λ t. onto t []) same
      ∙ onto-append (onto base []) rest []
      ∙ ap (onto rest) (onto-onto base [] [] ∙ append-nil base)
      ∙ onto_nil rest base in
    record {
      names = onto rest [];
      text = ap rooted_text whole;
      plain = All-append_left (onto rest []) base (subst (All Plain) whole k);
      some_name =
          λ n. left (sym (append-nil rest) ∙ sym (onto-onto rest [] []) ∙ ap (λ t. onto t []) n);
    }

two_slashes : (ps : Parts) → All Plain ps → has_prefix (forward ps) (b'/' ∷ b'/' ∷ []) ≢ true
two_slashes [] h e = cc
two_slashes ([] ∷ ps) h e = h.0.full refl
two_slashes ((c ∷ p) ∷ ps) h e = ground (arith, h.0.no_slash.0)

one_slash : (ps : Parts) → has_prefix (b'/' ∷ []) (forward ps ++ b'/' ∷ []) ≡ true → ps ≡ []
one_slash [] e = refl
one_slash ([] ∷ []) e = cc
one_slash ([] ∷ p ∷ ps) e = cc
one_slash ((c ∷ q) ∷ ps) e = cc

not_root : (p : Bytes) (st : Parts) → onto (p ∷ st) [] ≢ []
not_root p st e =
    let back : p ∷ st ++ [] ≡ [] = sym (onto-onto (p ∷ st) [] []) ∙ ap (λ t. onto t []) e in cc

-- A cleaned path whose text starts with that of another one and a slash lies below it.
pub prefix-Below :
    (base st : Parts)
    → All Plain base
    → All Plain st
    → has_prefix (rooted_text st) (rooted_text base ++ b'/' ∷ []) ≡ true
    → Below base (rooted_text st)
unfolding rooted_text
prefix-Below [] [] h k e = absurd (two_slashes [] h e)
prefix-Below [] (q ∷ st) h k e = absurd (
    two_slashes (onto (q ∷ st) []) (All-onto (q ∷ st) [] k tt)
      (sym (ap (λ t. has_prefix t (b'/' ∷ b'/' ∷ [])) (rooted_text-forward q st)) ∙ e))
prefix-Below (p ∷ base) [] h k e = absurd (
    not_root p base (
      one_slash (onto (p ∷ base) [])
        (sym (ap (λ t. has_prefix (b'/' ∷ []) (t ++ b'/' ∷ [])) (rooted_text-forward p base)) ∙ e)))
prefix-Below (p ∷ base) (q ∷ st) h k e = forward-Below (p ∷ base) (q ∷ st) h k (
    sym (
      ap (λ t. has_prefix t (rooted_text (p ∷ base) ++ b'/' ∷ [])) (rooted_text-forward q st)
      ∙ ap (λ t. has_prefix (forward (onto (q ∷ st) [])) (t ++ b'/' ∷ []))
          (rooted_text-forward p base))
    ∙ e)
