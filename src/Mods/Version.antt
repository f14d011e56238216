-- ===== src/Mods/Version.antt =====
-- update.go, `解析版本号`: the build number behind the key in the manifest of the game.
use dst_nucleus.Prelude.Decimal.{is_digit}
use dst_nucleus.Prelude.{
  ◌∷◌, [], Bytes, ◌≡◌, if◌then◌else◌, All, ◌==◌, ◌++◌, arith, ◌||◌, true, Bool-cases, inl, refl, ap,
  inr, ℕ, ◌↔◌, ◌∙◌, subst,
}
use dst_nucleus.Mods.Digits.{span_digits, span_digits-append}

unfoldable pub skip_tabs : Bytes → Bytes
skip_tabs [] = []
skip_tabs (c ∷ cs) = if c == b' ' || c == b'\t' then skip_tabs cs else c ∷ cs

-- Behind the digits: they count when there are some and a quote follows.
unfoldable pub quoted_digits : Bytes × Bytes → Bytes
quoted_digits ([], rest) = []
quoted_digits (d ∷ ds, []) = []
quoted_digits (d ∷ ds, c ∷ cs) = if c == b'"' then d ∷ ds else []

unfoldable pub quoted_version : Bytes → Bytes
unfolding quoted_digits
quoted_version [] = []
quoted_version (c ∷ cs) = if c == b'"' then quoted_digits (span_digits cs) else []

-- The empty text where there is no version.
unfoldable pub parse_version_number : Bytes → Bytes
unfolding quoted_version skip_tabs
parse_version_number s = quoted_version (skip_tabs s)

abbrev pub AllDigits : Bytes → Type 0
AllDigits = All (λ c. is_digit c ≡ true)

abbrev pub AllTabs : Bytes → Type 0
AllTabs = All (λ c. (c == b' ' || c == b'\t') ≡ true)

-- Where a version stands in a text: behind blanks and tabs, between quotes.
pub record Quoted (s v : Bytes) : Type 0 where
  pub tabs : Bytes
  pub rest : Bytes
  pub text : s ≡ tabs ++ (b'"' ∷ (v ++ b'"' ∷ rest))
  pub blank : AllTabs tabs
  pub digits : AllDigits v

skip_tabs-split : (s : Bytes) → (tabs : Bytes) × (s ≡ tabs ++ skip_tabs s) × AllTabs tabs
unfolding skip_tabs
skip_tabs-split [] = ([], refl, tt)
skip_tabs-split (c ∷ cs) = elim (Bool-cases (c == b' ' || c == b'\t')) [
  | inl e ↦
      let (tabs, same, blank) = skip_tabs-split cs in
      (c ∷ tabs, rw (e, skip_tabs) (ap (c ∷◌) same), (e, blank))
  | inr e ↦ ([], rw (e, skip_tabs) refl, tt)
]

span_digits-split :
    (s : Bytes) → (s ≡ (span_digits s).0 ++ (span_digits s).1) × AllDigits (span_digits s).0
unfolding span_digits
span_digits-split [] = (refl, tt)
span_digits-split (c ∷ cs) = ground (arith, span_digits-split cs)

quoted_digits-split :
    (p : Bytes × Bytes) (d : ℕ) (ds : Bytes)
    → quoted_digits p ≡ d ∷ ds
    → (rest : Bytes) × (p.0 ≡ d ∷ ds) × (p.1 ≡ b'"' ∷ rest)
unfolding quoted_digits
quoted_digits-split ([], rest) d ds e = ground arith
quoted_digits-split (x ∷ xs, []) d ds e = ground arith
quoted_digits-split (x ∷ xs, c ∷ cs) d ds e = elim (Bool-cases (c == b'"')) [
  | inl q ↦ (cs, ground (arith, q), ground (arith, q))
  | inr q ↦ ground (arith, q)
]

quoted_version-split :
    (s : Bytes) (d : ℕ) (ds : Bytes)
    → quoted_version s ≡ d ∷ ds
    → (rest : Bytes) × (s ≡ b'"' ∷ (d ∷ ds ++ b'"' ∷ rest)) × AllDigits (d ∷ ds)
unfolding quoted_version
quoted_version-split [] d ds e = ground arith
quoted_version-split (c ∷ cs) d ds e = elim (Bool-cases (c == b'"')) [
  | inl q ↦
      let found : quoted_digits (span_digits cs) ≡ d ∷ ds = ground (arith, q) in
      let (rest, front, back) = quoted_digits-split (span_digits cs) d ds found in
      let (same, digits) = span_digits-split cs in
      let quote : c ≡ b'"' = ground (arith, q) in (rest, cc, subst AllDigits front digits)
  | inr q ↦ ground (arith, q)
]

skip_tabs-append :
    (tabs rest : Bytes) → AllTabs tabs → skip_tabs (tabs ++ b'"' ∷ rest) ≡ b'"' ∷ rest
unfolding skip_tabs
skip_tabs-append [] rest h = refl
skip_tabs-append (c ∷ cs) rest h = rw h.0 (skip_tabs-append cs rest h.1)

-- A text that is not empty is found exactly when it is a version in this place: digits between
-- quotes, behind blanks and tabs at the start of the text, with anything behind.
pub parse_version_number_iff :
    (s : Bytes) (d : ℕ) (ds : Bytes) → (parse_version_number s ≡ d ∷ ds) ↔ Quoted s (d ∷ ds)
unfolding parse_version_number
parse_version_number_iff s d ds = (sound, complete)
  where
    sound : quoted_version (skip_tabs s) ≡ d ∷ ds → Quoted s (d ∷ ds)
    sound e =
        let (tabs, same, blank) = skip_tabs-split s in
        let (rest, text, digits) = quoted_version-split (skip_tabs s) d ds e in
        record {
          tabs = tabs;
          rest = rest;
          text = same ∙ ap (tabs ++◌) text;
          blank = blank;
          digits = digits;
        }

    complete : Quoted s (d ∷ ds) → quoted_version (skip_tabs s) ≡ d ∷ ds
    complete q =
        let at_quote = skip_tabs-append q.tabs ((d ∷ ds) ++ b'"' ∷ q.rest) q.blank in
        let digits = span_digits-append (d ∷ ds) (b'"' ∷ q.rest) q.digits refl in
        rw (q.text, at_quote, quoted_version, digits, quoted_digits) refl
