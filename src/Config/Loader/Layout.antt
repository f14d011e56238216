-- ===== src/Config/Loader/Layout.antt =====
-- How a line of the configuration file is laid out, and what is read from it.
use dst_nucleus.Prelude.{
  [], ◌∷◌, ◌++◌, true, false, none, some, Bytes, codes, ◌≡◌, ◌≢◌, refl, ap, ◌∙◌, sym, All, ◌==◌,
  ◌<◌, length, has_prefix, arith, List-cases, inl, inr, append-nil, append_assoc, All-append, subst,
}
use dst_nucleus.Updates.Search.{trim_left, trim_right, trim_space, is_blank}
use dst_nucleus.Config.Loader.Quotes.{
  IsQuote, IsNoQuote, First, Last, First-append, First-cons, quotes_left_lead, quotes_right_trail,
}
use dst_nucleus.Config.Loader.{cut_colon, quotes_right, trim_quotes, setting_parts, config_line}

abbrev pub Blanks : Bytes → Type 0
Blanks = All (λ c. is_blank c ≡ true)

abbrev pub NoColon : Bytes → Type 0
NoColon = All (λ c. c ≢ b':')

-- The text starts with a byte that is not blank.
abbrev pub Starts : Bytes → Type 0
Starts [] = ⊥
Starts (c ∷ cs) = is_blank c ≡ false

-- A text that is not empty and has no blank at its ends.
pub record IsSolid (s : Bytes) : Type 0 where
  pub start : Starts s
  pub end : trim_right s ≡ s

trim_left_lead : (bs s : Bytes) → Blanks bs → trim_left (bs ++ s) ≡ trim_left s
unfolding trim_left
trim_left_lead [] s h = refl
trim_left_lead (b ∷ bs) s h = rw h.0 (trim_left_lead bs s h.1)

trim_left-Starts : (s r : Bytes) → Starts s → trim_left (s ++ r) ≡ s ++ r
unfolding trim_left
trim_left-Starts [] r h = absurd h
trim_left-Starts (c ∷ cs) r h = rw h refl

trim_right-Blanks : (bs : Bytes) → Blanks bs → trim_right bs ≡ []
unfolding trim_right
trim_right-Blanks [] h = refl
trim_right-Blanks (b ∷ bs) h = rw (trim_right-Blanks bs h.1, h.0) refl

trim_right_trail : (s bs : Bytes) → Blanks bs → trim_right (s ++ bs) ≡ trim_right s
unfolding trim_right
trim_right_trail [] bs h = trim_right-Blanks bs h
trim_right_trail (c ∷ cs) bs h = rw (trim_right_trail cs bs h) refl

behind-nothing : (xs ys : Bytes) → xs ++ ys ≡ [] → ys ≡ []
behind-nothing [] ys e = e
behind-nothing (x ∷ xs) ys e = cc

-- A text that keeps its end keeps it behind any other.
trim_right-append :
    (xs ys : Bytes) → ys ≢ [] → trim_right ys ≡ ys → trim_right (xs ++ ys) ≡ xs ++ ys
unfolding trim_right
trim_right-append [] ys ne h = h
trim_right-append (x ∷ xs) ys ne h = elim (List-cases (xs ++ ys)) [
  | inl e ↦ absurd (ne (behind-nothing xs ys e))
  | inr (z, zs, e) ↦ rw (trim_right-append xs ys ne h, e) refl
]

Starts-cons : (s : Bytes) → Starts s → s ≢ []
Starts-cons [] h e = h
Starts-cons (c ∷ cs) h e = cc

pub trim_space-solid :
    (left s right : Bytes)
    → Blanks left
    → IsSolid s
    → Blanks right
    → trim_space (left ++ (s ++ right)) ≡ s
unfolding trim_space
trim_space-solid left s right l h r =
    ap trim_right (trim_left_lead left (s ++ right) l ∙ trim_left-Starts s right h.start)
    ∙ trim_right_trail s right r
    ∙ h.end

cut_colon-append :
    (key rest : Bytes) → NoColon key → cut_colon (key ++ b':' ∷ rest) ≡ some (key, rest)
unfolding cut_colon
cut_colon-append [] rest h = refl
cut_colon-append (c ∷ cs) rest h = ground (arith, h.0, cut_colon-append cs rest h.1)

-- The ends of a text are ASCII, so that Unicode's blanks do not matter to `strings.TrimSpace`.
abbrev pub AsciiEnds : Bytes → Type 0
AsciiEnds s = First (λ c. c < 128) s × Last (λ c. c < 128) s

-- One setting: its parts, with blanks round them, and quotes of any kind and number round the value.
pub record Setting : Type 0 where
  pub left : Bytes
  pub key : Bytes
  pub before : Bytes
  pub gap : Bytes
  pub opening : Bytes
  pub value : Bytes
  pub closing : Bytes
  pub right : Bytes

-- The value as it is written.
abbrev pub written : Setting → Bytes
written s = s.opening ++ (s.value ++ s.closing)

pub record IsSetting (s : Setting) : Type 0 where
  pub left_blanks : Blanks s.left
  pub before_blanks : Blanks s.before
  pub gap_blanks : Blanks s.gap
  pub right_blanks : Blanks s.right
  pub key_solid : IsSolid s.key
  pub key_open : has_prefix s.key (codes "#") ≡ false
  pub key_plain : NoColon s.key
  pub opening_quotes : All IsQuote s.opening
  pub closing_quotes : All IsQuote s.closing
  pub value_start : First IsNoQuote s.value
  pub value_end : Last IsNoQuote s.value
  pub written_solid : IsSolid (written s)
  pub key_ascii : AsciiEnds s.key
  pub written_ascii : AsciiEnds (written s)

abbrev pub setting_text : Setting → Bytes
setting_text s = s.key ++ (s.before ++ b':' ∷ (s.gap ++ written s))

abbrev pub setting_line : Setting → Bytes
setting_line s = s.left ++ (setting_text s ++ s.right)

Starts-append : (s r : Bytes) → Starts s → Starts (s ++ r)
Starts-append [] r h = absurd h
Starts-append (c ∷ cs) r h = h

Blanks-NoColon : (bs : Bytes) → Blanks bs → NoColon bs
Blanks-NoColon [] h = tt
Blanks-NoColon (b ∷ bs) h = (ground (arith, h.0), Blanks-NoColon bs h.1)

has_prefix-key :
    (key rest : Bytes)
    → Starts key
    → has_prefix key (codes "#") ≡ false
    → has_prefix (key ++ rest) (codes "#") ≡ false
has_prefix-key [] rest h e = absurd h
has_prefix-key (c ∷ cs) rest h e = e

length-Starts : (s : Bytes) → Starts s → (length s == 0) ≡ false
length-Starts [] h = absurd h
length-Starts (c ∷ cs) h = ground arith

setting_text-IsSolid : (s : Setting) → IsSetting s → IsSolid (setting_text s)
setting_text-IsSolid s h = record {
  start = Starts-append s.key _ h.key_solid.start;
  end =
      subst (λ t. trim_right t ≡ t) (regroup s.key s.before s.gap (written s))
        (trim_right-append (s.key ++ (s.before ++ b':' ∷ s.gap)) (written s)
          (Starts-cons (written s) h.written_solid.start) h.written_solid.end);
}
  where
    regroup : (k b g w : Bytes) → (k ++ (b ++ b':' ∷ g)) ++ w ≡ k ++ (b ++ b':' ∷ (g ++ w))
    regroup k b g w = simp append_assoc

trim_quotes-written : (s : Setting) → IsSetting s → trim_quotes (written s) ≡ s.value
unfolding trim_quotes
trim_quotes-written s h =
    ap quotes_right (
      quotes_left_lead s.opening (s.value ++ s.closing) h.opening_quotes
        (First-append IsNoQuote s.value s.closing h.value_start))
    ∙ quotes_right_trail s.value s.closing h.closing_quotes h.value_end

setting_parts-IsSetting :
    (s : Setting)
    → IsSetting s
    → setting_parts (s.key ++ s.before) (s.gap ++ written s) ≡ some (s.key, s.value)
unfolding setting_parts
setting_parts-IsSetting s h =
    let key : trim_space (s.key ++ s.before) ≡ s.key =
      trim_space-solid [] s.key s.before tt h.key_solid h.before_blanks in
    let text : trim_space (s.gap ++ written s) ≡ written s =
      ap (λ w. trim_space (s.gap ++ w)) (sym (append-nil (written s)))
      ∙ trim_space-solid s.gap (written s) [] h.gap_blanks h.written_solid tt in
    elim (List-cases s.value) [
      | inl e ↦ absurd (First-cons IsNoQuote s.value h.value_start e)
      | inr (c, cs, e) ↦ rw (text, trim_quotes-written s h, e, setting_parts, key) refl
    ]

config_line-text :
    (s : Setting) → IsSetting s → config_line (setting_text s) ≡ some (s.key, s.value)
unfolding config_line
config_line-text s h =
    let cut : cut_colon (setting_text s) ≡ some (s.key ++ s.before, s.gap ++ written s) =
      ap cut_colon (sym (append_assoc s.key s.before (b':' ∷ (s.gap ++ written s))))
      ∙ cut_colon-append (s.key ++ s.before) (s.gap ++ written s) (
          All-append (λ c. c ≢ b':') s.key s.before h.key_plain
            (Blanks-NoColon s.before h.before_blanks)) in
    rw
      (
        length-Starts (setting_text s) (setting_text-IsSolid s h).start,
        has_prefix-key s.key _ h.key_solid.start h.key_open,
        cut,
        config_line,
      )
      (setting_parts-IsSetting s h)

pub config_line-setting_line :
    (s : Setting) → IsSetting s → config_line (trim_space (setting_line s)) ≡ some (s.key, s.value)
config_line-setting_line s h =
    ap config_line (
      trim_space-solid s.left (setting_text s) s.right h.left_blanks (setting_text-IsSolid s h)
        h.right_blanks)
    ∙ config_line-text s h

pub config_line-Blanks : (bs : Bytes) → Blanks bs → config_line (trim_space bs) ≡ none
unfolding config_line trim_space trim_right
config_line-Blanks bs h =
    let nothing : trim_left bs ≡ [] = ap trim_left (sym (append-nil bs)) ∙ trim_left_lead bs [] h in
    rw (nothing, config_line) refl

comment-trim_right : (note : Bytes) → config_line (trim_right (b'#' ∷ note)) ≡ none
unfolding config_line trim_right
comment-trim_right note = elim (List-cases (trim_right note)) [
  | inl e ↦ rw (e, config_line) refl
  | inr (c, cs, e) ↦ rw (e, length-Starts (b'#' ∷ c ∷ cs) refl, config_line) refl
]

pub config_line-comment :
    (left note : Bytes) → Blanks left → config_line (trim_space (left ++ b'#' ∷ note)) ≡ none
unfolding trim_space trim_left
config_line-comment left note h =
    ap (λ t. config_line (trim_right t)) (trim_left_lead left (b'#' ∷ note) h)
    ∙ comment-trim_right note
