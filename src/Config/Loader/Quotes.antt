-- ===== src/Config/Loader/Quotes.antt =====
-- Quotes round a value, and the ends of a text.
use dst_nucleus.Prelude.{[], ◌∷◌, ◌++◌, true, false, Bytes, ◌≡◌, ◌≢◌, refl, All, ◌==◌, ◌||◌, ℕ}
use dst_nucleus.Config.Loader.{quotes_left, quotes_right}

abbrev pub IsQuote : ℕ → Type 0
IsQuote c = (c == b'"' || c == b'\'' || c == b'`') ≡ true

abbrev pub IsNoQuote : ℕ → Type 0
IsNoQuote c = (c == b'"' || c == b'\'' || c == b'`') ≡ false

-- What the first byte of a text is, and the last one.
abbrev pub First : (ℕ → Type 0) → Bytes → Type 0
First P [] = ⊥
First P (c ∷ cs) = P c

abbrev pub Last : (ℕ → Type 0) → Bytes → Type 0
Last P [] = ⊥
Last P (c ∷ []) = P c
Last P (c ∷ d ∷ ds) = Last P (d ∷ ds)

pub quotes_left_lead :
    (qs v : Bytes) → All IsQuote qs → First IsNoQuote v → quotes_left (qs ++ v) ≡ v
unfolding quotes_left
quotes_left_lead [] [] h f = absurd f
quotes_left_lead [] (c ∷ cs) h f = rw f refl
quotes_left_lead (q ∷ qs) v h f = rw h.0 (quotes_left_lead qs v h.1 f)

quotes_right-quotes : (qs : Bytes) → All IsQuote qs → quotes_right qs ≡ []
unfolding quotes_right
quotes_right-quotes [] h = refl
quotes_right-quotes (q ∷ qs) h = rw (quotes_right-quotes qs h.1, h.0) refl

pub quotes_right_trail :
    (v qs : Bytes) → All IsQuote qs → Last IsNoQuote v → quotes_right (v ++ qs) ≡ v
unfolding quotes_right
quotes_right_trail [] qs h l = absurd l
quotes_right_trail (c ∷ []) qs h l = rw (quotes_right-quotes qs h, l) refl
quotes_right_trail (c ∷ d ∷ ds) qs h l = rw (quotes_right_trail (d ∷ ds) qs h l) refl

pub First-append : (P : ℕ → Type 0) (v r : Bytes) → First P v → First P (v ++ r)
First-append P [] r h = absurd h
First-append P (c ∷ cs) r h = h

pub First-cons : (P : ℕ → Type 0) (v : Bytes) → First P v → v ≢ []
First-cons P [] h e = h
First-cons P (c ∷ cs) h e = cc
