-- ===== src/Daemon/Announce/Quoted.antt =====
-- The announcement as a string of Lua.
use dst_nucleus.Prelude.{
  [], ◌∷◌, ◌++◌, ℕ, Bool, true, false, Bytes, codes, equal, ◌==◌, ◌≡◌, ◌≢◌, ◌&&◌, not, refl, ap,
  arith, All, All-append, append_assoc, if◌then◌else◌, if-split,
}
use dst_nucleus.Prelude.Decimal.{append_int, append_uint, append_uint-digits, is_digit}
use dst_nucleus.Daemon.Announce.{
  Texts, simplified, traditional, english, japanese, russian, announcement_texts, announce_head,
  announce_tail, announce_command,
}

-- A byte that stands for itself between the quotes of a string in Lua, on one line.
abbrev pub IsLiteral : ℕ → Type 0
IsLiteral c = (c ≢ b'"') × (c ≢ b'\\') × (c ≢ b'\n')

abbrev literal : ℕ → Bool
literal c = not (c == b'"') && (not (c == b'\\') && not (c == b'\n'))

abbrev all_literal : Bytes → Bool
all_literal [] = true
all_literal (c ∷ cs) = literal c && all_literal cs

literal-IsLiteral : (c : ℕ) → literal c ≡ true → IsLiteral c
literal-IsLiteral c h = ground arith

all_literal-IsLiteral : (s : Bytes) → all_literal s ≡ true → All IsLiteral s
all_literal-IsLiteral [] h = tt
all_literal-IsLiteral (c ∷ cs) h =
    (literal-IsLiteral c (ground arith), all_literal-IsLiteral cs (ground arith))

Digits-literal : (ds : Bytes) → All (λ c. is_digit c ≡ true) ds → All IsLiteral ds
Digits-literal [] h = tt
Digits-literal (d ∷ ds) h = (ground (arith, h.0), Digits-literal ds h.1)

-- The four texts of a language are literal.
pub record AreLiteral (t : Texts) : Type 0 where
  pub game_update : All IsLiteral t.game_update
  pub mod_update : All IsLiteral t.mod_update
  pub before : All IsLiteral t.before
  pub behind : All IsLiteral t.behind

tested :
    (t : Texts)
    → all_literal t.game_update ≡ true
    → all_literal t.mod_update ≡ true
    → all_literal t.before ≡ true
    → all_literal t.behind ≡ true
    → AreLiteral t
tested t g m b e = record {
  game_update = all_literal-IsLiteral t.game_update g;
  mod_update = all_literal-IsLiteral t.mod_update m;
  before = all_literal-IsLiteral t.before b;
  behind = all_literal-IsLiteral t.behind e;
}

announcement_texts-AreLiteral : (lang : Bytes) → AreLiteral (announcement_texts lang)
unfolding announcement_texts
announcement_texts-AreLiteral lang =
    if-split AreLiteral (equal lang (codes "zh")) _ _ (λ _. tested simplified refl refl refl refl)
      (λ _.
        if-split AreLiteral (equal lang (codes "zh-t")) _ _
          (λ _. tested traditional refl refl refl refl)
          (λ _.
            if-split AreLiteral (equal lang (codes "en")) _ _
              (λ _. tested english refl refl refl refl)
              (λ _.
                if-split AreLiteral (equal lang (codes "jp")) _ _
                  (λ _. tested japanese refl refl refl refl)
                  (λ _.
                    if-split AreLiteral (equal lang (codes "ru")) _ _
                      (λ _. tested russian refl refl refl refl)
                      (λ _. tested simplified refl refl refl refl)))))

-- The two reasons that `main` gives for a reboot.
abbrev pub reason : Bool → Texts → Bytes
reason game t = if game then t.game_update else t.mod_update

reason-literal : (game : Bool) (t : Texts) → AreLiteral t → All IsLiteral (reason game t)
reason-literal true t a = a.game_update
reason-literal false t a = a.mod_update

-- In every language, for both reasons and any number of seconds, the announcement is one line whose message
-- stands between two quotes and has no quote, backslash or line end in it: Lua reads it as the string
-- that it is.
pub announce_command-IsLiteral :
    (lang : Bytes) (game : Bool) (seconds : ℕ)
    → let t = announcement_texts lang in
      (message : Bytes) × (announce_command t (reason game t) seconds
        ≡ announce_head ++ (message ++ announce_tail))
      × All IsLiteral message
unfolding announce_command append_int
announce_command-IsLiteral lang game seconds =
    let t = announcement_texts lang in
    let a = announcement_texts-AreLiteral lang in
    let r = reason game t in
    let n = append_uint seconds in
    (
      r ++ (t.before ++ (n ++ t.behind)),
      ap (announce_head ++◌) (simp append_assoc),
      All-append _ r (t.before ++ (n ++ t.behind)) (reason-literal game t a) (
          All-append _ t.before (n ++ t.behind) a.before
            (All-append _ n t.behind (Digits-literal n (append_uint-digits seconds)) a.behind)),
    )
