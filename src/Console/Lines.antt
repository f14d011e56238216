-- ===== src/Console/Lines.antt =====
-- The pieces in which the console's text is read, against its lines.
use dst_nucleus.Prelude.{
  OneLine, joined, List, [], ◌∷◌, ℕ, Bool, Bytes, All, ◌++◌, Bool-cases, ◌<◌, length, ◌≢◌,
  if◌then◌else◌, ◌==◌, ◌≡◌, arith, ◌+◌, append-nil, inl, refl, append_assoc, inr, All-append,
  length-append,
}
use dst_nucleus.Console.{
  Sent, buffer_cap, send_line, scan_buffer, listen_console, ℕ, Bool, Bytes, length,
}

-- Lines with their line ends, and what follows the last line end.
abbrev pub lines_text : List Bytes → Bytes → Bytes
lines_text [] rest = rest
lines_text (l ∷ ls) rest = l ++ b'\n' ∷ lines_text ls rest

abbrev pub sent_lines : Bool → List Bytes → Sent
sent_lines enable_master [] = []
sent_lines enable_master (l ∷ ls) = send_line enable_master l ++ sent_lines enable_master ls

-- From n bytes into a line on, no line reaches the buffer's capacity.
abbrev Short : ℕ → Bytes → Type 0
Short n [] = n < buffer_cap
Short n (c ∷ cs) = (n < buffer_cap) × Short (if c == b'\n' then 0 else n + 1) cs

scan_buffer-line :
    (em : Bool) (line t ys : Bytes)
    → OneLine t
    → scan_buffer em line (t ++ ys) ≡ scan_buffer em (line ++ t) ys
unfolding scan_buffer
scan_buffer-line em line [] ys h = rw append-nil refl
scan_buffer-line em line (c ∷ cs) ys h =
    ground
      (arith, h.0, scan_buffer-line em (line ++ c ∷ []) cs ys h.1, append_assoc line (c ∷ []) cs)

scan_buffer-append :
    (em : Bool) (line xs ys : Bytes)
    → scan_buffer em line (xs ++ ys) ≡ (
      (scan_buffer em line xs).0 ++ (scan_buffer em (scan_buffer em line xs).1 ys).0,
      (scan_buffer em (scan_buffer em line xs).1 ys).1,
    )
unfolding scan_buffer
scan_buffer-append em line [] ys = refl
scan_buffer-append em line (c ∷ cs) ys = elim (Bool-cases (c == b'\n')) [
  | inl e ↦ rw (e, scan_buffer) (rw (scan_buffer-append em [] cs ys) (simp append_assoc))
  | inr e ↦ rw (e, scan_buffer) (scan_buffer-append em (line ++ c ∷ []) cs ys)
]

scan_buffer-OneLine :
    (em : Bool) (line xs : Bytes) → OneLine line → OneLine (scan_buffer em line xs).1
unfolding scan_buffer
scan_buffer-OneLine em line [] h = h
scan_buffer-OneLine em line (c ∷ cs) h = elim (Bool-cases (c == b'\n')) [
  | inl e ↦ rw (e, scan_buffer) (scan_buffer-OneLine em [] cs tt)
  | inr e ↦
      rw (e, scan_buffer)
        (scan_buffer-OneLine em (line ++ c ∷ []) cs
          (All-append (λ x. x ≢ b'\n') line (c ∷ []) h (λ z. ground arith, tt)))
]

Short-scan_buffer :
    (em : Bool) (line xs ys : Bytes)
    → Short (length line) (xs ++ ys)
    → Short (length (scan_buffer em line xs).1) ys
unfolding scan_buffer
Short-scan_buffer em line [] ys h = h
Short-scan_buffer em line (c ∷ cs) ys h = elim (Bool-cases (c == b'\n')) [
  | inl e ↦ rw (e, scan_buffer) (Short-scan_buffer em [] cs ys (rw e at h.1))
  | inr e ↦
      rw (e, scan_buffer)
        (Short-scan_buffer em (line ++ c ∷ []) cs ys
          (rw (length-append line (c ∷ [])) (rw e at h.1)))
]

Short-lt : (n : ℕ) (s : Bytes) → Short n s → n < buffer_cap
Short-lt n [] h = h
Short-lt n (c ∷ cs) h = h.0

abbrev pub NotEmpty : List Bytes → Type 0
NotEmpty = All (λ p. 0 < length p)

listen_console-scan_buffer :
    (em : Bool) (tail : Bytes) (pieces : List Bytes)
    → OneLine tail
    → NotEmpty pieces
    → Short (length tail) (joined pieces)
    → listen_console em tail pieces ≡ (scan_buffer em tail (joined pieces)).0
unfolding listen_console
listen_console-scan_buffer em tail [] o ne h = unfold scan_buffer in refl
listen_console-scan_buffer em tail (p ∷ ps) o ne h =
    let scanned : scan_buffer em [] (tail ++ p) ≡ scan_buffer em tail p =
      scan_buffer-line em [] tail p o in
    let later =
      listen_console-scan_buffer em (scan_buffer em tail p).1 ps (scan_buffer-OneLine em tail p o)
        ne.1 (Short-scan_buffer em tail p (joined ps) h) in
    ground (
      arith,
      ne.0,
      scanned,
      later,
      Short-lt (length tail) (p ++ joined ps) h,
      scan_buffer-append em tail p (joined ps),
    )

-- A line that fits in the buffer with its line end.
abbrev pub Fits : Bytes → Type 0
Fits l = OneLine l × (length l < buffer_cap)

Short-line :
    (n : ℕ) (l xs : Bytes)
    → OneLine l
    → n + length l < buffer_cap
    → Short (n + length l) xs
    → Short n (l ++ xs)
Short-line n [] xs o b h = let shift : n + length {A = ℕ} [] ≡ n = omega arith in rw shift at h
Short-line n (c ∷ l) xs o b h = elim (Bool-cases (c == b'\n')) [
  | inl e ↦ absurd (o.0 (ground arith))
  | inr e ↦
      let shift : n + length (c ∷ l) ≡ n + 1 + length l = omega arith in
      let later : Short (n + 1) (l ++ xs) =
        Short-line (n + 1) l xs o.1 (omega arith) (rw shift at h) in
      rw e (omega arith, later)
]

Short-end : (n : ℕ) (l : Bytes) → OneLine l → n + length l < buffer_cap → Short n l
Short-end n l o b = rw append-nil at (Short-line n l [] o b b)

Short-lines_text :
    (ls : List Bytes) (rest : Bytes) → All Fits ls → Fits rest → Short 0 (lines_text ls rest)
Short-lines_text [] rest hs h = Short-end 0 rest h.0 (ground (arith, h.1))
Short-lines_text (l ∷ ls) rest hs h =
    let shift : 0 + length l ≡ length l = omega arith in
    Short-line 0 l (b'\n' ∷ lines_text ls rest) hs.0.0 (rw shift hs.0.1)
      (rw shift (hs.0.1, Short-lines_text ls rest hs.1 h))

scan_buffer-OneLine_self :
    (em : Bool) (line t : Bytes) → OneLine t → scan_buffer em line t ≡ ([], line ++ t)
unfolding scan_buffer
scan_buffer-OneLine_self em line t h = rw append-nil at (scan_buffer-line em line t [] h)

scan_buffer-lines_text :
    (em : Bool) (ls : List Bytes) (rest : Bytes)
    → All Fits ls
    → OneLine rest
    → scan_buffer em [] (lines_text ls rest) ≡ (sent_lines em ls, rest)
unfolding scan_buffer
scan_buffer-lines_text em [] rest hs h = scan_buffer-OneLine_self em [] rest h
scan_buffer-lines_text em (l ∷ ls) rest hs h =
    rw
      (
        scan_buffer-line em [] l (b'\n' ∷ lines_text ls rest) hs.0.0,
        scan_buffer-lines_text em ls rest hs.1 h,
      )
      refl

-- When every line typed, and what follows the last line end, is shorter than the buffer of 4096
-- bytes, and no read is empty, then wherever the reads cut the text, the same is sent: for each line
-- in turn what `send_line` sends for it, and nothing for what has no line end yet.
pub listen_console-lines_text :
    (em : Bool) (ls : List Bytes) (rest : Bytes) (pieces : List Bytes)
    → All Fits ls
    → Fits rest
    → NotEmpty pieces
    → joined pieces ≡ lines_text ls rest
    → listen_console em [] pieces ≡ sent_lines em ls
listen_console-lines_text em ls rest pieces hs h ne e =
    rw
      (
        listen_console-scan_buffer em [] pieces tt ne (rw e (Short-lines_text ls rest hs h)),
        e,
        scan_buffer-lines_text em ls rest hs h.0,
      )
      refl
