-- ===== src/Updates/LocalVersion/Windows.antt =====
-- However the manifest is cut into pieces, its build number is found.
use native.Mathlib.Decide.{dec_lt}
use dst_nucleus.Prelude.{
  joined, List, [], ◌∷◌, ◌++◌, ℕ, zero, suc, Bool, true, false, none, Bytes, ◌≡◌, ◌≢◌, ◌≤◌, ◌<◌,
  ◌+◌, ◌-◌, ◌||◌, ltb, length, drop, refl, ap, sym, ◌∙◌, subst, arith, inl, inr, List-cases,
  Bool-cases, length-append, append_assoc, lt→ltb, le→ltb,
}
use dst_nucleus.Mods.Version.{parse_version_number}
use dst_nucleus.Updates.Search.{index_of}
use dst_nucleus.Updates.Search.First.{IsFirst-drop, index_of-short, IsFirst, index_of-IsFirst}
use dst_nucleus.Updates.LocalVersion.{build_key, kept_size, scan_window, keep_tail, read_pieces}

-- A text that starts another one with the same continuation.
append-split :
    (xs ys zs us : Bytes)
    → xs ++ ys ≡ zs ++ us
    → length zs ≤ length xs
    → (m : Bytes) × (xs ≡ zs ++ m) × (us ≡ m ++ ys)
append-split xs ys [] us e h = (xs, refl, sym e)
append-split [] ys (z ∷ zs) us e h = absurd (omega arith)
append-split (x ∷ xs) ys (z ∷ zs) us e h =
    let (m, front, back) = append-split xs ys zs us (ground (arith, e)) (omega arith) in
    (m, ground (arith, e, front), back)

drop_front : (n : ℕ) (xs ys : Bytes) → n ≤ length xs → drop n (xs ++ ys) ≡ drop n xs ++ ys
drop_front zero xs ys h = refl
drop_front (suc n) [] ys h = absurd (omega arith)
drop_front (suc n) (x ∷ xs) ys h = drop_front n xs ys (omega arith)

length-build_key : length build_key ≡ 15
length-build_key = refl

module _ (w v : Bytes) (fits : length w ≤ 113) (some_digits : v ≢ [])
    (parsed : (r : Bytes) → parse_version_number (w ++ r) ≡ v) where
  scan_window-hit :
      (n : ℕ) (ended : Bool) (pre r : Bytes)
      → IsFirst build_key pre
      → (ltb kept_size (length (build_key ++ (w ++ r))) || ended) ≡ true
      → scan_window (suc n) ended (pre ++ (build_key ++ (w ++ r))) ≡ v
  unfolding scan_window
  scan_window-hit n ended pre r h long = elim (List-cases v) [
    | inl e ↦ absurd (some_digits e)
    | inr (d, ds, e) ↦
        let version : parse_version_number (w ++ r) ≡ d ∷ ds = parsed r ∙ e in
        rw (index_of-IsFirst build_key pre (w ++ r) h, scan_window, long, version) (sym e)
  ]

  scan_window-short :
      (n : ℕ) (pre r : Bytes)
      → IsFirst build_key pre
      → length (build_key ++ r) ≤ kept_size
      → scan_window n false (pre ++ (build_key ++ r)) ≡ []
  unfolding scan_window
  scan_window-short zero pre r h le = refl
  scan_window-short (suc n) pre r h le =
      rw
        (
          index_of-IsFirst build_key pre r h,
          scan_window,
          le→ltb kept_size (length (build_key ++ r)) le,
        )
        refl

  scan_window-none : (n : ℕ) (s : Bytes) → index_of build_key s ≡ none → scan_window n false s ≡ []
  unfolding scan_window
  scan_window-none zero s e = refl
  scan_window-none (suc n) s e = rw (e, scan_window) refl

  -- Where the key starts in the last 128 bytes or behind them, the kept tail still leads up to it.
  keep_tail-leads :
      (s future pre u : Bytes)
      → s ++ future ≡ pre ++ (build_key ++ u)
      → IsFirst build_key pre
      → length s ≤ length pre + kept_size
      → (pre' : Bytes) × (keep_tail s ++ future ≡ pre' ++ (build_key ++ u)) × IsFirst build_key pre'
  unfolding keep_tail
  keep_tail-leads s future pre u e h le = elim (Bool-cases (ltb kept_size (length s))) [
    | inr q ↦ (pre, rw q e, h)
    | inl big ↦
        let n : ℕ = length s - kept_size in
        (
          drop n pre,
          rw big (
              sym (drop_front n s future (omega arith))
              ∙ ap (drop n) e
              ∙ drop_front n pre (build_key ++ u) (omega arith)),
          IsFirst-drop build_key n pre h,
        )
  ]

  scan_window-found :
      (ended : Bool) (s pre r : Bytes)
      → s ≡ pre ++ (build_key ++ (w ++ r))
      → IsFirst build_key pre
      → (ltb kept_size (length (build_key ++ (w ++ r))) || ended) ≡ true
      → scan_window (length s) ended s ≡ v
  scan_window-found ended [] pre r e h long =
      absurd (ground (arith, ap length e, length-append pre (build_key ++ (w ++ r))))
  scan_window-found ended (c ∷ cs) pre r e h long =
      subst (λ t. scan_window (suc (length cs)) ended t ≡ v) (sym e)
        (scan_window-hit (length cs) ended pre r h long)

  -- The number is in the window, with more than 128 bytes from its key on.
  scan_window-far :
      (s future pre rest : Bytes)
      → s ++ future ≡ pre ++ (build_key ++ (w ++ rest))
      → IsFirst build_key pre
      → length pre + kept_size < length s
      → scan_window (length s) false s ≡ v
  scan_window-far s future pre rest e h far =
      let front : Bytes = pre ++ (build_key ++ w) in
      let regroup : pre ++ (build_key ++ (w ++ rest)) ≡ front ++ rest = simp append_assoc in
      let size : length front ≡ length pre + (15 + length w) =
        length-append pre (build_key ++ w) ∙ ap (λ k. length pre + k) (length-append build_key w) in
      let (m, same, after) =
        append-split s future front rest (e ∙ regroup) (omega (arith, size, fits, far)) in
      let split : s ≡ pre ++ (build_key ++ (w ++ m)) =
        same
        ∙ append_assoc pre (build_key ++ w) m
        ∙ ap (λ t. pre ++ t) (append_assoc build_key w m) in
      let long : kept_size < length (build_key ++ (w ++ m)) =
        omega (arith, ap length split, length-append pre (build_key ++ (w ++ m)), far) in
      scan_window-found false s pre m split h
        (ap (λ b. b || false) (lt→ltb kept_size (length (build_key ++ (w ++ m))) long))

  -- Otherwise this piece gives nothing.
  scan_window-near :
      (n : ℕ) (s future pre rest : Bytes)
      → s ++ future ≡ pre ++ (build_key ++ (w ++ rest))
      → IsFirst build_key pre
      → length s ≤ length pre + kept_size
      → scan_window n false s ≡ []
  scan_window-near n s future pre rest e h near = elim (dec_lt (length s) (length pre + 15)) [
    | yes q ↦
        scan_window-none n s (index_of-short build_key s future pre (w ++ rest) e h (omega arith) q)
    | no q ↦
        let size : length (pre ++ build_key) ≡ length pre + 15 = length-append pre build_key in
        let (m, same, after) =
          append-split s future (pre ++ build_key) (w ++ rest)
            (e ∙ sym (append_assoc pre build_key (w ++ rest))) (omega (arith, size, q)) in
        let split : s ≡ pre ++ (build_key ++ m) = same ∙ append_assoc pre build_key m in
        let short : length (build_key ++ m) ≤ kept_size =
          omega (arith, ap length split, length-append pre (build_key ++ m), near) in
        subst (λ t. scan_window n false t ≡ []) (sym split) (scan_window-short n pre m h short)
  ]

  pub read_pieces-found :
      (kept : Bytes) (pieces : List Bytes) (last pre rest : Bytes)
      → kept ++ (joined pieces ++ last) ≡ pre ++ (build_key ++ (w ++ rest))
      → IsFirst build_key pre
      → read_pieces kept pieces last ≡ v
  unfolding read_pieces
  read_pieces-found kept [] last pre rest e h =
      scan_window-found true (kept ++ last) pre rest e h (ground arith)
  read_pieces-found kept (p ∷ ps) last pre rest e h =
      let s : Bytes = kept ++ p in
      let future : Bytes = joined ps ++ last in
      let e' : s ++ future ≡ pre ++ (build_key ++ (w ++ rest)) =
        append_assoc kept p future
        ∙ ap (λ t. kept ++ t) (sym (append_assoc p (joined ps) last))
        ∙ e in
      elim (dec_lt (length pre + kept_size) (length s)) [
        | yes far ↦ elim (List-cases v) [
          | inl q ↦ absurd (some_digits q)
          | inr (d, ds, q) ↦
              rw (scan_window-far s future pre rest e' h far ∙ q, read_pieces) (sym q)
        ]
        | no q ↦
            let near : length s ≤ length pre + kept_size = omega (arith, q) in
            let (pre', leads, h') = keep_tail-leads s future pre (w ++ rest) e' h near in
            rw (scan_window-near (length s) s future pre rest e' h near, read_pieces)
              (read_pieces-found (keep_tail s) ps last pre' rest leads h')
      ]
