-- ===== src/Install/Kept.antt =====
-- What both installers keep while they unpack, for any test of where a path may lie: the size of what
-- was written, and what each code leaves.
use dst_nucleus.Prelude.{
  [], ◌∷◌, ℕ, List, Bool, Bytes, Option, ◌≡◌, ◌≢◌, ◌≤◌, ◌+◌, All, true, refl, length, if-split, ltb,
  arith, suc, false, ◌<◌, ◌==◌, take, some, ap, none, zero, ==_iff,
}
use dst_nucleus.Install.Linux.{Entry, Unpacked, nothing, fuse, copy_limited, finish_install}

-- The length of all that was written.
abbrev pub written : List (Bytes × Bytes) → ℕ
written [] = 0
written ((path, text) ∷ files) = length text + written files

pub record Confined (inside : Bytes → Type 0) (limit : ℕ) (u : Unpacked) : Type 0 where
  pub directories : All (λ d. inside d.0) u.directories
  pub files : All (λ f. inside f.0) u.files
  pub written : written u.files ≤ u.total
  pub bounded : u.total ≤ limit

pub not_ltb : (a b : ℕ) → ltb a b ≡ false → b ≤ a
not_ltb a b h = ground arith

pub length-take_le : (n : ℕ) (xs : Bytes) → length (take n xs) ≤ n
length-take_le zero xs = omega arith
length-take_le (suc n) [] = omega arith
length-take_le (suc n) (x ∷ xs) = omega (arith, length-take_le n xs)

pub take_whole : (n : ℕ) (xs : Bytes) → length (take n xs) < n → take n xs ≡ xs
take_whole zero xs h = ground arith
take_whole (suc n) [] h = refl
take_whole (suc n) (x ∷ xs) h = ap (x ∷◌) (take_whole n xs (omega arith))

pub take-take_le : (m n : ℕ) (xs : Bytes) → length (take m (take n xs)) ≤ n
take-take_le zero n xs = omega arith
take-take_le (suc m) zero xs = omega arith
take-take_le (suc m) (suc n) [] = omega arith
take-take_le (suc m) (suc n) (x ∷ xs) = omega (arith, take-take_le m n xs)

pub length-copy_limited :
    (limit : ℕ) (content : Bytes) (stop : Option ℕ)
    → length (copy_limited limit content stop).0 ≤ limit
unfolding copy_limited
length-copy_limited limit content none = length-take_le limit content
length-copy_limited limit content (some n) = take-take_le n limit content

pub copy_limited-whole :
    (limit : ℕ) (content : Bytes) (stop : Option ℕ)
    → (copy_limited limit content stop).1 ≡ true
    → length (copy_limited limit content stop).0 < limit
    → (copy_limited limit content stop).0 ≡ content
unfolding copy_limited
copy_limited-whole limit content none e h = take_whole limit content h
copy_limited-whole limit content (some n) e h = absurd cc

-- A regular file, whole.
abbrev pub whole_file : Bytes → Entry → Unpacked → Unpacked
whole_file target e u = record u {
  files = (target, e.content) ∷ u.files;
  total = u.total + length e.content;
}

abbrev pub Wiped : Unpacked → Type 0
Wiped u = u.wiped ≡ true

-- What was asked for: with code 0 it is `u'`, and with code 140 the removal came last.
abbrev pub Kept : (Bytes → Type 0) → Unpacked → ℕ × Unpacked → Type 0
Kept inside u' r =
    Confined inside (suc fuse) r.1
    × (r.0 ≡ 0 → Confined inside fuse r.1 × (r.1 ≡ u'))
    × (r.0 ≡ 140 → Wiped r.1)

pub Confined-weaken :
    (inside : Bytes → Type 0) (u : Unpacked) → Confined inside fuse u → Confined inside (suc fuse) u
Confined-weaken inside u c = record {
  directories = c.directories;
  files = c.files;
  written = c.written;
  bounded = omega (arith, c.bounded);
}

pub failed-Kept :
    (inside : Bytes → Type 0) (u' u : Unpacked) (code : ℕ)
    → Confined inside (suc fuse) u
    → code ≢ 0
    → code ≢ 140
    → Kept inside u' (code, u)
failed-Kept inside u' u code c h k = (c, λ e. absurd (h e), λ e. absurd (k e))

pub done-Kept :
    (inside : Bytes → Type 0) (u' u : Unpacked)
    → Confined inside fuse u
    → u ≡ u'
    → Kept inside u' (0, u)
done-Kept inside u' u c e = (Confined-weaken inside u c, λ _. (c, e), λ z. absurd (omega arith))

pub wiped-Kept :
    (inside : Bytes → Type 0) (u' u : Unpacked)
    → Confined inside (suc fuse) u
    → Kept inside u' (140, record u { wiped = true })
wiped-Kept inside u' u c = (
  record { directories = c.directories; files = c.files; written = c.written; bounded = c.bounded },
  λ z. absurd (omega arith),
  λ _. refl,
)

pub add_file-Confined :
    (inside : Bytes → Type 0) (limit : ℕ) (u : Unpacked) (target text : Bytes)
    → inside target
    → Confined inside fuse u
    → u.total + length text ≤ limit
    → Confined inside limit
        (record u { files = (target, text) ∷ u.files; total = u.total + length text })
add_file-Confined inside limit u target text below c h = record {
  directories = c.directories;
  files = (below, c.files);
  written = omega (arith, c.written);
  bounded = h;
}

-- What is left behind the installation, and that the archive came to its end when the code is 0.
abbrev pub Ended : (Bytes → Type 0) → Unpacked → Bool → ℕ × Unpacked → Type 0
Ended inside u' whole r = Kept inside u' r × (r.0 ≡ 0 → whole ≡ true)

pub start-Confined : (inside : Bytes → Type 0) → Confined inside fuse nothing
start-Confined inside = record {
  directories = tt;
  files = tt;
  written = omega arith;
  bounded = omega arith;
}

pub failed-Ended :
    (inside : Bytes → Type 0) (u' : Unpacked) (whole : Bool) (code : ℕ)
    → code ≢ 0
    → code ≢ 140
    → Ended inside u' whole (code, nothing)
failed-Ended inside u' whole code h k = (
  failed-Kept inside u' nothing code (Confined-weaken inside nothing (start-Confined inside)) h k,
  λ z. absurd (h z),
)

pub finish_install-Ended :
    (inside : Bytes → Type 0) (u' : Unpacked) (whole dry_run : Bool) (r : ℕ × Unpacked)
    → Ended inside u' whole r
    → Ended inside u' whole (finish_install dry_run r)
unfolding finish_install
finish_install-Ended inside u' whole dry_run (code, u) e =
    if-split (Ended inside u' whole) (code == 0) _ _
      (λ z.
        let z' = (==_iff code 0).0 z in
        let (safe, same) = e.0.1 z' in
        if-split (Ended inside u' whole) dry_run (0, u) (138, u)
          (λ _. (done-Kept inside u' u safe same, λ _. e.1 z'))
          (λ _. (
            failed-Kept inside u' u 138 e.0.0 (omega arith) (omega arith),
            λ x. absurd (omega arith),
          )))
      (λ _. e)
