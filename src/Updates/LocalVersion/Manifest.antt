-- ===== src/Updates/LocalVersion/Manifest.antt =====
-- The build number of a manifest that is rewritten while it is read.
use dst_nucleus.Prelude.{
  joined, List, [], ◌∷◌, ◌++◌, ℕ, zero, suc, true, false, some, Bytes, ◌≡◌, ◌≤◌, ◌<◌, ◌+◌, length,
  refl, ap, sym, ◌∙◌, arith, length-append, append_assoc,
}
use dst_nucleus.Files.Snapshot.{Stat, same_stat}
use dst_nucleus.Mods.Version.{AllTabs, AllDigits, parse_version_number_iff}
use dst_nucleus.Updates.Search.First.{IsFirst}
use dst_nucleus.Updates.LocalVersion.{
  build_key, read_pieces, Attempt, attempt, read_local_from, read_local_ver,
}
use dst_nucleus.Updates.LocalVersion.Windows.{read_pieces-found}

-- A manifest: what stands in front of the key and does not hold it, the blanks, the number in its
-- quotes, at most 113 bytes with the blanks, and what follows.
pub record IsManifest (content : Bytes) (d : ℕ) (ds : Bytes) : Type 0 where
  pub pre : Bytes
  pub tabs : Bytes
  pub rest : Bytes
  pub text : content ≡ pre ++ (build_key ++ (tabs ++ b'"' ∷ ((d ∷ ds) ++ b'"' ∷ rest)))
  pub first : IsFirst build_key pre
  pub blank : AllTabs tabs
  pub digits : AllDigits (d ∷ ds)
  pub fits : length tabs + length (d ∷ ds) ≤ 111

-- The looks around a round differ.
pub record IsChanged (a : Attempt) : Type 0 where
  pub s : Stat
  pub t : Stat
  pub before : a.before ≡ some s
  pub opened : a.opened ≡ true
  pub after : a.after ≡ some t
  pub other : same_stat s t ≡ false

pub record IsSteady (a : Attempt) : Type 0 where
  pub s : Stat
  pub t : Stat
  pub before : a.before ≡ some s
  pub opened : a.opened ≡ true
  pub after : a.after ≡ some t
  pub same : same_stat s t ≡ true

-- The rounds from i on: j that see a change, and a steady one.
abbrev pub Settles : (ℕ → Attempt) → ℕ → ℕ → Type 0
Settles attempts i zero = IsSteady (attempts i)
Settles attempts i (suc j) = IsChanged (attempts i) × Settles attempts (i + 1) j

attempt-IsSteady :
    (a : Attempt) (h : IsSteady a) (retry : Bytes)
    → attempt a h.s retry ≡ read_pieces [] a.pieces a.last
unfolding attempt
attempt-IsSteady a h retry = rw (h.opened, h.after, h.same) refl

attempt-IsChanged : (a : Attempt) (h : IsChanged a) (retry : Bytes) → attempt a h.s retry ≡ retry
unfolding attempt
attempt-IsChanged a h retry = rw (h.opened, h.after, h.other) refl

read_local_from-attempt :
    (attempts : ℕ → Attempt) (i k : ℕ) (s : Stat)
    → (attempts i).before ≡ some s
    → read_local_from attempts i (suc k)
      ≡ attempt (attempts i) s (read_local_from attempts (i + 1) k)
unfolding read_local_from
read_local_from-attempt attempts i k s e = rw (e, read_local_from) refl

abbrev number_of : (ℕ → Attempt) → ℕ → Bytes
number_of attempts i = read_pieces [] (attempts i).pieces (attempts i).last

read_local_from-Settles :
    (attempts : ℕ → Attempt) (i j k : ℕ)
    → j < k
    → Settles attempts i j
    → read_local_from attempts i k ≡ number_of attempts (i + j)
read_local_from-Settles attempts i zero (suc k) lt h =
    read_local_from-attempt attempts i k h.s h.before
    ∙ attempt-IsSteady (attempts i) h (read_local_from attempts (i + 1) k)
    ∙ ap (number_of attempts) (omega arith)
read_local_from-Settles attempts i (suc j) (suc k) lt h =
    read_local_from-attempt attempts i k h.0.s h.0.before
    ∙ attempt-IsChanged (attempts i) h.0 (read_local_from attempts (i + 1) k)
    ∙ read_local_from-Settles attempts (i + 1) j k (omega arith) h.1
    ∙ ap (number_of attempts) (omega arith)
read_local_from-Settles attempts i j zero lt h = absurd (omega (arith, lt))

pieces-IsManifest :
    (pieces : List Bytes) (last : Bytes) (d : ℕ) (ds : Bytes)
    → IsManifest (joined pieces ++ last) d ds
    → read_pieces [] pieces last ≡ d ∷ ds
pieces-IsManifest pieces last d ds h =
    let number : Bytes = h.tabs ++ b'"' ∷ ((d ∷ ds) ++ b'"' ∷ []) in
    let regroup : (r : Bytes) → number ++ r ≡ h.tabs ++ b'"' ∷ ((d ∷ ds) ++ b'"' ∷ r) =
      λ r. simp append_assoc in
    let size : length number ≡ length h.tabs + (length (d ∷ ds) + 2) = ground (
      arith,
      length-append h.tabs (b'"' ∷ ((d ∷ ds) ++ b'"' ∷ [])),
      length-append ds (b'"' ∷ []),
    ) in
    read_pieces-found number (d ∷ ds) (omega (arith, size, h.fits)) (λ e. cc)
      (λ r.
        (parse_version_number_iff (number ++ r) d ds).1 (record {
          tabs = h.tabs;
          rest = r;
          text = regroup r;
          blank = h.blank;
          digits = h.digits;
        }))
      [] pieces last h.pre h.rest
      (h.text ∙ ap (λ t. h.pre ++ (build_key ++ t)) (sym (regroup h.rest))) h.first

-- Where the first of the three rounds whose looks agree is round j, and the ones before it saw a
-- change, the build number of the manifest that round j read is found, into whatever pieces the reads
-- cut it; the number and the blanks in front of it are short enough for the part that is kept.
pub read_local_ver-IsManifest :
    (attempts : ℕ → Attempt) (j d : ℕ) (ds : Bytes)
    → j < 3
    → Settles attempts 0 j
    → IsManifest (joined (attempts j).pieces ++ (attempts j).last) d ds
    → read_local_ver attempts ≡ d ∷ ds
unfolding read_local_ver
read_local_ver-IsManifest attempts j d ds lt h m =
    read_local_from-Settles attempts 0 j 3 lt h
    ∙ ap (number_of attempts) (omega arith)
    ∙ pieces-IsManifest (attempts j).pieces (attempts j).last d ds m
