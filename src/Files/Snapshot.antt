-- ===== src/Files/Snapshot.antt =====
-- update.go, `获取文件快照` and `复制文件`: a file is read whole, or copied, between two looks at its time
-- and size; when they differ the work is thrown away and done again, three times at most.
use Prim.Native.Nat.{ℕ, suc}
use dst_nucleus.Prelude.{
  ℕ, Option, Bool, Bytes, ◌==◌, ◌&&◌, ◌≡◌, none, if◌then◌else◌, ltb, suc, some, ◌≤◌, ◌+◌, ◌<◌, zero,
  arith, true, ◌⊎◌, Bool-cases, inl, inr, refl, sym, subst,
}

-- `os.Stat`: modification time and size.
pub record Stat : Type 0 where
  pub mod_time : ℕ
  pub size : ℕ

unfoldable pub same_stat : Stat → Stat → Bool
same_stat a b = a.mod_time == b.mod_time && a.size == b.size

-- What the calls of one round of `获取文件快照` answer.
pub record Look : Type 0 where
  pub before : Option Stat
  pub content : Option Bytes
  pub after : Option Stat

abbrev pub size_limit : ℕ
size_limit = 1048576

-- The rest of a round behind the first look; `retry` is the next round.
unfoldable pub read_round : Look → Stat → Option Bytes × ℕ → Option Bytes × ℕ
unfolding same_stat
read_round l s retry = if ltb size_limit s.size then (none, 132) else elim l.content [
  | none ↦ (none, 129)
  | some content ↦ elim l.after [
    | none ↦ (none, 130)
    | some t ↦ if same_stat s t then (some content, 0) else retry
  ]
]

-- Up to k rounds, from round i.
unfoldable pub snapshot_from : (ℕ → Look) → ℕ → ℕ → Option Bytes × ℕ
unfolding read_round
snapshot_from looks i zero = (none, 131)
snapshot_from looks i (suc k) =
    let retry = snapshot_from looks (i + 1) k in
    elim (looks i).before [ none ↦ (none, 128) | some s ↦ read_round (looks i) s retry ]

unfoldable pub read_snapshot : (ℕ → Look) → Option Bytes × ℕ
unfolding snapshot_from
read_snapshot looks = snapshot_from looks 0 3

-- A round that read `text` whole, between two looks that agree, from a file of allowed size.
pub record Steady (l : Look) (text : Bytes) : Type 0 where
  pub stat : Stat
  pub later : Stat
  pub before : l.before ≡ some stat
  pub after : l.after ≡ some later
  pub same : same_stat stat later ≡ true
  pub size : stat.size ≤ size_limit
  pub read : l.content ≡ some text

abbrev look : Option Stat → Option Bytes → Option Stat → Look
look b c t = record { before = b; content = c; after = t }

read_round-Steady :
    (s : Stat) (c : Option Bytes) (t : Option Stat) (retry : Option Bytes × ℕ) (text : Bytes)
    → read_round (look (some s) c t) s retry ≡ (some text, 0)
    → (retry ≡ (some text, 0)) ⊎ Steady (look (some s) c t) text
unfolding read_round
read_round-Steady s none t retry text h = ground arith
read_round-Steady s (some c) none retry text h = ground arith
read_round-Steady s (some c) (some t) retry text h = elim (Bool-cases (same_stat s t)) [
  | inl e ↦ inr (record {
    stat = s;
    later = t;
    before = refl;
    after = refl;
    same = e;
    size = ground arith;
    read = ground arith;
  })
  | inr e ↦ inl (ground arith)
]

-- Some round from i to before i + k was steady.
abbrev SomeSteady : (ℕ → Look) → ℕ → ℕ → Bytes → Type 0
SomeSteady looks i k text = (j : ℕ) × (i ≤ j) × (j < i + k) × Steady (looks j) text

round_at :
    (looks : ℕ → Look) (i k : ℕ) (text : Bytes) (b : Option Stat)
    → (looks i).before ≡ b
    → (snapshot_from looks (i + 1) k ≡ (some text, 0) → SomeSteady looks (i + 1) k text)
    → snapshot_from looks i (suc k) ≡ (some text, 0)
    → SomeSteady looks i (suc k) text
unfolding snapshot_from
round_at looks i k text none e later h =
    let h' : ◌≡◌ {A = Option Bytes × ℕ} (none, 128) (some text, 0) = rw (e, snapshot_from) at h in
    ground arith
round_at looks i k text (some s) e later h =
    let retry = snapshot_from looks (i + 1) k in
    let h' : read_round (looks i) s retry ≡ (some text, 0) = rw (e, snapshot_from) at h in
    let eta : look (some s) (looks i).content (looks i).after ≡ looks i =
      λ d. look (sym e d) (looks i).content (looks i).after in
    elim (read_round-Steady s (looks i).content (looks i).after retry text h') [
      | inl next ↦ let (j, lo, hi, st) = later next in (j, omega arith, omega arith, st)
      | inr now ↦ (i, omega arith, omega arith, subst (λ l. Steady l text) eta now)
    ]

snapshot_from-SomeSteady :
    (looks : ℕ → Look) (i k : ℕ) (text : Bytes)
    → snapshot_from looks i k ≡ (some text, 0)
    → SomeSteady looks i k text
snapshot_from-SomeSteady looks i zero text h = unfold snapshot_from in ground arith
snapshot_from-SomeSteady looks i (suc k) text h =
    round_at looks i k text (looks i).before refl (snapshot_from-SomeSteady looks (i + 1) k text) h

-- A snapshot that comes with code 0 is the whole text that one of the three rounds read between two
-- looks with the same time and size, of a file of at most 1 MiB.
pub read_snapshot-Steady :
    (looks : ℕ → Look) (text : Bytes)
    → read_snapshot looks ≡ (some text, 0)
    → (j : ℕ) × (j < 3) × Steady (looks j) text
unfolding read_snapshot
read_snapshot-Steady looks text h =
    let (j, lo, hi, st) = snapshot_from-SomeSteady looks 0 3 text h in (j, hi, st)
