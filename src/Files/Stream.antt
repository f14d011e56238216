-- ===== src/Files/Stream.antt =====
-- api.go, `原子写文件流`, and file.go, `原子写文件`: a file is written beside
-- its target and renamed over it.
use native.Mathlib.Decide.{ℕ_discrete}
use dst_nucleus.Prelude.{
  ℕ, Bool, ◌≡◌, refl, Option, ◌&&◌, if◌then◌else◌, Bytes, none, false, ◌++◌, ◌≤◌, some, true, suc,
  not, leb, ◌∷◌, [], ◌||◌, ◌+◌, ltb, zero, length, arith, append-nil, length-append, ◌<◌, ◌≢◌,
  append_assoc,
}

-- The two paths that a write concerns; `none` where no file is.
pub record Disk : Type 0 where
  pub target : Option Bytes
  pub temp : Option Bytes

-- The reader: each call delivers some bytes, the last one with an error, which is EOF or another
-- (`clean`). `stored` is the answer of the write of those bytes to the temporary file; a short
-- write comes with an error, as `io.Writer` demands.
pub data Source : Type 0 where
  last : Bytes → Bool → Bool → Source
  more : Bytes → Bool → Source → Source

-- What the calls answer; `rename` says for each attempt whether it succeeds.
pub record Answers : Type 0 where
  pub mkdir : Bool
  pub create : Bool
  pub write : Bool
  pub sync : Bool
  pub close : Bool
  pub rename : ℕ → Bool

-- One round's bytes: the total so far and the content of the temporary file, or a stream error.
take_chunk : ℕ → ℕ × Bytes → Bytes → Bool → Option (ℕ × Bytes)
take_chunk limit done [] stored = some done
take_chunk limit (total, out) (b ∷ bs) stored =
    if ltb limit (total + length (b ∷ bs))
    then none
    else if stored
    then some (total + length (b ∷ bs), out ++ b ∷ bs)
    else none

-- The copy loop: the content of the temporary file, or `none` behind a stream error.
copy_stream : ℕ → ℕ × Bytes → Source → Option Bytes
unfolding take_chunk
copy_stream limit done (last bs stored clean) = elim (take_chunk limit done bs stored) [
  | none ↦ none
  | some (total, out) ↦ if clean then some out else none
]
copy_stream limit done (more bs stored rest) = elim (take_chunk limit done bs stored) [
  | none ↦ none
  | some next ↦ copy_stream limit next rest
]

-- Up to k further attempts to rename, from attempt i.
unfoldable pub rename_retry : (ℕ → Bool) → ℕ → ℕ → Bool
rename_retry rename i zero = false
rename_retry rename i (suc k) = rename i || rename_retry rename (i + 1) k

-- The end of both functions: the deferred `os.Remove` leaves no temporary file.
finish : Disk → ℕ → ℕ × Disk
finish d code = (code, record d { temp = none })

-- Behind a complete temporary file. The codes are those of sync, close and rename.
commit : Answers → Disk → Bytes → ℕ → ℕ → ℕ → ℕ × Disk
unfolding finish rename_retry
commit a d content sync_code close_code rename_code =
    if not a.sync
    then finish d sync_code
    else if not a.close
    then finish d close_code
    else if rename_retry a.rename 0 5
    then (0, record { target = some content; temp = none })
    else finish d rename_code

unfoldable pub atomic_write_stream : Answers → ℕ → Source → Disk → ℕ × Disk
unfolding copy_stream finish commit
atomic_write_stream a limit source d =
    if not a.create then (128, d) else elim (copy_stream limit (0, []) source) [
      | none ↦ finish d 129
      | some content ↦ commit a d content 130 131 132
    ]

unfoldable pub atomic_write_file : Answers → Bytes → Disk → ℕ × Disk
unfolding finish commit
atomic_write_file a content d =
    if not a.mkdir
    then (128, d)
    else if not a.create
    then (129, d)
    else if not a.write
    then finish d 130
    else commit a d content 131 132 133

-- The bytes that a reader delivers, and whether it ends by EOF and every write succeeded.
abbrev pub delivered : Source → Bytes
delivered (last bs stored clean) = bs
delivered (more bs stored rest) = bs ++ delivered rest

-- A chunk that is not empty was stored.
abbrev pub stored_ok : Bytes → Bool → Bool
stored_ok [] stored = true
stored_ok (b ∷ bs) stored = stored

abbrev pub is_sound : Source → Bool
is_sound (last bs stored clean) = stored_ok bs stored && clean
is_sound (more bs stored rest) = stored_ok bs stored && is_sound rest

take_chunk-lem :
    (limit total : ℕ) (out bs : Bytes) (stored : Bool)
    → total ≤ limit
    → take_chunk limit (total, out) bs stored ≡ (
        if leb (total + length bs) limit && stored_ok bs stored
        then some (total + length bs, out ++ bs)
        else none)
unfolding take_chunk
take_chunk-lem limit total out [] stored h = ground (arith, append-nil out)
take_chunk-lem limit total out (b ∷ bs) stored h = ground arith

-- The loop keeps the whole text exactly when it fits and nothing failed.
copy_stream-lem :
    (limit total : ℕ) (out : Bytes) (s : Source)
    → total ≤ limit
    → copy_stream limit (total, out) s ≡ (
        if leb (total + length (delivered s)) limit && is_sound s
        then some (out ++ delivered s)
        else none)
unfolding copy_stream
copy_stream-lem limit total out (last bs stored clean) h =
    rw (take_chunk-lem limit total out bs stored h, copy_stream) (ground arith)
copy_stream-lem limit total out (more bs stored rest) h = ground (
  arith,
  take_chunk-lem limit total out bs stored h,
  copy_stream-lem limit (total + length bs) (out ++ bs) rest,
  length-append bs (delivered rest),
  append_assoc out bs (delivered rest),
)

-- What a write leaves behind: it succeeds and the target holds the whole new content, or it fails
-- and the target is what it was. No temporary file is left.
pub record Atomic (d : Disk) (content : Bytes) (r : ℕ × Disk) : Type 0 where
  pub whole : r.0 ≡ 0 → r.1.target ≡ some content
  pub untouched : r.0 ≢ 0 → r.1.target ≡ d.target
  pub no_temp : r.1.temp ≡ none

commit-Atomic :
    (a : Answers) (d : Disk) (content : Bytes) (i j k : ℕ)
    → 0 < i
    → 0 < j
    → 0 < k
    → Atomic d content (commit a d content i j k)
unfolding commit finish
commit-Atomic a d content i j k hi hj hk = ground arith

-- Whatever the system answers and the reader delivers, a stream write is atomic: with code 0 the
-- target holds all the delivered bytes, at most `limit` of them and read up to EOF; with another
-- code it is unchanged.
pub atomic_write_stream-Atomic :
    (a : Answers) (limit : ℕ) (s : Source) (d : Disk)
    → d.temp ≡ none
    → let r = atomic_write_stream a limit s d in
      Atomic d (delivered s) r × (r.0 ≡ 0 → (length (delivered s) ≤ limit) × (is_sound s ≡ true))
unfolding atomic_write_stream finish
atomic_write_stream-Atomic a limit s d h = ground (
  arith,
  copy_stream-lem limit 0 [] s,
  commit-Atomic a d (delivered s) 130 131 132 (omega arith) (omega arith) (omega arith),
)

rename_retry-true :
    (rename : ℕ → Bool) (i k j : ℕ)
    → i ≤ j
    → j < i + k
    → rename j ≡ true
    → rename_retry rename i k ≡ true
unfolding rename_retry
rename_retry-true rename i zero j h l e = absurd (omega arith)
rename_retry-true rename i (suc k) j h l e = elim (ℕ_discrete i j) [
  | yes same ↦ rw same (rw e refl)
  | no other ↦ ground (arith, rename_retry-true rename (i + 1) k j (omega arith) (omega arith) e)
]

-- Whatever the system answers, a whole-file write is atomic.
pub atomic_write_file-Atomic :
    (a : Answers) (content : Bytes) (d : Disk)
    → d.temp ≡ none
    → Atomic d content (atomic_write_file a content d)
unfolding atomic_write_file finish
atomic_write_file-Atomic a content d h =
    ground (arith, commit-Atomic a d content 131 132 133 (omega arith) (omega arith) (omega arith))

-- A stream write ends with code 0 when the temporary file is created, synced and closed, one of the
-- five renames succeeds, and the reader delivers at most `limit` bytes up to EOF, all stored.
pub atomic_write_stream-succeeds :
    (a : Answers) (limit : ℕ) (s : Source) (d : Disk) (i : ℕ)
    → a.create ≡ true
    → a.sync ≡ true
    → a.close ≡ true
    → i < 5
    → a.rename i ≡ true
    → length (delivered s) ≤ limit
    → is_sound s ≡ true
    → (atomic_write_stream a limit s d).0 ≡ 0
unfolding atomic_write_stream commit finish
atomic_write_stream-succeeds a limit s d i hc hs hx hi hr hl hk =
    ground
      (arith, copy_stream-lem limit 0 [] s, rename_retry-true a.rename 0 5 i (omega arith) hi hr)
