-- ===== src/FileApi/Written.antt =====
-- What `api_file_write` leaves in the file system, and what `api_file_read` then answers.
use dst_nucleus.Prelude.Decimal.{ℤ, eqb_ℤ, pos, neg_part, pos_part}
use native.Mathlib.Decide.{ℕ_discrete}
use mathlib.Core.Logic.{if_pos, if_neg}
use dst_nucleus.Prelude.{
  ◌≡◌, refl, Option, ℕ, some, ◌∙◌, Bytes, ◌≢◌, inl, ◌⊎◌, ap, none, subst, length, arith, ◌≤◌, ◌==◌,
  inr, true, false, Bool, if◌then◌else◌, ltb, ◌||◌,
}
use dst_nucleus.Files.Stream.{delivered, atomic_write_stream-Atomic, atomic_write_stream, Disk}
use dst_nucleus.Files.Clone.{clone_file, clone_file-Cloned, Outcome}
use dst_nucleus.FileApi.{
  FilePath, Store, put, same_path, size_cap, Io, disk_of, WritePaths, WriteReply, success200,
  secondary500, primary500, write_secondary, write_primary, write_target, write_paths, Option, ℕ,
  some, Bytes, clone_reply, Outcome, primary_reply, length, atomic_write_stream, Disk,
  api_file_write, Bool, ℤ, query400, eqb_ℤ, pos, ltb, neg_part, pos_part,
}
use dst_nucleus.FileApi.Query.{query_target}

-- `io.Copy` reads what the stream write has just put into the first file, and Sync and Close of the copy
-- succeed.
abbrev pub CopiesBody : Io → Type 0
CopiesBody io =
    (j : ℕ) (text : Bytes)
    → (io.rounds j).copied ≡ some text
    → (text ≡ delivered io.body) × ((io.rounds j).spoiled ≡ none)

pub put_self : (fs : Store) (p : FilePath) (c : Option Bytes) → put fs p c p ≡ c
put_self fs p c = if_pos (same_path p p) refl c (fs p)

pub put_other : (fs : Store) (p q : FilePath) (c : Option Bytes) → p ≢ q → put fs p c q ≡ fs q
put_other fs p q c ne = if_neg (same_path p q) ne c (fs q)

-- The copy, behind a primary write that left the body in file p.
record Copied (io : Io) (fs : Store) (p : FilePath) (second : Option FilePath)
    (r : Store × WriteReply) : Type 0 where
  kept : r.1 ≡ success200 → r.0 p ≡ some (delivered io.body)
  cloned : r.1 ≡ success200 → (q : FilePath) → second ≡ some q → r.0 q ≡ some (delivered io.body)
  others : (f : FilePath) → second ≢ some f → r.0 f ≡ fs f
  answer : (r.1 ≡ success200) ⊎ (r.1 ≡ secondary500)
  failed : r.1 ≡ secondary500 → (f : FilePath) → r.0 f ≡ fs f

clone-success :
    (io : Io) (fs : Store) (q : FilePath)
    → CopiesBody io
    → (clone_file io.rounds (disk_of fs q)).code ≡ 0
    → (clone_file io.rounds (disk_of fs q)).disk.target ≡ some (delivered io.body)
clone-success io fs q copies e =
    let (j, text, below, whole, target, count) =
      (clone_file-Cloned io.rounds (disk_of fs q) refl).copied e in
    let (same, sound) = copies j text whole.copied in target ∙ ap some (rw sound same)

success_ne : success200 ≢ secondary500
success_ne e = cc

clone_reply-Copied :
    (io : Io) (fs : Store) (p q : FilePath) (r : Outcome)
    → fs p ≡ some (delivered io.body)
    → (r.code ≡ 0 → r.disk.target ≡ some (delivered io.body))
    → (r.code ≢ 0 → r.disk.target ≡ fs q)
    → Copied io fs p (some q) (clone_reply fs q r)
unfolding clone_reply
clone_reply-Copied io fs p q r h done undone = elim (ℕ_discrete r.code 0) [
  | yes z ↦ record {
    kept = λ e. elim (same_path q p) [
      | yes w ↦
          subst (λ x. put fs q r.disk.target x ≡ some (delivered io.body)) w
            (put_self fs q r.disk.target ∙ done z)
      | no w ↦ put_other fs q p r.disk.target w ∙ h
    ];
    cloned = λ e x same.
        subst (λ x. put fs q r.disk.target x ≡ some (delivered io.body)) (cc)
          (put_self fs q r.disk.target ∙ done z);
    others = λ f ne. put_other fs q f r.disk.target (λ e. ne (ap some e));
    answer = inl (ground arith);
    failed = λ e f. absurd (success_ne (ground arith));
  }
  | no nz ↦ record {
    kept = λ e. absurd (success_ne (ground arith));
    cloned = λ e x same. absurd (success_ne (ground arith));
    others = λ f ne. put_other fs q f r.disk.target (λ e. ne (ap some e));
    answer = inr (ground arith);
    failed = λ e f. elim (same_path q f) [
      | yes w ↦
          subst (λ x. put fs q r.disk.target x ≡ fs x) w (put_self fs q r.disk.target ∙ undone nz)
      | no w ↦ put_other fs q f r.disk.target w
    ];
  }
]

write_secondary-Copied :
    (io : Io) (fs : Store) (p : FilePath) (second : Option FilePath)
    → CopiesBody io
    → fs p ≡ some (delivered io.body)
    → Copied io fs p second (write_secondary io fs second)
unfolding write_secondary
write_secondary-Copied io fs p none copies h = record {
  kept = λ e. h;
  cloned = λ e q ne. cc;
  others = λ f ne. refl;
  answer = inl refl;
  failed = λ e f. refl;
}
write_secondary-Copied io fs p (some q) copies h =
    let c = clone_file-Cloned io.rounds (disk_of fs q) refl in
    clone_reply-Copied io fs p q (clone_file io.rounds (disk_of fs q)) h
      (clone-success io fs q copies) (λ ne. (c.untouched ne).0)

-- What a request that reaches the primary write leaves behind.
pub record Wrote (io : Io) (fs : Store) (p : FilePath) (second : Option FilePath)
    (r : Store × WriteReply) : Type 0 where
  pub stored :
      r.1 ≡ success200
      → (r.0 p ≡ some (delivered io.body)) × (length (delivered io.body) ≤ size_cap)
  pub cloned :
      r.1 ≡ success200 → (q : FilePath) → second ≡ some q → r.0 q ≡ some (delivered io.body)
  pub others : (f : FilePath) → p ≢ f → second ≢ some f → r.0 f ≡ fs f
  pub primary_failed : r.1 ≡ primary500 → (f : FilePath) → r.0 f ≡ fs f
  pub secondary_failed : r.1 ≡ secondary500 → (f : FilePath) → p ≢ f → r.0 f ≡ fs f

put_same : (fs : Store) (p f : FilePath) (c : Option Bytes) → c ≡ fs p → put fs p c f ≡ fs f
put_same fs p f c e = elim (same_path p f) [
  | yes w ↦ subst (λ x. put fs p c x ≡ fs x) w (put_self fs p c ∙ e)
  | no w ↦ put_other fs p f c w
]

primary_reply-Wrote :
    (io : Io) (fs : Store) (p : FilePath) (second : Option FilePath) (r : ℕ × Disk)
    → CopiesBody io
    → (r.0 ≡ 0 → (r.1.target ≡ some (delivered io.body)) × (length (delivered io.body) ≤ size_cap))
    → (r.0 ≢ 0 → r.1.target ≡ fs p)
    → Wrote io fs p second (primary_reply io fs p second r)
unfolding primary_reply
primary_reply-Wrote io fs p second (code, d) copies done undone = elim (ℕ_discrete code 0) [
  | yes z ↦
      let fs' : Store = put fs p d.target in
      let same : fs' p ≡ some (delivered io.body) = put_self fs p d.target ∙ (done z).0 in
      let c = write_secondary-Copied io fs' p second copies same in
      let test : (code == 0) ≡ true = ground arith in
      rw test (record {
        stored = λ e. (c.kept e, (done z).1);
        cloned = c.cloned;
        others = λ f ne nq. c.others f nq ∙ put_other fs p f d.target ne;
        primary_failed = λ e f. absurd (elim c.answer [ inl a ↦ cc | inr b ↦ cc ]);
        secondary_failed = λ e f ne. c.failed e f ∙ put_other fs p f d.target ne;
      })
  | no nz ↦
      let test : (code == 0) ≡ false = ground arith in
      rw test (record {
        stored = λ e. cc;
        cloned = λ e q same. cc;
        others = λ f ne nq. put_other fs p f d.target ne;
        primary_failed = λ e f. put_same fs p f d.target (undone nz);
        secondary_failed = λ e f ne. cc;
      })
]

write_primary-Wrote :
    (io : Io) (fs : Store) (p : FilePath) (second : Option FilePath)
    → CopiesBody io
    → Wrote io fs p second (write_primary io fs (some p, second))
unfolding write_primary
write_primary-Wrote io fs p second copies =
    let (atomic, bounds) =
      atomic_write_stream-Atomic io.answers size_cap io.body (disk_of fs p) refl in
    primary_reply-Wrote io fs p second
      (atomic_write_stream io.answers size_cap io.body (disk_of fs p)) copies
      (λ z. (atomic.whole z, (bounds z).0)) atomic.untouched

-- A request that is refused, or one that reached the primary write of its target's first path.
pub data Handled (mods : WritePaths) (query : Bytes) (io : Io) (fs : Store) (r : Store × WriteReply)
    : Type 0 where
  refused : r.0 ≡ fs → r.1 ≢ success200 → Handled mods query io fs r
  reached :
      (t : Bytes) (p : FilePath) (second : Option FilePath)
      → query_target query ≡ some t
      → write_paths mods t ≡ some (some p, second)
      → Wrote io fs p second r
      → Handled mods query io fs r

write_target-Handled :
    (mods : WritePaths) (query t : Bytes) (io : Io) (fs : Store) (paths : Option WritePaths)
    → CopiesBody io
    → query_target query ≡ some t
    → write_paths mods t ≡ paths
    → Handled mods query io fs (write_target mods io fs t)
unfolding write_target
write_target-Handled mods query t io fs none copies q e =
    rw (e, write_target) (refused refl (λ z. cc))
write_target-Handled mods query t io fs (some (none, second)) copies q e =
    rw (e, write_target) (unfold write_primary in refused refl (λ z. cc))
write_target-Handled mods query t io fs (some (some p, second)) copies q e =
    rw (e, write_target) (reached t p second q e (write_primary-Wrote io fs p second copies))

-- For every request and every answer of the system, where the copy reads the file that was written, and
-- its Sync and Close, whose answers the code does not look at, succeed:
-- either the request is refused and no file changes; or its target has a first path and perhaps a
-- second one, and with success both hold the whole body, of at most 1 MiB, when the primary write
-- fails no file changes, when the copy fails only the first file may change, and in any case no
-- other file does.
pub api_file_write-Handled :
    (mods : WritePaths) (locked is_post : Bool) (declared : ℤ) (query : Bytes) (io : Io)
    (fs : Store)
    → CopiesBody io
    → Handled mods query io fs (api_file_write mods locked is_post declared query io fs)
unfolding api_file_write
api_file_write-Handled mods true is_post declared query io fs copies = refused refl (λ z. cc)
api_file_write-Handled mods false false declared query io fs copies = refused refl (λ z. cc)
api_file_write-Handled mods false true declared query io fs copies =
    Handled-if (eqb_ℤ declared (pos 0)) (refused refl (λ z. cc)) (
      Handled-if (ltb 0 (neg_part declared) || ltb size_cap (pos_part declared))
        (refused refl (λ z. cc)) (by_target (query_target query) refl))
  where
    Handled-if :
        (b : Bool) {x y : Store × WriteReply}
        → Handled mods query io fs x
        → Handled mods query io fs y
        → Handled mods query io fs (if b then x else y)
    Handled-if true h k = h
    Handled-if false h k = k

    by_target :
        (o : Option Bytes)
        → query_target query ≡ o
        → Handled mods query io fs
            (elim o [ none ↦ (fs, query400) | some t ↦ write_target mods io fs t ])
    by_target none e = refused refl (λ z. cc)
    by_target (some t) e =
        write_target-Handled mods query t io fs (write_paths mods t) copies e refl
