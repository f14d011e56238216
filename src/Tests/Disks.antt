-- ===== src/Tests/Disks.antt =====
use dst_nucleus.Files.Clone.{Cloned, clone_file, Clone, clone_file-Cloned}
use dst_nucleus.Prelude.{
  [], ◌<◌, false, ℕ, some, codes, true, ◌≡◌, length, none, leb, ◌≤◌, arith, refl,
}
use Prim.Native.Nat.{ℕ}
use dst_nucleus.Files.Stream.{
  Disk, Atomic, Source, atomic_write_stream, Answers, more, delivered, last,
  atomic_write_stream-succeeds, is_sound, atomic_write_stream-Atomic,
}
use dst_nucleus.Files.Snapshot.{
  Stat, Look, Steady, read_snapshot, snapshot_from, read_round, same_stat, read_snapshot-Steady,
}

-- Writes, snapshots and copies of files, with the answers of the system given.
abbrev good : Answers
good = record {
  mkdir = true;
  create = true;
  write = true;
  sync = true;
  close = true;
  rename = λ i. leb 2 i;
}

abbrev old : Disk
old = record { target = some (codes "old"); temp = none }

abbrev upload : Source
upload = more (codes "new ") true (last (codes "text") true true)

atomic_write_stream-Atomic_example :
    let r = atomic_write_stream good 7 upload old in
    Atomic old (delivered upload) r
    × (r.0 ≡ 0 → (length (delivered upload) ≤ 7) × (is_sound upload ≡ true))
atomic_write_stream-Atomic_example = atomic_write_stream-Atomic good 7 upload old refl

atomic_write_stream-succeeds_example : (atomic_write_stream good 8 upload old).0 ≡ 0
atomic_write_stream-succeeds_example =
    atomic_write_stream-succeeds good 8 upload old 2 refl refl refl (omega arith) refl (omega arith)
      refl

abbrev stat_1 : Stat
stat_1 = record { mod_time = 5; size = 4 }

-- The first round sees the file change, the second does not.
abbrev two_looks : ℕ → Look
two_looks i = record {
  before = some (record { mod_time = i; size = 4 });
  content = some (codes "text");
  after = some (record { mod_time = 1; size = 4 });
}

read_snapshot-Steady_example : (j : ℕ) × (j < 3) × Steady (two_looks j) (codes "text")
unfolding read_snapshot snapshot_from read_round same_stat
read_snapshot-Steady_example = read_snapshot-Steady two_looks (codes "text") refl

abbrev two_copies : ℕ → Clone
two_copies i = record {
  before = some (record { mod_time = i; size = 4 });
  open_source = true;
  create = true;
  copied = some (codes "text");
  part = [];
  spoiled = none;
  remove = false;
  after = some (record { mod_time = 1; size = 4 });
  rename = λ j. true;
}

clone_file-Cloned_example : Cloned two_copies old (clone_file two_copies old)
clone_file-Cloned_example = clone_file-Cloned two_copies old refl
