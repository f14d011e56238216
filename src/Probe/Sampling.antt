-- ===== src/Probe/Sampling.antt =====
-- The two files of a process, read by `采集单进程数据`.
use dst_nucleus.Mods.Digits.{u64_mod}
use dst_nucleus.Prelude.Decimal.{append_uint, is_digit, append_uint-cons, append_uint-digits}
use dst_nucleus.Prelude.{
  ◌∷◌, [], Bytes, Option, ℕ, List, ◌*◌, All, ◌+◌, ◌<◌, ◌++◌, ◌≡◌, ◌%◌, some, true, length, refl,
  ◌≢◌, get_or, arith, ◌∙◌,
}
use dst_nucleus.Probe.{
  collect_process, resident_bytes, extract_stat_field, skip_word, skip_blanks, cpu_share, u64_mod,
}
use dst_nucleus.Probe.Share.{spent, IsShare, cpu_share-IsShare}
use dst_nucleus.Probe.Fields.{
  IsField, stat_line, extract_stat_field-stat_line, read_uint-append_uint, skip_word-append,
}

-- What one line of statm starts with: the size and the resident pages.
abbrev pub statm_line : ℕ → ℕ → Bytes → Bytes
statm_line size pages rest = append_uint size ++ b' ' ∷ (append_uint pages ++ b' ' ∷ rest)

digits-unblank :
    (ds : Bytes) → All (λ c. is_digit c ≡ true) ds → All (λ x. (x ≢ b' ') × (x ≢ b')')) ds
digits-unblank [] h = tt
digits-unblank (d ∷ ds) h = ((ground (arith, h.0), ground (arith, h.0)), digits-unblank ds h.1)

skip_blanks-digits :
    (n : ℕ) (rest : Bytes) → skip_blanks (append_uint n ++ rest) ≡ append_uint n ++ rest
unfolding skip_blanks
skip_blanks-digits n rest =
    let (c, cs, e) = append_uint-cons n in
    let ds : All (λ x. (x ≢ b' ') × (x ≢ b')')) (c ∷ cs) =
      rw e at (digits-unblank (append_uint n) (append_uint-digits n)) in
    rw e (ground (arith, ds.0.0))

resident_bytes-statm_line :
    (size pages : ℕ) (rest : Bytes)
    → pages * 4096 < u64_mod
    → resident_bytes (some (statm_line size pages rest)) ≡ pages * 4096
unfolding resident_bytes
resident_bytes-statm_line size pages rest h =
    let tail : Bytes = append_uint pages ++ b' ' ∷ rest in
    let behind : skip_word (append_uint size ++ b' ' ∷ tail) ≡ b' ' ∷ tail =
      skip_word-append (append_uint size) tail
        (digits-unblank (append_uint size) (append_uint-digits size)) in
    let at_pages : skip_blanks (b' ' ∷ tail) ≡ tail =
      unfold skip_blanks in skip_blanks-digits pages (b' ' ∷ rest) in
    rw (behind, at_pages) (omega (arith, read_uint-append_uint pages rest (omega arith)))

collect_process_opened :
    (statm : Option Bytes) (head tail : Bytes) (fs : List Bytes) (last nanos : ℕ)
    → let stat = stat_line head fs tail in
      let ticks = (extract_stat_field stat 12 + extract_stat_field stat 13) % u64_mod in
      collect_process statm (some stat) last nanos
      ≡ record { cpu = cpu_share ticks last nanos; memory = resident_bytes statm; ticks = ticks }
unfolding collect_process
collect_process_opened statm [] tail fs last nanos = refl
collect_process_opened statm (c ∷ cs) tail fs last nanos = refl

-- For a process whose two files have the kernel's form, whatever its name is: the sample holds the
-- sum of the user and system ticks, fields 14 and 15 of stat, the resident pages of statm in bytes,
-- and the CPU figure is the time of these ticks of 10 ms since the last sample in parts of 10000 of
-- the time passed, rounded down, or 0 without a last sample or if the count went back. Time has passed,
-- and the product fits into 64 bits and the figure into 32.
pub collect_process_lem :
    (size pages : ℕ) (rest head tail : Bytes) (fs : List Bytes) (utime stime last nanos : ℕ)
    → pages * 4096 < u64_mod
    → All (λ x. x ≢ b')') tail
    → All IsField fs
    → 12 < length fs
    → get_or fs 11 [] ≡ append_uint utime
    → get_or fs 12 [] ≡ append_uint stime
    → utime + stime < u64_mod
    → 0 < nanos
    → spent last (utime + stime) < u64_mod
    → spent last (utime + stime) < 4294967296 * nanos
    → let a =
        collect_process
          (some (statm_line size pages rest))
          (some (stat_line head fs tail))
          last
          nanos in
      (a.memory ≡ pages * 4096)
      × (a.ticks ≡ utime + stime)
      × IsShare a.cpu (utime + stime) last nanos
collect_process_lem size pages rest head tail fs utime stime last nanos hp k h long eu es hv n f c =
    let user =
      extract_stat_field-stat_line head tail fs 11 utime k h (omega arith) eu (omega arith) in
    let system = extract_stat_field-stat_line head tail fs 12 stime k h long es (omega arith) in
    let fits : (utime + stime) % u64_mod ≡ utime + stime = omega arith in
    let sample : collect_process (some (statm_line size pages rest)) (some (stat_line head fs tail))
          last nanos
        ≡ record {
          cpu = cpu_share (utime + stime) last nanos;
          memory = pages * 4096;
          ticks = utime + stime;
        } =
      collect_process_opened (some (statm_line size pages rest)) head tail fs last nanos
      ∙ rw (user, system, fits, resident_bytes-statm_line size pages rest hp) refl in
    rw sample (refl, refl, cpu_share-IsShare (utime + stime) last nanos n f c)
