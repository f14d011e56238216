-- ===== src/Probe.antt =====
-- main_linux.go: the probe of a process, `采集单进程数据`, with `拼接进程路径` and `提取stat字段`. The system calls
-- are left out; a file is given by the bytes that one read delivers, `none` where it is not opened.
pub mod Fields
pub mod Share
pub mod Sampling
pub mod Path
pub mod Task
pub mod Win32
pub mod Jitter
use dst_nucleus.Prelude.{
  ◌∷◌, [], Option, Bytes, ℕ, none, suc, if◌then◌else◌, some, ◌==◌, length, ◌*◌, ltb, ◌+◌, drop,
  true, ◌&&◌, ◌%◌, leb, zero, false, ◌-◌, ◌/◌,
}
use dst_nucleus.Mods.Digits.{bytes_to_uint64, span_digits, u64_mod}

-- `bytes.LastIndexByte`, as the suffix behind the byte.
unfoldable pub after_last : ℕ → Bytes → Option Bytes
after_last k [] = none
after_last k (c ∷ cs) = elim (after_last k cs) [
  | some rest ↦ some rest
  | none ↦ if c == k then some cs else none
]

-- Up to the next blank, which is left standing.
unfoldable pub skip_word : Bytes → Bytes
skip_word [] = []
skip_word (c ∷ cs) = if c == b' ' then c ∷ cs else skip_word cs

unfoldable pub skip_blanks : Bytes → Bytes
skip_blanks [] = []
skip_blanks (c ∷ cs) = if c == b' ' then skip_blanks cs else c ∷ cs

-- The digits at the cursor, as a uint64.
unfoldable pub read_uint : Bytes → ℕ
read_uint s = bytes_to_uint64 (span_digits s).0

-- The loop over the fields, on fuel; `idx` fields are behind the cursor. A round takes at least one
-- byte.
unfoldable pub field_loop : ℕ → ℕ → ℕ → Bytes → ℕ
unfolding skip_word read_uint
field_loop zero idx target s = 0
field_loop (suc n) idx target [] = 0
field_loop (suc n) idx target (c ∷ cs) = elim (c == b' ') [
  | true ↦ field_loop n idx target cs
  | false ↦ elim (idx + 1 == target) [
    | true ↦ read_uint (c ∷ cs)
    | false ↦ field_loop n (idx + 1) target (skip_word cs)
  ]
]

unfoldable pub extract_stat_field : Bytes → ℕ → ℕ
unfolding after_last field_loop
extract_stat_field stat target = elim (after_last b')' stat) [
  | none ↦ 0
  | some rest ↦ field_loop (length stat) 0 target (drop 1 rest)
]

-- The resident bytes, from the second number of statm; 0 where nothing is read.
unfoldable pub resident_bytes : Option Bytes → ℕ
unfolding skip_blanks skip_word read_uint
resident_bytes none = 0
resident_bytes (some statm) = read_uint (skip_blanks (skip_word statm)) * 4096 % u64_mod

pub record Sample : Type 0 where
  pub cpu : ℕ  -- 万分比CPU
  pub memory : ℕ
  pub ticks : ℕ

-- The share of the CPU since the last sample; `nanos` is not 0.
unfoldable pub cpu_share : ℕ → ℕ → ℕ → ℕ
cpu_share ticks last nanos =
    if ltb 0 last && leb last ticks
    then (ticks - last) * 100000000000 % u64_mod / nanos % 4294967296
    else 0

unfoldable pub collect_process : Option Bytes → Option Bytes → ℕ → ℕ → Sample
unfolding extract_stat_field resident_bytes cpu_share
collect_process statm none last nanos = record { cpu = 0; memory = resident_bytes statm; ticks = 0 }
collect_process statm (some []) last nanos = record {
  cpu = 0;
  memory = resident_bytes statm;
  ticks = 0;
}
collect_process statm (some (c ∷ cs)) last nanos =
    let stat = c ∷ cs in
    let ticks = (extract_stat_field stat 12 + extract_stat_field stat 13) % u64_mod in
    record { cpu = cpu_share ticks last nanos; memory = resident_bytes statm; ticks = ticks }
