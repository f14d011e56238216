-- ===== src/Probe/Share.antt =====
-- The share of the CPU that main_linux.go's `采集单进程数据` computes, told by what it measures.
use dst_nucleus.Prelude.{
  ℕ, ◌≤◌, ◌<◌, ◌==◌, ◌-◌, ◌*◌, ◌+◌, ◌/◌, ◌%◌, ◌≡◌, if◌then◌else◌, leb, arith, Bool-cases, inl, inr,
}
use native.Mathlib.Nat.{div-add-mod', div-lt_iff_lt-mul, mod-eq_of_lt, mod-lt}
use dst_nucleus.Mods.Digits.{u64_mod}
use dst_nucleus.Probe.{cpu_share}

-- What the ticks since the last sample come to, in nanoseconds times 10000, if there was a sample; a
-- count of ticks that went back is no time.
abbrev pub spent : ℕ → ℕ → ℕ
spent last ticks = if last == 0 then 0 else (ticks - last) * 100000000000

-- The figure is the time spent in parts of 10000 of the time passed, rounded down.
pub record IsShare (cpu ticks last nanos : ℕ) : Type 0 where
  pub below : cpu * nanos ≤ spent last ticks
  pub above : spent last ticks < cpu * nanos + nanos

-- The figure tells the share, where the product fits into 64 bits and the quotient into 32.
pub cpu_share-IsShare :
    (ticks last nanos : ℕ)
    → 0 < nanos
    → spent last ticks < u64_mod
    → spent last ticks < 4294967296 * nanos
    → IsShare (cpu_share ticks last nanos) ticks last nanos
unfolding cpu_share
cpu_share-IsShare ticks last nanos h fits small = elim (Bool-cases (last == 0)) [
  | inl e ↦ ground arith
  | inr e ↦ elim (Bool-cases (leb last ticks)) [
    | inl l ↦
        let d = (ticks - last) * 100000000000 in
        let told : spent last ticks ≡ d = ground arith in
        let whole : d % u64_mod ≡ d = omega (arith, fits, told) in
        let cut : d / nanos % 4294967296 ≡ d / nanos =
          mod-eq_of_lt ((div-lt_iff_lt-mul h).1 (omega (arith, small, told))) in
        let figure : cpu_share ticks last nanos ≡ d / nanos = ground (arith, whole, cut) in
        rw figure (record {
          below = omega (arith, told, div-add-mod' d nanos);
          above = omega (arith, told, div-add-mod' d nanos, mod-lt d h);
        })
    | inr l ↦ ground arith
  ]
]
