-- ===== src/Probe/Jitter.antt =====
-- cpu.go: how long the scheduler keeps the program from running, in cycles of the counter, whose readings are
-- arguments.
use dst_nucleus.Prelude.{
  List, [], ◌∷◌, ℕ, ◌==◌, ◌+◌, ◌-◌, ◌*◌, ◌/◌, ◌%◌, ◌≤◌, arith, All, ltb, if◌then◌else◌, if-split,
  take,
}
use dst_nucleus.Mods.Digits.{u64_mod}

-- The gaps between readings, as uint64s.
abbrev pub gaps : ℕ → List ℕ → List ℕ
gaps last [] = []
gaps last (now ∷ readings) = (now + u64_mod - last) % u64_mod ∷ gaps now readings

unfoldable pub largest_gap : ℕ → ℕ → List ℕ → ℕ
largest_gap most last [] = most
largest_gap most last (now ∷ readings) =
    let gap = (now + u64_mod - last) % u64_mod in
    largest_gap (if ltb most gap then gap else most) now readings

-- `计算物理调度膨胀`: a reading, and one behind each of ten yields.
unfoldable pub measure_jitter : ℕ → List ℕ → ℕ
unfolding largest_gap
measure_jitter first readings = largest_gap 0 first (take 10 readings)

-- `init`: the frequency that the processor tells, in MHz, or the cycles of ten milliseconds.
unfoldable pub cpu_frequency : ℕ → ℕ → ℕ → ℕ
cpu_frequency told before after =
    if told == 0 then (after + u64_mod - before) % u64_mod / 10 else told * 1000

both_le : (a b c : ℕ) → (if ltb a b then b else a) ≤ c → (a ≤ c) × (b ≤ c)
both_le a b c h =
    if-split (λ x. x ≤ c → (a ≤ c) × (b ≤ c)) (ltb a b) b a (λ e k. (ground arith, k))
      (λ e k. (k, ground arith)) h

largest_gap_most :
    (most last : ℕ) (readings : List ℕ)
    → (most ≤ largest_gap most last readings)
      × All (λ g. g ≤ largest_gap most last readings) (gaps last readings)
unfolding largest_gap
largest_gap_most most last [] = (omega arith, tt)
largest_gap_most most last (now ∷ readings) =
    let gap = (now + u64_mod - last) % u64_mod in
    let (up, rest) = largest_gap_most (if ltb most gap then gap else most) now readings in
    let (old, new) =
      both_le most gap (largest_gap (if ltb most gap then gap else most) now readings) up in
    (old, (new, rest))

-- No gap between two of the readings is larger than the figure.
pub measure_jitter-most :
    (first : ℕ) (readings : List ℕ)
    → All (λ g. g ≤ measure_jitter first readings) (gaps first (take 10 readings))
unfolding measure_jitter
measure_jitter-most first readings = (largest_gap_most 0 first (take 10 readings)).1
