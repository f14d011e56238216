-- ===== src/Probe/Win32/Share.antt =====
-- The share of the CPU on Windows.
use dst_nucleus.Prelude.{ℕ, ◌≡◌, ◌≤◌, ◌<◌, ◌+◌, ◌-◌, ◌*◌, ◌%◌, ◌||◌, ltb, if-split, arith}
use dst_nucleus.Mods.Digits.{u64_mod}
use dst_nucleus.Probe.Task.{half}
use dst_nucleus.Probe.Task.Twice.{wrapped_share_le}
use dst_nucleus.Probe.Win32.{sub_u64, share_u64}

sub_u64-sub : (a b : ℕ) → a < u64_mod → b ≤ a → sub_u64 a b ≡ a - b
unfolding sub_u64
sub_u64-sub a b h le = omega (arith, h)

-- When the times of a process have only grown since the last sample, and by no more than so many cores
-- can give in the time between, the share on Windows is at most 10000 for each core.
pub share_u64_le :
    (k u last_k last_u diff cores : ℕ)
    → k < u64_mod
    → u < u64_mod
    → last_k ≤ k
    → last_u ≤ u
    → (k - last_k) + (u - last_u) ≤ diff * cores
    → share_u64 k u last_k last_u diff ≤ cores * 10000
unfolding share_u64
share_u64_le k u last_k last_u diff cores hk hu lk lu fits =
    let spent = (sub_u64 k last_k + sub_u64 u last_u) % u64_mod in
    let small : spent ≤ diff * cores =
      omega (arith, sub_u64-sub k last_k hk lk, sub_u64-sub u last_u hu lu) in
    if-split (λ n. n ≤ cores * 10000) (ltb 0 last_k || ltb 0 last_u) _ 0
      (λ _. wrapped_share_le spent diff cores u64_mod half small) (λ _. omega arith)
