-- ===== src/Probe/Task/Twice.antt =====
-- Two runs of the probe in a row.
use dst_nucleus.Shards.Pids.{Shard, master, caves}
use native.Mathlib.Nat.{div-le_of_le-mul, mul_assoc, mod-le, mul-le-mul_left, mul-suc}
use dst_nucleus.Prelude.{
  ℕ, suc, true, false, Option, Bytes, ◌≡◌, ◌≤◌, ◌<◌, ◌==◌, ◌-◌, ◌*◌, ◌/◌, ◌%◌, ◌&&◌, ltb, refl, ap,
  arith, if-split, leb, none, some, ◌∷◌, [], ◌∙◌,
}
use dst_nucleus.Mods.Digits.{u64_mod}
use dst_nucleus.Probe.{cpu_share, collect_process}
use dst_nucleus.Probe.Share.{spent, IsShare, cpu_share-IsShare}
use dst_nucleus.Probe.Task.{Probed, half, is_pid, nanos_between, sample_of, probe_task}

-- A share in parts of 10000 for each core, as machine words cut it.
pub wrapped_share_le :
    (x d cores wrap cut : ℕ) → x ≤ d * cores → x * 10000 % wrap / d % cut ≤ cores * 10000
wrapped_share_le x d cores wrap cut h =
    let a = x * 10000 % wrap in
    let small : a ≤ d * (cores * 10000) =
      omega (arith, mod-le (x * 10000) wrap, mul_assoc d cores 10000) in
    omega (arith, mod-le (a / d) cut, div-le_of_le-mul d small)

cpu_share_le :
    (ticks last nanos cores : ℕ)
    → (ticks - last) * 10000000 ≤ nanos * cores
    → cpu_share ticks last nanos ≤ cores * 10000
unfolding cpu_share
cpu_share_le ticks last nanos cores h =
    let x = (ticks - last) * 10000000 in
    let same : (ticks - last) * 100000000000 ≡ x * 10000 = omega arith in
    if-split (λ n. n ≤ cores * 10000) (ltb 0 last && leb last ticks) _ 0
      (λ _. rw same (wrapped_share_le x nanos cores u64_mod 4294967296 h)) (λ _. omega arith)

-- The half of the word, and the figures, of a shard.
abbrev pub pid_of : Shard → ℕ → ℕ
pid_of master word = word / half % half
pid_of caves word = word % half

abbrev pub cpu_of : Shard → Probed → ℕ
cpu_of master p = p.monitor.master_cpu
cpu_of caves p = p.monitor.caves_cpu

abbrev pub mem_of : Shard → Probed → ℕ
mem_of master p = p.monitor.master_mem
mem_of caves p = p.monitor.caves_mem

abbrev pub ticks_of : Shard → Probed → ℕ
ticks_of master p = p.snapshot.master_ticks
ticks_of caves p = p.snapshot.caves_ticks

not_zero : (s : Shard) (word : ℕ) → is_pid (pid_of s word) ≡ true → (word == 0) ≡ false
unfolding is_pid
not_zero master word h = ground arith
not_zero caves word h = ground arith

-- A run on the word of a shard that has a process.
probe_task-sample :
    (s : Shard) (files : ℕ → Option Bytes × Option Bytes) (now word : ℕ) (p : Probed)
    → is_pid (pid_of s word) ≡ true
    → let a = sample_of files (pid_of s word) (ticks_of s p) (nanos_between p.snapshot.taken now) in
      let r = probe_task files now word p in
      (cpu_of s r ≡ a.cpu)
      × (mem_of s r ≡ a.memory)
      × (ticks_of s r ≡ a.ticks)
      × (r.snapshot.taken ≡ now)
unfolding probe_task
probe_task-sample master files now word p h =
    rw (not_zero master word h, h) (refl, refl, refl, refl)
probe_task-sample caves files now word p h = rw (not_zero caves word h, h) (refl, refl, refl, refl)

nanos_between_later : (last now : ℕ) → last < now → nanos_between last now ≡ now - last
unfolding nanos_between
nanos_between_later last now h = ground arith

no_share : (last nanos : ℕ) → 0 ≡ cpu_share 0 last nanos
unfolding cpu_share
no_share last nanos = ground arith

collect_process-ticks :
    (statm stat : Option Bytes) (last last' nanos nanos' : ℕ)
    → (collect_process statm stat last nanos).ticks
      ≡ (collect_process statm stat last' nanos').ticks
unfolding collect_process
collect_process-ticks statm none last last' nanos nanos' = refl
collect_process-ticks statm (some []) last last' nanos nanos' = refl
collect_process-ticks statm (some (c ∷ cs)) last last' nanos nanos' = refl

collect_process-share :
    (statm stat : Option Bytes) (last nanos : ℕ)
    → let a = collect_process statm stat last nanos in a.cpu ≡ cpu_share a.ticks last nanos
unfolding collect_process
collect_process-share statm none last nanos = no_share last nanos
collect_process-share statm (some []) last nanos = no_share last nanos
collect_process-share statm (some (c ∷ cs)) last nanos = refl

-- The ticks that the files of a process tell.
abbrev pub file_ticks : (ℕ → Option Bytes × Option Bytes) → ℕ → ℕ
file_ticks files pid = (collect_process (files pid).0 (files pid).1 0 1).ticks

sample_of-ticks :
    (files : ℕ → Option Bytes × Option Bytes) (pid last nanos : ℕ)
    → (sample_of files pid last nanos).ticks ≡ file_ticks files pid
unfolding sample_of
sample_of-ticks files pid last nanos =
    collect_process-ticks (files pid).0 (files pid).1 last 0 nanos 1

sample_of-share :
    (files : ℕ → Option Bytes × Option Bytes) (pid last nanos : ℕ)
    → (sample_of files pid last nanos).cpu ≡ cpu_share (file_ticks files pid) last nanos
unfolding sample_of
sample_of-share files pid last nanos =
    collect_process-share (files pid).0 (files pid).1 last nanos
    ∙ ap (λ t. cpu_share t last nanos)
        (collect_process-ticks (files pid).0 (files pid).1 last 0 nanos 1)

spent_below :
    (ticks last bound : ℕ)
    → 0 < bound
    → (ticks - last) * 100000000000 < bound
    → spent last ticks < bound
spent_below ticks last bound pos h =
    if-split (λ n. n < bound) (last == 0) 0 ((ticks - last) * 100000000000) (λ _. pos) (λ _. h)

spent_lt :
    (ticks nanos cores : ℕ)
    → 0 < nanos
    → ticks * 10000000 ≤ nanos * cores
    → cores * 10000 < 4294967296
    → ticks * 100000000000 < 4294967296 * nanos
spent_lt ticks nanos cores pos fits few =
    let scaled : nanos * suc (cores * 10000) ≤ nanos * 4294967296 = mul-le-mul_left nanos few in
    omega (arith, scaled, mul_assoc nanos cores 10000, mul-suc nanos (cores * 10000))

-- Two runs of the probe in a row, while a shard's process has ids that are positive int32s: its CPU figure
-- is the time of the ticks of 10 ms between what its files told at the two runs, in parts of 10000 of the
-- time between the runs, rounded down, whatever was sampled before and whatever the other shard does, or 0
-- where the first run saw no ticks or the count went back; and it is at most 10000 for each core, if
-- those ticks fit into the time of so many cores. The product is to fit into 64 bits, and the share of
-- all cores into 32.
pub probe_task-twice :
    (s : Shard) (files files' : ℕ → Option Bytes × Option Bytes) (now now' word word' cores : ℕ)
    (p : Probed)
    → is_pid (pid_of s word) ≡ true
    → is_pid (pid_of s word') ≡ true
    → now < now'
    → let t = file_ticks files (pid_of s word) in
      let t' = file_ticks files' (pid_of s word') in
      (t' - t) * 10000000 ≤ (now' - now) * cores
      → (t' - t) * 100000000000 < u64_mod
      → cores * 10000 < 4294967296
      → let r = probe_task files' now' word' (probe_task files now word p) in
        IsShare (cpu_of s r) t' t (now' - now) × (cpu_of s r ≤ cores * 10000)
probe_task-twice s files files' now now' word word' cores p h h' later fits short few =
    let p1 = probe_task files now word p in
    let (cpu, mem, ticks, taken) = probe_task-sample s files now word p h in
    let (cpu', mem', ticks', taken') = probe_task-sample s files' now' word' p1 h' in
    let t = file_ticks files (pid_of s word) in
    let t' = file_ticks files' (pid_of s word') in
    let last : ticks_of s p1 ≡ t =
      ticks
      ∙ sample_of-ticks files (pid_of s word) (ticks_of s p) (nanos_between p.snapshot.taken now) in
    let between : nanos_between p1.snapshot.taken now' ≡ now' - now =
      ap (λ n. nanos_between n now') taken ∙ nanos_between_later now now' later in
    let exact : cpu_of s (probe_task files' now' word' p1) ≡ cpu_share t' t (now' - now) =
      cpu'
      ∙ sample_of-share files' (pid_of s word') (ticks_of s p1)
          (nanos_between p1.snapshot.taken now')
      ∙ ap (λ l. cpu_share t' l (nanos_between p1.snapshot.taken now')) last
      ∙ ap (cpu_share t' t) between in
    let small : (t' - t) * 100000000000 < 4294967296 * (now' - now) =
      spent_lt (t' - t) (now' - now) cores (omega arith) fits few in
    let share : IsShare (cpu_share t' t (now' - now)) t' t (now' - now) =
      cpu_share-IsShare t' t (now' - now) (omega arith)
        (spent_below t' t u64_mod (omega arith) short)
        (spent_below t' t (4294967296 * (now' - now)) (omega arith) small) in
    (rw exact share, omega (arith, exact, cpu_share_le t' t (now' - now) cores fits))
