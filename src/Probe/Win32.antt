-- ===== src/Probe/Win32.antt =====
-- main_windows.go, `全服资源探针任务` and `采集Win32数据`. What the kernel answers for a process is an argument.
pub mod Share
use dst_nucleus.Prelude.{
  ℕ, Bool, true, false, Option, none, some, ◌==◌, ◌+◌, ◌-◌, ◌*◌, ◌/◌, ◌%◌, ◌||◌, ltb, if◌then◌else◌,
}
use dst_nucleus.Mods.Digits.{u64_mod}
use dst_nucleus.Probe.Task.{Monitor, half}

-- The answers of `OpenProcess`, of `GetProcessTimes` (kernel and user time), of `GetProcessMemoryInfo`.
pub record Win32 : Type 0 where
  pub opened : Bool
  pub times : Option (ℕ × ℕ)
  pub working_set : Option ℕ

pub record Win32Sample : Type 0 where
  pub cpu : ℕ
  pub memory : ℕ
  pub kernel : ℕ
  pub user : ℕ

-- A difference of uint64s.
unfoldable pub sub_u64 : ℕ → ℕ → ℕ
sub_u64 a b = (a + u64_mod - b) % u64_mod

unfoldable pub share_u64 : ℕ → ℕ → ℕ → ℕ → ℕ → ℕ
unfolding sub_u64
share_u64 k u last_k last_u diff =
    if ltb 0 last_k || ltb 0 last_u
    then (sub_u64 k last_k + sub_u64 u last_u) % u64_mod * 10000 % u64_mod / diff % half
    else 0

abbrev memory_of : Option ℕ → ℕ
memory_of none = 0
memory_of (some n) = n

unfoldable pub times_of : Option (ℕ × ℕ) → ℕ → ℕ → ℕ → ℕ → Win32Sample
unfolding share_u64
times_of none last_k last_u diff memory = record { cpu = 0; memory = memory; kernel = 0; user = 0 }
times_of (some (k, u)) last_k last_u diff memory = record {
  cpu = share_u64 k u last_k last_u diff;
  memory = memory;
  kernel = k;
  user = u;
}

unfoldable pub collect_win32 : Win32 → ℕ → ℕ → ℕ → Win32Sample
unfolding times_of
collect_win32 w last_k last_u diff =
    if w.opened
    then times_of w.times last_k last_u diff (memory_of w.working_set)
    else record { cpu = 0; memory = 0; kernel = 0; user = 0 }

-- `探针私有快照` on Windows.
pub record Win32Snapshot : Type 0 where
  pub master_kernel : ℕ
  pub master_user : ℕ
  pub caves_kernel : ℕ
  pub caves_user : ℕ
  pub taken : ℕ  -- 上次系统时间

unfoldable pub time_between : ℕ → ℕ → ℕ
unfolding sub_u64
time_between last now = let diff = sub_u64 now last in if diff == 0 then 1 else diff

unfoldable pub probe_win32 : (ℕ → Win32) → ℕ → ℕ → Monitor × Win32Snapshot → Monitor × Win32Snapshot
unfolding collect_win32 time_between
probe_win32 answer now word (old, s) =
    let master_pid = word / half % half in
    let caves_pid = word % half in
    let diff = time_between s.taken now in
    let m = collect_win32 (answer master_pid) s.master_kernel s.master_user diff in
    let c = collect_win32 (answer caves_pid) s.caves_kernel s.caves_user diff in
    let has_master = ltb 0 master_pid in
    let has_caves = ltb 0 caves_pid in
    let monitor : Monitor = record {
      master_cpu = if has_master then m.cpu else old.master_cpu;
      master_mem = if has_master then m.memory else old.master_mem;
      caves_cpu = if has_caves then c.cpu else old.caves_cpu;
      caves_mem = if has_caves then c.memory else old.caves_mem;
    } in
    let snapshot : Win32Snapshot = record {
      master_kernel = if has_master then m.kernel else s.master_kernel;
      master_user = if has_master then m.user else s.master_user;
      caves_kernel = if has_caves then c.kernel else s.caves_kernel;
      caves_user = if has_caves then c.user else s.caves_user;
      taken = now;
    } in
    if word == 0 then (old, s) else (monitor, snapshot)
