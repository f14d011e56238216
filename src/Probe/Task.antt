-- ===== src/Probe/Task.antt =====
-- main_linux.go, `全服资源探针任务`: the probe of both processes, at the ids of the shared word. The clock and
-- the files of a process, statm and stat, are arguments.
pub mod Twice
use dst_nucleus.Prelude.{
  ℕ, Bool, true, false, Option, Bytes, ◌==◌, ◌-◌, ◌/◌, ◌%◌, ◌&&◌, ltb, if◌then◌else◌,
}
use dst_nucleus.Probe.{Sample, collect_process}

-- `全服监控态`.
pub record Monitor : Type 0 where
  pub master_cpu : ℕ
  pub master_mem : ℕ
  pub caves_cpu : ℕ
  pub caves_mem : ℕ

-- `探针私有快照`.
pub record ProbeSnapshot : Type 0 where
  pub master_ticks : ℕ
  pub caves_ticks : ℕ
  pub taken : ℕ  -- 上次时间点

pub record Probed : Type 0 where
  pub monitor : Monitor
  pub snapshot : ProbeSnapshot

abbrev pub half : ℕ
half = 4294967296

-- Is a half of the word a positive int32?
unfoldable pub is_pid : ℕ → Bool
is_pid pid = ltb 0 pid && ltb pid 2147483648

unfoldable pub nanos_between : ℕ → ℕ → ℕ
nanos_between last now = if ltb last now then now - last else 1

-- The sample of one shard, if it has a process.
unfoldable pub sample_of : (ℕ → Option Bytes × Option Bytes) → ℕ → ℕ → ℕ → Sample
unfolding collect_process
sample_of files pid last nanos =
    let (statm, stat) = files pid in collect_process statm stat last nanos

unfoldable pub probe_task : (ℕ → Option Bytes × Option Bytes) → ℕ → ℕ → Probed → Probed
unfolding is_pid nanos_between sample_of
probe_task files now word p =
    let master_pid = word / half % half in
    let caves_pid = word % half in
    let nanos = nanos_between p.snapshot.taken now in
    let m = sample_of files master_pid p.snapshot.master_ticks nanos in
    let c = sample_of files caves_pid p.snapshot.caves_ticks nanos in
    let has_master = is_pid master_pid in
    let has_caves = is_pid caves_pid in
    let monitor : Monitor = record {
      master_cpu = if has_master then m.cpu else p.monitor.master_cpu;
      master_mem = if has_master then m.memory else p.monitor.master_mem;
      caves_cpu = if has_caves then c.cpu else p.monitor.caves_cpu;
      caves_mem = if has_caves then c.memory else p.monitor.caves_mem;
    } in
    let snapshot : ProbeSnapshot = record {
      master_ticks = if has_master then m.ticks else 0;
      caves_ticks = if has_caves then c.ticks else 0;
      taken = now;
    } in
    if word == 0 then p else record { monitor = monitor; snapshot = snapshot }
