-- ===== src/Scheduler/Reading.antt =====
-- GetStats of internal/adapters/stats/stats.go and CollectStats of internal/adapters/worker/worker_service.go,
-- over what the files of the host give; the load averages are not read by anything and are left out.
use devops_platform.Base.{
  ℕ, ◌≡◌, refl, ◌∙◌, sym, ap, String, List, [], ◌∷◌, Option, some, Result, ok, err, panic,
}
use devops_platform.Scheduler.Stats.{
  Stats, MemInfo, Disk, CpuStat, mem_total_kb, disk_total, mem_used_percent,
}

-- What goprocinfo reads of /proc/meminfo, of / and of /proc/stat.
pub record Readings : Type 0 where
  pub memory : Result MemInfo
  pub disk : Result Disk
  pub cpu : Result CpuStat

-- The value, or the zero value of its struct on an error, which is logged.
abbrev pub or_zero {ℓ} : {A : Type ℓ} → A → Result A → Result A
or_zero zero (err e) = ok zero
or_zero zero r = r

unfoldable pub get_memory_info : Result MemInfo → Result MemInfo
get_memory_info = or_zero (record { mem_total = 0; mem_available = 0 })

unfoldable pub get_disk_info : Result Disk → Result Disk
get_disk_info = or_zero (record { all = 0; used = 0; free = 0 })

unfoldable pub get_cpu_stats : Result CpuStat → Result CpuStat
get_cpu_stats = or_zero (record {
  user = 0;
  nice = 0;
  system = 0;
  idle = 0;
  io_wait = 0;
  irq = 0;
  soft_irq = 0;
  steal = 0;
})

-- The fields in turn; TaskCount is not set.
abbrev pub with_readings : Result MemInfo → Result Disk → Result CpuStat → Result Stats
with_readings (ok m) (ok d) (ok c) =
    ok (record { mem_stats = some m; disk_stats = some d; cpu_stats = some c; task_count = 0 })
with_readings (err e) d c = err e
with_readings panic d c = panic
with_readings (ok m) (err e) c = err e
with_readings (ok m) panic c = panic
with_readings (ok m) (ok d) (err e) = err e
with_readings (ok m) (ok d) panic = panic

unfoldable pub read_host : Readings → Result Stats
unfolding get_memory_info get_disk_info get_cpu_stats
read_host r = with_readings (get_memory_info r.memory) (get_disk_info r.disk) (get_cpu_stats r.cpu)

-- The fields Stats and TaskCount of the worker service.
pub record Collected : Type 0 where
  pub stats : Option Stats
  pub task_count : ℕ

abbrev pub tick : Result Stats → Result Collected
tick (ok s) = ok (record { stats = some s; task_count = s.task_count })
tick (err e) = err e
tick panic = panic

-- CollectStats, one reading for each tick until its context ends.
unfoldable pub collect_stats : List Readings → Collected → Result Collected
unfolding read_host
collect_stats [] w = ok w
collect_stats (r ∷ rs) w = elim (tick (read_host r)) [
  | ok w' ↦ collect_stats rs w'
  | err e ↦ err e
  | panic ↦ panic
]

-- Where nothing of the host can be read, GetStats still gives statistics: they count no memory and no disk,
-- and MemUsedPercent of them panics.
pub read_host-unreadable :
    (x y z : String)
    → (s : Stats) × (read_host (record { memory = err x; disk = err y; cpu = err z }) ≡ ok s)
      × (mem_total_kb s ≡ ok 0)
      × (disk_total s ≡ ok 0)
      × (mem_used_percent s ≡ panic)
unfolding read_host get_memory_info get_disk_info get_cpu_stats mem_total_kb disk_total
    mem_used_percent
read_host-unreadable x y z = (_, refl, refl, refl, refl)

tick-with_readings :
    (m : Result MemInfo) (d : Result Disk) (c : Result CpuStat) (w : Collected)
    → tick (with_readings m d c) ≡ ok w
    → w.task_count ≡ 0
tick-with_readings (ok m) (ok d) (ok c) w h =
    let same : record {
      stats =
          some (record {
            mem_stats = some m;
            disk_stats = some d;
            cpu_stats = some c;
            task_count = 0;
          });
      task_count = 0;
    }
        ≡ w =
      cc in
    ap (λ w. w.task_count) (sym same)
tick-with_readings (err e) d c w h = absurd cc
tick-with_readings panic d c w h = absurd cc
tick-with_readings (ok m) (err e) c w h = absurd cc
tick-with_readings (ok m) panic c w h = absurd cc
tick-with_readings (ok m) (ok d) (err e) w h = absurd cc
tick-with_readings (ok m) (ok d) panic w h = absurd cc

-- After any number of ticks a worker that counted no task still counts none, however many it runs.
pub collect_stats-task_count :
    (rs : List Readings) (w w' : Collected)
    → w.task_count ≡ 0
    → collect_stats rs w ≡ ok w'
    → w'.task_count ≡ 0
unfolding collect_stats read_host
collect_stats-task_count [] w w' z h =
    let same : w ≡ w' = cc in ap (λ w. w.task_count) (sym same) ∙ z
collect_stats-task_count (r ∷ rs) w w' z h =
    by_tick (tick (read_host r))
      (tick-with_readings (get_memory_info r.memory) (get_disk_info r.disk) (get_cpu_stats r.cpu))
      (λ w1 z1. collect_stats-task_count rs w1 w' z1) h
  where
    by_tick :
        (t : Result Collected)
        → ((w1 : Collected) → t ≡ ok w1 → w1.task_count ≡ 0)
        → ((w1 : Collected) → w1.task_count ≡ 0 → collect_stats rs w1 ≡ ok w' → w'.task_count ≡ 0)
        → (elim t as (λ _. Result Collected) [
          | ok w1 ↦ collect_stats rs w1
          | err e ↦ err e
          | panic ↦ panic
        ])
          ≡ ok w'
        → w'.task_count ≡ 0
    by_tick (ok w1) count rec h = rec w1 (count w1 refl) h
    by_tick (err e) count rec h = absurd cc
    by_tick panic count rec h = absurd cc
