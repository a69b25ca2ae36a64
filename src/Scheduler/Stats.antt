-- ===== src/Scheduler/Stats.antt =====
-- internal/adapters/stats/stats.go: the statistics of a node. The structs of goprocinfo that it holds are
-- records of their fields; a pointer to one is an option.
use devops_platform.Base.{
  ℕ, ◌/◌, ◌<◌, ◌≤◌, ◌≡◌, ◌&&◌, Option, none, some, Result, ok, panic, bind, ◌==◌, nat_eq,
  if◌then◌else◌, add64, sub64, arith,
}
use devops_platform.Scheduler.Floats.{Float}

pub record MemInfo : Type 0 where
  pub mem_total : ℕ
  pub mem_available : ℕ

pub record Disk : Type 0 where
  pub all : ℕ
  pub used : ℕ
  pub free : ℕ

pub record CpuStat : Type 0 where
  pub user : ℕ
  pub nice : ℕ
  pub system : ℕ
  pub idle : ℕ
  pub io_wait : ℕ
  pub irq : ℕ
  pub soft_irq : ℕ
  pub steal : ℕ

pub record Stats : Type 0 where
  pub mem_stats : Option MemInfo
  pub disk_stats : Option Disk
  pub cpu_stats : Option CpuStat
  pub task_count : ℕ

-- A field of a nil pointer panics.
abbrev pub deref {ℓ} : {A : Type ℓ} → Option A → Result A
deref none = panic
deref (some a) = ok a

unfoldable pub mem_used_kb : Stats → Result ℕ
mem_used_kb s = bind (deref s.mem_stats) λ m. ok (sub64 m.mem_total m.mem_available)

-- The integer division panics at a total of zero.
unfoldable pub mem_used_percent : Stats → Result ℕ
mem_used_percent s =
    bind (deref s.mem_stats)
      λ m. if m.mem_total == 0 then panic else ok (m.mem_available / m.mem_total)

unfoldable pub mem_available_kb : Stats → Result ℕ
mem_available_kb s = bind (deref s.mem_stats) λ m. ok m.mem_available

unfoldable pub mem_total_kb : Stats → Result ℕ
mem_total_kb s = bind (deref s.mem_stats) λ m. ok m.mem_total

unfoldable pub disk_total : Stats → Result ℕ
disk_total s = bind (deref s.disk_stats) λ d. ok d.all

unfoldable pub disk_free : Stats → Result ℕ
disk_free s = bind (deref s.disk_stats) λ d. ok d.free

unfoldable pub disk_used : Stats → Result ℕ
disk_used s = bind (deref s.disk_stats) λ d. ok d.used

abbrev pub idle_of : CpuStat → ℕ
idle_of c = add64 c.idle c.io_wait

abbrev pub non_idle_of : CpuStat → ℕ
non_idle_of c =
    add64 (add64 (add64 (add64 (add64 c.user c.nice) c.system) c.irq) c.soft_irq) c.steal

module _ {F : Type 0} (f : Float F) where
  -- The share of the time that was not idle, 0 for no time at all.
  unfoldable pub usage_share : ℕ → ℕ → F
  usage_share total idle =
      if total == 0 && idle == 0
      then f.zero
      else f.div (f.sub (f.of_uint64 total) (f.of_uint64 idle)) (f.of_uint64 total)

  unfoldable pub cpu_usage : Stats → Result F
  unfolding usage_share
  cpu_usage s =
      bind (deref s.cpu_stats) λ c. ok (usage_share (add64 (idle_of c) (non_idle_of c)) (idle_of c))

div_below : (a m : ℕ) → a < m → a / m ≡ 0
div_below a m h = grind arith

div_self : (m : ℕ) → 0 < m → m / m ≡ 1
div_self m h = grind arith

-- Where the memory is read, its total is positive and what is available is at most the total,
-- MemUsedPercent is 1 if all of it is available, and 0 otherwise.
pub mem_used_percent_lem :
    (s : Stats) (m : MemInfo)
    → s.mem_stats ≡ some m
    → 0 < m.mem_total
    → m.mem_available ≤ m.mem_total
    → mem_used_percent s ≡ ok (if m.mem_available == m.mem_total then 1 else 0)
unfolding mem_used_percent
mem_used_percent_lem s m h pos le =
    ground (arith, div_below m.mem_available m.mem_total, div_self m.mem_total)
