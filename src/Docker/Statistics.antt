-- ===== src/Docker/Statistics.antt =====
-- GetStats of internal/adapters/resource/docker/docker_pool.go and the statistics of
-- internal/core/domain/resource/resource.go, over an interface of floating-point numbers. What docker and
-- the Go runtime answer are arguments; an int64 is a bit pattern below 2 ^ 64.
use devops_platform.Base.{
  ℕ, ◌+◌, ◌-◌, ◌/◌, ◌<◌, ◌≤◌, ◌≡◌, Result, ok, err, panic, sub64, u64, arith,
}
use devops_platform.Scheduler.Floats.{Float}

pub record CpuStats (F : Type 0) : Type 0 where
  pub usage_percentage : F
  pub available_cores : ℕ

pub record MemoryStats : Type 0 where
  pub total_kb : ℕ
  pub used_kb : ℕ
  pub free_kb : ℕ

pub record DiskStats : Type 0 where
  pub total_bytes : ℕ
  pub used_bytes : ℕ
  pub free_bytes : ℕ

pub record ResourceStats (F : Type 0) : Type 0 where
  pub cpu : CpuStats F
  pub memory : MemoryStats
  pub disk : DiskStats

-- runtime.NumCPU, and the fields Sys and HeapIdle of runtime.MemStats.
pub record Runtime : Type 0 where
  pub num_cpu : ℕ
  pub sys : ℕ
  pub heap_idle : ℕ

-- The fields of docker's Info and ContainerStats that GetStats reads.
pub record Info : Type 0 where
  pub ncpu : ℕ
  pub mem_total : ℕ

pub record ContainerStats : Type 0 where
  pub total_usage : ℕ
  pub usage : ℕ

abbrev pub no_disk : DiskStats
no_disk = record { total_bytes = 0; used_bytes = 0; free_bytes = 0 }

unfoldable pub new_memory_stats : Runtime → MemoryStats
new_memory_stats r = record {
  total_kb = r.sys / 1024;
  used_kb = sub64 r.sys r.heap_idle / 1024;
  free_kb = r.heap_idle / 1024;
}

module _ {F : Type 0} (f : Float F) where
  unfoldable pub new_cpu_stats : Runtime → CpuStats F
  new_cpu_stats r = record { usage_percentage = f.zero; available_cores = r.num_cpu }

  unfoldable pub new_resource_stats : Runtime → ResourceStats F
  unfolding new_cpu_stats new_memory_stats
  new_resource_stats r = record {
    cpu = new_cpu_stats r;
    memory = new_memory_stats r;
    disk = no_disk;
  }

  -- The memory of docker, whose usage goes through a float64.
  abbrev pub docker_memory : Info → ContainerStats → MemoryStats
  docker_memory info stats =
      let usage = f.to_uint64 (f.of_uint64 stats.usage) in
      record {
        total_kb = info.mem_total / 1024;
        used_kb = usage / 1024;
        free_kb = sub64 info.mem_total usage / 1024;
      }

  -- `hundred` is the constant 100. On an error the default values; docker's client does not panic.
  unfoldable pub get_stats :
      F → Runtime → Result Info → Result ContainerStats → Result (ResourceStats F)
  unfolding new_resource_stats
  get_stats hundred r (ok info) (ok stats) = ok (record {
    cpu = record {
      usage_percentage = f.mul (f.div (f.of_uint64 stats.total_usage) (f.of_int info.ncpu)) hundred;
      available_cores = info.ncpu;
    };
    memory = docker_memory info stats;
    disk = no_disk;
  })
  get_stats hundred r (ok info) (err e) = ok (new_resource_stats r)
  get_stats hundred r (ok info) panic = panic
  get_stats hundred r (err e) stats = ok (new_resource_stats r)
  get_stats hundred r panic stats = panic

  -- Where the manager uses no more memory than there is, what is used and what is free is no more than the
  -- total, in whole kilobytes.
  pub docker_memory_bounds :
      (info : Info) (stats : ContainerStats)
      → info.mem_total < u64
      → f.to_uint64 (f.of_uint64 stats.usage) ≤ info.mem_total
      → (docker_memory info stats).used_kb + (docker_memory info stats).free_kb
        ≤ (docker_memory info stats).total_kb
  docker_memory_bounds info stats b u =
      let usage = f.to_uint64 (f.of_uint64 stats.usage) in
      let free : sub64 info.mem_total usage ≡ info.mem_total - usage = omega (arith, b, u) in
      omega (arith, free, u)
