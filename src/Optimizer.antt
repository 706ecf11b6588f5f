-- ===== src/Optimizer.antt =====
-- src/performance_optimizer.c: the state of the optimizer, its start and its statistics.
pub mod Cache
pub mod Batch
pub mod Tuning
pub mod Ranges
pub mod Bounds
mod Tests
use mtrdma_artifact.Common.{
  ℕ, ◌+◌, ◌-◌, Bool, true, false, not, Option, none, some, List, Status, ok, fail, Os,
  if◌then◌else◌, ltb, ◌==◌, u64_mod, add64,
}
use mtrdma_artifact.Shm.{ResourceUsage, no_usage, Shm}

abbrev pub cache_bucket_count : ℕ
cache_bucket_count = 256

-- `cache_entry_t` without its lock, which is held from the first to the last access of an operation.
pub record CacheEntry : Type 0 where
  pub pid : ℕ
  pub usage : ResourceUsage
  pub last_update : ℕ
  pub valid : Bool

-- `resource_cache_t`
pub record ResourceCache : Type 0 where
  pub entries : ℕ → CacheEntry
  pub hit_count : ℕ
  pub miss_count : ℕ
  pub eviction_count : ℕ
  pub ttl_ms : ℕ

-- `batch_buffer_t`
pub record BatchBuffer : Type 0 where
  pub pending_updates : ℕ → ResourceUsage
  pub pids : ℕ → ℕ
  pub count : ℕ
  pub last_flush : ℕ
  pub flush_interval_ms : ℕ

-- `perf_optimizer_stats_t` without its two quotients.
pub record PerfOptimizerStats : Type 0 where
  pub total_operations : ℕ
  pub intercepted_operations : ℕ
  pub allowed_operations : ℕ
  pub denied_operations : ℕ
  pub total_latency_ns : ℕ
  pub min_latency_ns : ℕ
  pub max_latency_ns : ℕ
  pub cache_hits : ℕ
  pub cache_misses : ℕ
  pub batch_flushes : ℕ
  pub batched_updates : ℕ
  pub start_time : ℕ

-- The statics of the file, and the process's view of the object of shared_memory.c.
pub record PerfState : Type 0 where
  pub cache : ResourceCache
  pub batch : BatchBuffer
  pub stats : PerfOptimizerStats
  pub running : Bool
  pub cache_enabled : Bool
  pub batching_enabled : Bool
  pub shm : Shm

-- What the system answers during one call: /proc/[pid]/stat, what is answered to the k-th update of
-- the shared object, the clocks in milliseconds and nanoseconds and in seconds, and whether a thread
-- could be started.
pub record PerfHost : Type 0 where
  pub stat : ℕ → Option (List ℕ)
  pub os : ℕ → Os
  pub now_ms : ℕ
  pub start_ns : ℕ
  pub end_ns : ℕ
  pub seconds : ℕ
  pub thread_created : Bool

abbrev pub zero_entry : CacheEntry
zero_entry = record { pid = 0; usage = no_usage; last_update = 0; valid = false }

-- `memset`, the start time and the largest minimum.
abbrev pub zero_stats : ℕ → PerfOptimizerStats
zero_stats now = record {
  total_operations = 0;
  intercepted_operations = 0;
  allowed_operations = 0;
  denied_operations = 0;
  total_latency_ns = 0;
  min_latency_ns = u64_mod - 1;
  max_latency_ns = 0;
  cache_hits = 0;
  cache_misses = 0;
  batch_flushes = 0;
  batched_updates = 0;
  start_time = now;
}

abbrev pub fresh_cache : ResourceCache
fresh_cache = record {
  entries = λ _. zero_entry;
  hit_count = 0;
  miss_count = 0;
  eviction_count = 0;
  ttl_ms = 100;
}

abbrev pub fresh_batch : BatchBuffer
fresh_batch = record {
  pending_updates = λ _. no_usage;
  pids = λ _. 0;
  count = 0;
  last_flush = 0;
  flush_interval_ms = 50;
}

unfoldable pub perf_optimizer_init : PerfHost → PerfState → Status × PerfState
perf_optimizer_init host s = (
  if host.thread_created then ok else fail,
  record s {
    cache = fresh_cache;
    batch = fresh_batch;
    stats = zero_stats host.seconds;
    running = host.thread_created;
  },
)

unfoldable pub perf_optimizer_enable_cache : Bool → PerfState → PerfState
perf_optimizer_enable_cache enable s = record s { cache_enabled = enable }

unfoldable pub perf_optimizer_enable_batching : Bool → PerfState → PerfState
perf_optimizer_enable_batching enable s = record s { batching_enabled = enable }

-- A quotient is given by its two numbers, `none` for the 0.0 where the divisor is 0: the hit rate
-- (in hundredths of it) and the average latency.
pub perf_optimizer_get_stats : PerfState → PerfOptimizerStats × Option (ℕ × ℕ) × Option (ℕ × ℕ)
perf_optimizer_get_stats s =
    let n = add64 s.stats.cache_hits s.stats.cache_misses in
    (
      s.stats,
      if ltb 0 n then some (s.stats.cache_hits, n) else none,
      if ltb 0 s.stats.total_operations
          then some (s.stats.total_latency_ns, s.stats.total_operations)
          else none,
    )

unfoldable pub perf_optimizer_reset_stats : PerfHost → PerfState → PerfState
perf_optimizer_reset_stats host s = record s {
  stats = zero_stats host.seconds;
  cache = record (s.cache) { hit_count = 0; miss_count = 0; eviction_count = 0 };
}
