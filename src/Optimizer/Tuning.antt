-- ===== src/Optimizer/Tuning.antt =====
-- src/performance_optimizer.c: the settings that adapt, the flushing thread, and the checked fast path.
use mtrdma_artifact.Common.{
  ℕ, ◌+◌, ◌-◌, ◌/◌, ◌%◌, Bool, not, ◌&&◌, Option, none, some, if◌then◌else◌, ltb, leb, ◌==◌, add32,
  add64, sub64, u32_mod,
}
use mtrdma_artifact.Shm.{ResourceUsage}
use mtrdma_artifact.Optimizer.{PerfOptimizerStats, PerfState, PerfHost}
use mtrdma_artifact.Optimizer.Cache.{perf_optimizer_get_cached_resources}
use mtrdma_artifact.Optimizer.Batch.{perf_optimizer_flush_batch_buffer}

-- `if (x < lo) x = lo; if (x > hi) x = hi;`
abbrev pub clamp : ℕ → ℕ → ℕ → ℕ
clamp lo hi x = if ltb x lo then lo else if ltb hi x then hi else x

abbrev pub set_ttl : ℕ → PerfState → PerfState
set_ttl ttl s = record s { cache = record (s.cache) { ttl_ms = ttl } }

unfoldable pub perf_optimizer_set_cache_ttl : ℕ → PerfState → PerfState
perf_optimizer_set_cache_ttl ttl s = set_ttl (clamp 10 10000 ttl) s

unfoldable pub perf_optimizer_set_batch_interval : ℕ → PerfState → PerfState
perf_optimizer_set_batch_interval interval s = record s {
  batch = record (s.batch) { flush_interval_ms = clamp 10 1000 interval };
}

-- `low hits total` is `hit_rate < 50.0` and `high hits total` is `hit_rate > 90.0` for
-- `hit_rate = (double)hits / total * 100.0`.
module _ (low high : ℕ → ℕ → Bool) where
  unfoldable pub perf_optimizer_adaptive_adjust : PerfState → PerfState
  perf_optimizer_adaptive_adjust s =
      let hits = s.stats.cache_hits in
      let n = add64 hits s.stats.cache_misses in
      let ttl = s.cache.ttl_ms in
      if ltb n 100
      then s
      else if low hits n && ltb 50 ttl
      then set_ttl (ttl - 10) s
      else if high hits n && ltb ttl 500
      then set_ttl (ttl + 10) s
      else s

  -- One turn of the loop of `flush_thread_func` after its sleep, with its static counter.
  unfoldable pub flush_turn : PerfHost → ℕ × PerfState → ℕ × PerfState
  unfolding perf_optimizer_adaptive_adjust
  flush_turn host (counter, s) =
      let s' = if s.batching_enabled then perf_optimizer_flush_batch_buffer host s else s in
      if not s.running
      then (counter, s)
      else if leb 100 (counter + 1)
      then (0, perf_optimizer_adaptive_adjust s')
      else (counter + 1, s')

-- The count that a hit of the cache gives for the resource: 0 is a queue pair, 1 a memory region,
-- 2 memory in MiB.
pub cached_count : ℕ → ℕ → Option ResourceUsage → ℕ
cached_count resource_type current none = current
cached_count resource_type current (some u) =
    if resource_type == 0
    then u.qp_count
    else if resource_type == 1
    then u.mr_count
    else if resource_type == 2
    then (u.memory_used / 1048576) % u32_mod
    else current

pub count_check : ℕ → Bool → PerfOptimizerStats → PerfOptimizerStats
count_check latency permitted t = record t {
  total_latency_ns = add64 t.total_latency_ns latency;
  min_latency_ns = if ltb latency t.min_latency_ns then latency else t.min_latency_ns;
  max_latency_ns = if ltb t.max_latency_ns latency then latency else t.max_latency_ns;
  allowed_operations = if permitted then add64 t.allowed_operations 1 else t.allowed_operations;
  denied_operations = if permitted then t.denied_operations else add64 t.denied_operations 1;
}

unfoldable pub perf_optimizer_check_resource_fast :
    PerfHost → ℕ → ℕ → ℕ → ℕ → ℕ → PerfState → Bool × PerfState
unfolding cached_count count_check
perf_optimizer_check_resource_fast host pid resource_type current requested limit s =
    let counted = record s {
      stats = record (s.stats) { total_operations = add64 s.stats.total_operations 1 };
    } in
    let (cached, s') = perf_optimizer_get_cached_resources host.now_ms pid counted in
    let permitted = leb (add32 (cached_count resource_type current cached) requested) limit in
    (
      permitted,
      record s' { stats = count_check (sub64 host.end_ns host.start_ns) permitted s'.stats },
    )
