-- ===== src/Optimizer/Bounds.antt =====
-- src/performance_optimizer.c: the ranges of the settings and of the buffer under any calls.
use mtrdma_artifact.Common.{ℕ, Bool, false, Option, List, [], ◌∷◌, arith}
use mtrdma_artifact.Shm.{ResourceUsage, shm_get_process_resources}
use mtrdma_artifact.Optimizer.{
  PerfState, PerfHost, perf_optimizer_init, perf_optimizer_enable_cache,
  perf_optimizer_enable_batching, perf_optimizer_reset_stats,
}
use mtrdma_artifact.Optimizer.Cache.{
  perf_optimizer_get_cached_resources, perf_optimizer_update_cached_resources,
  perf_optimizer_invalidate_cache, perf_optimizer_clear_cache, perf_optimizer_prefetch_resources,
}
use mtrdma_artifact.Optimizer.Batch.{
  perf_optimizer_flush_batch_buffer, perf_optimizer_batch_update_resource, perf_optimizer_cleanup,
}
use mtrdma_artifact.Optimizer.Tuning.{
  perf_optimizer_set_cache_ttl, perf_optimizer_set_batch_interval, perf_optimizer_adaptive_adjust,
  flush_turn, perf_optimizer_check_resource_fast,
}
use mtrdma_artifact.Optimizer.Ranges.{
  Same-InRange, get_cached-Same, update_cached-Same, prefetched-Same, flush-InRange,
  batch_update-InRange, adaptive_adjust-InRange, flush_turn-InRange, check_fast-InRange, InRange,
}

-- A call of the optimizer, with what it takes from the system.
pub data PerfCall : Type 0 where
  init : PerfHost → PerfCall
  cleanup : PerfHost → PerfCall
  get_cached : ℕ → ℕ → PerfCall
  update_cached : ℕ → ℕ → ResourceUsage → PerfCall
  invalidate : ℕ → PerfCall
  clear : PerfCall
  prefetch : ℕ → ℕ → PerfCall
  batch_update : PerfHost → ℕ → Option ResourceUsage → PerfCall
  flush : PerfHost → PerfCall
  set_cache_ttl : ℕ → PerfCall
  set_batch_interval : ℕ → PerfCall
  enable_cache : Bool → PerfCall
  enable_batching : Bool → PerfCall
  reset_stats : PerfHost → PerfCall
  adaptive_adjust : PerfCall
  turn : PerfHost → ℕ → PerfCall
  check_fast : PerfHost → ℕ → ℕ → ℕ → ℕ → ℕ → PerfCall

module _ (low high : ℕ → ℕ → Bool) where
  pub perf_step : PerfCall → PerfState → PerfState
  unfolding perf_optimizer_init perf_optimizer_cleanup perf_optimizer_invalidate_cache
      perf_optimizer_clear_cache perf_optimizer_prefetch_resources perf_optimizer_set_cache_ttl
      perf_optimizer_set_batch_interval perf_optimizer_enable_cache perf_optimizer_enable_batching
      perf_optimizer_reset_stats
  perf_step (init host) s = (perf_optimizer_init host s).1
  perf_step (cleanup host) s = perf_optimizer_cleanup host s
  perf_step (get_cached now pid) s = (perf_optimizer_get_cached_resources now pid s).1
  perf_step (update_cached now pid u) s = perf_optimizer_update_cached_resources now pid u s
  perf_step (invalidate pid) s = perf_optimizer_invalidate_cache pid s
  perf_step clear s = perf_optimizer_clear_cache s
  perf_step (prefetch now pid) s = perf_optimizer_prefetch_resources now pid s
  perf_step (batch_update host pid u) s = (perf_optimizer_batch_update_resource host pid u s).1
  perf_step (flush host) s = perf_optimizer_flush_batch_buffer host s
  perf_step (set_cache_ttl ttl) s = perf_optimizer_set_cache_ttl ttl s
  perf_step (set_batch_interval interval) s = perf_optimizer_set_batch_interval interval s
  perf_step (enable_cache b) s = perf_optimizer_enable_cache b s
  perf_step (enable_batching b) s = perf_optimizer_enable_batching b s
  perf_step (reset_stats host) s = perf_optimizer_reset_stats host s
  perf_step adaptive_adjust s = perf_optimizer_adaptive_adjust low high s
  perf_step (turn host counter) s = (flush_turn low high host (counter, s)).1
  perf_step (check_fast host pid resource_type current requested limit) s =
      (perf_optimizer_check_resource_fast host pid resource_type current requested limit s).1

  pub run_perf : List PerfCall → PerfState → PerfState
  run_perf [] s = s
  run_perf (c ∷ cs) s = run_perf cs (perf_step c s)

  perf_step-InRange : (c : PerfCall) (s : PerfState) → InRange s → InRange (perf_step c s)
  unfolding perf_step
  perf_step-InRange (init host) s r =
      (ground arith, ground arith, (omega arith, λ j k lo lt hi. absurd (omega arith)))
  perf_step-InRange (cleanup host) s r = flush-InRange host (record s { running = false }) r
  perf_step-InRange (get_cached now pid) s r =
      Same-InRange s (perf_optimizer_get_cached_resources now pid s).1 (get_cached-Same now pid s) r
  perf_step-InRange (update_cached now pid u) s r =
      Same-InRange s (perf_optimizer_update_cached_resources now pid u s)
        (update_cached-Same now pid u s) r
  perf_step-InRange (invalidate pid) s r = r
  perf_step-InRange clear s r = r
  perf_step-InRange (prefetch now pid) s r =
      Same-InRange s (perf_optimizer_prefetch_resources now pid s)
        (prefetched-Same now pid (shm_get_process_resources pid s.shm) s) r
  perf_step-InRange (batch_update host pid u) s r = batch_update-InRange host pid u s r
  perf_step-InRange (flush host) s r = flush-InRange host s r
  perf_step-InRange (set_cache_ttl ttl) s r = (ground arith, r.1, r.2)
  perf_step-InRange (set_batch_interval interval) s r = (r.0, ground arith, r.2)
  perf_step-InRange (enable_cache b) s r = r
  perf_step-InRange (enable_batching b) s r = r
  perf_step-InRange (reset_stats host) s r = r
  perf_step-InRange adaptive_adjust s r = adaptive_adjust-InRange low high s r
  perf_step-InRange (turn host counter) s r = flush_turn-InRange low high host counter s r
  perf_step-InRange (check_fast host pid resource_type current requested limit) s r =
      check_fast-InRange host pid resource_type current requested limit s r

  run_perf-InRange : (cs : List PerfCall) (s : PerfState) → InRange s → InRange (run_perf cs s)
  unfolding run_perf
  run_perf-InRange [] s r = r
  run_perf-InRange (c ∷ cs) s r = run_perf-InRange cs (perf_step c s) (perf_step-InRange c s r)

  -- From the start of the optimizer on, after any sequence of its calls and of turns of its thread:
  -- the time to live is between 10 and 10000 ms, the interval of the flushes between 10 and 1000 ms,
  -- and the buffer has at most 256 entries, each of another process.
  pub run_init-InRange :
      (cs : List PerfCall) (host : PerfHost) (s : PerfState) → InRange (run_perf (init host ∷ cs) s)
  unfolding run_perf perf_step
  run_init-InRange cs host s =
      run_perf-InRange cs (perf_optimizer_init host s).1
        (ground arith, ground arith, (omega arith, λ j k lo lt hi. absurd (omega arith)))
