-- ===== src/Optimizer/Tests.antt =====
-- src/performance_optimizer.c: the theorems at concrete calls.
use mtrdma_artifact.Common.{
  ℕ, ◌≡◌, ◌≤◌, refl, true, false, none, some, List, [], ◌∷◌, arith, sub64, find_index, find_slot,
  inl,
}
use mtrdma_artifact.Shm.{
  ResourceUsage, zero_region, shm_get_process_resources, shm_update_process_resources, update_slot,
  shm_lock,
}
use mtrdma_artifact.Optimizer.{
  PerfState, PerfHost, fresh_cache, fresh_batch, zero_stats, perf_optimizer_enable_batching,
}
use mtrdma_artifact.Optimizer.Cache.{
  hash_pid, perf_optimizer_get_cached_resources, perf_optimizer_update_cached_resources,
}
use mtrdma_artifact.Optimizer.Cache.History.{
  CacheCall, gets, puts, cache_step, run_cache, known, hit-known,
}
use mtrdma_artifact.Optimizer.Batch.{
  write_pending, perf_optimizer_flush_batch_buffer, buffer_update, put_pending, count_batched,
  perf_optimizer_batch_update_resource,
}
use mtrdma_artifact.Optimizer.Batch.View.{AllWritten, view}
use mtrdma_artifact.Optimizer.Batch.Buffer.{overflows}
use mtrdma_artifact.Optimizer.Batch.Run.{
  BatchCall, updates, flushes, batch_step, run_batch, last_written, Written, Accepted, Along,
  flush-run_batch, batched-direct,
}
use mtrdma_artifact.Optimizer.Ranges.{InRange}
use mtrdma_artifact.Optimizer.Bounds.{
  PerfCall, init, batch_update, set_cache_ttl, turn, run_perf, run_init-InRange,
}

abbrev usage : ℕ → ResourceUsage
usage n = record { qp_count = n; mr_count = 1; memory_used = 4096 }

abbrev host : PerfHost
host = record {
  stat = λ pid. none;
  os = λ k. record { shm_open = true; ftruncate = true; mmap = true; fstat = true; time = λ t. t };
  now_ms = 1000;
  start_ns = 5;
  end_ns = 9;
  seconds = 1;
  thread_created = true;
}

abbrev started : PerfState
started = record {
  cache = fresh_cache;
  batch = fresh_batch;
  stats = zero_stats 1;
  running = true;
  cache_enabled = true;
  batching_enabled = true;
  shm = record { attached = true; region = zero_region };
}

-- A write, a read, a write of the same process and one of another.
abbrev cache_calls : List CacheCall
cache_calls =
    puts 1000 7 (usage 1) ∷ gets 1010 7 ∷ puts 1020 7 (usage 2) ∷ puts 1030 8 (usage 3) ∷ []

hit_7 :
    (perf_optimizer_get_cached_resources 1040 7 (run_cache cache_calls started)).0 ≡ some (usage 2)
unfolding run_cache cache_step perf_optimizer_get_cached_resources
    perf_optimizer_update_cached_resources hash_pid
hit_7 = refl

hit-known_example :
    (before : ℕ) × (known cache_calls (λ pid. none) 7 ≡ some (usage 2, before))
    × (sub64 1040 before ≤ fresh_cache.ttl_ms)
hit-known_example = hit-known cache_calls started 1040 7 (usage 2) refl refl hit_7

-- Two updates of one process, a flush, and one of another process.
abbrev batch_calls : List BatchCall
batch_calls =
    updates host 7 (usage 1)
    ∷ updates host 7 (usage 2)
    ∷ flushes host
    ∷ updates host 8 (usage 3)
    ∷ []

batch_calls-Written : Along Written batch_calls started
unfolding Along batch_step find_index overflows AllWritten perf_optimizer_batch_update_resource
    buffer_update put_pending count_batched perf_optimizer_update_cached_resources
    perf_optimizer_flush_batch_buffer shm_update_process_resources update_slot shm_lock find_slot
batch_calls-Written = (inl refl, (inl refl, ((refl, tt), (inl refl, tt))))

last_flush-Written : Written (flushes host) (run_batch batch_calls started)
unfolding run_batch batch_step find_index overflows AllWritten perf_optimizer_batch_update_resource
    buffer_update put_pending count_batched perf_optimizer_update_cached_resources
    perf_optimizer_flush_batch_buffer write_pending shm_update_process_resources update_slot
    shm_lock find_slot
last_flush-Written = (refl, tt)

-- One update and a flush.
abbrev short_calls : List BatchCall
short_calls = updates host 7 (usage 1) ∷ flushes host ∷ []

short_calls-Written : Along Written short_calls started
unfolding Along batch_step find_index overflows AllWritten perf_optimizer_batch_update_resource
    buffer_update put_pending count_batched perf_optimizer_update_cached_resources
    perf_optimizer_flush_batch_buffer shm_update_process_resources update_slot shm_lock find_slot
short_calls-Written = (inl refl, ((refl, tt), tt))

short_flush-Written : Written (flushes host) (run_batch short_calls started)
unfolding run_batch batch_step find_index overflows AllWritten perf_optimizer_batch_update_resource
    buffer_update put_pending count_batched perf_optimizer_update_cached_resources
    perf_optimizer_flush_batch_buffer write_pending shm_update_process_resources update_slot
    shm_lock find_slot
short_flush-Written = tt

direct-Accepted : Along Accepted short_calls (perf_optimizer_enable_batching false started)
unfolding Along batch_step perf_optimizer_enable_batching perf_optimizer_batch_update_resource
    perf_optimizer_flush_batch_buffer shm_update_process_resources update_slot shm_lock find_slot
direct-Accepted = (refl, (tt, tt))

flush-run_batch_example :
    shm_get_process_resources 7
      (perf_optimizer_flush_batch_buffer host (run_batch batch_calls started)).shm
    ≡ last_written batch_calls 7 (view 7 started)
flush-run_batch_example =
    flush-run_batch batch_calls started host 7 refl
      (omega arith, λ j k lo lt hi. absurd (omega arith)) batch_calls-Written last_flush-Written

batched-direct_example :
    shm_get_process_resources 7
      (perf_optimizer_flush_batch_buffer host (run_batch short_calls started)).shm
    ≡ shm_get_process_resources 7
        (run_batch short_calls (perf_optimizer_enable_batching false started)).shm
batched-direct_example =
    batched-direct short_calls started host 7 refl refl short_calls-Written short_flush-Written
      direct-Accepted

abbrev perf_calls : List PerfCall
perf_calls = set_cache_ttl 3 ∷ batch_update host 7 (some (usage 1)) ∷ turn host 99 ∷ []

run_init-InRange_example :
    InRange (run_perf (λ h n. false) (λ h n. true) (init host ∷ perf_calls) started)
run_init-InRange_example = run_init-InRange (λ h n. false) (λ h n. true) perf_calls host started
