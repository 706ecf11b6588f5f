-- ===== src/Optimizer/Batch.antt =====
-- src/performance_optimizer.c: updates that are gathered in a buffer before they are written to the
-- shared object.
pub mod View
pub mod Buffer
pub mod Run
use mtrdma_artifact.Common.{
  ℕ, zero, suc, ◌+◌, ◌≤◌, ◌<◌, ◌≡◌, refl, Bool, true, false, not, Option, none, some, Status, ok,
  fail, arith, if◌then◌else◌, ltb, ◌==◌, add64, update, find_index,
}
use mtrdma_artifact.Shm.{ResourceUsage, Shm, shm_update_process_resources}
use mtrdma_artifact.Optimizer.{
  cache_bucket_count, BatchBuffer, PerfOptimizerStats, PerfState, PerfHost,
}
use mtrdma_artifact.Optimizer.Cache.{perf_optimizer_update_cached_resources}

-- The loop of the flush, from entry `i` on; the results are not looked at.
unfoldable pub write_pending : PerfHost → BatchBuffer → ℕ → ℕ → Shm → Shm
write_pending host b i zero shm = shm
write_pending host b i (suc left) shm =
    write_pending host b (i + 1) left
      (shm_update_process_resources host.stat (host.os i) (b.pids i) (some (b.pending_updates i))
        shm).1

unfoldable pub perf_optimizer_flush_batch_buffer : PerfHost → PerfState → PerfState
unfolding write_pending
perf_optimizer_flush_batch_buffer host s = if s.batch.count == 0 then s else record s {
  shm = write_pending host s.batch 0 s.batch.count s.shm;
  batch = record (s.batch) { count = 0; last_flush = host.now_ms };
  stats = record (s.stats) { batch_flushes = add64 s.stats.batch_flushes 1 };
}

-- The entry of the buffer at `i` becomes this one, and the buffer ends before `count`.
unfoldable pub put_pending : ℕ → ℕ → ResourceUsage → ℕ → PerfState → PerfState
put_pending i pid usage count s = record s {
  batch = record (s.batch) {
    pids = update s.batch.pids i pid;
    pending_updates = update s.batch.pending_updates i usage;
    count = count;
  };
}

-- Merge, append, or flush and start again, by the result of the search.
unfoldable pub buffer_update : PerfHost → Option ℕ → ℕ → ResourceUsage → PerfState → PerfState
unfolding put_pending perf_optimizer_flush_batch_buffer
buffer_update host (some i) pid usage s = record s {
  batch = record (s.batch) { pending_updates = update s.batch.pending_updates i usage };
}
buffer_update host none pid usage s =
    if ltb s.batch.count cache_bucket_count
    then put_pending s.batch.count pid usage (s.batch.count + 1) s
    else put_pending 0 pid usage 1 (perf_optimizer_flush_batch_buffer host s)

unfoldable pub count_batched : PerfState → PerfState
count_batched s = record s {
  stats = record (s.stats) { batched_updates = add64 s.stats.batched_updates 1 };
}

-- A null usage is `none`. The update that is not batched is the 256th call on the shared object.
unfoldable pub perf_optimizer_batch_update_resource :
    PerfHost → ℕ → Option ResourceUsage → PerfState → Status × PerfState
unfolding buffer_update count_batched
perf_optimizer_batch_update_resource host pid none s = (fail, s)
perf_optimizer_batch_update_resource host pid (some usage) s =
    let direct = shm_update_process_resources host.stat (host.os 256) pid (some usage) s.shm in
    if not s.batching_enabled then (direct.0, record s { shm = direct.1 }) else (
      ok,
      count_batched (
          perf_optimizer_update_cached_resources host.now_ms pid usage
            (buffer_update host (find_index s.batch.pids pid 0 s.batch.count) pid usage s)),
    )

-- From the join of the flushing thread on.
unfoldable pub perf_optimizer_cleanup : PerfHost → PerfState → PerfState
unfolding perf_optimizer_flush_batch_buffer
perf_optimizer_cleanup host s =
    perf_optimizer_flush_batch_buffer host (record s { running = false })
