-- ===== src/Optimizer/Ranges.antt =====
-- src/performance_optimizer.c: the ranges of the settings and of the buffer, call by call.
use mtrdma_artifact.Common.{
  ℕ, ◌+◌, ◌≤◌, ◌≡◌, refl, Bool, not, Option, none, some, arith, if◌then◌else◌, if_intro, leb,
  find_index, add64, Status,
}
use mtrdma_artifact.Shm.{ResourceUsage}
use mtrdma_artifact.Optimizer.{PerfState, PerfHost}
use mtrdma_artifact.Optimizer.Cache.{
  perf_optimizer_get_cached_resources, perf_optimizer_update_cached_resources, count_hit,
  count_miss, prefetched,
}
use mtrdma_artifact.Optimizer.Batch.{
  perf_optimizer_flush_batch_buffer, buffer_update, put_pending, count_batched,
  perf_optimizer_batch_update_resource,
}
use mtrdma_artifact.Optimizer.Batch.View.{IsBuffer}
use mtrdma_artifact.Optimizer.Batch.Buffer.{append-IsBuffer, flush-IsBuffer}
use mtrdma_artifact.Optimizer.Tuning.{
  perf_optimizer_adaptive_adjust, flush_turn, perf_optimizer_check_resource_fast,
}

-- The settings are in the ranges of their setters, and the buffer is one.
abbrev pub InRange : PerfState → Type 0
InRange s =
    ((10 ≤ s.cache.ttl_ms) × (s.cache.ttl_ms ≤ 10000))
    × ((10 ≤ s.batch.flush_interval_ms) × (s.batch.flush_interval_ms ≤ 1000))
    × IsBuffer s.batch

-- What `InRange` reads is the same.
abbrev Same : PerfState → PerfState → Type 0
Same s s' = (s'.cache.ttl_ms ≡ s.cache.ttl_ms) × (s'.batch ≡ s.batch)

pub Same-InRange : (s s' : PerfState) → Same s s' → InRange s → InRange s'
Same-InRange s s' (ttl, batch) r = rw (ttl, batch) r

pub get_cached-Same :
    (now pid : ℕ) (s : PerfState) → Same s (perf_optimizer_get_cached_resources now pid s).1
unfolding perf_optimizer_get_cached_resources count_hit count_miss
get_cached-Same now pid s = ground arith

pub update_cached-Same :
    (now pid : ℕ) (u : ResourceUsage) (s : PerfState)
    → Same s (perf_optimizer_update_cached_resources now pid u s)
unfolding perf_optimizer_update_cached_resources
update_cached-Same now pid u s = ground arith

pub prefetched-Same :
    (now pid : ℕ) (r : Option ResourceUsage) (s : PerfState) → Same s (prefetched now pid r s)
unfolding prefetched
prefetched-Same now pid none s = (refl, refl)
prefetched-Same now pid (some u) s = update_cached-Same now pid u s

-- The settings are the same, and the buffer is one.
kept :
    (s s' : PerfState)
    → s'.cache.ttl_ms ≡ s.cache.ttl_ms
    → s'.batch.flush_interval_ms ≡ s.batch.flush_interval_ms
    → IsBuffer s'.batch
    → InRange s
    → InRange s'
kept s s' ttl interval b r = (rw ttl r.0, rw interval r.1, b)

flush-settings :
    (host : PerfHost) (s : PerfState)
    → let s' = perf_optimizer_flush_batch_buffer host s in
      (s'.cache.ttl_ms ≡ s.cache.ttl_ms) × (s'.batch.flush_interval_ms ≡ s.batch.flush_interval_ms)
unfolding perf_optimizer_flush_batch_buffer
flush-settings host s = ground arith

pub flush-InRange :
    (host : PerfHost) (s : PerfState)
    → InRange s
    → InRange (perf_optimizer_flush_batch_buffer host s)
flush-InRange host s r =
    let (ttl, interval) = flush-settings host s in
    kept s (perf_optimizer_flush_batch_buffer host s) ttl interval (flush-IsBuffer host s r.2) r

pub buffer_update-InRange :
    (host : PerfHost) (found : Option ℕ) (pid : ℕ) (u : ResourceUsage) (s : PerfState)
    → find_index s.batch.pids pid 0 s.batch.count ≡ found
    → InRange s
    → InRange (buffer_update host found pid u s)
unfolding buffer_update put_pending
buffer_update-InRange host (some i) pid u s e r = r
buffer_update-InRange host none pid u s e r =
    if_intro InRange _ (λ room. (r.0, r.1, append-IsBuffer pid u s e (ground arith) r.2))
      (λ full.
        let (ttl, interval) = flush-settings host s in
        kept s (put_pending 0 pid u 1 (perf_optimizer_flush_batch_buffer host s)) ttl interval
          (omega arith, λ j k lo lt hi. absurd (omega arith)) r)

pub batch_update-InRange :
    (host : PerfHost) (pid : ℕ) (u : Option ResourceUsage) (s : PerfState)
    → InRange s
    → InRange (perf_optimizer_batch_update_resource host pid u s).1
unfolding perf_optimizer_batch_update_resource count_batched
batch_update-InRange host pid none s r = r
batch_update-InRange host pid (some u) s r =
    let found = find_index s.batch.pids pid 0 s.batch.count in
    let buffered = buffer_update host found pid u s in
    if_intro (λ (p : Status × PerfState). InRange p.1) _ (λ off. r)
      (λ on.
        Same-InRange buffered (perf_optimizer_update_cached_resources host.now_ms pid u buffered)
          (update_cached-Same host.now_ms pid u buffered)
          (buffer_update-InRange host found pid u s refl r))

adaptive_adjust-settings :
    (low high : ℕ → ℕ → Bool) (s : PerfState)
    → 10 ≤ s.cache.ttl_ms
    → s.cache.ttl_ms ≤ 10000
    → let s' = perf_optimizer_adaptive_adjust low high s in
      (10 ≤ s'.cache.ttl_ms) × (s'.cache.ttl_ms ≤ 10000) × (s'.batch ≡ s.batch)
unfolding perf_optimizer_adaptive_adjust
adaptive_adjust-settings low high s least most = ground arith

pub adaptive_adjust-InRange :
    (low high : ℕ → ℕ → Bool) (s : PerfState)
    → InRange s
    → InRange (perf_optimizer_adaptive_adjust low high s)
adaptive_adjust-InRange low high s r =
    let (least, most, batch) = adaptive_adjust-settings low high s r.0.0 r.0.1 in
    ((least, most), rw batch r.1, rw batch r.2)

pub flush_turn-InRange :
    (low high : ℕ → ℕ → Bool) (host : PerfHost) (counter : ℕ) (s : PerfState)
    → InRange s
    → InRange (flush_turn low high host (counter, s)).1
unfolding flush_turn
flush_turn-InRange low high host counter s r =
    let s' = if s.batching_enabled then perf_optimizer_flush_batch_buffer host s else s in
    let r' : InRange s' = if_intro InRange _ (λ _. flush-InRange host s r) (λ _. r) in
    if_intro (λ (p : ℕ × PerfState). InRange p.1) (not s.running) (λ _. r)
      λ _.
        if_intro (λ (p : ℕ × PerfState). InRange p.1) (leb 100 (counter + 1))
          (λ _. adaptive_adjust-InRange low high s' r') (λ _. r')

pub check_fast-InRange :
    (host : PerfHost) (pid resource_type current requested limit : ℕ) (s : PerfState)
    → InRange s
    → InRange
        (perf_optimizer_check_resource_fast host pid resource_type current requested limit s).1
unfolding perf_optimizer_check_resource_fast
check_fast-InRange host pid resource_type current requested limit s r =
    let counted = record s {
      stats = record (s.stats) { total_operations = add64 s.stats.total_operations 1 };
    } in
    Same-InRange counted (perf_optimizer_get_cached_resources host.now_ms pid counted).1
      (get_cached-Same host.now_ms pid counted) r
