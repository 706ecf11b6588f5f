-- ===== src/Optimizer/Cache.antt =====
-- src/performance_optimizer.c: the direct mapped cache of the processes' usage.
pub mod History
use mtrdma_artifact.Common.{
  ℕ, ◌+◌, ◌*◌, ◌%◌, ◌≡◌, ◌≢◌, refl, Bool, true, false, not, ◌&&◌, ◌||◌, Option, none, some, arith,
  if◌then◌else◌, ltb, ◌==◌, u32_mod, add64, sub64, update,
}
use mtrdma_artifact.Shm.{ResourceUsage, shm_get_process_resources}
use mtrdma_artifact.Optimizer.{
  cache_bucket_count, CacheEntry, ResourceCache, PerfOptimizerStats, PerfState, PerfHost,
}

unfoldable pub hash_pid : ℕ → ℕ
hash_pid pid = ((pid * 2654435761) % u32_mod) % cache_bucket_count

abbrev pub set_entry : ℕ → CacheEntry → PerfState → PerfState
set_entry i e s = record s { cache = record (s.cache) { entries = update s.cache.entries i e } }

unfoldable pub count_miss : PerfState → PerfState
count_miss s = record s {
  stats = record (s.stats) { cache_misses = add64 s.stats.cache_misses 1 };
  cache = record (s.cache) { miss_count = add64 s.cache.miss_count 1 };
}

unfoldable pub count_hit : PerfState → PerfState
count_hit s = record s {
  stats = record (s.stats) { cache_hits = add64 s.stats.cache_hits 1 };
  cache = record (s.cache) { hit_count = add64 s.cache.hit_count 1 };
}

-- The entry is used: it is valid and of this process.
abbrev pub is_entry_of : ℕ → CacheEntry → Bool
is_entry_of pid e = e.valid && (e.pid == pid)

-- The result is what the out parameter receives; `none` is false.
unfoldable pub perf_optimizer_get_cached_resources :
    ℕ → ℕ → PerfState → Option ResourceUsage × PerfState
unfolding count_miss count_hit
perf_optimizer_get_cached_resources now pid s =
    let i = hash_pid pid in
    let e = s.cache.entries i in
    if not s.cache_enabled
    then (none, s)
    else if not (is_entry_of pid e)
    then (none, count_miss s)
    else if ltb s.cache.ttl_ms (sub64 now e.last_update)
    then (none, count_miss (set_entry i (record e { valid = false }) s))
    else (some e.usage, count_hit s)

unfoldable pub perf_optimizer_update_cached_resources :
    ℕ → ℕ → ResourceUsage → PerfState → PerfState
perf_optimizer_update_cached_resources now pid usage s =
    if not s.cache_enabled
    then s
    else set_entry (hash_pid pid)
        (record { pid = pid; usage = usage; last_update = now; valid = true }) s

unfoldable pub perf_optimizer_invalidate_cache : ℕ → PerfState → PerfState
perf_optimizer_invalidate_cache pid s =
    let i = hash_pid pid in
    let e = s.cache.entries i in
    set_entry i (if e.pid == pid then record e { valid = false } else e) s

unfoldable pub perf_optimizer_clear_cache : PerfState → PerfState
perf_optimizer_clear_cache s = record s {
  cache = record (s.cache) {
    entries = λ i.
        if ltb i cache_bucket_count
        then record (s.cache.entries i) { valid = false }
        else s.cache.entries i;
    hit_count = 0;
    miss_count = 0;
  };
}

unfoldable pub prefetched : ℕ → ℕ → Option ResourceUsage → PerfState → PerfState
unfolding perf_optimizer_update_cached_resources
prefetched now pid none s = s
prefetched now pid (some usage) s = perf_optimizer_update_cached_resources now pid usage s

unfoldable pub perf_optimizer_prefetch_resources : ℕ → ℕ → PerfState → PerfState
unfolding prefetched
perf_optimizer_prefetch_resources now pid s =
    prefetched now pid (shm_get_process_resources pid s.shm) s

-- A write to the cache is seen in the cache only.
pub update_cached-frame :
    (now pid : ℕ) (usage : ResourceUsage) (s : PerfState)
    → let s' = perf_optimizer_update_cached_resources now pid usage s in
      (s'.batch ≡ s.batch) × (s'.shm ≡ s.shm) × (s'.batching_enabled ≡ s.batching_enabled)
unfolding perf_optimizer_update_cached_resources
update_cached-frame now pid usage s = ground arith

-- A new entry for one process is what a reader of it gets while it is not too old; a reader of
-- another process of the same bucket misses, and any other reader gets what it got before.
pub get_cached-update_cached :
    (before now pid q : ℕ) (usage : ResourceUsage) (s : PerfState)
    → s.cache_enabled ≡ true
    → (perf_optimizer_get_cached_resources now q
        (perf_optimizer_update_cached_resources before pid usage s)).0
      ≡ (if q == pid
          then if ltb s.cache.ttl_ms (sub64 now before) then none else some usage
          else if hash_pid q == hash_pid pid
          then none
          else (perf_optimizer_get_cached_resources now q s).0)
unfolding perf_optimizer_get_cached_resources perf_optimizer_update_cached_resources
get_cached-update_cached before now pid q usage s on = ground arith
