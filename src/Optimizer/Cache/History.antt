-- ===== src/Optimizer/Cache/History.antt =====
-- src/performance_optimizer.c: the cache against the map of what was last written.
use mtrdma_artifact.Common.{
  ℕ, ◌≤◌, ◌<◌, ◌≡◌, refl, ◌∙◌, ap, true, Option, none, some, List, [], ◌∷◌, arith, sub64, update,
}
use mtrdma_artifact.Shm.{ResourceUsage}
use mtrdma_artifact.Optimizer.{cache_bucket_count, CacheEntry, PerfState, fresh_cache}
use mtrdma_artifact.Optimizer.Cache.{
  hash_pid, count_hit, count_miss, perf_optimizer_get_cached_resources,
  perf_optimizer_update_cached_resources, perf_optimizer_invalidate_cache,
  perf_optimizer_clear_cache,
}

-- The operations on the cache, with the time where they read it.
pub data CacheCall : Type 0 where
  gets : ℕ → ℕ → CacheCall
  puts : ℕ → ℕ → ResourceUsage → CacheCall
  invalidates : ℕ → CacheCall
  clears : CacheCall

unfoldable pub cache_step : CacheCall → PerfState → PerfState
cache_step (gets now pid) s = (perf_optimizer_get_cached_resources now pid s).1
cache_step (puts now pid usage) s = perf_optimizer_update_cached_resources now pid usage s
cache_step (invalidates pid) s = perf_optimizer_invalidate_cache pid s
cache_step clears s = perf_optimizer_clear_cache s

unfoldable pub run_cache : List CacheCall → PerfState → PerfState
run_cache [] s = s
run_cache (c ∷ cs) s = run_cache cs (cache_step c s)

-- What a cache without bound knows: the last usage written for each process, and when.
abbrev pub Known : Type 0
Known = ℕ → Option (ResourceUsage × ℕ)

abbrev pub know : CacheCall → Known → Known
know (gets now pid) m = m
know (puts now pid usage) m = update m pid (some (usage, now))
know (invalidates pid) m = update m pid none
know clears m = λ pid. none

abbrev pub known : List CacheCall → Known → Known
known [] m = m
known (c ∷ cs) m = known cs (know c m)

-- A valid entry stands in its process's bucket, and is what was last written for the process.
abbrev IsKnown : Known → ℕ → CacheEntry → Type 0
IsKnown m i e = e.valid ≡ true → (hash_pid e.pid ≡ i) × (m e.pid ≡ some (e.usage, e.last_update))

abbrev Refines : Known → PerfState → Type 0
Refines m s = (i : ℕ) → i < cache_bucket_count → IsKnown m i (s.cache.entries i)

hash_pid-lt : (pid : ℕ) → hash_pid pid < cache_bucket_count
unfolding hash_pid
hash_pid-lt pid = omega arith

get-Refines :
    (now pid : ℕ) (s : PerfState) (m : Known)
    → Refines m s
    → Refines m (perf_optimizer_get_cached_resources now pid s).1
unfolding perf_optimizer_get_cached_resources count_miss count_hit
get-Refines now pid s m r i lt = ground (arith, r i lt)

put-Refines :
    (now pid : ℕ) (usage : ResourceUsage) (s : PerfState) (m : Known)
    → s.cache_enabled ≡ true
    → Refines m s
    → Refines
        (update m pid (some (usage, now)))
        (perf_optimizer_update_cached_resources now pid usage s)
unfolding perf_optimizer_update_cached_resources
put-Refines now pid usage s m on r i lt = ground (arith, r i lt)

invalidate-Refines :
    (pid : ℕ) (s : PerfState) (m : Known)
    → Refines m s
    → Refines (update m pid none) (perf_optimizer_invalidate_cache pid s)
unfolding perf_optimizer_invalidate_cache
invalidate-Refines pid s m r i lt = ground (arith, r i lt)

clear-Refines : (s : PerfState) → Refines (λ pid. none) (perf_optimizer_clear_cache s)
unfolding perf_optimizer_clear_cache
clear-Refines s i lt = ground arith

step-settings :
    (c : CacheCall) (s : PerfState)
    → ((cache_step c s).cache_enabled ≡ s.cache_enabled)
      × ((cache_step c s).cache.ttl_ms ≡ s.cache.ttl_ms)
unfolding cache_step perf_optimizer_get_cached_resources perf_optimizer_update_cached_resources
    perf_optimizer_invalidate_cache perf_optimizer_clear_cache count_hit count_miss
step-settings (gets now pid) s = ground arith
step-settings (puts now pid usage) s = ground arith
step-settings (invalidates pid) s = ground arith
step-settings clears s = ground arith

step-Refines :
    (c : CacheCall) (s : PerfState) (m : Known)
    → s.cache_enabled ≡ true
    → Refines m s
    → Refines (know c m) (cache_step c s)
unfolding cache_step
step-Refines (gets now pid) s m on r = get-Refines now pid s m r
step-Refines (puts now pid usage) s m on r = put-Refines now pid usage s m on r
step-Refines (invalidates pid) s m on r = invalidate-Refines pid s m r
step-Refines clears s m on r = clear-Refines s

run-Refines :
    (cs : List CacheCall) (s : PerfState) (m : Known)
    → s.cache_enabled ≡ true
    → Refines m s
    → Refines (known cs m) (run_cache cs s) × ((run_cache cs s).cache.ttl_ms ≡ s.cache.ttl_ms)
unfolding run_cache
run-Refines [] s m on r = (r, refl)
run-Refines (c ∷ cs) s m on r =
    let kept = step-settings c s in
    let (r', ttl) =
      run-Refines cs (cache_step c s) (know c m) (kept.0 ∙ on) (step-Refines c s m on r) in
    (r', ttl ∙ kept.1)

hit-IsKnown :
    (now q : ℕ) (usage : ResourceUsage) (s : PerfState) (m : Known)
    → Refines m s
    → (perf_optimizer_get_cached_resources now q s).0 ≡ some usage
    → (before : ℕ) × (m q ≡ some (usage, before)) × (sub64 now before ≤ s.cache.ttl_ms)
unfolding perf_optimizer_get_cached_resources
hit-IsKnown now q usage s m r hit = (
  (s.cache.entries (hash_pid q)).last_update,
  ground (arith, r (hash_pid q) (hash_pid-lt q)),
  ground arith,
)

-- With the cache enabled, after any sequence of reads, writes, invalidations and clearings of a fresh
-- cache: a hit returns the usage that was last written for the process and neither invalidated nor
-- cleared since, and it was written no longer ago than the time to live.
pub hit-known :
    (cs : List CacheCall) (s : PerfState) (now q : ℕ) (usage : ResourceUsage)
    → s.cache_enabled ≡ true
    → s.cache ≡ fresh_cache
    → (perf_optimizer_get_cached_resources now q (run_cache cs s)).0 ≡ some usage
    → (before : ℕ) × (known cs (λ pid. none) q ≡ some (usage, before))
      × (sub64 now before ≤ fresh_cache.ttl_ms)
hit-known cs s now q usage on fresh hit =
    let (r, ttl) =
      run-Refines cs s (λ pid. none) on
        (λ i lt valid. let empty = ap (λ c. (c.entries i).valid) fresh in cc) in
    let (before, e, young) =
      hit-IsKnown now q usage (run_cache cs s) (known cs (λ pid. none)) r hit in
    (before, e, omega (arith, young, ttl, ap (λ c. c.ttl_ms) fresh))
