-- ===== src/Optimizer/Batch/Run.antt =====
-- src/performance_optimizer.c: any sequence of batched updates against the same updates made directly.
use mtrdma_artifact.Common.{
  ℕ, ◌≡◌, refl, ◌∙◌, sym, ap, true, false, Option, none, some, List, [], ◌∷◌, subst, ok, arith, ◌⊎◌,
  if◌then◌else◌, inl, inr, ◌==◌, find_index,
}
use mtrdma_artifact.Shm.{ResourceUsage, shm_update_process_resources, shm_get_process_resources}
use mtrdma_artifact.Shm.Lookup.{get-update}
use mtrdma_artifact.Optimizer.{PerfState, PerfHost, perf_optimizer_enable_batching}
use mtrdma_artifact.Optimizer.Cache.{perf_optimizer_update_cached_resources, update_cached-frame}
use mtrdma_artifact.Optimizer.Batch.{
  perf_optimizer_flush_batch_buffer, put_pending, buffer_update, count_batched,
  perf_optimizer_batch_update_resource,
}
use mtrdma_artifact.Optimizer.Batch.View.{
  AllWritten, view, IsBuffer, flush-view, empty_view, view-congr,
}
use mtrdma_artifact.Optimizer.Batch.Buffer.{overflows, flush-IsBuffer, buffer_update-view}

-- The calls on the buffer; the flushing thread and the other threads hold the lock of the buffer.
pub data BatchCall : Type 0 where
  updates : PerfHost → ℕ → ResourceUsage → BatchCall
  flushes : PerfHost → BatchCall

unfoldable pub batch_step : BatchCall → PerfState → PerfState
unfolding perf_optimizer_batch_update_resource perf_optimizer_flush_batch_buffer
batch_step (updates host pid u) s = (perf_optimizer_batch_update_resource host pid (some u) s).1
batch_step (flushes host) s = perf_optimizer_flush_batch_buffer host s

unfoldable pub run_batch : List BatchCall → PerfState → PerfState
unfolding batch_step
run_batch [] s = s
run_batch (c ∷ cs) s = run_batch cs (batch_step c s)

-- What a map from processes to usages becomes by the calls.
abbrev pub last_written : List BatchCall → ℕ → Option ResourceUsage → Option ResourceUsage
last_written [] q seen = seen
last_written (updates host pid u ∷ cs) q seen =
    last_written cs q (if q == pid then some u else seen)
last_written (flushes host ∷ cs) q seen = last_written cs q seen

-- If the call flushes, then every update of the shared object in it succeeds.
abbrev pub Written : BatchCall → PerfState → Type 0
Written (updates host pid u) s =
    (overflows (find_index s.batch.pids pid 0 s.batch.count) s ≡ false)
    ⊎ AllWritten host s.batch 0 s.batch.count s.shm
Written (flushes host) s = AllWritten host s.batch 0 s.batch.count s.shm

-- The call reports success.
abbrev pub Accepted : BatchCall → PerfState → Type 0
Accepted (updates host pid u) s = (perf_optimizer_batch_update_resource host pid (some u) s).0 ≡ ok
Accepted (flushes host) s = Unit {0}

-- `P` holds of every call in the state that it is made in.
unfoldable pub Along : (BatchCall → PerfState → Type 0) → List BatchCall → PerfState → Type 0
Along P [] s = Unit {0}
Along P (c ∷ cs) s = P c s × Along P cs (batch_step c s)

buffer_update-enabled :
    (host : PerfHost) (r : Option ℕ) (pid : ℕ) (u : ResourceUsage) (s : PerfState)
    → (buffer_update host r pid u s).batching_enabled ≡ s.batching_enabled
unfolding buffer_update put_pending perf_optimizer_flush_batch_buffer
buffer_update-enabled host (some i) pid u s = refl
buffer_update-enabled host none pid u s = ground arith

-- The call with batching enabled, and without.
batched_step :
    (host : PerfHost) (pid : ℕ) (u : ResourceUsage) (s : PerfState)
    → s.batching_enabled ≡ true
    → batch_step (updates host pid u) s
      ≡ count_batched (
          perf_optimizer_update_cached_resources host.now_ms pid u
            (buffer_update host (find_index s.batch.pids pid 0 s.batch.count) pid u s))
unfolding batch_step perf_optimizer_batch_update_resource
batched_step host pid u s on = ground arith

direct_step :
    (host : PerfHost) (pid : ℕ) (u : ResourceUsage) (s : PerfState)
    → s.batching_enabled ≡ false
    → let direct = shm_update_process_resources host.stat (host.os 256) pid (some u) s.shm in
      perf_optimizer_batch_update_resource host pid (some u) s
      ≡ (direct.0, record s { shm = direct.1 })
unfolding perf_optimizer_batch_update_resource
direct_step host pid u s off = ground arith

batched_update-view :
    (host : PerfHost) (pid : ℕ) (u : ResourceUsage) (s : PerfState)
    → s.batching_enabled ≡ true
    → IsBuffer s.batch
    → Written (updates host pid u) s
    → let s' = batch_step (updates host pid u) s in
      (s'.batching_enabled ≡ true)
      × IsBuffer s'.batch
      × ((q : ℕ) → view q s' ≡ (if q == pid then some u else view q s))
unfolding count_batched
batched_update-view host pid u s on b w =
    let found = find_index s.batch.pids pid 0 s.batch.count in
    let buffered = buffer_update host found pid u s in
    let (kept, seen) =
      buffer_update-view host found pid u s refl b
        (λ full. elim w [ inl fits ↦ absurd (ground (arith, full, fits)) | inr all ↦ all ]) in
    let (batch, shm, enabled) = update_cached-frame host.now_ms pid u buffered in
    rw (batched_step host pid u s on) (
      enabled ∙ buffer_update-enabled host found pid u s ∙ on,
      subst IsBuffer (sym batch) kept,
      λ q.
          view-congr q buffered
            (count_batched (perf_optimizer_update_cached_resources host.now_ms pid u buffered))
            batch shm
          ∙ seen q,
    )

flush-enabled :
    (host : PerfHost) (s : PerfState)
    → (perf_optimizer_flush_batch_buffer host s).batching_enabled ≡ s.batching_enabled
unfolding perf_optimizer_flush_batch_buffer
flush-enabled host s = ground arith

run_batch-view :
    (cs : List BatchCall) (s : PerfState)
    → s.batching_enabled ≡ true
    → IsBuffer s.batch
    → Along Written cs s
    → IsBuffer (run_batch cs s).batch
      × ((q : ℕ) → view q (run_batch cs s) ≡ last_written cs q (view q s))
unfolding run_batch Along
run_batch-view [] s on b w = (b, λ q. refl)
run_batch-view (updates host pid u ∷ cs) s on b w =
    let (on', b', seen) = batched_update-view host pid u s on b w.0 in
    let (b'', seen') = run_batch-view cs _ on' b' w.1 in
    (b'', λ q. seen' q ∙ ap (last_written cs q) (seen q))
run_batch-view (flushes host ∷ cs) s on b w =
    let flushed = perf_optimizer_flush_batch_buffer host s in
    let seen : (q : ℕ) → view q flushed ≡ view q s =
      λ q. let (empty, read) = flush-view host s q b w.0 in empty_view q flushed empty ∙ read in
    let (b'', seen') =
      run_batch-view cs flushed (flush-enabled host s ∙ on) (flush-IsBuffer host s b) w.1 in
    (b'', λ q. seen' q ∙ ap (last_written cs q) (seen q))

-- With batching enabled: after any sequence of updates and flushes and a last flush, a reader of a
-- process gets the usage of the last of these updates for it, and with none what was pending for it
-- at the start, or else what the shared object had. The updates of the shared object in the flushes
-- have to succeed.
pub flush-run_batch :
    (cs : List BatchCall) (s : PerfState) (host : PerfHost) (q : ℕ)
    → s.batching_enabled ≡ true
    → IsBuffer s.batch
    → Along Written cs s
    → Written (flushes host) (run_batch cs s)
    → shm_get_process_resources q (perf_optimizer_flush_batch_buffer host (run_batch cs s)).shm
      ≡ last_written cs q (view q s)
flush-run_batch cs s host q on b w last =
    let (b', seen) = run_batch-view cs s on b w in
    (flush-view host (run_batch cs s) q b' last).1 ∙ seen q

direct_update-view :
    (host : PerfHost) (pid : ℕ) (u : ResourceUsage) (s : PerfState) (q : ℕ)
    → s.batching_enabled ≡ false
    → Accepted (updates host pid u) s
    → let s' = batch_step (updates host pid u) s in
      (s'.batching_enabled ≡ false)
      × (s'.batch ≡ s.batch)
      × (shm_get_process_resources q s'.shm
          ≡ (if q == pid then some u else shm_get_process_resources q s.shm))
unfolding batch_step
direct_update-view host pid u s q off accepted =
    let step = direct_step host pid u s off in
    rw (batch_step, step)
      (
        off,
        refl,
        get-update host.stat (host.os 256) pid u s.shm q (sym (ap (λ p. p.0) step) ∙ accepted),
      )

flush-empty :
    (host : PerfHost) (s : PerfState)
    → s.batch.count ≡ 0
    → perf_optimizer_flush_batch_buffer host s ≡ s
unfolding perf_optimizer_flush_batch_buffer
flush-empty host s empty = ground arith

run_direct-view :
    (cs : List BatchCall) (s : PerfState) (q : ℕ)
    → s.batching_enabled ≡ false
    → s.batch.count ≡ 0
    → Along Accepted cs s
    → shm_get_process_resources q (run_batch cs s).shm
      ≡ last_written cs q (shm_get_process_resources q s.shm)
unfolding run_batch Along
run_direct-view [] s q off empty w = refl
run_direct-view (updates host pid u ∷ cs) s q off empty w =
    let (off', same, seen) = direct_update-view host pid u s q off w.0 in
    run_direct-view cs _ q off' (ap (λ b. b.count) same ∙ empty) w.1 ∙ ap (last_written cs q) seen
run_direct-view (flushes host ∷ cs) s q off empty w =
    let same = flush-empty host s empty in
    rw (run_batch, batch_step, same)
      (run_direct-view cs s q off empty (subst (Along Accepted cs) same w.1))

-- The buffer is invisible: the same sequence of updates and flushes with batching enabled, from an
-- empty buffer and followed by a flush, and with batching disabled leave shared objects that give
-- every reader the same. In the first the updates of the shared object in the flushes have to succeed,
-- in the second each update.
pub batched-direct :
    (cs : List BatchCall) (s : PerfState) (host : PerfHost) (q : ℕ)
    → s.batching_enabled ≡ true
    → s.batch.count ≡ 0
    → Along Written cs s
    → Written (flushes host) (run_batch cs s)
    → Along Accepted cs (perf_optimizer_enable_batching false s)
    → shm_get_process_resources q (perf_optimizer_flush_batch_buffer host (run_batch cs s)).shm
      ≡ shm_get_process_resources q (run_batch cs (perf_optimizer_enable_batching false s)).shm
unfolding perf_optimizer_enable_batching
batched-direct cs s host q on empty w last accepted =
    let b : IsBuffer s.batch =
      (omega (arith, empty), λ j k lo lt hi. absurd (omega (arith, empty))) in
    let direct =
      run_direct-view cs (perf_optimizer_enable_batching false s) q refl empty accepted in
    flush-run_batch cs s host q on b w last
    ∙ ap (last_written cs q) (empty_view q s empty)
    ∙ sym direct
