-- ===== src/Optimizer/Batch/Buffer.antt =====
-- src/performance_optimizer.c: what an update of the buffer means for a reader.
use mtrdma_artifact.Common.{
  ℕ, ◌+◌, ◌<◌, ◌≡◌, refl, ◌∙◌, sym, ap, Bool, true, false, Option, none, some, arith, if◌then◌else◌,
  Bool-cases, inl, inr, ltb, ◌==◌, find_index, index-Found,
}
use mtrdma_artifact.Shm.{ResourceUsage, shm_get_process_resources}
use mtrdma_artifact.Optimizer.{cache_bucket_count, PerfState, PerfHost}
use mtrdma_artifact.Optimizer.Batch.{perf_optimizer_flush_batch_buffer, put_pending, buffer_update}
use mtrdma_artifact.Optimizer.Batch.View.{
  AllWritten, view, IsBuffer, flush-view, empty_view, append-view, merge-view,
}

-- The buffer is full and has no entry for the process: the update flushes it.
abbrev pub overflows : Option ℕ → PerfState → Bool
overflows (some i) s = false
overflows none s = s.batch.count == cache_bucket_count

pub append-IsBuffer :
    (pid : ℕ) (u : ResourceUsage) (s : PerfState)
    → find_index s.batch.pids pid 0 s.batch.count ≡ none
    → s.batch.count < cache_bucket_count
    → IsBuffer s.batch
    → IsBuffer (put_pending s.batch.count pid u (s.batch.count + 1) s).batch
unfolding put_pending
append-IsBuffer pid u s absent room b = (
  omega arith,
  λ j k lo lt hi.
      ground (arith, b.1 j k lo lt, index-Found s.batch.pids pid s.batch.count none absent j lo),
)

pub flush-IsBuffer :
    (host : PerfHost) (s : PerfState)
    → IsBuffer s.batch
    → IsBuffer (perf_optimizer_flush_batch_buffer host s).batch
unfolding perf_optimizer_flush_batch_buffer
flush-IsBuffer host s b = elim (Bool-cases (s.batch.count == 0)) [
  | inl e ↦ rw e b
  | inr ne ↦ rw ne (omega arith, λ j k lo lt hi. absurd (omega arith))
]

-- The first entry of an empty buffer.
pub restart-view :
    (pid : ℕ) (u : ResourceUsage) (s : PerfState)
    → s.batch.count ≡ 0
    → IsBuffer (put_pending 0 pid u 1 s).batch
      × ((q : ℕ)
          → view q (put_pending 0 pid u 1 s)
            ≡ (if q == pid then some u else shm_get_process_resources q s.shm))
unfolding put_pending find_index
restart-view pid u s empty =
    let none_there : find_index s.batch.pids pid 0 s.batch.count ≡ none = rw empty refl in
    (
      (omega arith, λ j k lo lt hi. absurd (omega arith)),
      λ q.
          ap (λ n. view q (put_pending n pid u (n + 1) s)) (sym empty)
          ∙ append-view pid u s q none_there
          ∙ rw (empty_view q s empty) refl,
    )

-- An update of the buffer keeps it one, and is an update of what readers will get.
pub buffer_update-view :
    (host : PerfHost) (r : Option ℕ) (pid : ℕ) (u : ResourceUsage) (s : PerfState)
    → find_index s.batch.pids pid 0 s.batch.count ≡ r
    → IsBuffer s.batch
    → (overflows r s ≡ true → AllWritten host s.batch 0 s.batch.count s.shm)
    → IsBuffer (buffer_update host r pid u s).batch
      × ((q : ℕ) → view q (buffer_update host r pid u s) ≡ (if q == pid then some u else view q s))
unfolding buffer_update
buffer_update-view host (some i) pid u s found b w = (b, λ q. merge-view i pid u s q found)
buffer_update-view host none pid u s found b w =
    elim (Bool-cases (ltb s.batch.count cache_bucket_count)) [
      | inl room ↦
          rw room (append-IsBuffer pid u s found (ground arith) b, λ q. append-view pid u s q found)
      | inr full ↦
          let flushed = perf_optimizer_flush_batch_buffer host s in
          let written = w (ground arith) in
          let seen : (q : ℕ)
              → (flushed.batch.count ≡ 0) × (shm_get_process_resources q flushed.shm ≡ view q s) =
            λ q. flush-view host s q b written in
          let (fresh, seen_then) = restart-view pid u flushed (seen 0).0 in
          rw full (fresh, λ q. seen_then q ∙ rw (seen q).1 refl)
    ]
