-- ===== src/Optimizer/Batch/View.antt =====
-- src/performance_optimizer.c: what the buffered updates mean for a reader of the shared object.
use mtrdma_artifact.Common.{
  ℕ, zero, suc, ◌+◌, ◌≤◌, ◌<◌, ◌≡◌, ◌≢◌, refl, ◌∙◌, sym, ap, true, false, Option, none, some, ok,
  arith, update-eq, if◌then◌else◌, Bool-cases, inl, inr, ◌==◌, ==-eq, ==-ne, update, find_index,
  Found, index-Found, find_index-none, find_index-snoc, or_else,
}
use mtrdma_artifact.Shm.{
  ResourceUsage, Shm, shm_update_process_resources, shm_get_process_resources,
}
use mtrdma_artifact.Shm.Lookup.{get-update}
use mtrdma_artifact.Optimizer.{cache_bucket_count, BatchBuffer, PerfState, PerfHost}
use mtrdma_artifact.Optimizer.Batch.{write_pending, perf_optimizer_flush_batch_buffer, put_pending}

-- Every update of a flush from entry `i` on is answered with success.
unfoldable pub AllWritten : PerfHost → BatchBuffer → ℕ → ℕ → Shm → Type 0
AllWritten host b i zero shm = Unit {0}
AllWritten host b i (suc left) shm =
    let r =
      shm_update_process_resources host.stat (host.os i) (b.pids i) (some (b.pending_updates i))
        shm in
    (r.0 ≡ ok) × AllWritten host b (i + 1) left r.1

-- What is pending at the place that a search returned, and else `seen`.
abbrev pub pending_or : BatchBuffer → Option ℕ → Option ResourceUsage → Option ResourceUsage
pending_or b none seen = seen
pending_or b (some i) seen = some (b.pending_updates i)

-- What a reader of a process would get if the buffer were empty already.
pub view : ℕ → PerfState → Option ResourceUsage
view q s =
    pending_or s.batch (find_index s.batch.pids q 0 s.batch.count)
      (shm_get_process_resources q s.shm)

-- No process has two entries in the buffer from `i` to `hi`.
abbrev pub Distinct : BatchBuffer → ℕ → ℕ → Type 0
Distinct b i hi = (j k : ℕ) → i ≤ j → j < k → k < hi → b.pids j ≢ b.pids k

write_pending-view :
    (host : PerfHost) (b : BatchBuffer) (i left : ℕ) (shm : Shm) (q : ℕ)
    → Distinct b i (i + left)
    → AllWritten host b i left shm
    → shm_get_process_resources q (write_pending host b i left shm)
      ≡ pending_or b (find_index b.pids q i left) (shm_get_process_resources q shm)
unfolding write_pending AllWritten find_index
write_pending-view host b i zero shm q d w = refl
write_pending-view host b i (suc left) shm q d w =
    let r =
      shm_update_process_resources host.stat (host.os i) (b.pids i) (some (b.pending_updates i))
        shm in
    let ih =
      write_pending-view host b (i + 1) left r.1 q
        (λ j k lo lt hi. d j k (omega arith) lt (omega arith)) w.1 in
    let here = get-update host.stat (host.os i) (b.pids i) (b.pending_updates i) shm q w.0 in
    elim (Bool-cases (b.pids i == q)) [
      | inl e ↦
          let last = find_index-none b.pids q (i + 1) left λ j lo hi.
            λ same. d i j (omega arith) (omega arith) (omega arith) (==-eq _ _ e ∙ sym same) in
          let own : (q == b.pids i) ≡ true = ground (arith, e) in
          rw e (ih ∙ rw (last, here, own) refl)
      | inr ne ↦
          let other : (q == b.pids i) ≡ false = ground (arith, ne) in
          rw ne (ih ∙ rw (here, other) refl)
    ]

-- The buffer has room for its entries, each of another process.
abbrev pub IsBuffer : BatchBuffer → Type 0
IsBuffer b = (b.count ≤ cache_bucket_count) × Distinct b 0 b.count

pub flush-view :
    (host : PerfHost) (s : PerfState) (q : ℕ)
    → IsBuffer s.batch
    → AllWritten host s.batch 0 s.batch.count s.shm
    → ((perf_optimizer_flush_batch_buffer host s).batch.count ≡ 0)
      × (shm_get_process_resources q (perf_optimizer_flush_batch_buffer host s).shm ≡ view q s)
unfolding perf_optimizer_flush_batch_buffer view find_index
flush-view host s q b w =
    let start : 0 + s.batch.count ≡ s.batch.count = omega arith in
    let written =
      write_pending-view host s.batch 0 s.batch.count s.shm q
        (λ j k lo lt hi. b.1 j k lo lt (omega (arith, hi, start))) w in
    elim (Bool-cases (s.batch.count == 0)) [
      | inl e ↦ rw (e, ==-eq _ _ e) (refl, refl)
      | inr ne ↦ rw ne (refl, written)
    ]

pub empty_view :
    (q : ℕ) (s : PerfState) → s.batch.count ≡ 0 → view q s ≡ shm_get_process_resources q s.shm
unfolding view find_index
empty_view q s empty = rw empty refl

-- What is pending for the entries before `n` is not changed at `n`.
appended :
    (b : BatchBuffer) (n : ℕ) (u : ResourceUsage) (q : ℕ) (r : Option ℕ)
    (seen : Option ResourceUsage)
    → Found b.pids q 0 n r
    → pending_or (record b { pending_updates = update b.pending_updates n u }) (or_else r none) seen
      ≡ pending_or b r seen
appended b n u q none seen f = refl
appended b n u q (some k) seen f = ground (arith, f.1)

-- One more entry for a process that has none.
pub append-view :
    (pid : ℕ) (u : ResourceUsage) (s : PerfState) (q : ℕ)
    → find_index s.batch.pids pid 0 s.batch.count ≡ none
    → view q (put_pending s.batch.count pid u (s.batch.count + 1) s)
      ≡ (if q == pid then some u else view q s)
unfolding view put_pending
append-view pid u s q absent =
    rw (find_index-snoc s.batch.pids s.batch.count pid q) (elim (Bool-cases (q == pid)) [
      | inl e ↦
          let here : (pid == q) ≡ true = ground (arith, e) in
          rw (e, here, ==-eq q pid e, absent)
            (ap some (update-eq s.batch.pending_updates s.batch.count u))
      | inr ne ↦
          let other : (pid == q) ≡ false = ground (arith, ne) in
          rw (ne, other)
            (appended s.batch s.batch.count u q _ _
              (index-Found s.batch.pids q s.batch.count _ refl))
    ])

merged :
    (b : BatchBuffer) (i pid : ℕ) (u : ResourceUsage) (q : ℕ) (r : Option ℕ)
    (seen : Option ResourceUsage)
    → q ≢ pid
    → Found b.pids q 0 b.count r
    → b.pids i ≡ pid
    → pending_or (record b { pending_updates = update b.pending_updates i u }) r seen
      ≡ pending_or b r seen
merged b i pid u q none seen ne f own = refl
merged b i pid u q (some k) seen ne f own = ground (arith, f.2)

-- A new usage for a process that has an entry.
pub merge-view :
    (i pid : ℕ) (u : ResourceUsage) (s : PerfState) (q : ℕ)
    → find_index s.batch.pids pid 0 s.batch.count ≡ some i
    → view q (record s {
      batch = record (s.batch) { pending_updates = update s.batch.pending_updates i u };
    })
      ≡ (if q == pid then some u else view q s)
unfolding view
merge-view i pid u s q found = elim (Bool-cases (q == pid)) [
  | inl e ↦ rw (e, ==-eq q pid e, found) (ap some (update-eq s.batch.pending_updates i u))
  | inr ne ↦ rw ne (
      merged s.batch i pid u q _ _ (==-ne q pid ne)
        (index-Found s.batch.pids q s.batch.count _ refl)
        (index-Found s.batch.pids pid s.batch.count (some i) found).2)
]

-- The view is one of the buffer and the shared object.
pub view-congr :
    (q : ℕ) (s s' : PerfState) → s'.batch ≡ s.batch → s'.shm ≡ s.shm → view q s' ≡ view q s
unfolding view
view-congr q s s' batch shm = rw (batch, shm) refl
