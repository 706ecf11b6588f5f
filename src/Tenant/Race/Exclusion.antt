-- ===== src/Tenant/Race/Exclusion.antt =====
-- src/shm/shared_memory_tenant.c: at most one thread is in the critical section.
use mtrdma_artifact.Common.{
  ℕ, ◌+◌, ◌≤◌, ◌<◌, ◌≡◌, ◌≢◌, refl, arith, update, total, total-update, le-total, total-zero,
}
use mtrdma_artifact.Tenant.State.{TenantSharedMemory}
use mtrdma_artifact.Tenant.Race.{
  Pc, locking, spinning, entered, clamping, comparing, incrementing, storing, counting, stamping,
  unlocking, versioning, bumping, dating, done, thread_step, System, start, advance, step, Reach,
  begin, onward,
}

-- 1 from the test-and-set that took the lock to the release.
unfoldable pub inside : Pc → ℕ
inside locking = 0
inside spinning = 0
inside entered = 1
inside clamping = 1
inside comparing = 1
inside incrementing = 1
inside (storing n) = 1
inside counting = 1
inside stamping = 1
inside (unlocking r) = 1
inside (versioning r) = 0
inside (bumping r v) = 0
inside (dating r) = 0
inside (done r) = 0

-- Two entries count no more than the sum.
pub two_inside :
    (n : ℕ) (pcs : ℕ → Pc) (i j : ℕ)
    → i < n
    → j < n
    → i ≢ j
    → inside (pcs i) + inside (pcs j) ≤ total inside n pcs
unfolding inside
two_inside n pcs i j li lj ne =
    let without = update pcs i locking in
    let same : inside (without j) ≡ inside (pcs j) = ground (arith, ne) in
    omega (arith, same, total-update inside n pcs i locking li, le-total inside n without j lj)

-- The lock counts the threads inside.
pub record IsLocked (n : ℕ) (s : System) : Type 0 where
  pub counts : total inside n s.pcs ≡ s.shm.lock
  pub at_most_one : s.shm.lock ≤ 1

module _ (tenant_id : ℕ) where
  -- A step of a thread changes its place as it changes the lock.
  step-inside :
      (now : ℕ) (pc : Pc) (d : TenantSharedMemory)
      → inside pc ≤ d.lock
      → d.lock ≤ 1
      → let r = thread_step tenant_id now pc d in
        (inside r.0 + d.lock ≡ inside pc + r.1.lock) × (r.1.lock ≤ 1)
  unfolding thread_step inside
  step-inside now locking d own le = ground arith
  step-inside now spinning d own le = ground arith
  step-inside now entered d own le = ground arith
  step-inside now clamping d own le = ground arith
  step-inside now comparing d own le = ground arith
  step-inside now incrementing d own le = ground arith
  step-inside now (storing n) d own le = ground arith
  step-inside now counting d own le = ground arith
  step-inside now stamping d own le = ground arith
  step-inside now (unlocking r) d own le = ground arith
  step-inside now (versioning r) d own le = ground arith
  step-inside now (bumping r v) d own le = ground arith
  step-inside now (dating r) d own le = ground arith
  step-inside now (done r) d own le = ground arith

  pub advance-IsLocked :
      (n now t : ℕ) (s : System) → t < n → IsLocked n s → IsLocked n (advance tenant_id now t s)
  advance-IsLocked n now t s lt inv =
      let own = le-total inside n s.pcs t lt in
      let pc = s.pcs t in
      let (moved, one) =
        step-inside now pc s.shm (omega (arith, own, inv.counts)) inv.at_most_one in
      let sum = total-update inside n s.pcs t (thread_step tenant_id now pc s.shm).0 lt in
      record { counts = omega (arith, moved, sum, inv.counts); at_most_one = one }

  pub Reach-IsLocked :
      (n : ℕ) (d : TenantSharedMemory) {s : System}
      → d.lock ≡ 0
      → Reach tenant_id n (start d) s
      → IsLocked n s
  unfolding inside
  Reach-IsLocked n d free begin = record {
    counts = omega (arith, total-zero inside n (λ t. locking) (λ t. refl), free);
    at_most_one = omega (arith, free);
  }
  Reach-IsLocked n d free (onward reached (step now t lt)) =
      advance-IsLocked n now t _ lt (Reach-IsLocked n d free reached)

  -- If the lock was free when the threads began, then in every state that they can reach, in any
  -- order of their steps, of two different threads one at most is in the critical section.
  pub mutual_exclusion :
      (n : ℕ) (d : TenantSharedMemory) (s : System) (i j : ℕ)
      → d.lock ≡ 0
      → Reach tenant_id n (start d) s
      → i < n
      → j < n
      → i ≢ j
      → inside (s.pcs i) + inside (s.pcs j) ≤ 1
  mutual_exclusion n d s i j free reached li lj ne =
      let inv = Reach-IsLocked n d free reached in
      omega (arith, inv.counts, inv.at_most_one, two_inside n s.pcs i j li lj ne)
