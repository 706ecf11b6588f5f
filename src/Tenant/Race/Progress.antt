-- ===== src/Tenant/Race/Progress.antt =====
-- src/shm/shared_memory_tenant.c: threads that allocate at once do not block each other for good.
use mtrdma_artifact.Common.{
  zero, suc, ℕ, ◌≤◌, ◌<◌, ◌≡◌, refl, true, arith, total, total-update, le-total, total-some, ◌==◌,
  Bool-cases, inl, inr, ==-eq, ==-ne,
}
use mtrdma_artifact.Tenant.State.{TenantSharedMemory}
use mtrdma_artifact.Tenant.Race.{
  Pc, locking, spinning, entered, clamping, comparing, incrementing, storing, counting, stamping,
  unlocking, versioning, bumping, dating, done, thread_step, System, start, advance, step, Reach,
  begin, onward,
}
use mtrdma_artifact.Tenant.Race.Exclusion.{inside, IsLocked, Reach-IsLocked, advance-IsLocked}
use mtrdma_artifact.Tenant.Race.Quota.{is_done}

-- How many steps a call has left at most, when it finds the lock free.
remaining : Pc → ℕ
remaining spinning = 13
remaining locking = 12
remaining entered = 11
remaining clamping = 10
remaining comparing = 9
remaining incrementing = 8
remaining (storing n) = 7
remaining counting = 6
remaining stamping = 5
remaining (unlocking r) = 4
remaining (versioning r) = 3
remaining (bumping r v) = 2
remaining (dating r) = 1
remaining (done r) = 0

module _ (tenant_id : ℕ) where
  -- A step of a call that has not returned is one less where the thread is inside or the lock free.
  step-remaining :
      (now : ℕ) (pc : Pc) (d : TenantSharedMemory)
      → 1 ≤ remaining pc
      → d.lock ≤ inside pc
      → remaining (thread_step tenant_id now pc d).0 < remaining pc
  unfolding thread_step inside remaining
  step-remaining now locking d left free = ground arith
  step-remaining now spinning d left free = ground arith
  step-remaining now entered d left free = ground arith
  step-remaining now clamping d left free = ground arith
  step-remaining now comparing d left free = ground arith
  step-remaining now incrementing d left free = ground arith
  step-remaining now (storing n) d left free = ground arith
  step-remaining now counting d left free = ground arith
  step-remaining now stamping d left free = ground arith
  step-remaining now (unlocking r) d left free = ground arith
  step-remaining now (versioning r) d left free = ground arith
  step-remaining now (bumping r v) d left free = ground arith
  step-remaining now (dating r) d left free = ground arith
  step-remaining now (done r) d left free = absurd (omega (arith, left))

  inside-remaining : (pc : Pc) → 1 ≤ inside pc → 1 ≤ remaining pc
  unfolding inside remaining
  inside-remaining locking h = absurd (omega (arith, h))
  inside-remaining spinning h = absurd (omega (arith, h))
  inside-remaining entered h = omega arith
  inside-remaining clamping h = omega arith
  inside-remaining comparing h = omega arith
  inside-remaining incrementing h = omega arith
  inside-remaining (storing n) h = omega arith
  inside-remaining counting h = omega arith
  inside-remaining stamping h = omega arith
  inside-remaining (unlocking r) h = omega arith
  inside-remaining (versioning r) h = absurd (omega (arith, h))
  inside-remaining (bumping r v) h = absurd (omega (arith, h))
  inside-remaining (dating r) h = absurd (omega (arith, h))
  inside-remaining (done r) h = absurd (omega (arith, h))

  -- While a call has steps left, a thread can make one that is really one less: the thread inside,
  -- or any of them if there is none.
  can_advance :
      (n : ℕ) (s : System)
      → IsLocked n s
      → 1 ≤ total remaining n s.pcs
      → (t : ℕ) × (t < n)
        × ((now : ℕ) → total remaining n (advance tenant_id now t s).pcs < total remaining n s.pcs)
  can_advance n s inv left = elim (total-some inside n s.pcs) [
    | inl outside ↦ elim (total-some remaining n s.pcs) [
      | inl over ↦ absurd (omega (arith, over, left))
      | inr (t, lt, more) ↦ (t, lt, λ now. lower now t lt more (omega (arith, outside, inv.counts)))
    ]
    | inr (t, lt, here) ↦ (
      t,
      lt,
      λ now.
          lower now t lt (inside-remaining (s.pcs t) here) (omega (arith, here, inv.at_most_one)),
    )
  ]
    where
      lower :
          (now t : ℕ)
          → t < n
          → 1 ≤ remaining (s.pcs t)
          → s.shm.lock ≤ inside (s.pcs t)
          → total remaining n (advance tenant_id now t s).pcs < total remaining n s.pcs
      lower now t lt more free =
          let moved = thread_step tenant_id now (s.pcs t) s.shm in
          omega (
            arith,
            step-remaining now (s.pcs t) s.shm more free,
            total-update remaining n s.pcs t moved.0 lt,
          )

  finish :
      (fuel n : ℕ) (first s : System)
      → total remaining n s.pcs ≤ fuel
      → IsLocked n s
      → Reach tenant_id n first s
      → (s' : System) × Reach tenant_id n first s' × (total remaining n s'.pcs ≡ 0)
  finish zero n first s le inv reached = (s, reached, omega (arith, le))
  finish (suc fuel) n first s le inv reached = elim (Bool-cases (total remaining n s.pcs == 0)) [
    | inl over ↦ (s, reached, ==-eq _ 0 over)
    | inr more ↦
        let (t, lt, less) = can_advance n s inv (omega (arith, ==-ne _ 0 more)) in
        finish fuel n first (advance tenant_id 0 t s) (omega (arith, less 0, le))
          (advance-IsLocked tenant_id n 0 t s lt inv) (onward reached (step 0 t lt))
  ]

  none-remaining : (pc : Pc) → remaining pc ≡ 0 → is_done pc ≡ true
  unfolding remaining
  none-remaining (done r) e = refl
  none-remaining _ e = absurd (ground (arith, e))

  -- No deadlock: if the lock was free when the threads began, then from every state that they can
  -- reach, in any order of their steps, they can go on to one in which every call has returned.
  pub can_return :
      (n : ℕ) (d : TenantSharedMemory) (s : System)
      → d.lock ≡ 0
      → Reach tenant_id n (start d) s
      → (s' : System) × Reach tenant_id n s s' × ((k : ℕ) → k < n → is_done (s'.pcs k) ≡ true)
  can_return n d s free reached =
      let inv = Reach-IsLocked tenant_id n d free reached in
      let (s', onwards, over) = finish (total remaining n s.pcs) n s s (omega arith) inv begin in
      (
        s',
        onwards,
        λ k lk. none-remaining (s'.pcs k) (omega (arith, over, le-total remaining n s'.pcs k lk)),
      )
