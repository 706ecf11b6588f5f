-- ===== src/Tenant/Race/Quota.antt =====
-- src/shm/shared_memory_tenant.c: no update is lost, and as much is granted as there is room for.
use Prim.Native.Nat.{min}
use mtrdma_artifact.Common.{
  ℕ, ◌+◌, ◌-◌, ◌≤◌, ◌<◌, ◌≡◌, ◌≢◌, refl, Bool, true, false, arith, total, total-update, total-le,
  total-full, ◌==◌, Bool-cases, inl, inr, total-zero, ==-ne,
}
use mtrdma_artifact.Tenant.State.{TenantSharedMemory}
use mtrdma_artifact.Tenant.Usage.Quota.{Account}
use mtrdma_artifact.Tenant.Race.{
  Pc, locking, done, thread_step, System, start, advance, step, Reach, begin, onward,
}
use mtrdma_artifact.Tenant.Race.Exclusion.{
  inside, two_inside, IsLocked, Reach-IsLocked, advance-IsLocked,
}
use mtrdma_artifact.Tenant.Race.Account.{
  granted, granted-le, Fits, Fits-grown, inside-cases, step-Moved,
}

module _ (tenant_id quota used n : ℕ) where
  -- The count is what was used at first and what has been granted.
  pub record IsAccounted (s : System) : Type 0 where
    pub locked : IsLocked n s
    pub account : Account tenant_id quota (used + total granted n s.pcs) s.shm
    pub fits : (k : ℕ) → k < n → Fits quota (used + total granted n s.pcs) (s.pcs k)
    pub within : used + total granted n s.pcs ≤ quota

  -- Another thread than the one that moves: if the count changes, it is not inside.
  other-Fits :
      (s : System) (t k count' : ℕ)
      → t < n
      → k < n
      → t ≢ k
      → IsAccounted s
      → used + total granted n s.pcs ≤ count'
      → (inside (s.pcs t) ≡ 0 → count' ≡ used + total granted n s.pcs)
      → Fits quota count' (s.pcs k)
  other-Fits s t k count' lt lk ne inv grown same = elim (inside-cases (s.pcs t)) [
    | inl out ↦ rw (same out) (inv.fits k lk)
    | inr at_t ↦ elim (inside-cases (s.pcs k)) [
      | inl out ↦ Fits-grown quota _ count' (s.pcs k) out grown (inv.fits k lk)
      | inr at_k ↦ absurd (
          omega (
            arith,
            inv.locked.counts,
            inv.locked.at_most_one,
            at_t,
            at_k,
            two_inside n s.pcs t k lt lk ne,
          ))
    ]
  ]

  advance-IsAccounted :
      (now t : ℕ) (s : System)
      → quota < 2147483648
      → t < n
      → IsAccounted s
      → IsAccounted (advance tenant_id now t s)
  advance-IsAccounted now t s small lt inv =
      let s' = advance tenant_id now t s in
      let moved =
        step-Moved tenant_id quota now (s.pcs t) s.shm (used + total granted n s.pcs)
          (used + total granted n s'.pcs) small inv.within inv.account (inv.fits t lt)
          (let sum =
              total-update granted n s.pcs t (thread_step tenant_id now (s.pcs t) s.shm).0 lt in
            omega (arith, sum)) in
      record {
        locked = advance-IsLocked tenant_id n now t s lt inv.locked;
        account = moved.0;
        fits = λ k lk. elim (Bool-cases (t == k)) [
          | inl own ↦ rw own moved.1
          | inr ne ↦ rw ne (
              other-Fits s t k (used + total granted n s'.pcs) lt lk (==-ne t k ne) inv moved.3
                moved.4)
        ];
        within = moved.2;
      }

  Reach-IsAccounted :
      (d : TenantSharedMemory) {s : System}
      → quota < 2147483648
      → used ≤ quota
      → d.lock ≡ 0
      → Account tenant_id quota used d
      → Reach tenant_id n (start d) s
      → IsAccounted s
  unfolding granted
  Reach-IsAccounted d small room free a begin =
      let none_yet = total-zero granted n (λ t. locking) (λ t. refl) in
      record {
        locked = Reach-IsLocked tenant_id n d free begin;
        account =
            let e : used + total granted n (λ t. locking) ≡ used = omega (arith, none_yet) in
            rw e a;
        fits = λ k lk. tt;
        within = omega (arith, none_yet, room);
      }
  Reach-IsAccounted d small room free a (onward reached (step now t lt)) =
      advance-IsAccounted now t _ small lt (Reach-IsAccounted d small room free a reached)

  -- No update is lost: if the lock was free and the tenant active when the threads began, then in
  -- every state that they can reach, in any order of their steps, the count of queue pairs is the one
  -- at the beginning and one for each call that was granted, and it is within the quota.
  pub concurrent_count :
      (d : TenantSharedMemory) (s : System)
      → quota < 2147483648
      → used ≤ quota
      → d.lock ≡ 0
      → Account tenant_id quota used d
      → Reach tenant_id n (start d) s
      → ((s.shm.tenants tenant_id).usage.qp_count ≡ used + total granted n s.pcs)
        × (used + total granted n s.pcs ≤ quota)
  concurrent_count d s small room free a reached =
      let inv = Reach-IsAccounted d small room free a reached in (inv.account.count, inv.within)

abbrev pub is_done : Pc → Bool
is_done (done r) = true
is_done _ = false

-- A call that has returned was granted, or there is no room left.
done-full :
    (quota count : ℕ) (pc : Pc)
    → is_done pc ≡ true
    → granted pc ≡ 0
    → Fits quota count pc
    → quota ≤ count
unfolding granted
done-full quota count (done false) e z f = f
done-full quota count (done true) e z f = absurd (omega (arith, z))
done-full quota count _ e z f = absurd (ground (arith, e))

-- Calls that have all returned: as many of n threads' calls return true, in any order of their steps,
-- as there is room for in the quota, if the lock was free and the tenant active when they began.
pub concurrent_exact :
    (tenant_id quota used n : ℕ) (d : TenantSharedMemory) (s : System)
    → quota < 2147483648
    → used ≤ quota
    → d.lock ≡ 0
    → Account tenant_id quota used d
    → Reach tenant_id n (start d) s
    → ((k : ℕ) → k < n → is_done (s.pcs k) ≡ true)
    → total granted n s.pcs ≡ min n (quota - used)
concurrent_exact tenant_id quota used n d s small room free a reached all =
    let inv = Reach-IsAccounted tenant_id quota used n d small room free a reached in
    let most = total-le granted granted-le n s.pcs in
    elim (total-full granted granted-le n s.pcs) [
      | inl every ↦ omega (arith, every, inv.within)
      | inr (k, lk, refused) ↦
          omega (
            arith,
            done-full quota _ (s.pcs k) (all k lk) refused (inv.fits k lk),
            inv.within,
            most,
          )
    ]
