-- ===== src/Tenant/Usage/Quota.antt =====
-- src/shm/shared_memory_tenant.c: how many queue pairs `tenant_try_allocate_qp` grants.
use Prim.Native.Nat.{min}
use mtrdma_artifact.Common.{
  ℕ, ◌+◌, ◌-◌, ◌≤◌, ◌<◌, ◌≡◌, ◌≢◌, true, false, inl, inr, List, [], ◌∷◌, Os, arith, if◌then◌else◌,
  Bool-cases, ltb, subst, ◌==◌, ==-eq, ==-ne, leb, ◌&&◌,
}
use mtrdma_artifact.Tenant.State.{
  max_tenants, is_active, TenantSharedMemory, TenantState, tenant_shm_unlock,
}
use mtrdma_artifact.Tenant.State.Invariant.{with_shm-attached}
use mtrdma_artifact.Tenant.Usage.{try_allocate_locked, tenant_try_allocate_qp}

-- The account of a tenant: `used` of at most `quota` queue pairs.
pub record Account (tenant_id quota used : ℕ) (d : TenantSharedMemory) : Type 0 where
  pub active : is_active (d.tenants tenant_id).status ≡ true
  pub limit : (d.tenants tenant_id).quota.max_qp_per_tenant ≡ quota
  pub count : (d.tenants tenant_id).usage.qp_count ≡ used

module _ (os : Os) (tenant_id quota used : ℕ) (d : TenantSharedMemory) where
  -- Room is left: one more is granted.
  grants :
      quota < 2147483648
      → used < quota
      → Account tenant_id quota used d
      → ((try_allocate_locked os tenant_id d).0 ≡ true)
        × Account tenant_id quota (used + 1) (try_allocate_locked os tenant_id d).1
  unfolding try_allocate_locked tenant_shm_unlock
  grants small room a = ground arith

  -- The quota is used up: nothing is granted, and the account stays.
  denies :
      used < 2147483648
      → quota ≤ used
      → Account tenant_id quota used d
      → ((try_allocate_locked os tenant_id d).0 ≡ false)
        × Account tenant_id quota used (try_allocate_locked os tenant_id d).1
  unfolding try_allocate_locked tenant_shm_unlock
  denies small full a = ground arith

  -- A call for another tenant does not touch the account.
  others :
      (other : ℕ)
      → other ≢ tenant_id
      → Account tenant_id quota used d
      → Account tenant_id quota used (try_allocate_locked os other d).1
  unfolding try_allocate_locked tenant_shm_unlock
  others other ne a = ground arith

-- In an attached process the call is its critical section.
try_allocate_lem :
    (os : Os) (tenant_id : ℕ) (s : TenantState)
    → s.attached ≡ true
    → tenant_id < max_tenants
    → tenant_try_allocate_qp os tenant_id s ≡ (
      (try_allocate_locked os tenant_id (record (s.shm) { lock = 1 })).0,
      record s { shm = (try_allocate_locked os tenant_id (record (s.shm) { lock = 1 })).1 },
    )
unfolding tenant_try_allocate_qp
try_allocate_lem os tenant_id s e lt =
    ground (arith, with_shm-attached os false (try_allocate_locked os tenant_id) s e)

out_of_range :
    (os : Os) (tenant_id : ℕ) (s : TenantState)
    → leb max_tenants tenant_id ≡ true
    → tenant_try_allocate_qp os tenant_id s ≡ (false, s)
unfolding tenant_try_allocate_qp
out_of_range os tenant_id s e = rw e

recount :
    {t quota n m : ℕ} {d : TenantSharedMemory} → n ≡ m → Account t quota n d → Account t quota m d
recount {t} {quota} {d = d} e a = subst (λ k. Account t quota k d) e a

relock :
    {t quota used : ℕ} {d : TenantSharedMemory}
    → Account t quota used d
    → Account t quota used (record d { lock = 1 })
relock a = record { active = a.active; limit = a.limit; count = a.count }

module _ (os : Os) (t quota used : ℕ) (s : TenantState) (on : s.attached ≡ true)
    (a : Account t quota used s.shm) where
  step_other :
      (k : ℕ)
      → k ≢ t
      → ((tenant_try_allocate_qp os k s).1.attached ≡ true)
        × Account t quota used (tenant_try_allocate_qp os k s).1.shm
  step_other k ne = elim (Bool-cases (leb max_tenants k)) [
    | inl out ↦ rw (out_of_range os k s out) (on, a)
    | inr inside ↦
        rw (try_allocate_lem os k s on (ground arith))
          (on, others os t quota used _ k ne (relock a))
  ]

  step_grant :
      t < max_tenants
      → quota < 2147483648
      → used < quota
      → ((tenant_try_allocate_qp os t s).0 ≡ true)
        × ((tenant_try_allocate_qp os t s).1.attached ≡ true)
        × Account t quota (used + 1) (tenant_try_allocate_qp os t s).1.shm
  step_grant lt small room =
      let g = grants os t quota used _ small room (relock a) in
      rw (try_allocate_lem os t s on lt) (g.0, on, g.1)

  step_deny :
      t < max_tenants
      → used < 2147483648
      → quota ≤ used
      → ((tenant_try_allocate_qp os t s).0 ≡ false)
        × ((tenant_try_allocate_qp os t s).1.attached ≡ true)
        × Account t quota used (tenant_try_allocate_qp os t s).1.shm
  step_deny lt small full =
      let g = denies os t quota used _ small full (relock a) in
      rw (try_allocate_lem os t s on lt) (g.0, on, g.1)

-- Calls of `tenant_try_allocate_qp` by attached processes, for tenants in any order.
pub after : List (ℕ × Os) → TenantState → TenantState
after [] s = s
after ((k, os) ∷ cs) s = after cs (tenant_try_allocate_qp os k s).1

-- How many of the calls for `t` return true.
pub granted : ℕ → List (ℕ × Os) → TenantState → ℕ
granted t [] s = 0
granted t ((k, os) ∷ cs) s =
    let (r, s') = tenant_try_allocate_qp os k s in
    (if (k == t) && r then 1 else 0) + granted t cs s'

-- How many of the calls are for `t`.
pub requests : ℕ → List (ℕ × Os) → ℕ
requests t [] = 0
requests t ((k, os) ∷ cs) = (if k == t then 1 else 0) + requests t cs

-- Exact enforcement of a quota below 2 ^ 31. From a state in which an active tenant has used `used`
-- of its quota, whatever calls are made for it and for other tenants and in whatever order, exactly
-- the smaller of the number of calls for it and of what is left of its quota are granted, and its
-- counter grows by exactly that number.
pub allocate_exact :
    (t quota used : ℕ) (cs : List (ℕ × Os)) (s : TenantState)
    → s.attached ≡ true
    → t < max_tenants
    → quota < 2147483648
    → used ≤ quota
    → Account t quota used s.shm
    → (granted t cs s ≡ min (requests t cs) (quota - used))
      × Account t quota (used + min (requests t cs) (quota - used)) (after cs s).shm
unfolding granted requests after
allocate_exact t quota used [] s on lt small le a = (omega arith, recount (omega arith) a)
allocate_exact t quota used ((k, os) ∷ cs) s on lt small le a = elim (Bool-cases (k == t)) [
  | inr ne ↦
      let (on', a') = step_other os t quota used s on a k (==-ne k t ne) in
      let ih =
        allocate_exact t quota used cs (tenant_try_allocate_qp os k s).1 on' lt small le a' in
      rw ne (omega (arith, ih.0), recount (omega arith) ih.1)
  | inl self ↦
      rw (self, ==-eq k t self)
        (elim (Bool-cases (ltb used quota)) [
          | inl room ↦
              let below : used < quota = ground arith in
              let (granted_one, on', a') = step_grant os t quota used s on a lt small below in
              let ih = allocate_exact t quota (used + 1) cs _ on' lt small (omega arith) a' in
              rw granted_one (omega (arith, ih.0), recount (omega arith) ih.1)
          | inr full ↦
              let above : quota ≤ used = ground arith in
              let (denied, on', a') = step_deny os t quota used s on a lt (omega arith) above in
              let ih = allocate_exact t quota used cs _ on' lt small le a' in
              rw denied (omega (arith, ih.0), recount (omega arith) ih.1)
        ])
]
