-- ===== src/Tenant/Usage/Invariant.antt =====
-- src/shm/shared_memory_tenant.c: the accounting operations keep the object valid.
use mtrdma_artifact.Common.{ℕ, refl, not, inl, inr, Option, none, some, Os, Bool-cases, leb}
use mtrdma_artifact.Tenant.State.{
  max_tenants, is_active, TenantUsage, TenantSharedMemory, TenantState,
}
use mtrdma_artifact.Tenant.State.Invariant.{
  IsConsistent, IsValid, unlock-IsValid, set_tenant-IsConsistent, with_shm-IsValid,
}
use mtrdma_artifact.Tenant.Usage.{
  update_usage_locked, tenant_update_resource_usage, get_usage_locked, tenant_get_resource_usage,
  check_limit_locked, tenant_check_resource_limit, clamp_negative, try_allocate_locked,
  tenant_try_allocate_qp,
}

update_usage-keeps :
    (os : Os) (tenant_id : ℕ) (usage : TenantUsage) (d : TenantSharedMemory)
    → IsConsistent d
    → IsValid (update_usage_locked os tenant_id usage d).1
unfolding update_usage_locked
update_usage-keeps os tenant_id usage d v =
    elim (Bool-cases (not (is_active (d.tenants tenant_id).status))) [
      | inl e ↦ rw e (unlock-IsValid _ v)
      | inr e ↦ rw e (unlock-IsValid _ (set_tenant-IsConsistent tenant_id _ refl v))
    ]

pub update_usage-IsValid :
    (os : Os) (tenant_id : ℕ) (usage : Option TenantUsage) (s : TenantState)
    → IsValid s.shm
    → IsValid (tenant_update_resource_usage os tenant_id usage s).1.shm
unfolding tenant_update_resource_usage
update_usage-IsValid os tenant_id none s v = v
update_usage-IsValid os tenant_id (some usage) s v = elim (Bool-cases (leb max_tenants tenant_id)) [
  | inl e ↦ rw e v
  | inr e ↦ rw e (with_shm-IsValid os _ _ s (update_usage-keeps os tenant_id usage) v)
]

try_allocate-keeps :
    (os : Os) (tenant_id : ℕ) (d : TenantSharedMemory)
    → IsConsistent d
    → IsValid (try_allocate_locked os tenant_id d).1
unfolding try_allocate_locked
try_allocate-keeps os tenant_id d v =
    elim (Bool-cases (not (is_active (d.tenants tenant_id).status))) [
      | inl e ↦ rw e (unlock-IsValid _ v)
      | inr e ↦
          rw e
            (elim (Bool-cases (
              leb (d.tenants tenant_id).quota.max_qp_per_tenant
                (clamp_negative (d.tenants tenant_id).usage.qp_count))) [
                  | inl full ↦
                      rw full (unlock-IsValid _ (set_tenant-IsConsistent tenant_id _ refl v))
                  | inr room ↦
                      rw room (unlock-IsValid _ (set_tenant-IsConsistent tenant_id _ refl v))
                ])
    ]

pub try_allocate-IsValid :
    (os : Os) (tenant_id : ℕ) (s : TenantState)
    → IsValid s.shm
    → IsValid (tenant_try_allocate_qp os tenant_id s).1.shm
unfolding tenant_try_allocate_qp
try_allocate-IsValid os tenant_id s v = elim (Bool-cases (leb max_tenants tenant_id)) [
  | inl e ↦ rw e v
  | inr e ↦ rw e (with_shm-IsValid os _ _ s (try_allocate-keeps os tenant_id) v)
]

pub get_usage-IsValid :
    (os : Os) (tenant_id : ℕ) (s : TenantState)
    → IsValid s.shm
    → IsValid (tenant_get_resource_usage os tenant_id s).1.shm
unfolding tenant_get_resource_usage get_usage_locked
get_usage-IsValid os tenant_id s v = elim (Bool-cases (leb max_tenants tenant_id)) [
  | inl e ↦ rw e v
  | inr e ↦ rw e (with_shm-IsValid os _ _ s (λ d c. unlock-IsValid _ c) v)
]

check_limit-keeps :
    (os : Os) (tenant_id resource_type requested : ℕ) (d : TenantSharedMemory)
    → IsConsistent d
    → IsValid (check_limit_locked os tenant_id resource_type requested d).1
unfolding check_limit_locked
check_limit-keeps os tenant_id resource_type requested d v =
    elim (Bool-cases (not (is_active (d.tenants tenant_id).status))) [
      | inl e ↦ rw e (unlock-IsValid _ v)
      | inr e ↦ rw e (unlock-IsValid _ v)
    ]

pub check_limit-IsValid :
    (os : Os) (tenant_id resource_type requested : ℕ) (s : TenantState)
    → IsValid s.shm
    → IsValid (tenant_check_resource_limit os tenant_id resource_type requested s).1.shm
unfolding tenant_check_resource_limit
check_limit-IsValid os tenant_id resource_type requested s v =
    elim (Bool-cases (leb max_tenants tenant_id)) [
      | inl e ↦ rw e v
      | inr e ↦
          rw e
            (with_shm-IsValid os _ _ s (check_limit-keeps os tenant_id resource_type requested) v)
    ]
