-- ===== src/Tenant/Admin/Invariant.antt =====
-- src/shm/shared_memory_tenant.c: the life cycle of a tenant keeps the object valid.
use mtrdma_artifact.Common.{
  ℕ, ◌<◌, ◌≡◌, ◌≢◌, refl, sym, ◌∙◌, true, false, ◌||◌, inl, inr, List, Option, none, some, Os,
  arith, Bool-cases, ◌==◌, leb, update, total-update, add32,
}
use mtrdma_artifact.Tenant.State.{
  max_tenants, is_inactive, TenantStatus, TenantQuota, TenantInfo, TenantSharedMemory, TenantState,
}
use mtrdma_artifact.Tenant.State.Invariant.{
  IsConsistent, IsValid, exists, exists-le, unlock-IsValid, set_tenant-IsConsistent,
  with_shm-IsValid,
}
use mtrdma_artifact.Tenant.Admin.{
  new_tenant, create_locked, tenant_create, set_status_locked, tenant_set_status,
  update_quota_locked, tenant_update_quota, get_info_locked, tenant_get_info,
}

-- A new tenant in a free place.
created-IsConsistent :
    (tenant_id : ℕ) (t : TenantInfo) (d : TenantSharedMemory)
    → tenant_id ≢ 0
    → tenant_id < max_tenants
    → is_inactive (d.tenants tenant_id).status ≡ true
    → is_inactive t.status ≡ false
    → IsConsistent d
    → IsConsistent (record d {
      tenants = update d.tenants tenant_id t;
      active_tenant_count = add32 d.active_tenant_count 1;
    })
created-IsConsistent tenant_id t d nz lt old new v = record {
  counted = ground (
    arith,
    v.counted,
    exists-le max_tenants d.tenants,
    total-update exists max_tenants d.tenants tenant_id t lt,
  );
  mapped = v.mapped;
  reserved = ground (arith, v.reserved);
  sound = λ i lt'. ground (arith, v.sound i lt');
  unique = v.unique;
}

create-keeps :
    (os : Os) (tenant_id : ℕ) (name : Option (List ℕ)) (quota : Option TenantQuota)
    → tenant_id ≢ 0
    → tenant_id < max_tenants
    → (d : TenantSharedMemory) → IsConsistent d
    → IsValid (create_locked os tenant_id name quota d).1
unfolding create_locked new_tenant
create-keeps os tenant_id name quota nz lt d v =
    elim (Bool-cases (is_inactive (d.tenants tenant_id).status)) [
      | inl e ↦ rw e (unlock-IsValid _ (created-IsConsistent tenant_id _ d nz lt e refl v))
      | inr e ↦ rw e (unlock-IsValid _ v)
    ]

pub create-IsValid :
    (os : Os) (tenant_id : ℕ) (name : Option (List ℕ)) (quota : Option TenantQuota)
    (s : TenantState)
    → IsValid s.shm
    → IsValid (tenant_create os tenant_id name quota s).1.shm
unfolding tenant_create
create-IsValid os tenant_id name quota s v =
    elim (Bool-cases (tenant_id == 0 || leb max_tenants tenant_id)) [
      | inl e ↦ rw e v
      | inr e ↦ rw e (
          with_shm-IsValid os _ _ s
            (create-keeps os tenant_id name quota (ground arith) (ground arith)) v)
    ]

set_status-keeps :
    (os : Os) (tenant_id : ℕ) (status : TenantStatus)
    → is_inactive status ≡ false
    → (d : TenantSharedMemory) → IsConsistent d
    → IsValid (set_status_locked os tenant_id status d).1
unfolding set_status_locked
set_status-keeps os tenant_id status on d v =
    elim (Bool-cases (is_inactive (d.tenants tenant_id).status)) [
      | inl e ↦ rw e (unlock-IsValid _ v)
      | inr e ↦ rw e (unlock-IsValid _ (set_tenant-IsConsistent tenant_id _ (on ∙ sym e) v))
    ]

pub set_status-IsValid :
    (os : Os) (tenant_id : ℕ) (status : TenantStatus) (s : TenantState)
    → is_inactive status ≡ false
    → IsValid s.shm
    → IsValid (tenant_set_status os tenant_id status s).1.shm
unfolding tenant_set_status
set_status-IsValid os tenant_id status s on v = elim (Bool-cases (leb max_tenants tenant_id)) [
  | inl e ↦ rw e v
  | inr e ↦ rw e (with_shm-IsValid os _ _ s (set_status-keeps os tenant_id status on) v)
]

update_quota-keeps :
    (os : Os) (tenant_id : ℕ) (quota : TenantQuota) (d : TenantSharedMemory)
    → IsConsistent d
    → IsValid (update_quota_locked os tenant_id quota d).1
unfolding update_quota_locked
update_quota-keeps os tenant_id quota d v =
    elim (Bool-cases (is_inactive (d.tenants tenant_id).status)) [
      | inl e ↦ rw e (unlock-IsValid _ v)
      | inr e ↦ rw e (unlock-IsValid _ (set_tenant-IsConsistent tenant_id _ refl v))
    ]

pub update_quota-IsValid :
    (os : Os) (tenant_id : ℕ) (quota : Option TenantQuota) (s : TenantState)
    → IsValid s.shm
    → IsValid (tenant_update_quota os tenant_id quota s).1.shm
unfolding tenant_update_quota
update_quota-IsValid os tenant_id none s v = v
update_quota-IsValid os tenant_id (some quota) s v = elim (Bool-cases (leb max_tenants tenant_id)) [
  | inl e ↦ rw e v
  | inr e ↦ rw e (with_shm-IsValid os _ _ s (update_quota-keeps os tenant_id quota) v)
]

pub get_info-IsValid :
    (os : Os) (tenant_id : ℕ) (s : TenantState)
    → IsValid s.shm
    → IsValid (tenant_get_info os tenant_id s).1.shm
unfolding tenant_get_info get_info_locked
get_info-IsValid os tenant_id s v = elim (Bool-cases (leb max_tenants tenant_id)) [
  | inl e ↦ rw e v
  | inr e ↦ rw e (with_shm-IsValid os _ _ s (λ d c. unlock-IsValid _ c) v)
]
