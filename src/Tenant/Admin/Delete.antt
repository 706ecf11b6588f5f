-- ===== src/Tenant/Admin/Delete.antt =====
-- src/shm/shared_memory_tenant.c: deleting a tenant keeps the object valid and unbinds its processes.
use mtrdma_artifact.Common.{
  ℕ, ◌<◌, ◌≡◌, ◌≢◌, refl, inl, inr, arith, true, false, Os, ◌||◌, Bool-cases, ◌==◌, update,
  total-update, sub32, leb,
}
use mtrdma_artifact.Tenant.State.{
  max_tenants, max_processes, is_inactive, PidMapping, TenantInfo, TenantSharedMemory, TenantState,
}
use mtrdma_artifact.Tenant.State.Invariant.{
  IsConsistent, IsValid, exists, exists-le, unlock-IsValid, with_shm-IsValid,
}
use mtrdma_artifact.Tenant.Admin.{unmap_tenant, delete_locked, tenant_delete}
use mtrdma_artifact.Tenant.Admin.Unmap.{Unmapped, unmap-Unmapped}

abbrev unmapped : ℕ → TenantSharedMemory → (ℕ → PidMapping) × ℕ
unmapped tenant_id d = unmap_tenant tenant_id 0 max_processes d.pid_mappings d.total_process_count

loop :
    (tenant_id : ℕ) (d : TenantSharedMemory)
    → tenant_id ≢ 0
    → IsConsistent d
    → Unmapped tenant_id 0 d.pid_mappings (unmapped tenant_id d)
loop tenant_id d nz v =
    unmap-Unmapped tenant_id 0 max_processes d.pid_mappings d.total_process_count nz refl
      (λ j lt. (v.sound j lt).1) v.mapped

-- The object without the tenant and without its mappings.
deleted-IsConsistent :
    (tenant_id : ℕ) (t : TenantInfo) (d : TenantSharedMemory)
    → tenant_id ≢ 0
    → tenant_id < max_tenants
    → is_inactive (d.tenants tenant_id).status ≡ false
    → is_inactive t.status ≡ true
    → IsConsistent d
    → IsConsistent (record d {
      pid_mappings = (unmapped tenant_id d).0;
      total_process_count = (unmapped tenant_id d).1;
      tenants = update d.tenants tenant_id t;
      active_tenant_count = sub32 d.active_tenant_count 1;
    })
deleted-IsConsistent tenant_id t d nz lt old new v =
    let l = loop tenant_id d nz v in
    record {
      counted = ground (
        arith,
        v.counted,
        exists-le max_tenants d.tenants,
        total-update exists max_tenants d.tenants tenant_id t lt,
      );
      mapped = l.mapped;
      reserved = ground (arith, v.reserved);
      sound = λ i lti. ground (arith, v.sound i lti, l.entry i lti);
      unique = λ i j li lj. ground (arith, v.unique i j li lj, l.entry i li, l.entry j lj);
    }

delete-keeps :
    (os : Os) (tenant_id : ℕ)
    → tenant_id ≢ 0
    → tenant_id < max_tenants
    → (d : TenantSharedMemory) → IsConsistent d
    → IsValid (delete_locked os tenant_id d).1
unfolding delete_locked
delete-keeps os tenant_id nz lt d v = elim (Bool-cases (is_inactive (d.tenants tenant_id).status)) [
  | inl e ↦ rw e (unlock-IsValid _ v)
  | inr e ↦ rw e (unlock-IsValid _ (deleted-IsConsistent tenant_id _ d nz lt e refl v))
]

pub delete-IsValid :
    (os : Os) (tenant_id : ℕ) (s : TenantState)
    → IsValid s.shm
    → IsValid (tenant_delete os tenant_id s).1.shm
unfolding tenant_delete
delete-IsValid os tenant_id s v = elim (Bool-cases (tenant_id == 0 || leb max_tenants tenant_id)) [
  | inl e ↦ rw e v
  | inr e ↦
      rw e (with_shm-IsValid os _ _ s (delete-keeps os tenant_id (ground arith) (ground arith)) v)
]
