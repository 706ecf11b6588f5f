-- ===== src/Tenant/History.antt =====
-- src/shm/shared_memory_tenant.c: the object after any sequence of operations.
use mtrdma_artifact.Common.{ℕ, Bool, false, ◌≡◌, ◌≢◌, refl, List, [], ◌∷◌, Option, Os}
use mtrdma_artifact.Tenant.State.{
  TenantStatus, is_inactive, TenantQuota, TenantUsage, TenantState, zero_shm,
}
use mtrdma_artifact.Tenant.State.Invariant.{IsValid, zero-IsConsistent}
use mtrdma_artifact.Tenant.Admin.{
  tenant_create, tenant_delete, tenant_get_info, tenant_set_status, tenant_update_quota,
}
use mtrdma_artifact.Tenant.Admin.Invariant.{
  create-IsValid, get_info-IsValid, set_status-IsValid, update_quota-IsValid,
}
use mtrdma_artifact.Tenant.Admin.Delete.{delete-IsValid}
use mtrdma_artifact.Tenant.Binding.{
  tenant_bind_process, tenant_unbind_process, tenant_get_process_tenant,
}
use mtrdma_artifact.Tenant.Binding.Invariant.{
  bind-IsValid, unbind-IsValid, get_process_tenant-IsValid,
}
use mtrdma_artifact.Tenant.Usage.{
  tenant_update_resource_usage, tenant_get_resource_usage, tenant_check_resource_limit,
  tenant_try_allocate_qp,
}
use mtrdma_artifact.Tenant.Usage.Invariant.{
  update_usage-IsValid, get_usage-IsValid, check_limit-IsValid, try_allocate-IsValid,
}

-- An operation with its arguments. A process has a pid that is not 0, and a status is set to one
-- of an existing tenant: `tenant_delete` is the way to end one.
pub data Call : Type 0 where
  creates : ℕ → Option (List ℕ) → Option TenantQuota → Call
  deletes : ℕ → Call
  infos : ℕ → Call
  statuses : ℕ → (status : TenantStatus) → is_inactive status ≡ false → Call
  quotas : ℕ → Option TenantQuota → Call
  binds : (pid : ℕ) → pid ≢ 0 → ℕ → Call
  unbinds : (pid : ℕ) → pid ≢ 0 → Call
  lookups : ℕ → Call
  usages : ℕ → Option TenantUsage → Call
  reads : ℕ → Call
  checks : ℕ → ℕ → ℕ → Call
  allocates : ℕ → Call

pub step : Os → Call → TenantState → TenantState
step os (creates id name quota) s = (tenant_create os id name quota s).1
step os (deletes id) s = (tenant_delete os id s).1
step os (infos id) s = (tenant_get_info os id s).1
step os (statuses id status on) s = (tenant_set_status os id status s).1
step os (quotas id quota) s = (tenant_update_quota os id quota s).1
step os (binds pid nz id) s = (tenant_bind_process os pid id s).1
step os (unbinds pid nz) s = (tenant_unbind_process os pid s).1
step os (lookups pid) s = (tenant_get_process_tenant os pid s).1
step os (usages id usage) s = (tenant_update_resource_usage os id usage s).1
step os (reads id) s = (tenant_get_resource_usage os id s).1
step os (checks id kind n) s = (tenant_check_resource_limit os id kind n s).1
step os (allocates id) s = (tenant_try_allocate_qp os id s).1

-- Before each call any process may be the caller: the flag is whether that one is attached.
pub replay : List (Bool × Os × Call) → TenantState → TenantState
replay [] s = s
replay ((attached, os, c) ∷ cs) s = replay cs (step os c (record s { attached = attached }))

step-IsValid : (os : Os) (c : Call) (s : TenantState) → IsValid s.shm → IsValid (step os c s).shm
unfolding step
step-IsValid os (creates id name quota) s v = create-IsValid os id name quota s v
step-IsValid os (deletes id) s v = delete-IsValid os id s v
step-IsValid os (infos id) s v = get_info-IsValid os id s v
step-IsValid os (statuses id status on) s v = set_status-IsValid os id status s on v
step-IsValid os (quotas id quota) s v = update_quota-IsValid os id quota s v
step-IsValid os (binds pid nz id) s v = bind-IsValid os pid id s nz v
step-IsValid os (unbinds pid nz) s v = unbind-IsValid os pid s nz v
step-IsValid os (lookups pid) s v = get_process_tenant-IsValid os pid s v
step-IsValid os (usages id usage) s v = update_usage-IsValid os id usage s v
step-IsValid os (reads id) s v = get_usage-IsValid os id s v
step-IsValid os (checks id kind n) s v = check_limit-IsValid os id kind n s v
step-IsValid os (allocates id) s v = try_allocate-IsValid os id s v

replay-keeps :
    (cs : List (Bool × Os × Call)) (s : TenantState) → IsValid s.shm → IsValid (replay cs s).shm
unfolding replay
replay-keeps [] s v = v
replay-keeps ((attached, os, c) ∷ cs) s v = replay-keeps cs _ (step-IsValid os c _ v)

-- After any sequence of operations of any processes on a new object (creating, deleting, reading,
-- suspending and resuming tenants, changing quotas, binding, unbinding and looking up processes,
-- accounting, checking and allocating), without a tenant_set_status to INACTIVE and without a binding
-- or unbinding of the pid 0: the lock is free; `active_tenant_count` is the number of tenants that exist and
-- `total_process_count` the number of mappings in use; tenant 0 does not exist; every mapping in use
-- names a tenant inside the array that exists, and every free one tenant 0; no process has two
-- mappings.
pub replay-IsValid :
    (cs : List (Bool × Os × Call)) (attached : Bool)
    → IsValid (replay cs (record { attached = attached; shm = zero_shm })).shm
replay-IsValid cs attached =
    replay-keeps cs _ (record { consistent = zero-IsConsistent; free = refl })
