-- ===== src/Tenant/Admin.antt =====
-- src/shm/shared_memory_tenant.c: creation, deletion, status, quota and description of a tenant.
pub mod Unmap
pub mod Delete
pub mod Invariant
use mtrdma_artifact.Common.{
  ℕ, zero, suc, ◌+◌, ◌-◌, Bool, true, false, ◌||◌, Option, none, some, List, [], ◌∷◌, Status, ok,
  fail, Os, ◌==◌, leb, if◌then◌else◌, add32, sub32, update,
}
use mtrdma_artifact.Common.CString.{take}
use mtrdma_artifact.Tenant.State.{
  max_tenants, max_processes, tenant_name_max, TenantStatus, inactive, active, is_inactive,
  TenantQuota, TenantInfo, zero_info, PidMapping, TenantSharedMemory, TenantState,
  tenant_shm_unlock, with_shm,
}

abbrev pub default_quota : TenantQuota
default_quota = record {
  max_qp_per_tenant = 100;
  max_mr_per_tenant = 1000;
  max_memory_per_tenant = 1073741824;
  max_cq_per_tenant = 100;
  max_pd_per_tenant = 100;
}

-- "unnamed"
abbrev pub unnamed : List ℕ
unnamed = 117 ∷ 110 ∷ 110 ∷ 97 ∷ 109 ∷ 101 ∷ 100 ∷ []

abbrev pub or_default {ℓ} : {A : Type ℓ} → Option A → A → A
or_default none d = d
or_default (some a) d = a

-- `memset`, the identity, the name cut to the array, and the quota or its default.
pub new_tenant : ℕ → ℕ → Option (List ℕ) → Option TenantQuota → TenantInfo
new_tenant now tenant_id name quota = record zero_info {
  tenant_id = tenant_id;
  tenant_name = take (tenant_name_max - 1) (or_default name unnamed);
  status = active;
  quota = or_default quota default_quota;
  created_at = now;
  last_active_at = now;
}

pub create_locked :
    Os → ℕ → Option (List ℕ) → Option TenantQuota → TenantSharedMemory → Status × TenantSharedMemory
unfolding new_tenant tenant_shm_unlock
create_locked os tenant_id name quota d =
    if is_inactive (d.tenants tenant_id).status
    then (
      ok,
      tenant_shm_unlock (os.time 2) (record d {
        tenants = update d.tenants tenant_id (new_tenant (os.time 1) tenant_id name quota);
        active_tenant_count = add32 d.active_tenant_count 1;
      }),
    )
    else (fail, tenant_shm_unlock (os.time 1) d)

-- A null name or quota is `none`.
pub tenant_create :
    Os → ℕ → Option (List ℕ) → Option TenantQuota → TenantState → Status × TenantState
tenant_create os tenant_id name quota s =
    if tenant_id == 0 || leb max_tenants tenant_id
    then (fail, s)
    else with_shm os fail (create_locked os tenant_id name quota) s

-- The loop of `tenant_delete` over the mappings, with `total_process_count`.
pub unmap_tenant : ℕ → ℕ → ℕ → (ℕ → PidMapping) → ℕ → (ℕ → PidMapping) × ℕ
unmap_tenant tenant_id i zero m total = (m, total)
unmap_tenant tenant_id i (suc left) m total =
    unmap_tenant tenant_id (i + 1) left
      (if (m i).tenant_id == tenant_id
        then update m i (record (m i) { pid = 0; tenant_id = 0 })
        else m)
      (if (m i).tenant_id == tenant_id then sub32 total 1 else total)

pub delete_locked : Os → ℕ → TenantSharedMemory → Status × TenantSharedMemory
unfolding tenant_shm_unlock
delete_locked os tenant_id d =
    if is_inactive (d.tenants tenant_id).status
    then (fail, tenant_shm_unlock (os.time 1) d)
    else let (m, total) =
        unmap_tenant tenant_id 0 max_processes d.pid_mappings d.total_process_count in
      (
        ok,
        tenant_shm_unlock (os.time 1) (record d {
          pid_mappings = m;
          total_process_count = total;
          tenants =
              update d.tenants tenant_id
                (record (d.tenants tenant_id) { status = inactive; process_count = 0 });
          active_tenant_count = sub32 d.active_tenant_count 1;
        }),
      )

pub tenant_delete : Os → ℕ → TenantState → Status × TenantState
tenant_delete os tenant_id s =
    if tenant_id == 0 || leb max_tenants tenant_id
    then (fail, s)
    else with_shm os fail (delete_locked os tenant_id) s

-- The copy is made also for an inactive tenant, for which the result is -1.
unfoldable pub get_info_locked :
    Os → ℕ → TenantSharedMemory → (Status × Option TenantInfo) × TenantSharedMemory
unfolding tenant_shm_unlock
get_info_locked os tenant_id d =
    let tenant = d.tenants tenant_id in
    ((if is_inactive tenant.status then fail else ok, some tenant), tenant_shm_unlock (os.time 1) d)

unfoldable pub tenant_get_info : Os → ℕ → TenantState → (Status × Option TenantInfo) × TenantState
tenant_get_info os tenant_id s =
    if leb max_tenants tenant_id
    then ((fail, none), s)
    else with_shm os (fail, none) (get_info_locked os tenant_id) s

pub set_status_locked : Os → ℕ → TenantStatus → TenantSharedMemory → Status × TenantSharedMemory
unfolding tenant_shm_unlock
set_status_locked os tenant_id status d =
    let tenant = d.tenants tenant_id in
    if is_inactive tenant.status then (fail, tenant_shm_unlock (os.time 1) d) else (
      ok,
      tenant_shm_unlock (os.time 2) (record d {
        tenants =
            update d.tenants tenant_id
              (record tenant { status = status; last_active_at = os.time 1 });
      }),
    )

pub tenant_set_status : Os → ℕ → TenantStatus → TenantState → Status × TenantState
tenant_set_status os tenant_id status s =
    if leb max_tenants tenant_id
    then (fail, s)
    else with_shm os fail (set_status_locked os tenant_id status) s

unfoldable pub update_quota_locked :
    Os → ℕ → TenantQuota → TenantSharedMemory → Status × TenantSharedMemory
unfolding tenant_shm_unlock
update_quota_locked os tenant_id quota d =
    let tenant = d.tenants tenant_id in
    if is_inactive tenant.status then (fail, tenant_shm_unlock (os.time 1) d) else (
      ok,
      tenant_shm_unlock (os.time 2) (record d {
        tenants =
            update d.tenants tenant_id
              (record tenant { quota = quota; last_active_at = os.time 1 });
      }),
    )

-- A null quota is `none`.
unfoldable pub tenant_update_quota :
    Os → ℕ → Option TenantQuota → TenantState → Status × TenantState
tenant_update_quota os tenant_id none s = (fail, s)
tenant_update_quota os tenant_id (some quota) s =
    if leb max_tenants tenant_id
    then (fail, s)
    else with_shm os fail (update_quota_locked os tenant_id quota) s
