-- ===== src/Tenant/Usage.antt =====
-- src/shm/shared_memory_tenant.c: the accounting of a tenant's resources against its quota.
pub mod Invariant
pub mod Quota
pub mod Access
use mtrdma_artifact.Common.{
  ℕ, zero, suc, ◌+◌, ◌*◌, Bool, true, false, not, ◌||◌, Option, none, some, List, [], ◌∷◌, Status,
  ok, fail, Os, ◌==◌, leb, ltb, if◌then◌else◌, add32, add64, is_negative, update,
}
use mtrdma_artifact.Tenant.State.{
  max_tenants, is_active, TenantInfo, TenantUsage, TenantSharedMemory, TenantState,
  tenant_shm_unlock, with_shm,
}

pub update_usage_locked : Os → ℕ → TenantUsage → TenantSharedMemory → Status × TenantSharedMemory
unfolding tenant_shm_unlock
update_usage_locked os tenant_id usage d =
    let tenant = d.tenants tenant_id in
    if not (is_active tenant.status) then (fail, tenant_shm_unlock (os.time 1) d) else (
      ok,
      tenant_shm_unlock (os.time 2) (record d {
        tenants =
            update d.tenants tenant_id
              (record tenant { usage = usage; last_active_at = os.time 1 });
      }),
    )

-- A null usage is `none`.
pub tenant_update_resource_usage : Os → ℕ → Option TenantUsage → TenantState → Status × TenantState
tenant_update_resource_usage os tenant_id none s = (fail, s)
tenant_update_resource_usage os tenant_id (some usage) s =
    if leb max_tenants tenant_id
    then (fail, s)
    else with_shm os fail (update_usage_locked os tenant_id usage) s

pub get_usage_locked : Os → ℕ → TenantSharedMemory → Option TenantUsage × TenantSharedMemory
unfolding tenant_shm_unlock
get_usage_locked os tenant_id d =
    let tenant = d.tenants tenant_id in
    (
      if not (is_active tenant.status) then none else some tenant.usage,
      tenant_shm_unlock (os.time 1) d,
    )

-- The out parameter is the result; `none` is -1.
pub tenant_get_resource_usage : Os → ℕ → TenantState → Option TenantUsage × TenantState
tenant_get_resource_usage os tenant_id s =
    if leb max_tenants tenant_id
    then (none, s)
    else with_shm os none (get_usage_locked os tenant_id) s

-- The `switch` over the resource type: an `int` count is added to the request as an unsigned one.
pub exceeds : TenantInfo → ℕ → ℕ → Bool
exceeds tenant resource_type requested =
    if resource_type == 0
    then ltb tenant.quota.max_qp_per_tenant (add32 tenant.usage.qp_count requested)
    else if resource_type == 1
    then ltb tenant.quota.max_mr_per_tenant (add32 tenant.usage.mr_count requested)
    else if resource_type == 2
    then ltb tenant.quota.max_memory_per_tenant (add64 tenant.usage.memory_used requested)
    else if resource_type == 3
    then ltb tenant.quota.max_cq_per_tenant (add32 tenant.usage.cq_count requested)
    else if resource_type == 4
    then ltb tenant.quota.max_pd_per_tenant (add32 tenant.usage.pd_count requested)
    else false

pub check_limit_locked : Os → ℕ → ℕ → ℕ → TenantSharedMemory → Bool × TenantSharedMemory
unfolding exceeds tenant_shm_unlock
check_limit_locked os tenant_id resource_type requested d =
    let tenant = d.tenants tenant_id in
    if not (is_active tenant.status)
    then (true, tenant_shm_unlock (os.time 1) d)
    else (exceeds tenant resource_type requested, tenant_shm_unlock (os.time 1) d)

pub tenant_check_resource_limit : Os → ℕ → ℕ → ℕ → TenantState → Bool × TenantState
tenant_check_resource_limit os tenant_id resource_type requested s =
    if leb max_tenants tenant_id
    then (false, s)
    else with_shm os false (check_limit_locked os tenant_id resource_type requested) s

-- `if (qp_count < 0) qp_count = 0;`
abbrev pub clamp_negative : ℕ → ℕ
clamp_negative n = if is_negative n then 0 else n

pub try_allocate_locked : Os → ℕ → TenantSharedMemory → Bool × TenantSharedMemory
unfolding tenant_shm_unlock
try_allocate_locked os tenant_id d =
    let old = d.tenants tenant_id in
    if not (is_active old.status)
    then (false, tenant_shm_unlock (os.time 1) d)
    else let count = clamp_negative old.usage.qp_count in
      let clamped = record old { usage = record (old.usage) { qp_count = count } } in
      if leb old.quota.max_qp_per_tenant count
      then (
        false,
        tenant_shm_unlock (os.time 1) (record d { tenants = update d.tenants tenant_id clamped }),
      )
      else (
        true,
        tenant_shm_unlock (os.time 2) (record d {
          tenants = update d.tenants tenant_id (record clamped {
            usage = record (clamped.usage) {
              qp_count = add32 count 1;
              total_qp_creates = add64 old.usage.total_qp_creates 1;
            };
            last_active_at = os.time 1;
          });
        }),
      )

pub tenant_try_allocate_qp : Os → ℕ → TenantState → Bool × TenantState
tenant_try_allocate_qp os tenant_id s =
    if leb max_tenants tenant_id
    then (false, s)
    else with_shm os false (try_allocate_locked os tenant_id) s

-- The loop of `tenant_get_active_list`: from tenant `i` on, at most `room` of them.
pub active_from : (ℕ → TenantInfo) → ℕ → ℕ → ℕ → List TenantInfo
active_from tenants i zero room = []
active_from tenants i (suc left) zero = []
active_from tenants i (suc left) (suc room) =
    let listed = tenants i ∷ active_from tenants (i + 1) left room in
    let skipped = active_from tenants (i + 1) left (suc room) in
    if is_active (tenants i).status then listed else skipped

pub active_list_locked : Os → ℕ → TenantSharedMemory → Option (List TenantInfo) × TenantSharedMemory
unfolding active_from tenant_shm_unlock
active_list_locked os max_count d =
    (some (active_from d.tenants 0 max_tenants max_count), tenant_shm_unlock (os.time 1) d)

-- The result is the filled part of the caller's array; `none` is -1.
pub tenant_get_active_list : Os → ℕ → TenantState → Option (List TenantInfo) × TenantState
tenant_get_active_list os max_count s =
    if max_count == 0 || is_negative max_count
    then (none, s)
    else with_shm os none (active_list_locked os max_count) s

pub statistics_locked : Os → ℕ → TenantSharedMemory → Option (ℕ × ℕ) × TenantSharedMemory
unfolding tenant_shm_unlock
statistics_locked os tenant_id d =
    let tenant = d.tenants tenant_id in
    (
      if not (is_active tenant.status)
          then none
          else some (tenant.usage.total_qp_creates, tenant.usage.total_mr_regs),
      tenant_shm_unlock (os.time 1) d,
    )

pub tenant_get_statistics : Os → ℕ → TenantState → Option (ℕ × ℕ) × TenantState
tenant_get_statistics os tenant_id s =
    if leb max_tenants tenant_id
    then (none, s)
    else with_shm os none (statistics_locked os tenant_id) s
