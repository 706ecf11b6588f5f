-- ===== src/Tenant/Binding.antt =====
-- src/shm/shared_memory_tenant.c: which process belongs to which tenant.
pub mod Invariant
pub mod Lookup
mod Tests
use mtrdma_artifact.Common.{
  ℕ, ◌-◌, Bool, true, false, not, Option, none, some, Status, ok, fail, Os, ◌==◌, leb, ltb,
  if◌then◌else◌, add32, update, find_index, find_slot, value_at,
}
use mtrdma_artifact.Tenant.State.{
  max_tenants, max_processes, is_active, TenantInfo, PidMapping, TenantSharedMemory, TenantState,
  tenant_shm_unlock, with_shm,
}

abbrev pub pids_of : (ℕ → PidMapping) → ℕ → ℕ
pids_of m i = (m i).pid

-- `for (i = ...) if (processes[i] == from) { processes[i] = to; break; }`
pub replace_process : ℕ → ℕ → (ℕ → ℕ) → ℕ → ℕ
replace_process from to processes = elim (find_index processes from 0 max_processes) [
  | none ↦ processes
  | some i ↦ update processes i to
]

abbrev pub set_tenant : ℕ → TenantInfo → TenantSharedMemory → TenantSharedMemory
set_tenant tenant_id tenant d = record d { tenants = update d.tenants tenant_id tenant }

abbrev pub set_mapping : ℕ → PidMapping → TenantSharedMemory → TenantSharedMemory
set_mapping i m d = record d { pid_mappings = update d.pid_mappings i m }

-- From the results of the search on: rebind a known process, take an empty slot, or fail.
unfoldable pub bind_slot :
    Os → ℕ → ℕ → Option ℕ → Option ℕ → TenantSharedMemory → Status × TenantSharedMemory
unfolding replace_process tenant_shm_unlock
bind_slot os pid tenant_id (some i) empty_slot d =
    let mapping : PidMapping = record { pid = pid; tenant_id = tenant_id; mapped_at = os.time 1 } in
    let tenant = record (d.tenants tenant_id) { last_active_at = os.time 2 } in
    (ok, tenant_shm_unlock (os.time 3) (set_tenant tenant_id tenant (set_mapping i mapping d)))
bind_slot os pid tenant_id none (some i) d =
    let mapping : PidMapping = record { pid = pid; tenant_id = tenant_id; mapped_at = os.time 1 } in
    let old = d.tenants tenant_id in
    let tenant = record old {
      process_count = add32 old.process_count 1;
      processes = replace_process 0 pid old.processes;
      last_active_at = os.time 2;
    } in
    let counted = record d { total_process_count = add32 d.total_process_count 1 } in
    (
      ok,
      tenant_shm_unlock (os.time 3) (set_tenant tenant_id tenant (set_mapping i mapping counted)),
    )
bind_slot os pid tenant_id none none d = (fail, tenant_shm_unlock (os.time 1) d)

unfoldable pub bind_locked : Os → ℕ → ℕ → TenantSharedMemory → Status × TenantSharedMemory
unfolding bind_slot
bind_locked os pid tenant_id d =
    if not (is_active (d.tenants tenant_id).status)
    then (fail, tenant_shm_unlock (os.time 1) d)
    else let (found, empty_slot) = find_slot (pids_of d.pid_mappings) pid 0 max_processes none in
      bind_slot os pid tenant_id found empty_slot d

unfoldable pub tenant_bind_process : Os → ℕ → ℕ → TenantState → Status × TenantState
tenant_bind_process os pid tenant_id s =
    if leb max_tenants tenant_id
    then (fail, s)
    else with_shm os fail (bind_locked os pid tenant_id) s

-- `if (n > 0) n--;`
abbrev pub decrement : ℕ → ℕ
decrement n = if ltb 0 n then n - 1 else n

-- The body of the loop of `tenant_unbind_process` at the slot of the process.
pub unbind_slot : Os → ℕ → Option ℕ → TenantSharedMemory → Status × TenantSharedMemory
unfolding replace_process tenant_shm_unlock
unbind_slot os pid none d = (fail, tenant_shm_unlock (os.time 1) d)
unbind_slot os pid (some i) d =
    let mapping = d.pid_mappings i in
    let old = d.tenants mapping.tenant_id in
    let tenant = record old {
      processes = replace_process pid 0 old.processes;
      process_count = decrement old.process_count;
    } in
    let unmapped =
      set_mapping i (record mapping { pid = 0; tenant_id = 0 })
        (set_tenant mapping.tenant_id tenant d) in
    (
      ok,
      tenant_shm_unlock (os.time 1)
          (record unmapped { total_process_count = decrement d.total_process_count }),
    )

pub unbind_locked : Os → ℕ → TenantSharedMemory → Status × TenantSharedMemory
unfolding unbind_slot
unbind_locked os pid d =
    unbind_slot os pid (find_index (pids_of d.pid_mappings) pid 0 max_processes) d

pub tenant_unbind_process : Os → ℕ → TenantState → Status × TenantState
tenant_unbind_process os pid s = with_shm os fail (unbind_locked os pid) s

abbrev pub tenant_of : (ℕ → PidMapping) → ℕ → Option ℕ
tenant_of m i = some (m i).tenant_id

unfoldable pub get_process_tenant_locked :
    Os → ℕ → TenantSharedMemory → Option ℕ × TenantSharedMemory
unfolding tenant_shm_unlock
get_process_tenant_locked os pid d = (
  value_at none (tenant_of d.pid_mappings)
      (find_index (pids_of d.pid_mappings) pid 0 max_processes),
  tenant_shm_unlock (os.time 1) d,
)

-- `none` is -1; the out parameter is then 0.
unfoldable pub tenant_get_process_tenant : Os → ℕ → TenantState → Option ℕ × TenantState
tenant_get_process_tenant os pid s = with_shm os none (get_process_tenant_locked os pid) s
