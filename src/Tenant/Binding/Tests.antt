-- ===== src/Tenant/Binding/Tests.antt =====
-- src/shm/shared_memory_tenant.c: the theorems on bindings at concrete calls.
use mtrdma_artifact.Common.{
  ◌≡◌, refl, true, none, some, arith, if◌then◌else◌, ◌==◌, ok, Os, find_slot, find_index, update,
  total-update, total-zero,
}
use mtrdma_artifact.Tenant.State.{
  active, max_tenants, max_processes, TenantInfo, PidMapping, TenantState, zero_shm, zero_info,
  with_shm,
}
use mtrdma_artifact.Tenant.State.Invariant.{exists, in_use, IsValid}
use mtrdma_artifact.Tenant.Binding.{
  tenant_bind_process, bind_locked, bind_slot, tenant_unbind_process, unbind_locked, unbind_slot,
  tenant_get_process_tenant,
}
use mtrdma_artifact.Tenant.Binding.Lookup.{lookup-bind, lookup-unbind}

abbrev host_ok : Os
host_ok = record { shm_open = true; ftruncate = true; mmap = true; fstat = true; time = λ k. k }

-- Tenant 5, with the process 70 in slot 3.
abbrev tenant_5 : TenantInfo
tenant_5 = record zero_info { tenant_id = 5; status = active; process_count = 1 }

abbrev mapping_70 : PidMapping
mapping_70 = record { pid = 70; tenant_id = 5; mapped_at = 9 }

abbrev one_process : TenantState
one_process = record {
  attached = true;
  shm = record zero_shm {
    tenants = update zero_shm.tenants 5 tenant_5;
    pid_mappings = update zero_shm.pid_mappings 3 mapping_70;
    active_tenant_count = 1;
    total_process_count = 1;
  };
}

one_process-IsValid : IsValid one_process.shm
one_process-IsValid = record {
  consistent = record {
    counted = omega (
      arith,
      total-update exists max_tenants zero_shm.tenants 5 tenant_5 (omega arith),
      total-zero exists max_tenants zero_shm.tenants (λ i. refl),
    );
    mapped = omega (
      arith,
      total-update in_use max_processes zero_shm.pid_mappings 3 mapping_70 (omega arith),
      total-zero in_use max_processes zero_shm.pid_mappings (λ i. refl),
    );
    reserved = refl;
    sound = λ i lt. ground arith;
    unique = λ i j li lj ne e. ground arith;
  };
  free = refl;
}

bind_ok : (tenant_bind_process host_ok 71 5 one_process).0 ≡ ok
unfolding tenant_bind_process bind_locked bind_slot with_shm find_slot
bind_ok = refl

lookup-bind_example :
    (tenant_get_process_tenant host_ok 71 (tenant_bind_process host_ok 71 5 one_process).1).0
    ≡ (if 71 == 71 then some 5 else (tenant_get_process_tenant host_ok 71 one_process).0)
lookup-bind_example = lookup-bind host_ok host_ok 71 5 one_process 71 refl (omega arith) bind_ok

unbind_ok : (tenant_unbind_process host_ok 70 one_process).0 ≡ ok
unfolding tenant_unbind_process unbind_locked unbind_slot with_shm find_index
unbind_ok = refl

lookup-unbind_example :
    (tenant_get_process_tenant host_ok 70 (tenant_unbind_process host_ok 70 one_process).1).0
    ≡ (if 70 == 70 then none else (tenant_get_process_tenant host_ok 70 one_process).0)
lookup-unbind_example =
    lookup-unbind host_ok host_ok 70 one_process 70 refl one_process-IsValid (omega arith) unbind_ok
