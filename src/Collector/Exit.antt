-- ===== src/Collector/Exit.antt =====
-- src/collector_server_shm.c: what the reclaiming does when the descriptor of a process says that it
-- has exited, and the thread around it.
pub mod Tenants
pub mod Run
use mtrdma_artifact.Common.{
  ℕ, Bool, true, false, not, ◌&&◌, Option, none, some, List, [], ◌∷◌, Os, if◌then◌else◌, ◌==◌, ltb,
  sub32, sub64, int_gt,
}
use mtrdma_artifact.Shm.{ResourceUsage, shm_lock, shm_unlock}
use mtrdma_artifact.Tenant.State.{TenantUsage, TenantState}
use mtrdma_artifact.Tenant.Binding.{tenant_get_process_tenant}
use mtrdma_artifact.Tenant.Usage.{tenant_get_resource_usage, tenant_update_resource_usage}
use mtrdma_artifact.Collector.{
  GcState, GcHost, PidfdEntry, drop_entry, reclaim, with_region, gc_scan_and_register,
  is_other_process,
}

-- The three quantities are lowered, not below zero.
abbrev pub lower : ResourceUsage → TenantUsage → TenantUsage
lower dead u = record u {
  qp_count = if int_gt u.qp_count dead.qp_count then sub32 u.qp_count dead.qp_count else 0;
  mr_count = if int_gt u.mr_count dead.mr_count then sub32 u.mr_count dead.mr_count else 0;
  memory_used =
      if ltb dead.memory_used u.memory_used then sub64 u.memory_used dead.memory_used else 0;
}

-- By the tenant's usage that was read, and by the tenant that was found.
pub write_lowered : GcHost → ℕ → ResourceUsage → Option TenantUsage → TenantState → TenantState
write_lowered host tenant_id dead none ts = ts
write_lowered host tenant_id dead (some u) ts =
    (tenant_update_resource_usage (host.os 2) tenant_id (some (lower dead u)) ts).1

pub lower_tenant : GcHost → ResourceUsage → Option ℕ → TenantState → TenantState
unfolding write_lowered
lower_tenant host dead none ts = ts
lower_tenant host dead (some tenant_id) ts =
    let (u, ts') = tenant_get_resource_usage (host.os 1) tenant_id ts in
    if tenant_id == 0 then ts else write_lowered host tenant_id dead u ts'

-- The block behind the critical section.
pub adjust_tenant : GcHost → ℕ → ResourceUsage → TenantState → TenantState
unfolding lower_tenant
adjust_tenant host pid dead ts =
    let (tenant_id, ts') = tenant_get_process_tenant (host.os 0) pid ts in
    if int_gt pid 0 && int_gt dead.qp_count 0 then lower_tenant host dead tenant_id ts' else ts

-- The slot still holds the process for which the descriptor was registered.
abbrev pub holds_registered : ℕ → GcState → Bool
holds_registered slot g =
    not (
      is_other_process (g.table slot) (g.shm.region.process_pids slot)
        (g.shm.region.process_start_times slot))
    && not (g.shm.region.process_pids slot == 0)

pub gc_handle_process_exit : GcHost → ℕ → GcState → GcState
unfolding adjust_tenant shm_lock shm_unlock drop_entry
gc_handle_process_exit host slot g =
    let pid = g.shm.region.process_pids slot in
    let dead = g.shm.region.process_stats slot in
    let locked = with_region shm_lock g in
    if not g.shm.attached
    then g
    else if holds_registered slot g
    then drop_entry slot (record (with_region shm_unlock (reclaim slot locked)) {
      tenants = adjust_tenant host pid dead g.tenants;
    })
    else drop_entry slot (with_region shm_unlock locked)

-- `memset` of the table: the descriptor of every entry is 0.
abbrev pub zero_table : ℕ → PidfdEntry
zero_table slot = record { pidfd = some 0; pid = 0; start_time = 0 }

-- From `memset` to the loop of `gc_thread_func`.
unfoldable pub gc_start : GcHost → GcState → GcState
gc_start host g = gc_scan_and_register host (record g { table = zero_table })

-- The events of one `epoll_wait`, by the slots in them, each with the answers to its calls.
pub handle_events : List (ℕ × GcHost) → GcState → GcState
unfolding gc_handle_process_exit
handle_events [] g = g
handle_events ((slot, host) ∷ events) g = handle_events events (gc_handle_process_exit host slot g)

-- One turn of its loop.
unfoldable pub gc_turn : GcHost → List (ℕ × GcHost) → GcState → GcState
unfolding handle_events
gc_turn host events g = gc_scan_and_register host (handle_events events g)
