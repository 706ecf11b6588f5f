-- ===== src/Collector.antt =====
-- src/collector_server_shm.c: the service that copies the kernel's figures to the shared object and
-- takes back the resources of processes that have exited. `Sync` has the copying, `Scan` and `Exit`
-- what the reclaiming does.
pub mod Status
pub mod Slot
pub mod Sync
mod Tests
pub mod Exit
pub mod Scan
pub mod Reclaim
pub mod Thread
pub mod Living
use mtrdma_artifact.Common.{
  ℕ, zero, suc, ◌+◌, Bool, true, false, not, ◌&&◌, ◌||◌, Option, none, some, List, [], ◌∷◌, Os,
  if◌then◌else◌, ◌==◌, leb, ltb, is_none, is_negative, sub32, sub64, u32_mod, update,
}
use mtrdma_artifact.Shm.{
  ResourceUsage, no_usage, SharedMemoryData, Shm, max_processes, shm_lock, shm_unlock, clear_entry,
}
use mtrdma_artifact.Tenant.State.{TenantUsage, TenantState}
use mtrdma_artifact.Tenant.Binding.{tenant_get_process_tenant}
use mtrdma_artifact.Tenant.Usage.{tenant_get_resource_usage, tenant_update_resource_usage}
use mtrdma_artifact.Collector.Status.{gc_is_process_really_alive}

-- An entry of `gc_pidfd_table`; `none` is the descriptor -1.
pub record PidfdEntry : Type 0 where
  pub pidfd : Option ℕ
  pub pid : ℕ
  pub start_time : ℕ

-- What is done with descriptors: a process's is watched for its slot, is no longer, is closed.
pub data FdCall : Type 0 where
  watches : ℕ → ℕ → FdCall
  unwatches : ℕ → FdCall
  closes : ℕ → FdCall

-- The table, the calls on descriptors, the last first, and the two shared objects as the service sees
-- them.
pub record GcState : Type 0 where
  pub table : ℕ → PidfdEntry
  pub calls : List FdCall
  pub shm : Shm
  pub tenants : TenantState

-- What the system answers: the descriptor of a process and whether it could be watched, by the slot
-- it is asked for, /proc/[pid]/status, and what is answered to the k-th call on the tenants.
pub record GcHost : Type 0 where
  pub pidfd_open : ℕ → Option ℕ
  pub epoll_add : ℕ → Bool
  pub status : ℕ → Option (List ℕ)
  pub os : ℕ → Os

abbrev pub unregistered : PidfdEntry
unregistered = record { pidfd = none; pid = 0; start_time = 0 }

abbrev pub set_entry : ℕ → PidfdEntry → GcState → GcState
set_entry slot e g = record g { table = update g.table slot e }

abbrev pub unwatch_and_close : Option ℕ → List FdCall → List FdCall
unwatch_and_close none calls = calls
unwatch_and_close (some fd) calls = closes fd ∷ unwatches fd ∷ calls

-- The descriptor of the slot is taken out and closed, and the entry is reset.
pub drop_entry : ℕ → GcState → GcState
drop_entry slot g = record g {
  table = update g.table slot unregistered;
  calls = unwatch_and_close (g.table slot).pidfd g.calls;
}

-- A new descriptor is watched and registered, or closed again.
pub register_fd : GcHost → ℕ → ℕ → ℕ → Option ℕ → GcState → GcState
register_fd host slot pid start_time none g = set_entry slot unregistered g
register_fd host slot pid start_time (some fd) g =
    if not (host.epoll_add slot)
    then record g { table = update g.table slot unregistered; calls = closes fd ∷ g.calls }
    else record g {
      table = update g.table slot (record { pidfd = some fd; pid = pid; start_time = start_time });
      calls = watches fd slot ∷ g.calls;
    }

pub gc_register_pidfd : GcHost → ℕ → ℕ → ℕ → GcState → GcState
unfolding register_fd
gc_register_pidfd host slot pid start_time g =
    if is_negative slot || leb max_processes slot
    then g
    else register_fd host slot pid start_time (host.pidfd_open slot)
        (record g { calls = unwatch_and_close (g.table slot).pidfd g.calls })

-- The slot is emptied as `shm_clear_process_entry` does it.
abbrev pub reclaim : ℕ → GcState → GcState
reclaim slot g = record g { shm = record (g.shm) { region = clear_entry slot g.shm.region } }

abbrev pub is_other_process : PidfdEntry → ℕ → ℕ → Bool
is_other_process e pid start_time = not (e.pid == pid) || not (e.start_time == start_time)

abbrev pub close_stale : ℕ → ℕ → GcState → GcState
close_stale fd slot g = record g {
  table = update g.table slot unregistered;
  calls = closes fd ∷ g.calls;
}

-- The body of the loop of the scan, by the descriptor of the slot.
pub scan_used : GcHost → ℕ → Option ℕ → GcState → GcState
unfolding drop_entry
scan_used host slot none g =
    let pid = g.shm.region.process_pids slot in
    let g' = gc_register_pidfd host slot pid (g.shm.region.process_start_times slot) g in
    if is_none (g'.table slot).pidfd && not (gc_is_process_really_alive host.status pid)
    then reclaim slot g'
    else g'
scan_used host slot (some fd) g =
    let pid = g.shm.region.process_pids slot in
    let start_time = g.shm.region.process_start_times slot in
    if is_other_process (g.table slot) pid start_time
    then gc_register_pidfd host slot pid start_time (close_stale fd slot g)
    else if not (gc_is_process_really_alive host.status pid)
    then drop_entry slot (reclaim slot g)
    else g

pub scan_slot : GcHost → ℕ → GcState → GcState
unfolding scan_used drop_entry
scan_slot host slot g =
    if g.shm.region.process_pids slot == 0
    then if is_none (g.table slot).pidfd then g else drop_entry slot g
    else scan_used host slot (g.table slot).pidfd g

-- The loop of the scan from slot `i` on.
pub scan_from : GcHost → ℕ → ℕ → GcState → GcState
unfolding scan_slot
scan_from host i zero g = g
scan_from host i (suc left) g = scan_from host (i + 1) left (scan_slot host i g)

abbrev pub with_region : (SharedMemoryData → SharedMemoryData) → GcState → GcState
with_region f g = record g { shm = record (g.shm) { region = f g.shm.region } }

pub gc_scan_and_register : GcHost → GcState → GcState
unfolding scan_from shm_lock shm_unlock
gc_scan_and_register host g =
    if not g.shm.attached
    then g
    else with_region shm_unlock (scan_from host 0 max_processes (with_region shm_lock g))
