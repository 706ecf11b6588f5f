-- ===== src/Ebpf/Fallback.antt =====
-- src/ebpf: without the kernel's maps the monitors show what is in the shared object.
use mtrdma_artifact.Common.{ℕ, ◌≡◌, false, Option, some, List, ok, Os, if◌then◌else◌, ◌==◌, arith}
use mtrdma_artifact.Shm.{ResourceUsage}
use mtrdma_artifact.Shm.Lookup.{get-update}
use mtrdma_artifact.Ebpf.{
  Kernel, MonitorState, enhanced, ebpf_update_process_resources, ebpf_get_process_resources,
  ebpf_get_enhanced_process_resources,
}

-- In a process without the map of the processes: after a successful update through
-- `ebpf_monitor_shm.c`, both monitors show the new usage to a reader of the process, the enhanced one
-- with zero for what the shared object does not have, and what they showed before to a reader of any
-- other.
pub monitors-update :
    (kernel : Kernel) (stat : ℕ → Option (List ℕ)) (os : Os) (pid q : ℕ) (u : ResourceUsage)
    (s : MonitorState)
    → s.map_fds.process_resources_fd ≡ false
    → let (r, shm') = ebpf_update_process_resources stat os pid (some u) s.shm in
      let s' : MonitorState = record s { shm = shm' } in
      r ≡ ok
      → (ebpf_get_process_resources q s'.shm
          ≡ (if q == pid then (ok, u) else ebpf_get_process_resources q s.shm))
        × (ebpf_get_enhanced_process_resources kernel q s' ≡ (
            if q == pid then some (enhanced u) else ebpf_get_enhanced_process_resources kernel q s))
unfolding ebpf_update_process_resources ebpf_get_process_resources
    ebpf_get_enhanced_process_resources
monitors-update kernel stat os pid q u s off h =
    rw (off, get-update stat os pid u s.shm q h) (ground arith)
