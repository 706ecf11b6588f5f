-- ===== src/Tenant/Binding/Lookup.antt =====
-- src/shm/shared_memory_tenant.c: which tenant a process is found in after a binding or unbinding.
use mtrdma_artifact.Common.{
  ℕ, ◌≡◌, ◌≢◌, refl, sym, ◌∙◌, inl, inr, arith, true, not, Option, none, some, ok, fail, Os,
  if◌then◌else◌, Bool-cases, ◌==◌, leb, find_index, IsEmptySlot, find_slot-eq-find_index,
  find_slot-IsEmptySlot, value_at, view-found, view-claimed, view-cleared, index-Found,
}
use mtrdma_artifact.Tenant.State.{
  max_tenants, max_processes, is_active, TenantSharedMemory, TenantState, tenant_shm_unlock,
}
use mtrdma_artifact.Tenant.State.Invariant.{IsConsistent, IsValid, with_shm-attached}
use mtrdma_artifact.Tenant.Binding.{
  pids_of, bind_slot, bind_locked, tenant_bind_process, unbind_slot, unbind_locked,
  tenant_unbind_process, tenant_of, get_process_tenant_locked, tenant_get_process_tenant,
}

-- The abstract view of the table: a partial map from pids to tenants.
unfoldable pub tenant_of_process : TenantSharedMemory → ℕ → Option ℕ
tenant_of_process d pid =
    value_at none (tenant_of d.pid_mappings)
      (find_index (pids_of d.pid_mappings) pid 0 max_processes)

-- A read in an attached process is a read of the view.
pub get_process_tenant_lem :
    (os : Os) (pid : ℕ) (s : TenantState)
    → s.attached ≡ true
    → (tenant_get_process_tenant os pid s).0 ≡ tenant_of_process s.shm pid
unfolding tenant_get_process_tenant get_process_tenant_locked tenant_of_process
get_process_tenant_lem os pid s on =
    rw (with_shm-attached os none (get_process_tenant_locked os pid) s on)

bind_slot-view :
    (os : Os) (pid tenant_id : ℕ) (found empty_slot : Option ℕ) (d : TenantSharedMemory) (q : ℕ)
    → find_index (pids_of d.pid_mappings) pid 0 max_processes ≡ found
    → IsEmptySlot (pids_of d.pid_mappings) max_processes empty_slot
    → q ≢ 0
    → (bind_slot os pid tenant_id found empty_slot d).0 ≡ ok
    → tenant_of_process (bind_slot os pid tenant_id found empty_slot d).1 q
      ≡ (if q == pid then some tenant_id else tenant_of_process d q)
unfolding bind_slot tenant_of_process tenant_shm_unlock
bind_slot-view os pid tenant_id (some i) empty_slot d q found e nz h =
    view-found none max_processes (pids_of d.pid_mappings) _ (tenant_of d.pid_mappings) _ i
      (some tenant_id) (λ j. ground arith) pid q found
      (λ j. ground (arith, (index-Found _ pid max_processes (some i) found).2))
bind_slot-view os pid tenant_id none (some i) d q found e nz h =
    view-claimed none max_processes (pids_of d.pid_mappings) _ (tenant_of d.pid_mappings) _ i
      (some tenant_id) (λ j. ground arith) pid q found e.0 e.1 nz (λ j. ground arith)
bind_slot-view os pid tenant_id none none d q found e nz h = cc

bind_locked-view :
    (os : Os) (pid tenant_id : ℕ) (d : TenantSharedMemory) (q : ℕ)
    → q ≢ 0
    → (bind_locked os pid tenant_id d).0 ≡ ok
    → tenant_of_process (bind_locked os pid tenant_id d).1 q
      ≡ (if q == pid then some tenant_id else tenant_of_process d q)
unfolding bind_locked
bind_locked-view os pid tenant_id d q nz =
    elim (Bool-cases (not (is_active (d.tenants tenant_id).status))) [
      | inl e ↦ rw e (λ h. cc)
      | inr e ↦ rw e (
          bind_slot-view os pid tenant_id _ _ d q
            (sym (find_slot-eq-find_index (pids_of d.pid_mappings) pid 0 max_processes none))
            (find_slot-IsEmptySlot (pids_of d.pid_mappings) pid 0 max_processes none max_processes
              (omega arith) tt)
            nz)
    ]

-- A successful `tenant_bind_process` in an attached process binds that process: for every process
-- with a pid that is not 0, a later lookup gives the tenant for the bound one and what it gave
-- before for any other.
pub lookup-bind :
    (os os' : Os) (pid tenant_id : ℕ) (s : TenantState) (q : ℕ)
    → s.attached ≡ true
    → q ≢ 0
    → (tenant_bind_process os pid tenant_id s).0 ≡ ok
    → (tenant_get_process_tenant os' q (tenant_bind_process os pid tenant_id s).1).0
      ≡ (if q == pid then some tenant_id else (tenant_get_process_tenant os' q s).0)
unfolding tenant_bind_process tenant_of_process
lookup-bind os os' pid tenant_id s q on nz = elim (Bool-cases (leb max_tenants tenant_id)) [
  | inl e ↦ rw e (λ h. cc)
  | inr e ↦
      rw
        (
          e,
          with_shm-attached os fail (bind_locked os pid tenant_id) s on,
          get_process_tenant_lem os' q s on,
        )
        (λ h.
          get_process_tenant_lem os' q _ on
          ∙ bind_locked-view os pid tenant_id (record (s.shm) { lock = 1 }) q nz h)
]

relock : {d : TenantSharedMemory} → IsConsistent d → IsConsistent (record d { lock = 1 })
relock v = record {
  counted = v.counted;
  mapped = v.mapped;
  reserved = v.reserved;
  sound = v.sound;
  unique = v.unique;
}

unbind_slot-view :
    (os : Os) (pid : ℕ) (found : Option ℕ) (d : TenantSharedMemory) (q : ℕ)
    → IsConsistent d
    → find_index (pids_of d.pid_mappings) pid 0 max_processes ≡ found
    → q ≢ 0
    → (unbind_slot os pid found d).0 ≡ ok
    → tenant_of_process (unbind_slot os pid found d).1 q
      ≡ (if q == pid then none else tenant_of_process d q)
unfolding unbind_slot tenant_of_process tenant_shm_unlock
unbind_slot-view os pid none d q v found nz h = cc
unbind_slot-view os pid (some i) d q v found nz h =
    let hit = index-Found (pids_of d.pid_mappings) pid max_processes (some i) found in
    rw (← hit.2) (
      view-cleared none max_processes (pids_of d.pid_mappings) _ (tenant_of d.pid_mappings) _ i
        (some 0) (λ j. ground arith) q hit.1 (λ j lt ne e. v.unique j i lt hit.1 ne e) nz
        (λ j. ground arith))

-- A successful `tenant_unbind_process` on a valid object in an attached process: for every process
-- with a pid that is not 0, a later lookup finds no tenant for the unbound one, and what it found
-- before for any other.
pub lookup-unbind :
    (os os' : Os) (pid : ℕ) (s : TenantState) (q : ℕ)
    → s.attached ≡ true
    → IsValid s.shm
    → q ≢ 0
    → (tenant_unbind_process os pid s).0 ≡ ok
    → (tenant_get_process_tenant os' q (tenant_unbind_process os pid s).1).0
      ≡ (if q == pid then none else (tenant_get_process_tenant os' q s).0)
unfolding tenant_unbind_process unbind_locked tenant_of_process
lookup-unbind os os' pid s q on v nz =
    rw (with_shm-attached os fail (unbind_locked os pid) s on, get_process_tenant_lem os' q s on)
      (λ h.
        get_process_tenant_lem os' q _ on
        ∙ unbind_slot-view os pid _ (record (s.shm) { lock = 1 }) q (relock v.consistent) refl nz h)
