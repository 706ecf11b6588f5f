-- ===== src/Tenant/Binding/Invariant.antt =====
-- src/shm/shared_memory_tenant.c: binding and unbinding a process keep the object valid.
use mtrdma_artifact.Common.{
  ℕ, ◌<◌, ◌≡◌, ◌≢◌, refl, sym, ◌∙◌, inl, inr, arith, false, not, Option, none, some, Os, Bool-cases,
  update, total-update, total-update_same, le-total, add32, leb, Found, IsEmptySlot,
  find_index-Found, find_slot-eq-find_index, find_slot-IsEmptySlot,
}
use mtrdma_artifact.Tenant.State.{
  max_tenants, max_processes, is_active, is_inactive, PidMapping, TenantSharedMemory, TenantState,
}
use mtrdma_artifact.Tenant.State.Invariant.{
  IsConsistent, IsValid, in_use, in_use-le, unlock-IsValid, set_tenant-IsConsistent,
  with_shm-IsValid,
}
use mtrdma_artifact.Tenant.Binding.{
  pids_of, set_mapping, bind_slot, bind_locked, tenant_bind_process, decrement, unbind_slot,
  unbind_locked, tenant_unbind_process, get_process_tenant_locked, tenant_get_process_tenant,
}

-- A known process is moved to another tenant, which exists.
rebound-IsConsistent :
    (i pid tenant_id now : ℕ) (d : TenantSharedMemory)
    → pid ≢ 0
    → tenant_id < max_tenants
    → is_inactive (d.tenants tenant_id).status ≡ false
    → (d.pid_mappings i).pid ≡ pid
    → IsConsistent d
    → IsConsistent (set_mapping i (record { pid = pid; tenant_id = tenant_id; mapped_at = now }) d)
rebound-IsConsistent i pid tenant_id now d nz lt on e v =
    let m : PidMapping = record { pid = pid; tenant_id = tenant_id; mapped_at = now } in
    record {
      counted = v.counted;
      mapped = omega (
        arith,
        v.mapped,
        total-update_same in_use max_processes d.pid_mappings i m (ground arith),
      );
      reserved = v.reserved;
      sound = λ j ltj. ground (arith, v.sound j ltj);
      unique = λ a b la lb. ground (arith, v.unique a b la lb);
    }

-- A new process takes a free mapping.
bound-IsConsistent :
    (i pid tenant_id now : ℕ) (d : TenantSharedMemory)
    → pid ≢ 0
    → tenant_id < max_tenants
    → is_inactive (d.tenants tenant_id).status ≡ false
    → IsEmptySlot (pids_of d.pid_mappings) max_processes (some i)
    → Found (pids_of d.pid_mappings) pid 0 max_processes none
    → IsConsistent d
    → IsConsistent (
        set_mapping i
          (record { pid = pid; tenant_id = tenant_id; mapped_at = now })
          (record d { total_process_count = add32 d.total_process_count 1 }))
bound-IsConsistent i pid tenant_id now d nz lt on free absent v =
    let m : PidMapping = record { pid = pid; tenant_id = tenant_id; mapped_at = now } in
    record {
      counted = v.counted;
      mapped = ground (
        arith,
        v.mapped,
        in_use-le max_processes d.pid_mappings,
        total-update in_use max_processes d.pid_mappings i m free.0,
      );
      reserved = v.reserved;
      sound = λ j ltj. ground (arith, v.sound j ltj);
      unique = λ a b la lb.
          ground (arith, v.unique a b la lb, absent a (omega arith) la, absent b (omega arith) lb);
    }

bind_slot-keeps :
    (os : Os) (pid tenant_id : ℕ) (found empty_slot : Option ℕ) (d : TenantSharedMemory)
    → pid ≢ 0
    → tenant_id < max_tenants
    → is_inactive (d.tenants tenant_id).status ≡ false
    → Found (pids_of d.pid_mappings) pid 0 max_processes found
    → IsEmptySlot (pids_of d.pid_mappings) max_processes empty_slot
    → IsConsistent d
    → IsValid (bind_slot os pid tenant_id found empty_slot d).1
unfolding bind_slot
bind_slot-keeps os pid tenant_id (some i) empty_slot d nz lt on f e v = unlock-IsValid _ (
    set_tenant-IsConsistent tenant_id _ refl
      (rebound-IsConsistent i pid tenant_id (os.time 1) d nz lt on f.2 v))
bind_slot-keeps os pid tenant_id none (some i) d nz lt on f e v = unlock-IsValid _ (
    set_tenant-IsConsistent tenant_id _ refl
      (bound-IsConsistent i pid tenant_id (os.time 1) d nz lt on e f v))
bind_slot-keeps os pid tenant_id none none d nz lt on f e v = unlock-IsValid _ v

bind-keeps :
    (os : Os) (pid tenant_id : ℕ)
    → pid ≢ 0
    → tenant_id < max_tenants
    → (d : TenantSharedMemory) → IsConsistent d
    → IsValid (bind_locked os pid tenant_id d).1
unfolding bind_locked
bind-keeps os pid tenant_id nz lt d v =
    elim (Bool-cases (not (is_active (d.tenants tenant_id).status))) [
      | inl e ↦ rw e (unlock-IsValid _ v)
      | inr e ↦ rw e (
          bind_slot-keeps os pid tenant_id _ _ d nz lt (ground arith)
            (rw (find_slot-eq-find_index (pids_of d.pid_mappings) pid 0 max_processes none)
              (find_index-Found (pids_of d.pid_mappings) pid 0 max_processes))
            (find_slot-IsEmptySlot (pids_of d.pid_mappings) pid 0 max_processes none max_processes
              (omega arith) tt)
            v)
    ]

pub bind-IsValid :
    (os : Os) (pid tenant_id : ℕ) (s : TenantState)
    → pid ≢ 0
    → IsValid s.shm
    → IsValid (tenant_bind_process os pid tenant_id s).1.shm
unfolding tenant_bind_process
bind-IsValid os pid tenant_id s nz v = elim (Bool-cases (leb max_tenants tenant_id)) [
  | inl e ↦ rw e v
  | inr e ↦ rw e (with_shm-IsValid os _ _ s (bind-keeps os pid tenant_id nz (ground arith)) v)
]

-- A mapping in use is freed.
unbound-IsConsistent :
    (i : ℕ) (d : TenantSharedMemory)
    → i < max_processes
    → (d.pid_mappings i).pid ≢ 0
    → IsConsistent d
    → IsConsistent (record d {
      pid_mappings = update d.pid_mappings i (record (d.pid_mappings i) { pid = 0; tenant_id = 0 });
      total_process_count = decrement d.total_process_count;
    })
unbound-IsConsistent i d lt used v = record {
  counted = v.counted;
  mapped = ground (
    arith,
    v.mapped,
    le-total in_use max_processes d.pid_mappings i lt,
    total-update in_use max_processes d.pid_mappings i
        (record (d.pid_mappings i) { pid = 0; tenant_id = 0 }) lt,
  );
  reserved = v.reserved;
  sound = λ j ltj. ground (arith, v.sound j ltj);
  unique = λ a b la lb. ground (arith, v.unique a b la lb);
}

unbind_slot-keeps :
    (os : Os) (pid : ℕ) (found : Option ℕ) (d : TenantSharedMemory)
    → pid ≢ 0
    → Found (pids_of d.pid_mappings) pid 0 max_processes found
    → IsConsistent d
    → IsValid (unbind_slot os pid found d).1
unfolding unbind_slot
unbind_slot-keeps os pid none d nz f v = unlock-IsValid _ v
unbind_slot-keeps os pid (some i) d nz f v = unlock-IsValid _ (
    set_tenant-IsConsistent (d.pid_mappings i).tenant_id _ refl
      (unbound-IsConsistent i d f.1 (λ z. nz (sym f.2 ∙ z)) v))

pub unbind-IsValid :
    (os : Os) (pid : ℕ) (s : TenantState)
    → pid ≢ 0
    → IsValid s.shm
    → IsValid (tenant_unbind_process os pid s).1.shm
unfolding tenant_unbind_process unbind_locked
unbind-IsValid os pid s nz v =
    with_shm-IsValid os _ _ s
      (λ d c.
        unbind_slot-keeps os pid _ d nz
          (find_index-Found (pids_of d.pid_mappings) pid 0 max_processes) c)
      v

pub get_process_tenant-IsValid :
    (os : Os) (pid : ℕ) (s : TenantState)
    → IsValid s.shm
    → IsValid (tenant_get_process_tenant os pid s).1.shm
unfolding tenant_get_process_tenant get_process_tenant_locked
get_process_tenant-IsValid os pid s v = with_shm-IsValid os _ _ s (λ d c. unlock-IsValid _ c) v
