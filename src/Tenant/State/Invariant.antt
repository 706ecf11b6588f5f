-- ===== src/Tenant/State/Invariant.antt =====
-- src/shm/shared_memory_tenant.c: the invariant of the shared object, and the parts of its proofs
-- that the operations share.
use mtrdma_artifact.Common.{
  ℕ, ◌≤◌, ◌<◌, ◌≡◌, ◌≢◌, refl, true, false, not, ◌&&◌, inl, inr, Os, arith, if◌then◌else◌, if_intro,
  Bool-cases, ◌==◌, update, total, total-update_same, total-le, total-zero,
}
use mtrdma_artifact.Tenant.State.{
  max_tenants, max_processes, is_inactive, TenantInfo, PidMapping, TenantSharedMemory, TenantState,
  zero_shm, fresh_shm, tenant_shm_unlock, tenant_shm_lock, tenant_shm_init, tenant_shm_get_ptr,
  with_shm,
}

-- 1 for a tenant that exists, 1 for a mapping in use.
abbrev pub exists : TenantInfo → ℕ
exists t = if is_inactive t.status then 0 else 1

abbrev pub in_use : PidMapping → ℕ
in_use m = if m.pid == 0 then 0 else 1

-- A mapping in use names a tenant of the array that exists; a free one names tenant 0.
abbrev pub IsSound : (ℕ → TenantInfo) → PidMapping → Type 0
IsSound tenants m =
    (m.pid ≢ 0 → (m.tenant_id < max_tenants) × (is_inactive (tenants m.tenant_id).status ≡ false))
    × (m.pid ≡ 0 → m.tenant_id ≡ 0)

pub record IsConsistent (d : TenantSharedMemory) : Type 0 where
  pub counted : total exists max_tenants d.tenants ≡ d.active_tenant_count
  pub mapped : total in_use max_processes d.pid_mappings ≡ d.total_process_count
  pub reserved : is_inactive (d.tenants 0).status ≡ true
  pub sound : (i : ℕ) → i < max_processes → IsSound d.tenants (d.pid_mappings i)
  pub unique :
      (i j : ℕ)
      → i < max_processes
      → j < max_processes
      → (d.pid_mappings i).pid ≢ 0
      → (d.pid_mappings i).pid ≡ (d.pid_mappings j).pid
      → i ≡ j

-- The object between two operations: consistent, with the lock free.
pub record IsValid (d : TenantSharedMemory) : Type 0 where
  pub consistent : IsConsistent d
  pub free : d.lock ≡ 0

pub exists-le : (n : ℕ) (f : ℕ → TenantInfo) → total exists n f ≤ n
exists-le = total-le exists (λ t. ground arith)

pub in_use-le : (n : ℕ) (f : ℕ → PidMapping) → total in_use n f ≤ n
in_use-le = total-le in_use (λ m. ground arith)

pub zero-IsConsistent : IsConsistent zero_shm
zero-IsConsistent = record {
  counted = total-zero exists max_tenants zero_shm.tenants (λ i. refl);
  mapped = total-zero in_use max_processes zero_shm.pid_mappings (λ i. refl);
  reserved = refl;
  sound = λ i lt. ((λ ne. absurd (ne refl)), (λ e. refl));
  unique = λ i j li lj ne e. absurd (ne refl);
}

-- The fields besides the tables do not matter.
pub unlock-IsValid :
    (now : ℕ) {d : TenantSharedMemory} → IsConsistent d → IsValid (tenant_shm_unlock now d)
unfolding tenant_shm_unlock
unlock-IsValid now v = record {
  consistent = record {
    counted = v.counted;
    mapped = v.mapped;
    reserved = v.reserved;
    sound = v.sound;
    unique = v.unique;
  };
  free = refl;
}

lock-IsConsistent : {d : TenantSharedMemory} → IsValid d → IsConsistent (tenant_shm_lock d)
unfolding tenant_shm_lock
lock-IsConsistent v = record {
  counted = v.consistent.counted;
  mapped = v.consistent.mapped;
  reserved = v.consistent.reserved;
  sound = v.consistent.sound;
  unique = v.consistent.unique;
}

-- Any change of a tenant that does not turn it on or off keeps the object consistent.
pub set_tenant-IsConsistent :
    (tenant_id : ℕ) (t : TenantInfo) {d : TenantSharedMemory}
    → is_inactive t.status ≡ is_inactive (d.tenants tenant_id).status
    → IsConsistent d
    → IsConsistent (record d { tenants = update d.tenants tenant_id t })
set_tenant-IsConsistent tenant_id t {d} e v = record {
  counted =
      omega (
        arith,
        v.counted,
        total-update_same exists max_tenants d.tenants tenant_id t (ground arith),
      );
  mapped = v.mapped;
  reserved = ground (arith, v.reserved);
  sound = λ i lt. ground (arith, v.sound i lt);
  unique = v.unique;
}

init-IsValid : (os : Os) (s : TenantState) → IsValid s.shm → IsValid (tenant_shm_init os s).1.shm
unfolding tenant_shm_init
init-IsValid os s v =
    ground (arith, if_intro IsValid (os.fstat && (s.shm.version == 0)) (λ _. fresh) (λ _. v))
  where
    fresh : IsValid (fresh_shm (os.time 0))
    fresh = record {
      consistent = record {
        counted = zero-IsConsistent.counted;
        mapped = zero-IsConsistent.mapped;
        reserved = refl;
        sound = zero-IsConsistent.sound;
        unique = zero-IsConsistent.unique;
      };
      free = refl;
    }

pub get_ptr-IsValid :
    (os : Os) (s : TenantState) → IsValid s.shm → IsValid (tenant_shm_get_ptr os s).shm
unfolding tenant_shm_get_ptr
get_ptr-IsValid os s v = ground (arith, init-IsValid os s v)

-- What each operation has to show of its critical section.
pub with_shm-IsValid {ℓ} :
    {R : Type ℓ} (os : Os) (failed : R) (body : TenantSharedMemory → R × TenantSharedMemory)
    (s : TenantState)
    → ((d : TenantSharedMemory) → IsConsistent d → IsValid (body d).1)
    → IsValid s.shm
    → IsValid (with_shm os failed body s).1.shm
unfolding with_shm
with_shm-IsValid os failed body s keeps v =
    elim (Bool-cases (not (tenant_shm_get_ptr os s).attached)) [
      | inl e ↦ rw e (get_ptr-IsValid os s v)
      | inr e ↦ rw e (keeps _ (lock-IsConsistent (get_ptr-IsValid os s v)))
    ]

-- In an attached process an operation is its critical section, run under the lock.
pub with_shm-attached {ℓ} :
    {R : Type ℓ} (os : Os) (failed : R) (body : TenantSharedMemory → R × TenantSharedMemory)
    (s : TenantState)
    → s.attached ≡ true
    → with_shm os failed body s ≡ (
      (body (record (s.shm) { lock = 1 })).0,
      record s { shm = (body (record (s.shm) { lock = 1 })).1 },
    )
unfolding with_shm tenant_shm_get_ptr tenant_shm_lock
with_shm-attached os failed body s e = rw (e, tenant_shm_get_ptr)
