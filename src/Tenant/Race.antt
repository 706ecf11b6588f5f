-- ===== src/Tenant/Race.antt =====
-- src/shm/shared_memory_tenant.c: `tenant_try_allocate_qp` by several threads at once, in steps of one
-- access to the shared object. The threads call it for one active tenant and have fetched the pointer.
pub mod Exclusion
pub mod Account
pub mod Quota
pub mod Progress
mod Tests
use mtrdma_artifact.Common.{
  ℕ, ◌+◌, ◌<◌, Bool, true, false, not, ◌==◌, leb, if◌then◌else◌, add32, add64, u64_mod, update,
}
use mtrdma_artifact.Tenant.State.{is_active, TenantInfo, TenantUsage, TenantSharedMemory}
use mtrdma_artifact.Tenant.Usage.{clamp_negative}

-- Where a thread stands; the argument is what it will return, or has loaded.
pub data Pc : Type 0 where
  locking : Pc  -- at the test-and-set of `spin_lock`
  spinning : Pc  -- at the test of its inner loop
  entered : Pc  -- at the test of the status
  clamping : Pc
  comparing : Pc
  incrementing : Pc  -- at the load of `qp_count++`
  storing : ℕ → Pc  -- at its store
  counting : Pc
  stamping : Pc
  unlocking : Bool → Pc  -- at the release of `spin_unlock`
  versioning : Bool → Pc  -- at the load of `version++`, which comes after the release
  bumping : Bool → ℕ → Pc  -- at its store
  dating : Bool → Pc
  done : Bool → Pc

abbrev pub with_tenant : ℕ → (TenantInfo → TenantInfo) → TenantSharedMemory → TenantSharedMemory
with_tenant tenant_id f d = record d {
  tenants = update d.tenants tenant_id (f (d.tenants tenant_id));
}

abbrev pub with_count : ℕ → TenantInfo → TenantInfo
with_count n tenant = record tenant { usage = record (tenant.usage) { qp_count = n } }

abbrev pub add_create : TenantInfo → TenantInfo
add_create tenant = record tenant {
  usage = record (tenant.usage) { total_qp_creates = add64 tenant.usage.total_qp_creates 1 };
}

-- The calls of threads 0 up to n, and the shared object.
pub record System : Type 0 where
  pub pcs : ℕ → Pc
  pub shm : TenantSharedMemory

-- Every thread is about to take the lock.
abbrev pub start : TenantSharedMemory → System
start d = record { pcs = λ t. locking; shm = d }

module _ (tenant_id : ℕ) where
  pub thread_step : ℕ → Pc → TenantSharedMemory → Pc × TenantSharedMemory
  thread_step now locking d = (if d.lock == 0 then entered else spinning, record d { lock = 1 })
  thread_step now spinning d = (if d.lock == 0 then locking else spinning, d)
  thread_step now entered d =
      (if not (is_active (d.tenants tenant_id).status) then unlocking false else clamping, d)
  thread_step now clamping d =
      let count = clamp_negative (d.tenants tenant_id).usage.qp_count in
      (comparing, with_tenant tenant_id (with_count count) d)
  thread_step now comparing d =
      let tenant = d.tenants tenant_id in
      (
        if leb tenant.quota.max_qp_per_tenant tenant.usage.qp_count
            then unlocking false
            else incrementing,
        d,
      )
  thread_step now incrementing d = (storing (d.tenants tenant_id).usage.qp_count, d)
  thread_step now (storing n) d = (counting, with_tenant tenant_id (with_count (add32 n 1)) d)
  thread_step now counting d = (stamping, with_tenant tenant_id add_create d)
  thread_step now stamping d =
      (unlocking true, with_tenant tenant_id (λ tenant. record tenant { last_active_at = now }) d)
  thread_step now (unlocking r) d = (versioning r, record d { lock = 0 })
  thread_step now (versioning r) d = (bumping r d.version, d)
  thread_step now (bumping r v) d = (dating r, record d { version = add64 v 1 })
  thread_step now (dating r) d = (done r, record d { last_update_time = now })
  thread_step now (done r) d = (done r, d)

  abbrev pub advance : ℕ → ℕ → System → System
  advance now t s =
      let r = thread_step now (s.pcs t) s.shm in record { pcs = update s.pcs t r.0; shm = r.1 }

  -- Any thread makes the next step, at any time of the clock.
  pub data Step (n : ℕ) (s : System) : System → Type 0 where
    step : (now t : ℕ) → t < n → Step n s (advance now t s)

  pub data Reach (n : ℕ) (first : System) : System → Type 0 where
    begin : Reach n first first
    onward : {s s' : System} → Reach n first s → Step n s s' → Reach n first s'
