-- ===== src/Tenant/State.antt =====
-- src/shm/shared_memory_tenant.c: the shared object, how a process attaches to it, and its lock.
pub mod Invariant
use mtrdma_artifact.Common.{
  ℕ, ◌+◌, ◌%◌, Bool, true, false, not, ◌&&◌, List, [], Status, ok, fail, Os, ◌==◌, if◌then◌else◌,
  u64_mod,
}

abbrev pub max_tenants : ℕ
max_tenants = 128

abbrev pub max_processes : ℕ
max_processes = 1024

abbrev pub tenant_name_max : ℕ
tenant_name_max = 64

pub data TenantStatus : Type 0 where
  inactive active suspended : TenantStatus

abbrev pub is_inactive : TenantStatus → Bool
is_inactive inactive = true
is_inactive active = false
is_inactive suspended = false

abbrev pub is_active : TenantStatus → Bool
is_active inactive = false
is_active active = true
is_active suspended = false

-- `tenant_quota_t`
pub record TenantQuota : Type 0 where
  pub max_qp_per_tenant : ℕ
  pub max_mr_per_tenant : ℕ
  pub max_memory_per_tenant : ℕ
  pub max_cq_per_tenant : ℕ
  pub max_pd_per_tenant : ℕ

-- `tenant_resource_usage_t`. The first four are `int`s, kept as bit patterns.
pub record TenantUsage : Type 0 where
  pub qp_count : ℕ
  pub mr_count : ℕ
  pub cq_count : ℕ
  pub pd_count : ℕ
  pub memory_used : ℕ
  pub total_qp_creates : ℕ
  pub total_qp_destroys : ℕ
  pub total_mr_regs : ℕ
  pub total_mr_deregs : ℕ

-- `tenant_info_t`. The name is the string in the array of 64 bytes.
pub record TenantInfo : Type 0 where
  pub tenant_id : ℕ
  pub tenant_name : List ℕ
  pub status : TenantStatus
  pub quota : TenantQuota
  pub usage : TenantUsage
  pub created_at : ℕ
  pub last_active_at : ℕ
  pub process_count : ℕ
  pub processes : ℕ → ℕ

-- `pid_tenant_mapping_t`
pub record PidMapping : Type 0 where
  pub pid : ℕ
  pub tenant_id : ℕ
  pub mapped_at : ℕ

-- `tenant_shared_memory_t`
pub record TenantSharedMemory : Type 0 where
  pub tenants : ℕ → TenantInfo
  pub pid_mappings : ℕ → PidMapping
  pub active_tenant_count : ℕ
  pub total_process_count : ℕ
  pub lock : ℕ
  pub version : ℕ
  pub last_update_time : ℕ

-- One process's view: whether `g_tenant_shm` is set, and the object behind the name.
pub record TenantState : Type 0 where
  pub attached : Bool
  pub shm : TenantSharedMemory

abbrev pub zero_quota : TenantQuota
zero_quota = record {
  max_qp_per_tenant = 0;
  max_mr_per_tenant = 0;
  max_memory_per_tenant = 0;
  max_cq_per_tenant = 0;
  max_pd_per_tenant = 0;
}

abbrev pub zero_usage : TenantUsage
zero_usage = record {
  qp_count = 0;
  mr_count = 0;
  cq_count = 0;
  pd_count = 0;
  memory_used = 0;
  total_qp_creates = 0;
  total_qp_destroys = 0;
  total_mr_regs = 0;
  total_mr_deregs = 0;
}

abbrev pub zero_info : TenantInfo
zero_info = record {
  tenant_id = 0;
  tenant_name = [];
  status = inactive;
  quota = zero_quota;
  usage = zero_usage;
  created_at = 0;
  last_active_at = 0;
  process_count = 0;
  processes = λ _. 0;
}

abbrev pub zero_mapping : PidMapping
zero_mapping = record { pid = 0; tenant_id = 0; mapped_at = 0 }

-- An object of zero bytes.
abbrev pub zero_shm : TenantSharedMemory
zero_shm = record {
  tenants = λ _. zero_info;
  pid_mappings = λ _. zero_mapping;
  active_tenant_count = 0;
  total_process_count = 0;
  lock = 0;
  version = 0;
  last_update_time = 0;
}

abbrev pub fresh_shm : ℕ → TenantSharedMemory
fresh_shm now = record zero_shm { version = 1; last_update_time = now }

unfoldable pub tenant_shm_init : Os → TenantState → Status × TenantState
tenant_shm_init os s =
    if s.attached
    then (ok, s)
    else if not os.shm_open
    then (fail, s)
    else if not os.ftruncate
    then (fail, s)
    else if not os.mmap
    then (fail, s)
    else (
      ok,
      record {
        attached = true;
        shm = if os.fstat && (s.shm.version == 0) then fresh_shm (os.time 0) else s.shm;
      },
    )

-- The name is gone afterwards: the next object under it starts as zero bytes.
pub tenant_shm_destroy : TenantState → Status × TenantState
tenant_shm_destroy s =
    if not s.attached then (ok, s) else (ok, record { attached = false; shm = zero_shm })

-- The pointer is null where the result is not attached.
unfoldable pub tenant_shm_get_ptr : Os → TenantState → TenantState
tenant_shm_get_ptr os s = if not s.attached then (tenant_shm_init os s).1 else s

pub tenant_shm_lock : TenantSharedMemory → TenantSharedMemory
tenant_shm_lock d = record d { lock = 1 }

unfoldable pub tenant_shm_unlock : ℕ → TenantSharedMemory → TenantSharedMemory
tenant_shm_unlock now d = record d {
  lock = 0;
  version = (d.version + 1) % u64_mod;
  last_update_time = now;
}

-- The prologue of every operation: fetch the pointer, give up on null, take the lock.
unfoldable pub with_shm {ℓ} :
    {R : Type ℓ}
    → Os
    → R
    → (TenantSharedMemory → R × TenantSharedMemory)
    → TenantState
    → R × TenantState
unfolding tenant_shm_get_ptr tenant_shm_init tenant_shm_lock
with_shm os failed body s =
    let s' = tenant_shm_get_ptr os s in
    if not s'.attached
    then (failed, s')
    else let (r, d) = body (tenant_shm_lock s'.shm) in (r, record s' { shm = d })
