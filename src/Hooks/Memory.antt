-- ===== src/Hooks/Memory.antt =====
-- src/rdma_hooks_tenant.c: memory regions, completion queues and protection domains.
use mtrdma_artifact.Common.{
  ℕ, ◌-◌, Bool, true, false, not, ◌&&◌, ◌||◌, Option, none, some, Status, ok, fail, if◌then◌else◌,
  ltb, leb, ◌==◌, add32, add64,
}
use mtrdma_artifact.Tenant.State.{TenantInfo}
use mtrdma_artifact.Tenant.Admin.{tenant_get_info}
use mtrdma_artifact.Hooks.{
  HookState, Host, enosys, eperm, eagain, Answer, answered, refused, rdma_intercept_is_enabled,
}
use mtrdma_artifact.Hooks.RateLimit.{check_mr_rate_limit}
use mtrdma_artifact.Hooks.Identity.{get_current_tenant_id}
use mtrdma_artifact.Hooks.Counting.{update_tenant_resource_count, minus_one}

-- The comparison with the quota; a memory quota of 0 is none.
pub within_quota : ℕ → Status × Option TenantInfo → Bool
within_quota length (fail, info) = false
within_quota length (ok, none) = false
within_quota length (ok, some info) =
    if leb info.quota.max_mr_per_tenant info.usage.mr_count
    then false
    else not (
        ltb 0 info.quota.max_memory_per_tenant
        && ltb info.quota.max_memory_per_tenant (add64 info.usage.memory_used length))

pub check_tenant_mr_limit_inline : Host → ℕ → ℕ → HookState → Bool × HookState
unfolding within_quota
check_tenant_mr_limit_inline host tenant_id length s =
    let (r, ts) = tenant_get_info (host.os 0) tenant_id s.tenants in
    if (tenant_id == 0) || not s.tenant_initialized
    then (true, s)
    else (within_quota length r, record s { tenants = ts })

-- The counters after the real registration answered.
pub count_mr : Host → ℕ → ℕ → Option ℕ → HookState → HookState
count_mr host tenant_id length none s = s
count_mr host tenant_id length (some mr) s =
    update_tenant_resource_count host tenant_id 1 1
      (record s { mr_count = add32 s.mr_count 1; memory_used = add64 s.memory_used length })

-- `none` is a real function that was not found.
pub ibv_reg_mr : Host → Option (ℕ → Option ℕ) → ℕ → HookState → Answer (Option ℕ) × HookState
unfolding check_tenant_mr_limit_inline count_mr
ibv_reg_mr host none length s = (refused enosys, s)
ibv_reg_mr host (some real) length s =
    let (tenant_id, s1) = get_current_tenant_id host s in
    let (fits, s2) = check_tenant_mr_limit_inline host tenant_id length s1 in
    let (allowed, s3) = check_mr_rate_limit host s2 in
    if not (rdma_intercept_is_enabled s)
    then (answered (real length), s)
    else if not fits
    then (refused eperm, s2)
    else if not allowed
    then (refused eagain, s3)
    else (answered (real length), count_mr host tenant_id length (real length) s3)

-- `length` is the length of the region, 0 for a null pointer.
pub ibv_dereg_mr : Host → Option (Unit {0} → ℕ) → ℕ → HookState → Answer ℕ × HookState
ibv_dereg_mr host none length s = (refused enosys, s)
ibv_dereg_mr host (some real) length s =
    let (allowed, s1) = check_mr_rate_limit host s in
    let counted = record s1 {
      mr_count = if ltb 0 s1.mr_count then s1.mr_count - 1 else s1.mr_count;
      memory_used = if leb length s1.memory_used then s1.memory_used - length else s1.memory_used;
    } in
    let (tenant_id, s2) = get_current_tenant_id host counted in
    if not (rdma_intercept_is_enabled s)
    then (answered (real tt), s)
    else if not allowed
    then (refused eagain, s1)
    else if real tt == 0
    then (answered (real tt), update_tenant_resource_count host tenant_id 1 minus_one s2)
    else (answered (real tt), s1)

-- The common shape of the verbs that are only counted: for `ibv_create_cq` and `ibv_alloc_pd` the
-- result is a pointer, and 1 is added.
pub counted_create :
    ℕ → Host → Option (Unit {0} → Option ℕ) → HookState → Answer (Option ℕ) × HookState
counted_create resource_type host none s = (refused enosys, s)
counted_create resource_type host (some real) s =
    let (tenant_id, s') = get_current_tenant_id host s in
    if not (rdma_intercept_is_enabled s) then (answered (real tt), s) else elim (real tt) [
      | none ↦ (answered none, s)
      | some p ↦ (answered (some p), update_tenant_resource_count host tenant_id resource_type 1 s')
    ]

-- For `ibv_destroy_cq` and `ibv_dealloc_pd` it is 0 on success, and 1 is taken off.
pub counted_destroy : ℕ → Host → Option (Unit {0} → ℕ) → HookState → Answer ℕ × HookState
counted_destroy resource_type host none s = (refused enosys, s)
counted_destroy resource_type host (some real) s =
    let (tenant_id, s') = get_current_tenant_id host s in
    if not (rdma_intercept_is_enabled s)
    then (answered (real tt), s)
    else if real tt == 0
    then (
      answered (real tt),
      update_tenant_resource_count host tenant_id resource_type minus_one s',
    )
    else (answered (real tt), s)

pub ibv_create_cq : Host → Option (Unit {0} → Option ℕ) → HookState → Answer (Option ℕ) × HookState
unfolding counted_create
ibv_create_cq = counted_create 3

pub ibv_destroy_cq : Host → Option (Unit {0} → ℕ) → HookState → Answer ℕ × HookState
unfolding counted_destroy
ibv_destroy_cq = counted_destroy 3

pub ibv_alloc_pd : Host → Option (Unit {0} → Option ℕ) → HookState → Answer (Option ℕ) × HookState
unfolding counted_create
ibv_alloc_pd = counted_create 4

pub ibv_dealloc_pd : Host → Option (Unit {0} → ℕ) → HookState → Answer ℕ × HookState
unfolding counted_destroy
ibv_dealloc_pd = counted_destroy 4
