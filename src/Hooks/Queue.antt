-- ===== src/Hooks/Queue.antt =====
-- src/rdma_hooks_tenant.c: creation and destruction of queue pairs.
pub mod Reservation
mod Tests
use mtrdma_artifact.Common.{
  ℕ, ◌-◌, Bool, true, false, not, ◌&&◌, Option, none, some, if◌then◌else◌, ltb, leb, ◌==◌, add32,
  is_negative,
}
use mtrdma_artifact.Shm.{
  ResourceUsage, shm_get_process_resources, shm_get_global_resources, shm_update_process_resources,
}
use mtrdma_artifact.Tenant.State.{TenantUsage}
use mtrdma_artifact.Hooks.{
  InterceptConfig, HookState, Host, enosys, eperm, Answer, answered, refused,
  rdma_intercept_is_enabled,
}
use mtrdma_artifact.Hooks.Identity.{get_current_tenant_id, check_tenant_qp_limit}
use mtrdma_artifact.Hooks.Counting.{change_usage, update_tenant_resource_count, minus_one}

pub data QpType : Type 0 where
  ibv_qpt_rc ibv_qpt_uc ibv_qpt_ud : QpType
  ibv_qpt_other : ℕ → QpType

-- The fields of `struct ibv_qp_init_attr` and of the extended one that the file reads.
pub record QpInitAttr : Type 0 where
  pub qp_type : QpType
  pub max_send_wr : ℕ
  pub max_recv_wr : ℕ

pub allows_type : InterceptConfig → QpType → Bool
allows_type c ibv_qpt_rc = c.allow_rc_qp
allows_type c ibv_qpt_uc = c.allow_uc_qp
allows_type c ibv_qpt_ud = c.allow_ud_qp
allows_type c (ibv_qpt_other n) = true

-- The limit per process; an unreadable object denies nothing.
pub within_process_limit : ℕ → Option ResourceUsage → Bool
within_process_limit limit none = true
within_process_limit limit (some u) = not (ltb limit (add32 u.qp_count 1))

pub within_global_limit : ℕ → Option ResourceUsage → Bool
within_global_limit limit none = true
within_global_limit limit (some u) = not (leb limit u.qp_count)

-- The checks of `ibv_create_qp` that change nothing.
pub check_qp_creation_restrictions : Host → QpInitAttr → HookState → Bool
unfolding allows_type within_process_limit within_global_limit
check_qp_creation_restrictions host attr s =
    let c = s.config in
    if not c.enable_qp_control
    then true
    else if not (allows_type c attr.qp_type)
    then false
    else if not
        (within_process_limit c.max_qp_per_process (shm_get_process_resources host.pid s.shm))
    then false
    else if ltb c.max_send_wr_limit attr.max_send_wr
    then false
    else if ltb c.max_recv_wr_limit attr.max_recv_wr
    then false
    else within_global_limit c.max_global_qp (shm_get_global_resources s.shm)

-- Those of the wrapped `create_qp_ex`: the depths of the queues are not among them.
pub check_qp_creation_restrictions_extended : Host → QpInitAttr → HookState → Bool
unfolding allows_type within_process_limit within_global_limit
check_qp_creation_restrictions_extended host attr s =
    let c = s.config in
    if not c.enable_qp_control
    then true
    else if not (allows_type c attr.qp_type)
    then false
    else if not
        (within_process_limit c.max_qp_per_process (shm_get_process_resources host.pid s.shm))
    then false
    else within_global_limit c.max_global_qp (shm_get_global_resources s.shm)

-- The depths are cut to the limits; a limit of 0 cuts nothing.
abbrev pub clip : ℕ → ℕ → ℕ
clip limit n = if ltb 0 limit && ltb limit n then limit else n

pub clip_attr : InterceptConfig → QpInitAttr → QpInitAttr
clip_attr c attr = if not c.enable_qp_control then attr else record attr {
  max_recv_wr = clip c.max_recv_wr_limit attr.max_recv_wr;
  max_send_wr = clip c.max_send_wr_limit attr.max_send_wr;
}

-- The counters of the process go to the shared object.
pub publish : Host → HookState → HookState
publish host s =
    let usage : ResourceUsage = record {
      qp_count = s.qp_count;
      mr_count = s.mr_count;
      memory_used = s.memory_used;
    } in
    record s {
      shm = (shm_update_process_resources host.stat (host.os 7) host.pid (some usage) s.shm).1;
    }

-- The reservation that is taken back when the real verb fails.
pub take_back : TenantUsage → TenantUsage
take_back u = record u {
  qp_count =
      if ltb 0 u.qp_count && not (is_negative u.qp_count) then u.qp_count - 1 else u.qp_count;
  total_qp_creates =
      if ltb 0 u.total_qp_creates then u.total_qp_creates - 1 else u.total_qp_creates;
}

-- From the answer of the real verb on. `reserved` is `tenant_ok`.
pub settle : Host → ℕ → Bool → Option ℕ → HookState → HookState
unfolding publish take_back
settle host tenant_id reserved (some qp) s =
    publish host (record s { qp_count = add32 s.qp_count 1 })
settle host tenant_id reserved none s =
    if reserved then change_usage host tenant_id take_back s else s

-- What `ibv_create_qp` and the wrapper do after the restrictions: the tenant's reservation, the
-- cut, the real verb. The result has the attributes as the caller finds them afterwards.
pub reserve_and_create :
    Host
    → (QpInitAttr → Option ℕ)
    → QpInitAttr
    → HookState
    → Answer (Option ℕ) × QpInitAttr × HookState
unfolding clip_attr settle
reserve_and_create host real attr s =
    let (tenant_id, s1) = get_current_tenant_id host s in
    let in_tenant = not (tenant_id == 0) && s1.tenant_initialized in
    let (granted, s2) = if in_tenant then check_tenant_qp_limit host tenant_id s1 else (true, s1) in
    let attr' = clip_attr s2.config attr in
    if not granted
    then (refused eperm, attr, s2)
    else (answered (real attr'), attr', settle host tenant_id in_tenant (real attr') s2)

-- `none` is a real function that was not found.
pub ibv_create_qp :
    Host
    → Option (QpInitAttr → Option ℕ)
    → QpInitAttr
    → HookState
    → Answer (Option ℕ) × QpInitAttr × HookState
unfolding check_qp_creation_restrictions reserve_and_create rdma_intercept_is_enabled
ibv_create_qp host none attr s = (refused enosys, attr, s)
ibv_create_qp host (some real) attr s =
    if not (rdma_intercept_is_enabled s)
    then (answered (real attr), attr, s)
    else if not (check_qp_creation_restrictions host attr s)
    then (refused eperm, attr, s)
    else reserve_and_create host real attr s

-- The counter of the process after a destruction.
pub uncounted : HookState → HookState
uncounted s = record s { qp_count = if ltb 0 s.qp_count then s.qp_count - 1 else s.qp_count }

-- A result of 0 is success; the other results are the real verb's.
pub ibv_destroy_qp : Host → Option (Unit {0} → ℕ) → HookState → Answer ℕ × HookState
unfolding uncounted rdma_intercept_is_enabled
ibv_destroy_qp host none s = (refused enosys, s)
ibv_destroy_qp host (some real) s =
    let result = real tt in
    let (tenant_id, s') = get_current_tenant_id host (uncounted s) in
    if not (rdma_intercept_is_enabled s)
    then (answered result, s)
    else if result == 0
    then (answered result, update_tenant_resource_count host tenant_id 0 minus_one s')
    else (answered result, s)
