-- ===== src/Hooks/Identity.antt =====
-- src/rdma_hooks_tenant.c: which tenant the calling process belongs to.
use mtrdma_artifact.Common.{
  ℕ, ◌+◌, Bool, true, false, not, ◌&&◌, ◌||◌, none, some, List, [], ◌∷◌, Status, ok, fail,
  if◌then◌else◌, ltb, ◌==◌, ◌≡◌, ◌≢◌, refl, arith, Bool-cases, inl, inr,
}
use mtrdma_artifact.Tenant.State.{tenant_shm_init}
use mtrdma_artifact.Tenant.Binding.{tenant_bind_process, tenant_get_process_tenant}
use mtrdma_artifact.Tenant.Usage.{tenant_try_allocate_qp}
use mtrdma_artifact.Hooks.{HookState, Host}

abbrev pub is_ok : Status → Bool
is_ok ok = true
is_ok fail = false

-- `tenant_shm_init() == 0 && tenant_bind_process(getpid(), id) == 0`, and the flag that is then set.
unfoldable pub attach_and_bind : Host → ℕ → ℕ → HookState → Bool × HookState
attach_and_bind host k id s =
    let (r, opened) = tenant_shm_init (host.os k) s.tenants in
    let (r', bound) = tenant_bind_process (host.os (k + 1)) host.pid id opened in
    if not (is_ok r)
    then (false, record s { tenants = opened })
    else if not (is_ok r')
    then (false, record s { tenants = bound })
    else (true, record s { tenants = bound; tenant_initialized = true })

-- The loop over the lines of /proc/self/cgroup: the first tenant that can be bound.
unfoldable pub bind_cgroup : Host → ℕ → List ℕ → HookState → HookState
unfolding attach_and_bind
bind_cgroup host k [] s = s
bind_cgroup host k (id ∷ ids) s =
    let (bound, s') = if id == 0 then (false, s) else attach_and_bind host k id s in
    let rest = bind_cgroup host (k + 2) ids s' in if bound then s' else rest

-- After a fork the process binds itself to the tenant that its environment names.
unfoldable pub bind_forked : Host → HookState → HookState
bind_forked host s =
    let id : ℕ = elim host.tenant_env [ none ↦ 0 | some n ↦ n ] in
    let bound = (tenant_bind_process (host.os 0) host.pid id s.tenants).1 in
    if host.pid == s.cached_pid
    then s
    else record s { tenants = if ltb 0 id then bound else s.tenants; cached_pid = host.pid }

-- The last part of `get_current_tenant_id`: 0 for a process that is in no tenant.
unfoldable pub look_up_tenant : Host → HookState → ℕ × HookState
look_up_tenant host s =
    let (r, ts) = tenant_get_process_tenant (host.os 1) host.pid s.tenants in
    (elim r [ none ↦ 0 | some id ↦ id ], record s { tenants = ts })

-- The calls for the binding by cgroup are numbered from 2 on.
unfoldable pub get_current_tenant_id : Host → HookState → ℕ × HookState
unfolding bind_cgroup bind_forked look_up_tenant
get_current_tenant_id host s =
    let s' = bind_cgroup host 2 host.cgroup_tenants s in
    if not s'.tenant_initialized then (0, s') else look_up_tenant host (bind_forked host s')

-- In the mandatory mode a process without a tenant is bound to the one its environment names.
pub rebind_mandatory : Host → ℕ → HookState → ℕ × HookState
unfolding attach_and_bind
rebind_mandatory host tenant_id s =
    let id : ℕ = elim host.tenant_env [ none ↦ 0 | some n ↦ n ] in
    let opened = (tenant_shm_init (host.os 0) s.tenants).1 in
    let (bound, s') = attach_and_bind host 0 id s in
    if not (host.mandatory && (tenant_id == 0)) then (tenant_id, s) else elim host.tenant_env [
      | none ↦ (tenant_id, s)
      | some n ↦
          if n == 0
          then (tenant_id, record s { tenants = opened })
          else if bound
          then (n, s')
          else (tenant_id, s')
    ]

pub check_tenant_qp_limit : Host → ℕ → HookState → Bool × HookState
unfolding rebind_mandatory
check_tenant_qp_limit host tenant_id s =
    let (id, s') = rebind_mandatory host tenant_id s in
    let (granted, ts) = tenant_try_allocate_qp (host.os 2) id s'.tenants in
    if host.mandatory && ((id == 0) || not s'.tenant_initialized)
    then (false, s')
    else if (id == 0) || not s'.tenant_initialized
    then (true, s')
    else (granted, record s' { tenants = ts })

-- For a process in a tenant the check is the reservation alone, in the mandatory mode too.
pub check_tenant_qp_limit_lem :
    (host : Host) (tenant_id : ℕ) (s : HookState)
    → tenant_id ≢ 0
    → s.tenant_initialized ≡ true
    → check_tenant_qp_limit host tenant_id s ≡ (
      (tenant_try_allocate_qp (host.os 2) tenant_id s.tenants).0,
      record s { tenants = (tenant_try_allocate_qp (host.os 2) tenant_id s.tenants).1 },
    )
unfolding check_tenant_qp_limit rebind_mandatory
check_tenant_qp_limit_lem host tenant_id s named ready =
    let other : (tenant_id == 0) ≡ false = ground arith in
    elim (Bool-cases host.mandatory) [
      | inl e ↦ rw (e, other, ready) (rw other refl)
      | inr e ↦ rw (e, other, ready) refl
    ]
