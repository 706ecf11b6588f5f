-- ===== src/Hooks/Derive.antt =====
-- src/rdma_hooks_tenant.c: which of its names for a tenant a process gets.
use mtrdma_artifact.Common.{
  ℕ, ◌+◌, ◌<◌, ◌≡◌, ◌≢◌, refl, ap, ◌∙◌, true, Option, none, some, List, ◌∷◌, ok, fail, Os,
  if◌then◌else◌, leb, ltb, ◌==◌, arith, ==-eq, ==-ne, Bool-cases, inl, inr,
}
use mtrdma_artifact.Tenant.State.{max_tenants, TenantState, tenant_shm_init}
use mtrdma_artifact.Tenant.State.Invariant.{with_shm-attached}
use mtrdma_artifact.Tenant.Binding.{tenant_bind_process, bind_locked, tenant_get_process_tenant}
use mtrdma_artifact.Tenant.Binding.Lookup.{lookup-bind}
use mtrdma_artifact.Hooks.{HookState, Host}
use mtrdma_artifact.Hooks.Identity.{
  attach_and_bind, bind_cgroup, bind_forked, look_up_tenant, get_current_tenant_id,
}

bind-attached :
    (os : Os) (pid id : ℕ) (s : TenantState)
    → s.attached ≡ true
    → (tenant_bind_process os pid id s).1.attached ≡ true
unfolding tenant_bind_process
bind-attached os pid id s on = elim (Bool-cases (leb max_tenants id)) [
  | inl e ↦ rw e on
  | inr e ↦ rw (e, with_shm-attached os fail (bind_locked os pid id) s on) on
]

-- What a lookup finds after a binding that succeeded.
pub found_bound :
    (os os' : Os) (pid id : ℕ) (s : TenantState)
    → s.attached ≡ true
    → pid ≢ 0
    → (tenant_bind_process os pid id s).0 ≡ ok
    → (tenant_get_process_tenant os' pid (tenant_bind_process os pid id s).1).0 ≡ some id
found_bound os os' pid id s on nz success =
    lookup-bind os os' pid id s pid on nz success ∙ ground arith

init-kept : (os : Os) (s : TenantState) → s.attached ≡ true → tenant_shm_init os s ≡ (ok, s)
unfolding tenant_shm_init
init-kept os s on = rw on refl

-- The binding by the first line of the cgroup file.
attach_and_bind-ok :
    (host : Host) (k id : ℕ) (s : HookState)
    → s.tenants.attached ≡ true
    → (tenant_bind_process (host.os (k + 1)) host.pid id s.tenants).0 ≡ ok
    → attach_and_bind host k id s ≡ (
      true,
      record s {
        tenants = (tenant_bind_process (host.os (k + 1)) host.pid id s.tenants).1;
        tenant_initialized = true;
      },
    )
unfolding attach_and_bind
attach_and_bind-ok host k id s on success = rw (init-kept (host.os k) s.tenants on, success) refl

-- The state after the binding of the process to the tenant of its cgroup.
abbrev bound_by_cgroup : Host → ℕ → HookState → HookState
bound_by_cgroup host t s = record s {
  tenants = (tenant_bind_process (host.os 3) host.pid t s.tenants).1;
  tenant_initialized = true;
}

bind_cgroup-first :
    (host : Host) (t : ℕ) (ids : List ℕ) (s : HookState)
    → s.tenants.attached ≡ true
    → t ≢ 0
    → (tenant_bind_process (host.os 3) host.pid t s.tenants).0 ≡ ok
    → bind_cgroup host 2 (t ∷ ids) s ≡ bound_by_cgroup host t s
unfolding bind_cgroup
bind_cgroup-first host t ids s on nz success =
    ground (arith, attach_and_bind-ok host 2 t s on success)

pub look_up-some :
    (host : Host) (id : ℕ) (s : HookState)
    → (tenant_get_process_tenant (host.os 1) host.pid s.tenants).0 ≡ some id
    → (look_up_tenant host s).0 ≡ id
unfolding look_up_tenant
look_up-some host id s found = ground (arith, found)

-- The number that the environment names, 0 for none.
abbrev pub named_tenant : Option ℕ → ℕ
named_tenant none = 0
named_tenant (some n) = n

forked_at :
    (env : Option ℕ) (host : Host) (s : HookState)
    → host.tenant_env ≡ env
    → host.pid ≢ s.cached_pid
    → let n = named_tenant env in
      bind_forked host s ≡ record s {
        tenants =
            if ltb 0 n then (tenant_bind_process (host.os 0) host.pid n s.tenants).1 else s.tenants;
        cached_pid = host.pid;
      }
unfolding bind_forked
forked_at none host s named new = ground (arith, named)
forked_at (some n) host s named new = ground (arith, named)

pub forked_same : (host : Host) (s : HookState) → host.pid ≡ s.cached_pid → bind_forked host s ≡ s
unfolding bind_forked
forked_same host s same = ground arith

-- The tenant that a process gets: the one of its cgroup, or in the first call after a fork the one that
-- its environment names, if that names one.
abbrev pub winner : Host → HookState → ℕ → ℕ
winner host s t =
    let n = named_tenant host.tenant_env in
    if host.pid == s.cached_pid then t else if ltb 0 n then n else t

look_up_forked :
    (host : Host) (t : ℕ) (s : HookState)
    → s.tenants.attached ≡ true
    → host.pid ≢ 0
    → (tenant_bind_process (host.os 3) host.pid t s.tenants).0 ≡ ok
    → (host.pid ≢ s.cached_pid
        → 0 < named_tenant host.tenant_env
        → (tenant_bind_process
            (host.os 0)
            host.pid
            (named_tenant host.tenant_env)
            (bound_by_cgroup host t s).tenants).0
          ≡ ok)
    → (look_up_tenant host (bind_forked host (bound_by_cgroup host t s))).0 ≡ winner host s t
look_up_forked host t s on nz success again =
    let s1 = bound_by_cgroup host t s in
    let n = named_tenant host.tenant_env in
    let on1 = bind-attached (host.os 3) host.pid t s.tenants on in
    let first =
      look_up-some host t s1
        (found_bound (host.os 3) (host.os 1) host.pid t s.tenants on nz success) in
    elim (Bool-cases (host.pid == s.cached_pid)) [
      | inl same ↦
          ap (λ (x : HookState). (look_up_tenant host x).0) (forked_same host s1 (==-eq _ _ same))
          ∙ first
          ∙ rw same refl
      | inr new ↦
          ap (λ (x : HookState). (look_up_tenant host x).0)
            (forked_at host.tenant_env host s1 refl (==-ne _ _ new))
          ∙ elim (Bool-cases (ltb 0 n)) [
            | inl named ↦
                rw (new, named)
                  (look_up-some host n _ (
                    found_bound (host.os 0) (host.os 1) host.pid n s1.tenants on1 nz
                      (again (==-ne _ _ new) (ground arith))))
            | inr unnamed ↦
                rw (new, unnamed)
                  (look_up-some host t _
                    (found_bound (host.os 3) (host.os 1) host.pid t s.tenants on nz success))
          ]
    ]

-- The tenant of a process whose cgroup file names one first, with the tenants' object mapped, where the
-- bindings that the call makes succeed: it is the tenant of the cgroup, except in the first call after a
-- fork with a tenant in the environment, which answers with that one.
pub get_current_tenant_id-bind_cgroup :
    (host : Host) (s : HookState) (t : ℕ) (ids : List ℕ)
    → s.tenants.attached ≡ true
    → host.pid ≢ 0
    → host.cgroup_tenants ≡ t ∷ ids
    → t ≢ 0
    → (tenant_bind_process (host.os 3) host.pid t s.tenants).0 ≡ ok
    → (host.pid ≢ s.cached_pid
        → 0 < named_tenant host.tenant_env
        → (tenant_bind_process
            (host.os 0)
            host.pid
            (named_tenant host.tenant_env)
            (tenant_bind_process (host.os 3) host.pid t s.tenants).1).0
          ≡ ok)
    → (get_current_tenant_id host s).0 ≡ winner host s t
unfolding get_current_tenant_id
get_current_tenant_id-bind_cgroup host s t ids on pid_nz first nz success again =
    rw (first, bind_cgroup-first host t ids s on nz success)
      (look_up_forked host t s on pid_nz success again)
