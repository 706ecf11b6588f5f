-- ===== src/Hooks/Start.antt =====
-- src/rdma_hooks_tenant.c: what a process does once, before its first intercepted call.
use mtrdma_artifact.Common.{
  ℕ, ◌≡◌, ◌≢◌, refl, ◌∙◌, ◌<◌, Bool, true, not, ◌&&◌, Option, List, [], ok, Os, if◌then◌else◌, ltb,
  arith, ap,
}
use mtrdma_artifact.Config.{FullConfig}
use mtrdma_artifact.Log.{LogState}
use mtrdma_artifact.Log.Start.{StartHost, init_if_needed}
use mtrdma_artifact.Ebpf.{ebpf_monitor_init}
use mtrdma_artifact.Tenant.State.{TenantState, tenant_shm_init}
use mtrdma_artifact.Tenant.Binding.{tenant_bind_process}
use mtrdma_artifact.Hooks.{HookState, Host}
use mtrdma_artifact.Hooks.Identity.{
  is_ok, bind_cgroup, bind_forked, look_up_tenant, get_current_tenant_id,
}
use mtrdma_artifact.Hooks.Derive.{named_tenant, found_bound, look_up-some, forked_same}

-- `g_intercept_state` with the log, and the statics of the hooks. The flag and the settings that the
-- hooks read are those of the former.
pub record Process : Type 0 where
  pub log : LogState
  pub hooks : HookState
  pub ebpf_initialized : Bool

-- What the first call is answered: at the start of the interception, whether `dlopen` finds the
-- library, and the variables RDMA_INTERCEPT_ENABLE and RDMA_INTERCEPT_ENABLE_QP_CONTROL.
pub record FirstHost : Type 0 where
  pub start : StartHost
  pub libibverbs : Bool
  pub enable_var : Option (List ℕ)
  pub qp_ctrl_var : Option (List ℕ)
  pub host : Host

-- The one object that both files read.
unfoldable pub start_interception : FirstHost → Process → Process
start_interception first p =
    let log = init_if_needed first.start first.enable_var first.qp_ctrl_var p.log in
    record p {
      log = log;
      hooks = record (p.hooks) {
        initialized = log.initialized;
        config = FullConfig.config (LogState.config log);
      };
    }

-- The monitor: a failure is a warning.
unfoldable pub start_monitor : Os → Process → Process
start_monitor os p =
    let (r, shm) = ebpf_monitor_init os p.hooks.shm in
    record p { hooks = record (p.hooks) { shm = shm }; ebpf_initialized = is_ok r }

-- The tenants' object, and the binding to the tenant that the environment names.
unfoldable pub start_tenants : Host → HookState → HookState
start_tenants host s =
    let (r, opened) = tenant_shm_init (host.os 1) s.tenants in
    let n = named_tenant host.tenant_env in
    let bound = (tenant_bind_process (host.os 2) host.pid n opened).1 in
    record s {
      tenants = if is_ok r && ltb 0 n then bound else opened;
      tenant_initialized = is_ok r;
      cached_pid = host.pid;
    }

-- The calls on the shared objects are numbered from 0 on.
pub init_function_pointers : FirstHost → Process → Process
unfolding start_interception start_monitor start_tenants
init_function_pointers first p =
    let p1 = start_interception first p in
    let p2 = start_monitor (first.host.os 0) p1 in
    if not first.libibverbs then p1 else record p2 { hooks = start_tenants first.host p2.hooks }

init-attached :
    (os : Os) (s : TenantState)
    → (tenant_shm_init os s).0 ≡ ok
    → (tenant_shm_init os s).1.attached ≡ true
unfolding tenant_shm_init
init-attached os s opened = ground arith

start_tenants-named :
    (host : Host) (s : HookState)
    → (tenant_shm_init (host.os 1) s.tenants).0 ≡ ok
    → ltb 0 (named_tenant host.tenant_env) ≡ true
    → start_tenants host s ≡ record s {
      tenants =
          (tenant_bind_process
            (host.os 2)
            host.pid
            (named_tenant host.tenant_env)
            (tenant_shm_init (host.os 1) s.tenants).1).1;
      tenant_initialized = true;
      cached_pid = host.pid;
    }
unfolding start_tenants
start_tenants-named host s opened named = rw (opened, named) refl

-- Without a tenant in the cgroup file.
no_cgroup :
    (host : Host) (s : HookState)
    → host.cgroup_tenants ≡ []
    → bind_cgroup host 2 host.cgroup_tenants s ≡ s
unfolding bind_cgroup
no_cgroup host s empty = rw empty refl

look_up_ready :
    (host : Host) (s s' : HookState)
    → bind_cgroup host 2 host.cgroup_tenants s ≡ s'
    → s'.tenant_initialized ≡ true
    → get_current_tenant_id host s ≡ look_up_tenant host (bind_forked host s')
unfolding get_current_tenant_id
look_up_ready host s s' bound ready = rw (bound, ready) refl

init-libibverbs :
    (first : FirstHost) (p : Process)
    → first.libibverbs ≡ true
    → (init_function_pointers first p).hooks
      ≡ start_tenants first.host
          (start_monitor (first.host.os 0) (start_interception first p)).hooks
unfolding init_function_pointers
init-libibverbs first p lib = rw lib refl

-- After the start in a process whose environment names a tenant, when the binding to it succeeds: a
-- later call of the process finds that tenant, if its cgroup names none.
get_current_tenant_id-init_function_pointers :
    (first : FirstHost) (later : Host) (p : Process)
    → let host = first.host in
      let n = named_tenant host.tenant_env in
      let opened = tenant_shm_init (host.os 1) p.hooks.tenants in
      first.libibverbs ≡ true
      → 0 < n
      → host.pid ≢ 0
      → opened.0 ≡ ok
      → (tenant_bind_process (host.os 2) host.pid n opened.1).0 ≡ ok
      → later.pid ≡ host.pid
      → later.cgroup_tenants ≡ []
      → (get_current_tenant_id later (init_function_pointers first p).hooks).0 ≡ n
unfolding start_monitor start_interception
get_current_tenant_id-init_function_pointers first later p lib named nz opened success same empty =
    let host = first.host in
    let n = named_tenant host.tenant_env in
    let s = (start_monitor (host.os 0) (start_interception first p)).hooks in
    let shared = (tenant_shm_init (host.os 1) p.hooks.tenants).1 in
    let s' : HookState = record s {
      tenants = (tenant_bind_process (host.os 2) host.pid n shared).1;
      tenant_initialized = true;
      cached_pid = host.pid;
    } in
    ap (λ (x : HookState). (get_current_tenant_id later x).0)
      (init-libibverbs first p lib ∙ start_tenants-named host s opened (ground arith))
    ∙ ap (λ (x : ℕ × HookState). x.0) (look_up_ready later s' s' (no_cgroup later s' empty) refl)
    ∙ ap (λ (x : HookState). (look_up_tenant later x).0) (forked_same later s' same)
    ∙ look_up-some later n s' (
        rw same (
          found_bound (host.os 2) (later.os 1) host.pid n shared
            (init-attached (host.os 1) p.hooks.tenants opened) nz success))
