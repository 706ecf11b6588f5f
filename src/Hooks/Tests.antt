-- ===== src/Hooks/Tests.antt =====
-- src/rdma_hooks_tenant.c: the theorems at concrete calls.
use Prim.Native.Nat.{min}
use mtrdma_artifact.Common.{
  ℕ, ◌+◌, ◌-◌, ◌≡◌, refl, true, false, Option, none, some, [], ◌∷◌, arith, Os, ok, update,
  find_slot,
}
use mtrdma_artifact.Shm.{zero_region}
use mtrdma_artifact.Tenant.State.{TenantInfo, active, zero_info, zero_shm, with_shm}
use mtrdma_artifact.Tenant.Binding.{tenant_bind_process, bind_locked, bind_slot}
use mtrdma_artifact.Hooks.Identity.{get_current_tenant_id}
use mtrdma_artifact.Hooks.Derive.{get_current_tenant_id-bind_cgroup}
use mtrdma_artifact.Hooks.{
  InterceptConfig, HookState, Host, refused, enosys, rdma_intercept_is_enabled,
}
use mtrdma_artifact.Hooks.RateLimit.{
  allowed, after_checks, number, max_ops, needs_window, time_ms, HasUsed, allowed_exact,
}
use mtrdma_artifact.Hooks.Queue.{QpInitAttr, ibv_qpt_rc}
use mtrdma_artifact.Hooks.Device.{
  CreateQpEx, Callback, wrapper_callback, null_callback, driver_callback, Devices, ibv_open_device,
  create_qp_ex_wrapper, create_qp_ex-open_full,
}

abbrev host_ok : Os
host_ok = record { shm_open = true; ftruncate = true; mmap = true; fstat = true; time = λ k. k }

abbrev config : InterceptConfig
config = record {
  enable_intercept = true;
  enable_qp_control = true;
  max_qp_per_process = 10;
  max_send_wr_limit = 1024;
  max_recv_wr_limit = 1024;
  allow_rc_qp = true;
  allow_uc_qp = true;
  allow_ud_qp = true;
  allow_rq_qp = true;
  max_global_qp = 100;
  enable_mr_control = true;
  max_mr_per_process = 10;
  max_memory_per_process = 1000000;
  enable_mr_rate_limit = true;
  max_mr_ops_per_sec = 2;
  mr_rate_limit_window_ms = 1000;
}

abbrev start : HookState
start = record {
  initialized = true;
  config = config;
  qp_count = 0;
  mr_count = 0;
  memory_used = 0;
  tenant_initialized = false;
  cached_pid = 7;
  mr_op_count_in_window = 0;
  mr_rate_window_start = record { tv_sec = 5; tv_nsec = 0 };
  shm = record { attached = true; region = zero_region };
  tenants = record { attached = true; shm = zero_shm };
}

-- Process 7, half a second into the window.
abbrev host : Host
host = record {
  pid = 7;
  os = λ k. host_ok;
  clock = λ k. record { tv_sec = 5; tv_nsec = 500000000 };
  stat = λ pid. none;
  tenant_env = none;
  mandatory = false;
  cgroup_tenants = [];
}

in_window : needs_window config start.mr_rate_window_start (host.clock 0) ≡ false
unfolding needs_window time_ms
in_window = refl

allowed_exact_example :
    (allowed (host ∷ host ∷ host ∷ []) start
      ≡ min (number (host ∷ host ∷ host ∷ [])) (max_ops config - 0))
    × HasUsed config start.mr_rate_window_start
        (0 + min (number (host ∷ host ∷ host ∷ [])) (max_ops config - 0))
        (after_checks (host ∷ host ∷ host ∷ []) start)
allowed_exact_example =
    allowed_exact (host ∷ host ∷ host ∷ []) config start.mr_rate_window_start 0 start
      (record { same = refl; on = refl; started = refl; count = refl })
      (in_window, (in_window, (in_window, tt))) (omega arith)

abbrev driver : CreateQpEx
driver attr = some 77

abbrev no_devices : Devices
no_devices = record {
  context = λ i. 0;
  original_create_qp_ex = λ i. driver;
  count = 0;
  callback = λ ctx. null_callback;
}

abbrev open_9 : Unit {0} → Option (ℕ × Callback)
open_9 u = some (9, driver_callback driver)

enabled : rdma_intercept_is_enabled start ≡ true
unfolding rdma_intercept_is_enabled
enabled = refl

abbrev attr : QpInitAttr
attr = record { qp_type = ibv_qpt_rc; max_send_wr = 16; max_recv_wr = 16 }

create_qp_ex-open_full_example :
    let d' = (ibv_open_device (some open_9) start (record no_devices { count = 16 })).1 in
    (d'.callback 9 ≡ wrapper_callback)
    × (create_qp_ex_wrapper host d' 9 attr start ≡ (refused enosys, attr, start))
create_qp_ex-open_full_example =
    create_qp_ex-open_full open_9 start (record no_devices { count = 16 }) 9 driver host attr start
      enabled refl refl (λ i lt. omega arith)

-- Process 7 in the cgroup of tenant 3, after a fork, with the environment of tenant 5.
abbrev forked_host : Host
forked_host = record host { tenant_env = some 5; cgroup_tenants = 3 ∷ [] }

abbrev tenant_of : ℕ → TenantInfo
tenant_of id = record zero_info { tenant_id = id; status = active }

abbrev forked : HookState
forked = record start {
  cached_pid = 1;
  tenants = record {
    attached = true;
    shm = record zero_shm {
      tenants = update (update zero_shm.tenants 3 (tenant_of 3)) 5 (tenant_of 5);
    };
  };
}

bound_3 : (tenant_bind_process host_ok 7 3 forked.tenants).0 ≡ ok
unfolding tenant_bind_process bind_locked bind_slot with_shm find_slot
bound_3 = refl

bound_5 :
    (tenant_bind_process host_ok 7 5 (tenant_bind_process host_ok 7 3 forked.tenants).1).0 ≡ ok
unfolding tenant_bind_process bind_locked bind_slot with_shm find_slot
bound_5 = refl

get_current_tenant_id-bind_cgroup_example : (get_current_tenant_id forked_host forked).0 ≡ 5
get_current_tenant_id-bind_cgroup_example =
    get_current_tenant_id-bind_cgroup forked_host forked 3 [] refl (omega arith) refl (omega arith)
      bound_3 (λ new named. bound_5)
