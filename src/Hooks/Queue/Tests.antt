-- ===== src/Hooks/Queue/Tests.antt =====
-- src/rdma_hooks_tenant.c: the reservation at a concrete call.
use mtrdma_artifact.Common.{
  some, ℕ, ◌≡◌, refl, true, false, Option, none, [], arith, if◌then◌else◌, Os, update, find_index,
}
use mtrdma_artifact.Shm.{zero_region}
use mtrdma_artifact.Tenant.State.{active, TenantState, zero_shm, zero_info, zero_usage, with_shm}
use mtrdma_artifact.Tenant.Binding.{tenant_get_process_tenant, get_process_tenant_locked}
use mtrdma_artifact.Tenant.Admin.{default_quota}
use mtrdma_artifact.Tenant.Usage.Access.{Uses, reserved}
use mtrdma_artifact.Hooks.{rdma_intercept_is_enabled, HookState, Host, answered}
use mtrdma_artifact.Hooks.Identity.{get_current_tenant_id}
use mtrdma_artifact.Hooks.Queue.{
  uncounted, ibv_destroy_qp, QpInitAttr, ibv_qpt_rc, clip_attr, reserve_and_create,
}
use mtrdma_artifact.Hooks.Queue.Reservation.{
  HasRoom, is_some, create-Uses, released, Destroys, destroy-Uses,
}

abbrev host_ok : Os
host_ok = record { shm_open = true; ftruncate = true; mmap = true; fstat = true; time = λ k. k }

-- Process 7 of tenant 5.
abbrev tenants : TenantState
tenants = record {
  attached = true;
  shm = record zero_shm {
    tenants =
        update zero_shm.tenants 5
          (record zero_info { tenant_id = 5; status = active; quota = default_quota });
    pid_mappings =
        update zero_shm.pid_mappings 0 (record { pid = 7; tenant_id = 5; mapped_at = 1 });
  };
}

abbrev start : HookState
start = record {
  initialized = true;
  config = record {
    enable_intercept = true;
    enable_qp_control = true;
    max_qp_per_process = 10;
    max_send_wr_limit = 1024;
    max_recv_wr_limit = 1024;
    allow_rc_qp = true;
    allow_uc_qp = true;
    allow_ud_qp = true;
    allow_rq_qp = true;
    max_global_qp = 100;
    enable_mr_control = true;
    max_mr_per_process = 10;
    max_memory_per_process = 1000000;
    enable_mr_rate_limit = false;
    max_mr_ops_per_sec = 0;
    mr_rate_limit_window_ms = 0;
  };
  qp_count = 0;
  mr_count = 0;
  memory_used = 0;
  tenant_initialized = true;
  cached_pid = 7;
  mr_op_count_in_window = 0;
  mr_rate_window_start = record { tv_sec = 0; tv_nsec = 0 };
  shm = record { attached = true; region = zero_region };
  tenants = tenants;
}

abbrev host : Host
host = record {
  pid = 7;
  os = λ k. host_ok;
  clock = λ k. record { tv_sec = 5; tv_nsec = 0 };
  stat = λ pid. none;
  tenant_env = none;
  mandatory = true;
  cgroup_tenants = [];
}

start-HasRoom : HasRoom host 5 100 zero_usage start
unfolding get_current_tenant_id tenant_get_process_tenant get_process_tenant_locked with_shm
    find_index
start-HasRoom = record {
  found = refl;
  named = omega arith;
  ready = refl;
  uses = record {
    attached = refl;
    inside = omega arith;
    active = refl;
    limit = refl;
    usage = refl;
  };
  room = omega arith;
  small = omega arith;
  few = omega arith;
}

abbrev attr : QpInitAttr
attr = record { qp_type = ibv_qpt_rc; max_send_wr = 16; max_recv_wr = 16 }

-- The driver fails.
abbrev failing : QpInitAttr → Option ℕ
failing a = none

create-Uses_example :
    let answer = failing (clip_attr (get_current_tenant_id host start).1.config attr) in
    let (r, attr', s') = reserve_and_create host failing attr start in
    (r ≡ answered answer)
    × Uses 5 100 (if is_some answer then reserved zero_usage else zero_usage) s'.tenants
create-Uses_example = create-Uses host failing attr start 5 100 zero_usage start-HasRoom

-- The driver destroys the queue pair.
abbrev destroying : Unit {0} → ℕ
destroying u = 0

start-Destroys : Destroys host destroying 5 100 zero_usage start
unfolding rdma_intercept_is_enabled uncounted get_current_tenant_id tenant_get_process_tenant
    get_process_tenant_locked with_shm find_index
start-Destroys = record {
  enabled = refl;
  answer = refl;
  found = refl;
  named = omega arith;
  ready = refl;
  uses = record {
    attached = refl;
    inside = omega arith;
    active = refl;
    limit = refl;
    usage = refl;
  };
  small = omega arith;
}

destroy-Uses_example :
    let (r, s') = ibv_destroy_qp host (some destroying) start in
    (r ≡ answered 0) × Uses 5 100 (released zero_usage) s'.tenants
destroy-Uses_example = destroy-Uses host destroying start 5 100 zero_usage start-Destroys
