-- ===== src/Hooks.antt =====
-- src/rdma_hooks_tenant.c: what the intercepted verbs do before and after the real ones.
pub mod RateLimit
pub mod Identity
pub mod Derive
pub mod Start
pub mod Counting
pub mod Queue
pub mod Memory
pub mod Device
mod Tests
use mtrdma_artifact.Common.{ℕ, Bool, ◌&&◌, Option, List, Os}
use mtrdma_artifact.Shm.{Shm}
use mtrdma_artifact.Tenant.State.{TenantState}

-- `intercept_config_t` without the settings of the log.
pub record InterceptConfig : Type 0 where
  pub enable_intercept : Bool
  pub enable_qp_control : Bool
  pub max_qp_per_process : ℕ
  pub max_send_wr_limit : ℕ
  pub max_recv_wr_limit : ℕ
  pub allow_rc_qp : Bool
  pub allow_uc_qp : Bool
  pub allow_ud_qp : Bool
  pub allow_rq_qp : Bool
  pub max_global_qp : ℕ
  pub enable_mr_control : Bool
  pub max_mr_per_process : ℕ
  pub max_memory_per_process : ℕ
  pub enable_mr_rate_limit : Bool
  pub max_mr_ops_per_sec : ℕ
  pub mr_rate_limit_window_ms : ℕ

-- `struct timespec`
pub record Timespec : Type 0 where
  pub tv_sec : ℕ
  pub tv_nsec : ℕ

-- The statics of the file, `g_intercept_state`, and the process's views of the two shared objects.
pub record HookState : Type 0 where
  pub initialized : Bool
  pub config : InterceptConfig
  pub qp_count : ℕ
  pub mr_count : ℕ
  pub memory_used : ℕ
  pub tenant_initialized : Bool
  pub cached_pid : ℕ
  pub mr_op_count_in_window : ℕ
  pub mr_rate_window_start : Timespec
  pub shm : Shm
  pub tenants : TenantState

-- What the system answers during one intercepted call: the process, what is answered to the k-th
-- call on a shared object, the k-th reading of the monotonic clock, /proc/[pid]/stat, the environment
-- (`RDMA_TENANT_ID` as a number, and whether `RDMA_INTERCEPT_MANDATORY` is set), and the numbers
-- behind "rdma:/tenant" in the lines of /proc/self/cgroup that have it.
pub record Host : Type 0 where
  pub pid : ℕ
  pub os : ℕ → Os
  pub clock : ℕ → Timespec
  pub stat : ℕ → Option (List ℕ)
  pub tenant_env : Option ℕ
  pub mandatory : Bool
  pub cgroup_tenants : List ℕ

pub data Errno : Type 0 where
  enosys eperm eagain : Errno

-- What an intercepted call returns: the real verb's answer, or an error of its own.
pub data Answer {ℓ} (A : Type ℓ) : Type ℓ where
  answered : A → Answer A
  refused : Errno → Answer A

unfoldable pub rdma_intercept_is_enabled : HookState → Bool
rdma_intercept_is_enabled s = s.initialized && s.config.enable_intercept
