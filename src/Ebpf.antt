-- ===== src/Ebpf.antt =====
-- src/ebpf/ebpf_enhanced_monitor.c and src/ebpf/ebpf_monitor_shm.c: what is read of the kernel's maps,
-- and of the shared object where there are none.
pub mod Tenants
pub mod Attach
pub mod Fallback
mod Tests
use mtrdma_artifact.Common.{
  ℕ, zero, suc, ◌+◌, ◌≡◌, Bool, true, false, not, ◌&&◌, ◌||◌, Option, none, some, List, [], ◌∷◌,
  Status, ok, fail, Os, if◌then◌else◌, ◌==◌, leb, is_negative, is_none,
}
use mtrdma_artifact.Shm.{
  ResourceUsage, no_usage, Shm, shm_init, shm_get_process_resources, shm_get_global_resources,
  shm_update_process_resources, shm_update_global_resources,
}

-- `enhanced_resource_usage_t`
pub record EnhancedUsage : Type 0 where
  pub qp_count : ℕ
  pub mr_count : ℕ
  pub cq_count : ℕ
  pub pd_count : ℕ
  pub memory_used : ℕ
  pub total_qp_creates : ℕ
  pub total_qp_destroys : ℕ
  pub total_mr_regs : ℕ
  pub total_mr_deregs : ℕ

abbrev pub zero_usage : EnhancedUsage
zero_usage = record {
  qp_count = 0;
  mr_count = 0;
  cq_count = 0;
  pd_count = 0;
  memory_used = 0;
  total_qp_creates = 0;
  total_qp_destroys = 0;
  total_mr_regs = 0;
  total_mr_deregs = 0;
}

-- `perf_stats_t`
pub record PerfStats : Type 0 where
  pub create_qp_lat_total : ℕ
  pub reg_mr_lat_total : ℕ
  pub create_qp_count : ℕ
  pub reg_mr_count : ℕ

abbrev pub zero_perf : PerfStats
zero_perf = record {
  create_qp_lat_total = 0;
  reg_mr_lat_total = 0;
  create_qp_count = 0;
  reg_mr_count = 0;
}

-- `tenant_resource_t`
pub record TenantResource : Type 0 where
  pub tenant_id : ℕ
  pub usage : EnhancedUsage
  pub perf : PerfStats

abbrev pub zero_tenant : ℕ → TenantResource
zero_tenant id = record { tenant_id = id; usage = zero_usage; perf = zero_perf }

-- `ebpf_maps_fds_t`: whether each descriptor is not negative.
pub record MapFds : Type 0 where
  pub process_resources_fd : Bool
  pub global_resources_fd : Bool
  pub tenant_resources_fd : Bool
  pub pid_to_tenant_fd : Bool
  pub qp_type_stats_fd : Bool
  pub perf_stats_fd : Bool
  pub filter_config_fd : Bool

abbrev pub no_fds : MapFds
no_fds = record {
  process_resources_fd = false;
  global_resources_fd = false;
  tenant_resources_fd = false;
  pid_to_tenant_fd = false;
  qp_type_stats_fd = false;
  perf_stats_fd = false;
  filter_config_fd = false;
}

-- The statics; `links` are the first `link_count` entries of the array.
pub record MonitorState : Type 0 where
  pub obj : Bool
  pub links : List ℕ
  pub map_fds : MapFds
  pub shm : Shm

-- The maps that the monitor only reads, as `bpf_map_lookup_elem` and `bpf_map_get_next_key` answer; a
-- null pointer for the key is `none`, and so is an error in the answer.
pub record Kernel : Type 0 where
  pub tenant_resources : ℕ → Option TenantResource
  pub next_tenant : Option ℕ → Option ℕ
  pub process_resources : ℕ → Option EnhancedUsage
  pub global_resources : ℕ → Option EnhancedUsage
  pub qp_type_stats : ℕ → Option ℕ
  pub perf_stats : ℕ → Option PerfStats

-- A map from numbers to numbers that the monitor also writes; `none` is an error.
pub record BpfMap : Type 1 where
  pub Map : Type 0
  pub lookup_elem : Map → ℕ → Option ℕ
  pub update_elem : Map → ℕ → ℕ → Option Map

-- The documented behaviour of bpf_map_update_elem with BPF_ANY.
pub record IsLawful (B : BpfMap) : Type 0 where
  pub lookup-update :
      (m m' : B.Map) (k v j : ℕ)
      → B.update_elem m k v ≡ some m'
      → B.lookup_elem m' j ≡ (if j == k then some v else B.lookup_elem m j)

-- What was looked up, or what is stored after an error.
abbrev pub or_default {ℓ} : {A : Type ℓ} → Option A → A → A
or_default none d = d
or_default (some a) d = a

module _ (B : BpfMap) where
  -- After an update: the map, with the error of the system call as -1.
  abbrev pub written : Option B.Map → B.Map → Status × B.Map
  written none m = (fail, m)
  written (some m') m = (ok, m')

  unfoldable pub ebpf_set_tenant_id : MonitorState → ℕ → ℕ → B.Map → Status × B.Map
  ebpf_set_tenant_id s pid tenant_id m =
      if not s.map_fds.pid_to_tenant_fd then (ok, m) else written (B.update_elem m pid tenant_id) m

  unfoldable pub ebpf_get_tenant_id : MonitorState → ℕ → B.Map → ℕ
  ebpf_get_tenant_id s pid m =
      if not s.map_fds.pid_to_tenant_fd then 0 else or_default (B.lookup_elem m pid) 0

  unfoldable pub ebpf_set_filter_config : MonitorState → Bool → Bool → B.Map → Status × B.Map
  ebpf_set_filter_config s enable_filter track_perf m =
      let filter : ℕ = if enable_filter then 1 else 0 in
      let perf : ℕ = if track_perf then 2 else 0 in
      if not s.map_fds.filter_config_fd
      then (ok, m)
      else written (B.update_elem m 0 (filter + perf)) m

unfoldable pub ebpf_get_tenant_resources : Kernel → MonitorState → ℕ → TenantResource
ebpf_get_tenant_resources kernel s tenant_id =
    if not s.map_fds.tenant_resources_fd
    then zero_tenant tenant_id
    else or_default (kernel.tenant_resources tenant_id) (zero_tenant tenant_id)

pub ebpf_get_perf_stats : Kernel → MonitorState → PerfStats
ebpf_get_perf_stats kernel s =
    if not s.map_fds.perf_stats_fd then zero_perf else or_default (kernel.perf_stats 0) zero_perf

-- `none` is -1; `type` is an enum without negative values.
pub ebpf_get_qp_type_stats : Kernel → MonitorState → ℕ → Option ℕ
ebpf_get_qp_type_stats kernel s type =
    if leb 4 type
    then none
    else if not s.map_fds.qp_type_stats_fd
    then some 0
    else some (or_default (kernel.qp_type_stats type) 0)

-- The loop, with room for `left` more tenants, at most `fuel` turns; `none` is a loop that still runs.
-- A tenant whose entry is gone is passed over.
unfoldable pub list_tenants : Kernel → ℕ → ℕ → ℕ → Option (List TenantResource)
list_tenants kernel zero prev_key left = none
list_tenants kernel (suc fuel) prev_key zero = some []
list_tenants kernel (suc fuel) prev_key (suc left) =
    elim (kernel.next_tenant (if prev_key == 0 then none else some prev_key)) [
      | none ↦ some []
      | some key ↦ elim (kernel.tenant_resources key) [
        | none ↦ list_tenants kernel fuel key (suc left)
        | some tenant ↦ elim (list_tenants kernel fuel key left) [
          | none ↦ none
          | some tenants ↦ some (tenant ∷ tenants)
        ]
      ]
    ]

-- The entries that are stored in the array, whose number is returned.
unfoldable pub ebpf_get_all_tenant_resources :
    Kernel → ℕ → ℕ → MonitorState → Option (Status × List TenantResource)
unfolding list_tenants
ebpf_get_all_tenant_resources kernel fuel max_count s =
    if max_count == 0 || is_negative max_count
    then some (fail, [])
    else if not s.map_fds.tenant_resources_fd
    then some (ok, [])
    else elim (list_tenants kernel fuel 0 max_count) [
      | none ↦ none
      | some tenants ↦ some (ok, tenants)
    ]

-- The fall back on the shared object.
abbrev pub enhanced : ResourceUsage → EnhancedUsage
enhanced u = record zero_usage {
  qp_count = u.qp_count;
  mr_count = u.mr_count;
  memory_used = u.memory_used;
}

abbrev pub fall_back : Option ResourceUsage → Option EnhancedUsage
fall_back none = none
fall_back (some u) = some (enhanced u)

unfoldable pub ebpf_get_enhanced_process_resources :
    Kernel → ℕ → MonitorState → Option EnhancedUsage
ebpf_get_enhanced_process_resources kernel pid s =
    if not s.map_fds.process_resources_fd
    then fall_back (shm_get_process_resources pid s.shm)
    else some (or_default (kernel.process_resources pid) zero_usage)

unfoldable pub ebpf_get_enhanced_global_resources : Kernel → MonitorState → Option EnhancedUsage
ebpf_get_enhanced_global_resources kernel s =
    if not s.map_fds.global_resources_fd
    then fall_back (shm_get_global_resources s.shm)
    else some (or_default (kernel.global_resources 0) zero_usage)

-- ebpf_monitor_shm.c: the result, and what is stored at `usage`.
abbrev pub or_zero : Option ResourceUsage → Status × ResourceUsage
or_zero none = (fail, no_usage)
or_zero (some u) = (ok, u)

unfoldable pub ebpf_get_process_resources : ℕ → Shm → Status × ResourceUsage
ebpf_get_process_resources pid s = or_zero (shm_get_process_resources pid s)

unfoldable pub ebpf_get_global_resources : Shm → Status × ResourceUsage
ebpf_get_global_resources s = or_zero (shm_get_global_resources s)

unfoldable pub ebpf_update_process_resources :
    (ℕ → Option (List ℕ)) → Os → ℕ → Option ResourceUsage → Shm → Status × Shm
ebpf_update_process_resources stat os pid none s = (fail, s)
ebpf_update_process_resources stat os pid (some u) s =
    let (r, s') = shm_update_process_resources stat os pid (some u) s in (r, s')

pub ebpf_update_global_resources : Os → Option ResourceUsage → Shm → Status × Shm
ebpf_update_global_resources os none s = (fail, s)
ebpf_update_global_resources os (some u) s =
    let (r, s') = shm_update_global_resources os (some u) s in (r, s')

pub ebpf_monitor_init : Os → Shm → Status × Shm
ebpf_monitor_init os s = shm_init os s
