-- ===== src/Ebpf/Tests.antt =====
-- src/ebpf: the theorems at concrete maps and programs.
use mtrdma_artifact.Common.{
  ◌||◌, ℕ, ◌≡◌, refl, true, false, Option, none, some, [], ◌∷◌, ok, Os, arith, if◌then◌else◌, ◌==◌,
  update, find_slot, ap, List,
}
use mathlib.Core.Option.{some-injective}
use mtrdma_artifact.Shm.{
  ResourceUsage, zero_region, shm_update_process_resources, shm_lock, update_slot, shm_init,
}
use mtrdma_artifact.Ebpf.{
  zero_tenant, MapFds, no_fds, MonitorState, Kernel, BpfMap, IsLawful,
  ebpf_get_all_tenant_resources, ebpf_update_process_resources,
}
use mtrdma_artifact.Ebpf.Tenants.{ends, goes_on, length, entries, get_all_tenants-Lists}
use mtrdma_artifact.Ebpf.Attach.{
  Loader, ebpf_enhanced_monitor_init, attached_links, clean_up, cleanup-init,
}

abbrev all_fds : MapFds
all_fds = record {
  process_resources_fd = true;
  global_resources_fd = true;
  tenant_resources_fd = true;
  pid_to_tenant_fd = true;
  qp_type_stats_fd = true;
  perf_stats_fd = true;
  filter_config_fd = true;
}

abbrev monitor : MonitorState
monitor = record {
  obj = true;
  links = [];
  map_fds = all_fds;
  shm = record { attached = true; region = zero_region };
}

-- The tenants 5, 7 and 9; behind a key that is not there comes the first.
abbrev next_key : Option ℕ → Option ℕ
next_key none = some 5
next_key (some key) =
    if key == 5 then some 7 else if key == 7 then some 9 else if key == 9 then none else some 5

abbrev kernel : Kernel
kernel = record {
  tenant_resources =
      λ key. if (key == 5) || (key == 7) || (key == 9) then some (zero_tenant key) else none;
  next_tenant = next_key;
  process_resources = λ _. none;
  global_resources = λ _. none;
  qp_type_stats = λ _. none;
  perf_stats = λ _. none;
}

get_all_tenants-Lists_example :
    ebpf_get_all_tenant_resources kernel 4 10 monitor
    ≡ some (ok, zero_tenant 5 ∷ zero_tenant 7 ∷ zero_tenant 9 ∷ [])
unfolding length entries
get_all_tenants-Lists_example =
    get_all_tenants-Lists kernel monitor (5 ∷ 7 ∷ 9 ∷ []) 4 10 refl (omega arith) refl
      (goes_on refl (omega arith) refl
        (goes_on refl (omega arith) refl (goes_on refl (omega arith) refl (ends refl))))
      (omega arith)

-- The tenants 0 and 5.
abbrev kernel_zero : Kernel
kernel_zero = record kernel {
  tenant_resources = λ key. some (zero_tenant key);
  next_tenant = λ key. elim key [ none ↦ some 0 | some k ↦ if k == 0 then some 5 else none ];
}

-- A map that takes every write.
abbrev growing : BpfMap
growing = record {
  Map = ℕ → Option ℕ;
  lookup_elem = λ m k. m k;
  update_elem = λ m k v. some (update m k (some v));
}

growing-IsLawful : IsLawful growing
growing-IsLawful = record {
  lookup-update =
      λ m m' k v j e. ground (arith, ap (λ (f : ℕ → Option ℕ). f j) (some-injective _ _ e));
}

abbrev os : Os
os = record { shm_open = true; ftruncate = true; mmap = true; fstat = true; time = λ k. k }

abbrev loader : Loader
loader = record {
  os = os;
  exists = true;
  opens = true;
  loads = true;
  maps = all_fds;
  programs =
      record { is_probe = true; link = some 1 }
      ∷ record { is_probe = true; link = none }
      ∷ record { is_probe = false; link = some 2 }
      ∷ record { is_probe = true; link = some 3 }
      ∷ [];
}

abbrev stopped : MonitorState
stopped = record monitor {
  obj = false;
  map_fds = no_fds;
  shm = record { attached = false; region = zero_region };
}

mapped : (shm_init os stopped.shm).0 ≡ ok
unfolding shm_init
mapped = refl

cleanup-init_example :
    clean_up (ebpf_enhanced_monitor_init growing loader stopped (λ _. none))
    ≡ some (
      ok,
      1 ∷ 3 ∷ [],
      record { obj = false; links = []; map_fds = no_fds; shm = (shm_init os stopped.shm).1 },
    )
unfolding attached_links length
cleanup-init_example = cleanup-init growing loader stopped (λ _. none) refl mapped

abbrev two_qps : ResourceUsage
two_qps = record { qp_count = 2; mr_count = 1; memory_used = 4096 }

abbrev no_stat : ℕ → Option (List ℕ)
no_stat _ = none

abbrev bare : MonitorState
bare = record monitor { map_fds = no_fds }

update_ok : (ebpf_update_process_resources no_stat os 7 (some two_qps) bare.shm).0 ≡ ok
unfolding ebpf_update_process_resources shm_update_process_resources update_slot find_slot shm_lock
update_ok = refl
