-- ===== src/Collector/Sync.antt =====
-- src/collector_server_shm.c: the limits, and the copying of the kernel's figures to the shared object.
use mtrdma_artifact.Common.{
  ℕ, zero, suc, ◌+◌, ◌%◌, ◌≡◌, Bool, not, Option, none, some, List, [], ◌∷◌, Status, ok, fail, Os,
  if◌then◌else◌, ◌==◌, u64_mod,
}
use mtrdma_artifact.Shm.{
  ResourceUsage, SharedMemoryData, Shm, shm_lock, shm_unlock, shm_init, shm_set_global_limits,
  shm_update_process_resources,
}

-- The two maps of the kernel as `bpf_map_lookup_elem` and `bpf_map_get_next_key` answer; `none` is
-- not 0.
pub record Maps : Type 0 where
  pub global_usage : Option ResourceUsage
  pub next_key : ℕ → Option ℕ
  pub usage_of : ℕ → Option ResourceUsage

-- /proc/[pid]/stat, and the system's answers in the update of one process.
pub record SyncHost : Type 0 where
  pub stat : ℕ → Option (List ℕ)
  pub os : ℕ → Os

-- What `atoi` and `atoll` make of the two variables, `none` where one is not set; whether the maps
-- could be opened and the two threads started.
pub record Environment : Type 0 where
  pub max_qp : Option ℕ
  pub max_memory : Option ℕ
  pub process_map : Bool
  pub global_map : Bool
  pub sync_thread : Bool
  pub gc_thread : Bool

-- The statics; a map is open where its descriptor is not negative.
pub record ServiceState : Type 0 where
  pub max_global_qp : ℕ
  pub max_global_memory : ℕ
  pub process_map_open : Bool
  pub global_map_open : Bool
  pub shm : Shm

-- `if (value_str) { if (new_max > 0) ... }`
pub new_max : Option ℕ → ℕ → ℕ
new_max none old = old
new_max (some n) old = if n == 0 then old else n

pub update_max_global_qp : Environment → ServiceState → ServiceState
unfolding new_max
update_max_global_qp env s = record s { max_global_qp = new_max env.max_qp s.max_global_qp }

pub update_max_global_memory : Environment → ServiceState → ServiceState
unfolding new_max
update_max_global_memory env s = record s {
  max_global_memory = new_max env.max_memory s.max_global_memory;
}

-- The first block: the kernel's sums take the place of the counters.
pub write_global : ResourceUsage → SharedMemoryData → SharedMemoryData
unfolding shm_lock shm_unlock
write_global u d =
    shm_unlock (record (shm_lock d) { global_stats = u; version = (d.version + 1) % u64_mod })

pub sync_global : Option ResourceUsage → Shm → Shm
unfolding write_global
sync_global none s = s
sync_global (some u) s = record s { region = write_global u s.region }

unfoldable pub sync_process : SyncHost → ℕ → Option ResourceUsage → Shm → Shm
sync_process host pid none s = s
sync_process host pid (some u) s =
    (shm_update_process_resources host.stat (host.os pid) pid (some u) s).1

-- The loop over the keys, from the one behind `current` on, with at most `fuel` tests of its condition;
-- `none` is a loop that still runs.
pub sync_processes : Maps → SyncHost → ℕ → ℕ → Shm → Option Shm
unfolding sync_process
sync_processes maps host zero current s = none
sync_processes maps host (suc fuel) current s = elim (maps.next_key current) [
  | none ↦ some s
  | some pid ↦ sync_processes maps host fuel pid (sync_process host pid (maps.usage_of pid) s)
]

-- The state with the object that the loop leaves.
abbrev with_synced : ServiceState → Option Shm → Option ServiceState
with_synced s none = none
with_synced s (some shm) = some (record s { shm = shm })

pub sync_ebpf_data_to_shared_memory : Maps → SyncHost → ℕ → ServiceState → Option ServiceState
unfolding sync_global sync_processes
sync_ebpf_data_to_shared_memory maps host fuel s =
    let shm = if s.global_map_open then sync_global maps.global_usage s.shm else s.shm in
    if not s.shm.attached
    then some s
    else if not s.process_map_open
    then some (record s { shm = shm })
    else with_synced s (sync_processes maps host fuel 0 shm)

pub initialize_service : Os → Environment → ServiceState → Status × ServiceState
unfolding update_max_global_qp update_max_global_memory
initialize_service os env s =
    let (r, shm) = shm_init os s.shm in
    let limited =
      update_max_global_memory env (update_max_global_qp env (record s { shm = shm })) in
    let s' = record limited {
      shm = (shm_set_global_limits limited.max_global_qp 1000 limited.max_global_memory shm).1;
      process_map_open = env.process_map;
      global_map_open = env.global_map;
    } in
    elim r [
      | fail ↦ (fail, record s { shm = shm })
      | ok ↦
          if not env.sync_thread
          then (fail, s')
          else if not env.gc_thread
          then (fail, s')
          else (ok, s')
    ]

-- The traversal of the map behind a key gives these keys, which all are in the map, and ends.
pub data Visits (maps : Maps) : ℕ → List ℕ → Type 0 where
  ends : {current : ℕ} → maps.next_key current ≡ none → Visits maps current []
  goes_on :
      {current pid : ℕ} {u : ResourceUsage} {pids : List ℕ}
      → maps.next_key current ≡ some pid
      → maps.usage_of pid ≡ some u
      → Visits maps pid pids
      → Visits maps current (pid ∷ pids)

unfoldable pub length : List ℕ → ℕ
length [] = 0
length (x ∷ xs) = suc (length xs)

-- What a reader of `q` is to get: the map's usage where it has one.
pub merged : Option ResourceUsage → ℕ → ℕ → Option ResourceUsage → Option ResourceUsage
merged none pid q seen = seen
merged (some u) pid q seen = if q == pid then some u else seen

pub synced : Maps → List ℕ → ℕ → Option ResourceUsage → Option ResourceUsage
unfolding merged
synced maps [] q seen = seen
synced maps (pid ∷ pids) q seen = synced maps pids q (merged (maps.usage_of pid) pid q seen)

abbrev Fitted : SyncHost → ℕ → Option ResourceUsage → Shm → Type 0
Fitted host pid none s = Unit {0}
Fitted host pid (some u) s =
    (shm_update_process_resources host.stat (host.os pid) pid (some u) s).0 ≡ ok

-- Each process of the map has, or gets, a slot.
unfoldable pub AllFitted : Maps → SyncHost → List ℕ → Shm → Type 0
AllFitted maps host [] s = Unit {0}
AllFitted maps host (pid ∷ pids) s =
    Fitted host pid (maps.usage_of pid) s
    × AllFitted maps host pids (sync_process host pid (maps.usage_of pid) s)
