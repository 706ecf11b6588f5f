-- ===== src/Shm.antt =====
-- src/shm/shared_memory.c: the table of per-process usage and the global counters, in an object
-- that every process maps.
pub mod ProcStat
pub mod Accounts
pub mod Lookup
pub mod History
pub mod Failure
pub mod Clear
pub mod Limits
mod Tests
use mtrdma_artifact.Common.{
  ℕ, ◌+◌, ◌%◌, Bool, true, false, not, ◌&&◌, ◌||◌, Option, none, some, List, leb, ◌==◌,
  if◌then◌else◌, Status, ok, fail, Os, u64_mod, add32, sub32, add64, sub64, is_negative, update,
  find_index, find_slot, value_at,
}
use ProcStat.{shm_read_proc_start_time}

abbrev pub max_processes : ℕ
max_processes = 1024

-- `resource_usage_t`. The counts are `int`s, kept as bit patterns.
pub record ResourceUsage : Type 0 where
  pub qp_count : ℕ
  pub mr_count : ℕ
  pub memory_used : ℕ

abbrev pub no_usage : ResourceUsage
no_usage = record { qp_count = 0; mr_count = 0; memory_used = 0 }

-- `shared_memory_data_t`
pub record SharedMemoryData : Type 0 where
  pub global_stats : ResourceUsage
  pub process_stats : ℕ → ResourceUsage
  pub process_pids : ℕ → ℕ
  pub process_start_times : ℕ → ℕ
  pub max_global_qp : ℕ
  pub max_global_mr : ℕ
  pub max_global_memory : ℕ
  pub shm_lock : ℕ
  pub version : ℕ
  pub last_update_time : ℕ

-- One process's view: whether `shm_data_ptr` is set, and the object behind the name.
pub record Shm : Type 0 where
  pub attached : Bool
  pub region : SharedMemoryData

-- A region of zero bytes.
abbrev pub zero_region : SharedMemoryData
zero_region = record {
  global_stats = no_usage;
  process_stats = λ _. no_usage;
  process_pids = λ _. 0;
  process_start_times = λ _. 0;
  max_global_qp = 0;
  max_global_mr = 0;
  max_global_memory = 0;
  shm_lock = 0;
  version = 0;
  last_update_time = 0;
}

-- The block of `shm_init` that runs when the global counters read zero.
pub init_region : ℕ → SharedMemoryData → SharedMemoryData
init_region now d =
    if d.global_stats.qp_count == 0
      && d.global_stats.mr_count == 0
      && d.global_stats.memory_used == 0
    then record {
      global_stats = no_usage;
      process_stats = λ _. no_usage;
      process_pids = λ _. 0;
      process_start_times = λ _. 0;
      max_global_qp = 1000;
      max_global_mr = 1000;
      max_global_memory = 1073741824;
      shm_lock = 0;
      version = 1;
      last_update_time = now;
    }
    else d

unfoldable pub shm_init : Os → Shm → Status × Shm
shm_init os s =
    if not os.shm_open
    then (fail, s)
    else if not os.ftruncate
    then (fail, s)
    else if not os.mmap
    then (fail, record s { attached = false })
    else (ok, record { attached = true; region = init_region (os.time 0) s.region })

-- `unlinked` is the answer of `shm_unlink`; the next object of that name starts as zero bytes.
pub shm_destroy : Bool → Shm → Status × Shm
shm_destroy unlinked s =
    if unlinked
    then (ok, record { attached = false; region = zero_region })
    else (fail, record s { attached = false })

unfoldable pub shm_lock : SharedMemoryData → SharedMemoryData
shm_lock d = record d { shm_lock = 1 }

unfoldable pub shm_unlock : SharedMemoryData → SharedMemoryData
shm_unlock d = record d { shm_lock = 0 }

-- The out parameter of a getter is the result; `none` is -1.
pub shm_get_global_resources : Shm → Option ResourceUsage
shm_get_global_resources s = if s.attached then some s.region.global_stats else none

-- `pid <= 0`
abbrev pub no_pid : ℕ → Bool
no_pid pid = pid == 0 || is_negative pid

pub shm_get_process_resources : ℕ → Shm → Option ResourceUsage
shm_get_process_resources pid s =
    if not s.attached || no_pid pid
    then none
    else some (
        value_at no_usage s.region.process_stats
          (find_index s.region.process_pids pid 0 max_processes))

-- `version++` and `last_update_time = get_current_time_ns()`
abbrev pub bump : ℕ → SharedMemoryData → SharedMemoryData
bump now d = record d { version = (d.version + 1) % u64_mod; last_update_time = now }

-- A null pointer is `none`.
pub shm_update_global_resources : Os → Option ResourceUsage → Shm → Status × Shm
unfolding shm_lock shm_unlock
shm_update_global_resources os none s = (fail, s)
shm_update_global_resources os (some usage) s = if not s.attached then (fail, s) else (
  ok,
  record s {
    region = shm_unlock (bump (os.time 0) (record (shm_lock s.region) { global_stats = usage }));
  },
)

-- `global_stats.f -= process_stats[slot].f` for the three fields.
pub release_usage : ResourceUsage → ResourceUsage → ResourceUsage
release_usage g u = record {
  qp_count = sub32 g.qp_count u.qp_count;
  mr_count = sub32 g.mr_count u.mr_count;
  memory_used = sub64 g.memory_used u.memory_used;
}

-- The pid was reused: the slot's start time is known and is not the current one.
pub evict_reused : ℕ → ℕ → SharedMemoryData → SharedMemoryData
unfolding release_usage
evict_reused current_start slot d =
    if not (current_start == 0)
      && not (d.process_start_times slot == 0)
      && not (current_start == d.process_start_times slot)
    then record d {
      global_stats = release_usage d.global_stats (d.process_stats slot);
      process_stats = update d.process_stats slot no_usage;
      process_start_times = update d.process_start_times slot current_start;
    }
    else d

-- A new entry in an empty slot.
pub claim_slot : ℕ → ℕ → ℕ → SharedMemoryData → SharedMemoryData
claim_slot start pid slot d = record d {
  process_pids = update d.process_pids slot pid;
  process_start_times = update d.process_start_times slot start;
}

-- `global_stats.f += usage->f - old_f` for the three fields.
pub shift_usage : ResourceUsage → ResourceUsage → ResourceUsage → ResourceUsage
shift_usage g new old = record {
  qp_count = add32 g.qp_count (sub32 new.qp_count old.qp_count);
  mr_count = add32 g.mr_count (sub32 new.mr_count old.mr_count);
  memory_used = add64 g.memory_used (sub64 new.memory_used old.memory_used);
}

pub write_slot : ℕ → ResourceUsage → ℕ → SharedMemoryData → SharedMemoryData
unfolding shift_usage
write_slot now usage slot d = bump now (record d {
  process_stats = update d.process_stats slot usage;
  global_stats = shift_usage d.global_stats usage (d.process_stats slot);
})

-- The critical section of `shm_update_process_resources`, by the results of the search.
unfoldable pub update_slot :
    ℕ → ℕ → ℕ → ResourceUsage → Option ℕ → Option ℕ → SharedMemoryData → Status × SharedMemoryData
unfolding evict_reused claim_slot write_slot shm_unlock
update_slot start now pid usage (some slot) empty_slot d =
    (ok, shm_unlock (write_slot now usage slot (evict_reused start slot d)))
update_slot start now pid usage none (some slot) d =
    (ok, shm_unlock (write_slot now usage slot (claim_slot start pid slot d)))
update_slot start now pid usage none none d = (fail, shm_unlock d)

-- `stat` gives the contents of /proc/[pid]/stat.
unfoldable pub shm_update_process_resources :
    (ℕ → Option (List ℕ)) → Os → ℕ → Option ResourceUsage → Shm → Status × Shm
shm_update_process_resources stat os pid none s = (fail, s)
shm_update_process_resources stat os pid (some usage) s =
    if not s.attached || no_pid pid
    then (fail, s)
    else let d = shm_lock s.region in
      let (slot, empty_slot) = find_slot d.process_pids pid 0 max_processes none in
      let (r, d') =
        update_slot (shm_read_proc_start_time stat pid) (os.time 0) pid usage slot empty_slot d in
      (r, record s { region = d' })

unfoldable pub clear_entry : ℕ → SharedMemoryData → SharedMemoryData
unfolding release_usage
clear_entry slot d = record d {
  global_stats = release_usage d.global_stats (d.process_stats slot);
  process_stats = update d.process_stats slot no_usage;
  process_pids = update d.process_pids slot 0;
  process_start_times = update d.process_start_times slot 0;
  version = (d.version + 1) % u64_mod;
}

-- The result is what the out parameters receive; the lock is not taken here.
pub shm_clear_process_entry : ℕ → Shm → Option ResourceUsage × Shm
unfolding clear_entry
shm_clear_process_entry slot s =
    if not s.attached || (is_negative slot || leb max_processes slot)
    then (none, s)
    else if s.region.process_pids slot == 0
    then (none, s)
    else (some (s.region.process_stats slot), record s { region = clear_entry slot s.region })

pub shm_set_global_limits : ℕ → ℕ → ℕ → Shm → Status × Shm
unfolding shm_lock shm_unlock
shm_set_global_limits max_qp max_mr max_memory s = if not s.attached then (fail, s) else (
  ok,
  record s {
    region = shm_unlock (record (shm_lock s.region) {
      max_global_qp = max_qp;
      max_global_mr = max_mr;
      max_global_memory = max_memory;
    });
  },
)
