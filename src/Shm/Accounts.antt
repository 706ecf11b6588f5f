-- ===== src/Shm/Accounts.antt =====
-- src/shm/shared_memory.c: the global counters against the table of processes.
use mtrdma_artifact.Common.{
  ℕ, ◌%◌, ◌<◌, ◌≡◌, ◌≢◌, refl, not, ◌||◌, leb, is_negative, inl, inr, Option, none, some, List,
  arith, if_intro, Bool-cases, Os, u32_mod, u64_mod, update, total, total-update, total-zero,
  find_slot, Found, IsEmptySlot, find_index-Found, find_slot-eq-find_index, find_slot-IsEmptySlot,
  ◌==◌,
}
use mtrdma_artifact.Shm.{
  ResourceUsage, no_usage, SharedMemoryData, Shm, max_processes, zero_region, no_pid, init_region,
  shm_init, shm_lock, shm_unlock, release_usage, shift_usage, evict_reused, claim_slot, write_slot,
  update_slot, shm_update_process_resources, clear_entry, shm_clear_process_entry,
  shm_set_global_limits,
}

-- The values that the C types hold.
pub record InRange (u : ResourceUsage) : Type 0 where
  pub qp : u.qp_count < u32_mod
  pub mr : u.mr_count < u32_mod
  pub memory : u.memory_used < u64_mod

abbrev pub qp_of : ResourceUsage → ℕ
qp_of u = u.qp_count

abbrev pub mr_of : ResourceUsage → ℕ
mr_of u = u.mr_count

abbrev pub memory_of : ResourceUsage → ℕ
memory_of u = u.memory_used

-- Each global counter is the sum of the processes' counters, in its word size.
pub record Balanced (stats : ℕ → ResourceUsage) (g : ResourceUsage) : Type 0 where
  pub qp : total qp_of max_processes stats % u32_mod ≡ g.qp_count
  pub mr : total mr_of max_processes stats % u32_mod ≡ g.mr_count
  pub memory : total memory_of max_processes stats % u64_mod ≡ g.memory_used

shift-Balanced :
    {stats : ℕ → ResourceUsage} {g : ResourceUsage} (i : ℕ) (u : ResourceUsage)
    → i < max_processes
    → InRange (stats i)
    → Balanced stats g
    → Balanced (update stats i u) (shift_usage g u (stats i))
unfolding shift_usage
shift-Balanced {stats} i u lt r b = record {
  qp = omega (arith, b.qp, r.qp, total-update qp_of max_processes stats i u lt);
  mr = omega (arith, b.mr, r.mr, total-update mr_of max_processes stats i u lt);
  memory = omega (arith, b.memory, r.memory, total-update memory_of max_processes stats i u lt);
}

pub release-Balanced :
    {stats : ℕ → ResourceUsage} {g : ResourceUsage} (i : ℕ)
    → i < max_processes
    → InRange (stats i)
    → Balanced stats g
    → Balanced (update stats i no_usage) (release_usage g (stats i))
unfolding release_usage
release-Balanced {stats} i lt r b = record {
  qp = omega (arith, b.qp, r.qp, total-update qp_of max_processes stats i no_usage lt);
  mr = omega (arith, b.mr, r.mr, total-update mr_of max_processes stats i no_usage lt);
  memory =
      omega (arith, b.memory, r.memory, total-update memory_of max_processes stats i no_usage lt);
}

-- The invariant of the object: the sums, the ranges, and one slot at most for a process.
pub record IsValid (d : SharedMemoryData) : Type 0 where
  pub balanced : Balanced d.process_stats d.global_stats
  pub in_range : (i : ℕ) → InRange (d.process_stats i)
  pub unique :
      (i j : ℕ)
      → i < max_processes
      → j < max_processes
      → d.process_pids i ≢ 0
      → d.process_pids i ≡ d.process_pids j
      → i ≡ j

update-InRange :
    {stats : ℕ → ResourceUsage} (i : ℕ) {u : ResourceUsage}
    → ((j : ℕ) → InRange (stats j))
    → InRange u
    → (j : ℕ) → InRange (update stats i u j)
update-InRange {stats} i {u} h r j = elim (Bool-cases (i == j)) [
  | inl e ↦ rw e r
  | inr e ↦ rw e (h j)
]

no_usage-InRange : InRange no_usage
no_usage-InRange = omega arith

zero-Balanced : Balanced (λ _. no_usage) no_usage
zero-Balanced = record {
  qp = omega (arith, total-zero qp_of max_processes (λ _. no_usage) (λ _. refl));
  mr = omega (arith, total-zero mr_of max_processes (λ _. no_usage) (λ _. refl));
  memory = omega (arith, total-zero memory_of max_processes (λ _. no_usage) (λ _. refl));
}

pub zero-IsValid : IsValid zero_region
zero-IsValid = record {
  balanced = zero-Balanced;
  in_range = λ i. omega arith;
  unique = λ i j li lj ne e. absurd (ne refl);
}

evict_reused-IsValid :
    (start i : ℕ) {d : SharedMemoryData}
    → i < max_processes
    → IsValid d
    → IsValid (evict_reused start i d)
unfolding evict_reused
evict_reused-IsValid start i {d} lt v =
    if_intro IsValid _
      (λ _. record {
        balanced = release-Balanced i lt (v.in_range i) v.balanced;
        in_range = update-InRange i v.in_range no_usage-InRange;
        unique = v.unique;
      })
      (λ _. v)

claim_slot-IsValid :
    (start pid i : ℕ) {d : SharedMemoryData}
    → i < max_processes
    → Found d.process_pids pid 0 max_processes none
    → IsValid d
    → IsValid (claim_slot start pid i d)
unfolding claim_slot
claim_slot-IsValid start pid i {d} lt absent v = record {
  balanced = v.balanced;
  in_range = v.in_range;
  unique = λ a b la lb ne e.
      ground (arith, v.unique a b la lb, absent a (omega arith) la, absent b (omega arith) lb);
}

write_slot-IsValid :
    (now : ℕ) (u : ResourceUsage) (i : ℕ) {d : SharedMemoryData}
    → i < max_processes
    → InRange u
    → IsValid d
    → IsValid (write_slot now u i d)
unfolding write_slot
write_slot-IsValid now u i lt r v = record {
  balanced = shift-Balanced i u lt (v.in_range i) v.balanced;
  in_range = update-InRange i v.in_range r;
  unique = v.unique;
}

pub relock-IsValid :
    (n : ℕ) {d : SharedMemoryData} → IsValid d → IsValid (record d { shm_lock = n })
relock-IsValid n v = record { balanced = v.balanced; in_range = v.in_range; unique = v.unique }

update_slot-IsValid :
    (start now pid : ℕ) {u : ResourceUsage} (slot empty_slot : Option ℕ) {d : SharedMemoryData}
    → InRange u
    → Found d.process_pids pid 0 max_processes slot
    → IsEmptySlot d.process_pids max_processes empty_slot
    → IsValid d
    → IsValid (update_slot start now pid u slot empty_slot d).1
unfolding update_slot
update_slot-IsValid start now pid {u} (some i) empty_slot r f e v =
    relock-IsValid 0 (write_slot-IsValid now u i f.1 r (evict_reused-IsValid start i f.1 v))
update_slot-IsValid start now pid {u} none (some i) r f e v =
    relock-IsValid 0 (write_slot-IsValid now u i e.0 r (claim_slot-IsValid start pid i e.0 f v))
update_slot-IsValid start now pid none none r f e v = relock-IsValid 0 v

-- What the search of the table establishes, whatever it returns.
pub find_slot_results :
    (d : SharedMemoryData) (pid : ℕ)
    → let (slot, empty_slot) = find_slot d.process_pids pid 0 max_processes none in
      Found d.process_pids pid 0 max_processes slot
      × IsEmptySlot d.process_pids max_processes empty_slot
find_slot_results d pid = (
  rw (find_slot-eq-find_index d.process_pids pid 0 max_processes none)
      (find_index-Found d.process_pids pid 0 max_processes),
  find_slot-IsEmptySlot d.process_pids pid 0 max_processes none max_processes (omega arith) tt,
)

-- `shm_update_process_resources` of a usage that the C types hold keeps the object valid on every
-- path: a known process, a reused pid, a new entry, a full table, a bad pid.
pub update_process-IsValid :
    (stat : ℕ → Option (List ℕ)) (os : Os) (pid : ℕ) (u : ResourceUsage) (s : Shm)
    → InRange u
    → IsValid s.region
    → IsValid (shm_update_process_resources stat os pid (some u) s).1.region
unfolding shm_update_process_resources shm_lock
update_process-IsValid stat os pid u s r v = elim (Bool-cases (not s.attached || no_pid pid)) [
  | inl e ↦ rw e v
  | inr e ↦
      let found = find_slot_results s.region pid in
      rw e (update_slot-IsValid _ _ pid _ _ r found.0 found.1 (relock-IsValid 1 v))
]

pub clear_entry-IsValid :
    (slot : ℕ) {d : SharedMemoryData}
    → slot < max_processes
    → IsValid d
    → IsValid (clear_entry slot d)
unfolding clear_entry
clear_entry-IsValid slot lt v = record {
  balanced = release-Balanced slot lt (v.in_range slot) v.balanced;
  in_range = update-InRange slot v.in_range no_usage-InRange;
  unique = λ a b la lb ne e. ground (arith, v.unique a b la lb);
}

-- `shm_clear_process_entry` keeps the object valid: what it takes out of the table it takes out of
-- the global counters.
pub clear_process-IsValid :
    (slot : ℕ) (s : Shm) → IsValid s.region → IsValid (shm_clear_process_entry slot s).1.region
unfolding shm_clear_process_entry
clear_process-IsValid slot s v =
    elim (Bool-cases (not s.attached || (is_negative slot || leb max_processes slot))) [
      | inl e ↦ rw e v
      | inr e ↦ elim (Bool-cases (s.region.process_pids slot == 0)) [
        | inl e' ↦ rw (e, e') v
        | inr e' ↦ rw (e, e') (clear_entry-IsValid slot (ground arith) v)
      ]
    ]

pub init_region-IsValid : (now : ℕ) {d : SharedMemoryData} → IsValid d → IsValid (init_region now d)
unfolding init_region
init_region-IsValid now v =
    if_intro IsValid _
      (λ _. record {
        balanced = zero-Balanced;
        in_range = λ i. no_usage-InRange;
        unique = λ i j li lj ne e. absurd (ne refl);
      })
      (λ _. v)

pub init-IsValid : (os : Os) (s : Shm) → IsValid s.region → IsValid (shm_init os s).1.region
unfolding shm_init
init-IsValid os s v = ground (arith, init_region-IsValid (os.time 0) v)

pub set_limits-IsValid :
    (qp mr memory : ℕ) (s : Shm)
    → IsValid s.region
    → IsValid (shm_set_global_limits qp mr memory s).1.region
unfolding shm_set_global_limits shm_lock shm_unlock
set_limits-IsValid qp mr memory s v = elim (Bool-cases (not s.attached)) [
  | inl e ↦ rw e v
  | inr e ↦ rw e (record { balanced = v.balanced; in_range = v.in_range; unique = v.unique })
]
