-- ===== src/Shm/Lookup.antt =====
-- src/shm/shared_memory.c: what a reader sees after an update.
use mtrdma_artifact.Common.{
  ℕ, ◌≡◌, ◌≢◌, refl, sym, inl, inr, Option, none, some, List, arith, if◌then◌else◌, if_intro, not,
  ◌||◌, Bool-cases, ok, Os, update, find_index, find_slot, IsEmptySlot, value_at, view-found,
  view-claimed, find_slot-eq-find_index, ◌==◌,
}
use mtrdma_artifact.Shm.{
  ResourceUsage, no_usage, SharedMemoryData, Shm, max_processes, no_pid, shm_lock, evict_reused,
  update_slot, shm_get_process_resources, shm_update_process_resources,
}
use mtrdma_artifact.Shm.ProcStat.{shm_read_proc_start_time}
use mtrdma_artifact.Shm.Accounts.{find_slot_results}

evict_reused-pids :
    (start i : ℕ) (d : SharedMemoryData) → (evict_reused start i d).process_pids ≡ d.process_pids
unfolding evict_reused
evict_reused-pids start i d =
    if_intro (λ (x : SharedMemoryData). x.process_pids ≡ d.process_pids) _ (λ _. refl) (λ _. refl)

evict_reused-stats :
    (start i : ℕ) (d : SharedMemoryData) (u : ResourceUsage) (j : ℕ)
    → update (evict_reused start i d).process_stats i u j ≡ update d.process_stats i u j
unfolding evict_reused
evict_reused-stats start i d u j = ground arith

-- The critical section changes the view at `pid` only.
update_slot-view :
    (start now pid : ℕ) (u : ResourceUsage) (slot empty_slot : Option ℕ) (d : SharedMemoryData)
    (q : ℕ)
    → find_index d.process_pids pid 0 max_processes ≡ slot
    → IsEmptySlot d.process_pids max_processes empty_slot
    → q ≢ 0
    → (update_slot start now pid u slot empty_slot d).0 ≡ ok
    → let d' = (update_slot start now pid u slot empty_slot d).1 in
      value_at no_usage d'.process_stats (find_index d'.process_pids q 0 max_processes) ≡ (
        if q == pid
        then u
        else value_at no_usage d.process_stats (find_index d.process_pids q 0 max_processes))
unfolding update_slot
update_slot-view start now pid u (some i) empty_slot d q found e nz h =
    rw (evict_reused-pids start i d) (
      view-found no_usage max_processes d.process_pids _ d.process_stats _ i u
        (evict_reused-stats start i d u) pid q found (λ j. refl))
update_slot-view start now pid u none (some i) d q found e nz h =
    view-claimed no_usage max_processes d.process_pids _ d.process_stats _ i u (λ j. refl) pid q
      found e.0 e.1 nz (λ j. refl)
update_slot-view start now pid u none none d q found e nz h = cc

-- A successful `shm_update_process_resources` for one pid is an update of the map from pids to
-- usages at that pid: a reader of it gets the new usage, and a reader of any other pid, valid or
-- not, gets what it got before.
pub get-update :
    (stat : ℕ → Option (List ℕ)) (os : Os) (pid : ℕ) (u : ResourceUsage) (s : Shm) (q : ℕ)
    → let (r, s') = shm_update_process_resources stat os pid (some u) s in
      r ≡ ok
      → shm_get_process_resources q s'
        ≡ (if q == pid then some u else shm_get_process_resources q s)
unfolding shm_update_process_resources shm_get_process_resources shm_lock
get-update stat os pid u s q = elim (Bool-cases (not s.attached || no_pid pid)) [
  | inl bad ↦ rw bad (λ h. cc)
  | inr good ↦ rw good (λ h. elim (Bool-cases (not s.attached || no_pid q)) [
    | inl none_q ↦ ground arith
    | inr some_q ↦
        let slots = find_slot s.region.process_pids pid 0 max_processes none in
        ground (
          arith,
          update_slot-view (shm_read_proc_start_time stat pid) (os.time 0) pid u slots.0 slots.1
              (shm_lock s.region) q
              (sym (find_slot-eq-find_index s.region.process_pids pid 0 max_processes none))
              (find_slot_results s.region pid).1 (ground arith) h,
        )
  ])
]
