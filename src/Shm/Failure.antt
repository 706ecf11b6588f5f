-- ===== src/Shm/Failure.antt =====
-- src/shm/shared_memory.c: when an update is refused, and that a refused update changes nothing.
use mtrdma_artifact.Common.{
  ℕ, ◌<◌, ◌≡◌, ◌≢◌, refl, ◌∙◌, subst, ◌↔◌, true, false, Option, none, some, List, arith, fail, Os,
  find_slot, Found, find_slot-eq-find_index, find_slot-full, IsEmptySlot, find_index-none,
}
use mtrdma_artifact.Shm.{
  ResourceUsage, SharedMemoryData, Shm, max_processes, no_pid, shm_lock, shm_unlock, update_slot,
  shm_update_process_resources,
}
use mtrdma_artifact.Shm.Accounts.{find_slot_results}

-- No slot holds the pid, and none is free.
abbrev IsFullFor : ℕ → SharedMemoryData → Type 0
IsFullFor pid d = (j : ℕ) → j < max_processes → (d.process_pids j ≢ pid) × (d.process_pids j ≢ 0)

refused :
    (start now pid : ℕ) (u : ResourceUsage) (slot empty_slot : Option ℕ) (d : SharedMemoryData)
    → (update_slot start now pid u slot empty_slot d).0 ≡ fail
    → (slot ≡ none)
      × (empty_slot ≡ none)
      × ((update_slot start now pid u slot empty_slot d).1 ≡ shm_unlock d)
unfolding update_slot
refused start now pid u (some i) e d h = cc
refused start now pid u none (some i) d h = cc
refused start now pid u none none d h = (refl, refl, refl)

find_full :
    (pid : ℕ) (d : SharedMemoryData)
    → IsFullFor pid d
    → let slots = find_slot d.process_pids pid 0 max_processes none in
      (slots.0 ≡ none) × (slots.1 ≡ none)
find_full pid d full =
    let slots = find_slot d.process_pids pid 0 max_processes none in
    (
      find_slot-eq-find_index d.process_pids pid 0 max_processes none
          ∙ find_index-none d.process_pids pid 0 max_processes (λ j lo lt. (full j lt).0),
      no_slot slots.1 (find_slot_results d pid).1,
    )
  where
    no_slot : (e : Option ℕ) → IsEmptySlot d.process_pids max_processes e → e ≡ none
    no_slot none h = refl
    no_slot (some k) h = absurd ((full k h.0).1 h.1)

refused_if_none :
    (start now pid : ℕ) (u : ResourceUsage) {slot empty_slot : Option ℕ} (d : SharedMemoryData)
    → slot ≡ none
    → empty_slot ≡ none
    → (update_slot start now pid u slot empty_slot d).0 ≡ fail
unfolding update_slot
refused_if_none start now pid u d e f = rw (e, f)

module _ (stat : ℕ → Option (List ℕ)) (os : Os) (pid : ℕ) (u : ResourceUsage) (s : Shm)
    (attached : s.attached ≡ true) (is_pid : no_pid pid ≡ false) where
  -- In an attached process and for a positive pid, `shm_update_process_resources` returns -1 exactly
  -- when no slot of the table holds the pid and no slot is free.
  update_fails :
      ((shm_update_process_resources stat os pid (some u) s).0 ≡ fail) ↔ IsFullFor pid s.region
  unfolding shm_update_process_resources shm_lock
  update_fails =
      rw (attached, is_pid)
        (let slots = find_slot s.region.process_pids pid 0 max_processes none in
          (
            λ h.
                let r = refused _ _ pid u slots.0 slots.1 (shm_lock s.region) h in
                λ j lt. (
                  subst (Found s.region.process_pids pid 0 max_processes) r.0
                      (find_slot_results s.region pid).0 j (omega arith) lt,
                  find_slot-full s.region.process_pids pid 0 max_processes r.0 r.1 j (omega arith)
                      lt,
                ),
            λ full.
                refused_if_none _ _ pid u (shm_lock s.region) (find_full pid s.region full).0
                  (find_full pid s.region full).1,
          ))

  -- A refused update leaves the object as it was, if the lock was free: nothing is written, and the
  -- lock is free again.
  pub refused_update :
      s.region.shm_lock ≡ 0
      → (shm_update_process_resources stat os pid (some u) s).0 ≡ fail
      → (shm_update_process_resources stat os pid (some u) s).1 ≡ s
  unfolding shm_update_process_resources shm_lock shm_unlock
  refused_update free =
      rw (attached, is_pid)
        (λ h.
          let slots = find_slot s.region.process_pids pid 0 max_processes none in
          let r = refused _ _ pid u slots.0 slots.1 (shm_lock s.region) h in ground (arith, r))
