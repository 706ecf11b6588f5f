-- ===== src/Shm/Clear.antt =====
-- src/shm/shared_memory.c: what a reader sees after an entry is cleared.
use mtrdma_artifact.Common.{
  ℕ, ◌<◌, ◌≡◌, ◌≢◌, refl, inl, inr, some, ◌⊎◌, ap, ◌∙◌, ==-eq, arith, not, ◌||◌, ◌&&◌,
  if◌then◌else◌, Bool-cases, find_index, value_at, view-cleared, ◌==◌, leb, is_negative,
}
use mtrdma_artifact.Shm.{
  ResourceUsage, no_usage, SharedMemoryData, Shm, max_processes, no_pid, clear_entry,
  shm_clear_process_entry, shm_get_process_resources,
}
use mtrdma_artifact.Shm.Accounts.{IsValid}

pub clear_entry-view :
    (slot : ℕ) (d : SharedMemoryData) (q : ℕ)
    → slot < max_processes
    → IsValid d
    → q ≢ 0
    → let d' = clear_entry slot d in
      value_at no_usage d'.process_stats (find_index d'.process_pids q 0 max_processes) ≡ (
        if q == d.process_pids slot
        then no_usage
        else value_at no_usage d.process_stats (find_index d.process_pids q 0 max_processes))
unfolding clear_entry
clear_entry-view slot d q lt v nz =
    view-cleared no_usage max_processes d.process_pids _ d.process_stats _ slot no_usage (λ j. refl)
      q lt (λ j ltj ne e. v.unique j slot ltj lt ne e) nz (λ j. refl)

-- A reader does not look at the lock.
pub get-relock :
    (n : ℕ) (s : Shm) (q : ℕ)
    → shm_get_process_resources q (record s { region = record (s.region) { shm_lock = n } })
      ≡ shm_get_process_resources q s
unfolding shm_get_process_resources
get-relock n s q = refl

-- A reader of the object in which a used slot has been emptied.
pub get-emptied :
    (slot : ℕ) (s : Shm) (q : ℕ)
    → slot < max_processes
    → IsValid s.region
    → let after = shm_get_process_resources q (record s { region = clear_entry slot s.region }) in
      (after ≡ shm_get_process_resources q s)
      ⊎ ((after ≡ some no_usage) × (q ≡ s.region.process_pids slot))
unfolding shm_get_process_resources
get-emptied slot s q lt v = elim (Bool-cases (not s.attached || no_pid q)) [
  | inl bad ↦ rw bad (inl refl)
  | inr good ↦
      let seen = clear_entry-view slot s.region q lt v (ground arith) in
      elim (Bool-cases (q == s.region.process_pids slot)) [
        | inl e ↦ rw good (inr (ap some (seen ∙ rw e refl), ==-eq _ _ e))
        | inr ne ↦ rw good (inl (ap some (seen ∙ rw ne refl)))
      ]
]

-- After a successful `shm_clear_process_entry` on a valid object, a reader of the pid that the slot
-- held gets zero usage; a reader of any other pid,
-- or of one that is not positive, gets what it got before.
pub get-clear :
    (slot : ℕ) (s : Shm) (q : ℕ) {u : ResourceUsage}
    → IsValid s.region
    → let (r, s') = shm_clear_process_entry slot s in
      r ≡ some u
      → shm_get_process_resources q s' ≡ (
          if q == s.region.process_pids slot && not (no_pid q)
          then some no_usage
          else shm_get_process_resources q s)
unfolding shm_clear_process_entry shm_get_process_resources
get-clear slot s q v =
    elim (Bool-cases (not s.attached || (is_negative slot || leb max_processes slot))) [
      | inl bad ↦ rw bad (λ h. cc)
      | inr good ↦ elim (Bool-cases (s.region.process_pids slot == 0)) [
        | inl free ↦ rw (good, free) (λ h. cc)
        | inr used ↦
            rw (good, used)
              (λ h. elim (Bool-cases (no_pid q)) [
                | inl none_q ↦ ground arith
                | inr some_q ↦
                    ground (arith, clear_entry-view slot s.region q (ground arith) v (ground arith))
              ])
      ]
    ]
