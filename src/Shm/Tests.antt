-- ===== src/Shm/Tests.antt =====
-- src/shm/shared_memory.c: the theorems at concrete calls.
use mtrdma_artifact.Common.{
  ℕ, ◌≡◌, refl, Bool, true, false, Option, none, some, List, [], ◌∷◌, arith, if◌then◌else◌, ◌==◌,
  ok, Os, find_slot,
}
use mtrdma_artifact.Shm.{
  ResourceUsage, no_usage, SharedMemoryData, Shm, zero_region, shm_get_process_resources,
  shm_update_process_resources, shm_clear_process_entry, update_slot, shm_lock,
}
use mtrdma_artifact.Shm.Accounts.{InRange, IsValid, zero-IsValid}
use mtrdma_artifact.Shm.Lookup.{get-update}
use mtrdma_artifact.Shm.History.{Call, inits, updates, clears, limits, run, run-IsValid}

abbrev host_ok : Os
host_ok = record { shm_open = true; ftruncate = true; mmap = true; fstat = true; time = λ k. k }

abbrev no_stat : ℕ → Option (List ℕ)
no_stat pid = none

abbrev two_qps : ResourceUsage
two_qps = record { qp_count = 2; mr_count = 1; memory_used = 4096 }

abbrev opened : Shm
opened = record { attached = true; region = zero_region }

two_qps-InRange : InRange two_qps
two_qps-InRange = omega arith

-- A process updates, clears and updates again, between others.
abbrev calls : List (Bool × Call)
calls =
    (true, inits host_ok)
    ∷ (true, updates no_stat host_ok 7 two_qps two_qps-InRange)
    ∷ (true, clears 0)
    ∷ (false, updates no_stat host_ok 8 two_qps two_qps-InRange)
    ∷ (true, limits 1 2 3)
    ∷ []

run-IsValid_example : IsValid (run calls (record { attached = false; region = zero_region })).region
run-IsValid_example = run-IsValid calls false

update_ok : (shm_update_process_resources no_stat host_ok 7 (some two_qps) opened).0 ≡ ok
unfolding shm_update_process_resources update_slot shm_lock find_slot
update_ok = refl

get-update_example :
    shm_get_process_resources 7
      (shm_update_process_resources no_stat host_ok 7 (some two_qps) opened).1
    ≡ (if 7 == 7 then some two_qps else shm_get_process_resources 7 opened)
get-update_example = get-update no_stat host_ok 7 two_qps opened 7 update_ok

-- A region in which process 7 has the slot 3.
abbrev one_process : SharedMemoryData
one_process = record zero_region { process_pids = λ j. if j == 3 then 7 else 0 }

one_process-IsValid : IsValid one_process
one_process-IsValid = record {
  balanced = zero-IsValid.balanced;
  in_range = zero-IsValid.in_range;
  unique = λ i j li lj ne e. ground arith;
}

abbrev with_one : Shm
with_one = record { attached = true; region = one_process }

clear_ok : (shm_clear_process_entry 3 with_one).0 ≡ some no_usage
unfolding shm_clear_process_entry
clear_ok = refl
