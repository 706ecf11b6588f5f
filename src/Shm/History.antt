-- ===== src/Shm/History.antt =====
-- src/shm/shared_memory.c: whatever calls the processes make, in whatever order, the global
-- counters are the sums of the table. `shm_update_global_resources`, which overwrites the counters
-- with a caller's figures, is no call of this history.
use mtrdma_artifact.Common.{ℕ, Bool, List, [], ◌∷◌, Option, Os}
use mtrdma_artifact.Shm.{
  ResourceUsage, Shm, zero_region, shm_init, shm_update_process_resources, shm_clear_process_entry,
  shm_set_global_limits,
}
use mtrdma_artifact.Shm.Accounts.{
  InRange, IsValid, zero-IsValid, update_process-IsValid, clear_process-IsValid, init-IsValid,
  set_limits-IsValid,
}

-- A call, with what the operating system answers to it. A usage is one that the C types hold.
pub data Call : Type 0 where
  inits : Os → Call
  updates : (ℕ → Option (List ℕ)) → Os → ℕ → (u : ResourceUsage) → InRange u → Call
  clears : ℕ → Call
  limits : ℕ → ℕ → ℕ → Call

pub step : Call → Shm → Shm
step (inits os) s = (shm_init os s).1
step (updates stat os pid u r) s = (shm_update_process_resources stat os pid (Option.some u) s).1
step (clears slot) s = (shm_clear_process_entry slot s).1
step (limits qp mr memory) s = (shm_set_global_limits qp mr memory s).1

-- Before each call any process may be the caller: the flag is whether that one is attached.
pub run : List (Bool × Call) → Shm → Shm
run [] s = s
run ((attached, c) ∷ cs) s = run cs (step c (record s { attached = attached }))

step-IsValid : (c : Call) (s : Shm) → IsValid s.region → IsValid (step c s).region
unfolding step
step-IsValid (inits os) s v = init-IsValid os s v
step-IsValid (updates stat os pid u r) s v = update_process-IsValid stat os pid u s r v
step-IsValid (clears slot) s v = clear_process-IsValid slot s v
step-IsValid (limits qp mr memory) s v = set_limits-IsValid qp mr memory s v

run-keeps-IsValid :
    (cs : List (Bool × Call)) (s : Shm) → IsValid s.region → IsValid (run cs s).region
unfolding run
run-keeps-IsValid [] s v = v
run-keeps-IsValid ((attached, c) ∷ cs) s v = run-keeps-IsValid cs _ (step-IsValid c _ v)

-- After any sequence of `shm_init`, `shm_update_process_resources`, `shm_clear_process_entry` and
-- `shm_set_global_limits` on a new object, by attached and by unattached processes, the object is
-- valid: each global counter is the sum of the processes' counters modulo its word size, every
-- counter is in range, and no two slots hold the same process.
pub run-IsValid :
    (cs : List (Bool × Call)) (attached : Bool)
    → IsValid (run cs (record { attached = attached; region = zero_region })).region
run-IsValid cs attached = run-keeps-IsValid cs _ zero-IsValid
