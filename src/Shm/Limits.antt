-- ===== src/Shm/Limits.antt =====
-- src/shm/shared_memory.c: what a call of `shm_set_global_limits` leaves behind.
use mtrdma_artifact.Common.{ℕ, ◌≡◌, refl, true, Os, arith, ok}
use mtrdma_artifact.Shm.{Shm, shm_lock, shm_unlock, shm_set_global_limits, shm_init}

-- The limits in the object are these.
pub record HasLimits (qp mr memory : ℕ) (s : Shm) : Type 0 where
  pub attached : s.attached ≡ true
  pub global_qp : s.region.max_global_qp ≡ qp
  pub global_mr : s.region.max_global_mr ≡ mr
  pub global_memory : s.region.max_global_memory ≡ memory

pub set_limits-HasLimits :
    (qp mr memory : ℕ) (s : Shm)
    → s.attached ≡ true
    → HasLimits qp mr memory (shm_set_global_limits qp mr memory s).1
unfolding shm_set_global_limits shm_lock shm_unlock
set_limits-HasLimits qp mr memory s on =
    rw on (record { attached = refl; global_qp = refl; global_mr = refl; global_memory = refl })

-- A process in which `shm_init` succeeded is attached.
pub init-attached : (os : Os) (s : Shm) → (shm_init os s).0 ≡ ok → (shm_init os s).1.attached ≡ true
unfolding shm_init
init-attached os s h = ground arith
