-- ===== src/Common/Host.antt =====
-- What the operating system answers to one call of an operation.
use Prim.Native.Nat.{ℕ}
use mathlib.Core.Bool.{Bool}

-- `time k` is the k-th reading of the clock within the call. `fstat` says that the object's size
-- could be read and is the size of the structure.
pub record Os : Type 0 where
  pub shm_open : Bool
  pub ftruncate : Bool
  pub mmap : Bool
  pub fstat : Bool
  pub time : ℕ → ℕ
