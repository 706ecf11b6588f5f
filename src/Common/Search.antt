-- ===== src/Common/Search.antt =====
-- The search of an array that grows at its end.
use Prim.Native.Nat.{ℕ, zero, suc, ◌+◌, ◌≤◌, ◌<◌}
use mathlib.Core.Path.{◌≡◌, refl, ◌∙◌}
use mathlib.Core.Logic.{inl, inr}
use mathlib.Core.Option.{Option, none, some}
use native.Mathlib.Omega.{arith}
use mtrdma_artifact.Common.Tests.{◌==◌, if◌then◌else◌, Bool-cases}
use mtrdma_artifact.Common.Arrays.{update, find_index}

-- The first of two searches that finds something.
abbrev pub or_else : Option ℕ → Option ℕ → Option ℕ
or_else none r = r
or_else (some i) r = some i

-- Only the entries that are searched matter.
pub find_index-congr_below :
    (p q : ℕ → ℕ) (pid i left : ℕ)
    → ((j : ℕ) → i ≤ j → j < i + left → p j ≡ q j)
    → find_index p pid i left ≡ find_index q pid i left
unfolding find_index
find_index-congr_below p q pid i zero h = refl
find_index-congr_below p q pid i (suc left) h =
    let ih =
      find_index-congr_below p q pid (i + 1) left (λ j lo lt. h j (omega arith) (omega arith)) in
    rw (h i (omega arith) (omega arith), ih)

find_index-last :
    (p : ℕ → ℕ) (pid i left : ℕ)
    → find_index p pid i (suc left)
      ≡ or_else (find_index p pid i left) (if p (i + left) == pid then some (i + left) else none)
unfolding find_index
find_index-last p pid i zero = let e : i + 0 ≡ i = omega arith in rw e refl
find_index-last p pid i (suc left) =
    let ih = find_index-last p pid (i + 1) left in
    let e : i + suc left ≡ i + 1 + left = omega arith in
    elim (Bool-cases (p i == pid)) [ inl here ↦ rw here refl | inr other ↦ rw (other, e) ih ]

-- One more entry at the end is found if none before it was.
pub find_index-snoc :
    (p : ℕ → ℕ) (n key pid : ℕ)
    → find_index (update p n key) pid 0 (n + 1)
      ≡ or_else (find_index p pid 0 n) (if key == pid then some n else none)
find_index-snoc p n key pid =
    let next : n + 1 ≡ suc n = omega arith in
    let first : 0 + n ≡ n = omega arith in
    let below : find_index (update p n key) pid 0 n ≡ find_index p pid 0 n =
      find_index-congr_below (update p n key) p pid 0 n (λ j lo lt. ground arith) in
    let here : update p n key n ≡ key = ground arith in
    rw next (find_index-last (update p n key) pid 0 n ∙ rw (first, below, here) refl)
