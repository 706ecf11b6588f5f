-- ===== src/Common/Arrays.antt =====
-- C arrays of a fixed size as functions of the index: update, and the search for a slot.
use Prim.Native.Nat.{ℕ, zero, suc, ◌+◌, ◌≤◌, ◌<◌}
use mathlib.Core.Path.{◌≡◌, refl}
use mathlib.Core.Logic.{◌≢◌, inl, inr}
use mathlib.Core.Bool.{◌&&◌}
use mathlib.Core.Option.{Option, none, some}
use native.Mathlib.Omega.{arith}
use mtrdma_artifact.Common.Tests.{◌==◌, if◌then◌else◌, is_none, Bool-cases, ==-eq, ==-ne}

abbrev pub update {ℓ} : {A : Type ℓ} → (ℕ → A) → ℕ → A → ℕ → A
update f i a j = if i == j then a else f j

pub update-eq {ℓ} : {A : Type ℓ} (f : ℕ → A) (i : ℕ) (a : A) → update f i a i ≡ a
update-eq f i a = ground arith

pub update-ne {ℓ} : {A : Type ℓ} (f : ℕ → A) (i : ℕ) (a : A) (j : ℕ) → i ≢ j → update f i a j ≡ f j
update-ne f i a j h = ground arith

-- `for (i = ...) if (pids[i] == pid) break;`: the first of `left` indices from `i` on.
unfoldable pub find_index : (ℕ → ℕ) → ℕ → ℕ → ℕ → Option ℕ
find_index pids pid i zero = none
find_index pids pid i (suc left) =
    let rest = find_index pids pid (i + 1) left in if pids i == pid then some i else rest

-- The same loop with the first empty slot kept on the way: (found, empty_slot).
unfoldable pub find_slot : (ℕ → ℕ) → ℕ → ℕ → ℕ → Option ℕ → Option ℕ × Option ℕ
find_slot pids pid i zero empty = (none, empty)
find_slot pids pid i (suc left) empty =
    let rest =
      find_slot pids pid (i + 1) left (if is_none empty && (pids i == 0) then some i else empty) in
    if pids i == pid then (some i, empty) else rest

-- What the first search says of the array.
abbrev pub Found : (ℕ → ℕ) → ℕ → ℕ → ℕ → Option ℕ → Type 0
Found pids pid lo hi none = (j : ℕ) → lo ≤ j → j < hi → pids j ≢ pid
Found pids pid lo hi (some k) =
    (lo ≤ k) × (k < hi) × (pids k ≡ pid) × ((j : ℕ) → lo ≤ j → j < k → pids j ≢ pid)

-- What an empty slot is.
abbrev pub IsEmptySlot : (ℕ → ℕ) → ℕ → Option ℕ → Type 0
IsEmptySlot pids hi none = Unit {0}
IsEmptySlot pids hi (some k) = (k < hi) × (pids k ≡ 0)

Found-cons :
    (pids : ℕ → ℕ) (pid i left : ℕ) (r : Option ℕ)
    → pids i ≢ pid
    → Found pids pid (i + 1) (i + 1 + left) r
    → Found pids pid i (i + suc left) r
Found-cons pids pid i left none ne h = λ j lo hi. elim (Bool-cases (i == j)) [
  | inl e ↦ λ q. ne (ground arith)
  | inr e ↦ h j (omega (arith, ==-ne i j e)) (omega arith)
]
Found-cons pids pid i left (some k) ne h = (
  omega arith,
  omega arith,
  h.2,
  λ j lo lt. elim (Bool-cases (i == j)) [
    | inl e ↦ λ q. ne (ground arith)
    | inr e ↦ h.3 j (omega (arith, ==-ne i j e)) lt
  ],
)

pub find_index-Found :
    (pids : ℕ → ℕ) (pid i left : ℕ) → Found pids pid i (i + left) (find_index pids pid i left)
unfolding find_index
find_index-Found pids pid i zero = λ j lo hi. absurd (omega arith)
find_index-Found pids pid i (suc left) =
    let ih = find_index-Found pids pid (i + 1) left in
    elim (Bool-cases (pids i == pid)) [
      | inl hit ↦ rw hit (omega arith, omega arith, ==-eq _ _ hit, λ j lo lt. absurd (omega arith))
      | inr miss ↦ rw miss (Found-cons pids pid i left _ (==-ne _ _ miss) ih)
    ]

pub find_slot-eq-find_index :
    (pids : ℕ → ℕ) (pid i left : ℕ) (empty : Option ℕ)
    → (find_slot pids pid i left empty).0 ≡ find_index pids pid i left
unfolding find_index find_slot
find_slot-eq-find_index pids pid i zero empty = refl
find_slot-eq-find_index pids pid i (suc left) empty = ground (
  arith,
  find_slot-eq-find_index pids pid (i + 1) left
      (if is_none empty && (pids i == 0) then some i else empty),
)

next-IsEmptySlot :
    (pids : ℕ → ℕ) (hi i : ℕ) (empty : Option ℕ)
    → i < hi
    → IsEmptySlot pids hi empty
    → IsEmptySlot pids hi (if is_none empty && (pids i == 0) then some i else empty)
next-IsEmptySlot pids hi i none lt e = elim (Bool-cases (pids i == 0)) [
  | inl z ↦ rw z (lt, ==-eq _ _ z)
  | inr z ↦ rw z tt
]
next-IsEmptySlot pids hi i (some k) lt e = e

-- The second search result names an empty slot of the array.
pub find_slot-IsEmptySlot :
    (pids : ℕ → ℕ) (pid i left : ℕ) (empty : Option ℕ) (hi : ℕ)
    → i + left ≤ hi
    → IsEmptySlot pids hi empty
    → IsEmptySlot pids hi (find_slot pids pid i left empty).1
unfolding find_slot
find_slot-IsEmptySlot pids pid i zero empty hi h e = e
find_slot-IsEmptySlot pids pid i (suc left) empty hi h e = elim (Bool-cases (pids i == pid)) [
  | inl hit ↦ rw hit e
  | inr miss ↦ rw miss (
      find_slot-IsEmptySlot pids pid (i + 1) left _ hi (omega arith)
        (next-IsEmptySlot pids hi i empty (omega arith) e))
]

find_slot-some : (pids : ℕ → ℕ) (pid i left k : ℕ) → (find_slot pids pid i left (some k)).1 ≡ some k
unfolding find_slot
find_slot-some pids pid i zero k = refl
find_slot-some pids pid i (suc left) k = ground (arith, find_slot-some pids pid (i + 1) left k)

-- With neither result, no entry of the array is empty.
pub find_slot-full :
    (pids : ℕ → ℕ) (pid i left : ℕ)
    → (find_slot pids pid i left none).0 ≡ none
    → (find_slot pids pid i left none).1 ≡ none
    → (j : ℕ) → i ≤ j
    → j < i + left
    → pids j ≢ 0
unfolding find_slot
find_slot-full pids pid i zero a b j lo hi = absurd (omega arith)
find_slot-full pids pid i (suc left) a b j lo hi = λ z. elim (Bool-cases (i == j)) [
  | inl e ↦ ground (arith, find_slot-some pids pid (i + 1) left i)
  | inr ne ↦
      find_slot-full pids pid (i + 1) left (ground (arith, find_slot-some pids pid (i + 1) left i))
        (ground (arith, find_slot-some pids pid (i + 1) left i)) j (omega (arith, ==-ne i j ne))
        (omega arith) z
]

-- The first index that holds `pid` is what the search returns.
pub find_index-some :
    (pids : ℕ → ℕ) (pid i left k : ℕ)
    → Found pids pid i (i + left) (some k)
    → find_index pids pid i left ≡ some k
unfolding find_index
find_index-some pids pid i zero k h = absurd (omega arith)
find_index-some pids pid i (suc left) k h = elim (Bool-cases (i == k)) [
  | inl e ↦ ground arith
  | inr ne ↦ ground (
    arith,
    h.3 i,
    find_index-some pids pid (i + 1) left k
        (omega (arith, ==-ne i k ne), omega arith, h.2, λ j lo lt. h.3 j (omega arith) lt),
  )
]

pub find_index-none :
    (pids : ℕ → ℕ) (pid i left : ℕ)
    → Found pids pid i (i + left) none
    → find_index pids pid i left ≡ none
unfolding find_index
find_index-none pids pid i zero h = refl
find_index-none pids pid i (suc left) h =
    ground (
      arith,
      h i,
      find_index-none pids pid (i + 1) left (λ j lo lt. h j (omega arith) (omega arith)),
    )

-- Two arrays in which `pid` stands at the same places are searched alike.
pub find_index-congr :
    (p q : ℕ → ℕ) (pid i left : ℕ)
    → ((j : ℕ) → (p j == pid) ≡ (q j == pid))
    → find_index p pid i left ≡ find_index q pid i left
unfolding find_index
find_index-congr p q pid i zero h = refl
find_index-congr p q pid i (suc left) h = rw (h i, find_index-congr p q pid (i + 1) left h)
