-- ===== src/Common/Sums.antt =====
-- Sums over C arrays of a fixed size, and how an update of an entry changes them.
use Prim.Native.Nat.{ℕ, zero, suc, ◌+◌, ◌≤◌, ◌<◌}
use mathlib.Core.Path.{◌≡◌, refl}
use mathlib.Core.Logic.{◌⊎◌, inl, inr}
use native.Mathlib.Omega.{arith}
use mtrdma_artifact.Common.Tests.{◌==◌, Bool-cases, ==-eq, ==-ne}
use mtrdma_artifact.Common.Arrays.{update}

-- The sum over the entries from the first to the `left`-th of a field that counts something.
module _ {ℓ} {Entry : Type ℓ} (field : Entry → ℕ) where
  pub total : ℕ → (ℕ → Entry) → ℕ
  total zero entries = 0
  total (suc left) entries = field (entries left) + total left entries

  -- The sum is 0 if nothing counts, and bounded by the number of entries if each counts at most once.
  pub total-zero :
      (left : ℕ) (entries : ℕ → Entry) → ((k : ℕ) → field (entries k) ≡ 0) → total left entries ≡ 0
  unfolding total
  total-zero zero entries none_counts = refl
  total-zero (suc left) entries none_counts =
      omega (arith, none_counts left, total-zero left entries none_counts)

  pub total-le :
      ((e : Entry) → field e ≤ 1) → (left : ℕ) (entries : ℕ → Entry) → total left entries ≤ left
  unfolding total
  total-le once zero entries = omega arith
  total-le once (suc left) entries = omega (arith, once (entries left), total-le once left entries)

  -- No entry counts more than all of them.
  pub le-total :
      (left : ℕ) (entries : ℕ → Entry) (k : ℕ) → k < left → field (entries k) ≤ total left entries
  unfolding total
  le-total zero entries k below = absurd (omega arith)
  le-total (suc left) entries k below = elim (Bool-cases (left == k)) [
    | inl here ↦ ground (arith, ==-eq left k here)
    | inr before ↦ omega (arith, le-total left entries k (omega (arith, ==-ne left k before)))
  ]

  -- A new entry of the same count changes no sum.
  pub total-update_same :
      (left : ℕ) (entries : ℕ → Entry) (k : ℕ) (e : Entry)
      → field e ≡ field (entries k)
      → total left (update entries k e) ≡ total left entries
  unfolding total
  total-update_same zero entries k e same = refl
  total-update_same (suc left) entries k e same =
      ground (arith, total-update_same left entries k e same)

  -- What an update changes: behind the end nothing, else the new count takes the old one's place.
  update_sum :
      (left : ℕ) (entries : ℕ → Entry) (k : ℕ) (e : Entry)
      → (left ≤ k → total left (update entries k e) ≡ total left entries)
        × (k < left
            → total left (update entries k e) + field (entries k) ≡ total left entries + field e)
  unfolding total
  update_sum zero entries k e = ((λ behind. refl), (λ below. absurd (omega arith)))
  update_sum (suc left) entries k e =
      let (outside, inside) = update_sum left entries k e in
      (
        (λ behind. ground (arith, outside (omega arith))),
        λ below. elim (Bool-cases (left == k)) [
          | inl here ↦ ground (arith, ==-eq left k here, outside (omega (arith, ==-eq left k here)))
          | inr before ↦ ground (arith, inside (omega (arith, ==-ne left k before)))
        ],
      )

  pub total-update :
      (left : ℕ) (entries : ℕ → Entry) (k : ℕ) (e : Entry)
      → k < left
      → total left (update entries k e) + field (entries k) ≡ total left entries + field e
  total-update left entries k e = (update_sum left entries k e).1

  -- If each counts at most once, then all count or one does not.
  pub total-full :
      ((e : Entry) → field e ≤ 1)
      → (left : ℕ) (entries : ℕ → Entry)
      → (total left entries ≡ left) ⊎ ((k : ℕ) × (k < left) × (field (entries k) ≡ 0))
  unfolding total
  total-full once zero entries = inl refl
  total-full once (suc left) entries = elim (total-full once left entries) [
    | inl every ↦ elim (Bool-cases (field (entries left) == 0)) [
      | inl e ↦ inr (left, omega arith, ==-eq _ 0 e)
      | inr ne ↦ inl (omega (arith, every, once (entries left), ==-ne _ 0 ne))
    ]
    | inr (k, lk, e) ↦ inr (k, omega arith, e)
  ]

  -- Nothing counts, or one entry does.
  pub total-some :
      (left : ℕ) (entries : ℕ → Entry)
      → (total left entries ≡ 0) ⊎ ((k : ℕ) × (k < left) × (1 ≤ field (entries k)))
  unfolding total
  total-some zero entries = inl refl
  total-some (suc left) entries = elim (total-some left entries) [
    | inl no_other ↦ elim (Bool-cases (field (entries left) == 0)) [
      | inl e ↦ inl (omega (arith, no_other, ==-eq _ 0 e))
      | inr ne ↦ inr (left, omega arith, omega (arith, ==-ne _ 0 ne))
    ]
    | inr (k, lk, e) ↦ inr (k, omega arith, e)
  ]
