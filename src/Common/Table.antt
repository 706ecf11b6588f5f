-- ===== src/Common/Table.antt =====
-- A table of keys and values in two arrays, searched from the front: what a reader of one key sees
-- after a slot is written, claimed or cleared. Key 0 marks a free slot.
use Prim.Native.Nat.{ℕ, ◌+◌, ◌<◌}
use mathlib.Core.Path.{◌≡◌, refl, ◌∙◌, subst}
use mathlib.Core.Logic.{◌≢◌, inl, inr}
use mathlib.Core.Option.{Option, none, some}
use native.Mathlib.Omega.{arith}
use mtrdma_artifact.Common.Tests.{◌==◌, if◌then◌else◌, Bool-cases, ==-eq}
use mtrdma_artifact.Common.Arrays.{
  update, update-eq, find_index, Found, find_index-Found, find_index-some, find_index-none,
  find_index-congr,
}

-- The value at the slot that a search returned.
abbrev pub value_at {ℓ} : {A : Type ℓ} → A → (ℕ → A) → Option ℕ → A
value_at d vals none = d
value_at d vals (some i) = vals i

-- What the search of a table of `n` slots returns, as a fact about the table.
pub index-Found :
    (keys : ℕ → ℕ) (q n : ℕ) (r : Option ℕ) → find_index keys q 0 n ≡ r → Found keys q 0 n r
index-Found keys q n r e = subst (Found keys q 0 n) e (from_zero _ (find_index-Found keys q 0 n))
  where
    from_zero : (r : Option ℕ) → Found keys q 0 (0 + n) r → Found keys q 0 n r
    from_zero none h = λ j lo lt. h j lo (omega arith)
    from_zero (some k) h = (h.0, omega (arith, h.1), h.2, h.3)

module _ {ℓ} {A : Type ℓ} (d : A) (n : ℕ) (keys keys' : ℕ → ℕ) (vals vals' : ℕ → A) (i : ℕ) (u : A)
    (written : (j : ℕ) → vals' j ≡ update vals i u j) where
  others :
      (q : ℕ) (r : Option ℕ)
      → ((k : ℕ) → r ≡ some k → i ≢ k)
      → value_at d vals' r ≡ value_at d vals r
  others q none h = refl
  others q (some k) h = ground (arith, written k, h k refl)

  -- The slot in which `key` was found is written.
  pub view-found :
      (key q : ℕ)
      → find_index keys key 0 n ≡ some i
      → ((j : ℕ) → keys' j ≡ keys j)
      → value_at d vals' (find_index keys' q 0 n)
        ≡ (if q == key then u else value_at d vals (find_index keys q 0 n))
  view-found key q found same =
      rw (find_index-congr keys' keys q 0 n (λ j. rw (same j))) (elim (Bool-cases (q == key)) [
        | inl e ↦ rw (e, ==-eq q key e, found) (written i ∙ update-eq vals i u)
        | inr ne ↦ rw ne (
            others q _ λ k there. λ e. ground (
              arith,
              (index-Found keys q n (some k) there).2,
              (index-Found keys key n (some i) found).2,
            ))
      ])

  -- A free slot is claimed for `key`, which had none, and written.
  pub view-claimed :
      (key q : ℕ)
      → find_index keys key 0 n ≡ none
      → i < n
      → keys i ≡ 0
      → q ≢ 0
      → ((j : ℕ) → keys' j ≡ update keys i key j)
      → value_at d vals' (find_index keys' q 0 n)
        ≡ (if q == key then u else value_at d vals (find_index keys q 0 n))
  view-claimed key q absent lt free nz same = elim (Bool-cases (q == key)) [
    | inl e ↦ rw (e, ==-eq q key e, claimed) (written i ∙ update-eq vals i u)
    | inr ne ↦
        rw (ne, find_index-congr keys' keys q 0 n (λ j. ground (arith, same j)))
          (others q _ λ k there. λ e. ground (arith, (index-Found keys q n (some k) there).2))
  ]
    where
      claimed : find_index keys' key 0 n ≡ some i
      claimed = find_index-some keys' key 0 n i (
        omega arith,
        omega arith,
        ground (arith, same i),
        λ j lo below.
            ground
              (arith, same j, index-Found keys key n none absent j (omega arith) (omega arith)),
      )

  -- The only slot of its key is cleared; a reader of that key finds no slot any more.
  pub view-cleared :
      (q : ℕ)
      → i < n
      → ((j : ℕ) → j < n → keys j ≢ 0 → keys j ≡ keys i → j ≡ i)
      → q ≢ 0
      → ((j : ℕ) → keys' j ≡ update keys i 0 j)
      → value_at d vals' (find_index keys' q 0 n)
        ≡ (if q == keys i then d else value_at d vals (find_index keys q 0 n))
  view-cleared q lt unique nz same = elim (Bool-cases (q == keys i)) [
    | inl e ↦
        rw (
          e,
          find_index-none keys' q 0 n (λ j lo hi. ground (arith, same j, unique j (omega arith))),
        )
    | inr ne ↦
        rw (ne, find_index-congr keys' keys q 0 n (λ j. ground (arith, same j)))
          (others q _ λ k there. λ e. ground (arith, (index-Found keys q n (some k) there).2))
  ]
