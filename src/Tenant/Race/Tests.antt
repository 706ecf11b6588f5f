-- ===== src/Tenant/Race/Tests.antt =====
-- src/shm/shared_memory_tenant.c: two threads that allocate at once, where there is room for one.
use mtrdma_artifact.Common.{
  zero, suc, ℕ, ◌+◌, ◌-◌, ◌≤◌, ◌<◌, ◌≡◌, refl, Bool, true, false, List, [], ◌∷◌, arith, update,
  total, if◌then◌else◌,
}
use Prim.Native.Nat.{min}
use mtrdma_artifact.Tenant.State.{TenantSharedMemory, zero_shm, zero_info, zero_quota, active}
use mtrdma_artifact.Tenant.Usage.Quota.{Account}
use mtrdma_artifact.Tenant.Race.{thread_step, System, start, advance, step, Reach, begin, onward}
use mtrdma_artifact.Tenant.Race.Exclusion.{inside, mutual_exclusion}
use mtrdma_artifact.Tenant.Race.Account.{granted}
use mtrdma_artifact.Tenant.Race.Quota.{is_done, concurrent_count, concurrent_exact}
use mtrdma_artifact.Tenant.Race.Progress.{can_return}

-- Tenant 1 may have one queue pair.
abbrev room_for_one : TenantSharedMemory
room_for_one = record zero_shm {
  tenants =
      update zero_shm.tenants 1
        (record zero_info { status = active; quota = record zero_quota { max_qp_per_tenant = 1 } });
}

-- The threads 0 and 1 in turn as the list says.
follow : List Bool → System → System
unfolding thread_step
follow [] s = s
follow (second ∷ turns) s = follow turns (advance 1 5 (if second then 1 else 0) s)

follow-Reach :
    (turns : List Bool) (first s : System) → Reach 1 2 first s → Reach 1 2 first (follow turns s)
unfolding follow
follow-Reach [] first s r = r
follow-Reach (true ∷ turns) first s r =
    follow-Reach turns first _ (onward r (step 5 1 (omega arith)))
follow-Reach (false ∷ turns) first s r =
    follow-Reach turns first _ (onward r (step 5 0 (omega arith)))

-- The first is in the critical section when the second tries, and the second has it afterwards.
abbrev turns : List Bool
turns =
    false ∷ true ∷ false ∷ false ∷ true ∷ false ∷ false ∷ false ∷ false ∷ false ∷ false ∷ true
    ∷ true ∷ false ∷ true ∷ false ∷ true ∷ false ∷ true ∷ true ∷ true ∷ true ∷ true ∷ true ∷ []

abbrev early : List Bool
early = false ∷ true ∷ false ∷ []

room_for_one-Account : Account 1 1 0 room_for_one
room_for_one-Account = record { active = refl; limit = refl; count = refl }

mutual_exclusion_example :
    inside ((follow early (start room_for_one)).pcs 0)
      + inside ((follow early (start room_for_one)).pcs 1)
    ≤ 1
mutual_exclusion_example =
    mutual_exclusion 1 2 room_for_one (follow early (start room_for_one)) 0 1 refl
      (follow-Reach early _ _ begin) (omega arith) (omega arith) (λ e. absurd (omega (arith, e)))

concurrent_count_example :
    (((follow early (start room_for_one)).shm.tenants 1).usage.qp_count
      ≡ 0 + total granted 2 (follow early (start room_for_one)).pcs)
    × (0 + total granted 2 (follow early (start room_for_one)).pcs ≤ 1)
concurrent_count_example =
    concurrent_count 1 1 0 2 room_for_one (follow early (start room_for_one)) (omega arith)
      (omega arith) refl room_for_one-Account (follow-Reach early _ _ begin)

all_done : (k : ℕ) → k < 2 → is_done ((follow turns (start room_for_one)).pcs k) ≡ true
unfolding follow thread_step
all_done zero lk = refl
all_done (suc zero) lk = refl
all_done (suc (suc k)) lk = absurd (omega (arith, lk))

concurrent_exact_example : total granted 2 (follow turns (start room_for_one)).pcs ≡ min 2 (1 - 0)
concurrent_exact_example =
    concurrent_exact 1 1 0 2 room_for_one (follow turns (start room_for_one)) (omega arith)
      (omega arith) refl room_for_one-Account (follow-Reach turns _ _ begin) all_done

can_return_example :
    (s' : System) × Reach 1 2 (follow early (start room_for_one)) s'
    × ((k : ℕ) → k < 2 → is_done (s'.pcs k) ≡ true)
can_return_example =
    can_return 1 2 room_for_one (follow early (start room_for_one)) refl
      (follow-Reach early _ _ begin)
