-- ===== src/Tenant/Race/Account.antt =====
-- src/shm/shared_memory_tenant.c: the count of a tenant, and what the place of a thread that allocates says of it.
use mtrdma_artifact.Common.{◌⊎◌, ℕ, ◌+◌, ◌≤◌, ◌<◌, ◌≡◌, refl, Bool, true, false, arith, inl, inr}
use mtrdma_artifact.Tenant.State.{TenantSharedMemory}
use mtrdma_artifact.Tenant.Usage.Quota.{Account}
use mtrdma_artifact.Tenant.Race.{
  Pc, locking, spinning, entered, clamping, comparing, incrementing, storing, counting, stamping,
  unlocking, versioning, bumping, dating, done, thread_step,
}
use mtrdma_artifact.Tenant.Race.Exclusion.{inside}

abbrev pub one_if : Bool → ℕ
one_if true = 1
one_if false = 0

-- 1 from the store of the count on, for a call that returns true.
unfoldable pub granted : Pc → ℕ
granted locking = 0
granted spinning = 0
granted entered = 0
granted clamping = 0
granted comparing = 0
granted incrementing = 0
granted (storing n) = 0
granted counting = 1
granted stamping = 1
granted (unlocking r) = one_if r
granted (versioning r) = one_if r
granted (bumping r v) = one_if r
granted (dating r) = one_if r
granted (done r) = one_if r

abbrev pub RefusedAt : ℕ → ℕ → Bool → Type 0
RefusedAt quota count true = Unit {0}
RefusedAt quota count false = quota ≤ count

one_if-le : (r : Bool) → one_if r ≤ 1
one_if-le true = omega arith
one_if-le false = omega arith

-- What the place of a thread says of the count.
abbrev pub Fits : ℕ → ℕ → Pc → Type 0
Fits quota count locking = Unit {0}
Fits quota count spinning = Unit {0}
Fits quota count entered = Unit {0}
Fits quota count clamping = Unit {0}
Fits quota count comparing = Unit {0}
Fits quota count incrementing = count < quota
Fits quota count (storing n) = (n ≡ count) × (count < quota)
Fits quota count counting = Unit {0}
Fits quota count stamping = Unit {0}
Fits quota count (unlocking r) = RefusedAt quota count r
Fits quota count (versioning r) = RefusedAt quota count r
Fits quota count (bumping r v) = RefusedAt quota count r
Fits quota count (dating r) = RefusedAt quota count r
Fits quota count (done r) = RefusedAt quota count r

module _ (tenant_id quota : ℕ) where
  -- The account after a step of a thread that changed the sum of the grants as it changed its own,
  -- and that only a thread inside changes.
  abbrev pub Moved : (count count' : ℕ) → Pc → Pc → TenantSharedMemory → Type 0
  Moved count count' pc pc' d' =
      Account tenant_id quota count' d'
      × Fits quota count' pc'
      × (count' ≤ quota)
      × (count ≤ count')
      × (inside pc ≡ 0 → count' ≡ count)

  pub step-Moved :
      (now : ℕ) (pc : Pc) (d : TenantSharedMemory) (count count' : ℕ)
      → quota < 2147483648
      → count ≤ quota
      → Account tenant_id quota count d
      → Fits quota count pc
      → let r = thread_step tenant_id now pc d in
        count' + granted pc ≡ count + granted r.0 → Moved count count' pc r.0 r.1
  unfolding thread_step inside granted
  step-Moved now locking d count count' small le a f e = ground arith
  step-Moved now spinning d count count' small le a f e = ground arith
  step-Moved now entered d count count' small le a f e = ground arith
  step-Moved now clamping d count count' small le a f e = ground arith
  step-Moved now comparing d count count' small le a f e = ground arith
  step-Moved now incrementing d count count' small le a f e = ground arith
  step-Moved now (storing n) d count count' small le a f e = ground arith
  step-Moved now counting d count count' small le a f e = ground arith
  step-Moved now stamping d count count' small le a f e = ground arith
  step-Moved now (unlocking r) d count count' small le a f e = ground arith
  step-Moved now (versioning r) d count count' small le a f e = ground arith
  step-Moved now (bumping r v) d count count' small le a f e = ground arith
  step-Moved now (dating r) d count count' small le a f e = ground arith
  step-Moved now (done r) d count count' small le a f e = ground arith

-- Outside the critical section a thread's place says the same of a larger count.
pub Fits-grown :
    (quota count count' : ℕ) (pc : Pc)
    → inside pc ≡ 0
    → count ≤ count'
    → Fits quota count pc
    → Fits quota count' pc
unfolding inside
Fits-grown quota count count' locking out le f = tt
Fits-grown quota count count' spinning out le f = tt
Fits-grown quota count count' entered out le f = tt
Fits-grown quota count count' clamping out le f = tt
Fits-grown quota count count' comparing out le f = tt
Fits-grown quota count count' incrementing out le f = absurd (omega (arith, out))
Fits-grown quota count count' (storing n) out le f = absurd (omega (arith, out))
Fits-grown quota count count' counting out le f = tt
Fits-grown quota count count' stamping out le f = tt
Fits-grown quota count count' (unlocking true) out le f = tt
Fits-grown quota count count' (unlocking false) out le f = omega (arith, f)
Fits-grown quota count count' (versioning true) out le f = tt
Fits-grown quota count count' (versioning false) out le f = omega (arith, f)
Fits-grown quota count count' (bumping true v) out le f = tt
Fits-grown quota count count' (bumping false v) out le f = omega (arith, f)
Fits-grown quota count count' (dating true) out le f = tt
Fits-grown quota count count' (dating false) out le f = omega (arith, f)
Fits-grown quota count count' (done true) out le f = tt
Fits-grown quota count count' (done false) out le f = omega (arith, f)

pub inside-cases : (pc : Pc) → (inside pc ≡ 0) ⊎ (inside pc ≡ 1)
unfolding inside
inside-cases locking = inl refl
inside-cases spinning = inl refl
inside-cases entered = inr refl
inside-cases clamping = inr refl
inside-cases comparing = inr refl
inside-cases incrementing = inr refl
inside-cases (storing n) = inr refl
inside-cases counting = inr refl
inside-cases stamping = inr refl
inside-cases (unlocking r) = inr refl
inside-cases (versioning r) = inl refl
inside-cases (bumping r v) = inl refl
inside-cases (dating r) = inl refl
inside-cases (done r) = inl refl

pub granted-le : (pc : Pc) → granted pc ≤ 1
unfolding granted
granted-le locking = omega arith
granted-le spinning = omega arith
granted-le entered = omega arith
granted-le clamping = omega arith
granted-le comparing = omega arith
granted-le incrementing = omega arith
granted-le (storing n) = omega arith
granted-le counting = omega arith
granted-le stamping = omega arith
granted-le (unlocking r) = one_if-le r
granted-le (versioning r) = one_if-le r
granted-le (bumping r v) = one_if-le r
granted-le (dating r) = one_if-le r
granted-le (done r) = one_if-le r
