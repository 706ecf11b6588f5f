-- ===== src/Tenant/Tests.antt =====
-- src/shm/shared_memory_tenant.c: the theorems at concrete calls.
use Prim.Native.Nat.{min}
use mtrdma_artifact.Common.{
  ℕ, ◌+◌, ◌-◌, ◌≡◌, refl, Bool, true, false, none, List, [], ◌∷◌, arith, Os, update,
}
use mtrdma_artifact.Tenant.State.{active, TenantState, zero_shm, zero_info}
use mtrdma_artifact.Tenant.State.Invariant.{IsValid}
use mtrdma_artifact.Tenant.Admin.{default_quota}
use mtrdma_artifact.Tenant.Usage.Quota.{Account, after, granted, requests, allocate_exact}
use mtrdma_artifact.Tenant.History.{Call, creates, binds, unbinds, deletes, replay, replay-IsValid}

abbrev host_ok : Os
host_ok = record { shm_open = true; ftruncate = true; mmap = true; fstat = true; time = λ k. k }

abbrev calls : List (Bool × Os × Call)
calls =
    (false, host_ok, creates 5 none none)
    ∷ (true, host_ok, binds 70 (omega arith) 5)
    ∷ (true, host_ok, unbinds 70 (omega arith))
    ∷ (true, host_ok, deletes 5)
    ∷ []

replay-IsValid_example : IsValid (replay calls (record { attached = false; shm = zero_shm })).shm
replay-IsValid_example = replay-IsValid calls false

-- Tenant 5 with a quota of two queue pairs.
abbrev one_tenant : TenantState
one_tenant = record {
  attached = true;
  shm = record zero_shm {
    tenants = update zero_shm.tenants 5 (record zero_info {
      tenant_id = 5;
      status = active;
      quota = record default_quota { max_qp_per_tenant = 2 };
    });
    active_tenant_count = 1;
  };
}

abbrev three_requests : List (ℕ × Os)
three_requests = (5, host_ok) ∷ (6, host_ok) ∷ (5, host_ok) ∷ (5, host_ok) ∷ []

allocate_exact_example :
    (granted 5 three_requests one_tenant ≡ min (requests 5 three_requests) (2 - 0))
    × Account 5 2
        (0 + min (requests 5 three_requests) (2 - 0))
        (after three_requests one_tenant).shm
allocate_exact_example =
    allocate_exact 5 2 0 three_requests one_tenant refl (omega arith) (omega arith) (omega arith)
      (record { active = refl; limit = refl; count = refl })
