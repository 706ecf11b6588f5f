-- ===== src/Hooks/Queue/Reservation.antt =====
-- src/rdma_hooks_tenant.c: what `ibv_create_qp` leaves of its reservation, whatever the real verb
-- answers.
use mtrdma_artifact.Common.{
  add64, ℕ, ◌-◌, ◌<◌, ◌≡◌, ◌≢◌, refl, subst, Bool, true, false, Option, none, some, arith,
  if◌then◌else◌, ◌==◌, u64_mod,
}
use mtrdma_artifact.Tenant.State.{TenantUsage}
use mtrdma_artifact.Tenant.Usage.{tenant_try_allocate_qp}
use mtrdma_artifact.Tenant.Usage.Access.{
  Uses, reserved, get_usage-Uses, update_usage-Uses, allocate-Uses,
}
use mtrdma_artifact.Hooks.{rdma_intercept_is_enabled, HookState, Host, answered}
use mtrdma_artifact.Hooks.Identity.{get_current_tenant_id, check_tenant_qp_limit_lem}
use mtrdma_artifact.Hooks.Counting.{
  count_resource, minus_one, update_tenant_resource_count, change_usage, write_back,
}
use mtrdma_artifact.Hooks.Queue.{
  uncounted, ibv_destroy_qp, QpInitAttr, clip_attr, publish, take_back, settle, reserve_and_create,
}

-- The change of a usage in two critical sections is the change, if nothing comes between them.
change_usage-Uses :
    (host : Host) (t quota : ℕ) (u : TenantUsage) (f : TenantUsage → TenantUsage) (s : HookState)
    → Uses t quota u s.tenants
    → Uses t quota (f u) (change_usage host t f s).tenants
unfolding change_usage write_back
change_usage-Uses host t quota u f s h =
    let (told, kept) = get_usage-Uses (host.os 8) t quota u s.tenants h in
    rw told (update_usage-Uses (host.os 9) t quota u _ kept (f u))

-- A reservation that is taken back leaves the usage as it was.
take_back-reserved :
    (u : TenantUsage)
    → u.qp_count < 2147483647
    → u.total_qp_creates < u64_mod - 1
    → take_back (reserved u) ≡ u
unfolding take_back
take_back-reserved u small few = ground arith

-- The process is in the tenant `t`, whose usage is `u` with room for a queue pair.
pub record HasRoom (host : Host) (t quota : ℕ) (u : TenantUsage) (s : HookState) : Type 0 where
  pub found : (get_current_tenant_id host s).0 ≡ t
  pub named : t ≢ 0
  pub ready : (get_current_tenant_id host s).1.tenant_initialized ≡ true
  pub uses : Uses t quota u (get_current_tenant_id host s).1.tenants
  pub room : u.qp_count < quota
  pub small : u.qp_count < 2147483647
  pub few : u.total_qp_creates < u64_mod - 1

abbrev pub is_some : Option ℕ → Bool
is_some none = false
is_some (some p) = true

settle-Uses :
    (host : Host) (t quota : ℕ) (u : TenantUsage) (answer : Option ℕ) (s : HookState)
    → u.qp_count < 2147483647
    → u.total_qp_creates < u64_mod - 1
    → Uses t quota (reserved u) s.tenants
    → Uses t quota (if is_some answer then reserved u else u) (settle host t true answer s).tenants
unfolding settle publish
settle-Uses host t quota u (some qp) s small few h = h
settle-Uses host t quota u none s small few h =
    subst (λ v. Uses t quota v (change_usage host t take_back s).tenants)
      (take_back-reserved u small few) (change_usage-Uses host t quota (reserved u) take_back s h)

-- In a process of a tenant with room for a queue pair, once the restrictions are passed: the real
-- verb is called with the cut attributes and its answer is returned; if that is a queue pair, the
-- tenant's usage counts exactly one more, and if it is a null pointer, the tenant's usage is what it
-- was before the call.
pub create-Uses :
    (host : Host) (real : QpInitAttr → Option ℕ) (attr : QpInitAttr) (s : HookState) (t quota : ℕ)
    (u : TenantUsage)
    → HasRoom host t quota u s
    → let answer = real (clip_attr (get_current_tenant_id host s).1.config attr) in
      let (r, attr', s') = reserve_and_create host real attr s in
      (r ≡ answered answer) × Uses t quota (if is_some answer then reserved u else u) s'.tenants
unfolding reserve_and_create
create-Uses host real attr s t quota u h =
    let s1 = (get_current_tenant_id host s).1 in
    let other : (t == 0) ≡ false = ground (arith, h.named) in
    let (granted, kept) =
      allocate-Uses (host.os 2) t quota u s1.tenants h.uses (omega (arith, h.small)) h.room in
    rw (h.found, other, h.ready, check_tenant_qp_limit_lem host t s1 h.named h.ready, granted)
      (
        refl,
        settle-Uses host t quota u (real (clip_attr s1.config attr))
            (record s1 { tenants = (tenant_try_allocate_qp (host.os 2) t s1.tenants).1 }) h.small
            h.few kept,
      )

-- One queue pair less; the count of a tenant without one stays 0.
abbrev pub released : TenantUsage → TenantUsage
released u = record u { qp_count = u.qp_count - 1; total_qp_destroys = add64 u.total_qp_destroys 1 }

count_released :
    (u : TenantUsage) → u.qp_count < 2147483648 → count_resource 0 minus_one u ≡ released u
unfolding count_resource
count_released u small = ground arith

-- The real verb destroyed a queue pair of a process in the tenant `t`.
pub record Destroys (host : Host) (real : Unit {0} → ℕ) (t quota : ℕ) (u : TenantUsage)
    (s : HookState) : Type 0 where
  pub enabled : rdma_intercept_is_enabled s ≡ true
  pub answer : real tt ≡ 0
  pub found : (get_current_tenant_id host (uncounted s)).0 ≡ t
  pub named : t ≢ 0
  pub ready : (get_current_tenant_id host (uncounted s)).1.tenant_initialized ≡ true
  pub uses : Uses t quota u (get_current_tenant_id host (uncounted s)).1.tenants
  pub small : u.qp_count < 2147483648

-- A successful `ibv_destroy_qp` of a process in a tenant, whose count is no negative number, takes
-- exactly one from that count, or leaves it 0, and counts one more destruction.
pub destroy-Uses :
    (host : Host) (real : Unit {0} → ℕ) (s : HookState) (t quota : ℕ) (u : TenantUsage)
    → Destroys host real t quota u s
    → let (r, s') = ibv_destroy_qp host (some real) s in
      (r ≡ answered 0) × Uses t quota (released u) s'.tenants
unfolding ibv_destroy_qp update_tenant_resource_count uncounted
destroy-Uses host real s t quota u h =
    let s1 = (get_current_tenant_id host (uncounted s)).1 in
    let other : (t == 0) ≡ false = ground (arith, h.named) in
    rw (h.enabled, h.answer, h.found, other, h.ready)
      (
        refl,
        subst (λ v. Uses t quota v (change_usage host t (count_resource 0 minus_one) s1).tenants)
            (count_released u h.small)
            (change_usage-Uses host t quota u (count_resource 0 minus_one) s1 h.uses),
      )
