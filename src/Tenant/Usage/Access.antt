-- ===== src/Tenant/Usage/Access.antt =====
-- src/shm/shared_memory_tenant.c: the usage of one tenant, as reads, writes and reservations see it.
use mtrdma_artifact.Common.{
  ℕ, ◌<◌, ◌≡◌, refl, ap, true, false, none, some, fail, Os, arith, leb, is_negative, add32, add64,
}
use mtrdma_artifact.Tenant.State.{
  max_tenants, is_active, TenantUsage, TenantState, tenant_shm_unlock,
}
use mtrdma_artifact.Tenant.State.Invariant.{with_shm-attached}
use mtrdma_artifact.Tenant.Usage.{
  tenant_get_resource_usage, get_usage_locked, tenant_update_resource_usage, update_usage_locked,
  tenant_try_allocate_qp, try_allocate_locked,
}

-- In an attached process, the tenant is active, has this quota of queue pairs and this usage.
pub record Uses (tenant_id quota : ℕ) (u : TenantUsage) (s : TenantState) : Type 0 where
  pub attached : s.attached ≡ true
  pub inside : tenant_id < max_tenants
  pub active : is_active (s.shm.tenants tenant_id).status ≡ true
  pub limit : (s.shm.tenants tenant_id).quota.max_qp_per_tenant ≡ quota
  pub usage : (s.shm.tenants tenant_id).usage ≡ u

-- One more queue pair.
abbrev pub reserved : TenantUsage → TenantUsage
reserved u = record u {
  qp_count = add32 u.qp_count 1;
  total_qp_creates = add64 u.total_qp_creates 1;
}

module _ (os : Os) (t quota : ℕ) (u : TenantUsage) (s : TenantState) (h : Uses t quota u s) where
  pub get_usage-Uses :
      ((tenant_get_resource_usage os t s).0 ≡ some u)
      × Uses t quota u (tenant_get_resource_usage os t s).1
  unfolding tenant_get_resource_usage get_usage_locked tenant_shm_unlock
  get_usage-Uses =
      let inside : leb max_tenants t ≡ false = ground (arith, h.inside) in
      rw (inside, with_shm-attached os none (get_usage_locked os t) s h.attached, h.active)
        (
          ap some h.usage,
          record {
            attached = h.attached;
            inside = h.inside;
            active = h.active;
            limit = h.limit;
            usage = h.usage;
          },
        )

  pub update_usage-Uses :
      (u' : TenantUsage) → Uses t quota u' (tenant_update_resource_usage os t (some u') s).1
  unfolding tenant_update_resource_usage update_usage_locked tenant_shm_unlock
  update_usage-Uses u' =
      let inside : leb max_tenants t ≡ false = ground (arith, h.inside) in
      rw (inside, with_shm-attached os fail (update_usage_locked os t (u')) s h.attached, h.active)
        (record {
          attached = h.attached;
          inside = h.inside;
          active = ground (arith, h.active);
          limit = ground (arith, h.limit);
          usage = ground arith;
        })

  pub allocate-Uses :
      u.qp_count < 2147483648
      → u.qp_count < quota
      → ((tenant_try_allocate_qp os t s).0 ≡ true)
        × Uses t quota (reserved u) (tenant_try_allocate_qp os t s).1
  unfolding tenant_try_allocate_qp try_allocate_locked tenant_shm_unlock
  allocate-Uses small room =
      let nonneg : is_negative u.qp_count ≡ false = ground arith in
      let fits : leb quota u.qp_count ≡ false = ground arith in
      let inside : leb max_tenants t ≡ false = ground (arith, h.inside) in
      rw
        (
          inside,
          with_shm-attached os false (try_allocate_locked os t) s h.attached,
          h.active,
          h.usage,
          h.limit,
          nonneg,
          fits,
        )
        (
          refl,
          record {
            attached = h.attached;
            inside = h.inside;
            active = ground (arith, h.active);
            limit = ground (arith, h.limit);
            usage = ground arith;
          },
        )
