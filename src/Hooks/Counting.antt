-- ===== src/Hooks/Counting.antt =====
-- src/rdma_hooks_tenant.c: the tenant's counters after an operation, by one read and one write.
use mtrdma_artifact.Common.{
  ℕ, not, ◌&&◌, ◌||◌, Option, none, some, Os, if◌then◌else◌, ltb, ◌==◌, add32, add64, is_negative,
}
use mtrdma_artifact.Tenant.State.{TenantUsage, TenantState}
use mtrdma_artifact.Tenant.Usage.{
  tenant_get_resource_usage, tenant_update_resource_usage, clamp_negative,
}
use mtrdma_artifact.Hooks.{HookState, Host}

-- The delta -1 as an `int`.
abbrev pub minus_one : ℕ
minus_one = 4294967295

-- The switch: 0 is a queue pair, 1 a memory region, 3 a completion queue, 4 a protection domain.
unfoldable pub count_resource : ℕ → ℕ → TenantUsage → TenantUsage
count_resource resource_type delta u =
    if resource_type == 0
    then record u {
      qp_count = clamp_negative (add32 u.qp_count delta);
      total_qp_creates =
          if ltb 0 delta && not (is_negative delta)
          then add64 u.total_qp_creates 1
          else u.total_qp_creates;
      total_qp_destroys =
          if is_negative delta then add64 u.total_qp_destroys 1 else u.total_qp_destroys;
    }
    else if resource_type == 1
    then record u {
      mr_count = add32 u.mr_count delta;
      total_mr_regs =
          if ltb 0 delta && not (is_negative delta)
          then add64 u.total_mr_regs 1
          else u.total_mr_regs;
      total_mr_deregs = if is_negative delta then add64 u.total_mr_deregs 1 else u.total_mr_deregs;
    }
    else if resource_type == 3
    then record u { cq_count = add32 u.cq_count delta }
    else if resource_type == 4
    then record u { pd_count = add32 u.pd_count delta }
    else u

-- One read of the usage, a change, and one write of it: two critical sections.
unfoldable pub write_back :
    Os → ℕ → (TenantUsage → TenantUsage) → Option TenantUsage × TenantState → TenantState
write_back os tenant_id change (none, ts) = ts
write_back os tenant_id change (some u, ts) =
    (tenant_update_resource_usage os tenant_id (some (change u)) ts).1

-- The two calls are the 8th and the 9th on the shared objects.
unfoldable pub change_usage : Host → ℕ → (TenantUsage → TenantUsage) → HookState → HookState
unfolding write_back
change_usage host tenant_id change s = record s {
  tenants =
      write_back (host.os 9) tenant_id change
        (tenant_get_resource_usage (host.os 8) tenant_id s.tenants);
}

unfoldable pub update_tenant_resource_count : Host → ℕ → ℕ → ℕ → HookState → HookState
unfolding count_resource change_usage
update_tenant_resource_count host tenant_id resource_type delta s =
    if (tenant_id == 0) || not s.tenant_initialized
    then s
    else change_usage host tenant_id (count_resource resource_type delta) s
