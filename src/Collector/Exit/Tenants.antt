-- ===== src/Collector/Exit/Tenants.antt =====
-- src/collector_server_shm.c: what the tenant of a dead process gets back.
use mtrdma_artifact.Common.{
  ℕ, ◌-◌, ◌<◌, ◌≡◌, refl, subst, ◌∙◌, ltb, sub32, sub64, u64_mod, if◌then◌else◌, true, false, not,
  none, some, arith, ◌==◌, if_intro, int_gt, Os,
}
use mtrdma_artifact.Shm.{ResourceUsage}
use mtrdma_artifact.Tenant.State.{TenantUsage, TenantState, tenant_shm_unlock}
use mtrdma_artifact.Tenant.State.Invariant.{with_shm-attached}
use mtrdma_artifact.Tenant.Binding.{tenant_get_process_tenant, get_process_tenant_locked}
use mtrdma_artifact.Tenant.Binding.Lookup.{tenant_of_process, get_process_tenant_lem}
use mtrdma_artifact.Tenant.Usage.Access.{Uses, get_usage-Uses, update_usage-Uses}
use mtrdma_artifact.Collector.{GcState, GcHost, drop_entry}
use mtrdma_artifact.Collector.Exit.{
  lower, write_lowered, lower_tenant, adjust_tenant, holds_registered, gc_handle_process_exit,
}

get_process_tenant-Uses :
    (os : Os) (pid t quota : ℕ) (u : TenantUsage) (s : TenantState)
    → Uses t quota u s
    → Uses t quota u (tenant_get_process_tenant os pid s).1
unfolding tenant_get_process_tenant get_process_tenant_locked tenant_shm_unlock
get_process_tenant-Uses os pid t quota u s h =
    rw (with_shm-attached os none (get_process_tenant_locked os pid) s h.attached) (record {
      attached = h.attached;
      inside = h.inside;
      active = h.active;
      limit = h.limit;
      usage = h.usage;
    })

lower_tenant-Uses :
    (host : GcHost) (dead : ResourceUsage) (t quota : ℕ) (u : TenantUsage) (s : TenantState)
    → (t == 0) ≡ false
    → Uses t quota u s
    → Uses t quota (lower dead u) (lower_tenant host dead (some t) s)
unfolding lower_tenant write_lowered
lower_tenant-Uses host dead t quota u s some_tenant h =
    let (told, kept) = get_usage-Uses (host.os 1) t quota u s h in
    rw (some_tenant, told) (update_usage-Uses (host.os 2) t quota u _ kept (lower dead u))

-- The three quantities, each less what the dead process had, and no less than 0.
abbrev pub without : ResourceUsage → TenantUsage → TenantUsage
without dead u = record u {
  qp_count = u.qp_count - dead.qp_count;
  mr_count = u.mr_count - dead.mr_count;
  memory_used = u.memory_used - dead.memory_used;
}

-- The counts are `int`s that are not negative, and the quantities of memory fit their words.
pub record AreSmall (dead : ResourceUsage) (u : TenantUsage) : Type 0 where
  pub dead_qp : dead.qp_count < 2147483648
  pub dead_mr : dead.mr_count < 2147483648
  pub dead_memory : dead.memory_used < u64_mod
  pub qp : u.qp_count < 2147483648
  pub mr : u.mr_count < 2147483648
  pub memory : u.memory_used < u64_mod

lowered_count :
    (a b : ℕ) → a < 2147483648 → b < 2147483648 → (if int_gt a b then sub32 a b else 0) ≡ a - b
lowered_count a b la lb = ground arith

lowered_memory : (a b : ℕ) → a < u64_mod → b < u64_mod → (if ltb b a then sub64 a b else 0) ≡ a - b
lowered_memory a b la lb = ground arith

lower-without :
    (dead : ResourceUsage) (u : TenantUsage) → AreSmall dead u → lower dead u ≡ without dead u
lower-without dead u small =
    rw
      (
        lowered_count u.qp_count dead.qp_count small.qp small.dead_qp,
        lowered_count u.mr_count dead.mr_count small.mr small.dead_mr,
        lowered_memory u.memory_used dead.memory_used small.memory small.dead_memory,
      )
      refl

-- The slot holds the process for which its descriptor was registered, the process has queue pairs, and
-- it is bound to a tenant other than 0, which has this quota of queue pairs and this usage.
pub record Exits (slot t quota : ℕ) (u : TenantUsage) (g : GcState) : Type 0 where
  pub attached : g.shm.attached ≡ true
  pub held : holds_registered slot g ≡ true
  pub positive : int_gt (g.shm.region.process_pids slot) 0 ≡ true
  pub has_qp : int_gt (g.shm.region.process_stats slot).qp_count 0 ≡ true
  pub bound : tenant_of_process g.tenants.shm (g.shm.region.process_pids slot) ≡ some t
  pub some_tenant : (t == 0) ≡ false
  pub small : AreSmall (g.shm.region.process_stats slot) u
  pub uses : Uses t quota u g.tenants

adjust_tenant-Uses :
    (host : GcHost) (slot t quota : ℕ) (u : TenantUsage) (g : GcState)
    → Exits slot t quota u g
    → let dead = g.shm.region.process_stats slot in
      Uses t quota
        (lower dead u)
        (adjust_tenant host (g.shm.region.process_pids slot) dead g.tenants)
unfolding adjust_tenant
adjust_tenant-Uses host slot t quota u g h =
    let pid = g.shm.region.process_pids slot in
    let found = get_process_tenant_lem (host.os 0) pid g.tenants h.uses.attached ∙ h.bound in
    rw (h.positive, h.has_qp, found)
      (lower_tenant-Uses host (g.shm.region.process_stats slot) t quota u _ h.some_tenant
        (get_process_tenant-Uses (host.os 0) pid t quota u g.tenants h.uses))

exit-lower :
    (host : GcHost) (slot t quota : ℕ) (u : TenantUsage) (g : GcState)
    → Exits slot t quota u g
    → Uses t quota
        (lower (g.shm.region.process_stats slot) u)
        (gc_handle_process_exit host slot g).tenants
unfolding gc_handle_process_exit drop_entry
exit-lower host slot t quota u g h =
    if_intro (λ (x : GcState). Uses t quota (lower (g.shm.region.process_stats slot) u) x.tenants)
      (not g.shm.attached) (λ off. absurd (ground (arith, off, h.attached)))
      (λ _.
        if_intro
          (λ (x : GcState). Uses t quota (lower (g.shm.region.process_stats slot) u) x.tenants)
          (holds_registered slot g) (λ _. adjust_tenant-Uses host slot t quota u g h)
          (λ lost. absurd (ground (arith, lost, h.held))))

-- When a process with queue pairs that is bound to a tenant exits, its tenant's queue pairs, memory
-- regions and memory are less by what the process had, each down to zero at most; the rest of the
-- tenant's usage, its being active and its quota of queue pairs stay. No count is negative.
pub exit-Uses :
    (host : GcHost) (slot t quota : ℕ) (u : TenantUsage) (g : GcState)
    → Exits slot t quota u g
    → Uses t quota
        (without (g.shm.region.process_stats slot) u)
        (gc_handle_process_exit host slot g).tenants
exit-Uses host slot t quota u g h =
    subst (λ (u' : TenantUsage). Uses t quota u' (gc_handle_process_exit host slot g).tenants)
      (lower-without (g.shm.region.process_stats slot) u h.small)
      (exit-lower host slot t quota u g h)
