-- ===== src/Policy/Tenants.antt =====
-- src/dynamic_policy_manager.c: the table of tenant policies. Each operation runs in one critical
-- section of `g_tenant_mutex`, in which no other function is called.
use mtrdma_artifact.Common.{
  ℕ, zero, suc, ◌+◌, ◌<◌, ◌≡◌, Bool, true, false, not, ◌||◌, Option, none, some, List, [], ◌∷◌,
  Status, ok, fail, arith, if◌then◌else◌, ltb, leb, ◌==◌, add32, is_negative, update, u32_mod,
}
use mtrdma_artifact.Tenant.State.{max_tenants}
use mtrdma_artifact.Policy.{
  ResourceType, resource_qp, resource_mr, resource_cq, resource_pd, resource_memory, resource_other,
  PolicyRule, DynamicPolicyConfig, zero_config, rule_of,
}
use mtrdma_artifact.Policy.Limits.{is_known}

-- `tenant_policy_t`
pub record TenantPolicy : Type 0 where
  pub tenant_id : ℕ
  pub tenant_name : List ℕ
  pub policy : DynamicPolicyConfig
  pub last_updated : ℕ

abbrev pub zero_policy : TenantPolicy
zero_policy = record { tenant_id = 0; tenant_name = []; policy = zero_config; last_updated = 0 }

abbrev pub PolicyTable : Type 0
PolicyTable = ℕ → TenantPolicy

-- A null policy is `none`.
pub dynamic_policy_set_tenant_policy :
    ℕ → ℕ → Option TenantPolicy → PolicyTable → Status × PolicyTable
dynamic_policy_set_tenant_policy now tenant_id none t = (fail, t)
dynamic_policy_set_tenant_policy now tenant_id (some policy) t =
    if leb max_tenants tenant_id
    then (fail, t)
    else (ok, update t tenant_id (record policy { last_updated = now }))

-- The out parameter is the result; `none` is -1.
pub dynamic_policy_get_tenant_policy : ℕ → PolicyTable → Option TenantPolicy
dynamic_policy_get_tenant_policy tenant_id t =
    if leb max_tenants tenant_id then none else some (t tenant_id)

pub dynamic_policy_delete_tenant_policy : ℕ → PolicyTable → Status × PolicyTable
dynamic_policy_delete_tenant_policy tenant_id t =
    if leb max_tenants tenant_id then (fail, t) else (ok, update t tenant_id zero_policy)

exceeds_rule : ℕ → ℕ → Option PolicyRule → Bool
exceeds_rule current requested none = false
exceeds_rule current requested (some r) = ltb r.limit.max_per_process (add32 current requested)

judge_tenant : ResourceType → ℕ → ℕ → Option TenantPolicy → Bool
unfolding exceeds_rule
judge_tenant resource current requested none = false
judge_tenant resource current requested (some p) =
    exceeds_rule current requested (rule_of resource p.policy)

-- True is "exceeded".
pub dynamic_policy_check_tenant_limit : ℕ → ResourceType → ℕ → ℕ → PolicyTable → Bool
unfolding dynamic_policy_get_tenant_policy judge_tenant
dynamic_policy_check_tenant_limit tenant_id resource current requested t =
    if leb max_tenants tenant_id
    then false
    else judge_tenant resource current requested (dynamic_policy_get_tenant_policy tenant_id t)

-- The loop: from entry `i` on, at most `room` policies.
pub policies_from : PolicyTable → ℕ → ℕ → ℕ → List TenantPolicy
policies_from t i zero room = []
policies_from t i (suc left) zero = []
policies_from t i (suc left) (suc room) =
    let listed = t i ∷ policies_from t (i + 1) left room in
    let skipped = policies_from t (i + 1) left (suc room) in
    if not ((t i).tenant_id == 0) then listed else skipped

-- The result is the filled part of the caller's array; `none` is -1.
pub dynamic_policy_get_all_tenant_policies : ℕ → PolicyTable → Option (List TenantPolicy)
unfolding policies_from
dynamic_policy_get_all_tenant_policies max_count t =
    if max_count == 0 || is_negative max_count
    then none
    else some (policies_from t 0 max_tenants max_count)

-- After `dynamic_policy_set_tenant_policy` a tenant that is set has the policy with the new time
-- stamp, and every other tenant the one it had; after a following
-- `dynamic_policy_delete_tenant_policy` the tenant has the zero policy, and every other tenant still
-- the one it had.
pub get_policy-set_policy-delete_policy :
    (now tenant_id : ℕ) (p : TenantPolicy) (t : PolicyTable) (q : ℕ)
    → tenant_id < max_tenants
    → q < max_tenants
    → let t' = (dynamic_policy_set_tenant_policy now tenant_id (some p) t).1 in
      let t'' = (dynamic_policy_delete_tenant_policy tenant_id t').1 in
      (dynamic_policy_get_tenant_policy q t' ≡ (
        if q == tenant_id
        then some (record p { last_updated = now })
        else dynamic_policy_get_tenant_policy q t))
      × (dynamic_policy_get_tenant_policy q t''
          ≡ (if q == tenant_id then some zero_policy else dynamic_policy_get_tenant_policy q t))
unfolding dynamic_policy_set_tenant_policy dynamic_policy_get_tenant_policy
    dynamic_policy_delete_tenant_policy
get_policy-set_policy-delete_policy now tenant_id p t q lt ltq = (ground arith, ground arith)

-- A deleted tenant is denied every request that is not empty, for every resource that has a limit:
-- its limits are 0.
pub check_tenant_limit-delete_policy :
    (tenant_id : ℕ) (resource : ResourceType) (current requested : ℕ) (t : PolicyTable)
    → tenant_id < max_tenants
    → is_known resource ≡ true
    → 0 < requested
    → current + requested < u32_mod
    → dynamic_policy_check_tenant_limit tenant_id resource current requested
        (dynamic_policy_delete_tenant_policy tenant_id t).1
      ≡ true
unfolding dynamic_policy_check_tenant_limit dynamic_policy_delete_tenant_policy
    dynamic_policy_get_tenant_policy judge_tenant exceeds_rule rule_of
check_tenant_limit-delete_policy tenant_id resource_qp n m t lt k pos small = ground arith
check_tenant_limit-delete_policy tenant_id resource_mr n m t lt k pos small = ground arith
check_tenant_limit-delete_policy tenant_id resource_cq n m t lt k pos small = ground arith
check_tenant_limit-delete_policy tenant_id resource_pd n m t lt k pos small = ground arith
check_tenant_limit-delete_policy tenant_id resource_memory n m t lt k pos small = ground arith
check_tenant_limit-delete_policy tenant_id (resource_other i) n m t lt k pos small = cc
