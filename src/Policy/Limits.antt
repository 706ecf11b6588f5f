-- ===== src/Policy/Limits.antt =====
-- src/dynamic_policy_manager.c: a limit that is set is the one that is read and the one in the
-- shared object.
use mtrdma_artifact.Common.{
  ◌≡◌, refl, Bool, true, false, Option, none, some, ok, if◌then◌else◌, inl, inr, ◌∙◌, Bool-cases,
}
use mtrdma_artifact.Shm.Limits.{HasLimits, set_limits-HasLimits}
use mtrdma_artifact.Policy.{
  ResourceType, resource_qp, resource_mr, resource_cq, resource_pd, resource_memory, resource_other,
  ResourceLimit, PolicyRule, DynamicPolicyConfig, PolicyState, lock_mutex, unlock_mutex, rule_of,
  set_rule, sync_limits, dynamic_policy_set_limit, set_limit_locked, dynamic_policy_get_limit,
  get_limit_locked, get_limit_at, set_limit_at,
}

-- What a caller of `dynamic_policy_get_limit` is told; the outer `none` is a call that blocks.
pub told : ResourceType → PolicyState → Option (Option ResourceLimit)
told q s = elim (dynamic_policy_get_limit q s) [ none ↦ none | some (r, s') ↦ some r ]

-- The same value of the enumeration.
abbrev pub is_same : ResourceType → ResourceType → Bool
is_same resource_qp resource_qp = true
is_same resource_mr resource_mr = true
is_same resource_cq resource_cq = true
is_same resource_pd resource_pd = true
is_same resource_memory resource_memory = true
is_same _ _ = false

-- The object holds the limits of the configuration.
abbrev pub IsSynced : PolicyState → Type 0
IsSynced s =
    HasLimits s.config.qp_policy.limit.max_global s.config.mr_policy.limit.max_global
      s.config.memory_policy.limit.max_memory s.shm

-- The values that the switch statements name.
abbrev pub is_known : ResourceType → Bool
is_known (resource_other n) = false
is_known _ = true

rule_of-set_rule :
    (resource q : ResourceType) (r : PolicyRule) (c : DynamicPolicyConfig)
    → is_known resource ≡ true
    → rule_of q (set_rule resource r c) ≡ (if is_same q resource then some r else rule_of q c)
unfolding rule_of set_rule
rule_of-set_rule resource_qp resource_qp r c k = refl
rule_of-set_rule resource_qp _ r c k = refl
rule_of-set_rule resource_mr resource_mr r c k = refl
rule_of-set_rule resource_mr _ r c k = refl
rule_of-set_rule resource_cq resource_cq r c k = refl
rule_of-set_rule resource_cq _ r c k = refl
rule_of-set_rule resource_pd resource_pd r c k = refl
rule_of-set_rule resource_pd _ r c k = refl
rule_of-set_rule resource_memory resource_memory r c k = refl
rule_of-set_rule resource_memory _ r c k = refl
rule_of-set_rule (resource_other n) q r c k = cc

-- The limit of a rule.
limit_of : Option PolicyRule → Option ResourceLimit
limit_of none = none
limit_of (some r) = some r.limit

get_limit_at-limit_of :
    (r : Option PolicyRule) (s : PolicyState) → get_limit_at r s ≡ (limit_of r, unlock_mutex s)
unfolding get_limit_at limit_of
get_limit_at-limit_of none s = refl
get_limit_at-limit_of (some r) s = refl

told_lem :
    (q : ResourceType) (s : PolicyState)
    → s.held ≡ false
    → told q s ≡ some (limit_of (rule_of q s.config))
unfolding told dynamic_policy_get_limit get_limit_locked lock_mutex
told_lem q s free =
    rw (free, get_limit_at-limit_of (rule_of q s.config) (record s { held = true })) refl

sync-IsSynced : (s : PolicyState) → s.shm.attached ≡ true → IsSynced (sync_limits s)
unfolding sync_limits
sync-IsSynced s on = set_limits-HasLimits _ _ _ s.shm on

-- The state after a known limit was set.
set_known : ResourceType → PolicyRule → ResourceLimit → PolicyState → PolicyState
unfolding set_rule sync_limits
set_known resource r limit s =
    record (sync_limits (record s {
      config = set_rule resource (record r { limit = limit }) s.config;
      held = true;
    })) { held = false }

set_limit_lem :
    (resource : ResourceType) (r : PolicyRule) (limit : ResourceLimit) (s : PolicyState)
    → s.held ≡ false
    → rule_of resource s.config ≡ some r
    → dynamic_policy_set_limit resource (some limit) s ≡ some (ok, set_known resource r limit s)
unfolding dynamic_policy_set_limit set_limit_locked lock_mutex set_limit_at set_known sync_limits
set_limit_lem resource r limit s free e = rw (free, e) refl

known_rule :
    (resource : ResourceType) (c : DynamicPolicyConfig)
    → is_known resource ≡ true
    → (r : PolicyRule) × (rule_of resource c ≡ some r)
unfolding rule_of
known_rule resource_qp c k = (c.qp_policy, refl)
known_rule resource_mr c k = (c.mr_policy, refl)
known_rule resource_cq c k = (c.cq_policy, refl)
known_rule resource_pd c k = (c.pd_policy, refl)
known_rule resource_memory c k = (c.memory_policy, refl)
known_rule (resource_other n) c k = cc

told-set_known :
    (resource q : ResourceType) (r : PolicyRule) (limit : ResourceLimit) (s : PolicyState)
    → is_known resource ≡ true
    → s.held ≡ false
    → told q (set_known resource r limit s)
      ≡ (if is_same q resource then some (some limit) else told q s)
unfolding set_known sync_limits limit_of
told-set_known resource q r limit s k free =
    told_lem q (set_known resource r limit s) refl
    ∙ rw (told_lem q s free, rule_of-set_rule resource q (record r { limit = limit }) s.config k)
        (elim (Bool-cases (is_same q resource)) [ inl e ↦ rw e refl | inr e ↦ rw e refl ])

-- `dynamic_policy_set_limit` of a resource that has a limit succeeds when the mutex is free. Then a
-- `dynamic_policy_get_limit` gives the new limit for it and the old one for every other resource;
-- and in a process attached to the shared object, the object's three global limits are those of the
-- new configuration.
pub get_limit-set_limit :
    (resource : ResourceType) (limit : ResourceLimit) (s : PolicyState)
    → is_known resource ≡ true
    → s.held ≡ false
    → (s' : PolicyState) × (dynamic_policy_set_limit resource (some limit) s ≡ some (ok, s'))
      × ((q : ResourceType)
          → told q s' ≡ (if is_same q resource then some (some limit) else told q s))
      × (s.shm.attached ≡ true → IsSynced s')
unfolding set_known sync_limits
get_limit-set_limit resource limit s k free =
    let (r, e) = known_rule resource s.config k in
    (
      set_known resource r limit s,
      set_limit_lem resource r limit s free e,
      (λ q. told-set_known resource q r limit s k free),
      sync-IsSynced (record s {
        config = set_rule resource (record r { limit = limit }) s.config;
        held = true;
      }),
    )
