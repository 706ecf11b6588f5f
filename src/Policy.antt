-- ===== src/Policy.antt =====
-- src/dynamic_policy_manager.c: the global limits, their mutex, and the copy in the shared object.
pub mod Mutex
pub mod Limits
pub mod File
pub mod Tenants
mod Tests
use mtrdma_artifact.Common.{
  ℕ, ◌+◌, Bool, true, false, not, ◌&&◌, ◌||◌, Option, none, some, Status, ok, fail, Os, ◌==◌, leb,
  ltb, if◌then◌else◌, add32,
}
use mtrdma_artifact.Shm.{
  ResourceUsage, Shm, shm_init, shm_set_global_limits, shm_get_global_resources,
}

pub data PolicyType : Type 0 where
  policy_type_static policy_type_dynamic policy_type_adaptive : PolicyType

-- `enum resource_type`, with the other values that an `int` passed for it has.
pub data ResourceType : Type 0 where
  resource_qp resource_mr resource_cq resource_pd resource_memory : ResourceType
  resource_other : ℕ → ResourceType

-- `resource_limit_t`
pub record ResourceLimit : Type 0 where
  pub max_per_process : ℕ
  pub max_global : ℕ
  pub max_memory : ℕ

-- `policy_rule_t`
pub record PolicyRule : Type 0 where
  pub rule_id : ℕ
  pub type : PolicyType
  pub resource : ResourceType
  pub limit : ResourceLimit
  pub priority : ℕ
  pub created_at : ℕ
  pub expires_at : ℕ
  pub enabled : Bool

-- `dynamic_policy_config_t`. The watermarks are the bit patterns of the `float`s.
pub record DynamicPolicyConfig : Type 0 where
  pub qp_policy : PolicyRule
  pub mr_policy : PolicyRule
  pub cq_policy : PolicyRule
  pub pd_policy : PolicyRule
  pub memory_policy : PolicyRule
  pub auto_adjust : Bool
  pub adjust_interval : ℕ
  pub high_watermark : ℕ
  pub low_watermark : ℕ

-- `g_policy_config`, whether `g_policy_mutex` is held, `g_running`, and the process's view of the
-- object of shared_memory.c.
pub record PolicyState : Type 0 where
  pub config : DynamicPolicyConfig
  pub held : Bool
  pub running : Bool
  pub shm : Shm

abbrev pub no_limit : ResourceLimit
no_limit = record { max_per_process = 0; max_global = 0; max_memory = 0 }

abbrev pub default_rule : ℕ → ResourceType → ℕ → ResourceLimit → PolicyRule
default_rule rule_id resource now limit = record {
  rule_id = rule_id;
  type = policy_type_static;
  resource = resource;
  limit = limit;
  priority = 1;
  created_at = now;
  expires_at = 0;
  enabled = true;
}

-- The watermarks are 0.8f and 0.2f.
pub default_config : (ℕ → ℕ) → DynamicPolicyConfig
default_config time = record {
  qp_policy =
      default_rule 0 resource_qp (time 0)
        (record { max_per_process = 100; max_global = 1000; max_memory = 0 });
  mr_policy =
      default_rule 1 resource_mr (time 1)
        (record { max_per_process = 1000; max_global = 10000; max_memory = 0 });
  cq_policy =
      default_rule 2 resource_cq (time 2)
        (record { max_per_process = 100; max_global = 1000; max_memory = 0 });
  pd_policy =
      default_rule 3 resource_pd (time 3)
        (record { max_per_process = 100; max_global = 1000; max_memory = 0 });
  memory_policy =
      default_rule 4 resource_memory (time 4)
        (record { max_per_process = 0; max_global = 0; max_memory = 10737418240 });
  auto_adjust = false;
  adjust_interval = 60;
  high_watermark = 1061997773;
  low_watermark = 1045220557;
}

-- The mutex is not recursive: a caller that finds it held waits, and gets no answer from a holder
-- that is itself; that is `none`. What follows the lock releases it.
unfoldable pub lock_mutex {ℓ} :
    {R : Type ℓ} → (PolicyState → R × PolicyState) → PolicyState → Option (R × PolicyState)
lock_mutex body s = if s.held then none else some (body (record s { held = true }))

-- `pthread_mutex_unlock(&g_policy_mutex)`, called by the code behind the lock on each of its paths.
abbrev pub unlock_mutex : PolicyState → PolicyState
unlock_mutex s = record s { held = false }

-- The call of `shm_set_global_limits` with the configured limits; its result is not looked at.
unfoldable pub sync_limits : PolicyState → PolicyState
sync_limits s = record s {
  shm =
      (shm_set_global_limits s.config.qp_policy.limit.max_global s.config.mr_policy.limit.max_global
        s.config.memory_policy.limit.max_memory s.shm).1;
}

-- From the result of `shm_init` on.
init_with : Os → Status × Shm → PolicyState → Status × PolicyState
unfolding default_config sync_limits
init_with os (ok, shm) s =
    (ok, unlock_mutex (sync_limits (record s { config = default_config os.time; shm = shm })))
init_with os (fail, shm) s =
    (fail, unlock_mutex (record s { config = default_config os.time; shm = shm }))

-- The clock of `shm_init` is read after the five readings for the rules.
init_locked : Os → PolicyState → Status × PolicyState
unfolding init_with
init_locked os s = init_with os (shm_init (record os { time = λ k. os.time (k + 5) }) s.shm) s

-- What follows the critical section: the thread is started.
start_thread : Bool → Option (Status × PolicyState) → Option (Status × PolicyState)
start_thread created none = none
start_thread created (some (fail, s)) = some (fail, s)
start_thread created (some (ok, s)) =
    some (if created then ok else fail, record s { running = true })

-- `created` is whether `pthread_create` succeeds.
pub dynamic_policy_init : Os → Bool → PolicyState → Option (Status × PolicyState)
unfolding init_locked lock_mutex start_thread
dynamic_policy_init os created s = start_thread created (lock_mutex (init_locked os) s)

abbrev pub zero_rule : PolicyRule
zero_rule = record {
  rule_id = 0;
  type = policy_type_static;
  resource = resource_qp;
  limit = no_limit;
  priority = 0;
  created_at = 0;
  expires_at = 0;
  enabled = false;
}

abbrev pub zero_config : DynamicPolicyConfig
zero_config = record {
  qp_policy = zero_rule;
  mr_policy = zero_rule;
  cq_policy = zero_rule;
  pd_policy = zero_rule;
  memory_policy = zero_rule;
  auto_adjust = false;
  adjust_interval = 0;
  high_watermark = 0;
  low_watermark = 0;
}

-- From the return of `pthread_join` on.
pub dynamic_policy_cleanup : PolicyState → Option (Unit {0} × PolicyState)
unfolding lock_mutex
dynamic_policy_cleanup s =
    lock_mutex (λ s'. (tt, unlock_mutex (record s' { config = zero_config })))
      (record s { running = false })

-- The switch that picks a rule: `none` is its default.
unfoldable pub rule_of : ResourceType → DynamicPolicyConfig → Option PolicyRule
rule_of resource_qp c = some c.qp_policy
rule_of resource_mr c = some c.mr_policy
rule_of resource_cq c = some c.cq_policy
rule_of resource_pd c = some c.pd_policy
rule_of resource_memory c = some c.memory_policy
rule_of (resource_other n) c = none

unfoldable pub set_rule : ResourceType → PolicyRule → DynamicPolicyConfig → DynamicPolicyConfig
set_rule resource_qp r c = record c { qp_policy = r }
set_rule resource_mr r c = record c { mr_policy = r }
set_rule resource_cq r c = record c { cq_policy = r }
set_rule resource_pd r c = record c { pd_policy = r }
set_rule resource_memory r c = record c { memory_policy = r }
set_rule (resource_other n) r c = c

set_limit_at : ResourceType → ResourceLimit → Option PolicyRule → PolicyState → Status × PolicyState
unfolding set_rule sync_limits
set_limit_at resource limit none s = (fail, unlock_mutex s)
set_limit_at resource limit (some r) s = (
  ok,
  unlock_mutex
      (sync_limits (record s { config = set_rule resource (record r { limit = limit }) s.config })),
)

set_limit_locked : ResourceType → ResourceLimit → PolicyState → Status × PolicyState
unfolding rule_of set_limit_at
set_limit_locked resource limit s = set_limit_at resource limit (rule_of resource s.config) s

-- A null limit is `none`.
pub dynamic_policy_set_limit :
    ResourceType → Option ResourceLimit → PolicyState → Option (Status × PolicyState)
dynamic_policy_set_limit resource none s = some (fail, s)
dynamic_policy_set_limit resource (some limit) s = lock_mutex (set_limit_locked resource limit) s

get_limit_at : Option PolicyRule → PolicyState → Option ResourceLimit × PolicyState
get_limit_at none s = (none, unlock_mutex s)
get_limit_at (some r) s = (some r.limit, unlock_mutex s)

get_limit_locked : ResourceType → PolicyState → Option ResourceLimit × PolicyState
unfolding rule_of get_limit_at
get_limit_locked resource s = get_limit_at (rule_of resource s.config) s

-- The out parameter is the inner result; an inner `none` is -1.
unfoldable pub dynamic_policy_get_limit :
    ResourceType → PolicyState → Option (Option ResourceLimit × PolicyState)
unfolding get_limit_locked lock_mutex
dynamic_policy_get_limit resource s = lock_mutex (get_limit_locked resource) s

-- The global count that is compared with the limit; 0 for the other resources.
abbrev pub global_count : ResourceType → ResourceUsage → ℕ
global_count resource_qp u = u.qp_count
global_count resource_mr u = u.mr_count
global_count resource_cq u = 0
global_count resource_pd u = 0
global_count resource_memory u = 0
global_count (resource_other n) u = 0

-- The comparisons with a limit that was found. `unset` is what `global_usage` holds before the call
-- that may fail.
exceeds_limit : ResourceUsage → ResourceType → ℕ → ℕ → ResourceLimit → Shm → Bool
exceeds_limit unset resource current requested limit shm =
    let usage : ResourceUsage = elim (shm_get_global_resources shm) [ none ↦ unset | some u ↦ u ] in
    ltb limit.max_global (add32 (global_count resource usage) requested)
    || ltb limit.max_per_process (add32 current requested)

judge :
    ResourceUsage
    → ResourceType
    → ℕ
    → ℕ
    → Option (Option ResourceLimit × PolicyState)
    → Option (Bool × PolicyState)
unfolding exceeds_limit
judge unset resource current requested none = none
judge unset resource current requested (some (none, s)) = some (false, s)
judge unset resource current requested (some (some limit, s)) =
    some (exceeds_limit unset resource current requested limit s.shm, s)

-- True is "exceeded".
pub dynamic_policy_check_limit :
    ResourceUsage → ResourceType → ℕ → ℕ → PolicyState → Option (Bool × PolicyState)
unfolding dynamic_policy_get_limit judge
dynamic_policy_check_limit unset resource current requested s =
    judge unset resource current requested (dynamic_policy_get_limit resource s)

update_locked : DynamicPolicyConfig → PolicyState → Status × PolicyState
unfolding sync_limits
update_locked config s = (ok, unlock_mutex (sync_limits (record s { config = config })))

-- A null configuration is `none`.
pub dynamic_policy_update : Option DynamicPolicyConfig → PolicyState → Option (Status × PolicyState)
unfolding update_locked lock_mutex
dynamic_policy_update none s = some (fail, s)
dynamic_policy_update (some config) s = lock_mutex (update_locked config) s

pub dynamic_policy_get_config : PolicyState → Option (DynamicPolicyConfig × PolicyState)
unfolding lock_mutex
dynamic_policy_get_config s = lock_mutex (λ s'. (s'.config, unlock_mutex s')) s

-- `0.0f < x && x <= 1.0f` and `0.0f <= x && x < 1.0f` on bit patterns: the positive floats are
-- ordered as their patterns are, 1.0f is 0x3f800000, and -0.0f equals 0.0f.
abbrev pub is_high : ℕ → Bool
is_high x = ltb 0 x && leb x 1065353216

abbrev pub is_low : ℕ → Bool
is_low x = ltb x 1065353216 || (x == 2147483648)

set_auto_adjust_locked : Bool → ℕ → ℕ → ℕ → PolicyState → Status × PolicyState
set_auto_adjust_locked enable interval high low s =
    let c = s.config in
    (
      ok,
      unlock_mutex (record s {
        config = record c {
          auto_adjust = enable;
          adjust_interval = if ltb 0 interval then interval else c.adjust_interval;
          high_watermark = if is_high high then high else c.high_watermark;
          low_watermark = if is_low low then low else c.low_watermark;
        };
      }),
    )

pub dynamic_policy_set_auto_adjust : Bool → ℕ → ℕ → ℕ → PolicyState → Option (Status × PolicyState)
unfolding set_auto_adjust_locked lock_mutex
dynamic_policy_set_auto_adjust enable interval high low s =
    lock_mutex (set_auto_adjust_locked enable interval high low) s

-- Both branches on the usage rate only print.
pub dynamic_policy_adjust : PolicyState → Option (Status × PolicyState)
unfolding lock_mutex
dynamic_policy_adjust s = lock_mutex (λ s'. (ok, unlock_mutex s')) s

-- One turn of the loop of `adjust_thread_func` after its sleep.
pub adjust_turn : PolicyState → Option PolicyState
unfolding dynamic_policy_adjust
adjust_turn s =
    if not s.running
    then some s
    else if not s.config.auto_adjust
    then some s
    else if s.held
    then none
    else elim (dynamic_policy_adjust (record s { held = true })) [
      | none ↦ none
      | some (r, s') ↦ some (record s' { held = false })
    ]

enable_rule_at : ResourceType → Bool → Option PolicyRule → PolicyState → Status × PolicyState
unfolding set_rule
enable_rule_at resource enable none s = (fail, unlock_mutex s)
enable_rule_at resource enable (some r) s = (
  ok,
  unlock_mutex (record s { config = set_rule resource (record r { enabled = enable }) s.config }),
)

enable_rule_locked : ResourceType → Bool → PolicyState → Status × PolicyState
unfolding rule_of enable_rule_at
enable_rule_locked resource enable s = enable_rule_at resource enable (rule_of resource s.config) s

pub dynamic_policy_enable_rule : ResourceType → Bool → PolicyState → Option (Status × PolicyState)
unfolding enable_rule_locked lock_mutex
dynamic_policy_enable_rule resource enable s = lock_mutex (enable_rule_locked resource enable) s

set_default_locked : (ℕ → ℕ) → PolicyState → Status × PolicyState
unfolding default_config
set_default_locked time s = (ok, unlock_mutex (record s { config = default_config time }))

pub dynamic_policy_set_default : Os → PolicyState → Option (Status × PolicyState)
unfolding set_default_locked lock_mutex
dynamic_policy_set_default os s = lock_mutex (set_default_locked os.time) s

-- What is printed is left out.
pub dynamic_policy_print_config : PolicyState → Option (Unit {0} × PolicyState)
unfolding lock_mutex
dynamic_policy_print_config s = lock_mutex (λ s'. (tt, unlock_mutex s')) s
