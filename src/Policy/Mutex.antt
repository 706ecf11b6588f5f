-- ===== src/Policy/Mutex.antt =====
-- src/dynamic_policy_manager.c: which calls come back, with the mutex as they found it.
use mtrdma_artifact.Common.{
  ℕ, ◌≡◌, refl, Bool, true, false, Option, none, some, List, [], ◌∷◌, Os, Bool-cases, inl, inr,
}
use Prim.Native.String.{String}
use mtrdma_artifact.Shm.{ResourceUsage, Shm}
use mtrdma_artifact.Policy.{
  ResourceType, ResourceLimit, DynamicPolicyConfig, PolicyState, lock_mutex, dynamic_policy_init,
  dynamic_policy_cleanup, dynamic_policy_set_limit, dynamic_policy_get_limit,
  dynamic_policy_check_limit, dynamic_policy_update, dynamic_policy_get_config,
  dynamic_policy_set_auto_adjust, dynamic_policy_adjust, adjust_turn, dynamic_policy_enable_rule,
  dynamic_policy_set_default, dynamic_policy_print_config,
}
use mtrdma_artifact.Policy.File.{dynamic_policy_load_config, dynamic_policy_save_config}

-- The call came back with the mutex free.
abbrev pub Returns {ℓ} : {R : Type ℓ} → Option (R × PolicyState) → Type 0
Returns none = ⊥
Returns (some (r, s)) = s.held ≡ false

-- With `auto_adjust` on, the turn of the adjusting thread never ends: it waits for the mutex it
-- holds.
pub adjust_turn_deadlocks :
    (s : PolicyState) → s.running ≡ true → s.config.auto_adjust ≡ true → adjust_turn s ≡ none
unfolding adjust_turn dynamic_policy_adjust lock_mutex
adjust_turn_deadlocks s running on = elim (Bool-cases s.held) [
  | inl h ↦ rw (running, on, h) refl
  | inr h ↦ rw (running, on, h) refl
]

-- The functions of the interface that take the mutex, with their arguments.
pub data Call : Type 0 where
  inits : Os → Bool → Call
  cleans : Call
  limits : ResourceType → Option ResourceLimit → Call
  reads : ResourceType → Call
  checks : ResourceUsage → ResourceType → ℕ → ℕ → Call
  updates : Option DynamicPolicyConfig → Call
  copies : Call
  tunes : Bool → ℕ → ℕ → ℕ → Call
  adjusts : Call
  rules : ResourceType → Bool → Call
  defaults : Os → Call
  loads : (List ℕ → Option (String × ℕ)) → Option (List (List ℕ)) → Call
  saves : List ℕ → (String → ℕ → List ℕ) → Bool → Call
  prints : Call

abbrev after_call {ℓ} : {R : Type ℓ} → Option (R × PolicyState) → Option PolicyState
after_call none = none
after_call (some (r, s)) = some s

pub step : Call → PolicyState → Option PolicyState
step (inits os created) s = after_call (dynamic_policy_init os created s)
step cleans s = after_call (dynamic_policy_cleanup s)
step (limits resource limit) s = after_call (dynamic_policy_set_limit resource limit s)
step (reads resource) s = after_call (dynamic_policy_get_limit resource s)
step (checks unset resource current n) s =
    after_call (dynamic_policy_check_limit unset resource current n s)
step (updates config) s = after_call (dynamic_policy_update config s)
step copies s = after_call (dynamic_policy_get_config s)
step (tunes enable interval high low) s =
    after_call (dynamic_policy_set_auto_adjust enable interval high low s)
step adjusts s = after_call (dynamic_policy_adjust s)
step (rules resource enable) s = after_call (dynamic_policy_enable_rule resource enable s)
step (defaults os) s = after_call (dynamic_policy_set_default os s)
step (loads scan lines) s = after_call (dynamic_policy_load_config scan lines s)
step (saves heading print opened) s = after_call (dynamic_policy_save_config heading print opened s)
step prints s = after_call (dynamic_policy_print_config s)

-- One call after the other; `none` when one of them blocks.
pub run_calls : List Call → PolicyState → Option PolicyState
run_calls [] s = some s
run_calls (c ∷ cs) s = elim (step c s) [ none ↦ none | some s' ↦ run_calls cs s' ]

-- The result is there, and the mutex is free in it.
abbrev pub IsFree : Option PolicyState → Type 0
IsFree none = ⊥
IsFree (some s) = s.held ≡ false
