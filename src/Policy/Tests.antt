-- ===== src/Policy/Tests.antt =====
-- src/dynamic_policy_manager.c: the theorems at concrete calls.
use Prim.Native.String.{String}
use text.Mathlib.Text.{◌==◌ as str_eq}
use text.Mathlib.TextEquality.{eq_iff}
use mtrdma_artifact.Common.{
  ℕ, ◌≡◌, refl, true, false, Option, none, some, List, [], ◌∷◌, arith, if◌then◌else◌, ◌==◌, ok, Os,
}
use mtrdma_artifact.Shm.{zero_region}
use mtrdma_artifact.Policy.{
  ResourceType, resource_mr, ResourceLimit, DynamicPolicyConfig, PolicyState, zero_config,
  zero_rule, dynamic_policy_set_limit, adjust_turn,
}
use mtrdma_artifact.Policy.Limits.{told, is_same, IsSynced, get_limit-set_limit}
use mtrdma_artifact.Policy.Mutex.{adjust_turn_deadlocks}
use mtrdma_artifact.Policy.File.{
  IsFormat, Fits, is_key, is_skipped, load_lines, saved_lines, with_settings, load-saved,
}
use mtrdma_artifact.Policy.Tenants.{TenantPolicy, zero_policy, PolicyTable}

abbrev host_ok : Os
host_ok = record { shm_open = true; ftruncate = true; mmap = true; fstat = true; time = λ k. k }

abbrev start : PolicyState
start = record {
  config = record zero_config { auto_adjust = true };
  held = false;
  running = true;
  shm = record { attached = true; region = zero_region };
}

abbrev ten : ResourceLimit
ten = record { max_per_process = 10; max_global = 20; max_memory = 0 }

get_limit-set_limit_example :
    (s' : PolicyState) × (dynamic_policy_set_limit resource_mr (some ten) start ≡ some (ok, s'))
    × ((q : ResourceType)
        → told q s' ≡ (if is_same q resource_mr then some (some ten) else told q start))
    × (start.shm.attached ≡ true → IsSynced s')
get_limit-set_limit_example = get_limit-set_limit resource_mr ten start refl refl

adjust_turn_deadlocks_example : adjust_turn start ≡ none
adjust_turn_deadlocks_example = adjust_turn_deadlocks start refl refl

-- Formats that write the number of the key, the value and nothing else.
abbrev print_number : String → ℕ → List ℕ
print_number key val =
    (if str_eq key "max_qp_per_process"
      then 101
      else if str_eq key "max_global_qp"
      then 102
      else if str_eq key "max_mr_per_process"
      then 103
      else if str_eq key "max_global_mr"
      then 104
      else if str_eq key "max_memory_mb"
      then 105
      else if str_eq key "auto_adjust"
      then 106
      else 107)
    ∷ val
    ∷ []

abbrev scan_number : List ℕ → Option (String × ℕ)
scan_number (k ∷ val ∷ []) = some (
  if k == 101
      then "max_qp_per_process"
      else if k == 102
      then "max_global_qp"
      else if k == 103
      then "max_mr_per_process"
      else if k == 104
      then "max_global_mr"
      else if k == 105
      then "max_memory_mb"
      else if k == 106
      then "auto_adjust"
      else "adjust_interval",
  val,
)
scan_number line = none

abbrev comment : List ℕ
comment = b'#' ∷ 10 ∷ []

abbrev no_policies : PolicyTable
no_policies i = zero_policy

abbrev policy_4 : TenantPolicy
policy_4 = record zero_policy { tenant_id = 4 }

abbrev seven_settings : DynamicPolicyConfig
seven_settings = record zero_config {
  qp_policy = record zero_rule { limit = ten };
  adjust_interval = 30;
}

seven_settings-Fits : Fits seven_settings
seven_settings-Fits = omega arith

number-IsFormat : (key : String) → is_key key ≡ true → IsFormat scan_number print_number key
unfolding is_skipped
number-IsFormat key k = record {
  starts = λ val. ground arith;
  reads = λ val lt. ground (
    arith,
    eq_iff key "max_qp_per_process",
    eq_iff key "max_global_qp",
    eq_iff key "max_mr_per_process",
    eq_iff key "max_global_mr",
    eq_iff key "max_memory_mb",
    eq_iff key "auto_adjust",
    eq_iff key "adjust_interval",
  );
}

load-saved_example :
    load_lines scan_number (saved_lines comment print_number seven_settings) zero_config
    ≡ with_settings seven_settings zero_config
unfolding is_skipped
load-saved_example =
    load-saved scan_number comment print_number seven_settings zero_config refl number-IsFormat
      seven_settings-Fits
