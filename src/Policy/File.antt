-- ===== src/Policy/File.antt =====
-- src/dynamic_policy_manager.c: the configuration file, as the list of its lines.
use Prim.Native.String.{String}
use mtrdma_artifact.Common.{
  ℕ, ◌*◌, ◌/◌, ◌%◌, ◌<◌, ◌≡◌, refl, Bool, true, false, ◌||◌, Option, none, some, List, [], ◌∷◌,
  Status, ok, fail, arith, if◌then◌else◌, ltb, ◌==◌, u32_mod, u64_mod, ◌∙◌,
}
use text.Mathlib.Text.{◌==◌ as str_eq}
use mtrdma_artifact.Policy.{DynamicPolicyConfig, PolicyState, lock_mutex, unlock_mutex}

-- `line[0] == '#' || line[0] == '\n'`
unfoldable pub is_skipped : List ℕ → Bool
is_skipped [] = false
is_skipped (c ∷ cs) = (c == b'#') || (c == 10)

abbrev pub mebibyte : ℕ
mebibyte = 1048576

-- The chain of `strcmp`s: one setting read from the file.
pub apply_setting : String → ℕ → DynamicPolicyConfig → DynamicPolicyConfig
apply_setting key val c =
    let qp = c.qp_policy.limit in
    let mr = c.mr_policy.limit in
    let memory = c.memory_policy.limit in
    if str_eq key "max_qp_per_process"
    then record c {
      qp_policy = record (c.qp_policy) { limit = record qp { max_per_process = val } };
    }
    else if str_eq key "max_global_qp"
    then record c { qp_policy = record (c.qp_policy) { limit = record qp { max_global = val } } }
    else if str_eq key "max_mr_per_process"
    then record c {
      mr_policy = record (c.mr_policy) { limit = record mr { max_per_process = val } };
    }
    else if str_eq key "max_global_mr"
    then record c { mr_policy = record (c.mr_policy) { limit = record mr { max_global = val } } }
    else if str_eq key "max_memory_mb"
    then record c {
      memory_policy = record (c.memory_policy) {
        limit = record memory { max_memory = (val * mebibyte) % u64_mod };
      };
    }
    else if str_eq key "auto_adjust"
    then record c { auto_adjust = ltb 0 val }
    else if str_eq key "adjust_interval"
    then record c { adjust_interval = val }
    else c

-- `scan` is `sscanf(line, "%63s %u", key, &val)` where it returns 2.
module _ (scan : List ℕ → Option (String × ℕ)) where
  pub apply_scanned : Option (String × ℕ) → DynamicPolicyConfig → DynamicPolicyConfig
  unfolding apply_setting
  apply_scanned none c = c
  apply_scanned (some (key, val)) c = apply_setting key val c

  -- The loop over the lines.
  pub load_lines : List (List ℕ) → DynamicPolicyConfig → DynamicPolicyConfig
  unfolding is_skipped apply_scanned
  load_lines [] c = c
  load_lines (line ∷ lines) c =
      load_lines lines (if is_skipped line then c else apply_scanned (scan line) c)

  unfoldable pub load_locked : List (List ℕ) → PolicyState → Status × PolicyState
  unfolding load_lines
  load_locked lines s = (ok, unlock_mutex (record s { config = load_lines lines s.config }))

  -- `none` is a file that cannot be opened.
  unfoldable pub dynamic_policy_load_config :
      Option (List (List ℕ)) → PolicyState → Option (Status × PolicyState)
  unfolding load_locked lock_mutex
  dynamic_policy_load_config none s = some (fail, s)
  dynamic_policy_load_config (some lines) s = lock_mutex (load_locked lines) s

-- `print` is `fprintf(fp, "%s %llu\n", key, val)`, `heading` the line before the settings.
module _ (heading : List ℕ) (print : String → ℕ → List ℕ) where
  pub saved_lines : DynamicPolicyConfig → List (List ℕ)
  saved_lines c =
      heading
      ∷ print "max_qp_per_process" c.qp_policy.limit.max_per_process
      ∷ print "max_global_qp" c.qp_policy.limit.max_global
      ∷ print "max_mr_per_process" c.mr_policy.limit.max_per_process
      ∷ print "max_global_mr" c.mr_policy.limit.max_global
      ∷ print "max_memory_mb" (c.memory_policy.limit.max_memory / mebibyte)
      ∷ print "auto_adjust" (if c.auto_adjust then 1 else 0)
      ∷ print "adjust_interval" c.adjust_interval
      ∷ []

  -- The file that is written; `none` if it cannot be opened.
  unfoldable pub save_locked : Bool → PolicyState → (Status × Option (List (List ℕ))) × PolicyState
  unfolding saved_lines
  save_locked false s = ((fail, none), unlock_mutex s)
  save_locked true s = ((ok, some (saved_lines s.config)), unlock_mutex s)

  unfoldable pub dynamic_policy_save_config :
      Bool → PolicyState → Option ((Status × Option (List (List ℕ))) × PolicyState)
  unfolding save_locked lock_mutex
  dynamic_policy_save_config opened s = lock_mutex (save_locked opened) s

-- What the C library's formats do with a line of a setting, as far as the file relies on it: the
-- line is none of the skipped ones, and a value that an `unsigned` holds is read back.
pub record IsFormat (scan : List ℕ → Option (String × ℕ)) (print : String → ℕ → List ℕ)
    (key : String) : Type 0 where
  pub starts : (val : ℕ) → is_skipped (print key val) ≡ false
  pub reads : (val : ℕ) → val < u32_mod → scan (print key val) ≡ some (key, val)

module _ (scan : List ℕ → Option (String × ℕ)) (print : String → ℕ → List ℕ) where
  load_setting :
      (key : String) (val : ℕ) (lines : List (List ℕ)) (c : DynamicPolicyConfig)
      → IsFormat scan print key
      → val < u32_mod
      → load_lines scan (print key val ∷ lines) c ≡ load_lines scan lines (apply_setting key val c)
  unfolding load_lines apply_scanned
  load_setting key val lines c f lt = rw (f.starts val, f.reads val lt) refl

-- The values fit the format's `unsigned`. The memory limit is written in MiB.
pub record Fits (c : DynamicPolicyConfig) : Type 0 where
  pub qp_process : c.qp_policy.limit.max_per_process < u32_mod
  pub qp_global : c.qp_policy.limit.max_global < u32_mod
  pub mr_process : c.mr_policy.limit.max_per_process < u32_mod
  pub mr_global : c.mr_policy.limit.max_global < u32_mod
  pub memory : c.memory_policy.limit.max_memory / mebibyte < u32_mod
  pub interval : c.adjust_interval < u32_mod

-- The settings of one configuration in place of another's; the memory limit is rounded down to MiB.
pub with_settings : DynamicPolicyConfig → DynamicPolicyConfig → DynamicPolicyConfig
with_settings new old = record old {
  qp_policy = record (old.qp_policy) {
    limit = record (old.qp_policy.limit) {
      max_per_process = new.qp_policy.limit.max_per_process;
      max_global = new.qp_policy.limit.max_global;
    };
  };
  mr_policy = record (old.mr_policy) {
    limit = record (old.mr_policy.limit) {
      max_per_process = new.mr_policy.limit.max_per_process;
      max_global = new.mr_policy.limit.max_global;
    };
  };
  memory_policy = record (old.memory_policy) {
    limit = record (old.memory_policy.limit) {
      max_memory = (new.memory_policy.limit.max_memory / mebibyte) * mebibyte;
    };
  };
  auto_adjust = new.auto_adjust;
  adjust_interval = new.adjust_interval;
}

flag_back : (b : Bool) → ltb 0 (if b then 1 else 0) ≡ b
flag_back true = refl
flag_back false = refl

applied :
    (new old : DynamicPolicyConfig)
    → Fits new
    → apply_setting "adjust_interval" new.adjust_interval (
        apply_setting "auto_adjust" (if new.auto_adjust then 1 else 0) (
          apply_setting "max_memory_mb" (new.memory_policy.limit.max_memory / mebibyte) (
            apply_setting "max_global_mr" new.mr_policy.limit.max_global (
              apply_setting "max_mr_per_process" new.mr_policy.limit.max_per_process (
                apply_setting "max_global_qp" new.qp_policy.limit.max_global
                  (apply_setting "max_qp_per_process" new.qp_policy.limit.max_per_process old))))))
      ≡ with_settings new old
unfolding apply_setting with_settings
applied new old fits =
    let memory = new.memory_policy.limit.max_memory / mebibyte in
    let small : (memory * mebibyte) % u64_mod ≡ memory * mebibyte = omega (arith, fits.memory) in
    rw (flag_back new.auto_adjust, small) refl

-- The keys of the file.
abbrev pub is_key : String → Bool
is_key key =
    str_eq key "max_qp_per_process"
    || str_eq key "max_global_qp"
    || str_eq key "max_mr_per_process"
    || str_eq key "max_global_mr"
    || str_eq key "max_memory_mb"
    || str_eq key "auto_adjust"
    || str_eq key "adjust_interval"

module _ (scan : List ℕ → Option (String × ℕ)) (heading : List ℕ)
    (print : String → ℕ → List ℕ) where
  load_comment :
      (lines : List (List ℕ)) (c : DynamicPolicyConfig)
      → is_skipped heading ≡ true
      → load_lines scan (heading ∷ lines) c ≡ load_lines scan lines c
  unfolding load_lines
  load_comment lines c h = rw h refl

  load_nil : (c : DynamicPolicyConfig) → load_lines scan [] c ≡ c
  unfolding load_lines
  load_nil c = refl

  -- Loading the lines that were saved from `new` over `old`: exactly the seven settings become those
  -- of `new`, with the memory limit rounded down to MiB. The C formats are taken to read back what
  -- they wrote for the seven keys, the values to fit them, and the heading to be a comment.
  pub load-saved :
      (new old : DynamicPolicyConfig)
      → is_skipped heading ≡ true
      → ((key : String) → is_key key ≡ true → IsFormat scan print key)
      → Fits new
      → load_lines scan (saved_lines heading print new) old ≡ with_settings new old
  unfolding saved_lines
  load-saved new old skipped f fits =
      load_comment _ old skipped
      ∙ load_setting scan print "max_qp_per_process" _ _ old (f _ refl) fits.qp_process
      ∙ load_setting scan print "max_global_qp" _ _ _ (f _ refl) fits.qp_global
      ∙ load_setting scan print "max_mr_per_process" _ _ _ (f _ refl) fits.mr_process
      ∙ load_setting scan print "max_global_mr" _ _ _ (f _ refl) fits.mr_global
      ∙ load_setting scan print "max_memory_mb" _ _ _ (f _ refl) fits.memory
      ∙ load_setting scan print "auto_adjust" _ _ _ (f _ refl) (flag new.auto_adjust)
      ∙ load_setting scan print "adjust_interval" _ _ _ (f _ refl) fits.interval
      ∙ load_nil _
      ∙ applied new old fits
    where
      flag : (b : Bool) → (if b then 1 else 0) < u32_mod
      flag true = omega arith
      flag false = omega arith
