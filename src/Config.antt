-- ===== src/Config.antt =====
-- src/config.c: how the configuration of the interception is read, set and got.
pub mod Text
pub mod Load
pub mod Bounds
pub mod Priority
mod Tests
use Prim.Native.String.{String}
use mtrdma_artifact.Common.{
  ℕ, Bool, true, false, ◌||◌, Option, none, some, List, [], ◌∷◌, Status, ok, fail, if◌then◌else◌,
  leb, ltb, ◌==◌,
}
use mtrdma_artifact.Hooks.{InterceptConfig}
use mtrdma_artifact.Config.Text.{
  strcaseeq, trim_whitespace, length, parse_positive, parse_unsigned, parse_bool,
  parse_log_level_value, parse_string,
}

-- `intercept_config_t` with its fields about the log; the path is the string in its array.
pub record FullConfig : Type 0 where
  pub config : InterceptConfig
  pub log_qp_creation : Bool
  pub log_all_operations : Bool
  pub log_level : ℕ
  pub log_file_path : List ℕ

-- The rows of `config_table`, by the parser in them.
pub data Key : Type 0 where
  enable_intercept log_qp_creation log_all_operations log_level log_file_path : Key
  enable_qp_control max_qp_per_process max_send_wr_limit max_recv_wr_limit : Key
  allow_rc_qp allow_uc_qp allow_ud_qp max_global_qp : Key
  enable_mr_rate_limit max_mr_ops_per_sec mr_rate_limit_window_ms : Key

pub config_table : List (String × Key)
config_table =
    ("enable_intercept", enable_intercept)
    ∷ ("log_qp_creation", log_qp_creation)
    ∷ ("log_all_operations", log_all_operations)
    ∷ ("log_level", log_level)
    ∷ ("log_file_path", log_file_path)
    ∷ ("enable_qp_control", enable_qp_control)
    ∷ ("max_qp_per_process", max_qp_per_process)
    ∷ ("max_send_wr_limit", max_send_wr_limit)
    ∷ ("max_recv_wr_limit", max_recv_wr_limit)
    ∷ ("allow_rc_qp", allow_rc_qp)
    ∷ ("allow_uc_qp", allow_uc_qp)
    ∷ ("allow_ud_qp", allow_ud_qp)
    ∷ ("max_global_qp", max_global_qp)
    ∷ ("enable_mr_rate_limit", enable_mr_rate_limit)
    ∷ ("max_mr_ops_per_sec", max_mr_ops_per_sec)
    ∷ ("mr_rate_limit_window_ms", mr_rate_limit_window_ms)
    ∷ []

-- A value that was parsed is stored; `none` is -1.
abbrev pub store {ℓ} : {A : Type ℓ} → Option A → (A → FullConfig) → Option FullConfig
store none f = none
store (some a) f = some (f a)

abbrev pub with_config : FullConfig → InterceptConfig → FullConfig
with_config c config = record c { config = config }

-- The parser of a row.
unfoldable pub parse_value : Key → List ℕ → FullConfig → Option FullConfig
parse_value enable_intercept v c =
    store (parse_bool v) (λ b. with_config c (record (c.config) { enable_intercept = b }))
parse_value log_qp_creation v c = store (parse_bool v) (λ b. record c { log_qp_creation = b })
parse_value log_all_operations v c = store (parse_bool v) (λ b. record c { log_all_operations = b })
parse_value log_level v c = store (parse_log_level_value v) (λ l. record c { log_level = l })
parse_value log_file_path v c = store (parse_string v) (λ s. record c { log_file_path = s })
parse_value enable_qp_control v c =
    store (parse_bool v) (λ b. with_config c (record (c.config) { enable_qp_control = b }))
parse_value max_qp_per_process v c =
    store (parse_positive v) (λ n. with_config c (record (c.config) { max_qp_per_process = n }))
parse_value max_send_wr_limit v c =
    store (parse_positive v) (λ n. with_config c (record (c.config) { max_send_wr_limit = n }))
parse_value max_recv_wr_limit v c =
    store (parse_positive v) (λ n. with_config c (record (c.config) { max_recv_wr_limit = n }))
parse_value allow_rc_qp v c =
    store (parse_bool v) (λ b. with_config c (record (c.config) { allow_rc_qp = b }))
parse_value allow_uc_qp v c =
    store (parse_bool v) (λ b. with_config c (record (c.config) { allow_uc_qp = b }))
parse_value allow_ud_qp v c =
    store (parse_bool v) (λ b. with_config c (record (c.config) { allow_ud_qp = b }))
parse_value max_global_qp v c =
    store (parse_positive v) (λ n. with_config c (record (c.config) { max_global_qp = n }))
parse_value enable_mr_rate_limit v c =
    store (parse_bool v) (λ b. with_config c (record (c.config) { enable_mr_rate_limit = b }))
parse_value max_mr_ops_per_sec v c =
    store (parse_unsigned v) (λ n. with_config c (record (c.config) { max_mr_ops_per_sec = n }))
parse_value mr_rate_limit_window_ms v c =
    store (parse_unsigned v)
      (λ n. with_config c (record (c.config) { mr_rate_limit_window_ms = n }))

-- The loop over the table.
pub find_key : List ℕ → List (String × Key) → Option Key
find_key key [] = none
find_key key ((name, k) ∷ rows) =
    let rest = find_key key rows in if strcaseeq name key then some k else rest

-- `strchr(line, '=')`: the texts before and behind it.
pub split_equals : List ℕ → Option (List ℕ × List ℕ)
split_equals [] = none
split_equals (x ∷ xs) =
    if x == b'='
    then some ([], xs)
    else elim (split_equals xs) [ none ↦ none | some (key, value) ↦ some (x ∷ key, value) ]

-- What a line sets; a line that is skipped sets nothing.
pub data LineKind : Type 0 where
  skipped : LineKind
  invalid : LineKind
  setting : Key → List ℕ → LineKind

pub kind_of_setting : Option (List ℕ × List ℕ) → LineKind
unfolding find_key config_table
kind_of_setting none = invalid
kind_of_setting (some (key, value)) = elim (find_key (trim_whitespace key) config_table) [
  | none ↦ invalid
  | some k ↦ setting k (trim_whitespace value)
]

unfoldable pub kind_of_line : List ℕ → LineKind
unfolding kind_of_setting split_equals
kind_of_line [] = skipped
kind_of_line (x ∷ xs) =
    if x == b'#' || x == b';' then skipped else kind_of_setting (split_equals (x ∷ xs))

abbrev pub apply_kind : LineKind → FullConfig → Option FullConfig
apply_kind skipped c = some c
apply_kind invalid c = none
apply_kind (setting k v) c = parse_value k v c

-- `none` is -1, after which the configuration is as it was.
unfoldable pub parse_config_line : List ℕ → FullConfig → Option FullConfig
unfolding kind_of_line parse_value
parse_config_line line c = apply_kind (kind_of_line (trim_whitespace line)) c

-- `rdma_intercept_set_config` as far as the configuration goes; the argument `none` is null.
unfoldable pub rdma_intercept_set_config : Option FullConfig → FullConfig → Status × FullConfig
rdma_intercept_set_config none c = (fail, c)
rdma_intercept_set_config (some new) c =
    if ltb 4 new.log_level
    then (fail, c)
    else if leb 256 (length new.log_file_path)
    then (fail, c)
    else (ok, new)

unfoldable pub rdma_intercept_get_config : FullConfig → FullConfig
rdma_intercept_get_config c = c
