-- ===== src/Config/Bounds.antt =====
-- src/config.c: what no configuration can set.
use mtrdma_artifact.Common.{
  ℕ, ◌<◌, ◌≤◌, ◌≡◌, refl, Option, none, some, List, [], ◌∷◌, arith, u32_mod, Option-cases, inl, inr,
}
use mtrdma_artifact.Hooks.{InterceptConfig}
use mtrdma_artifact.Config.Text.{parse_positive, parse_unsigned}
use mtrdma_artifact.Config.{
  FullConfig, parse_config_line, LineKind, setting, skipped, invalid, Key, parse_value, apply_kind,
  store,
}
use mtrdma_artifact.Config.Load.{
  Sources, Variable, load_config_from_env, parse_lines, or_old, read_with,
  rdma_intercept_load_config, load_file, chosen_file,
}
use mtrdma_artifact.Config.{
  enable_intercept, log_qp_creation, log_all_operations, log_level, log_file_path,
  enable_qp_control, max_qp_per_process, max_send_wr_limit, max_recv_wr_limit, allow_rc_qp,
  allow_uc_qp, allow_ud_qp, max_global_qp, enable_mr_rate_limit, max_mr_ops_per_sec,
  mr_rate_limit_window_ms,
}

abbrev pub IsPositive32 : ℕ → Type 0
IsPositive32 n = (1 ≤ n) × (n < u32_mod)

-- The limits: five that are positive and fit 32 bits, two that fit 32 bits.
abbrev pub HasLimits : InterceptConfig → Type 0
HasLimits i =
    IsPositive32 i.max_qp_per_process
    × IsPositive32 i.max_global_qp
    × IsPositive32 i.max_send_wr_limit
    × IsPositive32 i.max_recv_wr_limit
    × IsPositive32 i.max_mr_per_process
    × (i.max_mr_ops_per_sec < u32_mod)
    × (i.mr_rate_limit_window_ms < u32_mod)

-- What a parser of numbers lets through.
positive-IsPositive32 : (v : List ℕ) (n : ℕ) → parse_positive v ≡ some n → IsPositive32 n
unfolding parse_positive
positive-IsPositive32 v n e = ground arith

unsigned-lt : (v : List ℕ) (n : ℕ) → parse_unsigned v ≡ some n → n < u32_mod
unfolding parse_unsigned
unsigned-lt v n e = ground arith

read_positive :
    (v : Option (List ℕ)) (old : ℕ)
    → IsPositive32 old
    → IsPositive32 (read_with parse_positive v old)
read_positive none old h = h
read_positive (some v) old h = elim (Option-cases (parse_positive v)) [
  | inl bad ↦ rw bad h
  | inr (n, e) ↦ rw e (positive-IsPositive32 v n e)
]

read_unsigned :
    (v : Option (List ℕ)) (old : ℕ) → old < u32_mod → read_with parse_unsigned v old < u32_mod
read_unsigned none old h = h
read_unsigned (some v) old h = elim (Option-cases (parse_unsigned v)) [
  | inl bad ↦ rw bad h
  | inr (n, e) ↦ rw e (unsigned-lt v n e)
]

env-HasLimits :
    (getenv : Variable → Option (List ℕ)) (c : FullConfig)
    → HasLimits c.config
    → HasLimits (load_config_from_env getenv c).config
unfolding load_config_from_env
env-HasLimits getenv c h = (
  read_positive (getenv Variable.max_qp_per_process) _ h.0,
  read_positive (getenv Variable.max_global_qp) _ h.1,
  read_positive (getenv Variable.max_send_wr_limit) _ h.2,
  read_positive (getenv Variable.max_recv_wr_limit) _ h.3,
  read_positive (getenv Variable.max_mr_per_process) _ h.4,
  read_unsigned (getenv Variable.max_mr_ops_per_sec) _ h.5,
  read_unsigned (getenv Variable.mr_rate_limit_window_ms) _ h.6,
)

abbrev Limited : FullConfig → Type 0
Limited c = HasLimits c.config

store-Limited {ℓ} :
    {A : Type ℓ} (parsed : Option A) (f : A → FullConfig) (c : FullConfig)
    → Limited c
    → ((a : A) → parsed ≡ some a → Limited (f a))
    → Limited (or_old (store parsed f) c)
store-Limited none f c h g = h
store-Limited (some a) f c h g = g a refl

value-Limited :
    (k : Key) (v : List ℕ) (c : FullConfig) → Limited c → Limited (or_old (parse_value k v c) c)
unfolding parse_value
value-Limited enable_intercept v c h = store-Limited _ _ c h (λ b e. h)
value-Limited log_qp_creation v c h = store-Limited _ _ c h (λ b e. h)
value-Limited log_all_operations v c h = store-Limited _ _ c h (λ b e. h)
value-Limited log_level v c h = store-Limited _ _ c h (λ b e. h)
value-Limited log_file_path v c h = store-Limited _ _ c h (λ b e. h)
value-Limited enable_qp_control v c h = store-Limited _ _ c h (λ b e. h)
value-Limited max_qp_per_process v c h =
    store-Limited _ _ c h (λ n e. (positive-IsPositive32 v n e, h.1, h.2, h.3, h.4, h.5, h.6))
value-Limited max_send_wr_limit v c h =
    store-Limited _ _ c h (λ n e. (h.0, h.1, positive-IsPositive32 v n e, h.3, h.4, h.5, h.6))
value-Limited max_recv_wr_limit v c h =
    store-Limited _ _ c h (λ n e. (h.0, h.1, h.2, positive-IsPositive32 v n e, h.4, h.5, h.6))
value-Limited allow_rc_qp v c h = store-Limited _ _ c h (λ b e. h)
value-Limited allow_uc_qp v c h = store-Limited _ _ c h (λ b e. h)
value-Limited allow_ud_qp v c h = store-Limited _ _ c h (λ b e. h)
value-Limited max_global_qp v c h =
    store-Limited _ _ c h (λ n e. (h.0, positive-IsPositive32 v n e, h.2, h.3, h.4, h.5, h.6))
value-Limited enable_mr_rate_limit v c h = store-Limited _ _ c h (λ b e. h)
value-Limited max_mr_ops_per_sec v c h =
    store-Limited _ _ c h (λ n e. (h.0, h.1, h.2, h.3, h.4, unsigned-lt v n e, h.6))
value-Limited mr_rate_limit_window_ms v c h =
    store-Limited _ _ c h (λ n e. (h.0, h.1, h.2, h.3, h.4, h.5, unsigned-lt v n e))

kind-Limited :
    (kind : LineKind) (c : FullConfig) → Limited c → Limited (or_old (apply_kind kind c) c)
kind-Limited skipped c h = h
kind-Limited invalid c h = h
kind-Limited (setting k v) c h = value-Limited k v c h

lines-Limited : (lines : List (List ℕ)) (c : FullConfig) → Limited c → Limited (parse_lines lines c)
unfolding parse_lines parse_config_line
lines-Limited [] c h = h
lines-Limited (line ∷ lines) c h = lines-Limited lines _ (kind-Limited _ c h)

file-Limited :
    (file : Option (List (List ℕ))) (c : FullConfig) → Limited c → Limited (load_file file c)
file-Limited none c h = h
file-Limited (some lines) c h = lines-Limited lines c h

-- Whatever the environment and the files contain: if the limits of the configuration were positive
-- numbers of 32 bits, then they are after `rdma_intercept_load_config`, and the two settings of the
-- rate limit still fit 32 bits.
pub load-HasLimits :
    (src : Sources) (c : FullConfig)
    → HasLimits c.config
    → HasLimits (rdma_intercept_load_config src c).config
unfolding rdma_intercept_load_config
load-HasLimits src c h =
    file-Limited (chosen_file src) (load_config_from_env src.getenv c)
      (env-HasLimits src.getenv c h)
