-- ===== src/Config/Load.antt =====
-- src/config.c: the environment, the file, and what wins.
use mtrdma_artifact.Common.{ℕ, ◌||◌, Option, none, some, List, [], ◌∷◌, if◌then◌else◌, ◌==◌}
use mtrdma_artifact.Common.CString.{strtoull}
use mtrdma_artifact.Config.Text.{parse_positive, parse_unsigned, parse_bool, parse_string}
use mtrdma_artifact.Config.{FullConfig, parse_config_line}

-- The variables that `load_config_from_env` reads, after their prefix RDMA_INTERCEPT_.
pub data Variable : Type 0 where
  enable_qp_control max_qp_per_process max_global_qp max_send_wr_limit max_recv_wr_limit : Variable
  allow_rc_qp allow_uc_qp allow_ud_qp enable_mr_control max_mr_per_process : Variable
  max_memory_per_process enable_mr_rate_limit max_mr_ops_per_sec : Variable
  mr_rate_limit_window_ms log_file_path : Variable

-- `getenv`, and the lines that `fgets` reads from the file that is opened first, and from the one that
-- the variable RDMA_INTERCEPT_CONFIG names; `none` where a file cannot be opened.
pub record Sources : Type 0 where
  pub getenv : Variable → Option (List ℕ)
  pub file : Option (List (List ℕ))
  pub env_file : Option (List (List ℕ))

-- The variable is set and its value is one: that is stored.
abbrev pub or_old {ℓ} : {A : Type ℓ} → Option A → A → A
or_old none old = old
or_old (some a) old = a

abbrev pub read_with {ℓ} : {A : Type ℓ} → (List ℕ → Option A) → Option (List ℕ) → A → A
read_with parse none old = old
read_with parse (some value) old = or_old (parse value) old

-- `val > 0` of an `unsigned long long`
unfoldable pub parse_memory : List ℕ → Option ℕ
parse_memory value = let n = strtoull value in if n == 0 then none else some n

unfoldable pub load_config_from_env : (Variable → Option (List ℕ)) → FullConfig → FullConfig
load_config_from_env getenv c =
    let i = c.config in
    record c {
      config = record i {
        enable_qp_control = read_with parse_bool (getenv enable_qp_control) i.enable_qp_control;
        max_qp_per_process =
            read_with parse_positive (getenv max_qp_per_process) i.max_qp_per_process;
        max_global_qp = read_with parse_positive (getenv max_global_qp) i.max_global_qp;
        max_send_wr_limit = read_with parse_positive (getenv max_send_wr_limit) i.max_send_wr_limit;
        max_recv_wr_limit = read_with parse_positive (getenv max_recv_wr_limit) i.max_recv_wr_limit;
        allow_rc_qp = read_with parse_bool (getenv allow_rc_qp) i.allow_rc_qp;
        allow_uc_qp = read_with parse_bool (getenv allow_uc_qp) i.allow_uc_qp;
        allow_ud_qp = read_with parse_bool (getenv allow_ud_qp) i.allow_ud_qp;
        enable_mr_control = read_with parse_bool (getenv enable_mr_control) i.enable_mr_control;
        max_mr_per_process =
            read_with parse_positive (getenv max_mr_per_process) i.max_mr_per_process;
        max_memory_per_process =
            read_with parse_memory (getenv max_memory_per_process) i.max_memory_per_process;
        enable_mr_rate_limit =
            read_with parse_bool (getenv enable_mr_rate_limit) i.enable_mr_rate_limit;
        max_mr_ops_per_sec =
            read_with parse_unsigned (getenv max_mr_ops_per_sec) i.max_mr_ops_per_sec;
        mr_rate_limit_window_ms =
            read_with parse_unsigned (getenv mr_rate_limit_window_ms) i.mr_rate_limit_window_ms;
      };
      log_file_path = read_with parse_string (getenv log_file_path) c.log_file_path;
    }

-- `line[strcspn(line, "\r\n")] = '\0'`
unfoldable pub cut_line : List ℕ → List ℕ
cut_line [] = []
cut_line (x ∷ xs) = let rest = cut_line xs in if x == 13 || x == 10 then [] else x ∷ rest

-- The loop over the lines.
unfoldable pub parse_lines : List (List ℕ) → FullConfig → FullConfig
unfolding cut_line
parse_lines [] c = c
parse_lines (line ∷ lines) c = parse_lines lines (or_old (parse_config_line (cut_line line) c) c)

-- The first file that opens.
abbrev pub chosen_file : Sources → Option (List (List ℕ))
chosen_file src = elim src.file [ some lines ↦ some lines | none ↦ src.env_file ]

abbrev pub load_file : Option (List (List ℕ)) → FullConfig → FullConfig
load_file none c = c
load_file (some lines) c = parse_lines lines c

unfoldable pub rdma_intercept_load_config : Sources → FullConfig → FullConfig
unfolding load_config_from_env parse_lines
rdma_intercept_load_config src c = load_file (chosen_file src) (load_config_from_env src.getenv c)
