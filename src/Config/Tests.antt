-- ===== src/Config/Tests.antt =====
-- src/config.c: the theorems at a concrete file and environment.
use mtrdma_artifact.Common.{ℕ, ◌≡◌, refl, true, false, none, some, List, [], ◌∷◌, arith}
use mtrdma_artifact.Common.CString.{skip_spaces, digits_value}
use mtrdma_artifact.Config.Text.{
  parse_positive, strtol, trim_whitespace, drop_end, drop_start, strcaseeq,
}
use mtrdma_artifact.Config.{FullConfig, kind_of_line, setting, max_global_qp}
use mtrdma_artifact.Config.Load.{Sources, Variable, rdma_intercept_load_config, cut_line}
use mtrdma_artifact.Config.Bounds.{HasLimits, load-HasLimits}
use mtrdma_artifact.Config.Priority.{load-last_line}

abbrev defaults : FullConfig
defaults = record {
  config = record {
    enable_intercept = true;
    enable_qp_control = true;
    max_qp_per_process = 100;
    max_send_wr_limit = 1024;
    max_recv_wr_limit = 1024;
    allow_rc_qp = true;
    allow_uc_qp = true;
    allow_ud_qp = true;
    allow_rq_qp = true;
    max_global_qp = 1000;
    enable_mr_control = true;
    max_mr_per_process = 1000;
    max_memory_per_process = 1073741824;
    enable_mr_rate_limit = false;
    max_mr_ops_per_sec = 0;
    mr_rate_limit_window_ms = 1000;
  };
  log_qp_creation = true;
  log_all_operations = false;
  log_level = 1;
  log_file_path = [];
}

-- max_global_qp = 25, with a newline behind it
abbrev line : List ℕ
line =
    b'm' ∷ b'a' ∷ b'x' ∷ b'_' ∷ b'G' ∷ b'l' ∷ b'o' ∷ b'b' ∷ b'a' ∷ b'l' ∷ b'_' ∷ b'q' ∷ b'p' ∷ b' '
    ∷ b'=' ∷ b' ' ∷ b'2' ∷ b'5' ∷ 10 ∷ []

-- The environment says 7, and a line of the file says nothing that is known.
abbrev sources : Sources
sources = record {
  getenv = λ v. elim v [ Variable.max_global_qp ↦ some (b'7' ∷ []) | _ ↦ none ];
  file = some ((b'x' ∷ []) ∷ line ∷ []);
  env_file = none;
}

load-HasLimits_example : HasLimits (rdma_intercept_load_config sources defaults).config
load-HasLimits_example = load-HasLimits sources defaults (ground arith)

line-setting :
    kind_of_line (trim_whitespace (cut_line line)) ≡ setting max_global_qp (b'2' ∷ b'5' ∷ [])
unfolding kind_of_line trim_whitespace cut_line drop_end drop_start strcaseeq
line-setting = refl

number_25 : parse_positive (b'2' ∷ b'5' ∷ []) ≡ some 25
unfolding parse_positive strtol skip_spaces digits_value
number_25 = refl

load-last_line_example : (rdma_intercept_load_config sources defaults).config.max_global_qp ≡ 25
load-last_line_example =
    load-last_line sources defaults ((b'x' ∷ []) ∷ []) line (b'2' ∷ b'5' ∷ []) 25 refl line-setting
      number_25
