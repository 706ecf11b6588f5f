-- ===== src/Log/Tests.antt =====
-- src/logger.c: the theorems at a concrete log.
use mtrdma_artifact.Common.{
  ℕ, ◌≡◌, refl, true, false, none, some, List, [], ◌∷◌, ok, fail, leb, if◌then◌else◌, ◌==◌,
}
use mtrdma_artifact.Common.CString.{strrchr}
use mtrdma_artifact.Config.{FullConfig}
use mtrdma_artifact.Config.Text.{length}
use mtrdma_artifact.Log.Stdio.{Files, same_path, message}
use mtrdma_artifact.Log.{
  LogState, LogHost, error, debug, ensure_log_directory, rdma_intercept_log,
  rdma_intercept_set_log_file,
}
use mtrdma_artifact.Log.Start.{StartHost}
use mtrdma_artifact.Log.Safety.{IsSound}
use mtrdma_artifact.Log.Life.{
  Call, starts, stops, logs, logs_internal, logs_qp, sets_level, sets_file, rotates, sets_config,
  run, run-IsSound,
}
use mtrdma_artifact.Log.Dangling.{log-set_log_file_fails}

abbrev settings : FullConfig
settings = record {
  config = record {
    enable_intercept = true;
    enable_qp_control = false;
    max_qp_per_process = 100;
    max_send_wr_limit = 1024;
    max_recv_wr_limit = 1024;
    allow_rc_qp = true;
    allow_uc_qp = true;
    allow_ud_qp = true;
    allow_rq_qp = true;
    max_global_qp = 1000;
    enable_mr_control = false;
    max_mr_per_process = 1000;
    max_memory_per_process = 1073741824;
    enable_mr_rate_limit = false;
    max_mr_ops_per_sec = 0;
    mr_rate_limit_window_ms = 1000;
  };
  log_qp_creation = true;
  log_all_operations = false;
  log_level = 1;
  log_file_path = b'a' ∷ [];
}

abbrev no_files : Files
no_files = record {
  named = λ _. none;
  contents = λ _. [];
  handle = λ _. none;
  next_file = 0;
  next_handle = 0;
  fault = false;
}

abbrev off : LogState
off = record { initialized = false; config = settings; log_file = none; files = no_files }

abbrev start_host : StartHost
start_host = record {
  sources = record { getenv = λ _. none; file = none; env_file = none };
  opens = true;
  libibverbs = true;
  ibv_create_qp = true;
  ibv_reg_mr = true;
  ibv_dereg_mr = true;
}

abbrev host : LogHost
host = record { stat = true; mkdir = true; opens = true; suffix = b'.' ∷ [] }

abbrev calls : List Call
calls =
    starts start_host (some (b'1' ∷ [])) none
    ∷ logs error (b'x' ∷ [])
    ∷ rotates host
    ∷ sets_file host (some (b'b' ∷ []))
    ∷ sets_level debug
    ∷ logs_internal debug (b'y' ∷ [])
    ∷ logs_qp (some (7 ∷ []))
    ∷ sets_config host settings
    ∷ stops
    ∷ []

run-IsSound_example : IsSound (run calls off)
run-IsSound_example =
    run-IsSound calls off (refl, (tt, (refl, (refl, (tt, (tt, (tt, (refl, (tt, tt)))))))))
      (refl, refl)

-- The file `a` with one line, open as 0.
abbrev on : LogState
on = record off {
  initialized = true;
  log_file = some 0;
  files = record no_files {
    named = λ p. if same_path (b'a' ∷ []) p then some 0 else none;
    contents = λ _. message error false (b'o' ∷ []) ∷ [];
    handle = λ h. if h == 0 then some 0 else none;
    next_file = 1;
    next_handle = 1;
  };
}

abbrev messages : List (ℕ × List ℕ)
messages = (error, b'x' ∷ []) ∷ (debug, b'y' ∷ []) ∷ []

named : on.files.named (b'a' ∷ []) ≡ some 0
unfolding same_path
named = refl

abbrev failing : LogHost
failing = record host { opens = false }

directory : ensure_log_directory failing (b'b' ∷ []) ≡ ok
unfolding ensure_log_directory strrchr
directory = refl

short : leb 256 (length (b'b' ∷ [])) ≡ false
unfolding length
short = refl

log-set_log_file_fails_example :
    let (r, s') = rdma_intercept_set_log_file failing (some (b'b' ∷ [])) on in
    (r ≡ fail) × ((rdma_intercept_log error (b'x' ∷ []) s').files.fault ≡ true)
log-set_log_file_fails_example =
    log-set_log_file_fails failing (b'b' ∷ []) on 0 error (b'x' ∷ []) (refl, refl) refl refl refl
      short directory refl
