-- ===== src/Log/Start.antt =====
-- src/intercept_core.c: the start and the end of the interception.
use mtrdma_artifact.Common.{
  ℕ, Bool, true, false, not, ◌||◌, Option, none, some, List, [], ◌∷◌, Status, ok, fail,
  if◌then◌else◌, ◌==◌,
}
use mtrdma_artifact.Config.Load.{Sources, rdma_intercept_load_config}
use mtrdma_artifact.Log.Stdio.{Files, fopen, fclose, fprintf, notice}
use mtrdma_artifact.Log.{LogState, write_line}

-- What `rdma_intercept_load_config` reads, and whether the log file and the library can be opened and
-- its symbols are found. `ibv_create_qp_ex` may be missing.
pub record StartHost : Type 0 where
  pub sources : Sources
  pub opens : Bool
  pub libibverbs : Bool
  pub ibv_create_qp : Bool
  pub ibv_reg_mr : Bool
  pub ibv_dereg_mr : Bool

-- What is written between the last symbol and the return.
unfoldable pub write_start : LogState → LogState
unfolding write_line
write_start s =
    let s1 = write_line (notice 0) s in
    let s2 = write_line (notice 1) s1 in
    let s3 = write_line (notice 2) s2 in
    let s4 = write_line (notice 3) s3 in record (write_line (notice 4) s4) { initialized = true }

-- With the log file open: the symbols, in order. A failure closes the file, and `log_file` keeps the
-- closed handle.
unfoldable pub resolve : StartHost → ℕ → LogState → Status × LogState
unfolding write_start
resolve host file s =
    let failed : Status × LogState = (fail, record s { files = fclose file s.files }) in
    if not host.libibverbs
    then failed
    else if not host.ibv_create_qp
    then failed
    else if not host.ibv_reg_mr
    then failed
    else if not host.ibv_dereg_mr
    then failed
    else (ok, write_start s)

unfoldable pub open_log : StartHost → Option ℕ × Files → LogState → Status × LogState
unfolding resolve
open_log host (none, files) s = (fail, record s { log_file = none; files = files })
open_log host (some file, files) s =
    resolve host file (record s { log_file = some file; files = files })

unfoldable pub rdma_intercept_init : StartHost → LogState → Status × LogState
unfolding open_log
rdma_intercept_init host s =
    if s.initialized
    then (ok, s)
    else let config = rdma_intercept_load_config host.sources s.config in
      open_log host (fopen host.opens config.log_file_path s.files) (record s { config = config })

-- The two variables that start the interception, `none` where one is not set.
pub is_one : Option (List ℕ) → Bool
is_one none = false
is_one (some []) = false
is_one (some (x ∷ [])) = x == b'1'
is_one (some (x ∷ y ∷ ys)) = false

unfoldable pub init_if_needed : StartHost → Option (List ℕ) → Option (List ℕ) → LogState → LogState
unfolding is_one
init_if_needed host enable_var qp_ctrl_var s =
    if is_one enable_var || is_one qp_ctrl_var then (rdma_intercept_init host s).1 else s

unfoldable pub close_log : Option ℕ → LogState → LogState
close_log none s = s
close_log (some file) s = record s {
  log_file = none;
  files = fclose file (fprintf file (notice 5) s.files);
}

unfoldable pub rdma_intercept_cleanup : LogState → LogState
unfolding close_log
rdma_intercept_cleanup s =
    if not s.initialized then s else record (close_log s.log_file s) { initialized = false }
