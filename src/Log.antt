-- ===== src/Log.antt =====
-- src/logger.c, with the log file that src/intercept_core.c opens and closes.
pub mod Stdio
pub mod Start
pub mod Safety
pub mod Life
pub mod Dangling
pub mod Filter
pub mod Rotate
mod Tests
use mtrdma_artifact.Common.{
  ℕ, zero, suc, ◌+◌, Bool, true, false, not, ◌&&◌, ◌||◌, Option, none, some, List, [], ◌∷◌, ◌++◌,
  Status, ok, fail, if◌then◌else◌, ◌==◌, ltb, leb,
}
use mtrdma_artifact.Common.CString.{take, strrchr}
use mtrdma_artifact.Config.{FullConfig, rdma_intercept_set_config}
use mtrdma_artifact.Config.Text.{length}
use Stdio.{Line, message, event, Files, fopen, fclose, fprintf, rename}

abbrev pub debug : ℕ
debug = 0

abbrev pub info : ℕ
info = 1

abbrev pub error : ℕ
error = 3

abbrev pub fatal : ℕ
fatal = 4

abbrev pub max_log_buffer_size : ℕ
max_log_buffer_size = 4096

abbrev pub max_config_file_path : ℕ
max_config_file_path = 256

-- The fields of `g_intercept_state` that the log uses, and the files of the process.
pub record LogState : Type 0 where
  pub initialized : Bool
  pub config : FullConfig
  pub log_file : Option ℕ
  pub files : Files

-- What the system answers during one call: `stat` and `mkdir` of the directory (the latter also if it
-- has come to be there), `fopen`, and the time as the suffix of a backup file.
pub record LogHost : Type 0 where
  pub stat : Bool
  pub mkdir : Bool
  pub opens : Bool
  pub suffix : List ℕ

-- A write to the log file, if there is one.
unfoldable pub write_line : Line → LogState → LogState
write_line line s = elim (s.log_file) [
  | none ↦ s
  | some file ↦ record s { files = fprintf file line s.files }
]

-- `snprintf` to the buffer.
abbrev pub buffered : List ℕ → List ℕ
buffered text = take 4095 text

abbrev pub is_ignored : ℕ → LogState → Bool
is_ignored level s = not s.initialized || ltb level s.config.log_level

unfoldable pub rdma_intercept_log : ℕ → List ℕ → LogState → LogState
unfolding write_line
rdma_intercept_log level text s =
    if is_ignored level s then s else write_line (message level false (buffered text)) s

-- With the place in the source when the level is DEBUG.
unfoldable pub rdma_intercept_log_internal : ℕ → List ℕ → LogState → LogState
unfolding write_line
rdma_intercept_log_internal level text s =
    if is_ignored level s
    then s
    else write_line (message level (leb s.config.log_level debug) (buffered text)) s

-- The numbers of the event, which are all written; a null pointer is `none`.
unfoldable pub rdma_intercept_log_qp_creation : Option (List ℕ) → LogState → LogState
unfolding write_line
rdma_intercept_log_qp_creation none s = s
rdma_intercept_log_qp_creation (some qp) s =
    if not s.initialized || not s.config.log_qp_creation then s else write_line (event qp) s

-- The texts of the messages that the file itself logs stand for what they say.
abbrev pub level_changed : ℕ → List ℕ
level_changed level = level ∷ []

unfoldable pub rdma_intercept_set_log_level : ℕ → LogState → Status × LogState
unfolding rdma_intercept_log
rdma_intercept_set_log_level level s = if ltb fatal level then (fail, s) else (
  ok,
  rdma_intercept_log info (level_changed level)
      (record s { config = record (s.config) { log_level = level } }),
)

pub rdma_intercept_get_log_level : LogState → ℕ
rdma_intercept_get_log_level s = s.config.log_level

-- A path without a slash, or with the only one at its start, needs no directory.
unfoldable pub ensure_log_directory : LogHost → List ℕ → Status
ensure_log_directory host log_path =
    let dir_path = take 255 log_path in
    elim (strrchr b'/' dir_path) [
      | none ↦ ok
      | some last_slash ↦
          if length last_slash == length dir_path
          then ok
          else if host.stat
          then ok
          else if host.mkdir
          then ok
          else fail
    ]

-- `if (g_intercept_state.log_file) fclose(g_intercept_state.log_file)`; the field keeps its value.
unfoldable pub close_old : LogState → LogState
close_old s = elim (s.log_file) [ none ↦ s | some file ↦ record s { files = fclose file s.files } ]

-- What follows `fopen`, under the mutex.
unfoldable pub use_new_file : List ℕ → Option ℕ × Files → LogState → Status × LogState
unfolding rdma_intercept_log
use_new_file path (none, files) s = (fail, record s { files = files })
use_new_file path (some file, files) s = (
  ok,
  rdma_intercept_log info path (record s {
    config = record (s.config) { log_file_path = path };
    log_file = some file;
    files = files;
  }),
)

unfoldable pub rdma_intercept_set_log_file :
    LogHost → Option (List ℕ) → LogState → Status × LogState
unfolding ensure_log_directory close_old use_new_file
rdma_intercept_set_log_file host none s = (fail, s)
rdma_intercept_set_log_file host (some path) s =
    if leb max_config_file_path (length path)
    then (fail, s)
    else elim (ensure_log_directory host path) [
      | fail ↦ (fail, s)
      | ok ↦ let s' = close_old s in use_new_file path (fopen host.opens path s'.files) s'
    ]

-- The result of opening the new file at `path`; when that fails the file is renamed back.
unfoldable pub use_rotated : List ℕ → List ℕ → Option ℕ × Files → LogState → Status × LogState
unfolding rdma_intercept_log
use_rotated path backup_path (none, files) s =
    (fail, record s { files = rename backup_path path files })
use_rotated path backup_path (some file, files) s =
    (ok, rdma_intercept_log info backup_path (record s { log_file = some file; files = files }))

abbrev pub is_empty : List ℕ → Bool
is_empty [] = true
is_empty (x ∷ xs) = false

-- By the log file.
unfoldable pub rotate_from : LogHost → Option ℕ → LogState → Status × LogState
unfolding use_rotated
rotate_from host none s = (fail, s)
rotate_from host (some file) s =
    let path = s.config.log_file_path in
    let backup_path = path ++ host.suffix in
    if is_empty path
    then (fail, s)
    else use_rotated path backup_path
        (fopen host.opens path (rename path backup_path (fclose file s.files))) s

unfoldable pub rdma_intercept_rotate_log : LogHost → LogState → Status × LogState
unfolding rotate_from
rdma_intercept_rotate_log host s = rotate_from host s.log_file s

-- What src/config.c's `rdma_intercept_set_config` does once the configuration was let through.
unfoldable pub apply_config : LogHost → List ℕ → Status × FullConfig → LogState → Status × LogState
unfolding rdma_intercept_log rdma_intercept_set_log_file
apply_config host path (fail, config) s = (fail, s)
apply_config host path (ok, config) s =
    let s' : LogState = record s { config = config } in
    (
      ok,
      rdma_intercept_log info []
          (if is_empty path then s' else (rdma_intercept_set_log_file host (some path) s').1),
    )

unfoldable pub set_config_and_file : LogHost → FullConfig → LogState → Status × LogState
unfolding apply_config
set_config_and_file host new s =
    apply_config host new.log_file_path (rdma_intercept_set_config (some new) s.config) s

-- The statics of the statistics.
pub record LogStats : Type 0 where
  pub message_count : ℕ
  pub err_count : ℕ
  pub wrn_count : ℕ
  pub log_start_time : ℕ

-- The four out parameters are the statics as they are then.
pub rdma_intercept_get_log_stats : ℕ → LogStats → LogStats
rdma_intercept_get_log_stats now s =
    if s.log_start_time == 0 then record s { log_start_time = now } else s
