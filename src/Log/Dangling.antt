-- ===== src/Log/Dangling.antt =====
-- src/logger.c: the handle that a failed change of the log file leaves.
use mtrdma_artifact.Common.{
  ℕ, ◌≡◌, refl, is_none, true, false, none, some, List, ok, fail, arith, ltb, leb,
}
use mtrdma_artifact.Config.Text.{length}
use mtrdma_artifact.Log.Stdio.{Files, fopen, fclose, fprintf}
use mtrdma_artifact.Log.{
  LogState, LogHost, max_config_file_path, write_line, rdma_intercept_log, ensure_log_directory,
  close_old, use_new_file, rdma_intercept_set_log_file,
}
use mtrdma_artifact.Log.Safety.{IsSound}

-- The old file is closed, and the field still names it.
closed_file :
    (host : LogHost) (path : List ℕ) (s : LogState) (h : ℕ)
    → s.log_file ≡ some h
    → host.opens ≡ false
    → leb max_config_file_path (length path) ≡ false
    → ensure_log_directory host path ≡ ok
    → rdma_intercept_set_log_file host (some path) s ≡ (fail, record s { files = fclose h s.files })
unfolding rdma_intercept_set_log_file use_new_file fopen close_old
closed_file host path s h file fails short directory = ground (arith, file, fails, short, directory)

closed_handle : (h : ℕ) (f : Files) → is_none (f.handle h) ≡ false → (fclose h f).handle h ≡ none
unfolding fclose
closed_handle h f opened = ground arith

written_closed :
    (level : ℕ) (text : List ℕ) (s : LogState) (h : ℕ)
    → s.initialized ≡ true
    → s.log_file ≡ some h
    → s.files.handle h ≡ none
    → ltb level s.config.log_level ≡ false
    → (rdma_intercept_log level text s).files.fault ≡ true
unfolding rdma_intercept_log write_line fprintf
written_closed level text s h on file closed high = ground (arith, on, file, closed, high)

-- While the log is on and its file open: if the new file of `rdma_intercept_set_log_file` does not open,
-- with a path that fits and its directory there, then the call fails, and the next message of at least
-- the level of the configuration is written to the closed file.
pub log-set_log_file_fails :
    (host : LogHost) (path : List ℕ) (s : LogState) (h level : ℕ) (text : List ℕ)
    → IsSound s
    → s.initialized ≡ true
    → s.log_file ≡ some h
    → host.opens ≡ false
    → leb max_config_file_path (length path) ≡ false
    → ensure_log_directory host path ≡ ok
    → ltb level s.config.log_level ≡ false
    → let (r, s') = rdma_intercept_set_log_file host (some path) s in
      (r ≡ fail) × ((rdma_intercept_log level text s').files.fault ≡ true)
log-set_log_file_fails host path s h level text sound on file fails short directory high =
    let s' : LogState = record s { files = fclose h s.files } in
    let opened : is_none (s.files.handle h) ≡ false = ground (arith, sound, file) in
    rw (closed_file host path s h file fails short directory)
      (refl, written_closed level text s' h on file (closed_handle h s.files opened) high)
