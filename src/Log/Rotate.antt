-- ===== src/Log/Rotate.antt =====
-- src/logger.c: what a rotation leaves, and the handle that a failed one leaves.
use mtrdma_artifact.Common.{ℕ, none, some, List, update}
use mtrdma_artifact.Log.Stdio.{Files, set_name, open_file, create_file}
use mtrdma_artifact.Log.{LogState}

-- The files after a rotation of the file at `path`, before anything is written.
abbrev swapped : List ℕ → List ℕ → ℕ → ℕ → Files → Files
swapped path backup_path h file f = record f {
  handle = update f.handle h none;
  named = set_name backup_path (some file) (set_name path none f.named);
}

-- The state with the new file, before the message of the rotation.
abbrev rotated : List ℕ → List ℕ → ℕ → ℕ → LogState → LogState
rotated path backup_path h file s = record s {
  log_file = some s.files.next_handle;
  files =
      (open_file s.files.next_file (create_file path (swapped path backup_path h file s.files))).1;
}
