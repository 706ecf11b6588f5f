-- ===== src/Shm/ProcStat.antt =====
-- src/shm/shared_memory.c, `shm_read_proc_start_time`: field 22 of /proc/[pid]/stat.
use mtrdma_artifact.Common.{ℕ, Option, none, some, List}
use mtrdma_artifact.Common.CString.{fgets, strrchr, drop, strtok, skip_tokens, strtoull}

-- From the text behind the last `)`: the token after the first twenty.
pub start_time_field : List ℕ → ℕ
start_time_field line = elim (strrchr b')' line) [
  | none ↦ 0
  | some p ↦ elim (skip_tokens 20 (drop 2 p)) [
    | none ↦ 0
    | some rest ↦ elim (strtok rest) [ none ↦ 0 | some (tok, _) ↦ strtoull tok ]
  ]
]

-- `stat pid` is the file's contents, `none` where it cannot be opened; 0 is a failure.
unfoldable pub shm_read_proc_start_time : (ℕ → Option (List ℕ)) → ℕ → ℕ
unfolding start_time_field
shm_read_proc_start_time stat pid = elim (stat pid) [
  | none ↦ 0
  | some content ↦ elim (fgets 1024 content) [ none ↦ 0 | some (line, _) ↦ start_time_field line ]
]
