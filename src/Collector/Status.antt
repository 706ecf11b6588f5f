-- ===== src/Collector/Status.antt =====
-- src/collector_server_shm.c: whether a process is alive, by the state in /proc/[pid]/status.
use mtrdma_artifact.Common.{
  ℕ, zero, suc, Bool, true, false, ◌&&◌, ◌||◌, Option, none, some, List, [], ◌∷◌, if◌then◌else◌,
  ◌==◌,
}
use mtrdma_artifact.Common.CString.{fgets, drop}

-- `strncmp(line, prefix, strlen(prefix)) == 0`
unfoldable pub has_prefix : List ℕ → List ℕ → Bool
has_prefix [] line = true
has_prefix (c ∷ cs) [] = false
has_prefix (c ∷ cs) (x ∷ xs) = c == x && has_prefix cs xs

-- The loop over the text behind the colon: the first letter of a known state decides.
unfoldable pub alive_by_state : List ℕ → Bool
alive_by_state [] = false
alive_by_state (c ∷ cs) =
    let rest = alive_by_state cs in
    if c == b'Z' || c == b'X'
    then false
    else if c == b'S' || c == b'R' || c == b'D' || c == b'T'
    then true
    else rest

-- The loop over the lines; a file has no more lines than bytes.
unfoldable pub alive_by_lines : ℕ → List ℕ → Bool
unfolding has_prefix alive_by_state
alive_by_lines zero text = false
alive_by_lines (suc fuel) text = elim (fgets 256 text) [
  | none ↦ false
  | some (line, rest) ↦
      if has_prefix (b'S' ∷ b't' ∷ b'a' ∷ b't' ∷ b'e' ∷ b':' ∷ []) line
      then alive_by_state (drop 6 line)
      else alive_by_lines fuel rest
]

unfoldable pub length : List ℕ → ℕ
length [] = 0
length (x ∷ xs) = suc (length xs)

unfoldable pub alive_by_file : Option (List ℕ) → Bool
unfolding alive_by_lines length
alive_by_file none = false
alive_by_file (some text) = alive_by_lines (length text) text

unfoldable pub gc_is_process_really_alive : (ℕ → Option (List ℕ)) → ℕ → Bool
unfolding alive_by_file
gc_is_process_really_alive status pid = alive_by_file (status pid)
