-- ===== src/Log/Stdio.antt =====
-- The files of the C library that src/logger.c writes to: names, handles and lines.
use mtrdma_artifact.Common.{
  ℕ, ◌+◌, Bool, true, false, not, ◌&&◌, Option, none, some, List, [], ◌∷◌, ◌++◌, if◌then◌else◌,
  ◌==◌, update,
}

-- A line of the log, without the time and the process; `event` is the creation of a queue pair, and
-- `notice` a line that the start and the end write.
pub data Line : Type 0 where
  message : ℕ → Bool → List ℕ → Line
  event : List ℕ → Line
  notice : ℕ → Line

-- Names of files, their lines in the order of writing, and the files behind the open handles. `fault`
-- is set by a use of a handle that is not open, which is undefined in C.
pub record Files : Type 0 where
  pub named : List ℕ → Option ℕ
  pub contents : ℕ → List Line
  pub handle : ℕ → Option ℕ
  pub next_file : ℕ
  pub next_handle : ℕ
  pub fault : Bool

unfoldable pub same_path : List ℕ → List ℕ → Bool
same_path [] [] = true
same_path [] (y ∷ ys) = false
same_path (x ∷ xs) [] = false
same_path (x ∷ xs) (y ∷ ys) = (x == y) && same_path xs ys

unfoldable pub set_name : List ℕ → Option ℕ → (List ℕ → Option ℕ) → List ℕ → Option ℕ
unfolding same_path
set_name path file names p = if same_path path p then file else names p

-- A new handle on a file.
unfoldable pub open_file : ℕ → Files → Option ℕ × Files
open_file file f = (
  some f.next_handle,
  record f { handle = update f.handle f.next_handle (some file); next_handle = f.next_handle + 1 },
)

-- A new file with that name.
unfoldable pub create_file : List ℕ → Files → Files
unfolding set_name
create_file path f = record f {
  named = set_name path (some f.next_file) f.named;
  contents = update f.contents f.next_file [];
  next_file = f.next_file + 1;
}

-- `fopen(path, "a")`, which is answered with null if not `opens`.
unfoldable pub fopen : Bool → List ℕ → Files → Option ℕ × Files
unfolding open_file create_file
fopen opens path f = if not opens then (none, f) else elim (f.named path) [
  | some file ↦ open_file file f
  | none ↦ open_file f.next_file (create_file path f)
]

unfoldable pub fclose : ℕ → Files → Files
fclose h f = elim (f.handle h) [
  | none ↦ record f { fault = true }
  | some file ↦ record f { handle = update f.handle h none }
]

unfoldable pub fprintf : ℕ → Line → Files → Files
fprintf h line f = elim (f.handle h) [
  | none ↦ record f { fault = true }
  | some file ↦ record f { contents = update f.contents file (f.contents file ++ line ∷ []) }
]

-- A file that is not there is not renamed.
unfoldable pub rename : List ℕ → List ℕ → Files → Files
unfolding set_name
rename old new f = elim (f.named old) [
  | none ↦ f
  | some file ↦ record f { named = set_name new (some file) (set_name old none f.named) }
]
