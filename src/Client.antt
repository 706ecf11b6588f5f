-- ===== src/Client.antt =====
-- src/tenant_manager_client.c: the command line, the command that is sent, and what is printed.
pub mod Print
pub mod Asked
pub mod Shown
pub mod Session
pub mod Live
mod Tests
use mtrdma_artifact.Common.{
  ℕ, zero, suc, ◌-◌, ◌%◌, Bool, true, false, ◌||◌, Option, none, some, List, [], ◌∷◌, if◌then◌else◌,
  u32_mod, u64_mod,
}
use mtrdma_artifact.Common.CString.{codes, streq}
use mtrdma_artifact.Config.Text.{strtol}
use mtrdma_artifact.Json.{JsonC}

-- A number as two's complement with `m` values.
abbrev pub wrapped : ℕ → Bool × ℕ → ℕ
wrapped m (false, n) = n % m
wrapped m (true, n) = (m - n % m) % m

unfoldable pub atoi : List ℕ → ℕ
atoi text = wrapped u32_mod (strtol text)

unfoldable pub atoll : List ℕ → ℕ
atoll text = wrapped u64_mod (strtol text)

-- The argument at this place behind the numbers, or a default.
abbrev pub memory_of : List (List ℕ) → ℕ
memory_of [] = 1073741824
memory_of (memory ∷ rest) = atoll memory

abbrev pub name_of : List (List ℕ) → List ℕ
name_of [] = codes "unnamed"
name_of (memory ∷ []) = codes "unnamed"
name_of (memory ∷ name ∷ rest) = name

module _ (J : JsonC) where
  open J use {Value, new_object, new_string, new_int, new_int64, object_add}

  abbrev pub new_command : List ℕ → Value
  new_command cmd = object_add new_object "cmd" (new_string cmd)

  -- The arguments behind the word of the command; `none` is a usage error.
  unfoldable pub build_create_cmd : List (List ℕ) → Option Value
  build_create_cmd (id ∷ qp ∷ mr ∷ rest) =
      let cmd = object_add (new_command (codes "CREATE")) "tenant" (new_int (atoi id)) in
      let named = object_add cmd "name" (new_string (name_of rest)) in
      let counted =
        object_add (object_add named "qp" (new_int (atoi qp))) "mr" (new_int (atoi mr)) in
      some (object_add counted "memory" (new_int64 (memory_of rest)))
  build_create_cmd (id ∷ qp ∷ []) = none
  build_create_cmd (id ∷ []) = none
  build_create_cmd [] = none

  unfoldable pub build_delete_cmd : List (List ℕ) → Option Value
  build_delete_cmd [] = none
  build_delete_cmd (id ∷ rest) =
      some (object_add (new_command (codes "DELETE")) "tenant" (new_int (atoi id)))

  unfoldable pub build_update_cmd : List (List ℕ) → Option Value
  build_update_cmd (id ∷ qp ∷ mr ∷ rest) =
      let cmd = object_add (new_command (codes "UPDATE_QUOTA")) "tenant" (new_int (atoi id)) in
      let counted = object_add (object_add cmd "qp" (new_int (atoi qp))) "mr" (new_int (atoi mr)) in
      some (object_add counted "memory" (new_int64 (memory_of rest)))
  build_update_cmd (id ∷ qp ∷ []) = none
  build_update_cmd (id ∷ []) = none
  build_update_cmd [] = none

  unfoldable pub build_status_cmd : List (List ℕ) → Option Value
  build_status_cmd [] = some (new_command (codes "STATUS"))
  build_status_cmd (id ∷ rest) =
      some (object_add (new_command (codes "STATUS")) "tenant" (new_int (atoi id)))

  unfoldable pub build_list_cmd : Option Value
  build_list_cmd = some (new_command (codes "LIST_TENANTS"))

  -- The chain of `strcmp`s; `none` is an exit with 1.
  unfoldable pub command_of : List ℕ → List (List ℕ) → Option Value
  unfolding build_create_cmd build_delete_cmd build_update_cmd build_status_cmd build_list_cmd
  command_of word args =
      if streq "create" word
      then build_create_cmd args
      else if streq "delete" word
      then build_delete_cmd args
      else if streq "update" word || streq "set-quota" word
      then build_update_cmd args
      else if streq "status" word
      then build_status_cmd args
      else if streq "list" word
      then build_list_cmd
      else none
