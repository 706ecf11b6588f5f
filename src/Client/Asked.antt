-- ===== src/Client/Asked.antt =====
-- src/tenant_manager_client.c: what a command line asks for, without JSON.
use mtrdma_artifact.Common.{
  ℕ, ◌≡◌, refl, ◌||◌, false, Option, none, some, List, [], ◌∷◌, if◌then◌else◌, arith,
}
use mtrdma_artifact.Common.CString.{codes, streq}
use mtrdma_artifact.Json.{JsonC, IsLawful}
use mtrdma_artifact.Json.Rules.{reading}
use mtrdma_artifact.Daemon.{Request}
use mtrdma_artifact.Daemon.Response.{map_option, string_of, has_null_cmd, request_of}
use mtrdma_artifact.Client.{
  atoi, memory_of, name_of, build_create_cmd, build_delete_cmd, build_update_cmd, build_status_cmd,
  build_list_cmd, command_of,
}

abbrev pub no_request : List ℕ → Request
no_request cmd = record {
  cmd = some cmd;
  tenant = none;
  name = none;
  qp = none;
  mr = none;
  memory = none;
}

abbrev pub quota_request : List ℕ → List ℕ → List ℕ → List ℕ → List (List ℕ) → Request
quota_request cmd id qp mr rest = record (no_request cmd) {
  tenant = some (atoi id);
  qp = some (atoi qp);
  mr = some (atoi mr);
  memory = some (memory_of rest);
}

abbrev pub create_request : List (List ℕ) → Option Request
create_request (id ∷ qp ∷ mr ∷ rest) =
    some
      (record (quota_request (codes "CREATE") id qp mr rest) { name = some (some (name_of rest)) })
create_request (id ∷ qp ∷ []) = none
create_request (id ∷ []) = none
create_request [] = none

abbrev pub update_request : List (List ℕ) → Option Request
update_request (id ∷ qp ∷ mr ∷ rest) = some (quota_request (codes "UPDATE_QUOTA") id qp mr rest)
update_request (id ∷ qp ∷ []) = none
update_request (id ∷ []) = none
update_request [] = none

abbrev pub delete_request : List (List ℕ) → Option Request
delete_request [] = none
delete_request (id ∷ rest) = some (record (no_request (codes "DELETE")) { tenant = some (atoi id) })

abbrev pub status_request : List (List ℕ) → Option Request
status_request [] = some (no_request (codes "STATUS"))
status_request (id ∷ rest) = some (record (no_request (codes "STATUS")) { tenant = some (atoi id) })

unfoldable pub requested : List ℕ → List (List ℕ) → Option Request
requested word args =
    if streq "create" word
    then create_request args
    else if streq "delete" word
    then delete_request args
    else if streq "update" word || streq "set-quota" word
    then update_request args
    else if streq "status" word
    then status_request args
    else if streq "list" word
    then some (no_request (codes "LIST_TENANTS"))
    else none

module _ (J : JsonC) ⦃L : IsLawful J⦄ where
  create_lem :
      (args : List (List ℕ))
      → map_option (request_of J) (build_create_cmd J args) ≡ create_request args
  unfolding request_of string_of build_create_cmd
  create_lem [] = refl
  create_lem (id ∷ []) = refl
  create_lem (id ∷ n ∷ []) = refl
  create_lem (id ∷ n ∷ m ∷ rest) = simp reading

  delete_lem :
      (args : List (List ℕ))
      → map_option (request_of J) (build_delete_cmd J args) ≡ delete_request args
  unfolding request_of build_delete_cmd
  delete_lem [] = refl
  delete_lem (id ∷ rest) = simp reading

  update_lem :
      (args : List (List ℕ))
      → map_option (request_of J) (build_update_cmd J args) ≡ update_request args
  unfolding request_of build_update_cmd
  update_lem [] = refl
  update_lem (id ∷ []) = refl
  update_lem (id ∷ n ∷ []) = refl
  update_lem (id ∷ n ∷ m ∷ rest) = simp reading

  status_lem :
      (args : List (List ℕ))
      → map_option (request_of J) (build_status_cmd J args) ≡ status_request args
  unfolding request_of build_status_cmd
  status_lem [] = simp reading
  status_lem (id ∷ rest) = simp reading

  list_lem : map_option (request_of J) (build_list_cmd J) ≡ some (no_request (codes "LIST_TENANTS"))
  unfolding request_of build_list_cmd
  list_lem = simp reading

  -- The daemon reads in the command that the client builds what the command line asks for.
  pub request-command :
      (word : List ℕ) (args : List (List ℕ))
      → map_option (request_of J) (command_of J word args) ≡ requested word args
  unfolding command_of requested
  request-command word args =
      ground (arith, create_lem args, delete_lem args, update_lem args, status_lem args, list_lem)

  create_null : (args : List (List ℕ)) → has_null_cmd J (build_create_cmd J args) ≡ false
  unfolding has_null_cmd build_create_cmd
  create_null [] = refl
  create_null (id ∷ []) = refl
  create_null (id ∷ n ∷ []) = refl
  create_null (id ∷ n ∷ m ∷ rest) = simp reading

  delete_null : (args : List (List ℕ)) → has_null_cmd J (build_delete_cmd J args) ≡ false
  unfolding has_null_cmd build_delete_cmd
  delete_null [] = refl
  delete_null (id ∷ rest) = simp reading

  update_null : (args : List (List ℕ)) → has_null_cmd J (build_update_cmd J args) ≡ false
  unfolding has_null_cmd build_update_cmd
  update_null [] = refl
  update_null (id ∷ []) = refl
  update_null (id ∷ n ∷ []) = refl
  update_null (id ∷ n ∷ m ∷ rest) = simp reading

  status_null : (args : List (List ℕ)) → has_null_cmd J (build_status_cmd J args) ≡ false
  unfolding has_null_cmd build_status_cmd
  status_null [] = simp reading
  status_null (id ∷ rest) = simp reading

  list_null : has_null_cmd J (build_list_cmd J) ≡ false
  unfolding has_null_cmd build_list_cmd
  list_null = simp reading

  no_command : has_null_cmd J none ≡ false
  unfolding has_null_cmd
  no_command = refl

  -- The client builds no command whose word is null.
  pub has_null-command :
      (word : List ℕ) (args : List (List ℕ)) → has_null_cmd J (command_of J word args) ≡ false
  unfolding command_of
  has_null-command word args = ground (
    arith,
    create_null args,
    delete_null args,
    update_null args,
    status_null args,
    list_null,
    no_command,
  )
