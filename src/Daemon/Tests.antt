-- ===== src/Daemon/Tests.antt =====
-- src/tenant_manager_daemon.c: the theorems at concrete commands.
use mtrdma_artifact.Common.{
  ℕ, ◌≡◌, refl, true, false, none, some, List, [], ◌∷◌, ◌++◌, Os, ok, ◌&&◌, not,
}
use mtrdma_artifact.Common.CString.{codes, streq}
use mtrdma_artifact.Tenant.State.{TenantState, zero_shm, active}
use mtrdma_artifact.Tenant.State.Invariant.{IsValid, zero-IsConsistent}
use mtrdma_artifact.Daemon.{Request}
use mtrdma_artifact.Daemon.Serve.{serve, serve-IsValid}
use mtrdma_artifact.Daemon.Live.{update_command}
use mtrdma_artifact.Json.Tree.{tree, null}
use mtrdma_artifact.Daemon.Response.{has_null_cmd}
use mtrdma_artifact.Tenant.State.{tenant_shm_init}
use mtrdma_artifact.Daemon.Loop.{
  Selected, timed_out, client, dies, breaks, DaemonHost, DaemonFiles, main, options, detach,
  write_pid_file,
}
use mtrdma_artifact.Daemon.Lifetime.{quiet_then, stopped, IsCalm, answers, main-answers}

abbrev os : Os
os = record { shm_open = true; ftruncate = true; mmap = true; fstat = true; time = λ k. k }

abbrev fresh : TenantState
fresh = record { attached = true; shm = zero_shm }

abbrev create_command : Request
create_command = record {
  cmd = some (codes "CREATE");
  tenant = some 20;
  name = none;
  qp = some 10;
  mr = none;
  memory = none;
}

fresh-IsValid : IsValid fresh.shm
fresh-IsValid = record { consistent = zero-IsConsistent; free = refl }

serve-IsValid_example :
    IsValid
      (serve
        ((os, some create_command) ∷ (os, none) ∷ (os, some (update_command 20 50 none none)) ∷ [])
        fresh).shm
serve-IsValid_example =
    serve-IsValid
      ((os, some create_command) ∷ (os, none) ∷ (os, some (update_command 20 50 none none)) ∷ [])
      fresh fresh-IsValid

-- Every tenant exists.
abbrev one_tenant : TenantState
one_tenant = record {
  attached = true;
  shm = record zero_shm { tenants = λ i. record (zero_shm.tenants i) { status = active } };
}

-- A daemon in the background, two clients, and one whose command is null in the last turn.
abbrev daemon_host : DaemonHost
daemon_host = record {
  os = os;
  pid = 900;
  daemon = true;
  opens = true;
  socket = some 4;
  bind = true;
  listen = true;
}

abbrev no_files : DaemonFiles
no_files = record { socket = false; pid = none }

abbrev format_u : ℕ → List ℕ
format_u n = n ∷ []

-- The value null.
null_value : tree.Value
unfolding tree
null_value = null

abbrev a_command : tree.Value → Selected tree.Text
a_command word = client os (tree.to_json_string (tree.object_add tree.new_object "cmd" word))

abbrev events : List (Selected tree.Text)
events =
    timed_out
    ∷ a_command (tree.new_string (codes "LIST_TENANTS"))
    ∷ a_command (tree.new_string (codes "QUIT"))
    ∷ []

background : options (codes "--daemon" ∷ []) false false ≡ some (true, false)
unfolding options streq
background = refl

detached : (detach daemon_host (true && not false) no_files).0 ≡ ok
unfolding detach write_pid_file
detached = refl

mapped : (tenant_shm_init os fresh).0 ≡ ok
unfolding tenant_shm_init
mapped = refl

calm : IsCalm tree format_u events
unfolding breaks has_null_cmd tree
calm = ((refl, refl, (refl, refl, (refl, refl, tt))))

main-answers_example :
    let (texts, ts) =
      answers tree format_u (events ++ a_command null_value ∷ []) (tenant_shm_init os fresh).1 in
    main tree format_u
      (codes "--daemon" ∷ [])
      daemon_host
      (quiet_then tree format_u events (stopped tree format_u (a_command null_value) ∷ []))
      no_files
      fresh
    ≡ some (dies, record { socket = true; pid = some 900 }, ts, texts)
unfolding detach write_pid_file has_null_cmd tree null_value
main-answers_example =
    main-answers tree format_u (codes "--daemon" ∷ []) daemon_host true false 4 events
      (a_command null_value) [] no_files fresh background mapped detached refl refl refl calm
