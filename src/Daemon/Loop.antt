-- ===== src/Daemon/Loop.antt =====
-- src/tenant_manager_daemon.c: the command line, the socket, the signals and the loop.
use mtrdma_artifact.Common.{
  ◌||◌, ℕ, Bool, true, false, not, ◌&&◌, Option, none, some, List, [], ◌∷◌, ◌++◌, Status, ok, fail,
  Os, if◌then◌else◌,
}
use mtrdma_artifact.Common.CString.{streq}
use mtrdma_artifact.Json.{JsonC}
use mtrdma_artifact.Tenant.State.{TenantState, tenant_shm_init}
use mtrdma_artifact.Daemon.Response.{handle_client}

-- The two files that the daemon makes: the socket's, and the one with the number of the process.
pub record DaemonFiles : Type 0 where
  pub socket : Bool
  pub pid : Option ℕ

-- `running` and `server_fd` (`none` is -1), the tenants, and the answers sent to clients. `fault` is set
-- by an FD_SET of -1, `killed` when the process is ended by a signal of its own making.
pub record Server (Text : Type 0) : Type 0 where
  pub running : Bool
  pub server_fd : Option ℕ
  pub tenants : TenantState
  pub sent : List Text
  pub fault : Bool
  pub killed : Bool

-- What `select` returns: -1 with and without EINTR, 0, or 1 with what `accept` then gives: no client, a
-- client that closes without having sent, or a client with its text, which stays, has gone before the
-- newline behind its answer is sent, or has gone before the answer is.
pub data Selected (Text : Type 0) : Type 0 where
  failed interrupted timed_out no_client silent_client : Selected Text
  client hasty_client gone_client : Os → Text → Selected Text

-- One turn of the loop, with whether SIGTERM or SIGINT comes before FD_SET, between `select` and
-- `accept`, and after these.
pub record Turn (Text : Type 0) : Type 0 where
  pub signal_first : Bool
  pub signal_selected : Bool
  pub signal_last : Bool
  pub selected : Selected Text

-- The result of `main`, or a death without the functions of `atexit`.
pub data Ending : Type 0 where
  exits : ℕ → Ending
  dies : Ending

-- SIGTERM or SIGINT: the loop is to end, and the socket is closed.
unfoldable pub signal_handler : {Text : Type 0} → Bool → Server Text → Server Text
signal_handler false s = s
signal_handler true s = record s { running = false; server_fd = none }

unfoldable pub set_server_fd : {Text : Type 0} → Option ℕ → Server Text → Server Text
set_server_fd none s = record s { fault = true }
set_server_fd (some fd) s = s

-- What the system answers at the start: to tenant_shm_init, `daemon`, `fopen` of the file for the number
-- of the process, `socket`, `bind` and `listen`.
pub record DaemonHost : Type 0 where
  pub os : Os
  pub pid : ℕ
  pub daemon : Bool
  pub opens : Bool
  pub socket : Option ℕ
  pub bind : Bool
  pub listen : Bool

unfoldable pub cleanup : DaemonFiles → DaemonFiles
cleanup files = record { socket = false; pid = none }

unfoldable pub write_pid_file : DaemonHost → DaemonFiles → Status × DaemonFiles
write_pid_file host files =
    if not host.opens then (fail, files) else (ok, record files { pid = some host.pid })

-- The file of an earlier socket is removed, `bind` makes it anew.
unfoldable pub create_server_socket : DaemonHost → DaemonFiles → Option ℕ × DaemonFiles
create_server_socket host files = elim host.socket [
  | none ↦ (none, files)
  | some fd ↦
      if not host.bind
      then (none, record files { socket = false })
      else if not host.listen
      then (none, record files { socket = true })
      else (some fd, record files { socket = true })
]

-- The options: whether to run as a daemon, and whether in the foreground; `none` after --help.
unfoldable pub options : List (List ℕ) → Bool → Bool → Option (Bool × Bool)
options [] daemon_mode foreground = some (daemon_mode, foreground)
options (arg ∷ args) daemon_mode foreground =
    let on_daemon = options args true foreground in
    let on_foreground = options args daemon_mode true in
    let other = options args daemon_mode foreground in
    if streq "--daemon" arg
    then on_daemon
    else if streq "--foreground" arg
    then on_foreground
    else if streq "--help" arg
    then none
    else other

-- `daemon` and its file, in the background only.
unfoldable pub detach : DaemonHost → Bool → DaemonFiles → Status × DaemonFiles
unfolding write_pid_file
detach host background files =
    if not background
    then (ok, files)
    else if not host.daemon
    then (fail, files)
    else write_pid_file host files

module _ (J : JsonC) (format_u : ℕ → List ℕ) where
  open J use {Text}

  -- The client's connection, from `accept` on; on a closed socket `accept` fails. To send to a client
  -- that has gone raises SIGPIPE, also when that is the newline.
  unfoldable pub accept_client : Selected Text → Server Text → Server Text
  unfolding handle_client
  accept_client (client os text) s = elim s.server_fd [
    | none ↦ s
    | some fd ↦ elim (handle_client J format_u os text s.tenants) [
      | none ↦ record s { killed = true }
      | some (answer, tenants) ↦ record s { tenants = tenants; sent = s.sent ++ answer ∷ [] }
    ]
  ]
  accept_client (hasty_client os text) s = elim s.server_fd [
    | none ↦ s
    | some fd ↦ elim (handle_client J format_u os text s.tenants) [
      | none ↦ record s { killed = true }
      | some (answer, tenants) ↦ record s {
        tenants = tenants;
        sent = s.sent ++ answer ∷ [];
        killed = true;
      }
    ]
  ]
  accept_client (gone_client os text) s = elim s.server_fd [
    | none ↦ s
    | some fd ↦ elim (handle_client J format_u os text s.tenants) [
      | none ↦ record s { killed = true }
      | some (answer, tenants) ↦ record s { tenants = tenants; killed = true }
    ]
  ]
  accept_client failed s = s
  accept_client interrupted s = s
  accept_client timed_out s = s
  accept_client no_client s = s
  accept_client silent_client s = s

  -- Whether `select` failed for another reason than a signal.
  unfoldable pub breaks : Selected Text → Bool
  breaks failed = true
  breaks interrupted = false
  breaks timed_out = false
  breaks no_client = false
  breaks silent_client = false
  breaks (client os text) = false
  breaks (hasty_client os text) = false
  breaks (gone_client os text) = false

  unfoldable pub turn : Turn Text → Server Text → Server Text
  unfolding accept_client signal_handler set_server_fd
  turn t s =
      let s1 = signal_handler t.signal_first s in
      let s2 = signal_handler t.signal_selected (set_server_fd s1.server_fd s1) in
      signal_handler t.signal_last (accept_client t.selected s2)

  -- `none` if the loop still runs after these turns.
  unfoldable pub main_loop : List (Turn Text) → Server Text → Option (Server Text)
  unfolding turn breaks
  main_loop [] s = if s.running then none else some s
  main_loop (t ∷ ts) s =
      let s' = turn t s in
      let rest = main_loop ts s' in
      if not s.running then some s else if s'.killed || breaks t.selected then some s' else rest

  -- How the process ends, what has become of the files, the tenants, and the answers.
  abbrev pub Outcome : Type 0
  Outcome = Ending × DaemonFiles × TenantState × List Text

  unfoldable pub outcome : DaemonFiles → Option (Server Text) → Option Outcome
  unfolding cleanup
  outcome files none = none
  outcome files (some s) =
      if s.killed
      then some (dies, files, s.tenants, s.sent)
      else some (exits 0, cleanup files, s.tenants, s.sent)

  -- From the creation of the socket on; `cleanup` is registered.
  unfoldable pub serve_on : List (Turn Text) → Option ℕ × DaemonFiles → TenantState → Option Outcome
  unfolding main_loop outcome cleanup
  serve_on turns (none, files) ts = some (exits 1, cleanup files, ts, [])
  serve_on turns (some fd, files) ts =
      let start : Server Text = record {
        running = true;
        server_fd = some fd;
        tenants = ts;
        sent = [];
        fault = false;
        killed = false;
      } in
      outcome files (main_loop turns start)

  unfoldable pub main :
      List (List ℕ) → DaemonHost → List (Turn Text) → DaemonFiles → TenantState → Option Outcome
  unfolding serve_on create_server_socket detach options
  main args host turns files ts = elim (options args false false) [
    | none ↦ some (exits 0, files, ts, [])
    | some (daemon_mode, foreground) ↦
        let (r, ts') = tenant_shm_init host.os ts in
        let (r', files') = detach host (daemon_mode && not foreground) files in
        elim r [
          | fail ↦ some (exits 1, files, ts', [])
          | ok ↦ elim r' [
            | fail ↦ some (exits 1, files', ts', [])
            | ok ↦ serve_on turns (create_server_socket host files') ts'
          ]
        ]
  ]
