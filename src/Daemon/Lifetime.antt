-- ===== src/Daemon/Lifetime.antt =====
-- src/tenant_manager_daemon.c: the life of the daemon, from its command line to the signal that ends it.
use mathlib.Core.List.{append_assoc, append-nil}
use mtrdma_artifact.Common.{
  ◌||◌, Os, ℕ, ◌≡◌, refl, ◌∙◌, sym, ap, Bool, true, false, not, ◌&&◌, none, some, List, [], ◌∷◌,
  ◌++◌, ok, if◌then◌else◌, Bool-cases, inl, inr,
}
use mtrdma_artifact.Json.{JsonC}
use mtrdma_artifact.Tenant.State.{TenantState, tenant_shm_init}
use mtrdma_artifact.Daemon.Response.{handle_client, has_null_cmd, reply_to}
use mtrdma_artifact.Daemon.Loop.{
  Server, Selected, failed, interrupted, timed_out, no_client, silent_client, client, hasty_client,
  gone_client, exits, dies, Turn, DaemonHost, DaemonFiles, cleanup, options, detach,
  create_server_socket, signal_handler, set_server_fd, accept_client, breaks, turn, main_loop,
  outcome, serve_on, main,
}

module _ (J : JsonC) (format_u : ℕ → List ℕ) where
  open J use {Text}

  -- A turn without a signal, and the one whose signal comes last.
  abbrev pub quiet : Selected Text → Turn Text
  quiet e = record {
    signal_first = false;
    signal_selected = false;
    signal_last = false;
    selected = e;
  }

  abbrev pub stopped : Selected Text → Turn Text
  stopped e = record {
    signal_first = false;
    signal_selected = false;
    signal_last = true;
    selected = e;
  }

  abbrev pub quiet_then : List (Selected Text) → List (Turn Text) → List (Turn Text)
  quiet_then [] ts = ts
  quiet_then (e ∷ es) ts = quiet e ∷ quiet_then es ts

  -- The JSON in the text has a word of the command that is null.
  abbrev pub is_null_command : Text → Bool
  is_null_command text = has_null_cmd J (J.tokener_parse (J.cut 4095 text))

  -- The daemon does not outlive this client.
  abbrev pub kills : Selected Text → Bool
  kills (client os text) = is_null_command text
  kills (hasty_client os text) = true
  kills (gone_client os text) = true
  kills failed = false
  kills interrupted = false
  kills timed_out = false
  kills no_client = false
  kills silent_client = false

  -- `select` fails for no other reason than a signal, and no client ends the daemon.
  abbrev pub IsCalm : List (Selected Text) → Type 0
  IsCalm [] = Unit
  IsCalm (e ∷ es) = (breaks J format_u e ≡ false) × (kills e ≡ false) × IsCalm es

  -- The clients by themselves: what each is answered, in order, and the tenants behind them. A null
  -- command changes nothing, and one whose client has gone is carried out.
  abbrev pub answer : Selected Text → TenantState → List Text × TenantState
  answer (client os text) ts =
      let (a, ts') = reply_to J format_u os (J.tokener_parse (J.cut 4095 text)) ts in
      if is_null_command text then ([], ts) else (a ∷ [], ts')
  answer (hasty_client os text) ts =
      let (a, ts') = reply_to J format_u os (J.tokener_parse (J.cut 4095 text)) ts in
      if is_null_command text then ([], ts) else (a ∷ [], ts')
  answer (gone_client os text) ts =
      let ts' = (reply_to J format_u os (J.tokener_parse (J.cut 4095 text)) ts).1 in
      ([], if is_null_command text then ts else ts')
  answer failed ts = ([], ts)
  answer interrupted ts = ([], ts)
  answer timed_out ts = ([], ts)
  answer no_client ts = ([], ts)
  answer silent_client ts = ([], ts)

  abbrev pub answers : List (Selected Text) → TenantState → List Text × TenantState
  answers [] ts = ([], ts)
  answers (e ∷ es) ts =
      let (a, ts') = answer e ts in let (rest, ts'') = answers es ts' in (a ++ rest, ts'')

  abbrev listening : ℕ → TenantState → List Text → Bool → Server Text
  listening fd ts sent killed = record {
    running = true;
    server_fd = some fd;
    tenants = ts;
    sent = sent;
    fault = false;
    killed = killed;
  }

  abbrev closed : TenantState → List Text → Bool → Server Text
  closed ts sent killed = record {
    running = false;
    server_fd = none;
    tenants = ts;
    sent = sent;
    fault = false;
    killed = killed;
  }

  handle_client-null :
      (os : Os) (text : Text) (ts : TenantState)
      → is_null_command text ≡ true
      → handle_client J format_u os text ts ≡ none
  unfolding handle_client
  handle_client-null os text ts e = rw e refl

  handle_client-answered :
      (os : Os) (text : Text) (ts : TenantState)
      → is_null_command text ≡ false
      → handle_client J format_u os text ts
        ≡ some (reply_to J format_u os (J.tokener_parse (J.cut 4095 text)) ts)
  unfolding handle_client
  handle_client-answered os text ts e = rw e refl

  accept-answer :
      (e : Selected Text) (fd : ℕ) (ts : TenantState) (sent : List Text)
      → accept_client J format_u e (listening fd ts sent false)
        ≡ listening fd (answer e ts).1 (sent ++ (answer e ts).0) (kills e)
  unfolding accept_client
  accept-answer (client os text) fd ts sent = elim (Bool-cases (is_null_command text)) [
    | inl e ↦ rw (accept_client, handle_client-null os text ts e, e, append-nil sent) refl
    | inr e ↦ rw (accept_client, handle_client-answered os text ts e, e) refl
  ]
  accept-answer (hasty_client os text) fd ts sent = elim (Bool-cases (is_null_command text)) [
    | inl e ↦ rw (accept_client, handle_client-null os text ts e, e, append-nil sent) refl
    | inr e ↦ rw (accept_client, handle_client-answered os text ts e, e) refl
  ]
  accept-answer (gone_client os text) fd ts sent = elim (Bool-cases (is_null_command text)) [
    | inl e ↦ rw (accept_client, handle_client-null os text ts e, e, append-nil sent) refl
    | inr e ↦ rw (accept_client, handle_client-answered os text ts e, e, append-nil sent) refl
  ]
  accept-answer failed fd ts sent = rw (append-nil sent) refl
  accept-answer interrupted fd ts sent = rw (append-nil sent) refl
  accept-answer timed_out fd ts sent = rw (append-nil sent) refl
  accept-answer no_client fd ts sent = rw (append-nil sent) refl
  accept-answer silent_client fd ts sent = rw (append-nil sent) refl

  turn-quiet :
      (e : Selected Text) (fd : ℕ) (ts : TenantState) (sent : List Text)
      → turn J format_u (quiet e) (listening fd ts sent false)
        ≡ listening fd (answer e ts).1 (sent ++ (answer e ts).0) (kills e)
  unfolding turn signal_handler set_server_fd
  turn-quiet e fd ts sent = accept-answer e fd ts sent

  turn-stopped :
      (e : Selected Text) (fd : ℕ) (ts : TenantState) (sent : List Text)
      → turn J format_u (stopped e) (listening fd ts sent false)
        ≡ closed (answer e ts).1 (sent ++ (answer e ts).0) (kills e)
  unfolding turn signal_handler set_server_fd
  turn-stopped e fd ts sent = ap (signal_handler true) (accept-answer e fd ts sent)

  loop_closed :
      (rest : List (Turn Text)) (ts : TenantState) (sent : List Text) (killed : Bool)
      → main_loop J format_u rest (closed ts sent killed) ≡ some (closed ts sent killed)
  unfolding main_loop
  loop_closed [] ts sent killed = refl
  loop_closed (t ∷ rest) ts sent killed = refl

  loop_turn :
      (t : Turn Text) (rest : List (Turn Text)) (fd : ℕ) (ts : TenantState) (sent : List Text)
      (s : Server Text)
      → turn J format_u t (listening fd ts sent false) ≡ s
      → main_loop J format_u (t ∷ rest) (listening fd ts sent false)
        ≡ (if s.killed || breaks J format_u t.selected then some s else main_loop J format_u rest s)
  unfolding main_loop
  loop_turn t rest fd ts sent s done =
      ap
        (λ (x : Server Text).
          if x.killed || breaks J format_u t.selected then some x else main_loop J format_u rest x)
        done

  loop_end :
      (e : Selected Text) (rest : List (Turn Text)) (fd : ℕ) (ts : TenantState) (sent : List Text)
      → main_loop J format_u (stopped e ∷ rest) (listening fd ts sent false)
        ≡ some (closed (answer e ts).1 (sent ++ (answer e ts).0) (kills e))
  loop_end e rest fd ts sent =
      loop_turn (stopped e) rest fd ts sent _ (turn-stopped e fd ts sent)
      ∙ elim (Bool-cases (kills e || breaks J format_u e)) [
        | inl b ↦ rw b refl
        | inr b ↦ rw b (loop_closed rest _ _ (kills e))
      ]

  loop_answers :
      (es : List (Selected Text)) (e : Selected Text) (rest : List (Turn Text)) (fd : ℕ)
      (ts : TenantState) (sent : List Text)
      → IsCalm es
      → let (texts, ts') = answers (es ++ e ∷ []) ts in
        main_loop J format_u (quiet_then es (stopped e ∷ rest)) (listening fd ts sent false)
        ≡ some (closed ts' (sent ++ texts) (kills e))
  loop_answers [] e rest fd ts sent calm =
      loop_end e rest fd ts sent
      ∙ ap (λ (x : List Text). some (closed (answer e ts).1 (sent ++ x) (kills e)))
          (sym (append-nil (answer e ts).0))
  loop_answers (x ∷ es) e rest fd ts sent (calm, spared, calms) =
      let (texts, ts') = answer x ts in
      loop_turn (quiet x) (quiet_then es (stopped e ∷ rest)) fd ts sent _
        (turn-quiet x fd ts sent ∙ ap (listening fd ts' (sent ++ texts)) spared)
      ∙ rw calm (loop_answers es e rest fd ts' (sent ++ texts) calms)
      ∙ ap (λ (y : List Text). some (closed (answers (es ++ e ∷ []) ts').1 y (kills e)))
          (append_assoc sent texts (answers (es ++ e ∷ []) ts').0)

  -- The daemon from its command line on, when the tenants' object, the process in the background and
  -- the socket can be had, through turns of the loop of which only the last has a signal, behind what
  -- it does, and in which every client sends or closes, and before the last `select` fails for no
  -- other reason and no client ends the daemon. The clients, that of the last turn included, are
  -- answered in the order of their coming, each on the tenants that the one before it left; a null
  -- command and a client that has gone are not answered. If the last client stays until the newline
  -- behind its answer is sent and the word of its command is not null, main returns 0, and the
  -- socket's file and the one with the process's number are gone; otherwise the daemon is killed, and
  -- both files stay.
  pub main-answers :
      (args : List (List ℕ)) (host : DaemonHost) (daemon_mode foreground : Bool) (fd : ℕ)
      (es : List (Selected Text)) (e : Selected Text) (rest : List (Turn Text))
      (files : DaemonFiles) (ts : TenantState)
      → options args false false ≡ some (daemon_mode, foreground)
      → (tenant_shm_init host.os ts).0 ≡ ok
      → (detach host (daemon_mode && not foreground) files).0 ≡ ok
      → host.socket ≡ some fd
      → host.bind ≡ true
      → host.listen ≡ true
      → IsCalm es
      → let (texts, ts') = answers (es ++ e ∷ []) (tenant_shm_init host.os ts).1 in
        let pid = (detach host (daemon_mode && not foreground) files).1.pid in
        main J format_u args host (quiet_then es (stopped e ∷ rest)) files ts
        ≡ some (
            if kills e
            then (dies, record { socket = true; pid = pid }, ts', texts)
            else (exits 0, record { socket = false; pid = none }, ts', texts))
  unfolding main serve_on create_server_socket outcome cleanup
  main-answers args host daemon_mode foreground fd es e rest files ts parsed mapped detached socket
        bound listened calm =
      rw (main, parsed, mapped, detached, socket, bound, listened)
        (rw (loop_answers es e rest fd (tenant_shm_init host.os ts).1 [] calm)
          (elim (Bool-cases (kills e)) [ inl k ↦ rw k refl | inr k ↦ rw k refl ]))
