-- ===== src/Client/Session.antt =====
-- src/tenant_manager_client.c and src/tenant_manager_daemon.c: a command from the command line to the
-- tenants, and the answer back.
use mtrdma_artifact.Common.{
  ℕ, ◌≤◌, ◌≡◌, refl, ap, ◌∙◌, Bool, true, false, Option, none, some, List, [], ◌∷◌, Os,
}
use mtrdma_artifact.Json.{JsonC, IsLawful}
use mtrdma_artifact.Tenant.State.{TenantState}
use mtrdma_artifact.Daemon.{Request, Reply, process_command}
use mtrdma_artifact.Daemon.Response.{
  map_option, response_of, request_of, has_null_cmd, reply_to, handle_client,
}
use mtrdma_artifact.Client.{command_of}
use mtrdma_artifact.Client.Print.{Line, sending, response_heading, print_parsed, print_response}
use mtrdma_artifact.Client.Asked.{requested, request-command, has_null-command}
use mtrdma_artifact.Client.Shown.{shown, print-response}

-- How the client ends: its exit status and the lines on its standard output.
pub record Outcome (Text : Type 0) : Type 0 where
  pub status : ℕ
  pub lines : List (Line Text)

abbrev pub exit_failure : {Text : Type 0} → Outcome Text
exit_failure = record { status = 1; lines = [] }

module _ (J : JsonC) where
  open J use {Text, to_json_string, cut}

  -- What `recv` gets; nothing from a daemon that ends before it answers.
  abbrev received : Option (Text × TenantState) → TenantState → Option Text × TenantState
  received none s = (none, s)
  received (some (reply, s')) s = (some (cut 4095 reply), s')

  -- `send_command` to a daemon: what its handler sends back is read into a buffer of 4096 bytes. With
  -- `listening` false there is none, or the socket fails.
  unfoldable pub send_command :
      (ℕ → List ℕ) → Os → Bool → Text → TenantState → Option Text × TenantState
  send_command format_u os false text s = (none, s)
  send_command format_u os true text s = received (handle_client J format_u os text s) s

  unfoldable pub finish : Text → Option Text × TenantState → Outcome Text × TenantState
  finish json_cmd (none, s) = (record { status = 1; lines = sending json_cmd ∷ [] }, s)
  finish json_cmd (some response, s) = (
    record { status = 0; lines = sending json_cmd ∷ response_heading ∷ print_response J response },
    s,
  )

  -- With the command that was built.
  unfoldable pub run_built :
      (ℕ → List ℕ) → Os → Bool → Option J.Value → TenantState → Outcome Text × TenantState
  unfolding send_command finish
  run_built format_u os listening none s = (exit_failure, s)
  run_built format_u os listening (some cmd) s =
      finish (to_json_string cmd) (send_command format_u os listening (to_json_string cmd) s)

  -- With the command line behind the name of the program.
  unfoldable pub main :
      (ℕ → List ℕ) → Os → Bool → List (List ℕ) → TenantState → Outcome Text × TenantState
  unfolding run_built
  main format_u os listening [] s = (exit_failure, s)
  main format_u os listening (word ∷ args) s =
      run_built format_u os listening (command_of J word args) s

  -- The command and the answer fit the buffers of 4095 bytes.
  abbrev pub Fits : (ℕ → List ℕ) → Os → Option J.Value → TenantState → Type 0
  Fits format_u os none s = Unit
  Fits format_u os (some cmd) s =
      (J.bytes (to_json_string cmd) ≤ 4095)
      × (J.bytes (reply_to J format_u os (some cmd) s).0 ≤ 4095)

  -- What is printed with this command, before and with these lines of the answer.
  abbrev pub announced : Option J.Value → List (Line Text) → List (Line Text)
  announced none lines = lines
  announced (some cmd) lines = sending (to_json_string cmd) ∷ response_heading ∷ lines

  abbrev pub announce : Option J.Value → Outcome Text × TenantState → Outcome Text × TenantState
  announce built (out, s) = (record out { lines = announced built out.lines }, s)

-- The same without JSON and without a connection.
module _ {Text : Type 0} where
  abbrev pub answered : (ℕ → List ℕ) → Reply × TenantState → Outcome Text × TenantState
  answered format_u (reply, s) = (record { status = 0; lines = shown format_u reply }, s)

  abbrev pub direct : (ℕ → List ℕ) → Os → Option Request → TenantState → Outcome Text × TenantState
  direct format_u os none s = (exit_failure, s)
  direct format_u os (some r) s = answered format_u (process_command os (some r) s)

module _ (J : JsonC) ⦃L : IsLawful J⦄ (format_u : ℕ → List ℕ) where
  open J use {Value, to_json_string, tokener_parse, cut}

  parse_cut :
      (v : Value)
      → J.bytes (to_json_string v) ≤ 4095
      → tokener_parse (cut 4095 (to_json_string v)) ≡ some v
  parse_cut v fits = ap tokener_parse (L.cut-le 4095 (to_json_string v) fits) ∙ L.parse-print v

  -- The daemon answers as if it had been called with the fields.
  handle_client-parsed :
      (os : Os) (v : Value) (s : TenantState)
      → J.bytes (to_json_string v) ≤ 4095
      → has_null_cmd J (some v) ≡ false
      → handle_client J format_u os (to_json_string v) s ≡ some (reply_to J format_u os (some v) s)
  unfolding handle_client
  handle_client-parsed os v s fits named = rw (parse_cut v fits, named) refl

  printed :
      (r : Reply)
      → J.bytes (to_json_string (response_of J format_u r)) ≤ 4095
      → print_response J (cut 4095 (to_json_string (response_of J format_u r))) ≡ shown format_u r
  unfolding print_response print_parsed
  printed r fits =
      let text = cut 4095 (to_json_string (response_of J format_u r)) in
      ap (print_parsed J text) (parse_cut (response_of J format_u r) fits)
      ∙ print-response J format_u r

  -- By the command that was built.
  exchanged :
      (os : Os) (built : Option Value) (s : TenantState)
      → Fits J format_u os built s
      → has_null_cmd J built ≡ false
      → run_built J format_u os true built s
        ≡ announce J built (direct format_u os (map_option (request_of J) built) s)
  unfolding run_built send_command finish reply_to
  exchanged os none s fits named = refl
  exchanged os (some cmd) s (fits, reply_fits) named =
      let p = process_command os (some (request_of J cmd)) s in
      ap (λ (a : Option (J.Text × TenantState)). finish J (to_json_string cmd) (received J a s))
        (handle_client-parsed os cmd s fits named)
      ∙ ap
          (λ (lines : List (Line J.Text)).
            (record { status = 0; lines = announced J (some cmd) lines }, p.1))
          (printed p.0 reply_fits)

  -- For any command line, with the daemon listening and json-c as it is documented: if the command that
  -- is built and the answer fit the buffers, then the client prints the text of the command and a heading,
  -- and otherwise the text, the connection and the buffers are invisible. The tenants, the exit status and
  -- what is printed behind the heading are those of a direct call of the daemon with the numbers that the
  -- command line gives; a command line that is no command exits with 1, prints nothing and changes nothing.
  pub main-direct :
      (os : Os) (word : List ℕ) (args : List (List ℕ)) (s : TenantState)
      → Fits J format_u os (command_of J word args) s
      → main J format_u os true (word ∷ args) s
        ≡ announce J (command_of J word args) (direct format_u os (requested word args) s)
  unfolding main
  main-direct os word args s fits =
      exchanged os (command_of J word args) s fits (has_null-command J word args)
      ∙ ap (λ r. announce J (command_of J word args) (direct format_u os r s))
          (request-command J word args)
