-- ===== src/Client/Live.antt =====
-- src/tenant_manager_client.c: a new quota, as the user of the command line sees it.
use mtrdma_artifact.Common.{ℕ, ◌<◌, ◌≡◌, refl, ap, ◌∙◌, true, false, some, List, [], ◌∷◌, Os}
use mtrdma_artifact.Common.CString.{codes, streq}
use mtrdma_artifact.Json.{JsonC, IsLawful}
use mtrdma_artifact.Tenant.State.{TenantState, max_tenants, is_inactive}
use mtrdma_artifact.Daemon.{updated, status_of, quota_of, process_command}
use mtrdma_artifact.Daemon.Live.{update_command, status_command, with_quota, status-update_quota}
use mtrdma_artifact.Client.{atoi, memory_of, command_of}
use mtrdma_artifact.Client.Asked.{requested}
use mtrdma_artifact.Client.Shown.{shown}
use mtrdma_artifact.Client.Session.{Outcome, main, Fits, announced, announce, direct, main-direct}

requested_update :
    (id qp mr : List ℕ) (rest : List (List ℕ))
    → requested (codes "update") (id ∷ qp ∷ mr ∷ rest)
      ≡ some (update_command (atoi id) (atoi qp) (some (atoi mr)) (some (memory_of rest)))
unfolding requested streq
requested_update id qp mr rest = refl

requested_status :
    (id : List ℕ) → requested (codes "status") (id ∷ []) ≡ some (status_command (atoi id))
unfolding requested streq
requested_status id = refl

module _ (J : JsonC) ⦃L : IsLawful J⦄ (format_u : ℕ → List ℕ) where
  update_session :
      (os : Os) (id qp mr : List ℕ) (rest : List (List ℕ)) (s : TenantState)
      → Fits J format_u os (command_of J (codes "update") (id ∷ qp ∷ mr ∷ rest)) s
      → main J format_u os true (codes "update" ∷ id ∷ qp ∷ mr ∷ rest) s
        ≡ announce J (command_of J (codes "update") (id ∷ qp ∷ mr ∷ rest)) (
            direct format_u os
              (some (update_command (atoi id) (atoi qp) (some (atoi mr)) (some (memory_of rest))))
              s)
  update_session os id qp mr rest s fits =
      main-direct J format_u os (codes "update") (id ∷ qp ∷ mr ∷ rest) s fits
      ∙ ap
          (λ r.
            announce J (command_of J (codes "update") (id ∷ qp ∷ mr ∷ rest))
              (direct format_u os r s))
          (requested_update id qp mr rest)

  status_session :
      (os : Os) (id : List ℕ) (s : TenantState)
      → Fits J format_u os (command_of J (codes "status") (id ∷ [])) s
      → main J format_u os true (codes "status" ∷ id ∷ []) s
        ≡ announce J
            (command_of J (codes "status") (id ∷ []))
            (direct format_u os (some (status_command (atoi id))) s)
  status_session os id s fits =
      main-direct J format_u os (codes "status") (id ∷ []) s fits
      ∙ ap (λ r. announce J (command_of J (codes "status") (id ∷ [])) (direct format_u os r s))
          (requested_status id)

  -- With an attached daemon listening, for a tenant that exists: behind the text of its command and a
  -- heading, `update` prints that the quota was updated, and the next `status` of the tenant prints what
  -- the tenant uses beside the quota of the command line, with 1 GiB of memory if that gives none. The
  -- texts have to fit the buffers.
  pub main-update_status :
      (os os' : Os) (id qp mr : List ℕ) (rest : List (List ℕ)) (s : TenantState)
      → s.attached ≡ true
      → atoi id < max_tenants
      → is_inactive (s.shm.tenants (atoi id)).status ≡ false
      → Fits J format_u os (command_of J (codes "update") (id ∷ qp ∷ mr ∷ rest)) s
      → Fits J format_u os'
          (command_of J (codes "status") (id ∷ []))
          (main J format_u os true (codes "update" ∷ id ∷ qp ∷ mr ∷ rest) s).1
      → let (out, s') = main J format_u os true (codes "update" ∷ id ∷ qp ∷ mr ∷ rest) s in
        let quota = quota_of (atoi qp) (atoi mr) (some (memory_of rest)) in
        (out.lines
          ≡ announced J
              (command_of J (codes "update") (id ∷ qp ∷ mr ∷ rest))
              (shown format_u (updated (atoi id))))
        × ((main J format_u os' true (codes "status" ∷ id ∷ []) s').0.lines
            ≡ announced J (command_of J (codes "status") (id ∷ [])) (
                shown format_u
                  (status_of (with_quota quota (os.time 1) (s.shm.tenants (atoi id))))))
  main-update_status os os' id qp mr rest s on lt here fits fits' =
      let r = update_command (atoi id) (atoi qp) (some (atoi mr)) (some (memory_of rest)) in
      let first = update_session os id qp mr rest s fits in
      let s' = (main J format_u os true (codes "update" ∷ id ∷ qp ∷ mr ∷ rest) s).1 in
      let (reply, shows) =
        status-update_quota os os' (atoi id) (atoi qp) (some (atoi mr)) (some (memory_of rest)) s on
          lt here in
      let same : s' ≡ (process_command os (some r) s).1 =
        ap (λ (p : Outcome J.Text × TenantState). p.1) first in
      (
        ap (λ (p : Outcome J.Text × TenantState). p.0.lines) first
            ∙ ap
                (λ r.
                  announced J (command_of J (codes "update") (id ∷ qp ∷ mr ∷ rest))
                    (shown format_u r))
                reply,
        ap (λ (p : Outcome J.Text × TenantState). p.0.lines) (status_session os' id s' fits')
            ∙ ap
                (λ (t : TenantState).
                  announced J (command_of J (codes "status") (id ∷ []))
                    (shown format_u (process_command os' (some (status_command (atoi id))) t).0))
                same
            ∙ ap (λ r. announced J (command_of J (codes "status") (id ∷ [])) (shown format_u r))
                shows,
      )
