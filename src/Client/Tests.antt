-- ===== src/Client/Tests.antt =====
-- src/tenant_manager_client.c: the theorems at concrete command lines.
use mtrdma_artifact.Common.{ℕ, ◌≡◌, refl, true, Option, none, some, List, [], ◌∷◌, Os, arith, ◌<◌}
use mtrdma_artifact.Common.CString.{codes}
use mtrdma_artifact.Config.Text.{strtol}
use mtrdma_artifact.Json.Tree.{tree, tree-IsLawful}
use mtrdma_artifact.Tenant.State.{TenantState, zero_shm, active, max_tenants}
use mtrdma_artifact.Daemon.{updated, status_of, quota_of}
use mtrdma_artifact.Daemon.Live.{with_quota}
use mtrdma_artifact.Client.{atoi, command_of}
use mtrdma_artifact.Client.Asked.{requested}
use mtrdma_artifact.Client.Shown.{shown}
use mtrdma_artifact.Client.Session.{main, Fits, announced, announce, direct, main-direct}
use mtrdma_artifact.Client.Live.{main-update_status}

abbrev os : Os
os = record { shm_open = true; ftruncate = true; mmap = true; fstat = true; time = λ k. k }

-- Numbers in unary.
abbrev format_u : ℕ → List ℕ
format_u n = n ∷ []

-- Every tenant exists.
abbrev tenants : TenantState
tenants = record {
  attached = true;
  shm = record zero_shm { tenants = λ i. record (zero_shm.tenants i) { status = active } };
}

tree-Fits : (built : Option tree.Value) (s : TenantState) → Fits tree format_u os built s
unfolding tree
tree-Fits none s = tt
tree-Fits (some cmd) s = (omega arith, omega arith)

main-direct_example :
    main tree format_u os true
      (codes "set-quota" ∷ codes "20" ∷ codes "50" ∷ codes "60" ∷ [])
      tenants
    ≡ announce tree
        (command_of tree (codes "set-quota") (codes "20" ∷ codes "50" ∷ codes "60" ∷ []))
        (direct format_u os
          (requested (codes "set-quota") (codes "20" ∷ codes "50" ∷ codes "60" ∷ []))
          tenants)
main-direct_example =
    main-direct tree ⦃L = tree-IsLawful⦄ format_u os (codes "set-quota")
      (codes "20" ∷ codes "50" ∷ codes "60" ∷ []) tenants
      (tree-Fits (command_of tree (codes "set-quota") (codes "20" ∷ codes "50" ∷ codes "60" ∷ []))
        tenants)

twenty : atoi (codes "20") ≡ 20
unfolding atoi strtol
twenty = refl

below : atoi (codes "20") < max_tenants
below = rw twenty (omega arith)

main-update_status_example :
    let line = codes "update" ∷ codes "20" ∷ codes "50" ∷ codes "60" ∷ [] in
    let (out, s') = main tree format_u os true line tenants in
    let quota = quota_of (atoi (codes "50")) (atoi (codes "60")) (some 1073741824) in
    (out.lines
      ≡ announced tree
          (command_of tree (codes "update") (codes "20" ∷ codes "50" ∷ codes "60" ∷ []))
          (shown format_u (updated (atoi (codes "20")))))
    × ((main tree format_u os true (codes "status" ∷ codes "20" ∷ []) s').0.lines
        ≡ announced tree (command_of tree (codes "status") (codes "20" ∷ [])) (
            shown format_u
              (status_of (with_quota quota 1 (tenants.shm.tenants (atoi (codes "20")))))))
main-update_status_example =
    main-update_status tree ⦃L = tree-IsLawful⦄ format_u os os (codes "20") (codes "50")
      (codes "60") [] tenants refl below refl
      (tree-Fits (command_of tree (codes "update") (codes "20" ∷ codes "50" ∷ codes "60" ∷ []))
        tenants)
      (tree-Fits (command_of tree (codes "status") (codes "20" ∷ []))
        (main tree format_u os true (codes "update" ∷ codes "20" ∷ codes "50" ∷ codes "60" ∷ [])
          tenants).1)
