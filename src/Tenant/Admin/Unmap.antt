-- ===== src/Tenant/Admin/Unmap.antt =====
-- src/shm/shared_memory_tenant.c: the loop of `tenant_delete` over the mappings.
use mtrdma_artifact.Common.{
  ℕ, zero, suc, ◌+◌, ◌<◌, ◌≡◌, ◌≢◌, inl, inr, arith, if◌then◌else◌, Bool-cases, ◌==◌, update, total,
  total-update, le-total, sub32, leb, ◌&&◌,
}
use mtrdma_artifact.Tenant.State.{max_processes, PidMapping}
use mtrdma_artifact.Tenant.State.Invariant.{in_use, in_use-le}
use mtrdma_artifact.Tenant.Admin.{unmap_tenant}

abbrev pub freed : PidMapping → PidMapping
freed m = record m { pid = 0; tenant_id = 0 }

-- What the loop has done to the table when it stops, started at index `i`.
pub record Unmapped (tenant_id i : ℕ) (m : ℕ → PidMapping) (r : (ℕ → PidMapping) × ℕ) : Type 0 where
  pub mapped : total in_use max_processes r.0 ≡ r.1
  pub entry :
      (j : ℕ)
      → j < max_processes
      → r.0 j ≡ (if leb i j && ((m j).tenant_id == tenant_id) then freed (m j) else m j)

-- Freeing a mapping that is in use takes one off the count.
free_one :
    (m : ℕ → PidMapping) (i n : ℕ)
    → i < max_processes
    → (m i).pid ≢ 0
    → total in_use max_processes m ≡ n
    → total in_use max_processes (update m i (freed (m i))) ≡ sub32 n 1
free_one m i n lt used c = ground (
  arith,
  total-update in_use max_processes m i (freed (m i)) lt,
  le-total in_use max_processes m i lt,
  in_use-le max_processes m,
)

pub unmap-Unmapped :
    (tenant_id i left : ℕ) (m : ℕ → PidMapping) (n : ℕ)
    → tenant_id ≢ 0
    → i + left ≡ max_processes
    → ((j : ℕ) → j < max_processes → (m j).pid ≡ 0 → (m j).tenant_id ≡ 0)
    → total in_use max_processes m ≡ n
    → Unmapped tenant_id i m (unmap_tenant tenant_id i left m n)
unfolding unmap_tenant
unmap-Unmapped tenant_id i zero m n nz e free c = record {
  mapped = c;
  entry = λ j lt. ground arith;
}
unmap-Unmapped tenant_id i (suc left) m n nz e free c =
    elim (Bool-cases ((m i).tenant_id == tenant_id)) [
      | inl hit ↦
          let lt : i < max_processes = omega arith in
          let ih =
            unmap-Unmapped tenant_id (i + 1) left (update m i (freed (m i))) (sub32 n 1) nz
              (omega arith) (λ j below. ground (arith, free j below))
              (free_one m i n lt (λ z. ground (arith, free i lt)) c) in
          rw hit
            (record { mapped = ih.mapped; entry = λ j below. ground (arith, ih.entry j below) })
      | inr miss ↦
          let ih = unmap-Unmapped tenant_id (i + 1) left m n nz (omega arith) free c in
          rw miss
            (record { mapped = ih.mapped; entry = λ j below. ground (arith, ih.entry j below) })
    ]
