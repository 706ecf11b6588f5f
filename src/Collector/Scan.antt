-- ===== src/Collector/Scan.antt =====
-- src/collector_server_shm.c: what the scan of the table does to the shared object.
use mtrdma_artifact.Common.{
  ℕ, zero, suc, ◌+◌, ◌≤◌, ◌<◌, ◌≡◌, ◌≢◌, ◌⊎◌, refl, ap, ◌∙◌, false, not, Option, none, some, arith,
  ◌==◌, if_intro, Option-cases, inl, inr, ==-ne,
}
use mtrdma_artifact.Shm.{
  ResourceUsage, Shm, no_usage, max_processes, shm_lock, shm_unlock, clear_entry,
  shm_get_process_resources,
}
use mtrdma_artifact.Shm.Accounts.{IsValid, clear_entry-IsValid, relock-IsValid}
use mtrdma_artifact.Shm.Clear.{get-emptied, get-relock}
use mtrdma_artifact.Collector.{
  GcState, GcHost, drop_entry, register_fd, gc_register_pidfd, is_other_process, close_stale,
  scan_used, scan_slot, scan_from, gc_scan_and_register, with_region,
}
use mtrdma_artifact.Collector.Status.{gc_is_process_really_alive}

-- The object is as it was, or one dead process's slot has been emptied.
abbrev pub Reclaims : GcHost → ℕ → Shm → Shm → Type 0
Reclaims host slot s s' =
    (s' ≡ s)
    ⊎ ((s' ≡ record s { region = clear_entry slot s.region })
        × (s.region.process_pids slot ≢ 0)
        × (gc_is_process_really_alive host.status (s.region.process_pids slot) ≡ false))

pub register-shm :
    (host : GcHost) (slot pid start_time : ℕ) (g : GcState)
    → (gc_register_pidfd host slot pid start_time g).shm ≡ g.shm
unfolding gc_register_pidfd register_fd
register-shm host slot pid start_time g = elim (Option-cases (host.pidfd_open slot)) [
  | inl absent ↦ rw absent (ground arith)
  | inr (fd, e) ↦ rw e (ground arith)
]

scan_used-Reclaims :
    (host : GcHost) (slot : ℕ) (pidfd : Option ℕ) (g : GcState)
    → g.shm.region.process_pids slot ≢ 0
    → Reclaims host slot g.shm (scan_used host slot pidfd g).shm
unfolding scan_used drop_entry
scan_used-Reclaims host slot none g used =
    let pid = g.shm.region.process_pids slot in
    let g' = gc_register_pidfd host slot pid (g.shm.region.process_start_times slot) g in
    let same = register-shm host slot pid (g.shm.region.process_start_times slot) g in
    if_intro (λ (x : GcState). Reclaims host slot g.shm x.shm) _
      (λ dead. inr (
        ap (λ (x : Shm). record x { region = clear_entry slot x.region }) same,
        used,
        ground (arith, dead),
      ))
      (λ kept. inl same)
scan_used-Reclaims host slot (some fd) g used =
    let pid = g.shm.region.process_pids slot in
    let P = λ (x : GcState). Reclaims host slot g.shm x.shm in
    let start_time = g.shm.region.process_start_times slot in
    if_intro P (is_other_process (g.table slot) pid start_time)
      (λ moved. inl (register-shm host slot pid start_time (close_stale fd slot g)))
      (λ same.
        if_intro P (not (gc_is_process_really_alive host.status pid))
          (λ dead. inr (refl, used, ground (arith, dead))) (λ alive. inl refl))

scan_slot-Reclaims :
    (host : GcHost) (slot : ℕ) (g : GcState) → Reclaims host slot g.shm (scan_slot host slot g).shm
unfolding scan_slot drop_entry
scan_slot-Reclaims host slot g =
    let P = λ (x : GcState). Reclaims host slot g.shm x.shm in
    if_intro P (g.shm.region.process_pids slot == 0)
      (λ free. if_intro P _ (λ _. inl refl) (λ _. inl refl))
      (λ used. scan_used-Reclaims host slot (g.table slot).pidfd g (==-ne _ 0 used))

scan_from-attached :
    (host : GcHost) (i left : ℕ) (g : GcState)
    → (scan_from host i left g).shm.attached ≡ g.shm.attached
unfolding scan_from
scan_from-attached host i zero g = refl
scan_from-attached host i (suc left) g =
    scan_from-attached host (i + 1) left (scan_slot host i g) ∙ elim (scan_slot-Reclaims host i g) [
      | inl same ↦ ap (λ (x : Shm). x.attached) same
      | inr (emptied, used, dead) ↦ ap (λ (x : Shm). x.attached) emptied
    ]

pub scan-attached :
    (host : GcHost) (g : GcState) → (gc_scan_and_register host g).shm.attached ≡ g.shm.attached
unfolding gc_scan_and_register
scan-attached host g =
    if_intro (λ (x : GcState). x.shm.attached ≡ g.shm.attached) (not g.shm.attached) (λ _. refl)
      (λ _. scan_from-attached host 0 max_processes (with_region shm_lock g))

scan_slot-IsValid :
    (host : GcHost) (slot : ℕ) (g : GcState)
    → slot < max_processes
    → IsValid g.shm.region
    → IsValid (scan_slot host slot g).shm.region
scan_slot-IsValid host slot g lt v = elim (scan_slot-Reclaims host slot g) [
  | inl same ↦ rw same v
  | inr (emptied, used, dead) ↦ rw emptied (clear_entry-IsValid slot lt v)
]

scan_from-IsValid :
    (host : GcHost) (i left : ℕ) (g : GcState)
    → i + left ≤ max_processes
    → IsValid g.shm.region
    → IsValid (scan_from host i left g).shm.region
unfolding scan_from
scan_from-IsValid host i zero g le v = v
scan_from-IsValid host i (suc left) g le v =
    scan_from-IsValid host (i + 1) left (scan_slot host i g) (omega arith)
      (scan_slot-IsValid host i g (omega arith) v)

-- A scan keeps the shared object valid: what it takes out of the table it takes out of the global
-- counters.
pub scan-IsValid :
    (host : GcHost) (g : GcState)
    → IsValid g.shm.region
    → IsValid (gc_scan_and_register host g).shm.region
unfolding gc_scan_and_register shm_lock shm_unlock
scan-IsValid host g v =
    if_intro (λ (x : GcState). IsValid x.shm.region) _ (λ detached. v)
      (λ attached. relock-IsValid 0 (
        scan_from-IsValid host 0 max_processes (with_region shm_lock g) (omega arith)
          (relock-IsValid 1 v)))

-- What a reader of a process is given for it is what it was, or zero and the process is dead.
abbrev pub Spares : GcHost → ℕ → Option ResourceUsage → Option ResourceUsage → Type 0
Spares host q before after =
    (after ≡ before)
    ⊎ ((after ≡ some no_usage) × (gc_is_process_really_alive host.status q ≡ false))

scan_slot-Spares :
    (host : GcHost) (slot : ℕ) (g : GcState) (q : ℕ)
    → slot < max_processes
    → IsValid g.shm.region
    → Spares host q
        (shm_get_process_resources q g.shm)
        (shm_get_process_resources q (scan_slot host slot g).shm)
scan_slot-Spares host slot g q lt v = elim (scan_slot-Reclaims host slot g) [
  | inl same ↦ inl (ap (shm_get_process_resources q) same)
  | inr (emptied, used, dead) ↦ rw emptied (elim (get-emptied slot g.shm q lt v) [
    | inl kept ↦ inl kept
    | inr (zeroed, own) ↦ inr (zeroed, ap (gc_is_process_really_alive host.status) own ∙ dead)
  ])
]

Spares-trans :
    (host : GcHost) (q : ℕ) (x y z : Option ResourceUsage)
    → Spares host q x y
    → Spares host q y z
    → Spares host q x z
Spares-trans host q x y z (inl e) (inl e') = inl (e' ∙ e)
Spares-trans host q x y z (inr (e, dead)) (inl e') = inr (e' ∙ e, dead)
Spares-trans host q x y z _ (inr (e', dead)) = inr (e', dead)

scan_from-Spares :
    (host : GcHost) (i left : ℕ) (g : GcState) (q : ℕ)
    → i + left ≤ max_processes
    → IsValid g.shm.region
    → Spares host q
        (shm_get_process_resources q g.shm)
        (shm_get_process_resources q (scan_from host i left g).shm)
unfolding scan_from
scan_from-Spares host i zero g q le v = inl refl
scan_from-Spares host i (suc left) g q le v =
    Spares-trans host q _ _ _ (scan_slot-Spares host i g q (omega arith) v) (
      scan_from-Spares host (i + 1) left (scan_slot host i g) q (omega arith)
        (scan_slot-IsValid host i g (omega arith) v))

-- On a valid object a scan takes from no living process: a reader of any process gets what it got
-- before, or it gets zero and the process is not really alive.
pub scan-Spares :
    (host : GcHost) (g : GcState) (q : ℕ)
    → IsValid g.shm.region
    → Spares host q
        (shm_get_process_resources q g.shm)
        (shm_get_process_resources q (gc_scan_and_register host g).shm)
unfolding gc_scan_and_register shm_lock shm_unlock
scan-Spares host g q v =
    if_intro
      (λ (x : GcState).
        Spares host q (shm_get_process_resources q g.shm) (shm_get_process_resources q x.shm))
      (not g.shm.attached) (λ detached. inl refl)
      (λ attached.
        let scanned = scan_from host 0 max_processes (with_region shm_lock g) in
        Spares-trans host q _ (shm_get_process_resources q (with_region shm_lock g).shm) _
          (inl (get-relock 1 g.shm q))
          (Spares-trans host q _ (shm_get_process_resources q scanned.shm) _
            (scan_from-Spares host 0 max_processes (with_region shm_lock g) q (omega arith)
              (relock-IsValid 1 v))
            (inl (get-relock 0 scanned.shm q))))
