-- ===== src/Collector/Reclaim.antt =====
-- src/collector_server_shm.c: three scans empty the slot of a dead process.
use mtrdma_artifact.Common.{
  ℕ, zero, suc, ◌+◌, ◌≤◌, ◌<◌, ◌≡◌, ◌≢◌, ◌⊎◌, refl, sym, ap, subst, ◌∙◌, true, false, not, ◌&&◌,
  ◌||◌, Option, none, some, arith, ◌==◌, if_intro, Bool-cases, inl, inr, ==-eq, ==-ne, update,
  is_none, leb, is_negative,
}
use mtrdma_artifact.Shm.{max_processes, shm_lock, shm_unlock, clear_entry}
use mtrdma_artifact.Collector.{
  GcState, GcHost, unwatch_and_close, PidfdEntry, drop_entry, register_fd, gc_register_pidfd,
  is_other_process, close_stale, reclaim, scan_used, scan_slot, scan_from, gc_scan_and_register,
  with_region,
}
use mtrdma_artifact.Collector.Status.{gc_is_process_really_alive}
use mtrdma_artifact.Collector.Scan.{scan-attached}
use mtrdma_artifact.Collector.Slot.{
  Slot, slot_of, IsFree, IsUnregistered, IsRegistered, scan_slot-IsFree, first_scan, second_scan,
  third_scan,
}

-- Another slot than the one that is registered, or scanned, is as it was.
register_fd-other :
    (host : GcHost) (i j pid start_time : ℕ) (fd : Option ℕ) (g : GcState)
    → j ≢ i
    → slot_of i (register_fd host j pid start_time fd g) ≡ slot_of i g
unfolding register_fd
register_fd-other host i j pid start_time none g ne = ground (arith, ne)
register_fd-other host i j pid start_time (some fd) g ne = ground (arith, ne)

register-other :
    (host : GcHost) (i j pid start_time : ℕ) (g : GcState)
    → j ≢ i
    → slot_of i (gc_register_pidfd host j pid start_time g) ≡ slot_of i g
unfolding gc_register_pidfd
register-other host i j pid start_time g ne =
    let closed = record g { calls = unwatch_and_close (g.table j).pidfd g.calls } in
    if_intro (λ (x : GcState). slot_of i x ≡ slot_of i g) (is_negative j || leb max_processes j)
      (λ _. refl) (λ _. register_fd-other host i j pid start_time (host.pidfd_open j) closed ne)

update_other :
    (i j : ℕ) (e : PidfdEntry) (g : GcState)
    → j ≢ i
    → slot_of i (record g { table = update g.table j e }) ≡ slot_of i g
update_other i j e g ne = ground (arith, ne)

reclaim-other : (i j : ℕ) (g : GcState) → j ≢ i → slot_of i (reclaim j g) ≡ slot_of i g
unfolding clear_entry
reclaim-other i j g ne = ground (arith, ne)

drop-other : (i j : ℕ) (g : GcState) → j ≢ i → slot_of i (drop_entry j g) ≡ slot_of i g
unfolding drop_entry
drop-other i j g ne = ground (arith, ne)

scan_used-other :
    (host : GcHost) (i j : ℕ) (pidfd : Option ℕ) (g : GcState)
    → j ≢ i
    → slot_of i (scan_used host j pidfd g) ≡ slot_of i g
unfolding scan_used
scan_used-other host i j none g ne =
    let pid = g.shm.region.process_pids j in
    let start_time = g.shm.region.process_start_times j in
    let g' = gc_register_pidfd host j pid start_time g in
    if_intro (λ (x : GcState). slot_of i x ≡ slot_of i g)
      (is_none (g'.table j).pidfd && not (gc_is_process_really_alive host.status pid))
      (λ _. reclaim-other i j g' ne ∙ register-other host i j pid start_time g ne)
      (λ _. register-other host i j pid start_time g ne)
scan_used-other host i j (some fd) g ne =
    let pid = g.shm.region.process_pids j in
    let start_time = g.shm.region.process_start_times j in
    let P = λ (x : GcState). slot_of i x ≡ slot_of i g in
    if_intro P (is_other_process (g.table j) pid start_time)
      (λ _. register-other host i j pid start_time (close_stale fd j g) ne ∙ ground (arith, ne))
      (λ _.
        if_intro P (not (gc_is_process_really_alive host.status pid))
          (λ _. drop-other i j (reclaim j g) ne ∙ reclaim-other i j g ne) (λ _. refl))

scan_slot-other :
    (host : GcHost) (i j : ℕ) (g : GcState) → j ≢ i → slot_of i (scan_slot host j g) ≡ slot_of i g
unfolding scan_slot
scan_slot-other host i j g ne =
    let P = λ (x : GcState). slot_of i x ≡ slot_of i g in
    if_intro P (g.shm.region.process_pids j == 0)
      (λ _. if_intro P (is_none (g.table j).pidfd) (λ _. refl) (λ _. drop-other i j g ne))
      (λ _. scan_used-other host i j (g.table j).pidfd g ne)

-- The loop before, at and behind slot `i`.
module _ (host : GcHost) (i : ℕ) where
  scan_from-other :
      (lo left : ℕ) (g : GcState)
      → ((j : ℕ) → lo ≤ j → j < lo + left → j ≢ i)
      → slot_of i (scan_from host lo left g) ≡ slot_of i g
  unfolding scan_from
  scan_from-other lo zero g others = refl
  scan_from-other lo (suc left) g others =
      scan_from-other (lo + 1) left (scan_slot host lo g)
        (λ j le below. others j (omega arith) (omega arith))
      ∙ scan_slot-other host i lo g (others lo (omega arith) (omega arith))

  scan_from-at :
      (P Q : Slot → Type 0)
      → ((g : GcState) → P (slot_of i g) → Q (slot_of i (scan_slot host i g)))
      → (lo left : ℕ) (g : GcState) → lo ≤ i
      → i < lo + left
      → P (slot_of i g)
      → Q (slot_of i (scan_from host lo left g))
  unfolding scan_from
  scan_from-at P Q turn lo zero g le below p = absurd (omega arith)
  scan_from-at P Q turn lo (suc left) g le below p = elim (Bool-cases (lo == i)) [
    | inl here ↦
        let e = ==-eq lo i here in
        subst Q
          (sym (
            scan_from-other (lo + 1) left (scan_slot host lo g)
              (λ j above hi. λ same. absurd (omega arith))
            ∙ ap (λ k. slot_of i (scan_slot host k g)) e))
          (turn g p)
    | inr before ↦
        let ne = ==-ne lo i before in
        scan_from-at P Q turn (lo + 1) left (scan_slot host lo g) (omega arith) (omega arith)
          (subst P (sym (scan_slot-other host i lo g ne)) p)
  ]

  scan-at :
      (P Q : Slot → Type 0)
      → ((g : GcState) → P (slot_of i g) → Q (slot_of i (scan_slot host i g)))
      → (g : GcState) → i < max_processes
      → g.shm.attached ≡ true
      → P (slot_of i g)
      → Q (slot_of i (gc_scan_and_register host g))
  unfolding gc_scan_and_register shm_lock shm_unlock
  scan-at P Q turn g lt on p =
      if_intro (λ (x : GcState). Q (slot_of i x)) (not g.shm.attached)
        (λ off. absurd (ground (arith, off, on)))
        (λ _.
          scan_from-at P Q turn 0 max_processes (with_region shm_lock g) (omega arith) (omega arith)
            p)

-- A dead process's slot is empty after three scans of an attached service, whatever the table of
-- descriptors said of it and whether or not descriptors could be had, if no other process writes to the
-- shared object between them.
pub three_scans :
    (h1 h2 h3 : GcHost) (i p : ℕ) (g : GcState)
    → i < max_processes
    → g.shm.attached ≡ true
    → g.shm.region.process_pids i ≡ p
    → gc_is_process_really_alive h1.status p ≡ false
    → gc_is_process_really_alive h2.status p ≡ false
    → gc_is_process_really_alive h3.status p ≡ false
    → let scan = gc_scan_and_register in
      (scan h3 (scan h2 (scan h1 g))).shm.region.process_pids i ≡ 0
three_scans h1 h2 h3 i p g lt on own d1 d2 d3 =
    let First = λ (x : Slot). IsFree x ⊎ (IsUnregistered p x ⊎ IsRegistered p x) in
    let Second = λ (x : Slot). IsFree x ⊎ IsRegistered p x in
    let g1 = gc_scan_and_register h1 g in
    let g2 = gc_scan_and_register h2 g1 in
    let on1 = scan-attached h1 g ∙ on in
    let one =
      scan-at h1 i (λ x. x.pid ≡ p) First (λ s e. first_scan h1 i p s lt d1 e) g lt on own in
    let two =
      scan-at h2 i First Second
        (λ s r. elim r [
          | inl free ↦ inl (scan_slot-IsFree h2 i s free)
          | inr (inl w) ↦ second_scan h2 i p s lt d2 w
          | inr (inr w) ↦ inl (third_scan h2 i p s lt d2 w)
        ])
        g1 lt on1 one in
    scan-at h3 i Second IsFree
      (λ s r. elim r [
        | inl free ↦ scan_slot-IsFree h3 i s free
        | inr w ↦ third_scan h3 i p s lt d3 w
      ])
      g2 lt (scan-attached h2 g1 ∙ on1) two
