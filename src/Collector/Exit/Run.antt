-- ===== src/Collector/Exit/Run.antt =====
-- src/collector_server_shm.c: the shared object under any turns of the reclaiming thread.
use mtrdma_artifact.Common.{
  ℕ, ◌<◌, ◌≡◌, ◌⊎◌, refl, ◌∙◌, not, some, List, [], ◌∷◌, arith, if_intro, inl, inr,
}
use mtrdma_artifact.Shm.{
  no_usage, max_processes, shm_lock, shm_unlock, clear_entry, shm_get_process_resources,
}
use mtrdma_artifact.Shm.Accounts.{IsValid, clear_entry-IsValid, relock-IsValid}
use mtrdma_artifact.Shm.Clear.{get-emptied, get-relock}
use mtrdma_artifact.Collector.{GcState, GcHost, drop_entry, with_region, gc_scan_and_register}
use mtrdma_artifact.Collector.Scan.{scan-IsValid}
use mtrdma_artifact.Collector.Exit.{
  gc_handle_process_exit, holds_registered, handle_events, gc_start, gc_turn, zero_table,
}

exit-IsValid :
    (host : GcHost) (slot : ℕ) (g : GcState)
    → slot < max_processes
    → IsValid g.shm.region
    → IsValid (gc_handle_process_exit host slot g).shm.region
unfolding gc_handle_process_exit shm_lock shm_unlock drop_entry
exit-IsValid host slot g lt v =
    let P = λ (x : GcState). IsValid x.shm.region in
    if_intro P (not g.shm.attached) (λ _. v)
      (λ _.
        if_intro P (holds_registered slot g)
          (λ _. relock-IsValid 0 (clear_entry-IsValid slot lt (relock-IsValid 1 v)))
          (λ _. relock-IsValid 0 (relock-IsValid 1 v)))

-- An event for a slot takes from no other process: a reader gets what it got before, or it gets zero,
-- the process was the slot's when the event was handled, and it is the one with this start time for
-- which the descriptor was registered.
pub exit-Spares :
    (host : GcHost) (slot : ℕ) (g : GcState) (q : ℕ)
    → slot < max_processes
    → IsValid g.shm.region
    → let before = shm_get_process_resources q g.shm in
      let after = shm_get_process_resources q (gc_handle_process_exit host slot g).shm in
      (after ≡ before)
      ⊎ ((after ≡ some no_usage)
          × (q ≡ g.shm.region.process_pids slot)
          × (q ≡ (g.table slot).pid)
          × (g.shm.region.process_start_times slot ≡ (g.table slot).start_time))
unfolding gc_handle_process_exit shm_lock shm_unlock drop_entry
exit-Spares host slot g q lt v =
    let P = λ (x : GcState).
      let after = shm_get_process_resources q x.shm in
      (after ≡ shm_get_process_resources q g.shm)
      ⊎ ((after ≡ some no_usage)
          × (q ≡ g.shm.region.process_pids slot)
          × (q ≡ (g.table slot).pid)
          × (g.shm.region.process_start_times slot ≡ (g.table slot).start_time)) in
    let locked = (with_region shm_lock g).shm in
    let relocked = get-relock 1 g.shm q in
    if_intro P (not g.shm.attached) (λ _. inl refl)
      (λ _.
        if_intro P (holds_registered slot g)
          (λ held.
            let unlocked =
              get-relock 0 (record locked { region = clear_entry slot locked.region }) q in
            elim (get-emptied slot locked q lt (relock-IsValid 1 v)) [
              | inl kept ↦ inl (unlocked ∙ kept ∙ relocked)
              | inr (zeroed, own) ↦
                  inr (unlocked ∙ zeroed, own, ground (arith, held, own), ground (arith, held))
            ])
          (λ _. inl (get-relock 0 locked q ∙ relocked)))

-- What happens to the service: the thread turns, with the events and the answers of that turn.
run_turns : List (GcHost × List (ℕ × GcHost)) → GcState → GcState
run_turns [] g = g
run_turns ((host, events) ∷ turns) g = run_turns turns (gc_turn host events g)

-- Every event names a slot of the table.
unfoldable pub InTable : List (ℕ × GcHost) → Type 0
InTable [] = Unit {0}
InTable ((slot, host) ∷ events) = (slot < max_processes) × InTable events

unfoldable AllInTable : List (GcHost × List (ℕ × GcHost)) → Type 0
AllInTable [] = Unit {0}
AllInTable ((host, events) ∷ turns) = InTable events × AllInTable turns

pub handle_events-IsValid :
    (events : List (ℕ × GcHost)) (g : GcState)
    → InTable events
    → IsValid g.shm.region
    → IsValid (handle_events events g).shm.region
unfolding handle_events InTable
handle_events-IsValid [] g h v = v
handle_events-IsValid ((slot, host) ∷ events) g h v =
    handle_events-IsValid events (gc_handle_process_exit host slot g) h.1
      (exit-IsValid host slot g h.0 v)

run_turns-IsValid :
    (turns : List (GcHost × List (ℕ × GcHost))) (g : GcState)
    → AllInTable turns
    → IsValid g.shm.region
    → IsValid (run_turns turns g).shm.region
unfolding run_turns AllInTable gc_turn
run_turns-IsValid [] g h v = v
run_turns-IsValid ((host, events) ∷ turns) g h v =
    let handled = handle_events events g in
    run_turns-IsValid turns (gc_scan_and_register host handled) h.1
      (scan-IsValid host handled (handle_events-IsValid events g h.0 v))

-- The reclaiming thread, from its start on a valid object and through any turns with any events for
-- slots of the table, keeps the object valid: the global counters are the sums of the processes' ones.
run_turns-start :
    (first : GcHost) (turns : List (GcHost × List (ℕ × GcHost))) (g : GcState)
    → AllInTable turns
    → IsValid g.shm.region
    → IsValid (run_turns turns (gc_start first g)).shm.region
unfolding gc_start
run_turns-start first turns g h v =
    run_turns-IsValid turns (gc_scan_and_register first (record g { table = zero_table })) h
      (scan-IsValid first (record g { table = zero_table }) v)
