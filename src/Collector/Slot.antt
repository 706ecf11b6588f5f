-- ===== src/Collector/Slot.antt =====
-- src/collector_server_shm.c: what a scan does to the slot of a dead process.
use mtrdma_artifact.Common.{
  ℕ, ◌<◌, ◌≡◌, ◌⊎◌, refl, ap, ◌∙◌, true, false, ◌||◌, Option, none, some, arith, ◌==◌, if_intro,
  Bool-cases, Option-cases, inl, inr, ==-eq, is_none, leb, is_negative,
}
use mtrdma_artifact.Shm.{Shm, max_processes, clear_entry}
use mtrdma_artifact.Collector.{
  GcState, GcHost, unwatch_and_close, PidfdEntry, drop_entry, register_fd, gc_register_pidfd,
  is_other_process, close_stale, reclaim, scan_used, scan_slot,
}
use mtrdma_artifact.Collector.Status.{gc_is_process_really_alive}

-- A slot of the shared object and its entry in the table of descriptors.
pub record Slot : Type 0 where
  pub pid : ℕ
  pub start_time : ℕ
  pub entry : PidfdEntry

abbrev pub slot_of : ℕ → GcState → Slot
slot_of i g = record {
  pid = g.shm.region.process_pids i;
  start_time = g.shm.region.process_start_times i;
  entry = g.table i;
}

-- The steps of a slot that holds the dead process `p`: it is free, has no descriptor, or has one that
-- was registered for the process.
abbrev pub IsFree : Slot → Type 0
IsFree x = x.pid ≡ 0

abbrev pub IsUnregistered : ℕ → Slot → Type 0
IsUnregistered p x = (x.pid ≡ p) × (is_none x.entry.pidfd ≡ true)

abbrev pub IsRegistered : ℕ → Slot → Type 0
IsRegistered p x =
    (x.pid ≡ p)
    × (is_none x.entry.pidfd ≡ false)
    × (is_other_process x.entry x.pid x.start_time ≡ false)

register_fd-slot :
    (host : GcHost) (i pid start_time : ℕ) (fd : Option ℕ) (g : GcState)
    → let e = (register_fd host i pid start_time fd g).table i in
      (is_none e.pidfd ≡ true)
      ⊎ ((is_none e.pidfd ≡ false) × (is_other_process e pid start_time ≡ false))
unfolding register_fd
register_fd-slot host i pid start_time none g = inl (ground arith)
register_fd-slot host i pid start_time (some fd) g = elim (Bool-cases (host.epoll_add i)) [
  | inl added ↦ inr (ground (arith, added))
  | inr failed ↦ inl (ground (arith, failed))
]

register_fd-shm :
    (host : GcHost) (i pid start_time : ℕ) (fd : Option ℕ) (g : GcState)
    → (register_fd host i pid start_time fd g).shm ≡ g.shm
unfolding register_fd
register_fd-shm host i pid start_time none g = refl
register_fd-shm host i pid start_time (some fd) g = ground arith

-- Registering the process of a slot.
register-slot :
    (host : GcHost) (i pid start_time : ℕ) (g : GcState)
    → i < max_processes
    → g.shm.region.process_pids i ≡ pid
    → g.shm.region.process_start_times i ≡ start_time
    → let x = slot_of i (gc_register_pidfd host i pid start_time g) in
      IsUnregistered pid x ⊎ IsRegistered pid x
unfolding gc_register_pidfd
register-slot host i pid start_time g lt own since =
    let inside : (is_negative i || leb max_processes i) ≡ false = ground (arith, lt) in
    let closed = record g { calls = unwatch_and_close (g.table i).pidfd g.calls } in
    let same = register_fd-shm host i pid start_time (host.pidfd_open i) closed in
    let pid_same = ap (λ (x : Shm). x.region.process_pids i) same ∙ own in
    let start_same = ap (λ (x : Shm). x.region.process_start_times i) same ∙ since in
    rw inside (elim (register_fd-slot host i pid start_time (host.pidfd_open i) closed) [
      | inl e ↦ inl (pid_same, e)
      | inr (e, match) ↦ inr (pid_same, e, rw (pid_same, start_same) match)
    ])

reclaim-IsFree : (i : ℕ) (g : GcState) → IsFree (slot_of i (reclaim i g))
unfolding clear_entry
reclaim-IsFree i g = ground arith

drop_reclaim-IsFree : (i : ℕ) (g : GcState) → IsFree (slot_of i (drop_entry i (reclaim i g)))
unfolding clear_entry drop_entry
drop_reclaim-IsFree i g = ground arith

-- A slot without a descriptor: it gets one, or is emptied.
scan_without_pidfd :
    (host : GcHost) (i p : ℕ) (g : GcState)
    → i < max_processes
    → gc_is_process_really_alive host.status p ≡ false
    → g.shm.region.process_pids i ≡ p
    → let x = slot_of i (scan_used host i none g) in IsFree x ⊎ IsRegistered p x
unfolding scan_used
scan_without_pidfd host i p g lt dead own =
    let g' = gc_register_pidfd host i p (g.shm.region.process_start_times i) g in
    let P = λ (x : GcState). IsFree (slot_of i x) ⊎ IsRegistered p (slot_of i x) in
    rw own (elim (register-slot host i p (g.shm.region.process_start_times i) g lt own refl) [
      | inl (same, e) ↦ rw (e, dead) (inl (reclaim-IsFree i g'))
      | inr (same, e, match) ↦ rw e (inr (same, e, match))
    ])

-- A slot with a descriptor: if that is the process's, it is emptied; else it may get one.
scan_with_pidfd :
    (host : GcHost) (i p fd : ℕ) (g : GcState)
    → i < max_processes
    → gc_is_process_really_alive host.status p ≡ false
    → g.shm.region.process_pids i ≡ p
    → let x = slot_of i (scan_used host i (some fd) g) in
      IsFree x
      ⊎ ((IsUnregistered p x ⊎ IsRegistered p x)
          × (is_other_process (g.table i) p (g.shm.region.process_start_times i) ≡ true))
unfolding scan_used
scan_with_pidfd host i p fd g lt dead own =
    let start_time = g.shm.region.process_start_times i in
    elim (Bool-cases (is_other_process (g.table i) p start_time)) [
      | inl other ↦
          rw (own, other)
            (inr (register-slot host i p start_time (close_stale fd i g) lt own refl, refl))
      | inr same ↦ rw (own, same, dead) (inl (drop_reclaim-IsFree i g))
    ]

pub scan_slot-IsFree :
    (host : GcHost) (i : ℕ) (g : GcState)
    → IsFree (slot_of i g)
    → IsFree (slot_of i (scan_slot host i g))
unfolding scan_slot drop_entry
scan_slot-IsFree host i g free = rw free (
    if_intro (λ (x : GcState). IsFree (slot_of i x)) (is_none (g.table i).pidfd) (λ _. free)
      (λ _. free))

-- A used slot, by its descriptor.
scan_by_entry :
    (host : GcHost) (i : ℕ) (g : GcState) (pidfd : Option ℕ)
    → (g.shm.region.process_pids i == 0) ≡ false
    → (g.table i).pidfd ≡ pidfd
    → scan_slot host i g ≡ scan_used host i pidfd g
unfolding scan_slot
scan_by_entry host i g pidfd used e = ground (arith, used, e)

module _ (host : GcHost) (i p : ℕ) (g : GcState) (lt : i < max_processes)
    (dead : gc_is_process_really_alive host.status p ≡ false) where
  -- After the first, the second and the third scan.
  pub first_scan :
      g.shm.region.process_pids i ≡ p
      → let x = slot_of i (scan_slot host i g) in IsFree x ⊎ (IsUnregistered p x ⊎ IsRegistered p x)
  first_scan own = elim (Bool-cases (g.shm.region.process_pids i == 0)) [
    | inl free ↦ inl (scan_slot-IsFree host i g (==-eq _ 0 free))
    | inr used ↦ elim (Option-cases (g.table i).pidfd) [
      | inl e ↦
          rw (scan_by_entry host i g none used e)
            (elim (scan_without_pidfd host i p g lt dead own) [
              | inl f ↦ inl f
              | inr r ↦ inr (inr r)
            ])
      | inr (fd, e) ↦
          rw (scan_by_entry host i g (some fd) used e)
            (elim (scan_with_pidfd host i p fd g lt dead own) [
              | inl f ↦ inl f
              | inr (r, other) ↦ inr r
            ])
    ]
  ]

  pub third_scan : IsRegistered p (slot_of i g) → IsFree (slot_of i (scan_slot host i g))
  third_scan (own, has, match) = elim (Bool-cases (g.shm.region.process_pids i == 0)) [
    | inl free ↦ scan_slot-IsFree host i g (==-eq _ 0 free)
    | inr used ↦ elim (Option-cases (g.table i).pidfd) [
      | inl e ↦ absurd (ground (arith, has, e))
      | inr (fd, e) ↦
          rw (scan_by_entry host i g (some fd) used e)
            (elim (scan_with_pidfd host i p fd g lt dead own) [
              | inl f ↦ f
              | inr (r, other) ↦ absurd (ground (arith, other, match, own))
            ])
    ]
  ]

  pub second_scan :
      IsUnregistered p (slot_of i g)
      → let x = slot_of i (scan_slot host i g) in IsFree x ⊎ IsRegistered p x
  second_scan (own, lacks) = elim (Bool-cases (g.shm.region.process_pids i == 0)) [
    | inl free ↦ inl (scan_slot-IsFree host i g (==-eq _ 0 free))
    | inr used ↦ elim (Option-cases (g.table i).pidfd) [
      | inl e ↦ rw (scan_by_entry host i g none used e) (scan_without_pidfd host i p g lt dead own)
      | inr (fd, e) ↦ absurd (ground (arith, lacks, e))
    ]
  ]
