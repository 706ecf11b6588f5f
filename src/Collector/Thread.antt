-- ===== src/Collector/Thread.antt =====
-- src/collector_server_shm.c: the reclaiming thread as a whole, to the end of the service.
use mtrdma_artifact.Common.{
  ℕ, zero, suc, ◌+◌, ◌<◌, ◌≤◌, ◌≡◌, Bool, true, false, ◌||◌, Option, none, some, List, [], ◌∷◌,
  arith, ◌==◌, Bool-cases, inl, inr, ==-eq, ==-ne,
}
use mtrdma_artifact.Shm.{max_processes}
use mtrdma_artifact.Shm.Accounts.{IsValid}
use mtrdma_artifact.Collector.{
  FdCall, watches, unwatches, closes, PidfdEntry, GcState, GcHost, gc_scan_and_register,
}
use mtrdma_artifact.Collector.Scan.{scan-IsValid}
use mtrdma_artifact.Collector.Exit.{zero_table, handle_events, gc_start, gc_turn}
use mtrdma_artifact.Collector.Exit.Run.{InTable, handle_events-IsValid}

-- What `epoll_wait` returns: -1, or the events in which a descriptor can be read, by their slots and
-- with the answers to the calls of each, and the answers to the scan behind them.
pub data Wait : Type 0 where
  failed : Wait
  ready : List (ℕ × GcHost) → GcHost → Wait

-- The loop, by what it waits for until `running` is 0.
pub gc_loop : List Wait → GcState → GcState
unfolding gc_turn
gc_loop [] g = g
gc_loop (failed ∷ waits) g = g
gc_loop (ready events host ∷ waits) g = gc_loop waits (gc_turn host events g)

abbrev pub close_entry : Option ℕ → List FdCall → List FdCall
close_entry none calls = calls
close_entry (some fd) calls = closes fd ∷ calls

-- The descriptors of the `left` entries from `i` on are closed.
pub close_from : ℕ → ℕ → (ℕ → PidfdEntry) → List FdCall → List FdCall
close_from i zero table calls = calls
close_from i (suc left) table calls =
    close_from (i + 1) left table (close_entry (table i).pidfd calls)

-- What is behind the loop.
pub gc_end : ℕ → GcState → GcState
unfolding close_from
gc_end epoll_fd g = record g {
  calls = closes epoll_fd ∷ close_from 0 max_processes g.table g.calls;
}

-- By the descriptor of `epoll_create1`.
pub gc_thread_func : Option ℕ → GcHost → List Wait → GcState → GcState
unfolding gc_start gc_loop gc_end
gc_thread_func none first waits g = g
gc_thread_func (some epoll_fd) first waits g = gc_end epoll_fd (gc_loop waits (gc_start first g))

abbrev closes_it : ℕ → FdCall → Bool
closes_it fd (closes fd') = fd' == fd
closes_it fd (watches fd' slot) = false
closes_it fd (unwatches fd') = false

-- The calls have a closing of the descriptor.
abbrev pub has_closed : ℕ → List FdCall → Bool
has_closed fd [] = false
has_closed fd (c ∷ calls) = closes_it fd c || has_closed fd calls

close_entry-kept :
    (fd : ℕ) (pidfd : Option ℕ) (calls : List FdCall)
    → has_closed fd calls ≡ true
    → has_closed fd (close_entry pidfd calls) ≡ true
close_entry-kept fd none calls h = h
close_entry-kept fd (some fd') calls h = ground arith

close_from-kept :
    (fd i left : ℕ) (table : ℕ → PidfdEntry) (calls : List FdCall)
    → has_closed fd calls ≡ true
    → has_closed fd (close_from i left table calls) ≡ true
unfolding close_from
close_from-kept fd i zero table calls h = h
close_from-kept fd i (suc left) table calls h =
    close_from-kept fd (i + 1) left table (close_entry (table i).pidfd calls)
      (close_entry-kept fd (table i).pidfd calls h)

own_entry :
    (fd : ℕ) (pidfd : Option ℕ) (calls : List FdCall)
    → pidfd ≡ some fd
    → has_closed fd (close_entry pidfd calls) ≡ true
own_entry fd pidfd calls own = rw own (ground arith)

close_from-closed :
    (fd j i left : ℕ) (table : ℕ → PidfdEntry) (calls : List FdCall)
    → i ≤ j
    → j < i + left
    → (table j).pidfd ≡ some fd
    → has_closed fd (close_from i left table calls) ≡ true
unfolding close_from
close_from-closed fd j i zero table calls lo hi own = ground arith
close_from-closed fd j i (suc left) table calls lo hi own = elim (Bool-cases (i == j)) [
  | inl same ↦
      close_from-kept fd (i + 1) left table _
        (own_entry fd (table i).pidfd calls (rw (==-eq _ _ same) own))
  | inr other ↦
      close_from-closed fd j (i + 1) left table _ (omega (arith, ==-ne _ _ other)) (omega arith) own
]

-- Every event names a slot of the table.
unfoldable pub WaitsInTable : List Wait → Type 0
WaitsInTable [] = Unit {0}
WaitsInTable (failed ∷ waits) = WaitsInTable waits
WaitsInTable (ready events host ∷ waits) = InTable events × WaitsInTable waits

gc_loop-IsValid :
    (waits : List Wait) (g : GcState)
    → WaitsInTable waits
    → IsValid g.shm.region
    → IsValid (gc_loop waits g).shm.region
unfolding gc_loop gc_turn WaitsInTable
gc_loop-IsValid [] g h v = v
gc_loop-IsValid (failed ∷ waits) g h v = v
gc_loop-IsValid (ready events host ∷ waits) g h v =
    let handled = handle_events events g in
    gc_loop-IsValid waits (gc_scan_and_register host handled) h.1
      (scan-IsValid host handled (handle_events-IsValid events g h.0 v))

-- The thread has left nothing open, and the object is valid.
pub record HasEnded (epoll_fd : ℕ) (g : GcState) : Type 0 where
  pub valid : IsValid g.shm.region
  pub epoll : has_closed epoll_fd g.calls ≡ true
  pub closed :
      (slot : ℕ)
      → slot < max_processes
      → (fd : ℕ) → (g.table slot).pidfd ≡ some fd
      → has_closed fd g.calls ≡ true

-- The reclaiming thread from its start on a valid object to its end, with any events for slots of the
-- table and any error of epoll_wait: at the end the global counters are the sums of the processes' ones
-- and no two slots hold the same process, every descriptor that is left in the table has been closed,
-- and so has the one of epoll.
pub gc_thread_func-HasEnded :
    (epoll_fd : ℕ) (first : GcHost) (waits : List Wait) (g : GcState)
    → WaitsInTable waits
    → IsValid g.shm.region
    → HasEnded epoll_fd (gc_thread_func (some epoll_fd) first waits g)
unfolding gc_thread_func gc_end gc_start
gc_thread_func-HasEnded epoll_fd first waits g h v =
    let started = gc_scan_and_register first (record g { table = zero_table }) in
    let ended = gc_loop waits started in
    record {
      valid =
          gc_loop-IsValid waits started h (scan-IsValid first (record g { table = zero_table }) v);
      epoll = ground arith;
      closed = λ slot lt fd own.
          let c =
            close_from-closed fd slot 0 max_processes ended.table ended.calls (omega arith)
              (omega arith) own in
          ground (arith, c);
    }
