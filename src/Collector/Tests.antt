-- ===== src/Collector/Tests.antt =====
-- src/collector_server_shm.c: the theorems at concrete states.
use mtrdma_artifact.Common.{
  ◌++◌, List, ◌≡◌, ◌⊎◌, refl, true, false, none, some, [], ◌∷◌, arith, ◌==◌, if◌then◌else◌,
  find_index, update,
}
use mtrdma_artifact.Shm.{Shm, no_usage, zero_region, shm_get_process_resources}
use mtrdma_artifact.Shm.Accounts.{IsValid, zero-IsValid}
use mtrdma_artifact.Tenant.State.{zero_shm, zero_info, zero_usage, zero_mapping, active}
use mtrdma_artifact.Tenant.Binding.Lookup.{tenant_of_process}
use mtrdma_artifact.Tenant.Usage.Access.{Uses}
use mtrdma_artifact.Collector.{GcState, GcHost, unregistered, gc_scan_and_register}
use mtrdma_artifact.Collector.Status.{gc_is_process_really_alive}
use mtrdma_artifact.Common.CString.{codes}
use mtrdma_artifact.Collector.Status.{has_prefix, length as bytes}
use mtrdma_artifact.Collector.Living.{state_word, HasState, here, below, scan-HasState}
use mtrdma_artifact.Collector.Reclaim.{three_scans}
use mtrdma_artifact.Collector.Exit.{gc_handle_process_exit}
use mtrdma_artifact.Collector.Thread.{
  Wait, ready, failed, gc_thread_func, WaitsInTable, HasEnded, gc_thread_func-HasEnded,
}
use mtrdma_artifact.Collector.Exit.Run.{exit-Spares, InTable}
use mtrdma_artifact.Collector.Exit.Tenants.{Exits, without, exit-Uses}
use mtrdma_artifact.Collector.Sync.{Maps, SyncHost, length}

-- Process 7 is a zombie, process 8 sleeps, and there are no others.
abbrev host : GcHost
host = record {
  pidfd_open = λ slot. if slot == 3 then none else some 20;
  epoll_add = λ slot. true;
  status = λ pid.
      if pid == 8 then some (codes "Name:app" ++ 10 ∷ (state_word ++ 9 ∷ b'S' ∷ [])) else none;
  os = λ k. record { shm_open = true; ftruncate = true; mmap = true; fstat = true; time = λ t. t };
}

-- Process 7 has slot 3, process 8 has slot 4; 7 is bound to tenant 1.
abbrev service : GcState
service = record {
  table = λ slot.
      if slot == 3 then record { pidfd = some 9; pid = 7; start_time = 0 } else unregistered;
  calls = [];
  shm = record {
    attached = true;
    region = record zero_region {
      process_pids = λ j. if j == 3 then 7 else if j == 4 then 8 else 0;
    };
  };
  tenants = record {
    attached = true;
    shm = record zero_shm {
      tenants =
          update zero_shm.tenants 1
            (record zero_info { status = active; usage = record zero_usage { qp_count = 5 } });
      pid_mappings =
          update zero_shm.pid_mappings 0 (record zero_mapping { pid = 7; tenant_id = 1 });
    };
  };
}

service-IsValid : IsValid service.shm.region
service-IsValid = record {
  balanced = zero-IsValid.balanced;
  in_range = zero-IsValid.in_range;
  unique = λ i j li lj ne e. ground arith;
}

dead_7 : gc_is_process_really_alive host.status 7 ≡ false
unfolding gc_is_process_really_alive
dead_7 = refl

three_scans_example :
    let scan = gc_scan_and_register in
    (scan host (scan host (scan host service))).shm.region.process_pids 3 ≡ 0
three_scans_example =
    three_scans host host host 3 7 service (omega arith) refl refl dead_7 dead_7 dead_7

shown_8 : HasState b'S' (codes "Name:app" ++ 10 ∷ (state_word ++ 9 ∷ b'S' ∷ []))
unfolding bytes has_prefix
shown_8 = below (codes "Name:app") (state_word ++ 9 ∷ b'S' ∷ []) refl (omega arith) refl (here [])

scan-HasState_example :
    shm_get_process_resources 8 (gc_scan_and_register host service).shm
    ≡ shm_get_process_resources 8 service.shm
scan-HasState_example =
    scan-HasState host service 8 b'S' (codes "Name:app" ++ 10 ∷ (state_word ++ 9 ∷ b'S' ∷ []))
      service-IsValid refl shown_8 refl

exit-Spares_example :
    let before = shm_get_process_resources 8 service.shm in
    let after = shm_get_process_resources 8 (gc_handle_process_exit host 3 service).shm in
    (after ≡ before)
    ⊎ ((after ≡ some no_usage)
        × (8 ≡ service.shm.region.process_pids 3)
        × (8 ≡ (service.table 3).pid)
        × (service.shm.region.process_start_times 3 ≡ (service.table 3).start_time))
exit-Spares_example = exit-Spares host 3 service 8 (omega arith) service-IsValid

-- An event for slot 3, and an error.
abbrev waits : List Wait
waits = ready ((3, host) ∷ []) host ∷ ready [] host ∷ failed ∷ []

waits-WaitsInTable : WaitsInTable waits
unfolding WaitsInTable InTable
waits-WaitsInTable = ((omega arith, tt), (tt, tt))

gc_thread_func-HasEnded_example : HasEnded 5 (gc_thread_func (some 5) host waits service)
gc_thread_func-HasEnded_example =
    gc_thread_func-HasEnded 5 host waits service waits-WaitsInTable service-IsValid

-- Process 7 has two queue pairs.
abbrev busy : GcState
busy = record service {
  shm = record (service.shm) {
    region = record (service.shm.region) {
      process_stats = update (λ j. no_usage) 3 (record no_usage { qp_count = 2 });
    };
  };
}

busy-Exits : Exits 3 1 0 (record zero_usage { qp_count = 5 }) busy
unfolding tenant_of_process find_index
busy-Exits = record {
  attached = refl;
  held = refl;
  positive = refl;
  has_qp = refl;
  bound = refl;
  some_tenant = refl;
  small = omega arith;
  uses = record {
    attached = refl;
    inside = omega arith;
    active = refl;
    limit = refl;
    usage = refl;
  };
}

exit-Uses_example :
    Uses 1 0
      (without (busy.shm.region.process_stats 3) (record zero_usage { qp_count = 5 }))
      (gc_handle_process_exit host 3 busy).tenants
exit-Uses_example = exit-Uses host 3 1 0 (record zero_usage { qp_count = 5 }) busy busy-Exits

-- The map has the key 8 only; behind a key that is not there comes the first.
abbrev maps : Maps
maps = record {
  global_usage = none;
  next_key = λ k. if k == 8 then none else some 8;
  usage_of = λ k. if k == 8 then some (record no_usage { qp_count = k }) else none;
}

abbrev sync_host : SyncHost
sync_host = record { stat = λ pid. none; os = host.os }
