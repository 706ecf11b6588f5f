-- ===== src/Lib.antt =====
-- RDMA multi-tenant resource isolation: a library that is preloaded into RDMA applications, counts
-- their queue pairs, memory regions and other objects per process and per tenant, and refuses what
-- exceeds a quota.
--
-- The parts and how they interact. Every process maps two shared objects. `src/shm/shared_memory.c`
-- keeps a table of usage per process with global counters and limits; `src/shm/shared_memory_tenant.c`
-- keeps the tenants, their quotas and usage, and the table of the processes bound to them. Each
-- operation on an object runs under the spin lock inside it. `src/rdma_hooks_tenant.c` intercepts the
-- verbs: it derives the tenant of the process, checks and reserves in the two objects, calls the real
-- verb, and counts or rolls back. `src/dynamic_policy_manager.c` keeps the configured limits of a
-- process under a mutex and copies the global ones into the first object.
-- `src/performance_optimizer.c` caches the usage of processes and gathers updates of the first object.
-- `src/collector_server_shm.c` is a service of its own that copies the kernel's figures into the first
-- object and takes back what processes held that have exited, from both objects. `src/config.c` reads
-- the configuration of the hooks from the environment and a file, `src/intercept_core.c` starts and ends
-- the interception, and `src/logger.c` writes its log. `src/tenant_manager_daemon.c` changes the tenants by
-- commands from a socket, which `src/tenant_manager_client.c` sends. `src/ebpf` reads the kernel's figures,
-- or the first object where there are none.
--
-- Files and source.
--   Common           library names, Boolean tests, C arrays as functions with the search loops (Arrays,
--                    Search), their sums (Sums), machine words (Words), answers of the system (Host),
--                    tables of keys and values (Table), C string functions (CString)
--   Shm              src/shm/shared_memory.c; children: ProcStat (the start time in /proc/[pid]/stat),
--                    and proofs on the counters (Accounts), on reading after writing (Lookup), after
--                    clearing (Clear), on refusal (Failure), on limits (Limits), on sequences (History)
--   Tenant           src/shm/shared_memory_tenant.c: State (types, attachment, lock), Admin (create,
--                    delete, info, status, quota), Binding (bind, unbind, look up), Usage (accounting,
--                    checks, allocation, lists), History (sequences of operations)
--   Policy           src/dynamic_policy_manager.c: children Mutex, Limits, File (load and save), Tenants
--   Hooks            src/rdma_hooks_tenant.c and the state of src/intercept_core.c: RateLimit, Identity
--                    (the tenant of a process) and Derive (which tenant that is), Start (what is done
--                    once before the first call), Counting, Queue (with Reservation), Memory, Device
--   Tenant.Race      the allocation of a queue pair by threads at once, in steps of one memory access:
--                    Exclusion, Account and Quota (what is granted), Progress
--   Optimizer        src/performance_optimizer.c: Cache (with History), Batch (with View,
--                    Buffer and Run), Tuning, Ranges, and Bounds on any calls
--   Collector        src/collector_server_shm.c: Status (is a process alive) and Living (by proc(5)),
--                    Scan, Slot and Reclaim (the scan of the table), Exit (an exit, with Run and
--                    Tenants), Thread (from its start to its end), Sync (limits and figures)
--   Config           src/config.c: Text (strings and values), Load (environment and file), Bounds, Priority
--   Log              src/logger.c: Stdio (names, handles and lines of files), Start (src/intercept_core.c),
--                    Safety and Life (which handles are used), Filter, Rotate, Dangling
--   Ebpf             src/ebpf: Tenants (the loop over the tenants, and the map from processes to tenants),
--                    Attach (start and clean up), Fallback (without the kernel's maps)
--   Json             what the daemon and the client use of json-c: its operations and laws, Rules (the laws
--                    as a set), and Tree, an instance that meets them
--   Daemon           src/tenant_manager_daemon.c: Response (commands and answers as JSON), Serve (any
--                    commands), Live (a new quota is in force), Loop (the command line, the socket, the
--                    signals and the loop), Lifetime (from the start to the signal)
--   Client           src/tenant_manager_client.c: Print (what is printed of an answer), Asked (the commands),
--                    Shown (the answers), Session (with the daemon), Live (a new quota is seen)
-- Every function has the name that it has in C, and its state as the last argument and the last part of
-- its result. A helper that ends in _locked is the part between taking and releasing a lock.
--
-- Conventions. A C integer is a natural number below 2 ^ w, an `int` its bit pattern, with `% 2 ^ w`
-- after every addition and subtraction; `is_negative` reads the sign. A null argument is `none`; an
-- out parameter is part of the result, and is taken to be no null pointer. What the system answers to
-- a call is an argument (Os, Host), as are the real verbs and the formats of the C library. The state
-- of an object belongs to one process at a time, Tenant.Race apart: an operation is one critical
-- section, and sequences of operations by different processes are lists of calls. The clock readings
-- of an operation are numbered in the order of the calls; the calls of a hook on the shared objects
-- are numbered, and the number picks what the system answers to it. A mutex that its caller holds is
-- `none`: the call does not return.
--
-- Bounds. The loops over the 1024 slots and the 128 tenants are structural recursions on the number of
-- slots left, started with those constants. The lines of /proc/[pid]/status are read on fuel, one for
-- each byte, as no line is empty; the traversal of a kernel map runs on fuel too, and ends after one
-- test more than there are keys. A loop that still runs when its fuel ends, and a store behind an
-- array of the monitors, are `none`. The loop of the daemon runs through the turns that it is given,
-- and `none` says that it still runs; that of the reclaiming thread ends with its turns, as `running`
-- is then 0.
--
-- Not modelled. The interleaving of two critical sections, except for the allocation of queue pairs;
-- the mapping and the file descriptors beyond whether the system calls succeed; the addresses of the
-- real verbs that dlsym gives; printing. An entry of the optimizer's cache and its buffer are used by
-- one thread at a time, and the release of the buffer's mutex around the flush of a full buffer is
-- left out. The floating point comparisons of the optimizer are parameters. Outside the model are also
-- main of src/collector_server_shm.c and its sleeping thread that copies. A signal that ends the
-- daemon comes before FD_SET, between select and accept, or at the end of a turn; a client may be gone
-- before its answer, or the newline behind it, is sent, and a command may be null, which ends the
-- daemon too; a client that neither sends nor closes is left out. The maps of the kernel do not change
-- during a call that goes through them. json-c is a parameter with its documented behaviour, and so
-- are the maps of the kernel and libbpf; the C library's files, strings and numbers are modelled. A
-- text that is sent arrives whole if it fits the buffer of its reader. A file handle is never used
-- twice. Results:
pub mod Common
pub mod Shm
pub mod Tenant
pub mod Policy
pub mod Hooks
pub mod Optimizer
pub mod Collector
pub mod Config
pub mod Daemon
pub mod Log
pub mod Ebpf
pub mod Json
pub mod Client
