-- ===== src/Log/Life.antt =====
-- src/logger.c, src/intercept_core.c: the log over the life of a process.
use mtrdma_artifact.Common.{
  ℕ, ◌≡◌, refl, Bool, true, false, not, ◌&&◌, ◌||◌, Option, none, some, List, [], ◌∷◌, Status, ok,
  arith, if_intro, subst, ltb,
}
use mtrdma_artifact.Config.{FullConfig}
use mtrdma_artifact.Config.Load.{rdma_intercept_load_config}
use mtrdma_artifact.Log.Stdio.{notice, event, Files, fopen, fprintf}
use mtrdma_artifact.Log.{
  LogState, LogHost, rdma_intercept_log, rdma_intercept_log_internal,
  rdma_intercept_log_qp_creation, rdma_intercept_set_log_level, rdma_intercept_set_log_file,
  rdma_intercept_rotate_log, set_config_and_file, is_ignored, fatal, level_changed, info,
}
use mtrdma_artifact.Log.Safety.{
  Sound, IsSound, fprintf-Sound, fclose-fault, fopen-Sound, write_line-IsSound, log-IsSound,
  set_log_file-IsSound, rotate-IsSound, set_config-IsSound,
}
use mtrdma_artifact.Log.Start.{
  is_one, init_if_needed, StartHost, rdma_intercept_init, rdma_intercept_cleanup, write_start,
  resolve, open_log, close_log,
}

-- The start.
write_start-IsSound : (s : LogState) → IsSound s → IsSound (write_start s)
unfolding write_start
write_start-IsSound s v = write_line-IsSound _ _ (
    write_line-IsSound _ _
      (write_line-IsSound _ _ (write_line-IsSound _ _ (write_line-IsSound (notice 0) s v))))

-- The library and its symbols are there.
abbrev pub resolves : StartHost → Bool
resolves host = ((host.libibverbs && host.ibv_create_qp) && host.ibv_reg_mr) && host.ibv_dereg_mr

resolve-ok :
    (host : StartHost) (file : ℕ) (s : LogState)
    → resolves host ≡ true
    → resolve host file s ≡ (ok, write_start s)
unfolding resolve
resolve-ok host file s h = ground (arith, h)

open_log-IsSound :
    (host : StartHost) (new : Option ℕ) (f : Files) (s : LogState)
    → resolves host ≡ true
    → Sound new f
    → IsSound (open_log host (new, f) s).1
unfolding open_log
open_log-IsSound host none f s h v = v
open_log-IsSound host (some file) f s h v =
    let s' : LogState = record s { log_file = some file; files = f } in
    rw (resolve-ok host file s' h) (write_start-IsSound s' v)

fopen_any-Sound :
    (opens : Bool) (path : List ℕ) (f : Files)
    → f.fault ≡ false
    → Sound (fopen opens path f).0 (fopen opens path f).1
unfolding fopen
fopen_any-Sound true path f v = fopen-Sound path f v
fopen_any-Sound false path f v = (v, refl)

init-IsSound :
    (host : StartHost) (s : LogState)
    → resolves host ≡ true
    → IsSound s
    → IsSound (rdma_intercept_init host s).1
unfolding rdma_intercept_init
init-IsSound host s h v =
    let config = rdma_intercept_load_config host.sources s.config in
    let opened = fopen host.opens config.log_file_path s.files in
    if_intro (λ (p : Status × LogState). IsSound p.1) s.initialized (λ _. v)
      λ _.
        open_log-IsSound host opened.0 opened.1 (record s { config = config }) h
          (fopen_any-Sound host.opens config.log_file_path s.files v.0)

close_log-IsSound :
    (file : Option ℕ) (s : LogState) → s.log_file ≡ file → IsSound s → IsSound (close_log file s)
unfolding close_log
close_log-IsSound none s e v = v
close_log-IsSound (some file) s e v =
    let old = subst (λ x. Sound x s.files) e v in
    (
      fclose-fault file (fprintf file (notice 5) s.files)
          (fprintf-Sound file (notice 5) s.files old),
      refl,
    )

cleanup-IsSound : (s : LogState) → IsSound s → IsSound (rdma_intercept_cleanup s)
unfolding rdma_intercept_cleanup
cleanup-IsSound s v =
    if_intro IsSound (not s.initialized) (λ _. v) λ _. close_log-IsSound s.log_file s refl v

-- What a process does to its log.
pub data Call : Type 0 where
  starts : StartHost → Option (List ℕ) → Option (List ℕ) → Call
  stops : Call
  logs : ℕ → List ℕ → Call
  logs_internal : ℕ → List ℕ → Call
  logs_qp : Option (List ℕ) → Call
  sets_level : ℕ → Call
  sets_file : LogHost → Option (List ℕ) → Call
  rotates : LogHost → Call
  sets_config : LogHost → FullConfig → Call

unfoldable pub step : Call → LogState → LogState
step (starts host enable_var qp_ctrl_var) s = init_if_needed host enable_var qp_ctrl_var s
step stops s = rdma_intercept_cleanup s
step (logs level text) s = rdma_intercept_log level text s
step (logs_internal level text) s = rdma_intercept_log_internal level text s
step (logs_qp qp) s = rdma_intercept_log_qp_creation qp s
step (sets_level level) s = (rdma_intercept_set_log_level level s).1
step (sets_file host path) s = (rdma_intercept_set_log_file host path s).1
step (rotates host) s = (rdma_intercept_rotate_log host s).1
step (sets_config host new) s = (set_config_and_file host new s).1

unfoldable pub run : List Call → LogState → LogState
run [] s = s
run (c ∷ cs) s = run cs (step c s)

-- The library is there at a start, and each file that takes the place of another one opens.
abbrev pub Opens : Call → Type 0
Opens (starts host enable_var qp_ctrl_var) = resolves host ≡ true
Opens stops = Unit
Opens (logs level text) = Unit
Opens (logs_internal level text) = Unit
Opens (logs_qp qp) = Unit
Opens (sets_level level) = Unit
Opens (sets_file host path) = host.opens ≡ true
Opens (rotates host) = host.opens ≡ true
Opens (sets_config host new) = host.opens ≡ true

abbrev pub AllOpen : List Call → Type 0
AllOpen [] = Unit
AllOpen (c ∷ cs) = Opens c × AllOpen cs

step-IsSound : (c : Call) (s : LogState) → Opens c → IsSound s → IsSound (step c s)
unfolding step init_if_needed rdma_intercept_log_internal rdma_intercept_log_qp_creation
    rdma_intercept_set_log_level
step-IsSound (starts host enable_var qp_ctrl_var) s h v =
    if_intro IsSound (is_one enable_var || is_one qp_ctrl_var) (λ _. init-IsSound host s h v)
      (λ _. v)
step-IsSound stops s h v = cleanup-IsSound s v
step-IsSound (logs level text) s h v = log-IsSound level text s v
step-IsSound (logs_internal level text) s h v =
    if_intro IsSound (is_ignored level s) (λ _. v) (λ _. write_line-IsSound _ s v)
step-IsSound (logs_qp none) s h v = v
step-IsSound (logs_qp (some qp)) s h v =
    if_intro IsSound (not s.initialized || not s.config.log_qp_creation) (λ _. v)
      λ _. write_line-IsSound (event qp) s v
step-IsSound (sets_level level) s h v =
    if_intro (λ (p : Status × LogState). IsSound p.1) (ltb fatal level) (λ _. v)
      λ _.
        log-IsSound info (level_changed level)
          (record s { config = record (s.config) { log_level = level } }) v
step-IsSound (sets_file host path) s h v = set_log_file-IsSound host path s h v
step-IsSound (rotates host) s h v = rotate-IsSound host s h v
step-IsSound (sets_config host new) s h v = set_config-IsSound host new s h v

-- Over the life of a process, in any order of starts, ends, messages, and changes of the level, the file
-- and the configuration, from a state in which the log file, if there is one, is open: no file is
-- written or closed that is not open, and the log file stays open. The library has to be there at a
-- start, and the files that take the place of others have to open.
pub run-IsSound : (cs : List Call) (s : LogState) → AllOpen cs → IsSound s → IsSound (run cs s)
unfolding run
run-IsSound [] s h v = v
run-IsSound (c ∷ cs) s h v = run-IsSound cs (step c s) h.1 (step-IsSound c s h.0 v)
