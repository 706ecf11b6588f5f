-- ===== src/Log/Safety.antt =====
-- src/logger.c and src/intercept_core.c: which handles are used.
use mtrdma_artifact.Common.{
  ℕ, ◌≡◌, Bool, true, false, not, Option, none, some, List, [], Status, ok, fail, if◌then◌else◌,
  arith, is_none, if_intro, Option-cases, Status-cases, leb, ◌∙◌, ◌++◌, inl, inr,
}
use mtrdma_artifact.Config.{FullConfig, rdma_intercept_set_config}
use mtrdma_artifact.Config.Text.{length}
use mtrdma_artifact.Log.Stdio.{Line, Files, fopen, open_file, create_file, fclose, fprintf, rename}
use mtrdma_artifact.Log.{
  rdma_intercept_rotate_log, LogState, LogHost, write_line, rdma_intercept_log, close_old,
  use_new_file, rdma_intercept_set_log_file, use_rotated, rotate_from, apply_config,
  set_config_and_file, is_ignored, info, ensure_log_directory, max_config_file_path, is_empty,
}

-- A handle, if there is one, is open.
abbrev pub is_open : Option ℕ → Files → Bool
is_open none f = true
is_open (some h) f = not (is_none (f.handle h))

-- Nothing was done to a handle that is not open, and the log file is open.
abbrev pub Sound : Option ℕ → Files → Type 0
Sound log_file f = (f.fault ≡ false) × (is_open log_file f ≡ true)

abbrev pub IsSound : LogState → Type 0
IsSound s = Sound s.log_file s.files

pub fprintf-Sound :
    (h : ℕ) (line : Line) (f : Files) → Sound (some h) f → Sound (some h) (fprintf h line f)
unfolding fprintf
fprintf-Sound h line f v = ground arith

pub fclose-fault : (h : ℕ) (f : Files) → Sound (some h) f → (fclose h f).fault ≡ false
unfolding fclose
fclose-fault h f v = ground arith

rename-fault : (old new : List ℕ) (f : Files) → (rename old new f).fault ≡ f.fault
unfolding rename
rename-fault old new f = ground arith

pub fopen-Sound :
    (path : List ℕ) (f : Files)
    → f.fault ≡ false
    → Sound (fopen true path f).0 (fopen true path f).1
unfolding fopen open_file create_file
fopen-Sound path f v = ground arith

fopen-some : (path : List ℕ) (f : Files) → is_none (fopen true path f).0 ≡ false
unfolding fopen open_file
fopen-some path f = ground arith

pub write_line-IsSound : (line : Line) (s : LogState) → IsSound s → IsSound (write_line line s)
unfolding write_line
write_line-IsSound line s v = elim (Option-cases s.log_file) [
  | inl e ↦ ground (arith, e)
  | inr (h, e) ↦ ground (arith, e, fprintf-Sound h line s.files)
]

pub log-IsSound :
    (level : ℕ) (text : List ℕ) (s : LogState)
    → IsSound s
    → IsSound (rdma_intercept_log level text s)
unfolding rdma_intercept_log
log-IsSound level text s v =
    if_intro IsSound (is_ignored level s) (λ _. v) (λ _. write_line-IsSound _ s v)

close_old-fault : (s : LogState) → IsSound s → (close_old s).files.fault ≡ false
unfolding close_old
close_old-fault s v = elim (Option-cases s.log_file) [
  | inl e ↦ ground (arith, e)
  | inr (h, e) ↦ ground (arith, e, fclose-fault h s.files)
]

use_new_file-IsSound :
    (path : List ℕ) (new : Option ℕ) (f : Files) (s : LogState)
    → is_none new ≡ false
    → Sound new f
    → IsSound (use_new_file path (new, f) s).1
unfolding use_new_file
use_new_file-IsSound path none f s given v = cc
use_new_file-IsSound path (some h) f s given v =
    log-IsSound info path
      (record s {
        config = record (s.config) { log_file_path = path };
        log_file = some h;
        files = f;
      })
      v

pub set_log_file-IsSound :
    (host : LogHost) (path : Option (List ℕ)) (s : LogState)
    → host.opens ≡ true
    → IsSound s
    → IsSound (rdma_intercept_set_log_file host path s).1
unfolding rdma_intercept_set_log_file
set_log_file-IsSound host none s opens v = v
set_log_file-IsSound host (some path) s opens v =
    if_intro (λ (p : Status × LogState). IsSound p.1) (leb max_config_file_path (length path))
      (λ _. v)
      λ _. elim (Status-cases (ensure_log_directory host path)) [
        | inr e ↦ rw e v
        | inl e ↦
            let old = (close_old s).files in
            rw (e, opens)
              (use_new_file-IsSound path (fopen true path old).0 (fopen true path old).1
                (close_old s) (fopen-some path old) (fopen-Sound path old (close_old-fault s v)))
      ]

use_rotated-IsSound :
    (path backup_path : List ℕ) (new : Option ℕ) (f : Files) (s : LogState)
    → is_none new ≡ false
    → Sound new f
    → IsSound (use_rotated path backup_path (new, f) s).1
unfolding use_rotated
use_rotated-IsSound path backup_path none f s given v = cc
use_rotated-IsSound path backup_path (some h) f s given v =
    log-IsSound info backup_path (record s { log_file = some h; files = f }) v

rotate_from-IsSound :
    (host : LogHost) (file : Option ℕ) (s : LogState)
    → host.opens ≡ true
    → IsSound s
    → Sound file s.files
    → IsSound (rotate_from host file s).1
unfolding rotate_from
rotate_from-IsSound host none s opens v old = v
rotate_from-IsSound host (some h) s opens v old =
    let path = s.config.log_file_path in
    let moved = rename path (path ++ host.suffix) (fclose h s.files) in
    let closed : moved.fault ≡ false =
      rename-fault path (path ++ host.suffix) (fclose h s.files) ∙ fclose-fault h s.files old in
    rw opens (
      if_intro (λ (p : Status × LogState). IsSound p.1) (is_empty path) (λ _. v)
        λ _.
          use_rotated-IsSound path (path ++ host.suffix) (fopen true path moved).0
            (fopen true path moved).1 s (fopen-some path moved) (fopen-Sound path moved closed))

pub rotate-IsSound :
    (host : LogHost) (s : LogState)
    → host.opens ≡ true
    → IsSound s
    → IsSound (rdma_intercept_rotate_log host s).1
unfolding rdma_intercept_rotate_log
rotate-IsSound host s opens v = rotate_from-IsSound host s.log_file s opens v v

apply_config-IsSound :
    (host : LogHost) (path : List ℕ) (r : Status) (config : FullConfig) (s : LogState)
    → host.opens ≡ true
    → IsSound s
    → IsSound (apply_config host path (r, config) s).1
unfolding apply_config
apply_config-IsSound host path fail config s opens v = v
apply_config-IsSound host path ok config s opens v =
    let s' : LogState = record s { config = config } in
    let path_set = (rdma_intercept_set_log_file host (some path) s').1 in
    log-IsSound info [] (if is_empty path then s' else path_set) (
      if_intro IsSound (is_empty path) (λ _. v)
        λ _. set_log_file-IsSound host (some path) s' opens v)

pub set_config-IsSound :
    (host : LogHost) (new : FullConfig) (s : LogState)
    → host.opens ≡ true
    → IsSound s
    → IsSound (set_config_and_file host new s).1
unfolding set_config_and_file
set_config-IsSound host new s opens v =
    let (r, config) = rdma_intercept_set_config (some new) s.config in
    apply_config-IsSound host new.log_file_path r config s opens v
