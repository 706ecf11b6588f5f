-- ===== src/Log/Filter.antt =====
-- src/logger.c: which messages come to the file.
use mtrdma_artifact.Common.{
  ℕ, ◌≡◌, refl, sym, ap, ◌≢◌, ◌∙◌, Bool, true, false, Option, some, List, [], ◌∷◌, ◌++◌, arith,
  if◌then◌else◌, ltb,
}
use mathlib.Core.List.{append_assoc, append-nil}
use mtrdma_artifact.Config.{FullConfig}
use mtrdma_artifact.Log.Stdio.{Line, message, fprintf}
use mtrdma_artifact.Log.{LogState, buffered, write_line, rdma_intercept_log}

-- The messages, one after the other.
unfoldable pub log_all : List (ℕ × List ℕ) → LogState → LogState
log_all [] s = s
log_all ((level, text) ∷ ms) s = log_all ms (rdma_intercept_log level text s)

-- Those of at least the level of the configuration, cut to the size of the buffer.
abbrev pub kept : ℕ → List (ℕ × List ℕ) → List Line
kept least [] = []
kept least ((level, text) ∷ ms) =
    let rest = kept least ms in
    if ltb level least then rest else message level false (buffered text) ∷ rest

-- The file that the log is written to.
pub record Logs (file : ℕ) (s : LogState) : Type 0 where
  pub h : ℕ
  pub initialized : s.initialized ≡ true
  pub log_file : s.log_file ≡ some h
  pub opened : s.files.handle h ≡ some file

-- One message: the file grows by it or stays, and the rest of the state is kept.
log_lem :
    (level : ℕ) (text : List ℕ) (file : ℕ) (s : LogState)
    → Logs file s
    → let s' = rdma_intercept_log level text s in
      (s'.initialized ≡ s.initialized)
      × (s'.config ≡ s.config)
      × (s'.log_file ≡ s.log_file)
      × (s'.files.handle ≡ s.files.handle)
      × (s'.files.contents file ≡ (
          if ltb level s.config.log_level
          then s.files.contents file
          else s.files.contents file ++ message level false (buffered text) ∷ []))
unfolding rdma_intercept_log write_line fprintf
log_lem level text file s l = ground (arith, l.initialized, l.log_file, l.opened)

log-other :
    (level : ℕ) (text : List ℕ) (file other : ℕ) (s : LogState)
    → Logs file s
    → file ≢ other
    → (rdma_intercept_log level text s).files.contents other ≡ s.files.contents other
unfolding rdma_intercept_log write_line fprintf
log-other level text file other s l ne = ground (arith, l.initialized, l.log_file, l.opened)

pub log-Logs :
    (level : ℕ) (text : List ℕ) (file : ℕ) (s : LogState)
    → Logs file s
    → Logs file (rdma_intercept_log level text s)
log-Logs level text file s l =
    let (started, config, log_file, handle, lines) = log_lem level text file s l in
    record {
      h = l.h;
      initialized = started ∙ l.initialized;
      log_file = log_file ∙ l.log_file;
      opened = ap (λ (f : ℕ → Option ℕ). f l.h) handle ∙ l.opened;
    }

append_kept :
    (ignored : Bool) (old : List Line) (line : Line) (rest : List Line)
    → (if ignored then old else old ++ line ∷ []) ++ rest
      ≡ old ++ (if ignored then rest else line ∷ rest)
append_kept true old line rest = refl
append_kept false old line rest = append_assoc old (line ∷ []) rest

-- While the log is on: of any messages, exactly those come to the file, in order and behind what it
-- held, whose level is at least that of the configuration, each cut to 4095 bytes; and no other file is
-- written.
pub log_all-kept :
    (ms : List (ℕ × List ℕ)) (file : ℕ) (s : LogState)
    → Logs file s
    → let f = (log_all ms s).files in
      (f.contents file ≡ s.files.contents file ++ kept s.config.log_level ms)
      × ((other : ℕ) → file ≢ other → f.contents other ≡ s.files.contents other)
unfolding log_all
log_all-kept [] file s l = (sym (append-nil _), λ other ne. refl)
log_all-kept ((level, text) ∷ ms) file s l =
    let s' = rdma_intercept_log level text s in
    let (started, config, log_file, handle, lines) = log_lem level text file s l in
    let (rest, others) = log_all-kept ms file s' (log-Logs level text file s l) in
    (
      rest
          ∙ ap (λ xs. xs ++ kept s'.config.log_level ms) lines
          ∙ ap
              (λ (c : FullConfig).
                (if ltb level s.config.log_level
                  then s.files.contents file
                  else s.files.contents file ++ message level false (buffered text) ∷ [])
                ++ kept c.log_level ms)
              config
          ∙ append_kept (ltb level s.config.log_level) (s.files.contents file)
              (message level false (buffered text)) (kept s.config.log_level ms),
      λ other ne. others other ne ∙ log-other level text file other s l ne,
    )
