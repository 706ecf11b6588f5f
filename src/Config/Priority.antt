-- ===== src/Config/Priority.antt =====
-- src/config.c: the file against the environment, and setting against getting.
use mtrdma_artifact.Common.{
  ℕ, ◌≡◌, refl, ap, ◌∙◌, ◌&&◌, some, List, [], ◌∷◌, ◌++◌, ok, fail, arith, if◌then◌else◌, ltb, leb,
}
use mtrdma_artifact.Config.Text.{parse_positive, trim_whitespace, length}
use mtrdma_artifact.Config.{
  FullConfig, parse_config_line, kind_of_line, setting, max_global_qp, parse_value,
  rdma_intercept_set_config, rdma_intercept_get_config,
}
use mtrdma_artifact.Config.Load.{
  Sources, load_config_from_env, parse_lines, cut_line, or_old, rdma_intercept_load_config,
  load_file, chosen_file,
}

parse_lines-++ :
    (xs ys : List (List ℕ)) (c : FullConfig)
    → parse_lines (xs ++ ys) c ≡ parse_lines ys (parse_lines xs c)
unfolding parse_lines
parse_lines-++ [] ys c = refl
parse_lines-++ (x ∷ xs) ys c = parse_lines-++ xs ys (or_old (parse_config_line (cut_line x) c) c)

-- A line that sets the limit of queue pairs.
setting_line :
    (line v : List ℕ) (n : ℕ) (c : FullConfig)
    → kind_of_line (trim_whitespace (cut_line line)) ≡ setting max_global_qp v
    → parse_positive v ≡ some n
    → (parse_lines (line ∷ []) c).config.max_global_qp ≡ n
unfolding parse_lines parse_config_line parse_value
setting_line line v n c sets number = rw (sets, number) refl

-- The file wins against the environment: if the last line of the file that is read sets
-- `max_global_qp` to a number that is let through, then that is the limit, whatever the lines before it
-- and the environment say.
pub load-last_line :
    (src : Sources) (c : FullConfig) (lines : List (List ℕ)) (line v : List ℕ) (n : ℕ)
    → chosen_file src ≡ some (lines ++ line ∷ [])
    → kind_of_line (trim_whitespace (cut_line line)) ≡ setting max_global_qp v
    → parse_positive v ≡ some n
    → (rdma_intercept_load_config src c).config.max_global_qp ≡ n
unfolding rdma_intercept_load_config
load-last_line src c lines line v n file sets number =
    let from_env = load_config_from_env src.getenv c in
    ap (λ f. (load_file f from_env).config.max_global_qp) file
    ∙ ap (λ (x : FullConfig). x.config.max_global_qp) (parse_lines-++ lines (line ∷ []) from_env)
    ∙ setting_line line v n (parse_lines lines from_env) sets number

-- `rdma_intercept_set_config` succeeds exactly for a known log level and a path that fits its array, and
-- then `rdma_intercept_get_config` gives what was set; else it gives what it gave before.
pub get_config-set_config :
    (new c : FullConfig)
    → let (r, c') = rdma_intercept_set_config (some new) c in
      let valid = leb new.log_level 4 && ltb (length new.log_file_path) 256 in
      (r ≡ (if valid then ok else fail))
      × (rdma_intercept_get_config c' ≡ (if valid then new else rdma_intercept_get_config c))
unfolding rdma_intercept_set_config rdma_intercept_get_config
get_config-set_config new c = ground arith
