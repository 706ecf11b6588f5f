-- ===== src/Hooks/RateLimit.antt =====
-- src/rdma_hooks_tenant.c: the rate limit on memory region operations.
use Prim.Native.Nat.{min}
use mtrdma_artifact.Common.{
  ℕ, ◌+◌, ◌*◌, ◌/◌, ◌%◌, ◌-◌, ◌≤◌, ◌<◌, ◌≡◌, refl, Bool, true, false, not, ◌&&◌, ◌||◌, List, [],
  ◌∷◌, arith, if◌then◌else◌, suc, ltb, leb, ◌==◌, u64_mod, add64, sub64, Bool-cases, inl, inr,
}
use mtrdma_artifact.Hooks.{InterceptConfig, Timespec, HookState, Host}

-- `get_time_ms`, and the same sum for the start of the window.
unfoldable pub time_ms : Timespec → ℕ
time_ms t = add64 ((t.tv_sec * 1000) % u64_mod) (t.tv_nsec / 1000000)

abbrev pub window_ms : InterceptConfig → ℕ
window_ms c = if ltb 0 c.mr_rate_limit_window_ms then c.mr_rate_limit_window_ms else 1000

-- `max_ops_in_window`, at least 1.
pub max_ops : InterceptConfig → ℕ
max_ops c =
    let n = ((c.max_mr_ops_per_sec * window_ms c) % u64_mod) / 1000 in if ltb n 1 then 1 else n

-- The window has not been started, or is over at `now`.
unfoldable pub needs_window : InterceptConfig → Timespec → Timespec → Bool
unfolding time_ms
needs_window c start now =
    (start.tv_sec == 0 && start.tv_nsec == 0)
    || leb (window_ms c) (sub64 (time_ms now) (time_ms start))

pub check_mr_rate_limit : Host → HookState → Bool × HookState
unfolding max_ops needs_window
check_mr_rate_limit host s =
    if not s.config.enable_mr_rate_limit || (s.config.max_mr_ops_per_sec == 0)
    then (true, s)
    else let fresh = needs_window s.config s.mr_rate_window_start (host.clock 0) in
      let start = if fresh then host.clock 1 else s.mr_rate_window_start in
      let count = if fresh then 0 else s.mr_op_count_in_window in
      if ltb count (max_ops s.config)
      then (true, record s { mr_rate_window_start = start; mr_op_count_in_window = add64 count 1 })
      else (false, record s { mr_rate_window_start = start; mr_op_count_in_window = count })

-- Calls one after the other: how many are allowed, and the state behind them.
pub allowed : List Host → HookState → ℕ
allowed [] s = 0
allowed (host ∷ hosts) s =
    let (r, s') = check_mr_rate_limit host s in (if r then 1 else 0) + allowed hosts s'

pub after_checks : List Host → HookState → HookState
after_checks [] s = s
after_checks (host ∷ hosts) s = after_checks hosts (check_mr_rate_limit host s).1

abbrev pub number : List Host → ℕ
number [] = 0
number (host ∷ hosts) = suc (number hosts)

-- Every call reads a clock in the window that starts at `start`.
abbrev pub AllInWindow : InterceptConfig → Timespec → List Host → Type 0
AllInWindow c start [] = Unit {0}
AllInWindow c start (host ∷ hosts) =
    (needs_window c start (host.clock 0) ≡ false) × AllInWindow c start hosts

-- The limit is on, and `used` operations have been allowed in the window.
pub record HasUsed (c : InterceptConfig) (start : Timespec) (used : ℕ) (s : HookState)
    : Type 0 where
  pub same : s.config ≡ c
  pub on : (not c.enable_mr_rate_limit || (c.max_mr_ops_per_sec == 0)) ≡ false
  pub started : s.mr_rate_window_start ≡ start
  pub count : s.mr_op_count_in_window ≡ used

pub max_ops-lt : (c : InterceptConfig) → max_ops c < u64_mod
unfolding max_ops
max_ops-lt c = ground arith

recount :
    (c : InterceptConfig) (start : Timespec) {n m : ℕ} (s : HookState)
    → n ≡ m
    → HasUsed c start n s
    → HasUsed c start m s
recount c start s e h = record {
  same = h.same;
  on = h.on;
  started = h.started;
  count = omega (arith, h.count);
}

check_in_window :
    (host : Host) (c : InterceptConfig) (start : Timespec) (used : ℕ) (s : HookState)
    → HasUsed c start used s
    → needs_window c start (host.clock 0) ≡ false
    → ((check_mr_rate_limit host s).0 ≡ ltb used (max_ops c))
      × HasUsed c start
          (if ltb used (max_ops c) then used + 1 else used)
          (check_mr_rate_limit host s).1
unfolding check_mr_rate_limit
check_in_window host c start used s h inside =
    let limited : (not s.config.enable_mr_rate_limit || (s.config.max_mr_ops_per_sec == 0))
        ≡ false =
      rw h.same h.on in
    let still : needs_window s.config s.mr_rate_window_start (host.clock 0) ≡ false =
      rw (h.same, h.started) inside in
    elim (Bool-cases (ltb used (max_ops c))) [
      | inl room ↦
          rw (limited, still, h.count, h.same, room)
            (
              refl,
              record {
                same = refl;
                on = h.on;
                started = h.started;
                count = ground (arith, max_ops-lt c);
              },
            )
      | inr full ↦
          rw (limited, still, h.count, h.same, full)
            (refl, record { same = refl; on = h.on; started = h.started; count = refl })
    ]

-- Within one window, which no call's clock ends, exactly as many of the operations are allowed as
-- are left of the window's limit, or all of them if that is more; and the counter is then the number
-- of those allowed since the window started.
pub allowed_exact :
    (hosts : List Host) (c : InterceptConfig) (start : Timespec) (used : ℕ) (s : HookState)
    → HasUsed c start used s
    → AllInWindow c start hosts
    → used ≤ max_ops c
    → (allowed hosts s ≡ min (number hosts) (max_ops c - used))
      × HasUsed c start (used + min (number hosts) (max_ops c - used)) (after_checks hosts s)
unfolding allowed after_checks
allowed_exact [] c start used s h all le = (omega arith, recount c start s (omega arith) h)
allowed_exact (host ∷ hosts) c start used s h all le =
    let (r, h') = check_in_window host c start used s h all.0 in
    elim (Bool-cases (ltb used (max_ops c))) [
      | inl room ↦
          let below : used < max_ops c = ground arith in
          let used' : HasUsed c start (used + 1) (check_mr_rate_limit host s).1 =
            recount c start _ (ground arith) h' in
          let ih = allowed_exact hosts c start (used + 1) _ used' all.1 (omega arith) in
          rw (r, room) (omega (arith, ih.0), recount c start _ (omega arith) ih.1)
      | inr full ↦
          let above : max_ops c ≤ used = ground arith in
          let used' : HasUsed c start used (check_mr_rate_limit host s).1 =
            recount c start _ (ground arith) h' in
          let ih = allowed_exact hosts c start used _ used' all.1 le in
          rw (r, full) (omega (arith, ih.0), recount c start _ (omega arith) ih.1)
    ]
