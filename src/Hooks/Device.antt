-- ===== src/Hooks/Device.antt =====
-- src/rdma_hooks_tenant.c: the replaced `create_qp_ex` callbacks of the opened devices.
use mtrdma_artifact.Common.{
  ℕ, ◌+◌, ◌<◌, ◌≡◌, ◌≢◌, refl, true, false, not, Option, none, some, if◌then◌else◌, ltb, update,
  find_index, value_at, arith, find_index-some, find_index-none,
}
use mtrdma_artifact.Hooks.{
  HookState, Host, enosys, eperm, Answer, answered, refused, rdma_intercept_is_enabled,
}
use mtrdma_artifact.Hooks.Queue.{
  QpInitAttr, check_qp_creation_restrictions_extended, reserve_and_create,
}

abbrev pub max_verbs_contexts : ℕ
max_verbs_contexts = 16

-- A callback `create_qp_ex` of the driver.
abbrev pub CreateQpEx : Type 0
CreateQpEx = QpInitAttr → Option ℕ

-- The callback that an opened context has: none, the wrapper, or the driver's.
pub data Callback : Type 0 where
  null_callback wrapper_callback : Callback
  driver_callback : CreateQpEx → Callback

-- `g_verb_ctx_table` in two arrays, `g_verb_ctx_count`, and the callback of every opened context; a
-- context without an extended part has none.
pub record Devices : Type 0 where
  pub context : ℕ → ℕ
  pub original_create_qp_ex : ℕ → CreateQpEx
  pub count : ℕ
  pub callback : ℕ → Callback

-- Only a callback of the driver is replaced; it is noted where the table has room.
unfoldable pub replace_callback : ℕ → Callback → Devices → Devices
replace_callback ctx null_callback d = d
replace_callback ctx wrapper_callback d = d
replace_callback ctx (driver_callback f) d =
    let replaced = record d { callback = update d.callback ctx wrapper_callback } in
    if ltb d.count max_verbs_contexts
    then record replaced {
      context = update d.context d.count ctx;
      original_create_qp_ex = update d.original_create_qp_ex d.count f;
      count = d.count + 1;
    }
    else replaced

replace_opened : Option (ℕ × Callback) → Devices → Devices
unfolding replace_callback
replace_opened none d = d
replace_opened (some (ctx, f)) d =
    replace_callback ctx f (record d { callback = update d.callback ctx f })

note_opened : Option (ℕ × Callback) → Devices → Devices
note_opened none d = d
note_opened (some (ctx, f)) d = record d { callback = update d.callback ctx f }

abbrev pub opened_context : Option (ℕ × Callback) → Option ℕ
opened_context none = none
opened_context (some (ctx, f)) = some ctx

-- The real verb gives a context with its callback, or a null pointer.
pub ibv_open_device :
    Option (Unit {0} → Option (ℕ × Callback)) → HookState → Devices → Answer (Option ℕ) × Devices
unfolding replace_opened note_opened
ibv_open_device none s d = (refused enosys, d)
ibv_open_device (some real) s d =
    if not (rdma_intercept_is_enabled s)
    then (answered (opened_context (real tt)), note_opened (real tt) d)
    else (answered (opened_context (real tt)), replace_opened (real tt) d)

unfoldable pub find_original_create_qp_ex : ℕ → Devices → Option CreateQpEx
find_original_create_qp_ex ctx d =
    value_at none (λ i. some (d.original_create_qp_ex i)) (find_index d.context ctx 0 d.count)

-- The wrapper with the callback that was found.
wrapped :
    Host → Option CreateQpEx → QpInitAttr → HookState → Answer (Option ℕ) × QpInitAttr × HookState
wrapped host none attr s = (refused enosys, attr, s)
wrapped host (some original) attr s =
    if not (rdma_intercept_is_enabled s)
    then (answered (original attr), attr, s)
    else if not (check_qp_creation_restrictions_extended host attr s)
    then (refused eperm, attr, s)
    else reserve_and_create host original attr s

pub create_qp_ex_wrapper :
    Host → Devices → ℕ → QpInitAttr → HookState → Answer (Option ℕ) × QpInitAttr × HookState
unfolding find_original_create_qp_ex wrapped
create_qp_ex_wrapper host d ctx attr s = wrapped host (find_original_create_qp_ex ctx d) attr s

-- What an application finds that opens a device whose context has a callback of the driver and
-- creates a queue pair through it. As long as the table has room and the context is not in it, the
-- context gets the wrapper, and the wrapper finds the driver's callback.
pub find_original-open :
    (real : Unit {0} → Option (ℕ × Callback)) (s : HookState) (d : Devices) (ctx : ℕ)
    (f : CreateQpEx)
    → rdma_intercept_is_enabled s ≡ true
    → real tt ≡ some (ctx, driver_callback f)
    → d.count < max_verbs_contexts
    → ((i : ℕ) → i < d.count → d.context i ≢ ctx)
    → let d' = (ibv_open_device (some real) s d).1 in
      (d'.callback ctx ≡ wrapper_callback) × (find_original_create_qp_ex ctx d' ≡ some f)
unfolding ibv_open_device replace_opened replace_callback find_original_create_qp_ex
find_original-open real s d ctx f on e lt new =
    let room : ltb d.count max_verbs_contexts ≡ true = ground arith in
    let last : find_index (update d.context d.count ctx) ctx 0 (d.count + 1) ≡ some d.count =
      find_index-some (update d.context d.count ctx) ctx 0 (d.count + 1) d.count
        (omega arith, omega arith, ground arith, λ j lo below. ground (arith, new j below)) in
    rw (on, e, room) (ground arith, rw last (ground arith))

-- With a full table the context of a device that is not in it gets the wrapper all the same, and
-- every creation of a queue pair through it is refused with ENOSYS.
pub create_qp_ex-open_full :
    (real : Unit {0} → Option (ℕ × Callback)) (s : HookState) (d : Devices) (ctx : ℕ)
    (f : CreateQpEx) (host : Host) (attr : QpInitAttr) (s' : HookState)
    → rdma_intercept_is_enabled s ≡ true
    → real tt ≡ some (ctx, driver_callback f)
    → d.count ≡ max_verbs_contexts
    → ((i : ℕ) → i < d.count → d.context i ≢ ctx)
    → let d' = (ibv_open_device (some real) s d).1 in
      (d'.callback ctx ≡ wrapper_callback)
      × (create_qp_ex_wrapper host d' ctx attr s' ≡ (refused enosys, attr, s'))
unfolding ibv_open_device replace_opened replace_callback create_qp_ex_wrapper
    find_original_create_qp_ex wrapped
create_qp_ex-open_full real s d ctx f host attr s' on e full new =
    let no_room : ltb d.count max_verbs_contexts ≡ false = ground arith in
    let absent : find_index d.context ctx 0 d.count ≡ none =
      find_index-none d.context ctx 0 d.count (λ j lo lt. new j (omega arith)) in
    rw (on, e, no_room) (ground arith, rw absent refl)
