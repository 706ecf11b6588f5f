-- ===== src/Daemon/Response.antt =====
-- src/tenant_manager_daemon.c: a command and an answer as texts, over one connection.
use Prim.Native.String.{String}
use mtrdma_artifact.Common.{
  ℕ, suc, Bool, true, false, Option, none, some, List, [], ◌∷◌, ◌++◌, Os, if◌then◌else◌,
}
use mtrdma_artifact.Common.CString.{codes}
use mtrdma_artifact.Json.{JsonC}
use mtrdma_artifact.Tenant.State.{
  TenantInfo, TenantStatus, inactive, active, suspended, TenantState,
}
use mtrdma_artifact.Daemon.{
  Request, Refusal, invalid_json, missing_cmd, unknown_command, missing_fields, missing_tenant,
  update_failed, create_failed, delete_failed, not_found, Reply, refused, updated, created, deleted,
  status_of, all_status, tenant_list, process_command,
}

abbrev pub status_number : TenantStatus → ℕ
status_number inactive = 0
status_number active = 1
status_number suspended = 2

abbrev pub refusal_message : Refusal → List ℕ
refusal_message invalid_json = codes "Invalid JSON"
refusal_message missing_cmd = codes "Missing 'cmd' field"
refusal_message unknown_command = codes "Unknown command"
refusal_message missing_fields = codes "Missing required fields: tenant, qp"
refusal_message missing_tenant = codes "Missing required field: tenant"
refusal_message update_failed = codes "Failed to update quota"
refusal_message create_failed = codes "Failed to create tenant"
refusal_message delete_failed = codes "Failed to delete tenant"
refusal_message not_found = codes "Tenant not found"

abbrev pub map_option {ℓ κ} : {A : Type ℓ} {B : Type κ} → (A → B) → Option A → Option B
map_option f none = none
map_option f (some a) = some (f a)

abbrev pub length {ℓ} : {A : Type ℓ} → List A → ℕ
length [] = 0
length (x ∷ xs) = suc (length xs)

module _ (J : JsonC) where
  open J use {
    Value, Text, new_object, new_array, new_string, new_int, new_int64, new_boolean, object_add,
    array_add, object_get_ex, is_null, get_string, get_int, get_int64, to_json_string,
    tokener_parse, cut,
  }

  unfoldable pub build_response : Bool → List ℕ → Option Value → Value
  build_response success message payload =
      let resp = object_add new_object "success" (new_boolean success) in
      let resp' = object_add resp "message" (new_string message) in
      elim payload [ none ↦ resp' | some v ↦ object_add resp' "data" v ]

  -- An object with these fields, added in order.
  unfoldable pub add_fields : List (String × Value) → Value → Value
  add_fields [] o = o
  add_fields ((k, v) ∷ fs) o = add_fields fs (object_add o k v)

  -- The fields that every view of a tenant has.
  unfoldable pub list_object : TenantInfo → Value
  unfolding add_fields
  list_object t =
      add_fields
        (("id", new_int t.tenant_id)
          ∷ ("name", new_string t.tenant_name)
          ∷ ("qp_used", new_int t.usage.qp_count)
          ∷ ("qp_limit", new_int t.quota.max_qp_per_tenant)
          ∷ ("mr_used", new_int t.usage.mr_count)
          ∷ ("mr_limit", new_int t.quota.max_mr_per_tenant)
          ∷ [])
        new_object

  -- In the answer for all tenants.
  unfoldable pub status_object : TenantInfo → Value
  unfolding add_fields
  status_object t =
      add_fields
        (("id", new_int t.tenant_id)
          ∷ ("name", new_string t.tenant_name)
          ∷ ("status", new_int (status_number t.status))
          ∷ ("qp_used", new_int t.usage.qp_count)
          ∷ ("qp_limit", new_int t.quota.max_qp_per_tenant)
          ∷ ("mr_used", new_int t.usage.mr_count)
          ∷ ("mr_limit", new_int t.quota.max_mr_per_tenant)
          ∷ ("memory_used", new_int64 t.usage.memory_used)
          ∷ ("memory_limit", new_int64 t.quota.max_memory_per_tenant)
          ∷ [])
        new_object

  -- In the answer for one tenant.
  unfoldable pub tenant_object : TenantInfo → Value
  unfolding status_object add_fields
  tenant_object t =
      add_fields
        (("total_qp_creates", new_int64 t.usage.total_qp_creates)
          ∷ ("total_mr_regs", new_int64 t.usage.total_mr_regs)
          ∷ [])
        (status_object t)

  -- `json_object_array_add` for each tenant.
  unfoldable pub array_of : (TenantInfo → Value) → List TenantInfo → Value → Value
  array_of object [] a = a
  array_of object (t ∷ ts) a = array_of object ts (array_add a (object t))

  unfoldable pub list_data : ℕ → List TenantInfo → Value
  unfolding add_fields array_of list_object
  list_data version ts =
      add_fields
        (("count", new_int (length ts))
          ∷ ("version", new_int64 version)
          ∷ ("tenants", array_of list_object ts new_array)
          ∷ [])
        new_object

  -- The null pointer for null, or the bytes.
  unfoldable pub string_of : Value → Option (List ℕ)
  string_of v = if is_null v then none else some (get_string v)

  -- The word of the command is null.
  unfoldable pub has_null_cmd : Option Value → Bool
  has_null_cmd none = false
  has_null_cmd (some v) = elim (object_get_ex v "cmd") [ none ↦ false | some cmd ↦ is_null cmd ]

  -- What the handlers read of a parsed command, whose word is not null.
  unfoldable pub request_of : Value → Request
  unfolding string_of
  request_of v = record {
    cmd = map_option get_string (object_get_ex v "cmd");
    tenant = map_option get_int (object_get_ex v "tenant");
    name = map_option string_of (object_get_ex v "name");
    qp = map_option get_int (object_get_ex v "qp");
    mr = map_option get_int (object_get_ex v "mr");
    memory = map_option get_int64 (object_get_ex v "memory");
  }

-- `format_u` is the format %u of `snprintf`.
module _ (J : JsonC) (format_u : ℕ → List ℕ) where
  open J use {
    Value, Text, new_object, new_array, new_string, new_int, new_int64, new_boolean, object_add,
    array_add, object_get_ex, is_null, get_string, get_int, get_int64, to_json_string,
    tokener_parse, cut,
  }

  unfoldable pub response_of : Reply → Value
  unfolding build_response tenant_object status_object array_of list_data
  response_of (refused r) = build_response J false (refusal_message r) none
  response_of (updated id) =
      build_response J true (codes "Quota updated for tenant " ++ format_u id) none
  response_of (created id) =
      build_response J true (codes "Tenant " ++ (format_u id ++ codes " created")) none
  response_of (deleted id) =
      build_response J true (codes "Tenant " ++ (format_u id ++ codes " deleted")) none
  response_of (status_of t) =
      build_response J true (codes "Tenant status") (some (tenant_object J t))
  response_of (all_status ts) =
      build_response J true (codes "All tenants status")
        (some (array_of J (status_object J) ts new_array))
  response_of (tenant_list version ts) =
      build_response J true (codes "Tenant list") (some (list_data J version ts))

  unfoldable pub reply_to : Os → Option Value → TenantState → Text × TenantState
  unfolding response_of request_of
  reply_to os parsed s =
      let (reply, s') = process_command os (map_option (request_of J) parsed) s in
      (to_json_string (response_of reply), s')

  -- One connection on which `text` comes in: the text that is sent back, without the newline behind it.
  -- `none` is the end of the daemon, in a `strcmp` with a null pointer.
  unfoldable pub handle_client : Os → Text → TenantState → Option (Text × TenantState)
  unfolding reply_to has_null_cmd
  handle_client os text s =
      let parsed = tokener_parse (cut 4095 text) in
      if has_null_cmd J parsed then none else some (reply_to os parsed s)
