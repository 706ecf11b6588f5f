-- ===== src/Daemon.antt =====
-- src/tenant_manager_daemon.c: the commands on the tenants that come in over the socket.
pub mod Serve
pub mod Loop
pub mod Lifetime
pub mod Live
pub mod Response
mod Tests
use mtrdma_artifact.Common.{
  ℕ, zero, suc, ◌+◌, ◌%◌, Bool, true, false, not, Option, none, some, List, [], ◌∷◌, Status, ok,
  fail, Os, if◌then◌else◌, ◌==◌, u64_mod,
}
use mtrdma_artifact.Common.CString.{streq}
use mtrdma_artifact.Tenant.State.{
  max_tenants, is_inactive, TenantQuota, TenantInfo, TenantSharedMemory, TenantState,
  tenant_shm_get_ptr,
}
use mtrdma_artifact.Tenant.Admin.{
  unnamed, or_default, tenant_create, tenant_delete, tenant_get_info, tenant_update_quota,
}

-- The fields of a parsed command; the inner `none` of the name is a null pointer, and a number is what json_object_get_int or json_object_get_int64
-- makes of its field, `none` where there is no such field.
pub record Request : Type 0 where
  pub cmd : Option (List ℕ)
  pub tenant : Option ℕ
  pub name : Option (Option (List ℕ))
  pub qp : Option ℕ
  pub mr : Option ℕ
  pub memory : Option ℕ

-- The answers without success, by their message.
pub data Refusal : Type 0 where
  invalid_json missing_cmd unknown_command missing_fields missing_tenant : Refusal
  update_failed create_failed delete_failed not_found : Refusal

-- An answer; the tenants of `status_of` and the lists stand for the fields that are shown of them.
pub data Reply : Type 0 where
  refused : Refusal → Reply
  updated : ℕ → Reply
  created : ℕ → Reply
  deleted : ℕ → Reply
  status_of : TenantInfo → Reply
  all_status : List TenantInfo → Reply
  tenant_list : ℕ → List TenantInfo → Reply

-- The quota of a command with these numbers.
abbrev pub quota_of : ℕ → ℕ → Option ℕ → TenantQuota
quota_of qp mr memory = record {
  max_qp_per_tenant = qp;
  max_mr_per_tenant = mr;
  max_memory_per_tenant = or_default memory 1073741824;
  max_cq_per_tenant = qp;
  max_pd_per_tenant = 10;
}

-- The time stamp and the version are written without the lock.
unfoldable pub stamp : ℕ → TenantState → TenantState
stamp now s = if not s.attached then s else record s {
  shm = record (s.shm) { last_update_time = now; version = (s.shm.version + 1) % u64_mod };
}

unfoldable pub updated_reply : Os → ℕ → Status × TenantState → Reply × TenantState
unfolding stamp
updated_reply os id (fail, s) = (refused update_failed, s)
updated_reply os id (ok, s) = (updated id, stamp (os.time 3) (tenant_shm_get_ptr os s))

-- By the two fields that have to be there.
unfoldable pub handle_update_quota :
    Os → Request → Option ℕ → Option ℕ → TenantState → Reply × TenantState
unfolding updated_reply
handle_update_quota os r (some id) (some qp) s =
    updated_reply os id
      (tenant_update_quota os id (some (quota_of qp (or_default r.mr qp) r.memory)) s)
handle_update_quota os r (some id) none s = (refused missing_fields, s)
handle_update_quota os r none qp s = (refused missing_fields, s)

unfoldable pub status_reply : Reply → Refusal → Status × TenantState → Reply × TenantState
status_reply reply refusal (ok, s) = (reply, s)
status_reply reply refusal (fail, s) = (refused refusal, s)

unfoldable pub handle_create : Os → Request → Option ℕ → TenantState → Reply × TenantState
unfolding status_reply
handle_create os r none s = (refused missing_tenant, s)
handle_create os r (some id) s = status_reply (created id) create_failed (
    tenant_create os id (or_default r.name (some unnamed))
      (some (quota_of (or_default r.qp 100) (or_default r.mr 100) r.memory)) s)

unfoldable pub handle_delete : Os → Option ℕ → TenantState → Reply × TenantState
unfolding status_reply
handle_delete os none s = (refused missing_tenant, s)
handle_delete os (some id) s = status_reply (deleted id) delete_failed (tenant_delete os id s)

-- The loop over the tenants that are not inactive, from tenant `i` on.
unfoldable pub existing_from : (ℕ → TenantInfo) → ℕ → ℕ → List TenantInfo
existing_from tenants i zero = []
existing_from tenants i (suc left) =
    let rest = existing_from tenants (i + 1) left in
    if is_inactive (tenants i).status then rest else tenants i ∷ rest

abbrev pub existing : TenantState → List TenantInfo
existing s = if not s.attached then [] else existing_from s.shm.tenants 0 max_tenants

unfoldable pub info_reply : (Status × Option TenantInfo) × TenantState → Reply × TenantState
info_reply ((ok, some info), s) = (status_of info, s)
info_reply ((ok, none), s) = (refused not_found, s)
info_reply ((fail, info), s) = (refused not_found, s)

unfoldable pub handle_status : Os → Option ℕ → TenantState → Reply × TenantState
unfolding info_reply existing_from
handle_status os none s = let s' = tenant_shm_get_ptr os s in (all_status (existing s'), s')
handle_status os (some id) s = info_reply (tenant_get_info os id s)

unfoldable pub handle_list_tenants : Os → TenantState → Reply × TenantState
unfolding existing_from
handle_list_tenants os s =
    let s' = tenant_shm_get_ptr os s in
    (tenant_list (if not s'.attached then 0 else s'.shm.version) (existing s'), s')

-- The chain of `strcmp`s.
unfoldable pub dispatch : Os → Request → Option (List ℕ) → TenantState → Reply × TenantState
unfolding handle_update_quota handle_create handle_delete handle_status handle_list_tenants
dispatch os r none s = (refused missing_cmd, s)
dispatch os r (some cmd) s =
    if streq "UPDATE_QUOTA" cmd
    then handle_update_quota os r r.tenant r.qp s
    else if streq "CREATE" cmd
    then handle_create os r r.tenant s
    else if streq "DELETE" cmd
    then handle_delete os r.tenant s
    else if streq "STATUS" cmd
    then handle_status os r.tenant s
    else if streq "LIST_TENANTS" cmd
    then handle_list_tenants os s
    else (refused unknown_command, s)

-- What json_tokener_parse made of the text; `none` is null.
unfoldable pub process_command : Os → Option Request → TenantState → Reply × TenantState
unfolding dispatch
process_command os none s = (refused invalid_json, s)
process_command os (some r) s = dispatch os r r.cmd s
