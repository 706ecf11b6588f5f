-- ===== src/Daemon/Live.antt =====
-- src/tenant_manager_daemon.c: a new quota is in force at once.
use mtrdma_artifact.Common.{
  ℕ, ◌<◌, ◌≡◌, refl, ap, ◌∙◌, true, false, Option, none, some, Status, ok, fail, Os, arith, leb,
}
use mtrdma_artifact.Common.CString.{codes, streq}
use mtrdma_artifact.Tenant.State.{
  max_tenants, is_inactive, TenantInfo, TenantQuota, TenantState, tenant_shm_unlock,
  tenant_shm_get_ptr,
}
use mtrdma_artifact.Tenant.State.Invariant.{with_shm-attached}
use mtrdma_artifact.Tenant.Admin.{
  or_default, tenant_update_quota, update_quota_locked, tenant_get_info, get_info_locked,
}
use mtrdma_artifact.Daemon.{
  Request, updated, status_of, quota_of, stamp, updated_reply, handle_update_quota, info_reply,
  handle_status, dispatch, process_command,
}

abbrev pub update_command : ℕ → ℕ → Option ℕ → Option ℕ → Request
update_command id qp mr memory = record {
  cmd = some (codes "UPDATE_QUOTA");
  tenant = some id;
  name = none;
  qp = some qp;
  mr = mr;
  memory = memory;
}

abbrev pub status_command : ℕ → Request
status_command id = record {
  cmd = some (codes "STATUS");
  tenant = some id;
  name = none;
  qp = none;
  mr = none;
  memory = none;
}

-- The tenant with a new quota.
abbrev pub with_quota : TenantQuota → ℕ → TenantInfo → TenantInfo
with_quota quota now tenant = record tenant { quota = quota; last_active_at = now }

update_quota-attached :
    (os : Os) (id : ℕ) (quota : TenantQuota) (s : TenantState)
    → s.attached ≡ true
    → id < max_tenants
    → is_inactive (s.shm.tenants id).status ≡ false
    → let (r, s') = tenant_update_quota os id (some quota) s in
      (r ≡ ok)
      × (s'.attached ≡ true)
      × (s'.shm.tenants id ≡ with_quota quota (os.time 1) (s.shm.tenants id))
unfolding tenant_update_quota update_quota_locked tenant_shm_unlock
update_quota-attached os id quota s on lt here =
    let inside : leb max_tenants id ≡ false = ground (arith, lt) in
    rw (inside, with_shm-attached os fail (update_quota_locked os id quota) s on, here)
      (refl, on, ground arith)

get_info-attached :
    (os : Os) (id : ℕ) (s : TenantState)
    → s.attached ≡ true
    → id < max_tenants
    → is_inactive (s.shm.tenants id).status ≡ false
    → (tenant_get_info os id s).0 ≡ (ok, some (s.shm.tenants id))
unfolding tenant_get_info get_info_locked
get_info-attached os id s on lt here =
    let inside : leb max_tenants id ≡ false = ground (arith, lt) in
    rw (inside, with_shm-attached os (fail, none) (get_info_locked os id) s on, here) refl

-- The answer to a quota that was stored, with the stamp.
updated_reply-ok :
    (os : Os) (id : ℕ) (r : Status) (s : TenantState)
    → r ≡ ok
    → s.attached ≡ true
    → let (reply, s') = updated_reply os id (r, s) in
      (reply ≡ updated id) × (s'.attached ≡ true) × (s'.shm.tenants ≡ s.shm.tenants)
unfolding updated_reply stamp tenant_shm_get_ptr
updated_reply-ok os id fail s stored on = cc
updated_reply-ok os id ok s stored on = ground (arith, on)

info_reply-some :
    (tenant : TenantInfo) (p : (Status × Option TenantInfo) × TenantState)
    → p.0 ≡ (ok, some tenant)
    → (info_reply p).0 ≡ status_of tenant
unfolding info_reply
info_reply-some tenant ((ok, some info), s) e = ground (arith, e)
info_reply-some tenant ((ok, none), s) e = cc
info_reply-some tenant ((fail, info), s) e = cc

-- In an attached daemon, for a tenant that exists: UPDATE_QUOTA with a tenant and a number of queue
-- pairs is answered with success, and the next STATUS of the tenant shows the new quota, in which the
-- memory regions are by default as many as the queue pairs and the memory 1 GiB, and for the rest the
-- tenant as it was, with the time of the update.
pub status-update_quota :
    (os os' : Os) (id qp : ℕ) (mr memory : Option ℕ) (s : TenantState)
    → s.attached ≡ true
    → id < max_tenants
    → is_inactive (s.shm.tenants id).status ≡ false
    → let quota = quota_of qp (or_default mr qp) memory in
      let (reply, s') = process_command os (some (update_command id qp mr memory)) s in
      (reply ≡ updated id)
      × ((process_command os' (some (status_command id)) s').0
          ≡ status_of (with_quota quota (os.time 1) (s.shm.tenants id)))
unfolding process_command dispatch handle_update_quota handle_status streq
status-update_quota os os' id qp mr memory s on lt here =
    let quota = quota_of qp (or_default mr qp) memory in
    let stored = tenant_update_quota os id (some quota) s in
    let (success, still_on, tenant) = update_quota-attached os id quota s on lt here in
    let (reply, on', tenants) = updated_reply-ok os id stored.0 stored.1 success still_on in
    let s' = (updated_reply os id stored).1 in
    let shown = ap (λ (f : ℕ → TenantInfo). f id) tenants ∙ tenant in
    let info =
      get_info-attached os' id s' on' lt
        (ap (λ (t : TenantInfo). is_inactive t.status) shown ∙ here) in
    (
      reply,
      info_reply-some _ (tenant_get_info os' id s')
          (info ∙ ap (λ (t : TenantInfo). (ok, some t)) shown),
    )
