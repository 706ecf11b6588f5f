-- ===== src/Daemon/Serve.antt =====
-- src/tenant_manager_daemon.c: the object under any commands.
use mtrdma_artifact.Common.{
  ℕ, not, Option, none, some, List, [], ◌∷◌, Status, ok, fail, Os, if_intro,
}
use mtrdma_artifact.Common.CString.{streq}
use mtrdma_artifact.Tenant.State.{TenantInfo, TenantState, tenant_shm_get_ptr}
use mtrdma_artifact.Tenant.State.Invariant.{IsValid, get_ptr-IsValid}
use mtrdma_artifact.Tenant.Admin.Invariant.{create-IsValid, get_info-IsValid, update_quota-IsValid}
use mtrdma_artifact.Tenant.Admin.Delete.{delete-IsValid}
use mtrdma_artifact.Daemon.{
  Request, Reply, Refusal, stamp, updated_reply, handle_update_quota, status_reply, handle_create,
  handle_delete, info_reply, handle_status, handle_list_tenants, dispatch, process_command,
}

abbrev Valid : Reply × TenantState → Type 0
Valid p = IsValid p.1.shm

stamp-IsValid : (now : ℕ) (s : TenantState) → IsValid s.shm → IsValid (stamp now s).shm
unfolding stamp
stamp-IsValid now s v =
    if_intro (λ (x : TenantState). IsValid x.shm) (not s.attached) (λ _. v)
      (λ _. record {
        consistent = record {
          counted = v.consistent.counted;
          mapped = v.consistent.mapped;
          reserved = v.consistent.reserved;
          sound = v.consistent.sound;
          unique = v.consistent.unique;
        };
        free = v.free;
      })

updated_reply-Valid :
    (os : Os) (id : ℕ) (r : Status) (s : TenantState)
    → IsValid s.shm
    → Valid (updated_reply os id (r, s))
unfolding updated_reply
updated_reply-Valid os id fail s v = v
updated_reply-Valid os id ok s v =
    stamp-IsValid (os.time 3) (tenant_shm_get_ptr os s) (get_ptr-IsValid os s v)

status_reply-Valid :
    (reply : Reply) (refusal : Refusal) (r : Status) (s : TenantState)
    → IsValid s.shm
    → Valid (status_reply reply refusal (r, s))
unfolding status_reply
status_reply-Valid reply refusal ok s v = v
status_reply-Valid reply refusal fail s v = v

info_reply-Valid :
    (r : Status) (info : Option TenantInfo) (s : TenantState)
    → IsValid s.shm
    → Valid (info_reply ((r, info), s))
unfolding info_reply
info_reply-Valid ok (some info) s v = v
info_reply-Valid ok none s v = v
info_reply-Valid fail info s v = v

update_quota-Valid :
    (os : Os) (r : Request) (tenant qp : Option ℕ) (s : TenantState)
    → IsValid s.shm
    → Valid (handle_update_quota os r tenant qp s)
unfolding handle_update_quota
update_quota-Valid os r (some id) (some qp) s v =
    updated_reply-Valid os id _ _ (update_quota-IsValid os id _ s v)
update_quota-Valid os r (some id) none s v = v
update_quota-Valid os r none qp s v = v

create-Valid :
    (os : Os) (r : Request) (tenant : Option ℕ) (s : TenantState)
    → IsValid s.shm
    → Valid (handle_create os r tenant s)
unfolding handle_create
create-Valid os r none s v = v
create-Valid os r (some id) s v = status_reply-Valid _ _ _ _ (create-IsValid os id _ _ s v)

delete-Valid :
    (os : Os) (tenant : Option ℕ) (s : TenantState)
    → IsValid s.shm
    → Valid (handle_delete os tenant s)
unfolding handle_delete
delete-Valid os none s v = v
delete-Valid os (some id) s v = status_reply-Valid _ _ _ _ (delete-IsValid os id s v)

status-Valid :
    (os : Os) (tenant : Option ℕ) (s : TenantState)
    → IsValid s.shm
    → Valid (handle_status os tenant s)
unfolding handle_status
status-Valid os none s v = get_ptr-IsValid os s v
status-Valid os (some id) s v = info_reply-Valid _ _ _ (get_info-IsValid os id s v)

list-Valid : (os : Os) (s : TenantState) → IsValid s.shm → Valid (handle_list_tenants os s)
unfolding handle_list_tenants
list-Valid os s v = get_ptr-IsValid os s v

dispatch-Valid :
    (os : Os) (r : Request) (cmd : Option (List ℕ)) (s : TenantState)
    → IsValid s.shm
    → Valid (dispatch os r cmd s)
unfolding dispatch
dispatch-Valid os r none s v = v
dispatch-Valid os r (some cmd) s v =
    if_intro Valid (streq "UPDATE_QUOTA" cmd) (λ _. update_quota-Valid os r r.tenant r.qp s v)
      λ _.
        if_intro Valid (streq "CREATE" cmd) (λ _. create-Valid os r r.tenant s v)
          λ _.
            if_intro Valid (streq "DELETE" cmd) (λ _. delete-Valid os r.tenant s v)
              λ _.
                if_intro Valid (streq "STATUS" cmd) (λ _. status-Valid os r.tenant s v)
                  λ _. if_intro Valid (streq "LIST_TENANTS" cmd) (λ _. list-Valid os s v) (λ _. v)

-- The commands of the clients, one connection after the other.
pub serve : List (Os × Option Request) → TenantState → TenantState
unfolding process_command
serve [] s = s
serve ((os, r) ∷ rs) s = serve rs (process_command os r s).1

-- Whatever commands come in, well formed or not, and whatever tenants and quotas they name: a valid
-- object stays valid, with the lock free, the two counters right and tenant 0 unused.
pub serve-IsValid :
    (rs : List (Os × Option Request)) (s : TenantState) → IsValid s.shm → IsValid (serve rs s).shm
unfolding serve process_command
serve-IsValid [] s v = v
serve-IsValid ((os, none) ∷ rs) s v = serve-IsValid rs s v
serve-IsValid ((os, some r) ∷ rs) s v =
    serve-IsValid rs (dispatch os r r.cmd s).1 (dispatch-Valid os r r.cmd s v)
