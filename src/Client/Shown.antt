-- ===== src/Client/Shown.antt =====
-- src/tenant_manager_client.c: what is printed of the daemon's answers.
use mtrdma_artifact.Common.{
  ℕ, ◌≡◌, refl, sym, ap, ◌∙◌, Bool, true, false, none, some, List, [], ◌∷◌, ◌++◌,
}
use mathlib.Core.List.{append_assoc, append-nil}
use mtrdma_artifact.Common.CString.{codes}
use mtrdma_artifact.Json.{JsonC, IsLawful}
use mtrdma_artifact.Json.Rules.{
  reading, items-new, items-add, is_array-new, is_array-add, is_array-object_add, is_object-add,
  get_int-new, get_int64-new,
}
use mtrdma_artifact.Tenant.State.{TenantInfo, TenantStatus, inactive, active, suspended}
use mtrdma_artifact.Daemon.{
  Reply, refused, updated, created, deleted, status_of, all_status, tenant_list,
}
use mtrdma_artifact.Daemon.Response.{
  status_number, refusal_message, length, build_response, add_fields, list_object, status_object,
  tenant_object, array_of, list_data, response_of,
}
use mtrdma_artifact.Client.Print.{
  Line, verdict, message_line, item_line, item_mr, active_tenants, policy_version, tenant_line,
  tenant_id, name_line, status_active, status_suspended, status_inactive, qp_line, mr_line,
  memory_line, qp_creates, mr_regs, int_or_zero, name_or_unknown, print_pair, print_item,
  print_tenant, print_all, status_line, print_status, tenants_of, print_object, print_data,
  print_value,
}

-- What is to be seen of a tenant in each of the three views, without JSON.
module _ {Text : Type 0} where
  abbrev pub shown_status : TenantStatus → Line Text
  shown_status inactive = status_inactive
  shown_status active = status_active
  shown_status suspended = status_suspended

  abbrev pub shown_tenant : TenantInfo → List (Line Text)
  shown_tenant t =
      tenant_id t.tenant_id
      ∷ name_line t.tenant_name
      ∷ shown_status t.status
      ∷ qp_line t.usage.qp_count t.quota.max_qp_per_tenant
      ∷ mr_line t.usage.mr_count t.quota.max_mr_per_tenant
      ∷ memory_line t.usage.memory_used t.quota.max_memory_per_tenant
      ∷ qp_creates t.usage.total_qp_creates
      ∷ mr_regs t.usage.total_mr_regs
      ∷ []

  abbrev pub shown_items : List TenantInfo → List (Line Text)
  shown_items [] = []
  shown_items (t ∷ ts) =
      item_line t.tenant_id t.tenant_name t.usage.qp_count t.quota.max_qp_per_tenant
      ∷ item_mr t.usage.mr_count t.quota.max_mr_per_tenant
      ∷ shown_items ts

  abbrev pub shown_list : List TenantInfo → List (Line Text)
  shown_list [] = []
  shown_list (t ∷ ts) =
      tenant_line t.tenant_id t.tenant_name t.usage.qp_count t.quota.max_qp_per_tenant
        t.usage.mr_count t.quota.max_mr_per_tenant
      ∷ shown_list ts

  unfoldable pub shown : (ℕ → List ℕ) → Reply → List (Line Text)
  shown format_u (refused r) = verdict false ∷ message_line (refusal_message r) ∷ []
  shown format_u (updated id) =
      verdict true ∷ message_line (codes "Quota updated for tenant " ++ format_u id) ∷ []
  shown format_u (created id) =
      verdict true ∷ message_line (codes "Tenant " ++ (format_u id ++ codes " created")) ∷ []
  shown format_u (deleted id) =
      verdict true ∷ message_line (codes "Tenant " ++ (format_u id ++ codes " deleted")) ∷ []
  shown format_u (status_of t) =
      verdict true ∷ message_line (codes "Tenant status") ∷ shown_tenant t
  shown format_u (all_status ts) =
      verdict true ∷ message_line (codes "All tenants status") ∷ shown_items ts
  shown format_u (tenant_list version ts) =
      verdict true
      ∷ message_line (codes "Tenant list")
      ∷ active_tenants (length ts)
      ∷ policy_version version
      ∷ shown_list ts

module _ (J : JsonC) ⦃L : IsLawful J⦄ where
  open J use {Value}

  status_line-number : (s : TenantStatus) → status_line J (status_number s) ≡ shown_status s
  unfolding status_line
  status_line-number inactive = refl
  status_line-number active = refl
  status_line-number suspended = refl

  print_tenant_object : (t : TenantInfo) → print_status J (tenant_object J t) ≡ shown_tenant t
  unfolding print_status print_pair tenant_object status_object add_fields
  print_tenant_object t = simp (reading, status_line-number)

  print_item_object :
      (t : TenantInfo)
      → print_item J (status_object J t)
        ≡ item_line t.tenant_id t.tenant_name t.usage.qp_count t.quota.max_qp_per_tenant
          ∷ item_mr t.usage.mr_count t.quota.max_mr_per_tenant
          ∷ []
  unfolding print_item int_or_zero name_or_unknown status_object add_fields
  print_item_object t = simp reading

  print_list_object :
      (t : TenantInfo)
      → print_tenant J (list_object J t)
        ≡ tenant_line t.tenant_id t.tenant_name t.usage.qp_count t.quota.max_qp_per_tenant
            t.usage.mr_count t.quota.max_mr_per_tenant
          ∷ []
  unfolding print_tenant int_or_zero name_or_unknown list_object add_fields
  print_list_object t = simp reading

  abbrev objects : (TenantInfo → Value) → List TenantInfo → List Value
  objects object [] = []
  objects object (t ∷ ts) = object t ∷ objects object ts

  items-array_of :
      (object : TenantInfo → Value) (ts : List TenantInfo) (a : Value)
      → J.items (array_of J object ts a) ≡ J.items a ++ objects object ts
  unfolding array_of
  items-array_of object [] a = sym (append-nil (J.items a))
  items-array_of object (t ∷ ts) a =
      items-array_of object ts (J.array_add a (object t))
      ∙ ap (λ xs. xs ++ objects object ts) (items-add J a (object t))
      ∙ append_assoc (J.items a) (object t ∷ []) (objects object ts)

  is_array-array_of :
      (object : TenantInfo → Value) (ts : List TenantInfo) (a : Value)
      → J.is_array a ≡ true
      → J.is_array (array_of J object ts a) ≡ true
  unfolding array_of
  is_array-array_of object [] a h = h
  is_array-array_of object (t ∷ ts) a h =
      is_array-array_of object ts (J.array_add a (object t)) (is_array-add J a (object t))

  items-array :
      (object : TenantInfo → Value) (ts : List TenantInfo)
      → J.items (array_of J object ts J.new_array) ≡ objects object ts
  items-array object ts =
      items-array_of object ts J.new_array ∙ ap (λ xs. xs ++ objects object ts) (items-new J)

  is_array-array :
      (object : TenantInfo → Value) (ts : List TenantInfo)
      → J.is_array (array_of J object ts J.new_array) ≡ true
  is_array-array object ts = is_array-array_of object ts J.new_array (is_array-new J)

  print_items :
      (ts : List TenantInfo)
      → print_all J (print_item J) (objects (status_object J) ts) ≡ shown_items ts
  unfolding print_all
  print_items [] = refl
  print_items (t ∷ ts) =
      ap (λ xs. xs ++ print_all J (print_item J) (objects (status_object J) ts))
        (print_item_object t)
      ∙ ap
          (λ xs.
            item_line t.tenant_id t.tenant_name t.usage.qp_count t.quota.max_qp_per_tenant
            ∷ item_mr t.usage.mr_count t.quota.max_mr_per_tenant
            ∷ xs)
          (print_items ts)

  print_list :
      (ts : List TenantInfo)
      → print_all J (print_tenant J) (objects (list_object J) ts) ≡ shown_list ts
  unfolding print_all
  print_list [] = refl
  print_list (t ∷ ts) =
      ap (λ xs. xs ++ print_all J (print_tenant J) (objects (list_object J) ts))
        (print_list_object t)
      ∙ ap
          (λ xs.
            tenant_line t.tenant_id t.tenant_name t.usage.qp_count t.quota.max_qp_per_tenant
              t.usage.mr_count t.quota.max_mr_per_tenant
            ∷ xs)
          (print_list ts)

  -- The three kinds of data.
  -- The object of one tenant is none of a list.
  tenant_object_fields :
      (t : TenantInfo)
      → (J.is_array (tenant_object J t) ≡ false)
        × (J.is_object (tenant_object J t) ≡ true)
        × (J.object_get_ex (tenant_object J t) "count" ≡ none)
        × (J.object_get_ex (tenant_object J t) "version" ≡ none)
        × (J.object_get_ex (tenant_object J t) "tenants" ≡ none)
  unfolding tenant_object status_object add_fields
  tenant_object_fields t =
      (is_array-object_add J _ _ _, is_object-add J _ _ _, simp reading, simp reading, simp reading)

  data_status : (t : TenantInfo) → print_data J (tenant_object J t) ≡ shown_tenant t
  unfolding print_data print_object tenants_of
  data_status t =
      let (no_array, object, count, version, tenants) = tenant_object_fields t in
      rw (no_array, object, count, version, tenants) (print_tenant_object t)

  data_all :
      (ts : List TenantInfo)
      → print_data J (array_of J (status_object J) ts J.new_array) ≡ shown_items ts
  unfolding print_data
  data_all ts =
      rw (is_array-array (status_object J) ts, items-array (status_object J) ts) (print_items ts)

  list_data_fields :
      (version : ℕ) (ts : List TenantInfo)
      → (J.is_array (list_data J version ts) ≡ false)
        × (J.is_object (list_data J version ts) ≡ true)
        × (J.object_get_ex (list_data J version ts) "count" ≡ some (J.new_int (length ts)))
        × (J.object_get_ex (list_data J version ts) "version" ≡ some (J.new_int64 version))
        × (J.object_get_ex (list_data J version ts) "tenants"
            ≡ some (array_of J (list_object J) ts J.new_array))
  unfolding list_data add_fields
  list_data_fields version ts =
      (is_array-object_add J _ _ _, is_object-add J _ _ _, simp reading, simp reading, simp reading)

  data_list :
      (version : ℕ) (ts : List TenantInfo)
      → print_data J (list_data J version ts)
        ≡ active_tenants (length ts) ∷ policy_version version ∷ shown_list ts
  unfolding print_data print_object tenants_of
  data_list version ts =
      let (no_array, object, count, version_there, tenants) = list_data_fields version ts in
      rw
        (
          no_array,
          object,
          count,
          version_there,
          tenants,
          is_array-array (list_object J) ts,
          items-array (list_object J) ts,
          get_int-new J (length ts),
          get_int64-new J version,
        )
        (ap (λ xs. active_tenants (length ts) ∷ policy_version version ∷ xs) (print_list ts))

  print_none :
      (success : Bool) (text : List ℕ)
      → print_value J (build_response J success text none)
        ≡ verdict success ∷ message_line text ∷ []
  unfolding print_value build_response
  print_none success text = simp reading

  print_some :
      (success : Bool) (text : List ℕ) (v : Value)
      → print_value J (build_response J success text (some v))
        ≡ verdict success ∷ message_line text ∷ print_data J v
  unfolding print_value build_response
  print_some success text v = simp reading

  -- Every answer of the daemon is printed with what is in it: the verdict and the message, and of each
  -- tenant that is shown the number, the name, and the counts beside their limits.
  pub print-response :
      (format_u : ℕ → List ℕ) (r : Reply)
      → print_value J (response_of J format_u r) ≡ shown format_u r
  unfolding response_of shown
  print-response format_u (refused r) = print_none _ _
  print-response format_u (updated id) = print_none _ _
  print-response format_u (created id) = print_none _ _
  print-response format_u (deleted id) = print_none _ _
  print-response format_u (status_of t) =
      print_some _ _ _
      ∙ ap (λ xs. verdict true ∷ message_line (codes "Tenant status") ∷ xs) (data_status t)
  print-response format_u (all_status ts) =
      print_some _ _ _
      ∙ ap (λ xs. verdict true ∷ message_line (codes "All tenants status") ∷ xs) (data_all ts)
  print-response format_u (tenant_list version ts) =
      print_some _ _ _
      ∙ ap (λ xs. verdict true ∷ message_line (codes "Tenant list") ∷ xs) (data_list version ts)
