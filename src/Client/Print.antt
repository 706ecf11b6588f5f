-- ===== src/Client/Print.antt =====
-- src/tenant_manager_client.c: the lines that are printed of an answer.
use Prim.Native.String.{String}
use mtrdma_artifact.Common.{ℕ, Bool, Option, none, some, List, [], ◌∷◌, ◌++◌, if◌then◌else◌, ◌==◌}
use mtrdma_artifact.Common.CString.{codes}
use mtrdma_artifact.Json.{JsonC}

-- The calls of `printf` that print values, with the values, and the line before the answer.
pub data Line (Text : Type 0) : Type 0 where
  sending raw : Text → Line Text
  response_heading : Line Text
  verdict : Bool → Line Text
  message_line : List ℕ → Line Text
  item_line : ℕ → List ℕ → ℕ → ℕ → Line Text
  item_mr : ℕ → ℕ → Line Text
  active_tenants : ℕ → Line Text
  policy_version : ℕ → Line Text
  tenant_line : ℕ → List ℕ → ℕ → ℕ → ℕ → ℕ → Line Text
  tenant_id : ℕ → Line Text
  name_line : List ℕ → Line Text
  status_active status_suspended status_inactive : Line Text
  qp_line : ℕ → ℕ → Line Text
  mr_line : ℕ → ℕ → Line Text
  memory_line : ℕ → ℕ → Line Text
  qp_creates : ℕ → Line Text
  mr_regs : ℕ → Line Text

-- A line for a field that is there.
abbrev pub when_some {ℓ κ} : {A : Type ℓ} {B : Type κ} → Option A → (A → List B) → List B
when_some none f = []
when_some (some a) f = f a

abbrev pub or_else {ℓ κ} : {A : Type ℓ} {B : Type κ} → Option A → (A → B) → B → B
or_else none f d = d
or_else (some a) f d = f a

module _ (J : JsonC) where
  open J use {
    Value, Text, object_get_ex, get_string, get_int, get_int64, get_boolean, items, is_array,
    is_object, tokener_parse,
  }

  -- A number that is 0 without its field.
  unfoldable pub int_or_zero : Value → String → ℕ
  int_or_zero o k = or_else (object_get_ex o k) get_int 0

  unfoldable pub name_or_unknown : Value → List ℕ
  name_or_unknown o = or_else (object_get_ex o "name") get_string (codes "?")

  -- The two fields have to be there.
  unfoldable pub print_pair :
      (Value → ℕ) → Value → String → String → (ℕ → ℕ → Line Text) → List (Line Text)
  print_pair get o used limit line =
      when_some (object_get_ex o used)
        (λ u. when_some (object_get_ex o limit) (λ l. line (get u) (get l) ∷ []))

  -- A tenant of the first list: the answer for all tenants.
  unfoldable pub print_item : Value → List (Line Text)
  unfolding int_or_zero name_or_unknown
  print_item o = when_some (object_get_ex o "id") (λ id.
      when_some (object_get_ex o "qp_used") (λ used.
        item_line (get_int id) (name_or_unknown o) (get_int used) (int_or_zero o "qp_limit")
        ∷ when_some (object_get_ex o "mr_used")
            (λ m. item_mr (get_int m) (int_or_zero o "mr_limit") ∷ [])))

  -- A tenant of LIST_TENANTS.
  unfoldable pub print_tenant : Value → List (Line Text)
  unfolding int_or_zero name_or_unknown
  print_tenant o = when_some (object_get_ex o "id") (λ id.
      tenant_line (get_int id) (name_or_unknown o) (int_or_zero o "qp_used")
        (int_or_zero o "qp_limit") (int_or_zero o "mr_used") (int_or_zero o "mr_limit")
      ∷ [])

  unfoldable pub print_all : (Value → List (Line Text)) → List Value → List (Line Text)
  print_all print [] = []
  print_all print (v ∷ vs) = print v ++ print_all print vs

  unfoldable pub status_line : ℕ → Line Text
  status_line n =
      if n == 1 then status_active else if n == 2 then status_suspended else status_inactive

  -- One tenant.
  unfoldable pub print_status : Value → List (Line Text)
  unfolding print_pair status_line
  print_status o =
      when_some (object_get_ex o "id") (λ v. tenant_id (get_int v) ∷ [])
      ++ (when_some (object_get_ex o "name") (λ v. name_line (get_string v) ∷ [])
          ++ (when_some (object_get_ex o "status") (λ v. status_line (get_int v) ∷ [])
              ++ (print_pair get_int o "qp_used" "qp_limit" qp_line
                  ++ (print_pair get_int o "mr_used" "mr_limit" mr_line
                      ++ (print_pair get_int64 o "memory_used" "memory_limit" memory_line
                          ++ (when_some (object_get_ex o "total_qp_creates")
                                (λ v. qp_creates (get_int64 v) ∷ [])
                              ++ when_some (object_get_ex o "total_mr_regs")
                                  (λ v. mr_regs (get_int64 v) ∷ [])))))))

  -- `none` is no array of tenants.
  unfoldable pub tenants_of : Value → Option Value
  tenants_of o = elim (object_get_ex o "tenants") [
    | none ↦ none
    | some v ↦ if is_array v then some v else none
  ]

  unfoldable pub print_object : Value → List (Line Text)
  unfolding tenants_of print_tenant print_all print_status
  print_object o =
      when_some (object_get_ex o "count") (λ v. active_tenants (get_int v) ∷ [])
      ++ (when_some (object_get_ex o "version") (λ v. policy_version (get_int64 v) ∷ [])
          ++ elim (tenants_of o) [
            | some v ↦ print_all print_tenant (items v)
            | none ↦ print_status o
          ])

  unfoldable pub print_data : Value → List (Line Text)
  unfolding print_all print_item print_object
  print_data v =
      if is_array v
      then print_all print_item (items v)
      else if is_object v
      then print_object v
      else []

  unfoldable pub print_value : Value → List (Line Text)
  unfolding print_data
  print_value o =
      when_some (object_get_ex o "success") (λ v. verdict (get_boolean v) ∷ [])
      ++ (when_some (object_get_ex o "message") (λ v. message_line (get_string v) ∷ [])
          ++ when_some (object_get_ex o "data") (λ v. print_data v))

  -- A text that cannot be parsed is printed as it is.
  unfoldable pub print_parsed : Text → Option Value → List (Line Text)
  unfolding print_value
  print_parsed response none = raw response ∷ []
  print_parsed response (some o) = print_value o

  unfoldable pub print_response : Text → List (Line Text)
  unfolding print_parsed
  print_response response = print_parsed response (tokener_parse response)
