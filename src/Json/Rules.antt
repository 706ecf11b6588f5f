-- ===== src/Json/Rules.antt =====
-- The documented behaviour of json-c as a set of rules, for an instance that is in scope.
use Prim.Native.String.{String}
use text.Mathlib.Text.{◌==◌ as str_eq}
use mtrdma_artifact.Common.{
  ℕ, ◌≡◌, Bool, true, false, none, some, List, [], ◌∷◌, ◌++◌, if◌then◌else◌,
}
use mtrdma_artifact.Json.{JsonC, IsLawful}

module _ (J : JsonC) ⦃L : IsLawful J⦄ where
  pub get_ex-new : (k : String) → J.object_get_ex J.new_object k ≡ none
  get_ex-new k = L.get_ex-new k

  pub get_ex-add :
      (o v : J.Value) (k j : String)
      → J.object_get_ex (J.object_add o k v) j
        ≡ (if str_eq k j then some v else J.object_get_ex o j)
  get_ex-add o v k j = L.get_ex-add o v k j

  pub is_null-new_string : (s : List ℕ) → J.is_null (J.new_string s) ≡ false
  is_null-new_string s = L.is_null-new_string s

  pub get_string-new : (s : List ℕ) → J.get_string (J.new_string s) ≡ s
  get_string-new s = L.get_string-new s

  pub get_int-new : (n : ℕ) → J.get_int (J.new_int n) ≡ n
  get_int-new n = L.get_int-new n

  pub get_int64-new : (n : ℕ) → J.get_int64 (J.new_int64 n) ≡ n
  get_int64-new n = L.get_int64-new n

  pub get_boolean-new : (b : Bool) → J.get_boolean (J.new_boolean b) ≡ b
  get_boolean-new b = L.get_boolean-new b

  pub items-new : J.items J.new_array ≡ []
  items-new = L.items-new

  pub items-add : (a v : J.Value) → J.items (J.array_add a v) ≡ J.items a ++ v ∷ []
  items-add a v = L.items-add a v

  pub is_array-new : J.is_array J.new_array ≡ true
  is_array-new = L.is_array-new

  pub is_array-add : (a v : J.Value) → J.is_array (J.array_add a v) ≡ true
  is_array-add a v = L.is_array-add a v

  pub is_array-object_add : (o v : J.Value) (k : String) → J.is_array (J.object_add o k v) ≡ false
  is_array-object_add o v k = L.is_array-object_add o v k

  pub is_object-add : (o v : J.Value) (k : String) → J.is_object (J.object_add o k v) ≡ true
  is_object-add o v k = L.is_object-add o v k

pub ruleset reading = (
  get_ex-new, get_ex-add, is_null-new_string, get_string-new, get_int-new, get_int64-new,
  get_boolean-new,
)
