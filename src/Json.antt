-- ===== src/Json.antt =====
-- What the tenant manager's daemon and client use of json-c, and how it is documented to behave.

pub mod Tree
pub mod Rules
use Prim.Native.String.{String}
use text.Mathlib.Text.{◌==◌ as str_eq}
use mtrdma_artifact.Common.{
  ℕ, ◌≤◌, ◌≡◌, Bool, true, false, Option, none, some, List, [], ◌∷◌, ◌++◌, if◌then◌else◌,
}

-- Values and their texts. What `is_null` holds of is the null pointer that object_get_ex stores for a
-- field whose value is null; `get_string` stands for the others. Numbers are bit patterns; strings are their bytes. `bytes` is the length of a
-- text, and `cut n` what the first `n` bytes of it are.
pub record JsonC : Type 1 where
  pub Value : Type 0
  pub Text : Type 0
  pub new_object : Value
  pub new_array : Value
  pub new_string : List ℕ → Value
  pub new_int : ℕ → Value
  pub new_int64 : ℕ → Value
  pub new_boolean : Bool → Value
  pub object_add : Value → String → Value → Value
  pub array_add : Value → Value → Value
  pub object_get_ex : Value → String → Option Value
  pub is_null : Value → Bool
  pub get_string : Value → List ℕ
  pub get_int : Value → ℕ
  pub get_int64 : Value → ℕ
  pub get_boolean : Value → Bool
  pub items : Value → List Value
  pub is_array : Value → Bool
  pub is_object : Value → Bool
  pub to_json_string : Value → Text
  pub tokener_parse : Text → Option Value
  pub bytes : Text → ℕ
  pub cut : ℕ → Text → Text

-- Where object_add and array_add stand, their first argument is an object or an array.
pub record IsLawful (J : JsonC) : Type 0 where
  pub get_ex-new : (k : String) → J.object_get_ex J.new_object k ≡ none
  pub get_ex-add :
      (o v : J.Value) (k j : String)
      → J.object_get_ex (J.object_add o k v) j
        ≡ (if str_eq k j then some v else J.object_get_ex o j)
  pub is_null-new_string : (s : List ℕ) → J.is_null (J.new_string s) ≡ false
  pub get_string-new : (s : List ℕ) → J.get_string (J.new_string s) ≡ s
  pub get_int-new : (n : ℕ) → J.get_int (J.new_int n) ≡ n
  pub get_int64-new : (n : ℕ) → J.get_int64 (J.new_int64 n) ≡ n
  pub get_boolean-new : (b : Bool) → J.get_boolean (J.new_boolean b) ≡ b
  pub items-new : J.items J.new_array ≡ []
  pub items-add : (a v : J.Value) → J.items (J.array_add a v) ≡ J.items a ++ v ∷ []
  pub is_array-new : J.is_array J.new_array ≡ true
  pub is_array-add : (a v : J.Value) → J.is_array (J.array_add a v) ≡ true
  pub is_array-object_add : (o v : J.Value) (k : String) → J.is_array (J.object_add o k v) ≡ false
  pub is_object-add : (o v : J.Value) (k : String) → J.is_object (J.object_add o k v) ≡ true
  pub parse-print : (v : J.Value) → J.tokener_parse (J.to_json_string v) ≡ some v
  pub cut-le : (n : ℕ) (t : J.Text) → J.bytes t ≤ n → J.cut n t ≡ t
