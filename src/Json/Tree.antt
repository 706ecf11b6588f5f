-- ===== src/Json/Tree.antt =====
-- Values that behave as json-c is documented to, with the values themselves as texts.
use Prim.Native.String.{String}
use text.Mathlib.Text.{◌==◌ as str_eq}
use mtrdma_artifact.Common.{
  ℕ, ◌≡◌, refl, ap, Bool, true, false, Option, none, some, List, [], ◌∷◌, ◌++◌, if◌then◌else◌,
}
use mtrdma_artifact.Json.{JsonC, IsLawful}

mutual
  pub data Node : Type 0 where
    object : Fields → Node
    array : Nodes → Node
    string : List ℕ → Node
    number : ℕ → Node
    boolean : Bool → Node
    null : Node

  pub data Fields : Type 0 where
    no_field : Fields
    field : String → Node → Fields → Fields

  pub data Nodes : Type 0 where
    no_node : Nodes
    node : Node → Nodes → Nodes

fields_of : Node → Fields
fields_of (object fs) = fs
fields_of (array ns) = no_field
fields_of (string s) = no_field
fields_of (number n) = no_field
fields_of (boolean b) = no_field
fields_of null = no_field

nodes_of : Node → Nodes
nodes_of (object fs) = no_node
nodes_of (array ns) = ns
nodes_of (string s) = no_node
nodes_of (number n) = no_node
nodes_of (boolean b) = no_node
nodes_of null = no_node

find : Fields → String → Option Node
find no_field j = none
find (field k v fs) j = let rest = find fs j in if str_eq k j then some v else rest

push : Nodes → Node → Nodes
push no_node v = node v no_node
push (node n ns) v = node n (push ns v)

to_list : Nodes → List Node
to_list no_node = []
to_list (node n ns) = n ∷ to_list ns

bytes_of : Node → List ℕ
bytes_of (string s) = s
bytes_of (object fs) = []
bytes_of (array ns) = []
bytes_of (number n) = []
bytes_of (boolean b) = []
bytes_of null = []

number_of : Node → ℕ
number_of (number n) = n
number_of (object fs) = 0
number_of (array ns) = 0
number_of (string s) = 0
number_of (boolean b) = 0
number_of null = 0

boolean_of : Node → Bool
boolean_of (boolean b) = b
boolean_of (object fs) = true
boolean_of (array ns) = true
boolean_of (string s) = true
boolean_of (number n) = true
boolean_of null = false

is_array : Node → Bool
is_array (array ns) = true
is_array (object fs) = false
is_array (string s) = false
is_array (number n) = false
is_array (boolean b) = false
is_array null = false

is_object : Node → Bool
is_object (object fs) = true
is_object (array ns) = false
is_object (string s) = false
is_object (number n) = false
is_object (boolean b) = false
is_object null = false

is_null : Node → Bool
is_null null = true
is_null (object fs) = false
is_null (array ns) = false
is_null (string s) = false
is_null (number n) = false
is_null (boolean b) = false

unfoldable pub tree : JsonC
unfolding fields_of nodes_of find push to_list bytes_of number_of boolean_of is_array is_object
    is_null
tree = record {
  Value = Node;
  Text = Node;
  new_object = object no_field;
  new_array = array no_node;
  new_string = string;
  new_int = number;
  new_int64 = number;
  new_boolean = boolean;
  object_add = λ o k v. object (field k v (fields_of o));
  array_add = λ a v. array (push (nodes_of a) v);
  object_get_ex = λ o k. find (fields_of o) k;
  is_null = is_null;
  get_string = bytes_of;
  get_int = number_of;
  get_int64 = number_of;
  get_boolean = boolean_of;
  items = λ a. to_list (nodes_of a);
  is_array = is_array;
  is_object = is_object;
  to_json_string = λ v. v;
  tokener_parse = λ t. some t;
  bytes = λ t. 0;
  cut = λ n t. t;
}

to_list-push : (ns : Nodes) (v : Node) → to_list (push ns v) ≡ to_list ns ++ v ∷ []
unfolding to_list push
to_list-push no_node v = refl
to_list-push (node n ns) v = ap (λ xs. n ∷ xs) (to_list-push ns v)

pub tree-IsLawful : IsLawful tree
unfolding tree
tree-IsLawful = record {
  get_ex-new = λ k. refl;
  get_ex-add = λ o v k j. refl;
  is_null-new_string = λ s. refl;
  get_string-new = λ s. refl;
  get_int-new = λ n. refl;
  get_int64-new = λ n. refl;
  get_boolean-new = λ b. refl;
  items-new = refl;
  items-add = λ a v. to_list-push (nodes_of a) v;
  is_array-new = refl;
  is_array-add = λ a v. refl;
  is_array-object_add = λ o v k. refl;
  is_object-add = λ o v k. refl;
  parse-print = λ v. refl;
  cut-le = λ n t h. refl;
}
