-- ===== src/Json/Example.antt =====
-- A JSON library that meets the interface, for tests: values without floats, whose objects keep
-- their members in the order of insertion.
use cppmcp.Base.{
  ℤ, pos, ℤ_eq, String, ◌<>◌, ◌==◌, string_eq, ◌≡◌, refl, Bool, true, false, ◌&&◌, List, [], ◌∷◌,
  Option, none, some, if◌then◌else◌, arith,
}
use cppmcp.Outcome.{Result, ok, throw, std}
use cppmcp.Json.{Kind, Json, IsJson, lookup}

mutual
  pub data Value : Type 0 where
    null : Value
    boolean : Bool → Value
    integer : ℤ → Value
    string : String → Value
    array : Elements → Value
    object : Members → Value

  pub data Elements : Type 0 where
    nil : Elements
    cons : Value → Elements → Elements

  pub data Members : Type 0 where
    end : Members
    member : String → Value → Members → Members

unfoldable pub kind : Value → Kind
kind null = Kind.null
kind (boolean b) = Kind.boolean
kind (integer n) = Kind.number_integer
kind (string s) = Kind.string
kind (array vs) = Kind.array
kind (object ms) = Kind.object

unfoldable pub to_elements : List Value → Elements
to_elements [] = nil
to_elements (v ∷ vs) = cons v (to_elements vs)

unfoldable pub of_elements : Elements → List Value
of_elements nil = []
of_elements (cons v vs) = v ∷ of_elements vs

unfoldable pub to_members : List (String × Value) → Members
to_members [] = end
to_members ((k, v) ∷ ms) = member k v (to_members ms)

unfoldable pub of_members : Members → List (String × Value)
of_members end = []
of_members (member k v ms) = (k, v) ∷ of_members ms

unfoldable pub find : Members → String → Option Value
find end k = none
find (member j v ms) k = if j == k then some v else find ms k

unfoldable pub at? : Value → String → Option Value
unfolding find
at? (object ms) k = find ms k
at? _ k = none

unfoldable pub assign : Members → String → Value → Members
assign end k v = member k v end
assign (member j w ms) k v = if j == k then member k v ms else member j w (assign ms k v)

unfoldable pub put : Value → String → Value → Value
unfolding assign
put (object ms) k v = object (assign ms k v)
put null k v = object (member k v end)
put w k v = w

unfoldable pub elements : Value → List Value
unfolding of_elements
elements (array vs) = of_elements vs
elements _ = []

unfoldable pub members : Value → List (String × Value)
unfolding of_members
members (object ms) = of_members ms
members _ = []

unfoldable mutual
  pub same : Value → Value → Bool
  same null null = true
  same (boolean true) (boolean b) = b
  same (boolean false) (boolean true) = false
  same (boolean false) (boolean false) = true
  same (integer a) (integer b) = a == b
  same (string s) (string t) = s == t
  same (array xs) (array ys) = same_elements xs ys
  same (object xs) (object ys) = same_members xs ys
  same _ _ = false

  pub same_elements : Elements → Elements → Bool
  same_elements nil nil = true
  same_elements (cons x xs) (cons y ys) = same x y && same_elements xs ys
  same_elements _ _ = false

  pub same_members : Members → Members → Bool
  same_members end end = true
  same_members (member j x xs) (member k y ys) = (j == k) && (same x y && same_members xs ys)
  same_members _ _ = false

abbrev type_error : {A : Type 0} → Result Value A
type_error = throw (std "type_error")

unfoldable pub get_string : Value → Result Value String
get_string (string s) = ok s
get_string _ = type_error

unfoldable pub get_integer : Value → Result Value ℤ
get_integer (integer n) = ok n
get_integer _ = type_error

unfoldable pub get_bool : Value → Result Value Bool
get_bool (boolean b) = ok b
get_bool _ = type_error

unfoldable pub get_double : Value → Result Value Value
get_double (integer n) = ok (integer n)
get_double _ = type_error

instance abbrev pub value_json : Json Value
value_json = record {
  kind = kind;
  at? = at?;
  elements = elements;
  members = members;
  same = same;
  get_string = get_string;
  get_int64 = get_integer;
  get_int = get_integer;
  get_bool = get_bool;
  get_double = get_double;
  from_null = null;
  from_int = integer;
  from_string = string;
  from_bool = boolean;
  from_zero = integer (pos 0);
  from_array = λ vs. array (to_elements vs);
  from_object = λ ms. object (to_members ms);
  no_member = λ v key. std ("key '" <> key <> "' not found");
  no_index = λ v key. std ("no index '" <> key <> "'");
  put = put;
}

-- One name for all that a test computes with.
unfoldable pub example : Unit {0}
unfolding kind to_elements to_members at? put elements members same get_string get_integer get_bool
    get_double
example = tt

find-to_members : (ms : List (String × Value)) (k : String) → find (to_members ms) k ≡ lookup k ms
unfolding find to_members
find-to_members [] k = refl
find-to_members ((j, v) ∷ ms) k = ground (arith, find-to_members ms k)

find-assign :
    (ms : Members) (k : String) (v : Value) (k' : String)
    → find (assign ms k v) k' ≡ (if k == k' then some v else find ms k')
unfolding find assign
find-assign end k v k' = refl
find-assign (member j w ms) k v k' = ground (
  arith,
  find-assign ms k v k',
  string_eq.same_iff j k,
  string_eq.same_iff k k',
  string_eq.same_iff j k',
)

kind-put :
    (v : Value) (k : String) (x : Value) → kind v ≡ Kind.object → kind (put v k x) ≡ Kind.object
unfolding kind put
kind-put (object ms) k x h = refl
kind-put null k x h = refl
kind-put w k x h = ground arith

at?-put :
    (v : Value) (k : String) (x : Value) (k' : String)
    → kind v ≡ Kind.object
    → at? (put v k x) k' ≡ (if k == k' then some x else at? v k')
unfolding kind put at?
at?-put (object ms) k x k' h = find-assign ms k x k'
at?-put w k x k' h = ground arith

pub value_json-IsJson : IsJson value_json
unfolding example
value_json-IsJson = record {
  kind-from_null = refl;
  kind-from_int = λ n. refl;
  kind-from_string = λ s. refl;
  kind-from_bool = λ b. refl;
  kind-from_array = λ vs. refl;
  kind-from_object = λ ms. refl;
  kind-put = kind-put;
  at?-from_object = find-to_members;
  at?-put = at?-put;
  get_string-from_string = λ s. refl;
  get_bool-from_bool = λ b. refl;
  get_int64-from_int = λ n h. refl;
  get_int-from_int = λ n h. refl;
  same-from_string = λ s t. refl;
}
