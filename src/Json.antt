-- ===== src/Json.antt =====
-- What the program uses of the JSON library (nlohmann::json), as an interface: `V` is the type of
-- JSON values. `IsJson` states the documented behaviour that some theorems rely on.
pub mod Example
pub mod Members
use cppmcp.Base.{
  ℤ, FitsIn, String, ◌==◌, string_eq, ◌≡◌, Bool, true, false, List, [], ◌∷◌, Option, none, some,
  if◌then◌else◌, is_some,
}
use cppmcp.Outcome.{Result, ok, throw, Exception, map_result}

-- The tag of a value, nlohmann's `value_t`.
pub data Kind : Type 0 where
  null object array string boolean number_integer number_unsigned number_float binary discarded :
      Kind

pub record Json (V : Type 0) : Type 0 where
  -- type()
  pub kind : V → Kind
  -- find, contains and operator[] of a constant: the member of an object, if it is there
  pub at? : V → String → Option V
  -- the values of an array, and the members of an object in their order
  pub elements : V → List V
  pub members : V → List (String × V)
  -- operator==
  pub same : V → V → Bool
  -- get<std::string>, get<int64_t>, get<int>, get<bool>
  pub get_string : V → Result V String
  pub get_int64 : V → Result V ℤ
  pub get_int : V → Result V ℤ
  pub get_bool : V → Result V Bool
  -- get<double>; a double stands as the JSON number that holds it
  pub get_double : V → Result V V
  -- constructors from C++ values; an object from an initialiser list
  pub from_null : V
  pub from_int : ℤ → V
  pub from_string : String → V
  pub from_bool : Bool → V
  -- the number 0.0
  pub from_zero : V
  pub from_array : List V → V
  pub from_object : List (String × V) → V
  -- what at(key) throws where the member is missing
  pub no_member : V → String → Exception V
  -- what operator[] and value throw on a value that cannot have members
  pub no_index : V → String → Exception V
  -- j[key] = value on an object, or on null, which becomes one
  pub put : V → String → V → V

abbrev pub lookup {ℓ} : {A : Type ℓ} → String → List (String × A) → Option A
lookup k [] = none
lookup k ((j, v) ∷ m) = if j == k then some v else lookup k m

abbrev is_integer_kind : Kind → Bool
is_integer_kind Kind.number_integer = true
is_integer_kind Kind.number_unsigned = true
is_integer_kind _ = false

abbrev is_number_kind : Kind → Bool
is_number_kind Kind.number_integer = true
is_number_kind Kind.number_unsigned = true
is_number_kind Kind.number_float = true
is_number_kind _ = false

abbrev pub is_kind : Kind → Kind → Bool
is_kind Kind.null Kind.null = true
is_kind Kind.object Kind.object = true
is_kind Kind.array Kind.array = true
is_kind Kind.string Kind.string = true
is_kind Kind.boolean Kind.boolean = true
is_kind _ _ = false

module _ {V : Type 0} ⦃json : Json V⦄ where
  abbrev pub is_null : V → Bool
  is_null v = is_kind (json.kind v) Kind.null

  abbrev pub is_object : V → Bool
  is_object v = is_kind (json.kind v) Kind.object

  abbrev pub is_array : V → Bool
  is_array v = is_kind (json.kind v) Kind.array

  abbrev pub is_string : V → Bool
  is_string v = is_kind (json.kind v) Kind.string

  abbrev pub is_boolean : V → Bool
  is_boolean v = is_kind (json.kind v) Kind.boolean

  abbrev pub is_number : V → Bool
  is_number v = is_number_kind (json.kind v)

  abbrev pub is_number_integer : V → Bool
  is_number_integer v = is_integer_kind (json.kind v)

  abbrev pub contains : V → String → Bool
  contains v key = is_some (json.at? v key)

  abbrev pub empty_object : V
  empty_object = json.from_object []

  -- value(key, default): the default if the member is missing, an exception if it does not convert
  -- or if the value is no object.
  abbrev pub value_or : {A : Type 0} → (V → Result V A) → V → String → A → Result V A
  value_or get v key default =
      if is_object v
      then (elim (json.at? v key) [ none ↦ ok default | some x ↦ get x ])
      else throw (json.no_index v key)

  -- at(key)
  abbrev pub at : V → String → Result V V
  at v key = elim (json.at? v key) [ none ↦ throw (json.no_member v key) | some x ↦ ok x ]

  -- `if (j.contains(key)) j.at(key).get_to(field.emplace());`
  abbrev pub optional_member : {A : Type 0} → (V → Result V A) → V → String → Result V (Option A)
  optional_member get v key = elim (json.at? v key) [
    | none ↦ ok none
    | some x ↦ map_result some (get x)
  ]

  -- `if (field) j[key] = *field;`
  abbrev pub put_some : V → String → Option V → V
  put_some j key none = j
  put_some j key (some v) = json.put j key v

  -- A row of such assignments, in the order of the list.
  abbrev pub put_all : V → List (String × Option V) → V
  put_all j [] = j
  put_all j ((key, o) ∷ fields) = put_all (put_some j key o) fields

-- The documented behaviour: a value keeps the tag and the content that it was built from, and an
-- object has the members that were put into it.
pub record IsJson {V : Type 0} (json : Json V) : Type 0 where
  pub kind-from_null : json.kind json.from_null ≡ Kind.null
  pub kind-from_int : (n : ℤ) → json.kind (json.from_int n) ≡ Kind.number_integer
  pub kind-from_string : (s : String) → json.kind (json.from_string s) ≡ Kind.string
  pub kind-from_bool : (b : Bool) → json.kind (json.from_bool b) ≡ Kind.boolean
  pub kind-from_array : (vs : List V) → json.kind (json.from_array vs) ≡ Kind.array
  pub kind-from_object : (ms : List (String × V)) → json.kind (json.from_object ms) ≡ Kind.object
  pub kind-put :
      (v : V) (k : String) (x : V)
      → json.kind v ≡ Kind.object
      → json.kind (json.put v k x) ≡ Kind.object
  pub at?-from_object :
      (ms : List (String × V)) (k : String) → json.at? (json.from_object ms) k ≡ lookup k ms
  pub at?-put :
      (v : V) (k : String) (x : V) (k' : String)
      → json.kind v ≡ Kind.object
      → json.at? (json.put v k x) k' ≡ (if k == k' then some x else json.at? v k')
  pub get_string-from_string : (s : String) → json.get_string (json.from_string s) ≡ ok s
  pub get_bool-from_bool : (b : Bool) → json.get_bool (json.from_bool b) ≡ ok b
  pub get_int64-from_int : (n : ℤ) → FitsIn 63 n → json.get_int64 (json.from_int n) ≡ ok n
  pub get_int-from_int : (n : ℤ) → FitsIn 31 n → json.get_int (json.from_int n) ≡ ok n
  pub same-from_string :
      (s t : String) → json.same (json.from_string s) (json.from_string t) ≡ (s == t)
