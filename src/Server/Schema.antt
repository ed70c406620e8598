-- ===== src/Server/Schema.antt =====
-- src/server.cpp: the check of a tool's arguments against its input schema. The recursion is on fuel.
pub mod Fuel
use cppmcp.Base.{
  ℕ, zero, suc, ◌+◌, String, ◌<>◌, ◌==◌, string_eq, Bool, true, false, not, ◌&&◌, ◌||◌, List, [],
  ◌∷◌, Option, none, some, if◌then◌else◌, is_empty, any,
}
use cppmcp.Outcome.{ok, throw}
use cppmcp.Json.{
  Json, is_object, is_array, is_string, is_number, is_number_integer, is_boolean, is_null, contains,
}
use cppmcp.Decimal.{to_string}

-- `schema.contains(key) && schema[key]` has the given test.
abbrev pub member_with : {V : Type 0} → (V → Bool) → Option V → Option V
member_with test none = none
member_with test (some v) = if test v then some v else none

abbrev pub or_named : String → String → String → String
or_named path plain suffix =
    if is_empty path then plain <> suffix else ("'" <> (path <> ("'" <> suffix)))

-- The first violation of a row, or "".
abbrev pub first_violation : List String → String
first_violation [] = ""
first_violation (violation ∷ violations) =
    if is_empty violation then first_violation violations else violation

abbrev pub below : String → String → String
below path key = if is_empty path then key else path <> ("." <> key)

module _ {V : Type 0} ⦃json : Json V⦄ where
  -- get_ref<const std::string&> of a string.
  abbrev pub text_of : V → String
  text_of v = elim (json.get_string v) [ ok s ↦ s | throw e ↦ "" ]

  -- The types that the names stand for; an unknown name allows everything.
  unfoldable pub has_type : V → String → Bool
  has_type value name =
      if name == "object"
      then is_object value
      else if name == "array"
      then is_array value
      else if name == "string"
      then is_string value
      else if name == "number"
      then is_number value
      else if name == "integer"
      then is_number_integer value
      else if name == "boolean"
      then is_boolean value
      else if name == "null"
      then is_null value
      else true

  abbrev pub type_schema : V → V
  type_schema alt = json.from_object (("type", alt) ∷ [])

  -- The test of "type"; `valid` is schema_validate with one argument fewer to come.
  unfoldable pub type_ok : (valid : V → V → Bool) → V → Option V → Bool
  unfolding has_type
  type_ok valid value none = true
  type_ok valid value (some t) =
      if is_string t
      then has_type value (text_of t)
      else if is_array t
      then any (λ alt. valid value (type_schema alt)) (json.elements t)
      else true

  unfoldable pub enum_ok : V → Option V → Bool
  enum_ok value none = true
  enum_ok value (some allowed) =
      if is_array allowed then any (json.same value) (json.elements allowed) else true

  -- The first required property that is missing.
  unfoldable pub missing_property : V → List V → String
  missing_property value [] = ""
  missing_property value (req ∷ required) =
      let rest = missing_property value required in
      if is_string req && not (contains value (text_of req))
      then "missing required property '" <> (text_of req <> "'")
      else rest

  abbrev pub required_of : V → List V
  required_of schema = elim (json.at? schema "required") [
    | none ↦ []
    | some required ↦ if is_array required then json.elements required else []
  ]

  abbrev pub properties_of : V → Option V
  properties_of schema = member_with is_object (json.at? schema "properties")

  abbrev pub items_of : V → Option V
  items_of schema = member_with is_object (json.at? schema "items")

  -- The members of an object against the schemas of their properties.
  unfoldable pub validate_members :
      (validate : V → V → String → String) → V → String → List (String × V) → String
  validate_members validate properties path [] = ""
  validate_members validate properties path ((key, v) ∷ members) =
      let rest = validate_members validate properties path members in
      let violation : String = elim (json.at? properties key) [
        | none ↦ ""
        | some sub ↦ validate v sub (below path key)
      ] in
      if is_empty violation then rest else violation

  unfoldable pub validate_items :
      (validate : V → V → String → String) → V → String → ℕ → List V → String
  unfolding to_string
  validate_items validate items path i [] = ""
  validate_items validate items path i (v ∷ values) =
      let rest = validate_items validate items path (suc i) values in
      let violation : String = validate v items (path <> ("[" <> (to_string i <> "]"))) in
      if is_empty violation then rest else violation

  abbrev pub members_violation : (V → V → String → String) → V → String → Option V → String
  members_violation validate value path none = ""
  members_violation validate value path (some properties) =
      validate_members validate properties path (json.members value)

  abbrev pub items_violation : (V → V → String → String) → V → String → Option V → String
  items_violation validate value path none = ""
  items_violation validate value path (some items) =
      validate_items validate items path 0 (json.elements value)

  -- What follows the tests of "type" and "enum".
  unfoldable pub validate_parts : (validate : V → V → String → String) → V → V → String → String
  unfolding missing_property validate_members validate_items
  validate_parts validate value schema path =
      let missing : String =
        (if is_object value then missing_property value (required_of schema) else "") in
      let in_members : String =
        (if is_object value
          then members_violation validate value path (properties_of schema)
          else "") in
      let in_items : String =
        (if is_array value then items_violation validate value path (items_of schema) else "") in
      first_violation (missing ∷ in_members ∷ in_items ∷ [])

  unfoldable pub schema_validate : (fuel : ℕ) (value schema : V) (path : String) → String
  unfolding type_ok enum_ok validate_parts
  schema_validate zero value schema path = ""
  schema_validate (suc fuel) value schema path =
      let validate : V → V → String → String = schema_validate fuel in
      if not (is_object schema)
      then ""
      else if not (type_ok (λ v s. is_empty (validate v s path)) value (json.at? schema "type"))
      then or_named path "value" " does not match schema type"
      else if not (enum_ok value (json.at? schema "enum"))
      then or_named path "value" " is not one of the allowed values"
      else validate_parts validate value schema path
