-- ===== src/RequestId.antt =====
-- include/cppmcp/common.hpp: the id of a JSON-RPC message and its JSON form.
use cppmcp.Base.{
  ℤ, ℤ_eq, FitsIn, String, Eq, ◌==◌, string_eq, ◌≡◌, ◌↔◌, Bool, true, false, arith, if◌then◌else◌,
}
use cppmcp.Outcome.{Result, ok, throw, std, map_result}
use cppmcp.Json.{Json, IsJson, is_null, is_string, is_number_integer}
use cppmcp.Map.{Ord, ℤ_before, string_before}

pub data RequestId : Type 0 where
  null_id : RequestId
  int_id : ℤ → RequestId
  string_id : String → RequestId

unfoldable pub is_null_id : RequestId → Bool
is_null_id null_id = true
is_null_id _ = false

abbrev pub id_beq : RequestId → RequestId → Bool
id_beq null_id null_id = true
id_beq (int_id a) (int_id b) = a == b
id_beq (string_id s) (string_id t) = s == t
id_beq _ _ = false

pub id_beq_iff : (a b : RequestId) → (id_beq a b ≡ true) ↔ (a ≡ b)
id_beq_iff null_id null_id = ground arith
id_beq_iff (int_id a) (int_id b) = ground (arith, ℤ_eq.same_iff a b)
id_beq_iff (string_id s) (string_id t) = ground (arith, string_eq.same_iff s t)
id_beq_iff _ _ = ground arith

instance abbrev pub id_eq : Eq RequestId
id_eq = record { same = id_beq; same_iff = id_beq_iff }

-- A variant compares its alternative first.
abbrev pub id_before : RequestId → RequestId → Bool
id_before null_id null_id = false
id_before null_id _ = true
id_before (int_id a) null_id = false
id_before (int_id a) (int_id b) = ℤ_before a b
id_before (int_id a) (string_id t) = true
id_before (string_id s) (string_id t) = string_before s t
id_before (string_id s) _ = false

instance abbrev pub id_ord : Ord RequestId
id_ord = record { before = id_before }

abbrev pub IsInt64Id : RequestId → Type 0
IsInt64Id null_id = Unit
IsInt64Id (int_id n) = FitsIn 63 n
IsInt64Id (string_id s) = Unit

module _ {V : Type 0} ⦃json : Json V⦄ where
  unfoldable pub request_id_to_json : RequestId → V
  request_id_to_json null_id = json.from_null
  request_id_to_json (int_id n) = json.from_int n
  request_id_to_json (string_id s) = json.from_string s

  unfoldable pub request_id_of_json : V → Result V RequestId
  request_id_of_json v =
      if is_null v
      then ok null_id
      else if is_number_integer v
      then map_result int_id (json.get_int64 v)
      else if is_string v
      then map_result string_id (json.get_string v)
      else throw (std "RequestId must be null, integer, or string")

  pub request_id_of_json-to_json :
      (laws : IsJson json) (id : RequestId)
      → IsInt64Id id
      → request_id_of_json (request_id_to_json id) ≡ ok id
  unfolding request_id_of_json request_id_to_json
  request_id_of_json-to_json laws null_id h = rw laws.kind-from_null
  request_id_of_json-to_json laws (int_id n) h =
      rw (laws.kind-from_int n, laws.get_int64-from_int n h)
  request_id_of_json-to_json laws (string_id s) h =
      rw (laws.kind-from_string s, laws.get_string-from_string s)
