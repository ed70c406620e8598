-- ===== src/Jsonrpc/Members.antt =====
-- The members of the objects that src/jsonrpc.cpp builds.
use text.Mathlib.TextPositions.{eq_refl}
use cppmcp.Base.{String, ◌==◌, string_eq, ◌≡◌, ◌∙◌, true, false, List, Option, none, some, arith}
use cppmcp.Json.{put_some, Kind, Json, IsJson, lookup}
use cppmcp.Jsonrpc.Parsing.{check_jsonrpc_envelope}

module _ {V : Type 0} ⦃json : Json V⦄ (laws : IsJson json) where
  pub at?-put_some_ne :
      (ms : List (String × V)) (key : String) (o : Option V) (k : String)
      → (key == k) ≡ false
      → json.at? (put_some (json.from_object ms) key o) k ≡ lookup k ms
  at?-put_some_ne ms key none k h = laws.at?-from_object ms k
  at?-put_some_ne ms key (some v) k h = ground (
    arith,
    laws.at?-put (json.from_object ms) key v k,
    laws.kind-from_object ms,
    laws.at?-from_object ms k,
  )

  pub at?-put_some_self :
      (ms : List (String × V)) (key : String) (o : Option V)
      → lookup key ms ≡ none
      → json.at? (put_some (json.from_object ms) key o) key ≡ o
  at?-put_some_self ms key none h = laws.at?-from_object ms key ∙ h
  at?-put_some_self ms key (some v) h =
      ground
        (arith, laws.at?-put (json.from_object ms) key v key, laws.kind-from_object ms, eq_refl key)

  pub kind-put_some :
      (ms : List (String × V)) (key : String) (o : Option V)
      → json.kind (put_some (json.from_object ms) key o) ≡ Kind.object
  kind-put_some ms key none = laws.kind-from_object ms
  kind-put_some ms key (some v) = laws.kind-put _ key v (laws.kind-from_object ms)

  pub check_of_version :
      (v : V)
      → json.kind v ≡ Kind.object
      → json.at? v "jsonrpc" ≡ some (json.from_string "2.0")
      → check_jsonrpc_envelope v ≡ true
  unfolding check_jsonrpc_envelope
  check_of_version v k e = ground (arith, laws.same-from_string "2.0" "2.0")
