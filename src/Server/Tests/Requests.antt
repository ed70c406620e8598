-- ===== src/Server/Tests/Requests.antt =====
-- The theorems about the dispatch of requests and the check of arguments, at concrete values.
use cppmcp.Base.{
  ℕ, suc, ◌+◌, ◌<◌, ◌≤◌, pos, neg, String, ◌==◌, string_eq, ◌≡◌, refl, false, List, [], ◌∷◌, Option,
  none, some, All, arith, Bool-cases, inl, inr,
}
use cppmcp.Outcome.{ok, throw, unknown}
use cppmcp.Json.Example.{
  Value, Elements, nil, cons, Members, end, member, null, boolean, integer, string, array, object,
  value_json, value_json-IsJson, example, of_elements, of_members, find,
}
use cppmcp.RequestId.{int_id, request_id_of_json, is_null_id}
use cppmcp.Jsonrpc.Parsing.{parse_message, check_jsonrpc_envelope}
use cppmcp.Jsonrpc.{JsonRpcRequest}
use cppmcp.Jsonrpc.Building.{make_error_response}
use cppmcp.Server.{McpServer}
use cppmcp.Server.Calls.{Handlers, Registry}
use cppmcp.Server.Dispatch.{process_request, on_message}
use cppmcp.Server.Answers.{process_request-IsAnswer}
use cppmcp.Server.Answers.Forms.{IsAnswer}
use cppmcp.Server.Gate.{receive_all, on_message-gated}
use cppmcp.Server.Schema.{schema_validate}
use cppmcp.Server.Schema.Fuel.{IsSized, schema_validate-enough}
use cppmcp.Server.Tests.{running}

-- A tool whose handler throws.
abbrev failing : Handlers Value
failing = record {
  initialize = none;
  lists = λ kind. ok [];
  tools = ("t", (object end, λ arguments ctx. throw unknown)) ∷ [];
  resources = [];
  resource_templates = [];
  prompts = [];
  completion = none;
  logging_level = none;
}

abbrev pub registry : Registry Value
registry = record { handlers = failing; frozen_handlers = failing }

abbrev call : JsonRpcRequest Value
call = record {
  jsonrpc = "2.0";
  id = int_id (pos 7);
  method = "tools/call";
  params = some (object (member "name" (string "t") end));
}

abbrev pub no_match : String → String → Option (List String)
no_match pattern uri = none

process_request-IsAnswer_example :
    IsAnswer (int_id (pos 7)) (process_request 5 no_match call "a" registry running).1
process_request-IsAnswer_example =
    process_request-IsAnswer value_json-IsJson 5 no_match call "a" registry running

abbrev fresh : McpServer Value
fresh = record running { initialized = false }

abbrev call_message : Value
call_message = object (
    member "jsonrpc" (string "2.0") (
      member "id" (integer (pos 7)) (
        member "method" (string "tools/call")
          (member "params" (object (member "name" (string "t") end)) end))))

abbrev greeting : Value
greeting = object (
    member "jsonrpc" (string "2.0")
      (member "id" (integer (pos 1)) (member "method" (string "initialize") end)))

on_message-gated_example :
    (let s = receive_all 5 no_match registry ((greeting, "a") ∷ []) fresh in
      on_message 5 no_match call_message "a" registry s ≡ (
        s,
        some (
            make_error_response
              (int_id (pos 7))
              (neg 32002)
              "Server not initialized. Send initialize request first."
              none),
      ))
unfolding example find parse_message check_jsonrpc_envelope request_id_of_json is_null_id
on_message-gated_example =
    on_message-gated 5 no_match registry ((greeting, "a") ∷ []) fresh call_message "a" call refl
      (refl, tt) refl refl refl

unfoldable mutual
  size : Value → ℕ
  size (array vs) = suc (size_elements vs)
  size (object ms) = suc (size_members ms)
  size null = 1
  size (boolean b) = 1
  size (integer n) = 1
  size (string s) = 1

  size_elements : Elements → ℕ
  size_elements nil = 0
  size_elements (cons v vs) = size v + size_elements vs

  size_members : Members → ℕ
  size_members end = 0
  size_members (member k v ms) = size v + size_members ms

find-size :
    (ms : Members) (k : String) (x : Value) → find ms k ≡ some x → size x < suc (size_members ms)
unfolding find size
find-size end k x e = absurd (ground arith)
find-size (member j v ms) k x e = elim (Bool-cases (j == k)) [
  | inl same ↦ ground (arith, same, e)
  | inr other ↦ ground (arith, other, find-size ms k x)
]

at?-size : (v : Value) (k : String) (x : Value) → value_json.at? v k ≡ some x → size x < size v
unfolding example size
at?-size (object ms) k x e = find-size ms k x e
at?-size (array vs) k x e = absurd (ground arith)
at?-size null k x e = absurd (ground arith)
at?-size (boolean b) k x e = absurd (ground arith)
at?-size (integer n) k x e = absurd (ground arith)
at?-size (string s) k x e = absurd (ground arith)

below_elements :
    (n m : ℕ) (vs : List Value) → n ≤ m → All (λ v. size v < n) vs → All (λ v. size v < m) vs
below_elements n m [] le h = tt
below_elements n m (v ∷ vs) le (p, h) = (omega (arith, p, le), below_elements n m vs le h)

of_elements-size : (vs : Elements) → All (λ v. size v < suc (size_elements vs)) (of_elements vs)
unfolding of_elements size
of_elements-size nil = tt
of_elements-size (cons v vs) = (
  omega arith,
  below_elements (suc (size_elements vs)) (suc (size v + size_elements vs)) (of_elements vs)
      (omega arith) (of_elements-size vs),
)

elements-size : (v : Value) → All (λ x. size x < size v) (value_json.elements v)
unfolding example size
elements-size (array vs) = of_elements-size vs
elements-size (object ms) = tt
elements-size null = tt
elements-size (boolean b) = tt
elements-size (integer n) = tt
elements-size (string s) = tt

below_members :
    (n m : ℕ) (ms : List (String × Value))
    → n ≤ m
    → All (λ (e : String × Value). size e.1 < n) ms
    → All (λ (e : String × Value). size e.1 < m) ms
below_members n m [] le h = tt
below_members n m (e ∷ ms) le (p, h) = (omega (arith, p, le), below_members n m ms le h)

of_members-size :
    (ms : Members) → All (λ (e : String × Value). size e.1 < suc (size_members ms)) (of_members ms)
unfolding of_members size
of_members-size end = tt
of_members-size (member k v ms) = (
  omega arith,
  below_members (suc (size_members ms)) (suc (size v + size_members ms)) (of_members ms)
      (omega arith) (of_members-size ms),
)

members-size : (v : Value) → All (λ (e : String × Value). size e.1 < size v) (value_json.members v)
unfolding example size
members-size (object ms) = of_members-size ms
members-size (array vs) = tt
members-size null = tt
members-size (boolean b) = tt
members-size (integer n) = tt
members-size (string s) = tt

value_json-IsSized : IsSized value_json size
unfolding example size
value_json-IsSized = record {
  at?-size = at?-size;
  elements-size = elements-size;
  members-size = members-size;
  size-from_object = λ k x. omega arith;
}

abbrev schema : Value
schema = object (member "type" (string "string") end)

schema_validate-enough_example :
    schema_validate 9 (string "a") schema "" ≡ schema_validate 5 (string "a") schema ""
unfolding size
schema_validate-enough_example =
    schema_validate-enough size value_json-IsSized 9 5 (string "a") schema "" (omega arith)
      (omega arith)
