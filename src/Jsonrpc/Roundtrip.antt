-- ===== src/Jsonrpc/Roundtrip.antt =====
-- src/jsonrpc.cpp: what was serialized parses back.
use cppmcp.Base.{
  ◌∙◌, ap, String, string_eq, ◌≡◌, refl, true, false, ◌||◌, List, [], ◌∷◌, Option, none, some,
  arith,
}
use cppmcp.Outcome.{Result, ok, catch}
use cppmcp.Json.{Json, IsJson, is_object, is_array}
use cppmcp.RequestId.{IsInt64Id, is_null_id, request_id_to_json, request_id_of_json-to_json}
use cppmcp.Jsonrpc.{JsonRpcRequest, JsonRpcNotification, ParsedMessage, request, notification}
use cppmcp.Jsonrpc.Parsing.{
  parse_message, parse_message_client, classify, parse_request, check_jsonrpc_envelope,
  parse_notification, parse_failed, parse_response, parse_response_client, request_id_from_json,
  params_ok, parsed_params,
}
use cppmcp.Jsonrpc.Members.{at?-put_some_ne, at?-put_some_self, kind-put_some, check_of_version}
use cppmcp.Jsonrpc.Building.{serialize_request, serialize_notification}

-- Parameters that a message may carry: none, an object or an array.
abbrev pub IsStructured : {V : Type 0} ⦃json : Json V⦄ → Option V → Type 0
IsStructured none = Unit
IsStructured (some p) = (is_object p || is_array p) ≡ true

module _ {V : Type 0} ⦃json : Json V⦄ (laws : IsJson json) where
  params_of_structured :
      (v : V) (params : Option V)
      → json.at? v "params" ≡ params
      → IsStructured params
      → (params_ok v ≡ true) × (parsed_params v ≡ params)
  unfolding params_ok parsed_params
  params_of_structured v none e h = ground arith
  params_of_structured v (some p) e h = ground arith

  parse_request_of_parts :
      (v : V) (r : JsonRpcRequest V)
      → r.jsonrpc ≡ "2.0"
      → is_null_id r.id ≡ false
      → IsInt64Id r.id
      → IsStructured r.params
      → json.at? v "params" ≡ r.params
      → parse_request v (request_id_to_json r.id) (json.from_string r.method) ≡ ok (request r)
  unfolding parse_request request_id_from_json
  parse_request_of_parts v r e n i s p = ground (
    arith,
    params_of_structured v r.params p s,
    request_id_of_json-to_json laws r.id i,
    laws.kind-from_string r.method,
    laws.get_string-from_string r.method,
  )

  classify_request_lem :
      (respond : V → V → Result V (ParsedMessage V)) (neither : String) (v raw_id raw_method : V)
      → check_jsonrpc_envelope v ≡ true
      → json.at? v "id" ≡ some raw_id
      → json.at? v "method" ≡ some raw_method
      → classify respond neither v ≡ parse_request v raw_id raw_method
  unfolding classify
  classify_request_lem respond neither v raw_id raw_method c i m = ground arith

  classify_of_request :
      (respond : V → V → Result V (ParsedMessage V)) (neither : String) (r : JsonRpcRequest V)
      → r.jsonrpc ≡ "2.0"
      → is_null_id r.id ≡ false
      → IsInt64Id r.id
      → IsStructured r.params
      → classify respond neither (serialize_request r) ≡ ok (request r)
  unfolding serialize_request
  classify_of_request respond neither r e n i s =
      classify_request_lem respond neither _ _ _
        (check_of_version laws _ (kind-put_some laws ms "params" r.params)
          (at?-put_some_ne laws ms "params" r.params "jsonrpc" refl))
        (at?-put_some_ne laws ms "params" r.params "id" refl)
        (at?-put_some_ne laws ms "params" r.params "method" refl)
      ∙ parse_request_of_parts _ r e n i s (at?-put_some_self laws ms "params" r.params refl)
    where
      ms : List (String × V)
      ms =
          ("jsonrpc", json.from_string "2.0")
          ∷ ("id", request_id_to_json r.id)
          ∷ ("method", json.from_string r.method)
          ∷ []

  -- A request whose id is a string or a 64-bit number and whose parameters are absent, an object or
  -- an array: both the server and the client read the JSON it is serialized to as the same request.
  pub parse-serialize_request :
      (r : JsonRpcRequest V)
      → r.jsonrpc ≡ "2.0"
      → is_null_id r.id ≡ false
      → IsInt64Id r.id
      → IsStructured r.params
      → (parse_message (serialize_request r) ≡ request r)
        × (parse_message_client (serialize_request r) ≡ request r)
  unfolding parse_message parse_message_client
  parse-serialize_request r e n i s = (
    ap (λ m. catch m parse_failed) (classify_of_request parse_response _ r e n i s),
    ap (λ m. catch m parse_failed) (classify_of_request parse_response_client _ r e n i s),
  )

  parse_notification_of_parts :
      (v : V) (n : JsonRpcNotification V)
      → n.jsonrpc ≡ "2.0"
      → IsStructured n.params
      → json.at? v "params" ≡ n.params
      → parse_notification v (json.from_string n.method) ≡ ok (notification n)
  unfolding parse_notification
  parse_notification_of_parts v n e s p = ground (
    arith,
    params_of_structured v n.params p s,
    laws.kind-from_string n.method,
    laws.get_string-from_string n.method,
  )

  classify_notification_lem :
      (respond : V → V → Result V (ParsedMessage V)) (neither : String) (v raw_method : V)
      → check_jsonrpc_envelope v ≡ true
      → json.at? v "id" ≡ none
      → json.at? v "method" ≡ some raw_method
      → classify respond neither v ≡ parse_notification v raw_method
  unfolding classify
  classify_notification_lem respond neither v raw_method c i m = ground arith

  classify_of_notification :
      (respond : V → V → Result V (ParsedMessage V)) (neither : String) (n : JsonRpcNotification V)
      → n.jsonrpc ≡ "2.0"
      → IsStructured n.params
      → classify respond neither (serialize_notification n) ≡ ok (notification n)
  unfolding serialize_notification
  classify_of_notification respond neither n e s =
      classify_notification_lem respond neither _ _
        (check_of_version laws _ (kind-put_some laws ms "params" n.params)
          (at?-put_some_ne laws ms "params" n.params "jsonrpc" refl))
        (at?-put_some_ne laws ms "params" n.params "id" refl)
        (at?-put_some_ne laws ms "params" n.params "method" refl)
      ∙ parse_notification_of_parts _ n e s (at?-put_some_self laws ms "params" n.params refl)
    where
      ms : List (String × V)
      ms = ("jsonrpc", json.from_string "2.0") ∷ ("method", json.from_string n.method) ∷ []

  -- A notification whose parameters are absent, an object or an array: both the server and the
  -- client read the JSON it is serialized to as the same notification.
  pub parse-serialize_notification :
      (n : JsonRpcNotification V)
      → n.jsonrpc ≡ "2.0"
      → IsStructured n.params
      → (parse_message (serialize_notification n) ≡ notification n)
        × (parse_message_client (serialize_notification n) ≡ notification n)
  unfolding parse_message parse_message_client
  parse-serialize_notification n e s = (
    ap (λ m. catch m parse_failed) (classify_of_notification parse_response _ n e s),
    ap (λ m. catch m parse_failed) (classify_of_notification parse_response_client _ n e s),
  )
