-- ===== src/Jsonrpc/Tests.antt =====
-- Runs of the parsers, and the theorems about them at concrete messages.
use cppmcp.Base.{neg, ◌≡◌, refl, inl, none, some, arith}
use cppmcp.Outcome.{invalid_request, internal_error}
use cppmcp.Json.Example.{
  Value, value_json, value_json-IsJson, example, object, string, integer, null, member, end,
}
use cppmcp.RequestId.{
  int_id, string_id, null_id, is_null_id, request_id_of_json, request_id_to_json,
}
use cppmcp.Jsonrpc.{JsonRpcRequest, JsonRpcNotification, request, error_detail, failure_of}
use cppmcp.Jsonrpc.Parsing.{parse_message, parse_message_client, success_of, unexpected_response}
use cppmcp.Jsonrpc.Building.{serialize_request, make_success_response, make_error_response}
use cppmcp.Jsonrpc.Roundtrip.{parse-serialize_request}
use cppmcp.Jsonrpc.Responses.{parse-make_success_response, parse-make_error_response}
use cppmcp.Jsonrpc.Classification.{IsRequestOf, parse-IsRequestOf}

abbrev call : JsonRpcRequest Value
call = record {
  jsonrpc = "2.0";
  id = int_id (neg 7);
  method = "tools/call";
  params = some (object (member "name" (string "echo") end));
}

abbrev raw_call : Value
raw_call = object (
    member "jsonrpc" (string "2.0") (
      member "id" (integer (neg 7)) (
        member "method" (string "tools/call")
          (member "params" (object (member "name" (string "echo") end)) end))))

codec : Unit {0}
unfolding parse_message serialize_request request_id_of_json request_id_to_json is_null_id example
codec = tt

serialize_call : serialize_request call ≡ raw_call
unfolding codec
serialize_call = refl

abbrev initialized : JsonRpcNotification Value
initialized = record { jsonrpc = "2.0"; method = "notifications/initialized"; params = none }

null_id_refused :
    parse_message (
      object
        (member "jsonrpc" (string "2.0") (member "id" null (member "method" (string "ping") end))))
    ≡ failure_of {V = Value} null_id
        (error_detail invalid_request "Request id must be a string or number (null is not allowed)")
unfolding codec
null_id_refused = refl

parse-serialize_request_example :
    (parse_message (serialize_request call) ≡ request call)
    × (parse_message_client (serialize_request call) ≡ request call)
unfolding codec
parse-serialize_request_example =
    parse-serialize_request value_json-IsJson call refl refl (omega arith) refl

parse-make_success_response_example :
    (parse_message (make_success_response (string_id "a") null) ≡ success_of (string_id "a") null)
    × (parse_message_client (make_success_response (string_id "a") null)
        ≡ success_of (string_id "a") null)
parse-make_success_response_example =
    parse-make_success_response value_json-IsJson (string_id "a") null tt

parse-make_error_response_example :
    (parse_message_client (make_error_response (int_id (neg 1)) internal_error "no" (some null))
      ≡ failure_of
          (int_id (neg 1))
          (record { code = internal_error; message = "no"; extra = some null }))
    × (parse_message (make_error_response (int_id (neg 1)) internal_error "no" (some null))
        ≡ failure_of (int_id (neg 1)) (error_detail invalid_request unexpected_response))
parse-make_error_response_example =
    parse-make_error_response value_json-IsJson (int_id (neg 1)) internal_error "no" (some null)
      (omega arith) (omega arith)

raw_call_parses : parse_message raw_call ≡ request call
unfolding codec
raw_call_parses = refl

parse-IsRequestOf_example : IsRequestOf raw_call call
parse-IsRequestOf_example = parse-IsRequestOf raw_call call (inl raw_call_parses)
