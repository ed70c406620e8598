-- ===== src/Jsonrpc/Parsing.antt =====
-- src/jsonrpc.cpp: the classification of a message, by the server and by the client.
use cppmcp.Base.{
  String, ◌<>◌, Bool, true, false, ◌&&◌, ◌||◌, not, Option, none, some, if◌then◌else◌,
}
use cppmcp.Outcome.{
  Result, ok, throw, Exception, what, ◌>>=◌, catch, parse_error, invalid_request, internal_error,
}
use cppmcp.Json.{Json, value_or, is_null, is_object, is_array, is_string}
use cppmcp.RequestId.{RequestId, null_id, is_null_id, request_id_of_json}
use cppmcp.Jsonrpc.{
  JsonRpcErrorDetail, ParsedMessage, request, notification, success, error_detail, failure_of,
}

abbrev pub unexpected_response : String
unexpected_response = "Server received a response message (unexpected)"

module _ {V : Type 0} ⦃json : Json V⦄ where
  -- The member `key` of a value, by operator[] after a test that it is there.
  abbrev member_is : (V → Bool) → V → String → Bool
  member_is test raw key = elim (json.at? raw key) [ none ↦ false | some v ↦ test v ]

  unfoldable pub check_jsonrpc_envelope : V → Bool
  check_jsonrpc_envelope raw =
      is_object raw && member_is (λ v. json.same v (json.from_string "2.0")) raw "jsonrpc"

  -- The id of a request, or none if it cannot be used.
  unfoldable pub request_id_from_json : V → Option RequestId
  request_id_from_json raw = elim (request_id_of_json raw) [
    | throw e ↦ none
    | ok id ↦ if is_null_id id then none else some id
  ]

  abbrev pub make_method_error : RequestId → String → ParsedMessage V
  make_method_error id why = failure_of id (error_detail invalid_request why)

  unfoldable pub params_ok : V → Bool
  params_ok raw = elim (json.at? raw "params") [
    | none ↦ true
    | some p ↦ is_null p || (is_object p || is_array p)
  ]

  -- `params` of a message, which a null member leaves unset.
  unfoldable pub parsed_params : V → Option V
  parsed_params raw = elim (json.at? raw "params") [
    | none ↦ none
    | some p ↦ if is_null p then none else some p
  ]

  abbrev pub bad_version : ParsedMessage V
  bad_version = make_method_error null_id "Invalid or missing jsonrpc version"

  -- A message with an id and a method; both views share it.
  unfoldable pub parse_request : V → V → V → Result V (ParsedMessage V)
  unfolding request_id_from_json params_ok parsed_params
  parse_request raw raw_id raw_method = elim (request_id_from_json raw_id) [
    | none ↦
        ok (make_method_error null_id "Request id must be a string or number (null is not allowed)")
    | some id ↦
        if not (is_string raw_method)
        then ok (make_method_error id "Method must be a string")
        else if not (params_ok raw)
        then ok (make_method_error id "Params must be a structured value (object or array)")
        else (do
          method ← json.get_string raw_method
          ok (
              request
                (record { jsonrpc = "2.0"; id = id; method = method; params = parsed_params raw })))
  ]

  unfoldable pub parse_notification : V → V → Result V (ParsedMessage V)
  unfolding params_ok parsed_params
  parse_notification raw raw_method =
      if not (is_string raw_method)
      then ok (make_method_error null_id "Method must be a string")
      else if not (params_ok raw)
      then ok (make_method_error null_id "Params must be a structured value (object or array)")
      else (do
        method ← json.get_string raw_method
        ok (notification (record { jsonrpc = "2.0"; method = method; params = parsed_params raw })))

  abbrev pub success_of : RequestId → V → ParsedMessage V
  success_of id result = success (record { jsonrpc = "2.0"; id = id; result = result })

  -- An id without a method, as the server reads it.
  unfoldable pub parse_response : V → V → Result V (ParsedMessage V)
  parse_response raw raw_id = do
    id ← request_id_of_json raw_id
    elim (json.at? raw "result") [
      | some r ↦ ok (success_of id r)
      | none ↦ ok (make_method_error id unexpected_response)
    ]

  unfoldable pub parse_error_detail : V → Result V (JsonRpcErrorDetail V)
  parse_error_detail err = do
    code ← value_or json.get_int err "code" internal_error
    message ← value_or json.get_string err "message" "Unknown error"
    ok (record { code = code; message = message; extra = json.at? err "data" })

  -- The same as the client reads it, with the error that the server reports.
  unfoldable pub parse_response_client : V → V → Result V (ParsedMessage V)
  unfolding parse_error_detail
  parse_response_client raw raw_id = do
    id ← request_id_of_json raw_id
    elim (json.at? raw "result") [
      | some r ↦ ok (success_of id r)
      | none ↦ elim (json.at? raw "error") [
        | none ↦ ok (make_method_error id unexpected_response)
        | some err ↦
            if is_object err
            then (do detail ← parse_error_detail err; ok (failure_of id detail))
            else ok (make_method_error id "Response has neither result nor error")
      ]
    ]

  -- The body of either parser; `respond` reads a message with an id and no method.
  unfoldable pub classify :
      (V → V → Result V (ParsedMessage V)) → String → V → Result V (ParsedMessage V)
  unfolding check_jsonrpc_envelope parse_request parse_notification
  classify respond neither raw =
      if not (check_jsonrpc_envelope raw) then ok bad_version else elim (json.at? raw "id") [
        | some raw_id ↦ elim (json.at? raw "method") [
          | some raw_method ↦ parse_request raw raw_id raw_method
          | none ↦ respond raw raw_id
        ]
        | none ↦ elim (json.at? raw "method") [
          | some raw_method ↦ parse_notification raw raw_method
          | none ↦ ok (make_method_error null_id neither)
        ]
      ]

  -- `catch (const std::exception& e)` of either parser.
  abbrev pub parse_failed : Exception V → ParsedMessage V
  parse_failed e =
      failure_of null_id (error_detail parse_error ("Failed to parse message: " <> what e))

  unfoldable pub parse_message : V → ParsedMessage V
  unfolding classify parse_response
  parse_message raw =
      catch (classify parse_response "Message must have method or be a valid request" raw)
        parse_failed

  unfoldable pub parse_message_client : V → ParsedMessage V
  unfolding classify parse_response_client
  parse_message_client raw =
      catch
        (classify parse_response_client "Message must have method or be a valid request/response"
          raw)
        parse_failed
