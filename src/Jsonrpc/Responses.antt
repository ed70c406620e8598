-- ===== src/Jsonrpc/Responses.antt =====
-- src/jsonrpc.cpp: how either side reads the responses that the other side builds.
use cppmcp.Base.{
  ℤ, FitsIn, String, ◌==◌, string_eq, ◌≡◌, refl, ◌∙◌, ap, true, false, List, [], ◌∷◌, Option, none,
  some, arith,
}
use cppmcp.Outcome.{Result, ok, catch, invalid_request}
use cppmcp.Json.{Json, IsJson, is_object}
use cppmcp.RequestId.{
  RequestId, IsInt64Id, request_id_to_json, request_id_of_json, request_id_of_json-to_json,
}
use cppmcp.Jsonrpc.{JsonRpcErrorDetail, ParsedMessage, error_detail, failure_of}
use cppmcp.Jsonrpc.Parsing.{
  parse_message, parse_message_client, classify, check_jsonrpc_envelope, parse_response,
  parse_response_client, parse_error_detail, parse_failed, success_of, unexpected_response,
}
use cppmcp.Jsonrpc.Members.{at?-put_some_ne, at?-put_some_self, kind-put_some, check_of_version}
use cppmcp.Jsonrpc.Building.{make_success_response, make_error_response, error_object}

module _ {V : Type 0} ⦃json : Json V⦄ (laws : IsJson json) where
  classify_response_lem :
      (respond : V → V → Result V (ParsedMessage V)) (neither : String) (v raw_id : V)
      → check_jsonrpc_envelope v ≡ true
      → json.at? v "id" ≡ some raw_id
      → json.at? v "method" ≡ none
      → classify respond neither v ≡ respond v raw_id
  unfolding classify
  classify_response_lem respond neither v raw_id c i m = ground arith

  -- An object of a version, an id and one more member that is no method.
  classify_of_response :
      (respond : V → V → Result V (ParsedMessage V)) (neither : String) (id : RequestId)
      (key : String) (v : V)
      → (key == "method") ≡ false
      → let j =
          json.from_object
            (("jsonrpc", json.from_string "2.0") ∷ ("id", request_id_to_json id) ∷ (key, v) ∷ []) in
        classify respond neither j ≡ respond j (request_id_to_json id)
  classify_of_response respond neither id key v h =
      classify_response_lem respond neither _ _
        (check_of_version laws _ (laws.kind-from_object _) (laws.at?-from_object _ "jsonrpc"))
        (laws.at?-from_object _ "id") (laws.at?-from_object _ "method" ∙ ground arith)

  respond_success :
      (v raw_id result : V) (id : RequestId)
      → request_id_of_json raw_id ≡ ok id
      → json.at? v "result" ≡ some result
      → (parse_response v raw_id ≡ ok (success_of id result))
        × (parse_response_client v raw_id ≡ ok (success_of id result))
  unfolding parse_response parse_response_client
  respond_success v raw_id result id i r = ground arith

  respond_error :
      (v raw_id err : V) (id : RequestId) (detail : JsonRpcErrorDetail V)
      → request_id_of_json raw_id ≡ ok id
      → json.at? v "result" ≡ none
      → json.at? v "error" ≡ some err
      → is_object err ≡ true
      → parse_error_detail err ≡ ok detail
      → (parse_response v raw_id
          ≡ ok (failure_of id (error_detail invalid_request unexpected_response)))
        × (parse_response_client v raw_id ≡ ok (failure_of id detail))
  unfolding parse_response parse_response_client
  respond_error v raw_id err id detail i r e o d = ground arith

  -- A success response that either side builds, with any id but a number outside 64 bits, is read
  -- by the server and by the client as a success response with the same id and result.
  pub parse-make_success_response :
      (id : RequestId) (result : V)
      → IsInt64Id id
      → (parse_message (make_success_response id result) ≡ success_of id result)
        × (parse_message_client (make_success_response id result) ≡ success_of id result)
  unfolding parse_message parse_message_client make_success_response
  parse-make_success_response id result i =
      let reads =
        respond_success _ _ result id (request_id_of_json-to_json laws id i)
          (laws.at?-from_object _ "result") in
      (
        ap (λ m. catch m parse_failed)
            (classify_of_response parse_response _ id "result" result refl ∙ reads.0),
        ap (λ m. catch m parse_failed)
            (classify_of_response parse_response_client _ id "result" result refl ∙ reads.1),
      )

  error_object-is_object :
      (code : ℤ) (message : String) (extra : Option V)
      → is_object (error_object code message extra) ≡ true
  unfolding error_object
  error_object-is_object code message extra = rw (kind-put_some laws _ "data" extra)

  parse_error_detail-error_object :
      (code : ℤ) (message : String) (extra : Option V)
      → FitsIn 31 code
      → parse_error_detail (error_object code message extra)
        ≡ ok (record { code = code; message = message; extra = extra })
  unfolding parse_error_detail error_object
  parse_error_detail-error_object code message extra h =
      let ms : List (String × V) =
        ("code", json.from_int code) ∷ ("message", json.from_string message) ∷ [] in
      ground (
        arith,
        at?-put_some_ne laws ms "data" extra "code" refl,
        at?-put_some_ne laws ms "data" extra "message" refl,
        at?-put_some_self laws ms "data" extra refl,
        error_object-is_object code message extra,
        laws.get_int-from_int code h,
        laws.get_string-from_string message,
      )

  -- An error response with a code in the range of `int` and any id but a number outside 64 bits:
  -- the client reads back its id, code, message and data. The server keeps the id, and replaces
  -- code, message and data by those of an invalid request.
  pub parse-make_error_response :
      (id : RequestId) (code : ℤ) (message : String) (extra : Option V)
      → IsInt64Id id
      → FitsIn 31 code
      → (parse_message_client (make_error_response id code message extra)
          ≡ failure_of id (record { code = code; message = message; extra = extra }))
        × (parse_message (make_error_response id code message extra)
            ≡ failure_of id (error_detail invalid_request unexpected_response))
  unfolding parse_message parse_message_client make_error_response
  parse-make_error_response id code message extra i h =
      let err = error_object code message extra in
      let reads =
        respond_error _ _ err id _ (request_id_of_json-to_json laws id i)
          (laws.at?-from_object _ "result") (laws.at?-from_object _ "error")
          (error_object-is_object code message extra)
          (parse_error_detail-error_object code message extra h) in
      (
        ap (λ m. catch m parse_failed)
            (classify_of_response parse_response_client _ id "error" err refl ∙ reads.1),
        ap (λ m. catch m parse_failed)
            (classify_of_response parse_response _ id "error" err refl ∙ reads.0),
      )
