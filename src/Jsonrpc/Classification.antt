-- ===== src/Jsonrpc/Classification.antt =====
-- src/jsonrpc.cpp: what a parsed message guarantees to its receiver, and where the views differ.
use cppmcp.Base.{
  String, ◌≡◌, ap, subst, ◌⊎◌, true, false, Option, none, some, arith, ◌≢◌, Option-cases,
  Bool-cases, inl, inr,
}
use cppmcp.Outcome.{Result, ok, throw, catch}
use cppmcp.Json.{Json, contains, is_null, is_object, is_array}
use cppmcp.RequestId.{RequestId, null_id, int_id, string_id, is_null_id, request_id_of_json}
use cppmcp.Jsonrpc.{ParsedMessage, JsonRpcRequest, request}
use cppmcp.Jsonrpc.Parsing.{
  parse_message, parse_message_client, classify, check_jsonrpc_envelope, parse_request,
  parse_notification, parse_response, parse_response_client, request_id_from_json, params_ok,
  parsed_params, parse_failed,
}

is_null_id-eq-false : (id : RequestId) → is_null_id id ≡ false → id ≢ null_id
unfolding is_null_id
is_null_id-eq-false null_id h = ground arith
is_null_id-eq-false (int_id n) h = ground arith
is_null_id-eq-false (string_id s) h = ground arith

module _ {V : Type 0} ⦃json : Json V⦄ where
  -- The parameters that a value carries: none where the member is missing or null.
  pub data Carries (raw : V) : Option V → Type 0 where
    without : json.at? raw "params" ≡ none → Carries raw none
    unset : (p : V) → json.at? raw "params" ≡ some p → is_null p ≡ true → Carries raw none
    carried :
        (p : V)
        → json.at? raw "params" ≡ some p
        → is_null p ≡ false
        → (is_object p ≡ true) ⊎ (is_array p ≡ true)
        → Carries raw (some p)

  -- What the handlers rely on in a request.
  pub record IsRequestOf (raw : V) (r : JsonRpcRequest V) : Type 0 where
    pub is_an_object : is_object raw ≡ true
    pub versioned :
        (v : V) × (json.at? raw "jsonrpc" ≡ some v) × (json.same v (json.from_string "2.0") ≡ true)
    pub id_of :
        (raw_id : V) × (json.at? raw "id" ≡ some raw_id) × (request_id_of_json raw_id ≡ ok r.id)
    pub usable_id : r.id ≢ null_id
    pub method_of : (m : V) × (json.at? raw "method" ≡ some m) × (json.get_string m ≡ ok r.method)
    pub params_of : Carries raw r.params

  parsed_params-Carries :
      (raw : V) (p : Option V) → params_ok raw ≡ true → parsed_params raw ≡ p → Carries raw p
  unfolding params_ok parsed_params
  parsed_params-Carries raw p fine h = elim (Option-cases (json.at? raw "params")) [
    | inl no_params ↦ subst (Carries raw) (ground arith) (without no_params)
    | inr (v, e) ↦ elim (Bool-cases (is_null v)) [
      | inl null ↦ subst (Carries raw) (ground arith) (unset v e null)
      | inr full ↦ subst (Carries raw) (ground arith) (
          carried v e full
            (elim (Bool-cases (is_object v)) [ inl o ↦ inl o | inr o ↦ inr (ground arith) ]))
    ]
  ]

  check_jsonrpc_envelope-eq-true :
      (raw : V)
      → check_jsonrpc_envelope raw ≡ true
      → (is_object raw ≡ true)
        × ((v : V) × (json.at? raw "jsonrpc" ≡ some v)
            × (json.same v (json.from_string "2.0") ≡ true))
  unfolding check_jsonrpc_envelope
  check_jsonrpc_envelope-eq-true raw h = elim (Option-cases (json.at? raw "jsonrpc")) [
    | inl none_there ↦ ground arith
    | inr (v, e) ↦ (ground arith, (v, e, ground arith))
  ]

  request_id_from_json-eq-some :
      (raw_id : V) (id : RequestId)
      → request_id_from_json raw_id ≡ some id
      → (request_id_of_json raw_id ≡ ok id) × (is_null_id id ≡ false)
  unfolding request_id_from_json
  request_id_from_json-eq-some raw_id id h = ground arith

  parse_request-eq-request :
      (raw raw_id m : V) (r : JsonRpcRequest V)
      → parse_request raw raw_id m ≡ ok (request r)
      → (request_id_from_json raw_id ≡ some r.id)
        × (params_ok raw ≡ true)
        × (json.get_string m ≡ ok r.method)
        × (parsed_params raw ≡ r.params)
  unfolding parse_request
  parse_request-eq-request raw raw_id m r h = ground arith

  classify-eq-request :
      (respond : V → V → Result V (ParsedMessage V)) (neither : String) (raw : V)
      (r : JsonRpcRequest V)
      → ((raw_id : V) → respond raw raw_id ≢ ok (request r))
      → classify respond neither raw ≡ ok (request r)
      → (raw_id : V) × (m : V) × (check_jsonrpc_envelope raw ≡ true)
        × (json.at? raw "id" ≡ some raw_id)
        × (json.at? raw "method" ≡ some m)
        × (parse_request raw raw_id m ≡ ok (request r))
  unfolding classify parse_notification
  classify-eq-request respond neither raw r never h = elim (Option-cases (json.at? raw "id")) [
    | inl no_id ↦ ground arith
    | inr (raw_id, has_id) ↦ elim (Option-cases (json.at? raw "method")) [
      | inl no_method ↦ ground (arith, never raw_id)
      | inr (m, has_method) ↦ (raw_id, m, ground arith, has_id, has_method, ground arith)
    ]
  ]

  parse_response-ne-request :
      (raw raw_id : V) (r : JsonRpcRequest V) → parse_response raw raw_id ≢ ok (request r)
  unfolding parse_response
  parse_response-ne-request raw raw_id r = ground arith

  parse_response_client-ne-request :
      (raw raw_id : V) (r : JsonRpcRequest V) → parse_response_client raw raw_id ≢ ok (request r)
  unfolding parse_response_client
  parse_response_client-ne-request raw raw_id r = ground arith

  catch-eq-request :
      (m : Result V (ParsedMessage V)) (r : JsonRpcRequest V)
      → catch m parse_failed ≡ request r
      → m ≡ ok (request r)
  catch-eq-request (ok p) r h = ap ok h
  catch-eq-request (throw e) r h = cc

  classify-IsRequestOf :
      (respond : V → V → Result V (ParsedMessage V)) (neither : String) (raw : V)
      (r : JsonRpcRequest V)
      → ((raw_id : V) → respond raw raw_id ≢ ok (request r))
      → classify respond neither raw ≡ ok (request r)
      → IsRequestOf raw r
  classify-IsRequestOf respond neither raw r never h =
      let (raw_id, m, versioned, has_id, has_method, parsed) =
        classify-eq-request respond neither raw r never h in
      let (usable, fine, method, params) = parse_request-eq-request raw raw_id m r parsed in
      let (id, nonnull) = request_id_from_json-eq-some raw_id r.id usable in
      let (an_object, version) = check_jsonrpc_envelope-eq-true raw versioned in
      record {
        is_an_object = an_object;
        versioned = version;
        id_of = (raw_id, has_id, id);
        usable_id = is_null_id-eq-false r.id nonnull;
        method_of = (m, has_method, method);
        params_of = parsed_params-Carries raw r.params fine params;
      }

  -- Whatever value arrives, if the server or the client reads it as a request then the value has
  -- the version "2.0", the request's id and method are its members and the id is not null, and the
  -- parameters are its member, an object or an array, or absent where that is null or missing.
  pub parse-IsRequestOf :
      (raw : V) (r : JsonRpcRequest V)
      → (parse_message raw ≡ request r) ⊎ (parse_message_client raw ≡ request r)
      → IsRequestOf raw r
  unfolding parse_message parse_message_client
  parse-IsRequestOf raw r (inl h) =
      classify-IsRequestOf parse_response _ raw r (λ raw_id. parse_response-ne-request raw raw_id r)
        (catch-eq-request _ r h)
  parse-IsRequestOf raw r (inr h) =
      classify-IsRequestOf parse_response_client _ raw r
        (λ raw_id. parse_response_client-ne-request raw raw_id r) (catch-eq-request _ r h)

  classify-agrees :
      (f g : V → V → Result V (ParsedMessage V)) (m n : String) (raw : V)
      → contains raw "method" ≡ true
      → classify f m raw ≡ classify g n raw
  unfolding classify
  classify-agrees f g m n raw h = elim (Option-cases (json.at? raw "method")) [
    | inl missing ↦ ground arith
    | inr (method, e) ↦ elim (Option-cases (json.at? raw "id")) [
      | inl no_id ↦ ground arith
      | inr (raw_id, has_id) ↦ ground arith
    ]
  ]

  respond-agrees :
      (raw raw_id : V)
      → contains raw "result" ≡ true
      → parse_response raw raw_id ≡ parse_response_client raw raw_id
  unfolding parse_response parse_response_client
  respond-agrees raw raw_id h = ground arith

  classify_response-agrees :
      (f g : V → V → Result V (ParsedMessage V)) (m n : String) (raw : V)
      → contains raw "id" ≡ true
      → ((raw_id : V) → f raw raw_id ≡ g raw raw_id)
      → contains raw "method" ≡ false
      → classify f m raw ≡ classify g n raw
  unfolding classify
  classify_response-agrees f g m n raw h same k = elim (Option-cases (json.at? raw "id")) [
    | inl missing ↦ ground arith
    | inr (raw_id, has_id) ↦ ground (arith, same raw_id)
  ]

  -- A value that has a method, or an id and a result, is read the same by the server and the client.
  pub parse_message-agrees :
      (raw : V)
      → (contains raw "method" ≡ true)
        ⊎ ((contains raw "id" ≡ true) × (contains raw "result" ≡ true))
      → parse_message raw ≡ parse_message_client raw
  unfolding parse_message parse_message_client
  parse_message-agrees raw (inl m) =
      ap (λ r. catch r parse_failed)
        (classify-agrees parse_response parse_response_client _ _ raw m)
  parse_message-agrees raw (inr (i, r)) = elim (Bool-cases (contains raw "method")) [
    | inl m ↦
        ap (λ r. catch r parse_failed)
          (classify-agrees parse_response parse_response_client _ _ raw m)
    | inr k ↦
        ap (λ r. catch r parse_failed)
          (classify_response-agrees parse_response parse_response_client _ _ raw i
            (λ raw_id. respond-agrees raw raw_id r) k)
  ]
