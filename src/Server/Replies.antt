-- ===== src/Server/Replies.antt =====
-- src/server.cpp: how a request of the server ends.
use cppmcp.Base.{
  ℕ, suc, ℤ, pos, neg, ℤ_eq, String, ◌==◌, string_eq, Bool, true, false, ◌≡◌, ◌∙◌, inl, inr, refl,
  [], ◌∷◌, none, some, if◌then◌else◌, arith, Option-cases,
}
use cppmcp.Outcome.{ok, invalid_request}
use cppmcp.Json.{Json, IsJson, is_string}
use cppmcp.Map.{find, find-erase, find-insert, insert, string_ord, ℤ_ord}
use cppmcp.RequestId.{RequestId, int_id, request_id_of_json, is_null_id}
use cppmcp.Jsonrpc.{JsonRpcSuccessResponse, JsonRpcErrorResponse, error_detail, failure}
use cppmcp.Jsonrpc.Parsing.{
  parse_message, check_jsonrpc_envelope, request_id_from_json, parse_request, classify,
}
use cppmcp.Server.{McpServer, OutboundPending, result_called, error_called}
use cppmcp.Server.Outbound.{
  send_server_request, call_back, complete_server_request, on_client_response,
  on_client_error_response, error_payload, on_error_message, client_error,
}

next_number : (n : ℕ) → pos (suc n) == pos n ≡ false
next_number n = ground arith

-- What is kept of a request with both callbacks.
abbrev pub entry_of : (method session_id : String) → OutboundPending
entry_of method session_id = record {
  method = method;
  session_id = session_id;
  has_on_result = true;
  has_on_error = true;
}

module _ {V : Type 0} ⦃json : Json V⦄ where
  abbrev pub answer_of : RequestId → V → JsonRpcSuccessResponse V
  answer_of id result = record { jsonrpc = "2.0"; id = id; result = result }

  complete_server_request-erases :
      (n : ℤ) (succeeded : Bool) (payload : V) (s : McpServer V) (k : ℤ)
      → find k (complete_server_request n succeeded payload s).outbound_pending
        ≡ (if n == k then none else find k s.outbound_pending)
  unfolding complete_server_request call_back
  complete_server_request-erases n succeeded payload s k =
      elim (Option-cases (find n s.outbound_pending)) [
        | inl missing ↦ ground (arith, ℤ_eq.same_iff n k)
        | inr (p, e) ↦ ground (arith, find-erase n k s.outbound_pending)
      ]

  called :
      (n : ℤ) (result : V) (p : OutboundPending) (s : McpServer V)
      → find n s.outbound_pending ≡ some p
      → p.has_on_result ≡ true
      → (complete_server_request n true result s).trace ≡ result_called n result ∷ s.trace
  unfolding complete_server_request call_back
  called n result p s waits wants = ground arith

  settled :
      (n : ℤ) (result : V) (s : McpServer V)
      → find n s.outbound_pending ≡ none
      → complete_server_request n true result s ≡ s
  unfolding complete_server_request
  settled n result s missing = ground arith

  -- A request of the server changes no entry but that of its own number.
  send_server_request-others :
      (method : String) (params : V) (on_result on_error : Bool) (session_id : String)
      (failed : Bool) (s : McpServer V) (k : ℤ)
      → pos s.next_outbound_id == k ≡ false
      → find k
          (send_server_request method params on_result on_error session_id failed
            s).0.outbound_pending
        ≡ find k s.outbound_pending
  unfolding send_server_request
  send_server_request-others method params on_result on_error session_id failed s k other =
      let n = pos s.next_outbound_id in
      let p : OutboundPending = record {
        method = method;
        session_id = session_id;
        has_on_result = on_result;
        has_on_error = on_error;
      } in
      ground (
        arith,
        other,
        find-insert n p k s.outbound_pending,
        find-erase n k (insert n p s.outbound_pending),
      )

  -- A request that the server could send waits under its number, beside those that waited before. Then
  -- the server makes any other request, whether it can be sent or not. The first success response with
  -- the first number still calls the callback of the first request once, with the result; that request
  -- waits no more, so that another response with the number changes nothing, and all others wait as
  -- before.
  pub send_server_request-answered :
      (method : String) (params result later : V) (session_id : String) (method' : String)
      (params' : V) (on_result on_error : Bool) (session_id' : String) (failed : Bool)
      (s : McpServer V)
      → s.has_transport ≡ true
      → s.running ≡ true
      → (s' t u : McpServer V) × (send_server_request method params true true session_id false s
          ≡ (s', true))
        × ((k : ℤ)
            → find k s'.outbound_pending ≡ (
                if pos s.next_outbound_id == k
                then some (entry_of method session_id)
                else find k s.outbound_pending))
        × ((send_server_request method' params' on_result on_error session_id' failed s').0 ≡ t)
        × (on_client_response (answer_of (int_id (pos s.next_outbound_id)) result) t ≡ u)
        × (u.trace ≡ result_called (pos s.next_outbound_id) result ∷ t.trace)
        × (on_client_response (answer_of (int_id (pos s.next_outbound_id)) later) u ≡ u)
        × ((k : ℤ)
            → find k u.outbound_pending
              ≡ (if pos s.next_outbound_id == k then none else find k t.outbound_pending))
  unfolding send_server_request on_client_response complete_server_request call_back
  send_server_request-answered method params result later session_id method' params' on_result
        on_error session_id' failed s up runs =
      let n = pos s.next_outbound_id in
      let p : OutboundPending = entry_of method session_id in
      let (s', sent) = send_server_request method params true true session_id false s in
      let t = (send_server_request method' params' on_result on_error session_id' failed s').0 in
      let u = on_client_response (answer_of (int_id n) result) t in
      let numbered : s'.next_outbound_id ≡ suc s.next_outbound_id = ground arith in
      let own : pos s'.next_outbound_id == n ≡ false =
        rw numbered (next_number s.next_outbound_id) in
      let waits : find n s'.outbound_pending ≡ some p =
        ground (arith, find-insert n p n s.outbound_pending, ℤ_eq.same_iff n n) in
      let waits' : find n t.outbound_pending ≡ some p =
        send_server_request-others method' params' on_result on_error session_id' failed s' n own
        ∙ waits in
      let done : find n u.outbound_pending ≡ none =
        complete_server_request-erases n true result t n ∙ ground (arith, ℤ_eq.same_iff n n) in
      (
        s',
        t,
        u,
        ground arith,
        λ k. ground (arith, find-insert n p k s.outbound_pending, ℤ_eq.same_iff n k),
        refl,
        refl,
        called n result p t waits' refl,
        settled n later u done,
        λ k. complete_server_request-erases n true result t k,
      )

  client_error-payload :
      IsJson json
      → ((key : String) (v : V) → json.put json.from_null key v ≡ json.from_object ((key, v) ∷ []))
      → (r : JsonRpcErrorResponse V)
      → r.error ≡ error_detail invalid_request "Method must be a string"
      → client_error (error_payload r) ≡ ok (neg 32600, "Method must be a string")
  unfolding client_error error_payload
  client_error-payload laws put-from_null r e =
      let code = json.from_int (neg 32600) in
      let text = json.from_string "Method must be a string" in
      let base = json.from_object (("code", code) ∷ []) in
      ground (
        arith,
        put-from_null "code" code,
        laws.kind-from_object (("code", code) ∷ []),
        laws.kind-put base "message" text (laws.kind-from_object (("code", code) ∷ [])),
        laws.at?-put base "message" text "code" (laws.kind-from_object (("code", code) ∷ [])),
        laws.at?-put base "message" text "message" (laws.kind-from_object (("code", code) ∷ [])),
        laws.at?-from_object (("code", code) ∷ []) "code",
        laws.get_int-from_int (neg 32600) (omega arith),
        laws.get_string-from_string "Method must be a string",
      )

  error_called_back :
      IsJson json
      → ((key : String) (v : V) → json.put json.from_null key v ≡ json.from_object ((key, v) ∷ []))
      → (n : ℤ) (p : OutboundPending) (r : JsonRpcErrorResponse V) (s : McpServer V)
      → find n s.outbound_pending ≡ some p
      → p.has_on_error ≡ true
      → r.id ≡ int_id n
      → r.error ≡ error_detail invalid_request "Method must be a string"
      → (on_error_message r s).0.trace
        ≡ error_called n (neg 32600) "Method must be a string" ∷ s.trace
  unfolding on_error_message on_client_error_response complete_server_request call_back
  error_called_back laws put-from_null n p r s waits wants same error =
      ground (arith, client_error-payload laws put-from_null r error)

  -- A message of the client that is no response completes a request of the server: where the id of a
  -- request with a method that is no text is the number of a request that waits, the latter's callback is
  -- called with the error that is meant for the client, and the client gets no answer; the request waits no
  -- more.
  pub on_error_message-steals :
      IsJson json
      → ((key : String) (v : V) → json.put json.from_null key v ≡ json.from_object ((key, v) ∷ []))
      → (raw raw_id method : V) (n : ℤ) (p : OutboundPending) (s : McpServer V)
      → check_jsonrpc_envelope raw ≡ true
      → json.at? raw "id" ≡ some raw_id
      → request_id_of_json raw_id ≡ ok (int_id n)
      → json.at? raw "method" ≡ some method
      → is_string method ≡ false
      → find n s.outbound_pending ≡ some p
      → p.has_on_error ≡ true
      → (r : JsonRpcErrorResponse V) × (parse_message raw ≡ failure r)
        × ((on_error_message r s).1 ≡ none)
        × ((on_error_message r s).0.trace
            ≡ error_called n (neg 32600) "Method must be a string" ∷ s.trace)
        × (find n (on_error_message r s).0.outbound_pending ≡ none)
  unfolding parse_message classify parse_request request_id_from_json is_null_id on_error_message
      on_client_error_response
  on_error_message-steals laws put-from_null raw raw_id method n p s envelope has_id id has_method
        no_text waits wants =
      (
        record {
          jsonrpc = "2.0";
          id = int_id n;
          error = error_detail invalid_request "Method must be a string";
        },
        ground arith,
        ground arith,
        error_called_back laws put-from_null n p
            (record {
              jsonrpc = "2.0";
              id = int_id n;
              error = error_detail invalid_request "Method must be a string";
            })
            s waits wants refl refl,
        ground (
          arith,
          complete_server_request-erases n false
              (error_payload (record {
                jsonrpc = "2.0";
                id = int_id n;
                error = error_detail invalid_request "Method must be a string";
              }))
              s n,
          ℤ_eq.same_iff n n,
        ),
      )
