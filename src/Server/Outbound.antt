-- ===== src/Server/Outbound.antt =====
-- src/server.cpp: the requests of the server, and the notifications.
use cppmcp.Base.{
  ℤ, pos, ℤ_eq, string_eq, suc, String, Bool, true, false, not, ◌||◌, Option, none, some,
  if◌then◌else◌, is_empty, is_some,
}
use cppmcp.Outcome.{Result, ok, throw, ◌>>=◌, internal_error}
use cppmcp.Json.{Json, is_object, is_null, value_or, put_some, empty_object}
use cppmcp.Map.{find, erase, insert, string_ord, ℤ_ord}
use cppmcp.Protocol.{method_sampling_create, method_elicitation_create, method_roots_list}
use cppmcp.RequestId.{null_id, int_id, string_id}
use cppmcp.Jsonrpc.{JsonRpcSuccessResponse, JsonRpcErrorResponse}
use cppmcp.Jsonrpc.Building.{serialize_request, serialize_notification, make_error_response}
use cppmcp.Types.Initialize.{ClientCapabilities}
use cppmcp.Server.{
  McpServer, OutboundPending, sent_to, broadcast, result_called, error_called, emit,
}

module _ {V : Type 0} ⦃json : Json V⦄ where
  -- `failed` says whether send_to_session throws a std::exception in this call; `params` is in its
  -- JSON form.
  unfoldable pub send_server_request :
      (method : String)
      → (params : V) → (has_on_result has_on_error : Bool) → (session_id : String) → (failed : Bool)
      → McpServer V
      → McpServer V × Bool
  send_server_request method params on_result on_error session_id failed s =
      if not s.has_transport || not s.running
      then (s, false)
      else (let rid = pos s.next_outbound_id in
          let entry : OutboundPending = record {
            method = method;
            session_id = session_id;
            has_on_result = on_result;
            has_on_error = on_error;
          } in
          let message =
            serialize_request (record {
              jsonrpc = "2.0";
              id = int_id rid;
              method = method;
              params = some params;
            }) in
          let s' : McpServer V = record s {
            next_outbound_id = suc s.next_outbound_id;
            outbound_pending = insert rid entry s.outbound_pending;
          } in
          if failed
          then (record s' { outbound_pending = erase rid s'.outbound_pending }, false)
          else (emit (sent_to session_id message) s', true))

  -- The code and the message of the error that a client answers with.
  unfoldable pub client_error : V → Result V (ℤ × String)
  client_error payload =
      if is_object payload
      then (do
        code ← value_or json.get_int payload "code" internal_error
        message ← value_or json.get_string payload "message" "client error"
        ok (code, message))
      else ok (internal_error, "client error")

  -- The callback of a request that ended; an exception on the way to it is logged.
  unfoldable pub call_back : ℤ → OutboundPending → Bool → V → McpServer V → McpServer V
  unfolding client_error
  call_back id p succeeded payload s =
      if succeeded
      then if p.has_on_result then emit (result_called id payload) s else s
      else (elim (client_error payload) [
        | throw e ↦ s
        | ok (code, message) ↦ if p.has_on_error then emit (error_called id code message) s else s
      ])

  unfoldable pub complete_server_request : ℤ → Bool → V → McpServer V → McpServer V
  unfolding call_back
  complete_server_request id succeeded payload s = elim (find id s.outbound_pending) [
    | none ↦ s
    | some p ↦
        call_back id p succeeded payload
          (record s { outbound_pending = erase id s.outbound_pending })
  ]

  unfoldable pub on_client_response : JsonRpcSuccessResponse V → McpServer V → McpServer V
  unfolding complete_server_request
  on_client_response response s = elim response.id [
    | int_id n ↦ complete_server_request n true response.result s
    | null_id ↦ s
    | string_id t ↦ s
  ]

  unfoldable pub error_payload : JsonRpcErrorResponse V → V
  error_payload response =
      put_some
        (json.put (json.put json.from_null "code" (json.from_int response.error.code)) "message"
          (json.from_string response.error.message))
        "data" response.error.extra

  unfoldable pub on_client_error_response : JsonRpcErrorResponse V → McpServer V → McpServer V
  unfolding complete_server_request error_payload
  on_client_error_response response s = elim response.id [
    | int_id n ↦ complete_server_request n false (error_payload response) s
    | null_id ↦ s
    | string_id t ↦ s
  ]

  -- The branch of on_message for what parse_message reports as an error response: the new state, and
  -- what is sent back to the client, if anything is.
  unfoldable pub on_error_message : JsonRpcErrorResponse V → McpServer V → McpServer V × Option V
  unfolding on_client_error_response
  on_error_message r s =
      let refusal = some (make_error_response r.id r.error.code r.error.message r.error.extra) in
      elim r.id [
        | int_id n ↦
            if is_some (find n s.outbound_pending)
            then (on_client_error_response r s, none)
            else (s, refusal)
        | null_id ↦ (s, refusal)
        | string_id t ↦ (s, refusal)
      ]

  -- The test of request_sampling, request_elicitation and request_roots for the capability `has`.
  unfoldable pub client_can : (ClientCapabilities V → Bool) → String → McpServer V → Bool
  client_can has session_id s = elim (find session_id s.client_hellos) [
    | none ↦ is_empty session_id
    | some hello ↦ has hello.capabilities
  ]

  unfoldable pub request_if :
      (ClientCapabilities V → Bool) → String → V → String → Bool → McpServer V → McpServer V × Bool
  unfolding client_can send_server_request
  request_if has method params session_id failed s =
      if client_can has session_id s
      then send_server_request method params true true session_id failed s
      else (s, false)

  unfoldable pub request_sampling : V → String → Bool → McpServer V → McpServer V × Bool
  unfolding request_if
  request_sampling =
      request_if (λ (c : ClientCapabilities V). is_some c.sampling) method_sampling_create

  unfoldable pub request_elicitation : V → String → Bool → McpServer V → McpServer V × Bool
  unfolding request_if
  request_elicitation =
      request_if (λ (c : ClientCapabilities V). is_some c.elicitation) method_elicitation_create

  unfoldable pub request_roots : String → Bool → McpServer V → McpServer V × Bool
  unfolding request_if
  request_roots =
      request_if (λ (c : ClientCapabilities V). is_some c.roots) method_roots_list empty_object

  -- `failed` says whether the transport throws a std::exception in this call, which is swallowed.
  unfoldable pub send_notification :
      (method : String)
      → (params : V) → (session_id : String) → (failed : Bool) → McpServer V
      → McpServer V
  send_notification method params session_id failed s =
      if not s.has_transport || (s.stopping || failed)
      then s
      else (let message = serialize_notification (record {
        jsonrpc = "2.0";
        method = method;
        params = if is_null params then none else some params;
      }) in
          emit (if is_empty session_id then broadcast message else sent_to session_id message) s)
