-- ===== src/Client/Inbound.antt =====
-- Messages that arrive at the client, in src/client.cpp.
use cppmcp.Base.{String, ◌<>◌, ◌==◌, string_eq, Bool, ◌||◌, Option, none, some, if◌then◌else◌}
use cppmcp.Outcome.{
  Result, ok, throw, mcp, std, unknown, ◌>>=◌, method_not_found, internal_error,
  method_not_found_error, map_result,
}
use cppmcp.Json.{Json, value_or, optional_member, empty_object, is_string}
use cppmcp.RequestId.{RequestId, request_id_of_json, id_eq}
use cppmcp.Map.{find}
use cppmcp.Protocol.{
  method_ping, method_sampling_create, method_elicitation_create, method_roots_list, notif_progress,
  notif_resources_updated, notif_tools_list_changed, notif_resources_list_changed,
  notif_prompts_list_changed, notif_message, notif_roots_list_changed,
}
use cppmcp.Jsonrpc.{JsonRpcRequest, JsonRpcNotification, request, notification, success, failure}
use cppmcp.Jsonrpc.Parsing.{parse_message_client}
use cppmcp.Jsonrpc.Building.{make_success_response, make_error_response}
use cppmcp.Pending.{McpOutcome, succeeded, errored, deliver_progress}
use cppmcp.Client.{
  McpClient, Event, resource_updated, list_changed, server_log, roots_changed, emit, emit_callback,
  raw_send,
}
use cppmcp.Client.Completion.{complete_pending}

-- The user's handlers for requests of the server, between the JSON forms of parameters and result.
pub record InboundHandlers (V : Type 0) : Type 0 where
  pub sampling : Option (V → Result V V)
  pub elicitation : Option (V → Result V V)
  pub roots : Option (V → Result V V)

list_kind : String → String
list_kind method =
    if method == notif_tools_list_changed
    then "tools"
    else if method == notif_resources_list_changed
    then "resources"
    else "prompts"

module _ {V : Type 0} ⦃json : Json V⦄ where
  abbrev pub params_or_empty : Option V → V
  params_or_empty none = empty_object
  params_or_empty (some p) = p

  -- `run` of one method: without a handler the method is not found.
  unfoldable pub run_handler : String → Option (V → Result V V) → V → Result V V
  run_handler method none params = throw (method_not_found_error method)
  run_handler method (some h) params = h params

  -- The answer that dispatch_inbound_request sends.
  unfoldable pub respond_to : RequestId → Result V V → V
  respond_to id (ok result) = make_success_response id result
  respond_to id (throw (mcp code message extra)) = make_error_response id code message extra
  respond_to id (throw (std message)) = make_error_response id internal_error message none
  respond_to id (throw unknown) =
      make_error_response id internal_error "unknown handler exception" none

  unfoldable pub handle_inbound_request :
      InboundHandlers V → JsonRpcRequest V → McpClient V → McpClient V
  unfolding run_handler respond_to
  handle_inbound_request handlers req c =
      let params = params_or_empty req.params in
      let answer = λ (h : Option (V → Result V V)).
        raw_send (respond_to req.id (run_handler req.method h params)) c in
      if req.method == method_ping
      then raw_send (make_success_response req.id empty_object) c
      else if req.method == method_sampling_create
      then answer handlers.sampling
      else if req.method == method_elicitation_create
      then answer handlers.elicitation
      else if req.method == method_roots_list
      then answer handlers.roots
      else raw_send
          (make_error_response req.id method_not_found ("Method not found: " <> req.method) none) c

  abbrev catch_same : McpClient V → Result V (McpClient V) → McpClient V
  catch_same c (ok d) = d
  catch_same c (throw e) = c

  emit_if : Bool → Event V → McpClient V → McpClient V
  emit_if enabled e c = if enabled then emit e c else c

  -- The progress notification. Its conversions are not guarded: what they throw leaves the function.
  unfoldable pub handle_progress : V → McpClient V → Result V (McpClient V)
  handle_progress p c = elim (json.at? p "progressToken") [
    | none ↦ ok c
    | some raw ↦ elim (request_id_of_json raw) [
      | throw e ↦ ok c
      | ok token ↦ do
        progress ← value_or json.get_double p "progress" json.from_zero
        total ← optional_member json.get_double p "total"
        ok (elim (find token c.pending_map) [
          | none ↦ c
          | some h ↦ emit_callback h (deliver_progress progress total (c.objects h)) c
        ])
    ]
  ]

  abbrev logger_of : V → Option String
  logger_of p = elim (json.at? p "logger") [
    | none ↦ none
    | some v ↦
        if is_string v then (elim (json.get_string v) [ ok s ↦ some s | throw e ↦ none ]) else none
  ]

  -- The other notifications, inside their `try`.
  unfoldable pub handle_push : JsonRpcNotification V → McpClient V → Result V (McpClient V)
  unfolding emit_if list_kind
  handle_push notif c =
      let p = params_or_empty notif.params in
      if notif.method == notif_resources_updated
      then (if c.has_resource_updated_handler
          then map_result (λ uri. emit (resource_updated uri) c)
              (value_or json.get_string p "uri" "")
          else ok c)
      else if notif.method == notif_tools_list_changed
          || (notif.method == notif_resources_list_changed
              || notif.method == notif_prompts_list_changed)
      then ok (emit_if c.has_list_changed_handler (list_changed (list_kind notif.method)) c)
      else if notif.method == notif_message
      then (if c.has_server_log_handler
          then (do
            level ← value_or json.get_string p "level" "info"
            text ← value_or json.get_string p "data" ""
            ok (emit (server_log level text (logger_of p)) c))
          else ok c)
      else if notif.method == notif_roots_list_changed
      then ok (emit_if c.has_roots_changed_handler roots_changed c)
      else ok c

  unfoldable pub handle_notification : JsonRpcNotification V → McpClient V → Result V (McpClient V)
  unfolding handle_progress handle_push
  handle_notification notif c =
      if notif.method == notif_progress
      then handle_progress (params_or_empty notif.params) c
      else ok (catch_same c (handle_push notif c))

  abbrev pub success_outcome : V → McpOutcome V
  success_outcome result = record {
    terminal = succeeded;
    result = some result;
    rpc_error = none;
    failure = none;
  }

  -- The task on the strand for a message; the exception is one that leaves it.
  unfoldable pub on_transport_message : InboundHandlers V → V → McpClient V → Result V (McpClient V)
  unfolding handle_inbound_request handle_notification
  on_transport_message handlers message c = elim (parse_message_client message) [
    | request req ↦ ok (handle_inbound_request handlers req c)
    | notification notif ↦ handle_notification notif c
    | success resp ↦ ok (complete_pending resp.id (success_outcome resp.result) c)
    | failure resp ↦ ok (
        complete_pending resp.id
          (record {
            terminal = errored;
            result = none;
            rpc_error = some resp.error;
            failure = none;
          })
          c)
  ]
