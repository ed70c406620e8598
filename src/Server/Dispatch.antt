-- ===== src/Server/Dispatch.antt =====
-- src/server.cpp: which handler a request gets, and the answer where the handler throws.
use cppmcp.Base.{ℕ, String, ◌<>◌, ◌==◌, string_eq, not, List, Option, none, some, if◌then◌else◌}
use cppmcp.Outcome.{
  Result, ok, throw, mcp, std, unknown, method_not_found, internal_error, server_not_initialized,
}
use cppmcp.Json.{Json, empty_object}
use cppmcp.Protocol.{
  method_initialize, method_ping, method_tools_list, method_tools_call, method_resources_list,
  method_resources_read, method_resources_subscribe, method_resources_unsubscribe,
  method_resources_template_list, method_prompts_list, method_prompts_get,
  method_completion_complete, method_logging_set_level,
}
use cppmcp.RequestId.{RequestId}
use cppmcp.Jsonrpc.{JsonRpcRequest, ParsedMessage, request, notification, success, failure}
use cppmcp.Jsonrpc.Building.{make_error_response}
use cppmcp.Jsonrpc.Parsing.{parse_message}
use cppmcp.Server.{McpServer}
use cppmcp.Server.Lists.{
  ListKind, tools, resources, resource_templates, prompts, handle_list_request,
}
use cppmcp.Server.Sessions.{handle_initialize}
use cppmcp.Server.Subscriptions.{handle_resources_subscribe, handle_resources_unsubscribe}
use cppmcp.Server.Lifecycle.{process_notification}
use cppmcp.Server.Outbound.{on_client_response, on_error_message}
use cppmcp.Server.Calls.{
  Handlers, Registry, handlers_of, handle_tools_call, handle_prompts_get,
  handle_completion_complete, handle_logging_set_level, handle_ping,
}
use cppmcp.Server.Templates.{handle_resources_read}

-- Once the server is initialized: which method a name stands for.
pub data Method : Type 0 where
  list_of : ListKind → Method
  tools_call resources_read resources_subscribe resources_unsubscribe prompts_get
        completion_complete set_level unknown_method :
      Method

unfoldable pub method_named : String → Method
method_named method =
    if method == method_tools_list
    then list_of tools
    else if method == method_tools_call
    then tools_call
    else if method == method_resources_list
    then list_of resources
    else if method == method_resources_read
    then resources_read
    else if method == method_resources_subscribe
    then resources_subscribe
    else if method == method_resources_unsubscribe
    then resources_unsubscribe
    else if method == method_resources_template_list
    then list_of resource_templates
    else if method == method_prompts_list
    then list_of prompts
    else if method == method_prompts_get
    then prompts_get
    else if method == method_completion_complete
    then completion_complete
    else if method == method_logging_set_level
    then set_level
    else unknown_method

abbrev pub or_value : {V : Type 0} → V → Option V → V
or_value default none = default
or_value default (some v) = v

-- A state with the outcome of a call that leaves it.
abbrev pub unchanged : {V : Type 0} → McpServer V → Result V V → McpServer V × Result V V
unchanged s outcome = (s, outcome)

-- The state that a call returns with its response; one that throws leaves the state as it was.
abbrev pub after :
    {V : Type 0} → McpServer V → Result V (McpServer V × V) → McpServer V × Result V V
after s (ok (s', response)) = (s', ok response)
after s (throw e) = (s, throw e)

module _ {V : Type 0} ⦃json : Json V⦄ (fuel : ℕ)
    (regex_match : (pattern uri : String) → Option (List String)) where
  unfoldable pub run_method :
      Method → String → RequestId → V → String → Handlers V → McpServer V → McpServer V × Result V V
  unfolding handle_list_request handle_tools_call handle_resources_read handle_resources_subscribe
      handle_resources_unsubscribe handle_prompts_get handle_completion_complete
      handle_logging_set_level
  run_method (list_of kind) method id p session_id h s =
      after s (handle_list_request kind id p (h.lists kind) s)
  run_method tools_call method id p session_id h s =
      unchanged s (handle_tools_call fuel id p session_id h)
  run_method resources_read method id p session_id h s =
      unchanged s (handle_resources_read regex_match id p session_id h)
  run_method resources_subscribe method id p session_id h s =
      after s (handle_resources_subscribe id p session_id s)
  run_method resources_unsubscribe method id p session_id h s =
      after s (handle_resources_unsubscribe id p session_id s)
  run_method prompts_get method id p session_id h s =
      unchanged s (handle_prompts_get id p session_id h)
  run_method completion_complete method id p session_id h s =
      unchanged s (handle_completion_complete id p h)
  run_method set_level method id p session_id h s = unchanged s (handle_logging_set_level id p h)
  run_method unknown_method method id p session_id h s =
      (s, ok (make_error_response id method_not_found ("Method not found: " <> method) none))

  unfoldable pub dispatch_method :
      String → RequestId → Option V → String → Registry V → McpServer V → McpServer V × Result V V
  unfolding run_method method_named handle_initialize handle_ping handlers_of
  dispatch_method method id params session_id r s =
      let p = or_value empty_object params in
      let h = handlers_of s r in
      if method == method_initialize
      then handle_initialize h.initialize id p session_id s
      else if method == method_ping
      then (s, handle_ping id)
      else if not s.initialized
      then (
        s,
        ok (
            make_error_response id server_not_initialized
              "Server not initialized. Send initialize request first." none),
      )
      else run_method (method_named method) method id p session_id h s

  -- The catch clauses of process_request.
  unfoldable pub response_of : RequestId → Result V V → V
  response_of id (ok response) = response
  response_of id (throw (mcp code message extra)) = make_error_response id code message extra
  response_of id (throw (std what)) = make_error_response id internal_error what none
  response_of id (throw unknown) = make_error_response id internal_error "Unknown error" none

  unfoldable pub process_request :
      JsonRpcRequest V → String → Registry V → McpServer V → McpServer V × V
  unfolding dispatch_method response_of
  process_request req session_id r s =
      let (s', outcome) = dispatch_method req.method req.id req.params session_id r s in
      (s', response_of req.id outcome)

  abbrev with_response : McpServer V × V → McpServer V × Option V
  with_response (s, response) = (s, some response)

  abbrev pub on_parsed :
      ParsedMessage V → String → Registry V → McpServer V → McpServer V × Option V
  on_parsed (request req) session_id r s = with_response (process_request req session_id r s)
  on_parsed (notification notif) session_id r s = (process_notification notif s, none)
  on_parsed (success response) session_id r s = (on_client_response response s, none)
  on_parsed (failure response) session_id r s = on_error_message response s

  -- on_message on the io thread: the new state, and the response for the sink if there is one. A request
  -- that is deferred to the executor is the same call at a later time.
  unfoldable pub on_message : V → String → Registry V → McpServer V → McpServer V × Option V
  unfolding process_request process_notification on_client_response on_error_message parse_message
  on_message message session_id r s = on_parsed (parse_message message) session_id r s
