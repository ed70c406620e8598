-- ===== src/Server/Answers.antt =====
-- src/server.cpp: what every request is answered with.
pub mod Forms
pub mod Calls
use cppmcp.Base.{
  ℕ, ℤ, String, ◌==◌, string_eq, ltb, ◌≡◌, ap, ◌∙◌, sym, not, List, [], ◌∷◌, Option, none, some,
  if◌then◌else◌, if-split, Option-split, any, is_some,
}
use cppmcp.Outcome.{Result, ok, throw, Exception, mcp, std, unknown, ◌>>=◌, map_result}
use cppmcp.Json.{Json, IsJson, contains, empty_object}
use cppmcp.Map.{Map, find, string_ord}
use cppmcp.RequestId.{RequestId, request_id_to_json}
use cppmcp.Jsonrpc.{JsonRpcRequest}
use cppmcp.Jsonrpc.Building.{make_success_response, make_error_response}
use cppmcp.Protocol.{method_initialize, method_ping}
use cppmcp.Types.Initialize.{InitializeResult}
use cppmcp.Server.{McpServer}
use cppmcp.Server.Lists.{
  ListKind, handle_list_request, list_items, list_offset, is_cacheable, cached, page_of,
}
use cppmcp.Server.Subscriptions.{
  StringParam, given, wrong, get_string_param, advertises_subscribe, handle_resources_subscribe,
  handle_resources_unsubscribe,
}
use cppmcp.Server.Sessions.{requested_version, handle_initialize}
use cppmcp.Server.Calls.{
  Context, Handlers, Registry, PromptArgument, listed, valid_log_levels, plain_context,
  arguments_of, missing_argument, handlers_of, answer, call_tool, handle_tools_call, call_prompt,
  handle_prompts_get, handle_completion_complete, handle_logging_set_level, handle_ping,
}
use cppmcp.Server.Templates.{uri_template_to_regex, read_template, handle_resources_read}
use cppmcp.Server.Dispatch.{
  Method, list_of, tools_call, resources_read, resources_subscribe, resources_unsubscribe,
  prompts_get, completion_complete, set_level, unknown_method, or_value, method_named, after,
  run_method, dispatch_method, response_of, process_request,
}
use cppmcp.Server.Answers.Forms.{
  IsAnswer, Returns, Answered, AfterAnswered, bind-Returns, bind-after, param-split, Result-split,
  success-IsAnswer, error-IsAnswer, answer-Answered,
}
use cppmcp.Server.Answers.Calls.{
  tools_call-Answered, prompts_get-Answered, completion-Answered, set_level-Answered,
  template-Answered, resources_read-Answered,
}

module _ {V : Type 0} ⦃json : Json V⦄ (laws : IsJson json) where
  list-Answered :
      (kind : ListKind) (id : RequestId) (params : V) (items : Result V (List V)) (s : McpServer V)
      → AfterAnswered id s (handle_list_request kind id params items s)
  unfolding handle_list_request list_items
  list-Answered kind id params items s =
      bind-after (IsAnswer id) s (list_offset s.list_page_size params) _ (λ offset.
        Option-split (AfterAnswered id s) offset _ _ (λ _. error-IsAnswer laws id _ _ _)
          (λ n _.
            Option-split (AfterAnswered id s)
              (if is_cacheable s then cached kind s.list_cache else none) _ _
              (λ _. bind-after (IsAnswer id) s items _ (λ produced.
                if-split (AfterAnswered id s) (ltb 0 s.list_page_size) _ _
                  (λ _.
                    bind-after (IsAnswer id) s (page_of n s.list_page_size produced) _
                      (λ page. success-IsAnswer laws id _))
                  (λ _. success-IsAnswer laws id _)))
              (λ result _. success-IsAnswer laws id _)))

  subscribe-Answered :
      (id : RequestId) (params : V) (session_id : String) (s : McpServer V)
      → AfterAnswered id s (handle_resources_subscribe id params session_id s)
  unfolding handle_resources_subscribe
  subscribe-Answered id params session_id s =
      if-split (AfterAnswered id s) (advertises_subscribe s.capabilities) _ _
        (λ _. bind-after (IsAnswer id) s (get_string_param params "uri") _ (λ uri.
          param-split (AfterAnswered id s) uri _ _ (λ why. error-IsAnswer laws id _ _ _)
            (λ text. success-IsAnswer laws id _)))
        (λ _. error-IsAnswer laws id _ _ _)

  unsubscribe-Answered :
      (id : RequestId) (params : V) (session_id : String) (s : McpServer V)
      → AfterAnswered id s (handle_resources_unsubscribe id params session_id s)
  unfolding handle_resources_unsubscribe
  unsubscribe-Answered id params session_id s =
      bind-after (IsAnswer id) s (get_string_param params "uri") _ (λ uri.
        param-split (AfterAnswered id s) uri _ _ (λ why. error-IsAnswer laws id _ _ _)
          (λ text. success-IsAnswer laws id _))

  initialize-Answered :
      (handler : Option (V → Result V (InitializeResult V))) (id : RequestId) (params : V)
      (session_id : String) (s : McpServer V)
      → Answered id (handle_initialize handler id params session_id s).1
  unfolding handle_initialize
  initialize-Answered handler id params session_id s =
      Result-split (λ (r : McpServer V × Result V V). Answered id r.1) (requested_version params) _
        _
        (λ requested.
          Option-split (Answered id) handler _ _ (λ _. success-IsAnswer laws id _)
            (λ h _. bind-Returns (IsAnswer id) (h params) _ (λ result. success-IsAnswer laws id _)))
        (λ e. tt)

  module _ (fuel : ℕ) (regex_match : (pattern uri : String) → Option (List String)) where
    run_method-Answered :
        (m : Method) (method : String) (id : RequestId) (p : V) (session_id : String)
        (h : Handlers V) (s : McpServer V)
        → Answered id (run_method fuel regex_match m method id p session_id h s).1
    unfolding run_method
    run_method-Answered (list_of kind) method id p session_id h s =
        list-Answered kind id p (h.lists kind) s
    run_method-Answered tools_call method id p session_id h s =
        tools_call-Answered laws fuel id p session_id h
    run_method-Answered resources_read method id p session_id h s =
        resources_read-Answered laws regex_match id p session_id h
    run_method-Answered resources_subscribe method id p session_id h s =
        subscribe-Answered id p session_id s
    run_method-Answered resources_unsubscribe method id p session_id h s =
        unsubscribe-Answered id p session_id s
    run_method-Answered prompts_get method id p session_id h s =
        prompts_get-Answered laws id p session_id h
    run_method-Answered completion_complete method id p session_id h s =
        completion-Answered laws id p h
    run_method-Answered set_level method id p session_id h s = set_level-Answered laws id p h
    run_method-Answered unknown_method method id p session_id h s = error-IsAnswer laws id _ _ _

    dispatch_method-Answered :
        (method : String) (id : RequestId) (params : Option V) (session_id : String)
        (r : Registry V) (s : McpServer V)
        → Answered id (dispatch_method fuel regex_match method id params session_id r s).1
    unfolding dispatch_method handle_ping
    dispatch_method-Answered method id params session_id r s =
        let P : McpServer V × Result V V → Type 0 = λ o. Answered id o.1 in
        let p = or_value empty_object params in
        let h = handlers_of s r in
        if-split P (method == method_initialize) _ _
          (λ _. initialize-Answered h.initialize id p session_id s)
          (λ _.
            if-split P (method == method_ping) _ _ (λ _. success-IsAnswer laws id _)
              (λ _.
                if-split P (not s.initialized) _ _ (λ _. error-IsAnswer laws id _ _ _)
                  (λ _. run_method-Answered (method_named method) method id p session_id h s)))

    response_of-IsAnswer :
        (id : RequestId) (outcome : Result V V)
        → Answered id outcome
        → IsAnswer id (response_of fuel regex_match id outcome)
    unfolding response_of
    response_of-IsAnswer id (ok response) h = h
    response_of-IsAnswer id (throw (mcp code message extra)) h = error-IsAnswer laws id _ _ _
    response_of-IsAnswer id (throw (std what)) h = error-IsAnswer laws id _ _ _
    response_of-IsAnswer id (throw unknown) h = error-IsAnswer laws id _ _ _

    -- Whatever the request, the registered handlers and the state are, and also where a handler throws:
    -- the response has the id of the request, and either a result or an error.
    pub process_request-IsAnswer :
        (req : JsonRpcRequest V) (session_id : String) (r : Registry V) (s : McpServer V)
        → IsAnswer req.id (process_request fuel regex_match req session_id r s).1
    unfolding process_request
    process_request-IsAnswer req session_id r s =
        response_of-IsAnswer req.id _
          (dispatch_method-Answered req.method req.id req.params session_id r s)
