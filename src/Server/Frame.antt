-- ===== src/Server/Frame.antt =====
-- src/server.cpp: what the messages of clients leave of a server's state.
use cppmcp.Base.{
  ℕ, ltb, String, ◌==◌, string_eq, ◌≡◌, refl, not, List, Option, none, if◌then◌else◌, if-split,
  Option-split,
}
use cppmcp.Outcome.{Result, ok, throw, ◌>>=◌}
use cppmcp.Json.{Json, empty_object}
use cppmcp.RequestId.{RequestId}
use cppmcp.Jsonrpc.{JsonRpcRequest}
use cppmcp.Jsonrpc.Building.{make_success_response}
use cppmcp.Protocol.{method_initialize, method_ping}
use cppmcp.Types.Initialize.{InitializeResult}
use cppmcp.Map.{Map}
use cppmcp.Server.{McpServer, ListCache, ClientHello}
use cppmcp.Server.Lists.{
  ListKind, handle_list_request, list_items, list_offset, is_cacheable, cached, page_of,
}
use cppmcp.Server.Subscriptions.{
  get_string_param, advertises_subscribe, handle_resources_subscribe, handle_resources_unsubscribe,
}
use cppmcp.Server.Sessions.{requested_version, handle_initialize, record_client_hello}
use cppmcp.Server.Calls.{Handlers, Registry, handlers_of}
use cppmcp.Server.Dispatch.{
  Method, list_of, tools_call, resources_read, resources_subscribe, resources_unsubscribe,
  prompts_get, completion_complete, set_level, unknown_method, or_value, method_named, after,
  run_method, dispatch_method, process_request,
}
use cppmcp.Server.Answers.Forms.{param-split, Result-split}

-- What no request of a client changes.
pub record Keeps {V : Type 0} (s t : McpServer V) : Type 0 where
  pub stopping : t.stopping ≡ s.stopping
  pub running : t.running ≡ s.running
  pub initialized : t.initialized ≡ s.initialized
  pub outbound_pending : t.outbound_pending ≡ s.outbound_pending
  pub trace : t.trace ≡ s.trace

pub Keeps-refl : {V : Type 0} (s : McpServer V) → Keeps s s
Keeps-refl s = record {
  stopping = refl;
  running = refl;
  initialized = refl;
  outbound_pending = refl;
  trace = refl;
}

abbrev KeepsAfter : {V : Type 0} → McpServer V → Result V (McpServer V × V) → Type 0
KeepsAfter s outcome = Keeps s (after s outcome).0

bind-Keeps :
    {V A : Type 0} (s : McpServer V) (m : Result V A) (f : A → Result V (McpServer V × V))
    → ((a : A) → KeepsAfter s (f a))
    → KeepsAfter s (m >>= f)
bind-Keeps s (ok a) f h = h a
bind-Keeps s (throw e) f h = Keeps-refl s

module _ {V : Type 0} ⦃json : Json V⦄ where
  cache-Keeps : (s : McpServer V) (c : ListCache V) → Keeps s (record s { list_cache = c })
  cache-Keeps s c = record {
    stopping = refl;
    running = refl;
    initialized = refl;
    outbound_pending = refl;
    trace = refl;
  }

  resources-Keeps :
      (s : McpServer V) (m : Map String (Map String (Unit {0}))) (response : V)
      → KeepsAfter s (ok (record s { subscribed_resources = m }, response))
  resources-Keeps s m response = record {
    stopping = refl;
    running = refl;
    initialized = refl;
    outbound_pending = refl;
    trace = refl;
  }

  hellos-Keeps :
      (s : McpServer V) (m : Map String (ClientHello V)) → Keeps s (record s { client_hellos = m })
  hellos-Keeps s m = record {
    stopping = refl;
    running = refl;
    initialized = refl;
    outbound_pending = refl;
    trace = refl;
  }

  version-Keeps :
      (s : McpServer V) (m : Map String (ClientHello V)) (version : String)
      → Keeps s (record s { client_hellos = m; negotiated_version = version })
  version-Keeps s m version = record {
    stopping = refl;
    running = refl;
    initialized = refl;
    outbound_pending = refl;
    trace = refl;
  }

  list-Keeps :
      (kind : ListKind) (id : RequestId) (params : V) (items : Result V (List V)) (s : McpServer V)
      → KeepsAfter s (handle_list_request kind id params items s)
  unfolding handle_list_request list_items
  list-Keeps kind id params items s =
      bind-Keeps s (list_offset s.list_page_size params) _ (λ offset.
        Option-split (KeepsAfter s) offset _ _ (λ _. Keeps-refl s)
          (λ n _.
            Option-split (KeepsAfter s) (if is_cacheable s then cached kind s.list_cache else none)
              _ _
              (λ _. bind-Keeps s items _ (λ produced.
                if-split (KeepsAfter s) (ltb 0 s.list_page_size) _ _
                  (λ _. bind-Keeps s (page_of n s.list_page_size produced) _ (λ page. Keeps-refl s))
                  (λ _.
                    if-split (Keeps s) (is_cacheable s) _ _ (λ _. cache-Keeps s _)
                      (λ _. Keeps-refl s))))
              (λ result _. Keeps-refl s)))

  subscribe-Keeps :
      (id : RequestId) (params : V) (session_id : String) (s : McpServer V)
      → KeepsAfter s (handle_resources_subscribe id params session_id s)
  unfolding handle_resources_subscribe
  subscribe-Keeps id params session_id s =
      if-split (KeepsAfter s) (advertises_subscribe s.capabilities) _ _
        (λ _. bind-Keeps s (get_string_param params "uri") _ (λ uri.
          param-split (KeepsAfter s) uri _ _ (λ why. Keeps-refl s)
            (λ text. resources-Keeps s _ (make_success_response id empty_object))))
        (λ _. Keeps-refl s)

  unsubscribe-Keeps :
      (id : RequestId) (params : V) (session_id : String) (s : McpServer V)
      → KeepsAfter s (handle_resources_unsubscribe id params session_id s)
  unfolding handle_resources_unsubscribe
  unsubscribe-Keeps id params session_id s = bind-Keeps s (get_string_param params "uri") _ (λ uri.
      param-split (KeepsAfter s) uri _ _ (λ why. Keeps-refl s)
        (λ text. resources-Keeps s _ (make_success_response id empty_object)))

  initialize-Keeps :
      (handler : Option (V → Result V (InitializeResult V))) (id : RequestId) (params : V)
      (session_id : String) (s : McpServer V)
      → Keeps s (handle_initialize handler id params session_id s).0
  unfolding handle_initialize record_client_hello
  initialize-Keeps handler id params session_id s =
      Result-split (λ (r : McpServer V × Result V V). Keeps s r.0) (requested_version params) _ _
        (λ requested. version-Keeps s _ _) (λ e. hellos-Keeps s _)

  module _ (fuel : ℕ) (regex_match : (pattern uri : String) → Option (List String)) where
    run_method-Keeps :
        (m : Method) (method : String) (id : RequestId) (p : V) (session_id : String)
        (h : Handlers V) (s : McpServer V)
        → Keeps s (run_method fuel regex_match m method id p session_id h s).0
    unfolding run_method
    run_method-Keeps (list_of kind) method id p session_id h s =
        list-Keeps kind id p (h.lists kind) s
    run_method-Keeps tools_call method id p session_id h s = Keeps-refl s
    run_method-Keeps resources_read method id p session_id h s = Keeps-refl s
    run_method-Keeps resources_subscribe method id p session_id h s =
        subscribe-Keeps id p session_id s
    run_method-Keeps resources_unsubscribe method id p session_id h s =
        unsubscribe-Keeps id p session_id s
    run_method-Keeps prompts_get method id p session_id h s = Keeps-refl s
    run_method-Keeps completion_complete method id p session_id h s = Keeps-refl s
    run_method-Keeps set_level method id p session_id h s = Keeps-refl s
    run_method-Keeps unknown_method method id p session_id h s = Keeps-refl s

    pub process_request-Keeps :
        (req : JsonRpcRequest V) (session_id : String) (r : Registry V) (s : McpServer V)
        → Keeps s (process_request fuel regex_match req session_id r s).0
    unfolding process_request dispatch_method
    process_request-Keeps req session_id r s =
        let P : McpServer V × Result V V → Type 0 = λ o. Keeps s o.0 in
        let p = or_value empty_object req.params in
        let h = handlers_of s r in
        if-split P (req.method == method_initialize) _ _
          (λ _. initialize-Keeps h.initialize req.id p session_id s)
          (λ _.
            if-split P (req.method == method_ping) _ _ (λ _. Keeps-refl s)
              (λ _.
                if-split P (not s.initialized) _ _ (λ _. Keeps-refl s)
                  (λ _.
                    run_method-Keeps (method_named req.method) req.method req.id p session_id h s)))
