-- ===== src/Server/Gate.antt =====
-- src/server.cpp: what a server answers before it is initialized.
use cppmcp.Base.{
  ℕ, ℤ, neg, ℤ_eq, String, ◌==◌, string_eq, ◌≡◌, ◌≢◌, refl, ap, ◌∙◌, Bool, true, false, not, List,
  [], ◌∷◌, Option, none, some, All, if-split, Option-split, is_some, arith,
}
use cppmcp.Outcome.{Result, ok, server_not_initialized}
use cppmcp.Json.{Json}
use cppmcp.Map.{find}
use cppmcp.Protocol.{method_initialize, method_ping}
use cppmcp.RequestId.{RequestId, null_id, int_id, string_id}
use cppmcp.Jsonrpc.{
  ParsedMessage, request, notification, success, failure, JsonRpcRequest, JsonRpcErrorDetail,
}
use cppmcp.Jsonrpc.Parsing.{parse_message}
use cppmcp.Jsonrpc.Building.{make_error_response}
use cppmcp.Server.{McpServer, OutboundPending}
use cppmcp.Server.Outbound.{
  call_back, complete_server_request, on_client_response, on_client_error_response,
  on_error_message,
}
use cppmcp.Server.Lifecycle.{process_notification}
use cppmcp.Server.Calls.{Registry}
use cppmcp.Server.Dispatch.{dispatch_method, response_of, process_request, on_parsed, on_message}
use cppmcp.Server.Frame.{process_request-Keeps}

is_not : (b : Bool) → b ≡ false → b ≢ true
is_not b h k = ground (arith, h, k)

module _ {V : Type 0} ⦃json : Json V⦄ where
  call_back-initialized :
      (n : ℤ) (p : OutboundPending) (succeeded : Bool) (payload : V) (s : McpServer V)
      → (call_back n p succeeded payload s).initialized ≡ s.initialized
  unfolding call_back
  call_back-initialized n p true payload s = ground arith
  call_back-initialized n p false payload s = ground arith

  complete-initialized :
      (n : ℤ) (succeeded : Bool) (payload : V) (s : McpServer V)
      → (complete_server_request n succeeded payload s).initialized ≡ s.initialized
  unfolding complete_server_request
  complete-initialized n succeeded payload s =
      Option-split (λ (t : McpServer V). t.initialized ≡ s.initialized) (find n s.outbound_pending)
        _ _ (λ _. refl) (λ p _. call_back-initialized n p succeeded payload _)

  on_client_response-initialized :
      (id : RequestId) (jsonrpc : String) (result : V) (s : McpServer V)
      → (on_client_response (record { jsonrpc = jsonrpc; id = id; result = result }) s).initialized
        ≡ s.initialized
  unfolding on_client_response
  on_client_response-initialized (int_id n) jsonrpc result s = complete-initialized n true result s
  on_client_response-initialized null_id jsonrpc result s = refl
  on_client_response-initialized (string_id t) jsonrpc result s = refl

  on_error_message-initialized :
      (id : RequestId) (jsonrpc : String) (error : JsonRpcErrorDetail V) (s : McpServer V)
      → (on_error_message (record { jsonrpc = jsonrpc; id = id; error = error }) s).0.initialized
        ≡ s.initialized
  unfolding on_error_message on_client_error_response
  on_error_message-initialized (int_id n) jsonrpc error s =
      if-split (λ (o : McpServer V × Option V). o.0.initialized ≡ s.initialized)
        (is_some (find n s.outbound_pending)) _ _ (λ _. complete-initialized n false _ s)
        (λ _. refl)
  on_error_message-initialized null_id jsonrpc error s = refl
  on_error_message-initialized (string_id t) jsonrpc error s = refl

module _ {V : Type 0} ⦃json : Json V⦄ (fuel : ℕ)
    (regex_match : (pattern uri : String) → Option (List String)) where
  abbrev not_initialized : RequestId → V
  not_initialized id =
      make_error_response id server_not_initialized
        "Server not initialized. Send initialize request first." none

  dispatch_method-gated :
      (method : String) (id : RequestId) (params : Option V) (session_id : String) (r : Registry V)
      (s : McpServer V)
      → s.initialized ≡ false
      → method == method_initialize ≡ false
      → method == method_ping ≡ false
      → dispatch_method fuel regex_match method id params session_id r s
        ≡ (s, ok (not_initialized id))
  unfolding dispatch_method
  dispatch_method-gated method id params session_id r s closed other other' =
      let P : McpServer V × Result V V → Type 0 = λ o. o ≡ (s, ok (not_initialized id)) in
      if-split P (method == method_initialize) _ _ (λ h. absurd (is_not _ other h))
        (λ _.
          if-split P (method == method_ping) _ _ (λ h. absurd (is_not _ other' h))
            (λ _.
              if-split P (not s.initialized) _ _ (λ _. refl)
                (λ h. absurd (ground (arith, closed, h)))))

  process_request-gated :
      (req : JsonRpcRequest V) (session_id : String) (r : Registry V) (s : McpServer V)
      → s.initialized ≡ false
      → req.method == method_initialize ≡ false
      → req.method == method_ping ≡ false
      → process_request fuel regex_match req session_id r s ≡ (s, not_initialized req.id)
  unfolding process_request response_of
  process_request-gated req session_id r s closed other other' =
      ap (λ (o : McpServer V × Result V V). (o.0, response_of fuel regex_match req.id o.1))
        (dispatch_method-gated req.method req.id req.params session_id r s closed other other')

  -- A message that is not the notification "notifications/initialized".
  abbrev pub is_opening : ParsedMessage V → Bool
  is_opening (notification n) = n.method == "notifications/initialized"
  is_opening (request req) = false
  is_opening (success response) = false
  is_opening (failure response) = false

  -- The state after a row of messages, each with its session.
  abbrev pub receive_all : Registry V → List (V × String) → McpServer V → McpServer V
  receive_all r [] s = s
  receive_all r ((message, session_id) ∷ messages) s =
      receive_all r messages (on_message fuel regex_match message session_id r s).0

  on_parsed-initialized :
      (parsed : ParsedMessage V) (session_id : String) (r : Registry V) (s : McpServer V)
      → is_opening parsed ≡ false
      → (on_parsed fuel regex_match parsed session_id r s).0.initialized ≡ s.initialized
  unfolding process_notification
  on_parsed-initialized (request req) session_id r s other =
      (process_request-Keeps fuel regex_match req session_id r s).initialized
  on_parsed-initialized (notification n) session_id r s other = ground (arith, other)
  on_parsed-initialized (success response) session_id r s other =
      on_client_response-initialized response.id response.jsonrpc response.result s
  on_parsed-initialized (failure response) session_id r s other =
      on_error_message-initialized response.id response.jsonrpc response.error s

  receive_all-initialized :
      (r : Registry V) (messages : List (V × String)) (s : McpServer V)
      → s.initialized ≡ false
      → All (λ (m : V × String). is_opening (parse_message m.0) ≡ false) messages
      → (receive_all r messages s).initialized ≡ false
  unfolding on_message
  receive_all-initialized r [] s closed none_opens = closed
  receive_all-initialized r ((message, session_id) ∷ messages) s closed (other, none_opens) =
      receive_all-initialized r messages _
        (on_parsed-initialized (parse_message message) session_id r s other ∙ closed) none_opens

  -- As long as no message has been the notification "notifications/initialized", whatever else has come
  -- from whatever sessions, initialize and its answer included: a request for anything but initialize
  -- and ping gets the error -32002 for its id and leaves the server as it was.
  pub on_message-gated :
      (r : Registry V) (messages : List (V × String)) (s : McpServer V) (message : V)
      (session_id : String) (req : JsonRpcRequest V)
      → s.initialized ≡ false
      → All (λ (m : V × String). is_opening (parse_message m.0) ≡ false) messages
      → parse_message message ≡ request req
      → req.method == "initialize" ≡ false
      → req.method == "ping" ≡ false
      → on_message fuel regex_match message session_id r (receive_all r messages s) ≡ (
        receive_all r messages s,
        some (
            make_error_response req.id
              (neg 32002)
              "Server not initialized. Send initialize request first."
              none),
      )
  unfolding on_message
  on_message-gated r messages s message session_id req closed none_opens parsed other other' =
      let t = receive_all r messages s in
      let closed' = receive_all-initialized r messages s closed none_opens in
      ap (λ p. on_parsed fuel regex_match p session_id r t) parsed
      ∙ ap (λ (o : McpServer V × V). (o.0, some o.1))
          (process_request-gated req session_id r t closed' other other')
