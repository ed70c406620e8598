-- ===== src/Server/Shutdown.antt =====
-- src/server.cpp: what can still leave a server after its end.
use cppmcp.Base.{
  ℕ, String, Bool, true, false, ◌≡◌, refl, sym, ap, subst, ◌∙◌, List, [], ◌∷◌, Option, arith, ℤ_eq,
}
use cppmcp.Json.{Json}
use cppmcp.Map.{find, ℤ_ord, string_ord}
use cppmcp.Protocol.{notif_resources_updated}
use cppmcp.Jsonrpc.{
  ParsedMessage, request, notification, success, failure, JsonRpcNotification,
  JsonRpcSuccessResponse, JsonRpcErrorResponse,
}
use cppmcp.Jsonrpc.Parsing.{parse_message}
use cppmcp.Server.{McpServer}
use cppmcp.Server.Outbound.{
  send_server_request, send_notification, on_client_response, on_error_message,
  complete_server_request,
}
use cppmcp.Server.Subscriptions.{notify_resources_updated, notify_each, targets}
use cppmcp.Server.Lifecycle.{stop, process_notification}
use cppmcp.Server.Calls.{Registry}
use cppmcp.Server.Dispatch.{on_message, on_parsed}
use cppmcp.Server.Frame.{Keeps, process_request-Keeps}

-- A server after its end.
record Ended {V : Type 0} (s : McpServer V) : Type 0 where
  pub stopping : s.stopping ≡ true
  pub running : s.running ≡ false
  pub answered : s.outbound_pending ≡ []

module _ {V : Type 0} ⦃json : Json V⦄ where
  module _ (s : McpServer V) (ended : Ended s) where
    open ended use {stopping, running, answered}

    send_notification-Ended :
        (method : String) (params : V) (session_id : String) (failed : Bool)
        → send_notification method params session_id failed s ≡ s
    unfolding send_notification
    send_notification-Ended method params session_id failed = ground arith

    notify_each-Ended :
        (params : V) (failed : String → Bool) (sessions : List String)
        → notify_each params failed sessions s ≡ s
    unfolding notify_each
    notify_each-Ended params failed [] = refl
    notify_each-Ended params failed (session_id ∷ rest) =
        rw (send_notification-Ended notif_resources_updated params session_id (failed session_id))
          (notify_each-Ended params failed rest)

    notify_resources_updated-Ended :
        (uri : String) (failed : String → Bool) (sessions : List String)
        → targets uri s.subscribed_resources ≡ sessions
        → notify_resources_updated uri failed s ≡ s
    unfolding notify_resources_updated
    notify_resources_updated-Ended uri failed [] e =
        rw (e, notify_resources_updated)
          (send_notification-Ended notif_resources_updated
            (json.from_object (("uri", json.from_string uri) ∷ [])) "" (failed ""))
    notify_resources_updated-Ended uri failed (first ∷ rest) e =
        rw (e, notify_resources_updated)
          (notify_each-Ended (json.from_object (("uri", json.from_string uri) ∷ [])) failed
            (first ∷ rest))

    send_server_request-Ended :
        (method : String) (params : V) (on_result on_error : Bool) (session_id : String)
        (failed : Bool)
        → (send_server_request method params on_result on_error session_id failed s).0 ≡ s
    unfolding send_server_request
    send_server_request-Ended method params on_result on_error session_id failed = ground arith

    on_client_response-Ended :
        (response : JsonRpcSuccessResponse V) → on_client_response response s ≡ s
    unfolding on_client_response complete_server_request find
    on_client_response-Ended response = ground arith

    on_error_message-Ended :
        (response : JsonRpcErrorResponse V) → (on_error_message response s).0 ≡ s
    unfolding on_error_message find
    on_error_message-Ended response = ground arith

    stop-Ended : stop s ≡ s
    unfolding stop
    stop-Ended = ground arith

    process_notification-Ended :
        (n : JsonRpcNotification V)
        → Ended (process_notification n s) × ((process_notification n s).trace ≡ s.trace)
    unfolding process_notification
    process_notification-Ended n = ground arith

    keeps_Ended : (t : McpServer V) → t ≡ s → Ended t × (t.trace ≡ s.trace)
    keeps_Ended t e = (subst Ended (sym e) ended, ap (λ (u : McpServer V). u.trace) e)

    Keeps-Ended : (t : McpServer V) → Keeps s t → Ended t × (t.trace ≡ s.trace)
    Keeps-Ended t k = (
      record {
        stopping = k.stopping ∙ stopping;
        running = k.running ∙ running;
        answered = k.outbound_pending ∙ answered;
      },
      k.trace,
    )

    on_parsed-Ended :
        (fuel : ℕ) (regex_match : (pattern uri : String) → Option (List String))
        (parsed : ParsedMessage V) (session_id : String) (r : Registry V)
        → (let t = (on_parsed fuel regex_match parsed session_id r s).0 in
            Ended t × (t.trace ≡ s.trace))
    on_parsed-Ended fuel regex_match (request req) session_id r =
        Keeps-Ended _ (process_request-Keeps fuel regex_match req session_id r s)
    on_parsed-Ended fuel regex_match (notification n) session_id r = process_notification-Ended n
    on_parsed-Ended fuel regex_match (success response) session_id r =
        keeps_Ended _ (on_client_response-Ended response)
    on_parsed-Ended fuel regex_match (failure response) session_id r =
        keeps_Ended _ (on_error_message-Ended response)

    on_message-Ended :
        (fuel : ℕ) (regex_match : (pattern uri : String) → Option (List String)) (message : V)
        (session_id : String) (r : Registry V)
        → (let t = (on_message fuel regex_match message session_id r s).0 in
            Ended t × (t.trace ≡ s.trace))
    unfolding on_message
    on_message-Ended fuel regex_match message session_id r =
        on_parsed-Ended fuel regex_match (parse_message message) session_id r

  module _ (fuel : ℕ) (regex_match : (pattern uri : String) → Option (List String)) where
    -- What the threads of the program and the messages of clients can do to a server that was started
    -- once: its requests and notifications, any message of a client, and further calls of stop.
    pub data Step (s : McpServer V) : McpServer V → Type 0 where
      asks :
          (method : String) (params : V) (on_result on_error : Bool) (session_id : String)
          (failed : Bool)
          → Step s (send_server_request method params on_result on_error session_id failed s).0
      notifies :
          (method : String) (params : V) (session_id : String) (failed : Bool)
          → Step s (send_notification method params session_id failed s)
      updates :
          (uri : String) (failed : String → Bool) → Step s (notify_resources_updated uri failed s)
      receives :
          (message : V) (session_id : String) (r : Registry V)
          → Step s (on_message fuel regex_match message session_id r s).0
      stops : Step s (stop s)

    pub data Reach (s : McpServer V) : McpServer V → Type 0 where
      here : Reach s s
      next : (t u : McpServer V) → Reach s t → Step t u → Reach s u

    Step-Ended : (s t : McpServer V) → Ended s → Step s t → Ended t × (t.trace ≡ s.trace)
    Step-Ended s _ ended (asks method params on_result on_error session_id failed) =
        keeps_Ended s ended _
          (send_server_request-Ended s ended method params on_result on_error session_id failed)
    Step-Ended s _ ended (notifies method params session_id failed) =
        keeps_Ended s ended _ (send_notification-Ended s ended method params session_id failed)
    Step-Ended s _ ended (updates uri failed) = keeps_Ended s ended _ (
        notify_resources_updated-Ended s ended uri failed (targets uri s.subscribed_resources) refl)
    Step-Ended s _ ended (receives message session_id r) =
        on_message-Ended s ended fuel regex_match message session_id r
    Step-Ended s _ ended stops = keeps_Ended s ended _ (stop-Ended s ended)

    Reach-Ended : (s t : McpServer V) → Ended s → Reach s t → Ended t × (t.trace ≡ s.trace)
    Reach-Ended s t ended here = (ended, refl)
    Reach-Ended s t ended (next u _ path step) =
        let (ended', same) = Reach-Ended s u ended path in
        let (ended'', same') = Step-Ended u t ended' step in (ended'', same' ∙ same)

    -- Once a server that was not stopping is stopped: whatever requests, notifications and updates it is
    -- told to send, whatever messages of clients and further stops follow, and in whatever order, it
    -- sends no request and no notification, and calls no callback of its requests. What it returns to
    -- a client for that client's own message is not meant by this.
    pub stop-silent :
        (s t : McpServer V) → s.stopping ≡ false → Reach (stop s) t → t.trace ≡ s.trace
    unfolding stop
    stop-silent s t going path =
        let ended : Ended (stop s) = ground arith in
        (Reach-Ended (stop s) t ended path).1 ∙ ground arith
