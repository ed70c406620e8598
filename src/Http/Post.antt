-- ===== src/Http/Post.antt =====
-- src/http_transport.cpp: a POST of the Streamable HTTP mode. The message handler is an argument: what
-- it does for a message and a session, up to its return.
use cppmcp.Base.{
  ℕ, String, ◌==◌, string_eq, Bool, true, false, not, ◌&&◌, List, [], ◌∷◌, Option, none, some,
  if◌then◌else◌, is_some,
}
use cppmcp.Outcome.{invalid_params, server_not_initialized}
use cppmcp.Protocol.{method_initialize}
use cppmcp.Json.{Json, contains}
use cppmcp.Jsonrpc.{ParsedMessage, request, notification, failure}
use cppmcp.Jsonrpc.Building.{make_error_response, make_error_response_null_id}
use cppmcp.Jsonrpc.Parsing.{parse_message}
use cppmcp.Map.{erase}
use cppmcp.Text.{Bytes, codes, bytes_eq, bytes_ord, is_nil}
use cppmcp.Http.Response.{build_http_response}
use cppmcp.Http.Transport.{
  JsonText, HttpTransport, HttpSession, enqueue_write, respond, at_session, find_session,
  create_session,
}
use cppmcp.Http.Push.{send_message, send_to_session}

-- What a message handler does with the transport: a response for its sink, a message for everyone or
-- for one session.
pub data HandlerCall (V : Type 0) : Type 0 where
  to_sink : V → HandlerCall V
  to_all : V → HandlerCall V
  to_session : Bytes → V → HandlerCall V

-- `returned` is false where the handler throws.
pub record Handled (V : Type 0) : Type 0 where
  pub calls : List (HandlerCall V)
  pub returned : Bool

-- The state that the copies of a sink share; `frame_written` says that `first_body` has a value.
pub record Sink (V : Type 0) : Type 0 where
  pub conn : ℕ
  pub sid : Bytes
  pub first_body : Option V

abbrev pub frame_written : {V : Type 0} → Sink V → Bool
frame_written sink = is_some sink.first_body

abbrev pub session_header : Bytes → List (Bytes × Bytes)
session_header sid = if is_nil sid then [] else (codes "mcp-session-id", sid) ∷ []

abbrev pub method_of : {V : Type 0} → ParsedMessage V → String
method_of (request req) = req.method
method_of (notification notif) = notif.method
method_of _ = ""

abbrev pub is_notification : {V : Type 0} → ParsedMessage V → Bool
is_notification (notification notif) = true
is_notification _ = false

module _ {V : Type 0} (text : JsonText V) where
  -- The sink of a request: the first response becomes the body, any other goes to the session's streams.
  unfoldable pub run_sink : V → Sink V × HttpTransport → Sink V × HttpTransport
  unfolding enqueue_write send_to_session
  run_sink resp (sink, t) =
      if frame_written sink then (sink, send_to_session text sink.sid resp t) else (
        record sink { first_body = some resp },
        enqueue_write sink.conn
            (build_http_response 200 (codes "application/json") (text.dump resp)
              (session_header sink.sid))
            t,
      )

  unfoldable pub run_call : HandlerCall V → Sink V × HttpTransport → Sink V × HttpTransport
  unfolding run_sink send_message send_to_session
  run_call (to_sink resp) state = run_sink resp state
  run_call (to_all message) (sink, t) = (sink, send_message text message t)
  run_call (to_session sid message) (sink, t) = (sink, send_to_session text sid message t)

  unfoldable pub run_calls : List (HandlerCall V) → Sink V × HttpTransport → Sink V × HttpTransport
  unfolding run_call
  run_calls [] state = state
  run_calls (call ∷ calls) state = run_calls calls (run_call call state)

  -- The sink of an element of a batch, which keeps the first response.
  unfoldable pub run_sub_call : HandlerCall V → Option V × HttpTransport → Option V × HttpTransport
  unfolding send_message send_to_session
  run_sub_call (to_sink resp) (none, t) = (some resp, t)
  run_sub_call (to_sink resp) (some body, t) = (some body, t)
  run_sub_call (to_all message) (body, t) = (body, send_message text message t)
  run_sub_call (to_session sid message) (body, t) = (body, send_to_session text sid message t)

  unfoldable pub run_sub_calls :
      List (HandlerCall V) → Option V × HttpTransport → Option V × HttpTransport
  unfolding run_sub_call
  run_sub_calls [] state = state
  run_sub_calls (call ∷ calls) state = run_sub_calls calls (run_sub_call call state)

abbrev pub touch : (now : ℕ) → HttpSession → HttpSession
touch now s = record s { last_activity = now }

abbrev pub roll_back : (is_initialize : Bool) → Bytes → HttpTransport → HttpTransport
roll_back true sid t = record t { sessions = erase sid t.sessions }
roll_back false sid t = t

abbrev pub accepted_notification :
    {V : Type 0} → ParsedMessage V → Bool → (conn : ℕ) → Bytes → HttpTransport → HttpTransport
accepted_notification parsed returned conn sid t =
    if returned && is_notification parsed
    then enqueue_write conn (build_http_response 202 (codes "text/plain") [] (session_header sid)) t
    else t

module _ {V : Type 0} ⦃json : Json V⦄ where
  -- `session->initialized.store(true)` after a successful initialize, or the rollback.
  unfoldable pub commit : (returned : Bool) → Option V → Bytes → HttpTransport → HttpTransport
  unfolding at_session
  commit false body sid t = record t { sessions = erase sid t.sessions }
  commit true none sid t = record t { sessions = erase sid t.sessions }
  commit true (some body) sid t =
      if contains body "error"
      then record t { sessions = erase sid t.sessions }
      else at_session (λ s. record s { initialized = true }) sid t

  abbrev pub commit_if :
      (is_initialize returned : Bool) → Option V → Bytes → HttpTransport → HttpTransport
  commit_if true returned body sid t = commit returned body sid t
  commit_if false returned body sid t = t

module _ {V : Type 0} ⦃json : Json V⦄ (text : JsonText V) where
  unfoldable pub respond_json :
      (conn status : ℕ) → V → List (Bytes × Bytes) → HttpTransport → HttpTransport
  unfolding enqueue_write
  respond_json conn status body headers t =
      enqueue_write conn
        (build_http_response status (codes "application/json") (text.dump body) headers) t

  -- handle_post from the call of the message handler on. The sink is returned for the responses that
  -- a handler defers.
  unfoldable pub handled_post :
      (is_initialize : Bool)
      → (sid : Bytes) → Handled V
      → (conn : ℕ) → ParsedMessage V
      → HttpTransport
      → HttpTransport × Option (Sink V)
  unfolding run_calls commit enqueue_write
  handled_post is_initialize sid handled conn parsed t =
      let (sink, ran) =
        run_calls text handled.calls (record { conn = conn; sid = sid; first_body = none }, t) in
      (
        accepted_notification parsed handled.returned conn sid
            (commit_if is_initialize handled.returned sink.first_body sid ran),
        some sink,
      )

  -- handle_post from the update of last_activity on.
  unfoldable pub run_post :
      (is_initialize : Bool)
      → (sid : Bytes) → (now : ℕ) → (V → Bytes → Handled V)
      → (conn : ℕ) → ParsedMessage V
      → V
      → HttpTransport
      → HttpTransport × Option (Sink V)
  unfolding at_session handled_post respond
  run_post is_initialize sid now handler conn parsed message t =
      let touched = at_session (touch now) sid t in
      if not touched.has_message_handler
      then (
        respond conn 500 (codes "text/plain") (codes "No handler configured")
            (roll_back is_initialize sid touched),
        none,
      )
      else handled_post is_initialize sid (handler message sid) conn parsed touched

  -- `session_id` is what generate_session_id returns.
  unfoldable pub post_initialize :
      (session_id : Bytes)
      → (now : ℕ) → (V → Bytes → Handled V)
      → (conn : ℕ) → Bytes
      → ParsedMessage V
      → V
      → HttpTransport
      → HttpTransport × Option (Sink V)
  unfolding run_post create_session respond
  post_initialize session_id now handler conn req_session_id parsed message t =
      if not (is_nil req_session_id)
      then (respond conn 400 (codes "text/plain") (codes "Session already exists") t, none)
      else elim (create_session session_id now t) [
        | none ↦ (respond conn 429 (codes "text/plain") (codes "Too many sessions") t, none)
        | some t' ↦ run_post true session_id now handler conn parsed message t'
      ]

  -- Why a request cannot use the session that its header names, if it cannot.
  unfoldable pub session_refusal : (conn : ℕ) → Bytes → HttpTransport → Option HttpTransport
  unfolding respond_json respond find_session
  session_refusal conn req_session_id t =
      if is_nil req_session_id
      then some (
          respond_json conn 400
            (make_error_response_null_id invalid_params "Missing Mcp-Session-Id header" none) [] t)
      else elim (find_session req_session_id t) [
        | none ↦ some (respond conn 404 (codes "text/plain") (codes "Session not found") t)
        | some s ↦
            if s.initialized
            then none
            else some (
                respond_json conn 400
                  (make_error_response_null_id server_not_initialized "Session not initialized"
                    none)
                  [] t)
      ]

  unfoldable pub post_in_session :
      (now : ℕ)
      → (V → Bytes → Handled V)
      → (conn : ℕ) → Bytes
      → ParsedMessage V
      → V
      → HttpTransport
      → HttpTransport × Option (Sink V)
  unfolding run_post session_refusal
  post_in_session now handler conn req_session_id parsed message t =
      elim (session_refusal conn req_session_id t) [
        | some refused ↦ (refused, none)
        | none ↦ run_post false req_session_id now handler conn parsed message t
      ]

  abbrev pub post_parsed :
      (session_id : Bytes)
      → (now : ℕ) → (V → Bytes → Handled V)
      → (conn : ℕ) → Bytes
      → ParsedMessage V
      → V
      → HttpTransport
      → HttpTransport × Option (Sink V)
  post_parsed session_id now handler conn req_session_id (failure err_resp) message t = (
    respond_json conn 200
        (make_error_response err_resp.id err_resp.error.code err_resp.error.message
          err_resp.error.extra)
        (session_header req_session_id) t,
    none,
  )
  post_parsed session_id now handler conn req_session_id parsed message t =
      if method_of parsed == method_initialize
      then post_initialize session_id now handler conn req_session_id parsed message t
      else post_in_session now handler conn req_session_id parsed message t

  -- handle_post from parse_message on.
  unfoldable pub post_message :
      (session_id : Bytes)
      → (now : ℕ) → (V → Bytes → Handled V)
      → (conn : ℕ) → Bytes
      → V
      → HttpTransport
      → HttpTransport × Option (Sink V)
  unfolding post_initialize post_in_session respond_json
  post_message session_id now handler conn req_session_id message t =
      post_parsed session_id now handler conn req_session_id (parse_message message) message t
