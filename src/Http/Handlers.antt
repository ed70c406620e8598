-- ===== src/Http/Handlers.antt =====
-- src/http_transport.cpp: the handlers of requests.
use cppmcp.Base.{
  update, ℕ, suc, Bool, true, false, not, ◌&&◌, List, [], ◌∷◌, ◌++◌, Option, none, some,
  if◌then◌else◌,
}
use cppmcp.Outcome.{parse_error, invalid_request}
use cppmcp.Json.{Json, is_array}
use cppmcp.Jsonrpc.Building.{make_error_response_null_id}
use cppmcp.Map.{find, erase}
use cppmcp.Text.{Bytes, codes, bytes_eq, is_nil, contains_text}
use cppmcp.Http.Response.{sanitize_header_value, build_http_response}
use cppmcp.Http.Transport.{
  JsonText, HttpTransport, header_of, enqueue_write, respond, set_connection, deactivate,
  at_session, find_session, leave_session, leave_list, end_streams, close_streams,
}
use cppmcp.Http.Push.{push_to_sse_connections, send_message, send_to_session}
use cppmcp.Http.Post.{
  HandlerCall, to_sink, to_all, to_session, Handled, Sink, session_header, run_sub_calls,
  respond_json, session_refusal, post_message,
}

abbrev pub crlf_text : Bytes
crlf_text = 13 ∷ 10 ∷ []

abbrev pub refused : {V : Type 0} → HttpTransport → HttpTransport × Option (Sink V)
refused t = (t, none)

-- conn->on_disconnect = …, with a new stream on the connection.
abbrev pub open_stream :
    (session_id : Option Bytes) (streaming : Bool) (conn : ℕ) → HttpTransport → HttpTransport
open_stream session_id streaming conn t =
    let stream = t.next_stream in
    let c = t.connections conn in
    set_connection conn
      (record c {
        is_streaming = if streaming then true else c.is_streaming;
        on_disconnect = elim session_id [
          | none ↦ leave_list stream
          | some sid ↦ leave_session sid stream
        ];
      })
      (record t {
        streams = update t.streams stream (record { conn = conn; active = true });
        next_stream = suc stream;
      })

abbrev pub sse_headers : Bytes
sse_headers =
    codes "HTTP/1.1 200 OK"
    ++ (crlf_text
        ++ (codes "Content-Type: text/event-stream"
            ++ (crlf_text
                ++ (codes "Cache-Control: no-cache"
                    ++ (crlf_text ++ (codes "Connection: keep-alive" ++ crlf_text))))))

abbrev pub origin_line : Bytes → Bytes
origin_line origin =
    if is_nil origin
    then []
    else codes "Access-Control-Allow-Origin: " ++ (sanitize_header_value origin ++ crlf_text)

unfoldable pub handle_get_sse : (now : ℕ) (conn : ℕ) → HttpTransport → HttpTransport
unfolding find_session respond deactivate enqueue_write at_session header_of
handle_get_sse now conn t =
    let c = t.connections conn in
    let sid = header_of (codes "mcp-session-id") c in
    let stream = t.next_stream in
    let resp_headers =
      sse_headers
      ++ (codes "mcp-session-id: "
          ++ (sanitize_header_value sid
              ++ (crlf_text ++ (origin_line (header_of (codes "origin") c) ++ crlf_text)))) in
    elim (find_session sid t) [
      | none ↦ deactivate conn (respond conn 404 (codes "text/plain") (codes "Session not found") t)
      | some s ↦
          if not (contains_text (codes "text/event-stream") (header_of (codes "accept") c))
          then deactivate conn (
              respond conn 400 (codes "text/plain")
                (codes "Accept header must include text/event-stream") t)
          else at_session
              (λ s'. record s' {
                sse_connections = s'.sse_connections ++ stream ∷ [];
                last_activity = now;
              })
              sid
              (enqueue_write conn (resp_headers ++ (codes ": connected" ++ 10 ∷ 10 ∷ []))
                (open_stream (some sid) true conn t))
    ]

-- The session that a request names.
abbrev pub named_session : (conn : ℕ) → HttpTransport → Bytes
named_session conn t = header_of (codes "mcp-session-id") (t.connections conn)

-- handle_delete from the ends of the streams on, up to the response.
unfoldable pub end_session : Bytes → List ℕ → HttpTransport → HttpTransport
unfolding end_streams close_streams
end_session sid sse_connections t =
    let ended = end_streams sse_connections t in
    close_streams sse_connections (record ended { sessions = erase sid ended.sessions })

unfoldable pub handle_delete : (conn : ℕ) → HttpTransport → HttpTransport
unfolding respond end_session header_of
handle_delete conn t =
    let sid = named_session conn t in
    elim (find sid t.sessions) [
      | none ↦ respond conn 404 (codes "text/plain") (codes "Session not found") t
      | some s ↦
          if is_nil sid
          then respond conn 404 (codes "text/plain") (codes "Session not found") t
          else respond conn 200 (codes "text/plain") [] (end_session sid s.sse_connections t)
    ]

unfoldable pub handle_sse_connect : (conn : ℕ) → HttpTransport → HttpTransport
unfolding enqueue_write
handle_sse_connect conn t =
    let stream = t.next_stream in
    let endpoint_event =
      codes "event: endpoint" ++ 10 ∷ (codes "data: " ++ (t.config.message_path ++ 10 ∷ 10 ∷ [])) in
    let t' =
      enqueue_write conn (sse_headers ++ (crlf_text ++ endpoint_event))
        (open_stream none false conn t) in
    record t' { active_sse_connections = t'.active_sse_connections ++ stream ∷ [] }

unfoldable pub handle_options : (conn : ℕ) → HttpTransport → HttpTransport
unfolding enqueue_write header_of
handle_options conn t =
    let origin = header_of (codes "origin") (t.connections conn) in
    enqueue_write conn
      (build_http_response 204 (codes "text/plain") [] (
        (codes "Access-Control-Allow-Methods", codes "GET, POST, DELETE, OPTIONS")
        ∷ (codes "Access-Control-Allow-Headers", codes "Content-Type, mcp-session-id")
        ∷ (codes "Access-Control-Max-Age", codes "86400")
        ∷ (if is_nil origin then [] else (codes "Access-Control-Allow-Origin", origin) ∷ [])))
      t

abbrev pub not_json : (content_type : Bytes) → Bool
not_json content_type = not (contains_text (codes "application/json") content_type)

abbrev pub not_acceptable : (accept : Bytes) → Bool
not_acceptable accept =
    not_json accept
    && (not (contains_text (codes "text/event-stream") accept) && not (is_nil accept))

abbrev pub is_empty_batch : {V : Type 0} → List V → Bool
is_empty_batch [] = true
is_empty_batch (v ∷ vs) = false

module _ {V : Type 0} (text : JsonText V) where
  -- A handler's calls in the legacy mode, where every response goes to every stream.
  unfoldable pub run_legacy_calls : List (HandlerCall V) → HttpTransport → HttpTransport
  unfolding push_to_sse_connections send_message send_to_session
  run_legacy_calls [] t = t
  run_legacy_calls (to_sink resp ∷ calls) t =
      run_legacy_calls calls (push_to_sse_connections text resp t)
  run_legacy_calls (to_all message ∷ calls) t = run_legacy_calls calls (send_message text message t)
  run_legacy_calls (to_session sid message ∷ calls) t =
      run_legacy_calls calls (send_to_session text sid message t)

  -- The responses to the elements of a batch, one at most for each.
  unfoldable pub run_batch :
      (V → Bytes → Handled V) → Bytes → List V → HttpTransport → List V × HttpTransport
  unfolding run_sub_calls
  run_batch handler sid [] t = ([], t)
  run_batch handler sid (elem ∷ batch) t =
      let (body, ran) = run_sub_calls text (handler elem sid).calls (none, t) in
      let (responses, t') = run_batch handler sid batch ran in
      (elim body [ none ↦ responses | some resp ↦ resp ∷ responses ], t')

module _ {V : Type 0} ⦃json : Json V⦄ (text : JsonText V) where
  -- The response to a batch whose elements had these.
  abbrev pub respond_batch : (conn : ℕ) → Bytes → List V → HttpTransport → HttpTransport
  respond_batch conn sid [] t =
      enqueue_write conn (build_http_response 202 (codes "text/plain") [] (session_header sid)) t
  respond_batch conn sid (resp ∷ responses) t =
      respond_json text conn 200 (json.from_array (resp ∷ responses)) (session_header sid) t

  -- A call of an empty message handler throws, and the element gets no response.
  unfoldable pub handle_post_batch :
      (V → Bytes → Handled V) → (conn : ℕ) → Bytes → List V → HttpTransport → HttpTransport
  unfolding run_batch session_refusal respond_json enqueue_write
  handle_post_batch handler conn req_session_id batch t =
      let (responses, ran) = run_batch text handler req_session_id batch t in
      if is_empty_batch batch
      then respond_json text conn 200
          (make_error_response_null_id invalid_request "Invalid Request" none) [] t
      else elim (session_refusal text conn req_session_id t) [
        | some answered ↦ answered
        | none ↦
            if t.has_message_handler
            then respond_batch conn req_session_id responses ran
            else respond_batch conn req_session_id [] t
      ]

  unfoldable pub handle_post :
      (session_id : Bytes)
      → (now : ℕ) → (V → Bytes → Handled V)
      → (conn : ℕ) → HttpTransport
      → HttpTransport × Option (Sink V)
  unfolding handle_post_batch post_message respond respond_json header_of
  handle_post session_id now handler conn t =
      let c = t.connections conn in
      let accept = header_of (codes "accept") c in
      let req_session_id = header_of (codes "mcp-session-id") c in
      if not_json (header_of (codes "content-type") c)
      then refused
          (respond conn 400 (codes "text/plain") (codes "Content-Type must be application/json") t)
      else if not_acceptable accept
      then refused (
          respond conn 406 (codes "text/plain")
            (codes "Accept header must include application/json or text/event-stream") t)
      else elim (text.parse_text c.reading.current_body) [
        | none ↦ refused (
            respond_json text conn 400 (make_error_response_null_id parse_error "Parse error" none)
              [] t)
        | some message ↦
            if is_array message
            then refused (handle_post_batch handler conn req_session_id (json.elements message) t)
            else post_message text session_id now handler conn req_session_id message t
      ]

  -- What the handler throws leaves the function, with no response.
  unfoldable pub handle_sse_message :
      (V → Bytes → Handled V) → (conn : ℕ) → HttpTransport → HttpTransport
  unfolding run_legacy_calls respond
  handle_sse_message handler conn t =
      elim (text.parse_text (t.connections conn).reading.current_body) [
        | none ↦ respond conn 400 (codes "text/plain") (codes "Invalid JSON") t
        | some message ↦
            let handled = handler message [] in
            let accept = respond conn 202 (codes "text/plain") [] in
            if t.has_message_handler
            then (let ran = run_legacy_calls text handled.calls t in
                if handled.returned then accept ran else ran)
            else accept t
      ]
