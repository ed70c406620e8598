-- ===== src/Http/Dispatch.antt =====
-- src/http_transport.cpp: which handler a request gets.
use cppmcp.Base.{ℕ, ◌==◌, not, ◌&&◌, Option, if◌then◌else◌}
use cppmcp.Json.{Json}
use cppmcp.Text.{Bytes, codes, bytes_eq, is_nil, cut}
use cppmcp.Http.Guard.{is_origin_allowed, is_host_allowed}
use cppmcp.Http.Transport.{
  JsonText, HttpTransport, HttpTransportConfig, HttpConnection, HttpTransportMode, sse,
  streamable_http, header_of, respond, deactivate,
}
use cppmcp.Http.Post.{Handled, Sink}
use cppmcp.Http.Handlers.{
  refused, handle_options, handle_post, handle_get_sse, handle_delete, handle_sse_connect,
  handle_sse_message,
}

pub data Route : Type 0 where
  bad_host bad_origin options post get_sse delete sse_connect sse_message not_found : Route

unfoldable pub route_streamable : HttpTransportConfig → (method path_only : Bytes) → Route
route_streamable config method path_only =
    if path_only == config.path
    then (if method == codes "POST"
        then post
        else if method == codes "GET"
        then get_sse
        else if method == codes "DELETE"
        then delete
        else not_found)
    else not_found

unfoldable pub route_sse : HttpTransportConfig → (method path_only : Bytes) → Route
route_sse config method path_only =
    if path_only == config.sse_path && method == codes "GET"
    then sse_connect
    else if path_only == config.message_path && method == codes "POST"
    then sse_message
    else not_found

abbrev route_mode : HttpTransportMode → HttpTransportConfig → (method path_only : Bytes) → Route
route_mode sse config method path_only = route_sse config method path_only
route_mode streamable_http config method path_only = route_streamable config method path_only

-- The tests of handle_request, in their order.
unfoldable pub route_of : HttpTransportConfig → HttpConnection → Route
unfolding header_of route_streamable route_sse
route_of config c =
    let origin = header_of (codes "origin") c in
    let method = c.reading.current_method in
    if config.enforce_host_header && not (is_host_allowed (header_of (codes "host") c) config.host)
    then bad_host
    else if not (is_nil origin) && not (is_origin_allowed origin config.host)
    then bad_origin
    else if method == codes "OPTIONS"
    then options
    else route_mode config.mode config method (cut b'?' c.reading.current_url).0

-- A response behind which the connection is inactive.
unfoldable pub refuse : (conn status : ℕ) (body : Bytes) → HttpTransport → HttpTransport
unfolding respond deactivate
refuse conn status body t = deactivate conn (respond conn status (codes "text/plain") body t)

module _ {V : Type 0} ⦃json : Json V⦄ (text : JsonText V) where
  unfoldable pub run_route :
      Route
      → (session_id : Bytes) → (now : ℕ) → (V → Bytes → Handled V)
      → (conn : ℕ) → HttpTransport
      → HttpTransport × Option (Sink V)
  unfolding refuse handle_options handle_post handle_get_sse handle_delete handle_sse_connect
      handle_sse_message
  run_route bad_host session_id now handler conn t =
      refused (refuse conn 403 (codes "Forbidden: Host not allowed") t)
  run_route bad_origin session_id now handler conn t =
      refused (refuse conn 403 (codes "Forbidden: Origin not allowed") t)
  run_route options session_id now handler conn t = refused (handle_options conn t)
  run_route post session_id now handler conn t = handle_post text session_id now handler conn t
  run_route get_sse session_id now handler conn t = refused (handle_get_sse now conn t)
  run_route delete session_id now handler conn t = refused (handle_delete conn t)
  run_route sse_connect session_id now handler conn t = refused (handle_sse_connect conn t)
  run_route sse_message session_id now handler conn t =
      refused (handle_sse_message text handler conn t)
  run_route not_found session_id now handler conn t =
      refused (refuse conn 404 (codes "Not Found") t)

  unfoldable pub handle_request :
      (session_id : Bytes)
      → (now : ℕ) → (V → Bytes → Handled V)
      → (conn : ℕ) → HttpTransport
      → HttpTransport × Option (Sink V)
  unfolding route_of run_route
  handle_request session_id now handler conn t =
      run_route (route_of t.config (t.connections conn)) session_id now handler conn t
