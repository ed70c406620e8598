-- ===== src/Http/Lifecycle.antt =====
-- src/http_transport.cpp: connections and sessions from their beginning to their end.
use cppmcp.Base.{
  ℕ, suc, ◌-◌, ◌/◌, ltb, leb, Bool, true, false, not, ◌&&◌, List, [], ◌∷◌, ◌++◌, Option, none, some,
  if◌then◌else◌,
}
use cppmcp.Map.{Map}
use cppmcp.Text.{Bytes, codes, bytes_eq}
use cppmcp.Http.Connection.{Reading}
use cppmcp.Http.Response.{build_http_response}
use cppmcp.Http.Transport.{
  HttpTransport, HttpTransportConfig, HttpConnection, HttpSession, no_cleanup, turned_away,
  set_connection, end_streams, close_streams,
}

unfoldable pub new_reading : HttpTransportConfig → Reading
new_reading config = record {
  current_url = [];
  current_method = [];
  current_body = [];
  headers = [];
  current_header_field = [];
  current_header_value = [];
  request_complete = false;
  max_body_size = config.max_body_size;
  max_header_count = config.max_header_count;
  max_header_line_size = config.max_header_line_size;
}

unfoldable pub new_connection : HttpTransportConfig → HttpConnection
unfolding new_reading
new_connection config = record {
  reading = new_reading config;
  active = true;
  is_streaming = false;
  on_disconnect = no_cleanup;
}

abbrev pub at_capacity : HttpTransport → Bool
at_capacity t =
    ltb 0 t.config.max_connections && leb t.config.max_connections t.active_connection_count

-- The callback of async_accept without an error.
unfoldable pub on_accept : HttpTransport → HttpTransport
unfolding new_connection
on_accept t =
    if at_capacity t
    then record t {
      trace =
          turned_away (
            build_http_response 503 (codes "text/plain")
              (codes "Service Unavailable: too many connections") [])
          ∷ t.trace;
    }
    else set_connection t.next_connection (new_connection t.config) (record t {
      next_connection = suc t.next_connection;
      active_connection_count = suc t.active_connection_count;
    })

-- `now - last_activity` against the timeout; the clock counts nanoseconds.
abbrev pub is_idle : (now timeout : ℕ) → HttpSession → Bool
is_idle now timeout s = ltb timeout ((now - s.last_activity) / 1000000)

unfoldable pub live_sessions : (now timeout : ℕ) → Map Bytes HttpSession → Map Bytes HttpSession
live_sessions now timeout [] = []
live_sessions now timeout ((session_id, s) ∷ sessions) =
    let rest = live_sessions now timeout sessions in
    if is_idle now timeout s then rest else (session_id, s) ∷ rest

unfoldable pub idle_streams : (now timeout : ℕ) → Map Bytes HttpSession → List ℕ
idle_streams now timeout [] = []
idle_streams now timeout ((session_id, s) ∷ sessions) =
    let rest = idle_streams now timeout sessions in
    if is_idle now timeout s then s.sse_connections ++ rest else rest

-- `cancelled` is the error code of the timer.
unfoldable pub sweep_sessions : (cancelled : Bool) (now : ℕ) → HttpTransport → HttpTransport
unfolding live_sessions idle_streams end_streams close_streams
sweep_sessions cancelled now t =
    let timeout = t.config.session_idle_timeout in
    let to_close = idle_streams now timeout t.sessions in
    let ended = end_streams to_close t in
    if cancelled
    then t
    else if not t.running
    then t
    else close_streams to_close (record ended { sessions = live_sessions now timeout t.sessions })

-- The period of the sweep in milliseconds, if there is one.
unfoldable pub sweep_period : HttpTransportConfig → Option ℕ
sweep_period config =
    if leb config.session_idle_timeout 0
    then none
    else some (if ltb config.session_idle_timeout 1000 then 1000 else config.session_idle_timeout)

unfoldable pub all_streams : Map Bytes HttpSession → List ℕ
all_streams [] = []
all_streams ((session_id, s) ∷ sessions) = s.sse_connections ++ all_streams sessions

-- The two parts of stop: the streams of the legacy mode, then the sessions.
unfoldable pub stop_streams : HttpTransport → HttpTransport
unfolding end_streams close_streams
stop_streams t =
    let to_close = t.active_sse_connections in
    let ended = end_streams to_close (record t { running = false }) in
    close_streams to_close (record ended { active_sse_connections = [] })

unfoldable pub stop_sessions : HttpTransport → HttpTransport
unfolding end_streams close_streams all_streams
stop_sessions t =
    let to_close = all_streams t.sessions in
    close_streams to_close (record (end_streams to_close t) { sessions = [] })

unfoldable pub stop : HttpTransport → HttpTransport
unfolding stop_streams stop_sessions
stop t = stop_sessions (stop_streams t)
