-- ===== src/Http/Transport.antt =====
-- include/cppmcp/http_transport.hpp and src/http_transport.cpp: the state of the transport, and what its
-- operations share. Each handler runs to its end before the next one begins.
use cppmcp.Base.{
  update, remove, ℕ, ◌-◌, ltb, leb, nat_eq, Bool, false, ◌&&◌, List, [], ◌∷◌, Option, none, some,
  if◌then◌else◌, length,
}
use cppmcp.Map.{Map, find, insert, adjust}
use cppmcp.Text.{Bytes, bytes_eq, bytes_ord, is_nil}
use cppmcp.Http.Connection.{Reading}
use cppmcp.Http.Response.{build_http_response}

-- The texts of JSON values: dump() and parse(), where none stands for a parse_error.
pub record JsonText (V : Type 0) : Type 0 where
  pub dump : V → Bytes
  pub parse_text : Bytes → Option V

pub data HttpTransportMode : Type 0 where
  sse streamable_http : HttpTransportMode

-- `session_idle_timeout` is in milliseconds, and 0 where the code's is negative too.
pub record HttpTransportConfig : Type 0 where
  pub mode : HttpTransportMode
  pub host : Bytes
  pub path : Bytes
  pub sse_path : Bytes
  pub message_path : Bytes
  pub max_body_size : ℕ
  pub max_connections : ℕ
  pub max_header_count : ℕ
  pub max_header_line_size : ℕ
  pub max_sessions : ℕ
  pub session_idle_timeout : ℕ
  pub enforce_host_header : Bool

-- What `on_disconnect` of a connection does: nothing, or take an SSE stream off the session with
-- that id, or off the list of the legacy mode.
pub data Cleanup : Type 0 where
  no_cleanup : Cleanup
  leave_session : (session_id : Bytes) (stream : ℕ) → Cleanup
  leave_list : (stream : ℕ) → Cleanup

pub record HttpConnection : Type 0 where
  pub reading : Reading
  pub active : Bool
  pub is_streaming : Bool
  pub on_disconnect : Cleanup

-- `conn` is the handle of the connection.
pub record SseConnection : Type 0 where
  pub conn : ℕ
  pub active : Bool

pub record HttpSession : Type 0 where
  pub initialized : Bool
  pub sse_connections : List ℕ
  pub last_activity : ℕ

-- What the transport does to a connection with that handle: a call of its queue's enqueue with these
-- bytes, the end of the queue, the end of the socket; and a response to a socket that got no connection.
-- What the queue does with the bytes is WriteQueue's; it takes them all while it is active, since
-- write_queue_max_bytes is 0 as by default, and a failed write is a later call of on_error.
pub data Event : Type 0 where
  enqueued : (conn : ℕ) (bytes : Bytes) → Event
  queue_shut_down : (conn : ℕ) → Event
  socket_closed : (conn : ℕ) → Event
  turned_away : (bytes : Bytes) → Event

-- Connections and streams are known by handles, the numbers of their creation. `trace` is newest
-- first.
pub record HttpTransport : Type 0 where
  pub config : HttpTransportConfig
  pub running : Bool
  pub has_message_handler : Bool
  pub connections : ℕ → HttpConnection
  pub next_connection : ℕ
  pub streams : ℕ → SseConnection
  pub next_stream : ℕ
  pub sessions : Map Bytes HttpSession
  pub active_sse_connections : List ℕ
  pub active_connection_count : ℕ
  pub trace : List Event

-- The value of a header, or "" where there is none.
abbrev pub or_nil : Option Bytes → Bytes
or_nil none = []
or_nil (some value) = value

unfoldable pub header_of : Bytes → HttpConnection → Bytes
header_of name c = or_nil (find name c.reading.headers)

-- connection->enqueue_write
unfoldable pub enqueue_write : ℕ → Bytes → HttpTransport → HttpTransport
enqueue_write conn bytes t = record t { trace = enqueued conn bytes ∷ t.trace }

unfoldable pub respond :
    (conn status : ℕ) (content_type body : Bytes) → HttpTransport → HttpTransport
unfolding enqueue_write
respond conn status content_type body t =
    enqueue_write conn (build_http_response status content_type body []) t

abbrev pub set_connection : ℕ → HttpConnection → HttpTransport → HttpTransport
set_connection conn c t = record t { connections = update t.connections conn c }

-- `conn->active = false`
unfoldable pub deactivate : ℕ → HttpTransport → HttpTransport
deactivate conn t = set_connection conn (record (t.connections conn) { active = false }) t

-- The session with that id, if it still is there.
unfoldable pub at_session : (HttpSession → HttpSession) → Bytes → HttpTransport → HttpTransport
at_session f session_id t = record t { sessions = adjust f session_id t.sessions }

abbrev pub without_stream : ℕ → HttpSession → HttpSession
without_stream stream s = record s { sse_connections = remove stream s.sse_connections }

abbrev pub end_stream : ℕ → HttpTransport → HttpTransport
end_stream stream t = record t {
  streams = update t.streams stream (record (t.streams stream) { active = false });
}

unfoldable pub unregister_sse_connection : ℕ → HttpTransport → HttpTransport
unregister_sse_connection stream t =
    let t' = end_stream stream t in
    record t' { active_sse_connections = remove stream t'.active_sse_connections }

unfoldable pub on_disconnect : Cleanup → HttpTransport → HttpTransport
unfolding at_session unregister_sse_connection
on_disconnect no_cleanup t = t
on_disconnect (leave_session session_id stream) t = at_session (without_stream stream) session_id t
on_disconnect (leave_list stream) t = unregister_sse_connection stream t

unfoldable pub on_release : HttpTransport → HttpTransport
on_release t = record t { active_connection_count = t.active_connection_count - 1 }

unfoldable pub on_error : ℕ → HttpTransport → HttpTransport
unfolding deactivate on_release on_disconnect
on_error conn t =
    let c = t.connections conn in
    if c.active then on_disconnect c.on_disconnect (on_release (deactivate conn t)) else t

abbrev pub shut_socket : (conn : ℕ) → HttpTransport → HttpTransport
shut_socket conn t = record t { trace = socket_closed conn ∷ queue_shut_down conn ∷ t.trace }

-- The end of a stream's connection, outside the lock.
unfoldable pub close_stream : ℕ → HttpTransport → HttpTransport
unfolding on_error
close_stream stream t = let conn = (t.streams stream).conn in on_error conn (shut_socket conn t)

unfoldable pub close_streams : List ℕ → HttpTransport → HttpTransport
unfolding close_stream
close_streams [] t = t
close_streams (stream ∷ streams) t = close_streams streams (close_stream stream t)

unfoldable pub end_streams : List ℕ → HttpTransport → HttpTransport
end_streams [] t = t
end_streams (stream ∷ streams) t = end_streams streams (end_stream stream t)

unfoldable pub find_session : Bytes → HttpTransport → Option HttpSession
find_session session_id t = if is_nil session_id then none else find session_id t.sessions

-- `session_id` is what generate_session_id returns. The session, or none where the cap is reached.
unfoldable pub create_session :
    (session_id : Bytes) (now : ℕ) → HttpTransport → Option HttpTransport
create_session session_id now t =
    if ltb 0 t.config.max_sessions && leb t.config.max_sessions (length t.sessions)
    then none
    else some (record t {
      sessions =
          insert session_id
            (record { initialized = false; sse_connections = []; last_activity = now }) t.sessions;
    })
