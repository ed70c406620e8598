-- ===== src/Http/Push.antt =====
-- src/http_transport.cpp: the messages of the server for the SSE streams.
use cppmcp.Base.{ℕ, List, [], ◌∷◌, ◌++◌, Option, none, some, if◌then◌else◌}
use cppmcp.Map.{Map, find}
use cppmcp.Text.{Bytes, codes, bytes_eq}
use cppmcp.Http.Transport.{
  JsonText, HttpTransport, HttpSession, HttpTransportMode, sse, streamable_http, enqueue_write,
}

-- SseConnection::push
unfoldable pub push : (stream : ℕ) (frame : Bytes) → HttpTransport → HttpTransport
unfolding enqueue_write
push stream frame t =
    if (t.streams stream).active then enqueue_write (t.streams stream).conn frame t else t

-- `for (auto& sc : streams) if (sc->active.load()) sc->push(frame);`
unfoldable pub push_all : List ℕ → Bytes → HttpTransport → HttpTransport
unfolding push
push_all [] frame t = t
push_all (stream ∷ streams) frame t =
    push_all streams frame (if (t.streams stream).active then push stream frame t else t)

unfoldable pub push_sessions : Map Bytes HttpSession → Bytes → HttpTransport → HttpTransport
unfolding push_all
push_sessions [] frame t = t
push_sessions ((session_id, s) ∷ sessions) frame t =
    push_sessions sessions frame (push_all s.sse_connections frame t)

unfoldable pub push_found : Option HttpSession → Bytes → HttpTransport → HttpTransport
unfolding push_all
push_found none frame t = t
push_found (some s) frame t = push_all s.sse_connections frame t

abbrev pub by_mode : HttpTransportMode → HttpTransport → HttpTransport → HttpTransport
by_mode sse legacy modern = legacy
by_mode streamable_http legacy modern = modern

module _ {V : Type 0} (text : JsonText V) where
  abbrev pub frame_of : V → Bytes
  frame_of message = codes "data: " ++ (text.dump message ++ 10 ∷ 10 ∷ [])

  unfoldable pub push_to_sse_connections : V → HttpTransport → HttpTransport
  unfolding push_all
  push_to_sse_connections message t = push_all t.active_sse_connections (frame_of message) t

  unfoldable pub push_to_session_sse : Bytes → V → HttpTransport → HttpTransport
  unfolding push_found
  push_to_session_sse session_id message t =
      push_found (find session_id t.sessions) (frame_of message) t

  unfoldable pub push_to_all_sessions : V → HttpTransport → HttpTransport
  unfolding push_sessions
  push_to_all_sessions message t = push_sessions t.sessions (frame_of message) t

  unfoldable pub send_message : V → HttpTransport → HttpTransport
  unfolding push_to_sse_connections push_to_all_sessions
  send_message message t =
      by_mode t.config.mode (push_to_sse_connections message t) (push_to_all_sessions message t)

  unfoldable pub send_to_session : Bytes → V → HttpTransport → HttpTransport
  unfolding push_to_sse_connections push_to_session_sse
  send_to_session session_id message t =
      by_mode t.config.mode (push_to_sse_connections message t)
        (push_to_session_sse session_id message t)
