-- ===== src/Http/Reach.antt =====
-- src/http_transport.cpp: the states that the events of a run lead to.
use cppmcp.Base.{
  ℕ, ◌≤◌, ◌≡◌, refl, sym, subst, Bool, not, List, [], ◌∷◌, Option, length, All, arith, inr, OnSome,
  if-split, Option-split,
}
use cppmcp.Json.{Json, is_array}
use cppmcp.Map.{Map, find}
use cppmcp.Text.{Bytes, codes, bytes_eq, is_nil, contains_text}
use cppmcp.Http.Connection.{Reading}
use cppmcp.Http.Transport.{
  JsonText, HttpTransport, HttpSession, header_of, find_session, on_error, set_connection,
  enqueue_write, end_streams, end_stream,
}
use cppmcp.Http.Push.{send_message, send_to_session}
use cppmcp.Http.Post.{Handled, Sink, run_sink, respond_json, session_refusal}
use cppmcp.Http.Handlers.{
  run_batch, not_json, not_acceptable, is_empty_batch, respond_batch, handle_post_batch,
  handle_post, handle_get_sse, handle_delete, end_session, handle_sse_message,
}
use cppmcp.Http.Dispatch.{
  Route, bad_host, bad_origin, options, post, get_sse, delete, sse_connect, sse_message, not_found,
  route_of, run_route, refuse, handle_request,
}
use cppmcp.Http.Lifecycle.{
  on_accept, live_sessions, idle_streams, is_idle, sweep_sessions, stop, stop_sessions,
  stop_streams, all_streams,
}
use cppmcp.Http.Writing.{
  OnlyWrites-run_batch, OnlyWrites-run_sink, OnlyWrites-send_message, OnlyWrites-send_to_session,
  OnlyWrites-run_legacy_calls,
}
use cppmcp.Http.Sound.{
  SessionsOk, IsSound, IsLive, SessionsOk-adjust, SessionsOk-erase, bound-shrinks,
}
use cppmcp.Http.Steps.{
  OnlyWrites-IsSound, on_error-IsSound, close_streams-IsSound, end_streams-IsSound,
  session_refusal-IsSound, post_message-IsSound,
}

max-end_streams :
    (streams : List ℕ) (t : HttpTransport)
    → (end_streams streams t).config.max_sessions ≡ t.config.max_sessions
unfolding end_streams
max-end_streams [] t = refl
max-end_streams (stream ∷ streams) t = max-end_streams streams (end_stream stream t)

handle_get_sse-IsSound :
    (now conn : ℕ) (t : HttpTransport) → IsSound t → IsSound (handle_get_sse now conn t)
unfolding handle_get_sse
handle_get_sse-IsSound now conn t ok =
    Option-split IsSound (find_session sid t) _ _ (λ _. ok)
      (λ s _.
        if-split IsSound
          (not (
            contains_text (codes "text/event-stream")
              (header_of (codes "accept") (t.connections conn))))
          _ _ (λ _. ok) (λ _. SessionsOk-adjust _ sid _ t.sessions (λ s' h. h) ok))
  where
    sid : Bytes
    sid = header_of (codes "mcp-session-id") (t.connections conn)

handle_delete-IsSound : (conn : ℕ) (t : HttpTransport) → IsSound t → IsSound (handle_delete conn t)
unfolding handle_delete end_session
handle_delete-IsSound conn t ok =
    Option-split IsSound (find sid t.sessions) _ _ (λ _. ok)
      (λ s _.
        if-split IsSound (is_nil sid) _ _ (λ _. ok)
          (λ _.
            close_streams-IsSound s.sse_connections _
              (SessionsOk-erase sid _ _ (end_streams-IsSound s.sse_connections t ok))))
  where
    sid : Bytes
    sid = header_of (codes "mcp-session-id") (t.connections conn)

length-live_sessions :
    (now timeout : ℕ) (m : Map Bytes HttpSession) → length (live_sessions now timeout m) ≤ length m
unfolding live_sessions
length-live_sessions now timeout [] = omega arith
length-live_sessions now timeout ((session_id, s) ∷ m) =
    ground (arith, length-live_sessions now timeout m)

All-live_sessions :
    (P : Bytes × HttpSession → Type 0) (now timeout : ℕ) (m : Map Bytes HttpSession)
    → All P m
    → All P (live_sessions now timeout m)
unfolding live_sessions
All-live_sessions P now timeout [] h = tt
All-live_sessions P now timeout ((session_id, s) ∷ m) (p, h) =
    let rest = All-live_sessions P now timeout m h in
    if-split (All P) (is_idle now timeout s) _ _ (λ _. rest) (λ _. (p, rest))

live_sessions-SessionsOk :
    (now timeout max : ℕ) (sessions : Map Bytes HttpSession)
    → SessionsOk max sessions
    → SessionsOk max (live_sessions now timeout sessions)
live_sessions-SessionsOk now timeout max sessions ok = record {
  bound =
      bound-shrinks max (length sessions) _ (length-live_sessions now timeout sessions) ok.bound;
  live = All-live_sessions IsLive now timeout sessions ok.live;
}

sweep_sessions-IsSound :
    (cancelled : Bool) (now : ℕ) (t : HttpTransport)
    → IsSound t
    → IsSound (sweep_sessions cancelled now t)
unfolding sweep_sessions
sweep_sessions-IsSound cancelled now t ok =
    let timeout = t.config.session_idle_timeout in
    let to_close = idle_streams now timeout t.sessions in
    if-split IsSound cancelled _ _ (λ _. ok)
      (λ _.
        if-split IsSound (not t.running) _ _ (λ _. ok)
          (λ _. close_streams-IsSound to_close _ (
            end_streams_live to_close (live_sessions now timeout t.sessions) t
              (live_sessions-SessionsOk now timeout _ t.sessions ok))))
  where
    end_streams_live :
        (streams : List ℕ) (sessions : Map Bytes HttpSession) (t : HttpTransport)
        → SessionsOk t.config.max_sessions sessions
        → SessionsOk (end_streams streams t).config.max_sessions sessions
    end_streams_live streams sessions t ok =
        subst (λ max. SessionsOk max sessions) (sym (max-end_streams streams t)) ok

SessionsOk-none : (max : ℕ) → SessionsOk max []
SessionsOk-none max = record { bound = inr (omega arith); live = tt }

stop-IsSound : (t : HttpTransport) → IsSound (stop t)
unfolding stop stop_sessions
stop-IsSound t =
    let closed = stop_streams t in
    let to_close = all_streams closed.sessions in
    close_streams-IsSound to_close (record (end_streams to_close closed) { sessions = [] })
      (SessionsOk-none _)

on_accept-IsSound : (t : HttpTransport) → IsSound t → IsSound (on_accept t)
unfolding on_accept
on_accept-IsSound t ok = if-split IsSound _ _ _ (λ _. ok) (λ _. ok)

module _ {V : Type 0} ⦃json : Json V⦄ (text : JsonText V) where
  respond_batch-IsSound :
      (conn : ℕ) (sid : Bytes) (responses : List V) (t : HttpTransport)
      → IsSound t
      → IsSound (respond_batch text conn sid responses t)
  unfolding enqueue_write respond_json
  respond_batch-IsSound conn sid [] t ok = ok
  respond_batch-IsSound conn sid (resp ∷ responses) t ok = ok

  handle_post_batch-IsSound :
      (handler : V → Bytes → Handled V) (conn : ℕ) (sid : Bytes) (batch : List V)
      (t : HttpTransport)
      → IsSound t
      → IsSound (handle_post_batch text handler conn sid batch t)
  unfolding handle_post_batch
  handle_post_batch-IsSound handler conn sid batch t ok =
      if-split IsSound (is_empty_batch batch) _ _ (λ _. ok)
        (λ _.
          Option-split IsSound (session_refusal text conn sid t) _ (λ answered. answered)
            (λ _.
              if-split IsSound t.has_message_handler _ _
                (λ _.
                  respond_batch-IsSound conn sid (run_batch text handler sid batch t).0 _
                    (OnlyWrites-IsSound t _ (OnlyWrites-run_batch text handler sid batch t) ok))
                (λ _. respond_batch-IsSound conn sid [] t ok))
            (λ t' e. subst (OnSome IsSound) e (session_refusal-IsSound text conn sid t ok)))

  handle_post-IsSound :
      (session_id : Bytes) (now : ℕ) (handler : V → Bytes → Handled V) (conn : ℕ)
      (t : HttpTransport)
      → IsSound t
      → IsSound (handle_post text session_id now handler conn t).0
  unfolding handle_post
  handle_post-IsSound session_id now handler conn t ok =
      if-split Ok (not_json (header_of (codes "content-type") (t.connections conn))) _ _ (λ _. ok)
        (λ _.
          if-split Ok (not_acceptable (header_of (codes "accept") (t.connections conn))) _ _
            (λ _. ok)
            (λ _.
              Option-split Ok (text.parse_text (t.connections conn).reading.current_body) _ _
                (λ _. ok)
                (λ message _.
                  if-split Ok (is_array message) _ _
                    (λ _. handle_post_batch-IsSound handler conn _ _ t ok)
                    (λ _. post_message-IsSound text session_id now handler conn _ message t ok))))
    where
      Ok : HttpTransport × Option (Sink V) → Type 0
      Ok r = IsSound r.0

  handle_sse_message-IsSound :
      (handler : V → Bytes → Handled V) (conn : ℕ) (t : HttpTransport)
      → IsSound t
      → IsSound (handle_sse_message text handler conn t)
  unfolding handle_sse_message
  handle_sse_message-IsSound handler conn t ok =
      Option-split IsSound (text.parse_text (t.connections conn).reading.current_body) _ _ (λ _. ok)
        (λ message _.
          let ran =
            OnlyWrites-IsSound t _ (OnlyWrites-run_legacy_calls text (handler message []).calls t)
              ok in
          if-split IsSound t.has_message_handler _ _
            (λ _. if-split IsSound (handler message []).returned _ _ (λ _. ran) (λ _. ran))
            (λ _. ok))

  handle_request-IsSound :
      (session_id : Bytes) (now : ℕ) (handler : V → Bytes → Handled V) (conn : ℕ)
      (t : HttpTransport)
      → IsSound t
      → IsSound (handle_request text session_id now handler conn t).0
  unfolding handle_request refuse
  handle_request-IsSound session_id now handler conn t ok =
      routed (route_of t.config (t.connections conn))
    where
      refuse-IsSound : (status : ℕ) (body : Bytes) → IsSound (refuse conn status body t)
      refuse-IsSound status body = ok

      routed : (r : Route) → IsSound (run_route text r session_id now handler conn t).0
      routed bad_host = refuse-IsSound 403 []
      routed bad_origin = refuse-IsSound 403 []
      routed options = ok
      routed post = handle_post-IsSound session_id now handler conn t ok
      routed get_sse = handle_get_sse-IsSound now conn t ok
      routed delete = handle_delete-IsSound conn t ok
      routed sse_connect = ok
      routed sse_message = handle_sse_message-IsSound handler conn t ok
      routed not_found = refuse-IsSound 404 []

  -- An event of the transport's run: a new connection, what a connection has read, a request, a response
  -- that a handler had deferred, a message of the server, the end of a connection, the timer of the
  -- sweep, and the end of the transport.
  pub data Step (t : HttpTransport) : HttpTransport → Type 0 where
    accepts : Step t (on_accept t)
    reads :
        (conn : ℕ) (reading : Reading)
        → Step t (set_connection conn (record (t.connections conn) { reading = reading }) t)
    requests :
        (session_id : Bytes) (now : ℕ) (handler : V → Bytes → Handled V) (conn : ℕ)
        → Step t (handle_request text session_id now handler conn t).0
    defers : (resp : V) (sink : Sink V) → Step t (run_sink text resp (sink, t)).1
    sends : (message : V) → Step t (send_message text message t)
    sends_to :
        (session_id : Bytes) (message : V) → Step t (send_to_session text session_id message t)
    fails : (conn : ℕ) → Step t (on_error conn t)
    sweeps : (cancelled : Bool) (now : ℕ) → Step t (sweep_sessions cancelled now t)
    stops : Step t (stop t)

  pub data Reach (start : HttpTransport) : HttpTransport → Type 0 where
    here : Reach start start
    next : {t t' : HttpTransport} → Reach start t → Step t t' → Reach start t'

  Step-IsSound : {t t' : HttpTransport} → IsSound t → Step t t' → IsSound t'
  Step-IsSound {t} ok accepts = on_accept-IsSound t ok
  Step-IsSound {t} ok (reads conn reading) = ok
  Step-IsSound {t} ok (requests session_id now handler conn) =
      handle_request-IsSound session_id now handler conn t ok
  Step-IsSound {t} ok (defers resp sink) =
      OnlyWrites-IsSound t _ (OnlyWrites-run_sink text resp sink t) ok
  Step-IsSound {t} ok (sends message) =
      OnlyWrites-IsSound t _ (OnlyWrites-send_message text message t) ok
  Step-IsSound {t} ok (sends_to session_id message) =
      OnlyWrites-IsSound t _ (OnlyWrites-send_to_session text session_id message t) ok
  Step-IsSound {t} ok (fails conn) = on_error-IsSound conn t ok
  Step-IsSound {t} ok (sweeps cancelled now) = sweep_sessions-IsSound cancelled now t ok
  Step-IsSound {t} ok stops = stop-IsSound t

  -- Whatever the connections, requests, handlers, deferred responses and sweeps are, a run from a sound
  -- state reaches only sound ones: no more sessions than max_sessions, unless that is 0, and every
  -- session in the map is initialized once a request has been handled.
  pub Reach-IsSound : {start t : HttpTransport} → IsSound start → Reach start t → IsSound t
  Reach-IsSound ok here = ok
  Reach-IsSound ok (next {t} reach step) = Step-IsSound {t = t} (Reach-IsSound ok reach) step
