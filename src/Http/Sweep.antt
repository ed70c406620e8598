-- ===== src/Http/Sweep.antt =====
-- src/http_transport.cpp: what the sweep leaves of sessions and streams.
use cppmcp.Base.{
  ℕ, ◌-◌, ◌/◌, ltb, ◌==◌, nat_eq, ◌≡◌, refl, sym, subst, ◌∙◌, true, false, not, List, [], ◌∷◌, some,
  All, arith, Bool-cases, inl, inr, is_some, if-split,
}
use cppmcp.Map.{Map, find, find-adjust, All-adjust_kept}
use cppmcp.Text.{Bytes, bytes_eq, bytes_ord}
use cppmcp.Http.Transport.{
  HttpTransport, HttpSession, Cleanup, no_cleanup, leave_session, leave_list, at_session,
  unregister_sse_connection, without_stream, on_disconnect, on_error, on_release, deactivate,
  shut_socket, close_stream, close_streams, end_stream, end_streams,
}
use cppmcp.Http.Lifecycle.{live_sessions, idle_streams, is_idle, sweep_sessions}
use cppmcp.Http.Endings.{
  IsKept, on_error-kept, close_streams-kept, end_streams-All, close_streams-All, All-both, All-left,
  All-right,
}

abbrev pub AllFresh : (now timeout : ℕ) → Map Bytes HttpSession → Type 0
AllFresh now timeout m =
    All
      (λ (entry : Bytes × HttpSession).
        ltb timeout ((now - entry.1.last_activity) / 1000000) ≡ false)
      m

All-live_sessions :
    (now timeout : ℕ) (m : Map Bytes HttpSession)
    → AllFresh now timeout (live_sessions now timeout m)
unfolding live_sessions
All-live_sessions now timeout [] = tt
All-live_sessions now timeout ((sid, s) ∷ m) = elim (Bool-cases (is_idle now timeout s)) [
  | inl idle ↦ rw idle (All-live_sessions now timeout m)
  | inr fresh ↦ rw fresh (fresh, All-live_sessions now timeout m)
]

IsFresh-on_disconnect :
    (now timeout : ℕ) (c : Cleanup) (t : HttpTransport)
    → AllFresh now timeout t.sessions
    → AllFresh now timeout (on_disconnect c t).sessions
unfolding on_disconnect at_session unregister_sse_connection
IsFresh-on_disconnect now timeout no_cleanup t h = h
IsFresh-on_disconnect now timeout (leave_session sid stream) t h =
    All-adjust_kept _ (without_stream stream) sid t.sessions (λ j s fresh. fresh) h
IsFresh-on_disconnect now timeout (leave_list stream) t h = h

fresh-kept : (now timeout : ℕ) → IsKept (λ t. AllFresh now timeout t.sessions)
unfolding on_release deactivate
fresh-kept now timeout = record {
  writes = λ conn t h. h;
  fails = λ conn t h. h;
  cleans = IsFresh-on_disconnect now timeout;
}

-- There is a session with that id.
abbrev pub Has : Bytes → HttpTransport → Type 0
Has sid t = is_some (find sid t.sessions) ≡ true

Has-on_disconnect :
    (sid : Bytes) (c : Cleanup) (t : HttpTransport) → Has sid t → Has sid (on_disconnect c t)
unfolding on_disconnect at_session unregister_sse_connection
Has-on_disconnect sid no_cleanup t h = h
Has-on_disconnect sid (leave_session session_id stream) t h =
    subst (λ o. is_some o ≡ true)
      (sym (find-adjust (without_stream stream) session_id sid t.sessions)) (ground (arith, h))
Has-on_disconnect sid (leave_list stream) t h = h

Has-kept : (sid : Bytes) → IsKept (Has sid)
unfolding on_release deactivate
Has-kept sid = record {
  writes = λ conn t h. h;
  fails = λ conn t h. h;
  cleans = Has-on_disconnect sid;
}

find-live_sessions :
    (now timeout : ℕ) (sid : Bytes) (s : HttpSession) (m : Map Bytes HttpSession)
    → find sid m ≡ some s
    → is_idle now timeout s ≡ false
    → is_some (find sid (live_sessions now timeout m)) ≡ true
unfolding find live_sessions
find-live_sessions now timeout sid s [] found fresh = absurd (ground arith)
find-live_sessions now timeout sid s ((j, s') ∷ m) found fresh = elim (Bool-cases (j == sid)) [
  | inl same ↦ ground (arith, same, found, fresh)
  | inr other ↦ ground (arith, other, find-live_sessions now timeout sid s m)
]

-- The state of a sweep before it closes the streams.
abbrev pub swept : (now : ℕ) → HttpTransport → HttpTransport
swept now t =
    let timeout = t.config.session_idle_timeout in
    record (end_streams (idle_streams now timeout t.sessions) t) {
      sessions = live_sessions now timeout t.sessions;
    }

sweep_sessions-runs :
    (now : ℕ) (t : HttpTransport)
    → t.running ≡ true
    → sweep_sessions false now t
      ≡ close_streams (idle_streams now t.config.session_idle_timeout t.sessions) (swept now t)
unfolding sweep_sessions
sweep_sessions-runs now t running =
    if-split
      (λ r.
        r ≡ close_streams (idle_streams now t.config.session_idle_timeout t.sessions) (swept now t))
      (not t.running) t
      (close_streams (idle_streams now t.config.session_idle_timeout t.sessions) (swept now t))
      (λ stopped. absurd (ground (arith, running, stopped))) (λ _. refl)

All-idle_streams :
    (P : ℕ → Type 0) (now timeout : ℕ) (sid : Bytes) (s : HttpSession) (m : Map Bytes HttpSession)
    → find sid m ≡ some s
    → is_idle now timeout s ≡ true
    → All P (idle_streams now timeout m)
    → All P s.sse_connections
unfolding find idle_streams
All-idle_streams P now timeout sid s [] found idle h = absurd (ground arith)
All-idle_streams P now timeout sid s ((j, s') ∷ m) found idle h = elim (Bool-cases (j == sid)) [
  | inl same ↦
      let e : s' ≡ s = ground (arith, same, found) in
      All-left P s.sse_connections (idle_streams now timeout m)
        (subst (All P) (rw (e, idle) refl) h)
  | inr other ↦
      let found' : find sid m ≡ some s = ground (arith, other, found) in
      All-idle_streams P now timeout sid s m found' idle
        (elim (Bool-cases (is_idle now timeout s')) [
          | inl idle' ↦
              All-right P s'.sse_connections (idle_streams now timeout m)
                (subst (All P) (rw idle' refl) h)
          | inr fresh ↦ subst (All P) (rw fresh refl) h
        ])
]

-- The connection of a stream never changes.
conn-on_disconnect :
    (k conn : ℕ) (c : Cleanup) (t : HttpTransport)
    → (t.streams k).conn ≡ conn
    → ((on_disconnect c t).streams k).conn ≡ conn
unfolding on_disconnect at_session unregister_sse_connection
conn-on_disconnect k conn no_cleanup t h = h
conn-on_disconnect k conn (leave_session session_id stream) t h = h
conn-on_disconnect k conn (leave_list stream) t h = ground (arith, h)

conn-kept : (k conn : ℕ) → IsKept (λ t. (t.streams k).conn ≡ conn)
unfolding on_release deactivate
conn-kept k conn = record {
  writes = λ conn' t h. h;
  fails = λ conn' t h. h;
  cleans = λ c t h. conn-on_disconnect k conn c t h;
}

inactive-on_disconnect :
    (conn : ℕ) (c : Cleanup) (t : HttpTransport)
    → (t.connections conn).active ≡ false
    → ((on_disconnect c t).connections conn).active ≡ false
unfolding on_disconnect at_session unregister_sse_connection
inactive-on_disconnect conn no_cleanup t h = h
inactive-on_disconnect conn (leave_session session_id stream) t h = h
inactive-on_disconnect conn (leave_list stream) t h = h

inactive-kept : (conn : ℕ) → IsKept (λ t. (t.connections conn).active ≡ false)
unfolding on_release deactivate
inactive-kept conn = record {
  writes = λ conn' t h. h;
  fails = λ conn' t h. ground (arith, h);
  cleans = λ c t h. inactive-on_disconnect conn c t h;
}

on_error-deactivates :
    (conn : ℕ) (t : HttpTransport) → ((on_error conn t).connections conn).active ≡ false
unfolding on_error on_release deactivate
on_error-deactivates conn t =
    if-split (λ (r : HttpTransport). (r.connections conn).active ≡ false)
      (t.connections conn).active
      (on_disconnect (t.connections conn).on_disconnect (on_release (deactivate conn t))) t
      (λ _. inactive-on_disconnect conn _ (on_release (deactivate conn t)) (ground arith))
      (λ idle. idle)

close_streams-deactivates :
    (conns : ℕ → ℕ) (streams : List ℕ) (t : HttpTransport)
    → ((k : ℕ) → (t.streams k).conn ≡ conns k)
    → All (λ k. ((close_streams streams t).connections (conns k)).active ≡ false) streams
unfolding close_streams close_stream
close_streams-deactivates conns [] t same = tt
close_streams-deactivates conns (stream ∷ streams) t same =
    let conn = (t.streams stream).conn in
    let t' = on_error conn (shut_socket conn t) in
    (
      close_streams-kept _ (inactive-kept (conns stream)) streams t' (
          subst (λ c. (t'.connections c).active ≡ false) (same stream)
            (on_error-deactivates conn (shut_socket conn t))),
      close_streams-deactivates conns streams t'
          (λ k. on_error-kept _ (conn-kept k (conns k)) conn (shut_socket conn t) (same k)),
    )

conn-end_streams :
    (streams : List ℕ) (k : ℕ) (t : HttpTransport)
    → ((end_streams streams t).streams k).conn ≡ (t.streams k).conn
unfolding end_streams
conn-end_streams [] k t = refl
conn-end_streams (stream ∷ streams) k t =
    conn-end_streams streams k (end_stream stream t) ∙ ground arith

-- A sweep of a running transport leaves no session that has been idle for longer than the timeout. Each
-- stream of a session that was idle for so long takes no more messages, and its connection is no
-- longer active.
pub sweep_sessions-reaps :
    (now : ℕ) (sid : Bytes) (s : HttpSession) (t : HttpTransport)
    → t.running ≡ true
    → find sid t.sessions ≡ some s
    → ltb t.config.session_idle_timeout ((now - s.last_activity) / 1000000) ≡ true
    → AllFresh now t.config.session_idle_timeout (sweep_sessions false now t).sessions
      × All
          (λ k.
            (((sweep_sessions false now t).streams k).active ≡ false)
            × (((sweep_sessions false now t).connections (t.streams k).conn).active ≡ false))
          s.sse_connections
sweep_sessions-reaps now sid s t running found idle_long =
    let timeout = t.config.session_idle_timeout in
    let idle = idle_streams now timeout t.sessions in
    let conns : ℕ → ℕ = λ k. (t.streams k).conn in
    rw (sweep_sessions-runs now t running) (
      close_streams-kept (λ t. AllFresh now timeout t.sessions) (fresh-kept now timeout) idle
          (swept now t) (All-live_sessions now timeout t.sessions),
      All-idle_streams _ now timeout sid s t.sessions found idle_long (
          All-both _ _ idle (close_streams-All idle idle (swept now t) (end_streams-All idle t))
            (close_streams-deactivates conns idle (swept now t) (λ k. conn-end_streams idle k t))),
    )

-- A sweep keeps every session that has not been idle for longer than the timeout.
pub sweep_sessions-keeps :
    (now : ℕ) (sid : Bytes) (s : HttpSession) (t : HttpTransport)
    → t.running ≡ true
    → find sid t.sessions ≡ some s
    → is_idle now t.config.session_idle_timeout s ≡ false
    → Has sid (sweep_sessions false now t)
sweep_sessions-keeps now sid s t running found fresh =
    let timeout = t.config.session_idle_timeout in
    let idle = idle_streams now timeout t.sessions in
    rw (sweep_sessions-runs now t running) (
      close_streams-kept (Has sid) (Has-kept sid) idle (swept now t)
        (find-live_sessions now timeout sid s t.sessions found fresh))
