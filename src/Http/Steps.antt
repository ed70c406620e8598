-- ===== src/Http/Steps.antt =====
-- src/http_transport.cpp: the handlers and the invariant on the sessions.
use cppmcp.Base.{
  ℕ, suc, ◌≤◌, ltb, leb, ◌==◌, string_eq, ◌≡◌, refl, sym, subst, ◌⊎◌, Bool, true, false, not, ◌&&◌,
  List, [], ◌∷◌, Option, none, some, if◌then◌else◌, length, arith, Bool-cases, inl, inr, OnSome,
  if-split, Option-split,
}
use cppmcp.Json.{Json, contains}
use cppmcp.Protocol.{method_initialize}
use cppmcp.Jsonrpc.{ParsedMessage, request, notification, success, failure}
use cppmcp.Jsonrpc.Parsing.{parse_message}
use cppmcp.Map.{erase}
use cppmcp.Text.{Bytes, bytes_eq, bytes_ord, is_nil}
use cppmcp.Http.Transport.{
  JsonText, HttpTransport, Cleanup, no_cleanup, leave_session, leave_list, at_session,
  create_session, find_session, on_disconnect, on_error, close_stream, close_streams, end_streams,
  end_stream, on_release, shut_socket, deactivate,
}
use cppmcp.Http.Post.{
  Handled, Sink, commit, handled_post, touch, accepted_notification, is_notification, run_post,
  post_initialize, post_in_session, session_refusal, post_message, post_parsed, method_of,
}
use cppmcp.Http.Writing.{OnlyWrites, OnlyWrites-run_calls, OnlyWrites-enqueue_write}
use cppmcp.Http.Sound.{
  SessionsOkBut, IsSound, SessionsOk-adjust, SessionsOkBut-insert, SessionsOkBut-adjust,
  SessionsOk-initialized, SessionsOk-rolled_back,
}

pub OnlyWrites-IsSound : (t t' : HttpTransport) → OnlyWrites t t' → IsSound t → IsSound t'
OnlyWrites-IsSound t t' (trace, e) ok = subst IsSound (sym e) ok

OnlyWrites-but :
    (sid : Bytes) (t t' : HttpTransport)
    → OnlyWrites t t'
    → SessionsOkBut sid t.config.max_sessions t.sessions
    → SessionsOkBut sid t'.config.max_sessions t'.sessions
OnlyWrites-but sid t t' (trace, e) ok =
    subst (λ (t : HttpTransport). SessionsOkBut sid t.config.max_sessions t.sessions) (sym e) ok

on_disconnect-IsSound : (c : Cleanup) (t : HttpTransport) → IsSound t → IsSound (on_disconnect c t)
unfolding on_disconnect
on_disconnect-IsSound no_cleanup t ok = ok
on_disconnect-IsSound (leave_session session_id stream) t ok =
    SessionsOk-adjust _ session_id _ _ (λ s h. h) ok
on_disconnect-IsSound (leave_list stream) t ok = ok

pub on_error-IsSound : (conn : ℕ) (t : HttpTransport) → IsSound t → IsSound (on_error conn t)
unfolding on_error
on_error-IsSound conn t ok = cleaned (t.connections conn).active
  where
    cleaned :
        (b : Bool)
        → IsSound (
            if b
            then on_disconnect (t.connections conn).on_disconnect (on_release (deactivate conn t))
            else t)
    cleaned true =
        on_disconnect-IsSound (t.connections conn).on_disconnect (on_release (deactivate conn t)) ok
    cleaned false = ok

close_stream-IsSound :
    (stream : ℕ) (t : HttpTransport) → IsSound t → IsSound (close_stream stream t)
unfolding close_stream
close_stream-IsSound stream t ok =
    let conn = (t.streams stream).conn in on_error-IsSound conn (shut_socket conn t) ok

pub close_streams-IsSound :
    (streams : List ℕ) (t : HttpTransport) → IsSound t → IsSound (close_streams streams t)
unfolding close_streams
close_streams-IsSound [] t ok = ok
close_streams-IsSound (stream ∷ streams) t ok =
    close_streams-IsSound streams (close_stream stream t) (close_stream-IsSound stream t ok)

pub end_streams-IsSound :
    (streams : List ℕ) (t : HttpTransport) → IsSound t → IsSound (end_streams streams t)
unfolding end_streams
end_streams-IsSound [] t ok = ok
end_streams-IsSound (stream ∷ streams) t ok = end_streams-IsSound streams (end_stream stream t) ok

module _ {V : Type 0} ⦃json : Json V⦄ (text : JsonText V) where
  commit-IsSound :
      (returned : Bool) (body : Option V) (sid : Bytes) (t : HttpTransport)
      → SessionsOkBut sid t.config.max_sessions t.sessions
      → IsSound (commit returned body sid t)
  unfolding commit
  commit-IsSound false body sid t ok = SessionsOk-rolled_back sid _ _ ok
  commit-IsSound true none sid t ok = SessionsOk-rolled_back sid _ _ ok
  commit-IsSound true (some body) sid t ok = ended (contains body "error")
    where
      ended :
          (b : Bool)
          → IsSound (
              if b
              then record t { sessions = erase sid t.sessions }
              else at_session (λ s. record s { initialized = true }) sid t)
      ended true = SessionsOk-rolled_back sid _ _ ok
      ended false = SessionsOk-initialized _ sid _ _ (λ s. refl) ok

  accepted_notification-IsSound :
      (parsed : ParsedMessage V) (returned : Bool) (conn : ℕ) (sid : Bytes) (t : HttpTransport)
      → IsSound t
      → IsSound (accepted_notification parsed returned conn sid t)
  accepted_notification-IsSound parsed returned conn sid t ok =
      elim (Bool-cases (returned && is_notification parsed)) [
        | inl answer ↦ rw answer (OnlyWrites-IsSound t _ (OnlyWrites-enqueue_write conn _ t) ok)
        | inr silent ↦ rw silent ok
      ]

  handled_post-IsSound_initialize :
      (sid : Bytes) (handled : Handled V) (conn : ℕ) (parsed : ParsedMessage V) (t : HttpTransport)
      → SessionsOkBut sid t.config.max_sessions t.sessions
      → IsSound (handled_post text true sid handled conn parsed t).0
  unfolding handled_post
  handled_post-IsSound_initialize sid handled conn parsed t ok =
      let sink : Sink V = record { conn = conn; sid = sid; first_body = none } in
      accepted_notification-IsSound parsed handled.returned conn sid _ (
        commit-IsSound handled.returned _ sid _
          (OnlyWrites-but sid t _ (OnlyWrites-run_calls text handled.calls sink t) ok))

  handled_post-IsSound :
      (sid : Bytes) (handled : Handled V) (conn : ℕ) (parsed : ParsedMessage V) (t : HttpTransport)
      → IsSound t
      → IsSound (handled_post text false sid handled conn parsed t).0
  unfolding handled_post
  handled_post-IsSound sid handled conn parsed t ok =
      let sink : Sink V = record { conn = conn; sid = sid; first_body = none } in
      accepted_notification-IsSound parsed handled.returned conn sid _
        (OnlyWrites-IsSound t _ (OnlyWrites-run_calls text handled.calls sink t) ok)

  run_post-IsSound_initialize :
      (sid : Bytes) (now : ℕ) (handler : V → Bytes → Handled V) (conn : ℕ)
      (parsed : ParsedMessage V) (message : V) (t : HttpTransport)
      → SessionsOkBut sid t.config.max_sessions t.sessions
      → IsSound (run_post text true sid now handler conn parsed message t).0
  unfolding run_post at_session
  run_post-IsSound_initialize sid now handler conn parsed message t ok =
      let touched = SessionsOkBut-adjust (touch now) sid _ t.sessions ok in
      if-split (λ (r : HttpTransport × Option (Sink V)). IsSound r.0) (not t.has_message_handler) _
        _ (λ _. SessionsOk-rolled_back sid _ _ touched)
        (λ _. handled_post-IsSound_initialize sid (handler message sid) conn parsed _ touched)

  run_post-IsSound :
      (sid : Bytes) (now : ℕ) (handler : V → Bytes → Handled V) (conn : ℕ)
      (parsed : ParsedMessage V) (message : V) (t : HttpTransport)
      → IsSound t
      → IsSound (run_post text false sid now handler conn parsed message t).0
  unfolding run_post at_session
  run_post-IsSound sid now handler conn parsed message t ok =
      let touched = SessionsOk-adjust (touch now) sid _ t.sessions (λ s h. h) ok in
      if-split (λ (r : HttpTransport × Option (Sink V)). IsSound r.0) (not t.has_message_handler) _
        _ (λ _. touched)
        (λ _.
          handled_post-IsSound sid (handler message sid) conn parsed (at_session (touch now) sid t)
            touched)

create_session-SessionsOkBut :
    (session_id : Bytes) (now : ℕ) (t t' : HttpTransport)
    → IsSound t
    → create_session session_id now t ≡ some t'
    → SessionsOkBut session_id t'.config.max_sessions t'.sessions
unfolding create_session
create_session-SessionsOkBut session_id now t t' ok =
    if-split
      (λ (o : Option HttpTransport).
        o ≡ some t' → SessionsOkBut session_id t'.config.max_sessions t'.sessions)
      (ltb 0 t.config.max_sessions && leb t.config.max_sessions (length t.sessions)) _ _
      (λ full e. absurd (ground arith))
      (λ room e.
        subst (λ (o : Option HttpTransport). ButOf o) e
          (SessionsOkBut-insert session_id _ _ t.sessions
            (room_of t.config.max_sessions (length t.sessions) room) ok))
  where
    ButOf : Option HttpTransport → Type 0
    ButOf none = Unit
    ButOf (some t) = SessionsOkBut session_id t.config.max_sessions t.sessions

    room_of : (max n : ℕ) → ltb 0 max && leb max n ≡ false → (max ≡ 0) ⊎ (suc n ≤ max)
    room_of max n h = ground arith

module _ {V : Type 0} ⦃json : Json V⦄ (text : JsonText V) where
  post_initialize-IsSound :
      (session_id : Bytes) (now : ℕ) (handler : V → Bytes → Handled V) (conn : ℕ) (sid : Bytes)
      (parsed : ParsedMessage V) (message : V) (t : HttpTransport)
      → IsSound t
      → IsSound (post_initialize text session_id now handler conn sid parsed message t).0
  unfolding post_initialize
  post_initialize-IsSound session_id now handler conn sid parsed message t ok =
      if-split (λ (r : HttpTransport × Option (Sink V)). IsSound r.0) (not (is_nil sid)) _ _
        (λ _. ok)
        (λ _.
          Option-split (λ (r : HttpTransport × Option (Sink V)). IsSound r.0)
            (create_session session_id now t) _ _ (λ _. ok)
            (λ t' e.
              run_post-IsSound_initialize text session_id now handler conn parsed message t'
                (create_session-SessionsOkBut session_id now t t' ok e)))

  pub session_refusal-IsSound :
      (conn : ℕ) (sid : Bytes) (t : HttpTransport)
      → IsSound t
      → OnSome IsSound (session_refusal text conn sid t)
  unfolding session_refusal
  session_refusal-IsSound conn sid t ok =
      if-split (OnSome IsSound) (is_nil sid) _ _ (λ _. ok)
        (λ _.
          Option-split (OnSome IsSound) (find_session sid t) _ _ (λ _. ok)
            (λ s _. if-split (OnSome IsSound) s.initialized _ _ (λ _. tt) (λ _. ok)))

  post_in_session-IsSound :
      (now : ℕ) (handler : V → Bytes → Handled V) (conn : ℕ) (sid : Bytes)
      (parsed : ParsedMessage V) (message : V) (t : HttpTransport)
      → IsSound t
      → IsSound (post_in_session text now handler conn sid parsed message t).0
  unfolding post_in_session
  post_in_session-IsSound now handler conn sid parsed message t ok =
      Option-split (λ (r : HttpTransport × Option (Sink V)). IsSound r.0)
        (session_refusal text conn sid t) _ (λ answered. (answered, none))
        (λ _. run_post-IsSound text sid now handler conn parsed message t ok)
        (λ t' e. subst (OnSome IsSound) e (session_refusal-IsSound conn sid t ok))

  pub post_message-IsSound :
      (session_id : Bytes) (now : ℕ) (handler : V → Bytes → Handled V) (conn : ℕ) (sid : Bytes)
      (message : V) (t : HttpTransport)
      → IsSound t
      → IsSound (post_message text session_id now handler conn sid message t).0
  unfolding post_message
  post_message-IsSound session_id now handler conn sid message t ok =
      parsed-IsSound (parse_message message)
    where
      valid-IsSound :
          (parsed : ParsedMessage V)
          → IsSound
              (if method_of parsed == method_initialize
                then post_initialize text session_id now handler conn sid parsed message t
                else post_in_session text now handler conn sid parsed message t).0
      valid-IsSound parsed =
          if-split (λ (r : HttpTransport × Option (Sink V)). IsSound r.0)
            (method_of parsed == method_initialize) _ _
            (λ _. post_initialize-IsSound session_id now handler conn sid parsed message t ok)
            (λ _. post_in_session-IsSound now handler conn sid parsed message t ok)

      parsed-IsSound :
          (parsed : ParsedMessage V)
          → IsSound (post_parsed text session_id now handler conn sid parsed message t).0
      parsed-IsSound (failure e) = ok
      parsed-IsSound (request req) = valid-IsSound (request req)
      parsed-IsSound (notification notif) = valid-IsSound (notification notif)
      parsed-IsSound (success resp) = valid-IsSound (success resp)
