-- ===== src/Http/Writing.antt =====
-- src/http_transport.cpp: the operations that only write to connections.
use cppmcp.Base.{
  ℕ, ◌≡◌, refl, ap, ◌∙◌, Bool, true, false, List, [], ◌∷◌, Option, none, some, if◌then◌else◌,
  Option-cases, inl, inr,
}
use cppmcp.Map.{Map, find}
use cppmcp.Text.{Bytes, bytes_eq}
use cppmcp.Http.Transport.{
  JsonText, HttpTransport, HttpSession, HttpTransportMode, sse, streamable_http, Event,
  enqueue_write, respond,
}
use cppmcp.Http.Push.{
  push, push_all, push_sessions, frame_of, by_mode, push_found, push_to_sse_connections,
  push_to_session_sse, push_to_all_sessions, send_message, send_to_session,
}
use cppmcp.Http.Post.{
  HandlerCall, to_sink, to_all, to_session, Handled, Sink, run_sink, run_call, run_calls,
  run_sub_call, run_sub_calls,
}
use cppmcp.Http.Handlers.{run_batch, run_legacy_calls}

-- `t'` is `t` but for the trace.
abbrev pub OnlyWrites : HttpTransport → HttpTransport → Type 0
OnlyWrites t t' = (trace : List Event) × (t' ≡ record t { trace = trace })

pub OnlyWrites-refl : (t : HttpTransport) → OnlyWrites t t
OnlyWrites-refl t = (t.trace, refl)

pub OnlyWrites-trans :
    (t t' t'' : HttpTransport) → OnlyWrites t t' → OnlyWrites t' t'' → OnlyWrites t t''
OnlyWrites-trans t t' t'' (trace, e) (trace', e') =
    (trace', e' ∙ ap (λ (s : HttpTransport). record s { trace = trace' }) e)

pub OnlyWrites-enqueue_write :
    (conn : ℕ) (bytes : Bytes) (t : HttpTransport) → OnlyWrites t (enqueue_write conn bytes t)
unfolding enqueue_write
OnlyWrites-enqueue_write conn bytes t = (_, refl)

pub OnlyWrites-respond :
    (conn status : ℕ) (content_type body : Bytes) (t : HttpTransport)
    → OnlyWrites t (respond conn status content_type body t)
unfolding respond
OnlyWrites-respond conn status content_type body t = (_, refl)

OnlyWrites-if :
    (b : Bool) (t t' : HttpTransport) → OnlyWrites t t' → OnlyWrites t (if b then t' else t)
OnlyWrites-if true t t' w = w
OnlyWrites-if false t t' w = OnlyWrites-refl t

OnlyWrites-push :
    (stream : ℕ) (frame : Bytes) (t : HttpTransport) → OnlyWrites t (push stream frame t)
unfolding push
OnlyWrites-push stream frame t =
    OnlyWrites-if _ t _ (OnlyWrites-enqueue_write (t.streams stream).conn frame t)

pub OnlyWrites-push_all :
    (streams : List ℕ) (frame : Bytes) (t : HttpTransport) → OnlyWrites t (push_all streams frame t)
unfolding push_all
OnlyWrites-push_all [] frame t = OnlyWrites-refl t
OnlyWrites-push_all (stream ∷ streams) frame t =
    OnlyWrites-trans t _ _
      (OnlyWrites-if (t.streams stream).active t _ (OnlyWrites-push stream frame t))
      (OnlyWrites-push_all streams frame _)

OnlyWrites-push_sessions :
    (sessions : Map Bytes HttpSession) (frame : Bytes) (t : HttpTransport)
    → OnlyWrites t (push_sessions sessions frame t)
unfolding push_sessions
OnlyWrites-push_sessions [] frame t = OnlyWrites-refl t
OnlyWrites-push_sessions ((session_id, s) ∷ sessions) frame t =
    OnlyWrites-trans t _ _ (OnlyWrites-push_all s.sse_connections frame t)
      (OnlyWrites-push_sessions sessions frame _)

OnlyWrites-push_found :
    (found : Option HttpSession) (frame : Bytes) (t : HttpTransport)
    → OnlyWrites t (push_found found frame t)
unfolding push_found
OnlyWrites-push_found none frame t = OnlyWrites-refl t
OnlyWrites-push_found (some s) frame t = OnlyWrites-push_all s.sse_connections frame t

OnlyWrites-by_mode :
    (mode : HttpTransportMode) (t legacy modern : HttpTransport)
    → OnlyWrites t legacy
    → OnlyWrites t modern
    → OnlyWrites t (by_mode mode legacy modern)
OnlyWrites-by_mode sse t legacy modern w w' = w
OnlyWrites-by_mode streamable_http t legacy modern w w' = w'

module _ {V : Type 0} (text : JsonText V) where
  OnlyWrites-push_to_session_sse :
      (sid : Bytes) (message : V) (t : HttpTransport)
      → OnlyWrites t (push_to_session_sse text sid message t)
  unfolding push_to_session_sse
  OnlyWrites-push_to_session_sse sid message t = OnlyWrites-push_found (find sid t.sessions) _ t

  pub OnlyWrites-send_message :
      (message : V) (t : HttpTransport) → OnlyWrites t (send_message text message t)
  unfolding send_message push_to_sse_connections push_to_all_sessions
  OnlyWrites-send_message message t =
      OnlyWrites-by_mode t.config.mode t _ _ (OnlyWrites-push_all t.active_sse_connections _ t)
        (OnlyWrites-push_sessions t.sessions _ t)

  pub OnlyWrites-send_to_session :
      (sid : Bytes) (message : V) (t : HttpTransport)
      → OnlyWrites t (send_to_session text sid message t)
  unfolding send_to_session push_to_sse_connections
  OnlyWrites-send_to_session sid message t =
      OnlyWrites-by_mode t.config.mode t _ _ (OnlyWrites-push_all t.active_sse_connections _ t)
        (OnlyWrites-push_to_session_sse sid message t)

  pub OnlyWrites-run_sink :
      (resp : V) (sink : Sink V) (t : HttpTransport) → OnlyWrites t (run_sink text resp (sink, t)).1
  unfolding run_sink
  OnlyWrites-run_sink resp sink t = elim (Option-cases sink.first_body) [
    | inl e ↦ rw e (OnlyWrites-enqueue_write sink.conn _ t)
    | inr (body, e) ↦ rw e (OnlyWrites-send_to_session sink.sid resp t)
  ]

  OnlyWrites-run_call :
      (call : HandlerCall V) (sink : Sink V) (t : HttpTransport)
      → OnlyWrites t (run_call text call (sink, t)).1
  unfolding run_call
  OnlyWrites-run_call (to_sink resp) sink t = OnlyWrites-run_sink resp sink t
  OnlyWrites-run_call (to_all message) sink t = OnlyWrites-send_message message t
  OnlyWrites-run_call (to_session sid message) sink t = OnlyWrites-send_to_session sid message t

  pub OnlyWrites-run_calls :
      (calls : List (HandlerCall V)) (sink : Sink V) (t : HttpTransport)
      → OnlyWrites t (run_calls text calls (sink, t)).1
  unfolding run_calls
  OnlyWrites-run_calls [] sink t = OnlyWrites-refl t
  OnlyWrites-run_calls (call ∷ calls) sink t =
      OnlyWrites-trans t _ _ (OnlyWrites-run_call call sink t) (
        OnlyWrites-run_calls calls (run_call text call (sink, t)).0
          (run_call text call (sink, t)).1)

  OnlyWrites-run_sub_call :
      (call : HandlerCall V) (body : Option V) (t : HttpTransport)
      → OnlyWrites t (run_sub_call text call (body, t)).1
  unfolding run_sub_call
  OnlyWrites-run_sub_call (to_sink resp) none t = OnlyWrites-refl t
  OnlyWrites-run_sub_call (to_sink resp) (some body) t = OnlyWrites-refl t
  OnlyWrites-run_sub_call (to_all message) body t = OnlyWrites-send_message message t
  OnlyWrites-run_sub_call (to_session sid message) body t = OnlyWrites-send_to_session sid message t

  pub OnlyWrites-run_sub_calls :
      (calls : List (HandlerCall V)) (body : Option V) (t : HttpTransport)
      → OnlyWrites t (run_sub_calls text calls (body, t)).1
  unfolding run_sub_calls
  OnlyWrites-run_sub_calls [] body t = OnlyWrites-refl t
  OnlyWrites-run_sub_calls (call ∷ calls) body t =
      OnlyWrites-trans t _ _ (OnlyWrites-run_sub_call call body t) (
        OnlyWrites-run_sub_calls calls (run_sub_call text call (body, t)).0
          (run_sub_call text call (body, t)).1)

  pub OnlyWrites-run_legacy_calls :
      (calls : List (HandlerCall V)) (t : HttpTransport)
      → OnlyWrites t (run_legacy_calls text calls t)
  unfolding run_legacy_calls
  OnlyWrites-run_legacy_calls [] t = OnlyWrites-refl t
  OnlyWrites-run_legacy_calls (to_sink resp ∷ calls) t =
      OnlyWrites-trans t _ _ (OnlyWrites-push_all t.active_sse_connections (frame_of text resp) t)
        (OnlyWrites-run_legacy_calls calls (push_to_sse_connections text resp t))
  OnlyWrites-run_legacy_calls (to_all message ∷ calls) t =
      OnlyWrites-trans t _ _ (OnlyWrites-send_message message t)
        (OnlyWrites-run_legacy_calls calls _)
  OnlyWrites-run_legacy_calls (to_session sid message ∷ calls) t =
      OnlyWrites-trans t _ _ (OnlyWrites-send_to_session sid message t)
        (OnlyWrites-run_legacy_calls calls _)

  pub OnlyWrites-run_batch :
      (handler : V → Bytes → Handled V) (sid : Bytes) (batch : List V) (t : HttpTransport)
      → OnlyWrites t (run_batch text handler sid batch t).1
  unfolding run_batch
  OnlyWrites-run_batch handler sid [] t = OnlyWrites-refl t
  OnlyWrites-run_batch handler sid (elem ∷ batch) t =
      OnlyWrites-trans t _ _ (OnlyWrites-run_sub_calls (handler elem sid).calls none t)
        (OnlyWrites-run_batch handler sid batch _)
