-- ===== src/Http/Routing.antt =====
-- src/http_transport.cpp: which connections a message of the server is written to.
use mathlib.Core.List.{append_assoc, append-nil}
use cppmcp.Base.{
  ℕ, ◌≡◌, refl, sym, ap, ◌∙◌, inl, inr, true, false, List, [], ◌∷◌, ◌++◌, Option, none, some,
  if◌then◌else◌, arith, Bool-cases, if-split,
}
use cppmcp.Map.{find}
use cppmcp.Text.{Bytes, codes, bytes_eq}
use cppmcp.Http.Transport.{
  JsonText, HttpTransport, HttpSession, streamable_http, SseConnection, Event, enqueued,
  enqueue_write,
}
use cppmcp.Http.Push.{
  push, push_all, push_found, frame_of, by_mode, push_to_sse_connections, push_to_session_sse,
  send_to_session,
}

-- One call of enqueue with the frame for each active one of those streams, newest first.
abbrev pub frames_for : (streams : ℕ → SseConnection) (frame : Bytes) (ks : List ℕ) → List Event
frames_for streams frame [] = []
frames_for streams frame (k ∷ ks) =
    frames_for streams frame ks
    ++ (if (streams k).active then enqueued (streams k).conn frame ∷ [] else [])

abbrev pub streams_of : Option HttpSession → List ℕ
streams_of none = []
streams_of (some s) = s.sse_connections

step-active :
    (k : ℕ) (frame : Bytes) (t : HttpTransport)
    → (t.streams k).active ≡ true
    → (if (t.streams k).active then push k frame t else t)
      ≡ record t { trace = enqueued (t.streams k).conn frame ∷ t.trace }
unfolding push enqueue_write
step-active k frame t active =
    let pushed : HttpTransport = record t { trace = enqueued (t.streams k).conn frame ∷ t.trace } in
    let b = (t.streams k).active in
    if-split (λ r. r ≡ pushed) b (push k frame t) t
      (λ _.
        if-split (λ r. r ≡ pushed) b pushed t (λ _. refl)
          (λ idle. absurd (ground (arith, idle, active))))
      (λ idle. absurd (ground (arith, idle, active)))

step-idle :
    (k : ℕ) (frame : Bytes) (t : HttpTransport)
    → (t.streams k).active ≡ false
    → (if (t.streams k).active then push k frame t else t) ≡ t
step-idle k frame t idle =
    if-split (λ r. r ≡ t) (t.streams k).active (push k frame t) t
      (λ active. absurd (ground (arith, idle, active))) (λ _. refl)

push_all-frames :
    (ks : List ℕ) (frame : Bytes) (t : HttpTransport)
    → push_all ks frame t ≡ record t { trace = frames_for t.streams frame ks ++ t.trace }
unfolding push_all
push_all-frames [] frame t = refl
push_all-frames (k ∷ ks) frame t = elim (Bool-cases (t.streams k).active) [
  | inr idle ↦
      ap (push_all ks frame) (step-idle k frame t idle)
      ∙ push_all-frames ks frame t
      ∙ rw (idle, append-nil) refl
  | inl active ↦
      let event = enqueued (t.streams k).conn frame in
      ap (push_all ks frame) (step-active k frame t active)
      ∙ push_all-frames ks frame (record t { trace = event ∷ t.trace })
      ∙ ap (λ trace. record t { trace = trace })
          (rw active (sym (append_assoc (frames_for t.streams frame ks) (event ∷ []) t.trace)))
]

push_found-frames :
    (found : Option HttpSession) (frame : Bytes) (t : HttpTransport)
    → push_found found frame t
      ≡ record t { trace = frames_for t.streams frame (streams_of found) ++ t.trace }
unfolding push_found
push_found-frames none frame t = refl
push_found-frames (some s) frame t = push_all-frames s.sse_connections frame t

-- A message for a session, in the Streamable HTTP mode: enqueue is called with the frame once for each
-- active stream of that session, in their order and on the queue of the stream's connection. It is
-- called for no other connection, and for none where there is no such session; apart from what the
-- queues do with the frame, nothing else changes.
pub send_to_session-frames :
    {V : Type 0} (text : JsonText V) (session_id : Bytes) (message : V) (t : HttpTransport)
    → t.config.mode ≡ streamable_http
    → send_to_session text session_id message t ≡ record t {
      trace =
          frames_for t.streams
            (codes "data: " ++ (text.dump message ++ (10 ∷ 10 ∷ [])))
            (streams_of (find session_id t.sessions))
          ++ t.trace;
    }
unfolding send_to_session push_to_session_sse
send_to_session-frames text session_id message t mode =
    ap
      (λ m.
        by_mode m (push_to_sse_connections text message t)
          (push_to_session_sse text session_id message t))
      mode
    ∙ push_found-frames (find session_id t.sessions) (frame_of text message) t
