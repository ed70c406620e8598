-- ===== src/Http/Endings.antt =====
-- src/http_transport.cpp: the end of streams, and DELETE.
use cppmcp.Base.{
  ℕ, ◌++◌, nat_eq, ◌≡◌, refl, ◌∙◌, Bool, false, List, [], ◌∷◌, Option, none, some, if◌then◌else◌,
  All, arith, if-split,
}
use cppmcp.Map.{find, erase, find-adjust, find-erase-same}
use cppmcp.Text.{Bytes, codes, bytes_eq, bytes_ord, is_nil}
use cppmcp.Http.Transport.{
  HttpTransport, HttpSession, Cleanup, no_cleanup, leave_session, leave_list, at_session,
  unregister_sse_connection, without_stream, on_disconnect, on_error, on_release, deactivate,
  shut_socket, close_stream, close_streams, end_stream, end_streams, respond,
}
use cppmcp.Http.Handlers.{handle_delete, end_session, named_session}

-- What a property of the transport needs for the closing of streams to keep it.
pub record IsKept (P : HttpTransport → Type 0) : Type 0 where
  pub writes : (conn : ℕ) (t : HttpTransport) → P t → P (shut_socket conn t)
  pub fails : (conn : ℕ) (t : HttpTransport) → P t → P (on_release (deactivate conn t))
  pub cleans : (c : Cleanup) (t : HttpTransport) → P t → P (on_disconnect c t)

pub on_error-kept :
    (P : HttpTransport → Type 0)
    → IsKept P
    → (conn : ℕ) (t : HttpTransport) → P t
    → P (on_error conn t)
unfolding on_error
on_error-kept P kept conn t h =
    if-split P (t.connections conn).active
      (on_disconnect (t.connections conn).on_disconnect (on_release (deactivate conn t))) t
      (λ _. kept.cleans _ _ (kept.fails conn t h)) (λ _. h)

pub close_streams-kept :
    (P : HttpTransport → Type 0)
    → IsKept P
    → (streams : List ℕ) (t : HttpTransport) → P t
    → P (close_streams streams t)
unfolding close_streams close_stream
close_streams-kept P kept [] t h = h
close_streams-kept P kept (stream ∷ streams) t h =
    let conn = (t.streams stream).conn in
    close_streams-kept P kept streams _
      (on_error-kept P kept conn (shut_socket conn t) (kept.writes conn t h))

-- The stream takes no more messages.
abbrev pub IsEnded : HttpTransport → ℕ → Type 0
IsEnded t stream = (t.streams stream).active ≡ false

IsEnded-end_stream :
    (stream k : ℕ) (t : HttpTransport) → IsEnded t k → IsEnded (end_stream stream t) k
IsEnded-end_stream stream k t h = ground (arith, h)

IsEnded-on_disconnect :
    (k : ℕ) (c : Cleanup) (t : HttpTransport) → IsEnded t k → IsEnded (on_disconnect c t) k
unfolding on_disconnect
IsEnded-on_disconnect k no_cleanup t h = h
IsEnded-on_disconnect k (leave_session session_id stream) t h = h
IsEnded-on_disconnect k (leave_list stream) t h = IsEnded-end_stream stream k t h

IsEnded-kept : (k : ℕ) → IsKept (λ t. IsEnded t k)
unfolding on_release deactivate
IsEnded-kept k = record {
  writes = λ conn t h. h;
  fails = λ conn t h. h;
  cleans = λ c t h. IsEnded-on_disconnect k c t h;
}

IsEnded-end_streams :
    (streams : List ℕ) (k : ℕ) (t : HttpTransport) → IsEnded t k → IsEnded (end_streams streams t) k
unfolding end_streams
IsEnded-end_streams [] k t h = h
IsEnded-end_streams (stream ∷ streams) k t h =
    IsEnded-end_streams streams k (end_stream stream t) (IsEnded-end_stream stream k t h)

pub end_streams-All :
    (streams : List ℕ) (t : HttpTransport) → All (IsEnded (end_streams streams t)) streams
unfolding end_streams
end_streams-All [] t = tt
end_streams-All (stream ∷ streams) t = (
  IsEnded-end_streams streams stream (end_stream stream t) (ground arith),
  end_streams-All streams (end_stream stream t),
)

All-map : (P Q : ℕ → Type 0) (ks : List ℕ) → ((k : ℕ) → P k → Q k) → All P ks → All Q ks
All-map P Q [] f h = tt
All-map P Q (k ∷ ks) f (p, h) = (f k p, All-map P Q ks f h)

pub All-both : (P Q : ℕ → Type 0) (ks : List ℕ) → All P ks → All Q ks → All (λ k. P k × Q k) ks
All-both P Q [] h h' = tt
All-both P Q (k ∷ ks) (p, h) (q, h') = ((p, q), All-both P Q ks h h')

pub All-left : (P : ℕ → Type 0) (xs ys : List ℕ) → All P (xs ++ ys) → All P xs
All-left P [] ys h = tt
All-left P (x ∷ xs) ys (p, h) = (p, All-left P xs ys h)

pub All-right : (P : ℕ → Type 0) (xs ys : List ℕ) → All P (xs ++ ys) → All P ys
All-right P [] ys h = h
All-right P (x ∷ xs) ys (p, h) = All-right P xs ys h

-- Streams that have ended stay so when they are closed.
pub close_streams-All :
    (streams ended : List ℕ) (t : HttpTransport)
    → All (IsEnded t) ended
    → All (IsEnded (close_streams streams t)) ended
close_streams-All streams ended t h =
    All-map _ _ ended (λ k. close_streams-kept (λ t. IsEnded t k) (IsEnded-kept k) streams t) h

absent-on_disconnect :
    (sid : Bytes) (c : Cleanup) (t : HttpTransport)
    → find sid t.sessions ≡ none
    → find sid (on_disconnect c t).sessions ≡ none
unfolding on_disconnect at_session unregister_sse_connection
absent-on_disconnect sid no_cleanup t h = h
absent-on_disconnect sid (leave_session session_id stream) t h =
    find-adjust (without_stream stream) session_id sid t.sessions ∙ rw h (ground arith)
absent-on_disconnect sid (leave_list stream) t h = h

absent-kept : (sid : Bytes) → IsKept (λ t. find sid t.sessions ≡ none)
unfolding on_release deactivate
absent-kept sid = record {
  writes = λ conn t h. h;
  fails = λ conn t h. h;
  cleans = λ c t h. absent-on_disconnect sid c t h;
}

end_session-ends :
    (sid : Bytes) (sse_connections : List ℕ) (t : HttpTransport)
    → (find sid (end_session sid sse_connections t).sessions ≡ none)
      × All (IsEnded (end_session sid sse_connections t)) sse_connections
unfolding end_session
end_session-ends sid sse_connections t =
    let ended = end_streams sse_connections t in
    let gone = record ended { sessions = erase sid ended.sessions } in
    (
      close_streams-kept (λ t. find sid t.sessions ≡ none) (absent-kept sid) sse_connections gone
          (find-erase-same sid ended.sessions),
      close_streams-All sse_connections sse_connections gone (end_streams-All sse_connections t),
    )

choose :
    {A B : Type 0} (o : Option A) (b : Bool) (x : B) (f : A → B) (a : A)
    → o ≡ some a
    → b ≡ false
    → elim o [ none ↦ x | some s ↦ if b then x else f s ] ≡ f a
choose o b x f a e h = rw (e, h) refl

-- A DELETE that names a session: the session is gone, none of its streams takes another message, and
-- the answer is 200.
pub handle_delete-ends :
    (conn : ℕ) (s : HttpSession) (t : HttpTransport)
    → is_nil (named_session conn t) ≡ false
    → find (named_session conn t) t.sessions ≡ some s
    → (t' : HttpTransport) × (handle_delete conn t ≡ respond conn 200 (codes "text/plain") [] t')
      × (find (named_session conn t) t'.sessions ≡ none)
      × All (IsEnded t') s.sse_connections
unfolding handle_delete
handle_delete-ends conn s t some_id found =
    let sid = named_session conn t in
    let (gone, ended) = end_session-ends sid s.sse_connections t in
    (
      end_session sid s.sse_connections t,
      choose (find sid t.sessions) (is_nil sid)
          (respond conn 404 (codes "text/plain") (codes "Session not found") t)
          (λ (s' : HttpSession).
            respond conn 200 (codes "text/plain") [] (end_session sid s'.sse_connections t))
          s found some_id,
      gone,
      ended,
    )
