-- ===== src/Http/Responses.antt =====
-- src/http_transport.cpp: what becomes of the responses of a message handler.
use cppmcp.Base.{
  ℕ, ltb, leb, ◌≡◌, refl, sym, ap, ◌∙◌, Bool, true, false, not, ◌&&◌, List, [], ◌∷◌, ◌++◌, Option,
  none, some, if◌then◌else◌, length, arith, Bool-cases, inl, inr, if-split,
}
use cppmcp.Json.{Json, contains}
use cppmcp.Jsonrpc.{ParsedMessage}
use cppmcp.Map.{find, map_some, find-insert-same, find-adjust-same, find-erase-same}
use cppmcp.Text.{Bytes, codes, bytes_eq, bytes_ord}
use cppmcp.Http.Transport.{
  JsonText, HttpTransport, HttpSession, enqueued, enqueue_write, at_session, create_session,
}
use cppmcp.Http.Post.{
  respond_json, HandlerCall, to_sink, to_all, to_session, Handled, Sink, run_call, run_calls,
  run_sink, run_sub_call, run_sub_calls, session_header, touch, commit, accepted_notification,
  is_notification, handled_post, run_post, post_initialize, session_refusal,
}
use cppmcp.Http.Response.{build_http_response}
use cppmcp.Http.Handlers.{run_batch, is_empty_batch, respond_batch, handle_post_batch}
use cppmcp.Http.Writing.{OnlyWrites-run_calls}
use cppmcp.Http.Push.{send_message, send_to_session}

-- The first response that a handler gave to its sink.
abbrev pub first_response : {V : Type 0} → List (HandlerCall V) → Option V
first_response [] = none
first_response (to_sink resp ∷ calls) = some resp
first_response (to_all message ∷ calls) = first_response calls
first_response (to_session sid message ∷ calls) = first_response calls

abbrev pub or_else : {A : Type 0} → Option A → Option A → Option A
or_else none other = other
or_else (some a) other = some a

-- The first responses to the elements of a batch.
abbrev pub first_responses : {V : Type 0} → (V → Bytes → Handled V) → Bytes → List V → List V
first_responses handler sid [] = []
first_responses handler sid (elem ∷ batch) =
    let rest = first_responses handler sid batch in
    elim (first_response (handler elem sid).calls) [ none ↦ rest | some resp ↦ resp ∷ rest ]

or_else-none : {A : Type 0} (o : Option A) → or_else o none ≡ o
or_else-none none = refl
or_else-none (some a) = refl

or_else-some :
    {A : Type 0} (o : Option A) (a : A) (other : Option A)
    → or_else (or_else o (some a)) other ≡ or_else o (some a)
or_else-some none a other = refl
or_else-some (some b) a other = refl

module _ {V : Type 0} (text : JsonText V) where
  run_sub_calls-first :
      (calls : List (HandlerCall V)) (body : Option V) (t : HttpTransport)
      → (run_sub_calls text calls (body, t)).0 ≡ or_else body (first_response calls)
  unfolding run_sub_calls run_sub_call
  run_sub_calls-first [] none t = refl
  run_sub_calls-first [] (some body) t = refl
  run_sub_calls-first (to_sink resp ∷ calls) none t = run_sub_calls-first calls (some resp) t
  run_sub_calls-first (to_sink resp ∷ calls) (some body) t = run_sub_calls-first calls (some body) t
  run_sub_calls-first (to_all message ∷ calls) none t = run_sub_calls-first calls none _
  run_sub_calls-first (to_all message ∷ calls) (some body) t =
      run_sub_calls-first calls (some body) _
  run_sub_calls-first (to_session sid message ∷ calls) none t = run_sub_calls-first calls none _
  run_sub_calls-first (to_session sid message ∷ calls) (some body) t =
      run_sub_calls-first calls (some body) _

  run_sink-first :
      (resp : V) (sink : Sink V) (t : HttpTransport)
      → (run_sink text resp (sink, t)).0.first_body ≡ or_else sink.first_body (some resp)
  unfolding run_sink
  run_sink-first resp sink t = ground arith

  run_calls-first :
      (calls : List (HandlerCall V)) (sink : Sink V) (t : HttpTransport)
      → (run_calls text calls (sink, t)).0.first_body
        ≡ or_else sink.first_body (first_response calls)
  unfolding run_calls run_call
  run_calls-first [] sink t = sym (or_else-none sink.first_body)
  run_calls-first (to_sink resp ∷ calls) sink t =
      run_calls-first calls (run_sink text resp (sink, t)).0 (run_sink text resp (sink, t)).1
      ∙ ap (λ o. or_else o (first_response calls)) (run_sink-first resp sink t)
      ∙ or_else-some sink.first_body resp (first_response calls)
  run_calls-first (to_all message ∷ calls) sink t = run_calls-first calls sink _
  run_calls-first (to_session sid message ∷ calls) sink t = run_calls-first calls sink _

  run_batch-first :
      (handler : V → Bytes → Handled V) (sid : Bytes) (batch : List V) (t : HttpTransport)
      → (run_batch text handler sid batch t).0 ≡ first_responses handler sid batch
  unfolding run_batch
  run_batch-first handler sid [] t = refl
  run_batch-first handler sid (elem ∷ batch) t = ground (
    arith,
    run_sub_calls-first (handler elem sid).calls none t,
    run_batch-first handler sid batch (run_sub_calls text (handler elem sid).calls (none, t)).1,
  )

-- What a handler sends beside the responses to its request.
pub data Message (V : Type 0) : Type 0 where
  for_all : V → Message V
  for_session : Bytes → V → Message V

abbrev pub call_messages : {V : Type 0} → List (HandlerCall V) → List (Message V)
call_messages [] = []
call_messages (to_sink resp ∷ calls) = call_messages calls
call_messages (to_all message ∷ calls) = for_all message ∷ call_messages calls
call_messages (to_session sid message ∷ calls) = for_session sid message ∷ call_messages calls

abbrev pub messages_of : {V : Type 0} → (V → Bytes → Handled V) → Bytes → List V → List (Message V)
messages_of handler sid [] = []
messages_of handler sid (elem ∷ batch) =
    call_messages (handler elem sid).calls ++ messages_of handler sid batch

module _ {V : Type 0} (text : JsonText V) where
  abbrev pub send_each : List (Message V) → HttpTransport → HttpTransport
  send_each [] t = t
  send_each (for_all message ∷ messages) t = send_each messages (send_message text message t)
  send_each (for_session sid message ∷ messages) t =
      send_each messages (send_to_session text sid message t)

  send_each-append :
      (xs ys : List (Message V)) (t : HttpTransport)
      → send_each (xs ++ ys) t ≡ send_each ys (send_each xs t)
  send_each-append [] ys t = refl
  send_each-append (for_all message ∷ xs) ys t = send_each-append xs ys _
  send_each-append (for_session sid message ∷ xs) ys t = send_each-append xs ys _

  run_sub_calls-sent :
      (calls : List (HandlerCall V)) (body : Option V) (t : HttpTransport)
      → (run_sub_calls text calls (body, t)).1 ≡ send_each (call_messages calls) t
  unfolding run_sub_calls run_sub_call
  run_sub_calls-sent [] body t = refl
  run_sub_calls-sent (to_sink resp ∷ calls) none t = run_sub_calls-sent calls (some resp) t
  run_sub_calls-sent (to_sink resp ∷ calls) (some body) t = run_sub_calls-sent calls (some body) t
  run_sub_calls-sent (to_all message ∷ calls) none t = run_sub_calls-sent calls none _
  run_sub_calls-sent (to_all message ∷ calls) (some body) t = run_sub_calls-sent calls (some body) _
  run_sub_calls-sent (to_session sid message ∷ calls) none t = run_sub_calls-sent calls none _
  run_sub_calls-sent (to_session sid message ∷ calls) (some body) t =
      run_sub_calls-sent calls (some body) _

  run_batch-sent :
      (handler : V → Bytes → Handled V) (sid : Bytes) (batch : List V) (t : HttpTransport)
      → (run_batch text handler sid batch t).1 ≡ send_each (messages_of handler sid batch) t
  unfolding run_batch
  run_batch-sent handler sid [] t = refl
  run_batch-sent handler sid (elem ∷ batch) t =
      let calls = (handler elem sid).calls in
      let rest = messages_of handler sid batch in
      run_batch-sent handler sid batch (run_sub_calls text calls (none, t)).1
      ∙ ap (send_each rest) (run_sub_calls-sent calls none t)
      ∙ sym (send_each-append (call_messages calls) rest t)

choose :
    {A : Type 0} (e b : Bool) (o : Option A) (x z w : A)
    → e ≡ false
    → o ≡ none
    → b ≡ true
    → (if e then x else elim o [ none ↦ if b then z else w | some a ↦ a ]) ≡ z
choose e b o x z w he ho hb = rw (he, ho, hb) refl

-- Whether an initialize handler was successful: it returned, and its first response is no error.
abbrev pub is_accepted : {V : Type 0} ⦃json : Json V⦄ → Handled V → Bool
is_accepted handled = handled.returned && elim (first_response handled.calls) [
  | none ↦ false
  | some body ↦ not (contains body "error")
]

module _ {V : Type 0} ⦃json : Json V⦄ (text : JsonText V) where
  -- The response to a batch whose elements had these responses.
  abbrev pub batch_response : Bytes → List V → Bytes
  batch_response sid [] = build_http_response 202 (codes "text/plain") [] (session_header sid)
  batch_response sid (resp ∷ responses) =
      build_http_response 200 (codes "application/json")
        (text.dump (json.from_array (resp ∷ responses))) (session_header sid)

  respond_batch-once :
      (conn : ℕ) (sid : Bytes) (responses : List V) (t : HttpTransport)
      → respond_batch text conn sid responses t
        ≡ record t { trace = enqueued conn (batch_response sid responses) ∷ t.trace }
  unfolding respond_json enqueue_write
  respond_batch-once conn sid [] t = refl
  respond_batch-once conn sid (resp ∷ responses) t = refl

  -- A batch that is not empty, of a session that can be used: what happens is first what the handlers
  -- send beside their responses, in the order of the elements and of their calls, and then a single
  -- response. It has the first response of each element, in the order of the elements, and is 202
  -- where there is none.
  pub handle_post_batch-responses :
      (handler : V → Bytes → Handled V) (conn : ℕ) (sid : Bytes) (batch : List V)
      (t : HttpTransport)
      → is_empty_batch batch ≡ false
      → session_refusal text conn sid t ≡ none
      → t.has_message_handler ≡ true
      → handle_post_batch text handler conn sid batch t ≡ (
          let sent = send_each text (messages_of handler sid batch) t in
          record sent {
            trace =
                enqueued conn (batch_response sid (first_responses handler sid batch)) ∷ sent.trace;
          })
  unfolding handle_post_batch
  handle_post_batch-responses handler conn sid batch t some_element usable handled =
      choose _ _ _ _ _ _ some_element usable handled
      ∙ ap
          (λ responses.
            respond_batch text conn sid responses (run_batch text handler sid batch t).1)
          (run_batch-first text handler sid batch t)
      ∙ ap (respond_batch text conn sid (first_responses handler sid batch))
          (run_batch-sent text handler sid batch t)
      ∙ respond_batch-once conn sid (first_responses handler sid batch) _

  find-commit :
      (returned : Bool) (body : Option V) (sid : Bytes) (s : HttpSession) (t : HttpTransport)
      → find sid t.sessions ≡ some s
      → find sid (commit returned body sid t).sessions ≡ (
          if returned && (elim body [ none ↦ false | some b ↦ not (contains b "error") ])
          then some (record s { initialized = true })
          else none)
  unfolding commit at_session
  find-commit false body sid s t e = find-erase-same sid t.sessions
  find-commit true none sid s t e = find-erase-same sid t.sessions
  find-commit true (some body) sid s t e = elim (Bool-cases (contains body "error")) [
    | inl error ↦ rw error (find-erase-same sid t.sessions)
    | inr fine ↦ rw fine (find-adjust-same _ sid t.sessions ∙ ap (map_some _) e)
  ]

  find-accepted_notification :
      (parsed : ParsedMessage V) (returned : Bool) (conn : ℕ) (sid : Bytes) (t : HttpTransport)
      → (accepted_notification parsed returned conn sid t).sessions ≡ t.sessions
  unfolding enqueue_write
  find-accepted_notification parsed returned conn sid t =
      if-split (λ (r : HttpTransport). r.sessions ≡ t.sessions) (returned && is_notification parsed)
        (enqueue_write conn (build_http_response 202 (codes "text/plain") [] (session_header sid))
          t)
        t (λ _. refl) (λ _. refl)

  find-handled_post :
      (sid : Bytes) (handled : Handled V) (conn : ℕ) (parsed : ParsedMessage V) (s : HttpSession)
      (t : HttpTransport)
      → find sid t.sessions ≡ some s
      → find sid (handled_post text true sid handled conn parsed t).0.sessions
        ≡ (if is_accepted handled then some (record s { initialized = true }) else none)
  unfolding handled_post
  find-handled_post sid handled conn parsed s t e =
      let sink : Sink V = record { conn = conn; sid = sid; first_body = none } in
      let (trace, same) = OnlyWrites-run_calls text handled.calls sink t in
      ap (find sid) (find-accepted_notification parsed handled.returned conn sid _)
      ∙ find-commit handled.returned _ sid s _
          (ap (λ (r : HttpTransport). find sid r.sessions) same ∙ e)
      ∙ rw (run_calls-first text handled.calls sink t) refl

  -- An initialize POST under the cap of sessions: the new session is in the map and initialized if the
  -- handler returned and its first response is no error, and otherwise it is gone.
  pub post_initialize-outcome :
      (session_id : Bytes) (now : ℕ) (handler : V → Bytes → Handled V) (conn : ℕ)
      (parsed : ParsedMessage V) (message : V) (t : HttpTransport)
      → ltb 0 t.config.max_sessions && leb t.config.max_sessions (length t.sessions) ≡ false
      → t.has_message_handler ≡ true
      → find session_id
          (post_initialize text session_id now handler conn [] parsed message t).0.sessions
        ≡ (if is_accepted (handler message session_id)
            then some (record { initialized = true; sse_connections = []; last_activity = now })
            else none)
  unfolding post_initialize create_session run_post at_session
  post_initialize-outcome session_id now handler conn parsed message t room handled =
      let s : HttpSession = record {
        initialized = false;
        sse_connections = [];
        last_activity = now;
      } in
      simp (room, handled)
        (find-handled_post session_id (handler message session_id) conn parsed s _ (
          find-adjust-same (touch now) session_id _
          ∙ ap (map_some (touch now)) (find-insert-same session_id s t.sessions)))
