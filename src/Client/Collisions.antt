-- ===== src/Client/Collisions.antt =====
-- Keys of the map that two requests share, or that a request keeps after its end.
use cppmcp.Base.{
  subst, ap, nat_beq_iff, ℕ, ℤ, pos, String, ◌==◌, nat_eq, string_eq, ◌≡◌, ◌≢◌, refl, ◌∙◌, true,
  false, ◌&&◌, none, some, arith,
}
use cppmcp.Json.{Json}
use cppmcp.RequestId.{RequestId, int_id, id_eq, id_beq_iff, id_ord}
use cppmcp.Map.{find, find-insert, insert}
use cppmcp.Protocol.{method_initialize}
use cppmcp.Pending.{PendingRequest, McpOutcome, waiting, is_succeeded, finish, is_waiting}
use cppmcp.Client.{McpClient}
use cppmcp.Client.Submit.{register_pending, needs_token_key, request_token}
use cppmcp.Client.Completion.{complete_pending, settle, on_timer, request_cancel}
use cppmcp.Client.Pairing.{complete_pending-Settles, settle-objects}

-- With a progress callback the token is never the number of another request: it is the request's
-- own id unless the user gave a token that is no number. Without one a numeric token stays as the
-- user gave it, whatever request has that number.
pub request_token_numeric :
    (num : ℕ) (n : ℤ)
    → (request_token num true (some (int_id n)) ≡ int_id (pos num))
      × (request_token num true none ≡ int_id (pos num))
      × (request_token num false (some (int_id n)) ≡ int_id n)
unfolding request_token
request_token_numeric num n = (refl, refl, refl)

module _ {V : Type 0} ⦃json : Json V⦄ where
  register_pending-find :
      (h : ℕ) (c : McpClient V)
      → needs_token_key (c.objects h) ≡ true
      → find (c.objects h).progress_token (register_pending h c).pending_map ≡ some h
  unfolding register_pending
  register_pending-find h c n = ground (
    arith,
    find-insert (c.objects h).progress_token h (c.objects h).progress_token
        (insert (c.objects h).id h c.pending_map),
    id_beq_iff (c.objects h).progress_token (c.objects h).progress_token,
  )

  register_pending-objects : (h : ℕ) (c : McpClient V) → (register_pending h c).objects ≡ c.objects
  unfolding register_pending
  register_pending-objects h c = refl

  unreachable :
      (c : McpClient V) (key : RequestId) (b : ℕ) (o : McpOutcome V) (reason : String)
      → find key c.pending_map ≡ none
      → (c.objects b).id ≡ key
      → (complete_pending key o c ≡ c) × (on_timer b c ≡ c) × (request_cancel key reason c ≡ c)
  unfolding complete_pending on_timer request_cancel
  unreachable c key b o reason f e = ground arith

  -- Two requests wait, and the token of `a` is the id of `b`. Once `a` is registered, the response
  -- to `b` ends `a`, with the result that was meant for `b`; `b` goes on waiting, and from then on no
  -- response, timer or cancellation with its id does anything.
  pub register_pending-steals :
      (c : McpClient V) (a b : ℕ) (o later : McpOutcome V) (reason : String)
      → a ≢ b
      → (c.objects a).progress_token ≡ (c.objects b).id
      → needs_token_key (c.objects a) ≡ true
      → (c.objects a).state ≡ waiting
      → (c.objects a).promise ≡ none
      → (is_succeeded o.terminal && (c.objects a).method == method_initialize) ≡ false
      → let d = complete_pending (c.objects b).id o (register_pending a c) in
        ((d.objects a).promise ≡ some o)
        × (d.objects b ≡ c.objects b)
        × (complete_pending (c.objects b).id later d ≡ d)
        × (on_timer b d ≡ d)
        × (request_cancel (c.objects b).id reason d ≡ d)
  unfolding register_pending
  register_pending-steals c a b o later reason ne t n w p i =
      let r = register_pending a c in
      let found = subst (λ k. find k r.pending_map ≡ some a) t (register_pending-find a c n) in
      let s = complete_pending-Settles (c.objects b).id a o r found w p i in
      let gone : find (c.objects b).id (complete_pending (c.objects b).id o r).pending_map ≡ none =
        ground (arith, s.keys (c.objects b).id, id_beq_iff (c.objects b).id (c.objects b).id) in
      let kept : (complete_pending (c.objects b).id o r).objects b ≡ c.objects b =
        ground (arith, s.others b, nat_beq_iff a b) in
      let (deaf, mute, stuck) =
        unreachable (complete_pending (c.objects b).id o r) (c.objects b).id b later reason gone
          (ap (λ pr. pr.id) kept) in
      (s.value, kept, deaf, mute, stuck)

  complete_of_found :
      (key : RequestId) (h : ℕ) (o : McpOutcome V) (c : McpClient V)
      → find key c.pending_map ≡ some h
      → is_succeeded o.terminal ≡ false
      → complete_pending key o c ≡ settle key h o c
  unfolding complete_pending
  complete_of_found key h o c f n = ground arith

  finish-ended :
      (o : McpOutcome V) (pr : PendingRequest V)
      → is_waiting pr.state ≡ false
      → ((finish o pr).0.promise ≡ pr.promise) × ((finish o pr).0.state ≡ o.terminal)
  unfolding finish
  finish-ended o pr n = ground arith

  -- A response whose id is the token of a request ends the request but leaves the key of its id in
  -- the map, so a response to the id then replaces the state of the finished request, while the
  -- future keeps the first outcome.
  pub complete_pending-by_token :
      (c : McpClient V) (h : ℕ) (o later : McpOutcome V)
      → needs_token_key (c.objects h) ≡ true
      → find (c.objects h).progress_token c.pending_map ≡ some h
      → find (c.objects h).id c.pending_map ≡ some h
      → (c.objects h).state ≡ waiting
      → (c.objects h).promise ≡ none
      → is_waiting o.terminal ≡ false
      → is_succeeded o.terminal ≡ false
      → is_succeeded later.terminal ≡ false
      → let d = complete_pending (c.objects h).progress_token o c in
        let e = complete_pending (c.objects h).id later d in
        (find (c.objects h).id d.pending_map ≡ some h)
        × ((e.objects h).promise ≡ some o)
        × ((e.objects h).state ≡ later.terminal)
  unfolding needs_token_key
  complete_pending-by_token c h o later n ft fi w p t s1 s2 =
      let d = complete_pending (c.objects h).progress_token o c in
      let s = complete_pending-Settles (c.objects h).progress_token h o c ft w p (ground arith) in
      let stale : find (c.objects h).id d.pending_map ≡ some h = ground (
        arith,
        s.keys (c.objects h).id,
        id_beq_iff (c.objects h).progress_token (c.objects h).id,
        id_beq_iff (c.objects h).id (c.objects h).progress_token,
      ) in
      let again = complete_of_found (c.objects h).id h later d stale s2 in
      let object = settle-objects (c.objects h).id h later d h in
      let ended = finish-ended later (d.objects h) (ap is_waiting s.state ∙ t) in
      (
        stale,
        rw again (ground (arith, object, ended, s.value)),
        rw again (ground (arith, object, ended)),
      )
