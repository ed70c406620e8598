-- ===== src/Client/Pairing.antt =====
-- A response ends the request that it answers, and no other.
use cppmcp.Base.{ℕ, ◌==◌, string_eq, nat_eq, ◌≡◌, false, ◌&&◌, none, some, if◌then◌else◌, arith}
use cppmcp.Json.{Json}
use cppmcp.RequestId.{RequestId, id_eq}
use cppmcp.Map.{Map, find, erase, find-erase}
use cppmcp.Protocol.{method_initialize}
use cppmcp.Pending.{PendingRequest, McpOutcome, waiting, is_succeeded, finish}
use cppmcp.Client.{McpClient, finish_at}
use cppmcp.Client.Submit.{needs_token_key}
use cppmcp.Client.Completion.{erase_keys, settle, complete_pending}

module _ {V : Type 0} where
  pub finish_at-objects :
      (h : ℕ) (o : McpOutcome V) (c : McpClient V) (k : ℕ)
      → (finish_at h o c).objects k ≡ (if h == k then (finish o (c.objects h)).0 else c.objects k)
  unfolding finish_at
  finish_at-objects h o c k = ground arith

  pub finish_at-pending_map :
      (h : ℕ) (o : McpOutcome V) (c : McpClient V) → (finish_at h o c).pending_map ≡ c.pending_map
  unfolding finish_at
  finish_at-pending_map h o c = ground arith

  pub finish-settles :
      (o : McpOutcome V) (pr : PendingRequest V)
      → pr.state ≡ waiting
      → pr.promise ≡ none
      → ((finish o pr).0.promise ≡ some o) × ((finish o pr).0.state ≡ o.terminal)
  unfolding finish
  finish-settles o pr w p = ground arith

  pub find-erase_keys :
      (key : RequestId) (pr : PendingRequest V) (m : Map RequestId ℕ) (k : RequestId)
      → find k (erase_keys key pr m) ≡ (
          if key == k
          then none
          else if needs_token_key pr && (pr.progress_token == k)
          then none
          else find k m)
  unfolding erase_keys
  find-erase_keys key pr m k =
      ground (arith, find-erase pr.progress_token k (erase key m), find-erase key k m)

-- What the end of the request `h`, found under `key`, with the outcome `o` leaves: its future has the
-- outcome, its keys are gone, and every other key and every other request is as it was.
pub record Settles {V : Type 0} (key : RequestId) (h : ℕ) (o : McpOutcome V) (c d : McpClient V)
    : Type 0 where
  pub value : (d.objects h).promise ≡ some o
  pub state : (d.objects h).state ≡ o.terminal
  pub keys :
      (k : RequestId)
      → find k d.pending_map ≡ (
          if key == k
          then none
          else if needs_token_key (c.objects h) && (c.objects h).progress_token == k
          then none
          else find k c.pending_map)
  pub others : (j : ℕ) → d.objects j ≡ (if h == j then d.objects h else c.objects j)

module _ {V : Type 0} ⦃json : Json V⦄ (key : RequestId) (h : ℕ) (o : McpOutcome V)
    (c : McpClient V) where
  settle-pending_map : (settle key h o c).pending_map ≡ erase_keys key (c.objects h) c.pending_map
  unfolding settle
  settle-pending_map =
      finish_at-pending_map h o
        (record c { pending_map = erase_keys key (c.objects h) c.pending_map })

  pub settle-objects :
      (k : ℕ)
      → (settle key h o c).objects k ≡ (if h == k then (finish o (c.objects h)).0 else c.objects k)
  unfolding settle
  settle-objects k =
      finish_at-objects h o (record c { pending_map = erase_keys key (c.objects h) c.pending_map })
        k

  pub settle-Settles :
      (c.objects h).state ≡ waiting
      → (c.objects h).promise ≡ none
      → Settles key h o c (settle key h o c)
  settle-Settles w p =
      let done = finish-settles o (c.objects h) w p in
      let keys = find-erase_keys key (c.objects h) c.pending_map in
      record {
        value = ground (arith, settle-objects h, done);
        state = ground (arith, settle-objects h, done);
        keys = λ k. rw settle-pending_map (keys k);
        others = λ j. ground (arith, settle-objects j, settle-objects h);
      }

  -- A response, a timeout or a cancellation of a request that waits under the key, other than the
  -- success of initialize: complete_pending gives exactly this request the outcome and drops its
  -- keys.
  pub complete_pending-Settles :
      find key c.pending_map ≡ some h
      → (c.objects h).state ≡ waiting
      → (c.objects h).promise ≡ none
      → (is_succeeded o.terminal && (c.objects h).method == method_initialize) ≡ false
      → Settles key h o c (complete_pending key o c)
  unfolding complete_pending
  complete_pending-Settles f w p n = rw (f, complete_pending, n) (settle-Settles w p)
