-- ===== src/Client/Drain.antt =====
-- A failure of the transport ends every request that the map holds.
use cppmcp.Base.{
  ℕ, ◌==◌, nat_eq, nat_beq_iff, ◌≡◌, refl, ◌∙◌, Bool, true, false, ◌&&◌, ◌||◌, [], ◌∷◌, none, some,
  if◌then◌else◌, arith, String,
}
use cppmcp.Outcome.{mcp, request_failed}
use cppmcp.RequestId.{RequestId, id_eq}
use cppmcp.Map.{Map, find}
use cppmcp.Pending.{PendingRequest, McpOutcome, waiting, failed, is_waiting, finish}
use cppmcp.Client.{McpClient, finish_at}
use cppmcp.Client.Completion.{
  fail_entries, fail_all_pending, on_transport_disconnect, failure_outcome,
}
use cppmcp.Client.Pairing.{finish_at-objects, finish-settles}

-- A request that the map holds under some key.
abbrev pub holds : ℕ → Map RequestId ℕ → Bool
holds h [] = false
holds h ((key, j) ∷ m) = j == h || holds h m

pub holds_of_find :
    (key : RequestId) (h : ℕ) (m : Map RequestId ℕ) → find key m ≡ some h → holds h m ≡ true
unfolding find
holds_of_find key h [] e = cc
holds_of_find key h ((k, j) ∷ m) e = ground (arith, holds_of_find key h m)

module _ {V : Type 0} where
  finish-not_waiting :
      (o : McpOutcome V) (pr : PendingRequest V)
      → is_waiting o.terminal ≡ false
      → is_waiting (finish o pr).0.state ≡ false
  unfolding finish
  finish-not_waiting o pr t = ground arith

  abbrev ends : McpOutcome V → Map RequestId ℕ → (ℕ → PendingRequest V) → ℕ → PendingRequest V
  ends o m objects h =
      if is_waiting (objects h).state && holds h m then (finish o (objects h)).0 else objects h

  step : McpOutcome V → ℕ → McpClient V → McpClient V
  step o j c = if is_waiting (c.objects j).state then finish_at j o c else c

  step-objects :
      (o : McpOutcome V) (j : ℕ) (c : McpClient V) (h : ℕ)
      → (step o j c).objects h ≡ (
          if is_waiting (c.objects j).state && j == h
          then (finish o (c.objects h)).0
          else c.objects h)
  unfolding step
  step-objects o j c h = ground (arith, finish_at-objects j o c h, nat_beq_iff j h)

  -- The loop gives the outcome to each request that waits in the map, once.
  fail_entries-objects :
      (o : McpOutcome V) (m : Map RequestId ℕ) (c : McpClient V) (h : ℕ)
      → is_waiting o.terminal ≡ false
      → (fail_entries o m c).objects h ≡ ends o m c.objects h
  unfolding fail_entries step
  fail_entries-objects o [] c h t = ground arith
  fail_entries-objects o ((key, j) ∷ m) c h t =
      fail_entries-objects o m (step o j c) h t
      ∙ ground (arith, step-objects o j c h, finish-not_waiting o (c.objects h) t, nat_beq_iff j h)

  abbrev pub failure : String → McpOutcome V
  failure reason = failure_outcome failed (mcp request_failed reason none)

  -- After fail_all_pending the map is empty; each request that waited in the map has ended with the
  -- reason for the failure, and every other request is as it was.
  pub fail_all_pending-ends :
      (reason : String) (c : McpClient V)
      → ((fail_all_pending reason c).pending_map ≡ [])
        × ((h : ℕ)
            → (fail_all_pending reason c).objects h ≡ (
                if is_waiting (c.objects h).state && holds h c.pending_map
                then (finish (failure reason) (c.objects h)).0
                else c.objects h))
  unfolding fail_all_pending
  fail_all_pending-ends reason c =
      (refl, λ h. fail_entries-objects (failure reason) c.pending_map c h refl)

  disconnect-objects :
      (c : McpClient V) (h : ℕ)
      → (on_transport_disconnect c).objects h
        ≡ (fail_all_pending "transport disconnected" (record c { connected = false })).objects h
  unfolding on_transport_disconnect
  disconnect-objects c h = ground arith

  -- No future is left open by a disconnect: a request that waits under any key of the map gets an
  -- outcome, the failure "transport disconnected".
  pub on_transport_disconnect-ends :
      (c : McpClient V) (key : RequestId) (h : ℕ)
      → find key c.pending_map ≡ some h
      → (c.objects h).state ≡ waiting
      → (c.objects h).promise ≡ none
      → ((on_transport_disconnect c).objects h).promise ≡ some (failure "transport disconnected")
  on_transport_disconnect-ends c key h f w p = ground (
    arith,
    disconnect-objects c h,
    (fail_all_pending-ends "transport disconnected" (record c { connected = false })).1 h,
    holds_of_find key h c.pending_map f,
    finish-settles (failure "transport disconnected") (c.objects h) w p,
  )
