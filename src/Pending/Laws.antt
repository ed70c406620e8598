-- ===== src/Pending/Laws.antt =====
-- The terminal writes of a request: what the first decides, and what later ones still change.
use mathlib.Core.List.{append-nil}
use cppmcp.Base.{
  sym, ap, ◌≡◌, ◌≢◌, refl, ◌∙◌, List, [], ◌∷◌, ◌++◌, Option, none, some, arith, if◌then◌else◌, All,
}
use cppmcp.Pending.{
  RequestState, waiting, McpOutcome, PendingRequest, Callback, on_complete, on_error, is_succeeded,
  finish,
}

abbrev to_list : {A : Type 0} → Option A → List A
to_list none = []
to_list (some a) = a ∷ []

module _ {V : Type 0} where
  -- A sequence of calls of finish, and the callbacks that they make.
  unfoldable pub finishes :
      List (McpOutcome V) → PendingRequest V → PendingRequest V × List (Callback V)
  finishes [] pr = (pr, [])
  finishes (o ∷ os) pr =
      let (done, callback) = finish o pr in
      let (last, callbacks) = finishes os done in (last, to_list callback ++ callbacks)

  abbrev pub IsTerminal : McpOutcome V → Type 0
  IsTerminal o = o.terminal ≢ waiting

  -- The callback that an outcome is due to.
  abbrev pub callback_of : PendingRequest V → McpOutcome V → List (Callback V)
  callback_of pr o =
      if is_succeeded o.terminal
      then (if pr.has_on_complete then on_complete o.result ∷ [] else [])
      else if pr.has_on_error
      then on_error o ∷ []
      else []

  unfoldable pub last_state : RequestState → List (McpOutcome V) → RequestState
  last_state s [] = s
  last_state s (o ∷ os) = last_state o.terminal os

  finishes_later :
      (os : List (McpOutcome V)) (pr : PendingRequest V)
      → pr.state ≢ waiting
      → All IsTerminal os
      → ((finishes os pr).0.promise ≡ pr.promise)
        × ((finishes os pr).1 ≡ [])
        × ((finishes os pr).0.state ≡ last_state pr.state os)
  unfolding finishes last_state
  finishes_later [] pr w t = (refl, refl, refl)
  finishes_later (o ∷ os) pr w (t, ts) =
      let done : PendingRequest V = record pr { state = o.terminal } in
      let again : finish o pr ≡ (done, none) = unfold finish in ground arith in
      let later = finishes_later os done t ts in rw again later

  finish_waiting :
      (o : McpOutcome V) (pr : PendingRequest V)
      → pr.state ≡ waiting
      → pr.promise ≡ none
      → ((finish o pr).0.promise ≡ some o)
        × (to_list (finish o pr).1 ≡ callback_of pr o)
        × ((finish o pr).0.state ≡ o.terminal)
  unfolding finish
  finish_waiting o pr w p = ground arith

  -- Of any sequence of terminal outcomes that reach a fresh request, the first alone is the value of
  -- the future and makes the one callback that it is due to, if that was given. The state is that
  -- of the last outcome.
  pub finishes_first :
      (o : McpOutcome V) (os : List (McpOutcome V)) (pr : PendingRequest V)
      → pr.state ≡ waiting
      → pr.promise ≡ none
      → IsTerminal o
      → All IsTerminal os
      → ((finishes (o ∷ os) pr).0.promise ≡ some o)
        × ((finishes (o ∷ os) pr).1 ≡ callback_of pr o)
        × ((finishes (o ∷ os) pr).0.state ≡ last_state o.terminal os)
  unfolding finishes
  finishes_first o os pr w p t ts =
      let (promise, called, state) = finish_waiting o pr w p in
      let (kept, quiet, last) = finishes_later os (finish o pr).0 (λ e. t (sym state ∙ e)) ts in
      (
        kept ∙ promise,
        ap (◌++◌ (to_list (finish o pr).1)) quiet ∙ append-nil _ ∙ called,
        last ∙ ap (λ s. last_state s os) state,
      )
