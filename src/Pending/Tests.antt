-- ===== src/Pending/Tests.antt =====
-- A request that succeeds and is then cancelled.
use cppmcp.Base.{pos, ◌≡◌, refl, [], ◌∷◌, some, none, true, false}
use cppmcp.Outcome.{unknown}
use cppmcp.RequestId.{int_id, null_id}
use cppmcp.Pending.{PendingRequest, McpOutcome, succeeded, cancelled, new_request}
use cppmcp.Pending.Laws.{finishes, finishes_first, callback_of, last_state}
use cppmcp.Json.Example.{Value, null}

abbrev fresh : PendingRequest Value
fresh = new_request (int_id (pos 1)) "ping" null_id true true false (pos 0)

abbrev answer : McpOutcome Value
answer = record { terminal = succeeded; result = some null; rpc_error = none; failure = none }

abbrev stop : McpOutcome Value
stop = record { terminal = cancelled; result = none; rpc_error = none; failure = some unknown }

finishes_first_example :
    ((finishes (answer ∷ stop ∷ []) fresh).0.promise ≡ some answer)
    × ((finishes (answer ∷ stop ∷ []) fresh).1 ≡ callback_of fresh answer)
    × ((finishes (answer ∷ stop ∷ []) fresh).0.state ≡ last_state succeeded (stop ∷ []))
unfolding new_request
finishes_first_example = finishes_first answer (stop ∷ []) fresh refl refl (λ e. cc) ((λ e. cc), tt)
