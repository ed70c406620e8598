-- ===== src/Server/Answers/Forms.antt =====
-- src/server.cpp: the form of a response, and how it passes through the calls of a handler.
use cppmcp.Base.{ℤ, String, string_eq, ◌≡◌, ap, ◌∙◌, sym, not, Option, some, is_some}
use cppmcp.Outcome.{Result, ok, throw, Exception, ◌>>=◌}
use cppmcp.Json.{Json, IsJson, contains}
use cppmcp.Map.{string_ord}
use cppmcp.RequestId.{RequestId, request_id_to_json}
use cppmcp.Jsonrpc.Building.{make_success_response, make_error_response}
use cppmcp.Server.{McpServer}
use cppmcp.Server.Subscriptions.{StringParam, given, wrong}
use cppmcp.Server.Calls.{answer}
use cppmcp.Server.Dispatch.{after}

-- The test of a text parameter.
pub param-split :
    {A : Type 0} (P : A → Type 0) (p : StringParam) (f g : String → A)
    → ((why : String) → P (f why))
    → ((text : String) → P (g text))
    → P (elim p [ wrong why ↦ f why | given text ↦ g text ])
param-split P (wrong why) f g h k = h why
param-split P (given text) f g h k = k text

pub Result-split :
    {V A B : Type 0} (P : B → Type 0) (r : Result V A) (f : A → B) (g : Exception V → B)
    → ((a : A) → P (f a))
    → ((e : Exception V) → P (g e))
    → P (elim r [ throw e ↦ g e | ok a ↦ f a ])
Result-split P (ok a) f g h k = h a
Result-split P (throw e) f g h k = k e

module _ {V : Type 0} ⦃json : Json V⦄ where
  -- A JSON-RPC response to the request `id`: its id, and either a result or an error.
  abbrev pub IsAnswer : RequestId → V → Type 0
  IsAnswer id v =
      (json.at? v "id" ≡ some (request_id_to_json id))
      × (contains v "result" ≡ not (contains v "error"))

  -- What a call returns, if it returns.
  abbrev pub Returns : (V → Type 0) → Result V V → Type 0
  Returns P (ok v) = P v
  Returns P (throw e) = Unit

  pub bind-Returns :
      {A : Type 0} (P : V → Type 0) (m : Result V A) (f : A → Result V V)
      → ((a : A) → Returns P (f a))
      → Returns P (m >>= f)
  bind-Returns P (ok a) f h = h a
  bind-Returns P (throw e) f h = tt

  pub bind-after :
      {A : Type 0} (P : V → Type 0) (s : McpServer V) (m : Result V A)
      (f : A → Result V (McpServer V × V))
      → ((a : A) → Returns P (after s (f a)).1)
      → Returns P (after s (m >>= f)).1
  bind-after P s (ok a) f h = h a
  bind-after P s (throw e) f h = tt

  abbrev pub Answered : RequestId → Result V V → Type 0
  Answered id outcome = Returns (IsAnswer id) outcome

  -- The response of a call that returns a state with it.
  abbrev pub AfterAnswered : RequestId → McpServer V → Result V (McpServer V × V) → Type 0
  AfterAnswered id s r = Answered id (after s r).1

module _ {V : Type 0} ⦃json : Json V⦄ (laws : IsJson json) where
  pub success-IsAnswer :
      (id : RequestId) (result : V) → IsAnswer id (make_success_response id result)
  unfolding make_success_response
  success-IsAnswer id result = (
    laws.at?-from_object _ "id",
    ap is_some (laws.at?-from_object _ "result")
        ∙ ap (λ o. not (is_some o)) (sym (laws.at?-from_object _ "error")),
  )

  pub error-IsAnswer :
      (id : RequestId) (code : ℤ) (message : String) (extra : Option V)
      → IsAnswer id (make_error_response id code message extra)
  unfolding make_error_response
  error-IsAnswer id code message extra = (
    laws.at?-from_object _ "id",
    ap is_some (laws.at?-from_object _ "result")
        ∙ ap (λ o. not (is_some o)) (sym (laws.at?-from_object _ "error")),
  )

  pub answer-Answered : (id : RequestId) (outcome : Result V V) → Answered id (answer id outcome)
  answer-Answered id (ok result) = success-IsAnswer id result
  answer-Answered id (throw e) = tt
