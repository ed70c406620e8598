-- ===== src/Client/Submit.antt =====
-- submit_request of src/client.cpp, and its task on the strand.
use cppmcp.Base.{
  ℕ, zero, suc, ℤ, pos, negsuc, String, ◌==◌, string_eq, Bool, true, false, not, ◌&&◌, ◌||◌, Option,
  none, some, if◌then◌else◌,
}
use cppmcp.Outcome.{Result, ok, throw, ◌>>=◌, map_result, mcp, client_not_connected}
use cppmcp.Json.{Json, is_object, is_null, empty_object}
use cppmcp.RequestId.{RequestId, null_id, int_id, is_null_id, id_eq, id_ord, request_id_to_json}
use cppmcp.Map.{insert}
use cppmcp.Protocol.{method_initialize}
use cppmcp.Jsonrpc.Building.{serialize_request}
use cppmcp.Pending.{PendingRequest, new_request}
use cppmcp.Client.{McpClient, update, raw_send}

-- The arguments of submit_request; the callbacks are given or not.
pub record Submission (V : Type 0) : Type 0 where
  pub method : String
  pub params : Option V
  pub has_on_complete : Bool
  pub has_on_error : Bool
  pub has_on_progress : Bool
  pub timeout : ℤ
  pub progress_token : Option RequestId

-- The token of a request with the number `num`. With a progress callback a numeric token gives way
-- to the request's own id.
unfoldable pub request_token : ℕ → Bool → Option RequestId → RequestId
request_token num true none = int_id (pos num)
request_token num true (some (int_id n)) = int_id (pos num)
request_token num true (some token) = token
request_token num false none = null_id
request_token num false (some token) = token

abbrev pub is_positive : ℤ → Bool
is_positive (pos zero) = false
is_positive (pos (suc n)) = true
is_positive (negsuc n) = false

-- A request without a timeout of its own has the default, if there is one.
unfoldable pub effective_timeout : ℤ → ℤ → ℤ
effective_timeout timeout default =
    if not (is_positive timeout) && is_positive default then default else timeout

-- The key under which register_pending also enters a request, if its token is no null and not
-- its id.
unfoldable pub needs_token_key : {V : Type 0} → PendingRequest V → Bool
needs_token_key pr = not (is_null_id pr.progress_token) && not (pr.progress_token == pr.id)

module _ {V : Type 0} ⦃json : Json V⦄ where
  or_object : Option V → V
  or_object none = empty_object
  or_object (some v) = v

  meta_of : V → V
  meta_of params = elim (json.at? params "_meta") [
    | none ↦ empty_object
    | some m ↦ if is_object m then m else empty_object
  ]

  -- The parameters with `_meta.progressToken`.
  unfoldable pub with_progress_token : Option V → RequestId → Result V V
  unfolding or_object meta_of
  with_progress_token params token =
      let object = or_object params in
      if is_object object || is_null object
      then ok (
          json.put object "_meta"
            (json.put (meta_of object) "progressToken" (request_id_to_json token)))
      else throw (json.no_index object "_meta")

  unfoldable pub submitted_params : Submission V → RequestId → Result V (Option V)
  unfolding with_progress_token
  submitted_params s token =
      if s.has_on_progress
      then map_result some (with_progress_token s.params token)
      else ok s.params

  -- The state after register_pending.
  unfoldable pub register_pending : ℕ → McpClient V → McpClient V
  unfolding needs_token_key
  register_pending h c =
      let pr = c.objects h in
      let m = insert pr.id h c.pending_map in
      record c { pending_map = if needs_token_key pr then insert pr.progress_token h m else m }

  -- The task on the strand: registration, the timer, the message.
  unfoldable pub run_submit : ℕ → Option V → McpClient V → McpClient V
  unfolding register_pending
  run_submit h params c =
      let c' = register_pending h c in
      let pr = c'.objects h in
      let armed : McpClient V =
        (if is_positive pr.timeout
          then record c' { objects = update c'.objects h (record pr { timer = true }) }
          else c') in
      raw_send
        (serialize_request
          (record { jsonrpc = "2.0"; id = pr.id; method = pr.method; params = params }))
        armed

  -- What submit_request does before it posts the task: the state with the new object, its handle,
  -- and the parameters that the task sends; or the exception for a client that is not connected.
  unfoldable pub submit_request : Submission V → McpClient V → Result V (McpClient V × ℕ × Option V)
  unfolding request_token submitted_params effective_timeout
  submit_request s c =
      if c.stopping
      then throw (mcp client_not_connected "client is shutting down" none)
      else if not c.connected && not (s.method == method_initialize)
      then throw (mcp client_not_connected "client is not connected (connect() first)" none)
      else (let num = c.next_id in
          let token = request_token num s.has_on_progress s.progress_token in
          let pr =
            new_request (int_id (pos num)) s.method token s.has_on_complete s.has_on_error
              s.has_on_progress (effective_timeout s.timeout c.default_timeout) in
          do
            params ← submitted_params s token
            ok (record c { next_id = suc num; objects = update c.objects num pr }, num, params))
