-- ===== src/Pending.antt =====
-- include/cppmcp/pending_request.hpp and src/pending_request.cpp: an outbound request of the client.
pub mod Laws
pub mod Tests
use cppmcp.Base.{ℤ, String, Bool, true, false, not, ◌&&◌, Option, none, some, if◌then◌else◌}
use cppmcp.Outcome.{Result, ok, throw, Exception, mcp, request_failed}
use cppmcp.RequestId.{RequestId}
use cppmcp.Jsonrpc.{JsonRpcErrorDetail}

pub data RequestState : Type 0 where
  waiting succeeded errored timed_out cancelled failed : RequestState

-- The result stands for JSON null where there is none.
pub record McpOutcome (V : Type 0) : Type 0 where
  pub terminal : RequestState
  pub result : Option V
  pub rpc_error : Option (JsonRpcErrorDetail V)
  pub failure : Option (Exception V)

-- `timeout` is in milliseconds, `promise` is the value that the future has, `timer` says whether the timer is armed, and the
-- callbacks are given or not.
pub record PendingRequest (V : Type 0) : Type 0 where
  pub id : RequestId
  pub method : String
  pub progress_token : RequestId
  pub state : RequestState
  pub outcome : McpOutcome V
  pub promise : Option (McpOutcome V)
  pub timer : Bool
  pub timeout : ℤ
  pub has_on_complete : Bool
  pub has_on_error : Bool
  pub has_on_progress : Bool

-- What a request tells its user.
pub data Callback (V : Type 0) : Type 0 where
  on_complete : Option V → Callback V
  on_error : McpOutcome V → Callback V
  on_progress : V → Option V → Callback V

abbrev pub is_waiting : RequestState → Bool
is_waiting waiting = true
is_waiting _ = false

abbrev pub is_succeeded : RequestState → Bool
is_succeeded succeeded = true
is_succeeded _ = false

module _ {V : Type 0} where
  abbrev pub blank_outcome : McpOutcome V
  blank_outcome = record { terminal = waiting; result = none; rpc_error = none; failure = none }

  -- The constructor, and the callbacks that submit_request sets.
  unfoldable pub new_request :
      RequestId → String → RequestId → Bool → Bool → Bool → ℤ → PendingRequest V
  new_request id method progress_token has_on_complete has_on_error has_on_progress timeout =
      record {
        id = id;
        method = method;
        progress_token = progress_token;
        state = waiting;
        outcome = blank_outcome;
        promise = none;
        timer = false;
        timeout = timeout;
        has_on_complete = has_on_complete;
        has_on_error = has_on_error;
        has_on_progress = has_on_progress;
      }

  -- get(), once the future is ready; `null` is the JSON null.
  unfoldable pub get_result : V → McpOutcome V → Result V V
  get_result null o =
      if is_succeeded o.terminal
      then (elim o.result [ none ↦ ok null | some v ↦ ok v ])
      else elim o.failure [
        | some e ↦ throw e
        | none ↦ elim o.rpc_error [
          | some d ↦ throw (mcp d.code d.message d.extra)
          | none ↦ throw (mcp request_failed "request terminated without a result" none)
        ]
      ]

  -- promise_.set_value: a second value is refused, and the exception is caught.
  abbrev set_value : Option (McpOutcome V) → McpOutcome V → Option (McpOutcome V)
  set_value none o = some o
  set_value (some old) o = some old

  unfoldable pub dispatch_callbacks : PendingRequest V → Option (Callback V)
  dispatch_callbacks pr =
      if is_succeeded pr.outcome.terminal
      then (if pr.has_on_complete then some (on_complete pr.outcome.result) else none)
      else if pr.has_on_error
      then some (on_error pr.outcome)
      else none

  -- The state is exchanged whatever it was; the rest happens to a waiting request only.
  unfoldable pub finish : McpOutcome V → PendingRequest V → PendingRequest V × Option (Callback V)
  unfolding dispatch_callbacks
  finish o pr =
      if is_waiting pr.state
      then (let done = record pr {
        state = o.terminal;
        outcome = o;
        timer = false;
        promise = set_value pr.promise o;
      } in
          (done, dispatch_callbacks done))
      else (record pr { state = o.terminal }, none)

  unfoldable pub deliver_progress : V → Option V → PendingRequest V → Option (Callback V)
  deliver_progress progress total pr =
      if is_waiting pr.state && pr.has_on_progress then some (on_progress progress total) else none
