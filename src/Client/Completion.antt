-- ===== src/Client/Completion.antt =====
-- How a request ends, in src/client.cpp and src/pending_request.cpp: a response, a cancellation, the
-- timer, or a failure of the transport.
use cppmcp.Base.{
  ℕ, String, ◌==◌, string_eq, true, false, ◌&&◌, [], ◌∷◌, none, some, if◌then◌else◌, is_empty, ◌<>◌,
}
use cppmcp.Outcome.{
  Result, ok, throw, Exception, mcp, ◌>>=◌, invalid_request, request_cancelled, request_timed_out,
  request_failed,
}
use cppmcp.Json.{Json, is_string}
use cppmcp.RequestId.{RequestId, id_eq, request_id_to_json}
use cppmcp.Map.{Map, find, erase}
use cppmcp.Protocol.{method_initialize, notif_initialized, notif_cancelled, is_supported_version}
use cppmcp.Jsonrpc.{error_detail}
use cppmcp.Jsonrpc.Building.{serialize_notification}
use cppmcp.Types.Initialize.{InitializeResult, initialize_result_from_json}
use cppmcp.Pending.{
  PendingRequest, McpOutcome, RequestState, errored, timed_out, cancelled, failed, is_waiting,
  is_succeeded,
}
use cppmcp.Client.{McpClient, disconnected, emit, raw_send, finish_at}
use cppmcp.Client.Submit.{needs_token_key}

-- The two erasures of complete_pending: the key that was found, and the token's.
unfoldable pub erase_keys :
    {V : Type 0} → RequestId → PendingRequest V → Map RequestId ℕ → Map RequestId ℕ
unfolding needs_token_key
erase_keys key pr m =
    if needs_token_key pr then erase pr.progress_token (erase key m) else erase key m

module _ {V : Type 0} where
  abbrev pub failure_outcome : RequestState → Exception V → McpOutcome V
  failure_outcome terminal e = record {
    terminal = terminal;
    result = none;
    rpc_error = none;
    failure = some e;
  }

  -- The loop of fail_all_pending over the entries of the map.
  unfoldable pub fail_entries : McpOutcome V → Map RequestId ℕ → McpClient V → McpClient V
  fail_entries o [] c = c
  fail_entries o ((key, h) ∷ m) c =
      fail_entries o m (if is_waiting (c.objects h).state then finish_at h o c else c)

  unfoldable pub fail_all_pending : String → McpClient V → McpClient V
  unfolding fail_entries
  fail_all_pending reason c =
      let c' =
        fail_entries (failure_outcome failed (mcp request_failed reason none)) c.pending_map c in
      record c' { pending_map = [] }

  unfoldable pub on_transport_disconnect : McpClient V → McpClient V
  unfolding fail_all_pending
  on_transport_disconnect c =
      let c' = fail_all_pending "transport disconnected" (record c { connected = false }) in
      if c'.has_disconnect_handler then emit disconnected c' else c'

module _ {V : Type 0} ⦃json : Json V⦄ where
  unfoldable pub check_negotiated_version : V → Result V (Unit {0})
  check_negotiated_version result = elim (json.at? result "protocolVersion") [
    | none ↦ throw (mcp invalid_request "server response missing protocolVersion" none)
    | some v ↦
        if is_string v
        then (do
          version ← json.get_string v
          (if is_supported_version version
              then ok tt
              else throw (
                  mcp invalid_request ("server negotiated unsupported protocolVersion: " <> version)
                    none)))
        else throw (mcp invalid_request "server response missing protocolVersion" none)
  ]

  -- The result of initialize, if it can be read and its version is supported.
  unfoldable pub accept_initialize : V → Result V (InitializeResult V)
  accept_initialize result = do
    ir ← initialize_result_from_json result
    checked ← check_negotiated_version result
    ok ir

  unfoldable pub bad_handshake : McpOutcome V
  bad_handshake = record {
    terminal = errored;
    result = none;
    rpc_error =
        some (error_detail invalid_request "server negotiated an unsupported protocolVersion");
    failure = none;
  }

  -- The end of complete_pending for the entry `key` with the object `h`.
  unfoldable pub settle : RequestId → ℕ → McpOutcome V → McpClient V → McpClient V
  unfolding erase_keys
  settle key h o c =
      finish_at h o (record c { pending_map = erase_keys key (c.objects h) c.pending_map })

  unfoldable pub send_initialized : McpClient V → McpClient V
  send_initialized c =
      raw_send
        (serialize_notification
          (record { jsonrpc = "2.0"; method = notif_initialized; params = none }))
        c

  -- A success of initialize: the handshake ends here, one way or the other.
  unfoldable pub settle_initialize : RequestId → ℕ → McpOutcome V → McpClient V → McpClient V
  unfolding accept_initialize bad_handshake settle send_initialized
  settle_initialize key h o c = elim o.result [
    | none ↦ settle key h bad_handshake c
    | some result ↦ elim (accept_initialize result) [
      | throw e ↦ settle key h bad_handshake c
      | ok ir ↦ settle key h o (
          send_initialized
            (record c { server_result = some ir; connected = true; initialized = true }))
    ]
  ]

  unfoldable pub complete_pending : RequestId → McpOutcome V → McpClient V → McpClient V
  unfolding settle_initialize
  complete_pending key o c = elim (find key c.pending_map) [
    | none ↦ c
    | some h ↦
        if is_succeeded o.terminal && (c.objects h).method == method_initialize
        then settle_initialize key h o c
        else settle key h o c
  ]

  -- The task of request_cancel.
  unfoldable pub request_cancel : RequestId → String → McpClient V → McpClient V
  unfolding complete_pending
  request_cancel id reason c = elim (find id c.pending_map) [
    | none ↦ c
    | some h ↦
        if is_waiting (c.objects h).state
        then (let params =
              json.from_object
                (("requestId", request_id_to_json id) ∷ ("reason", json.from_string reason) ∷ []) in
            let text : String = (if is_empty reason then "cancelled by client" else reason) in
            complete_pending id (failure_outcome cancelled (mcp request_cancelled text none)) (
              raw_send
                (serialize_notification
                  (record { jsonrpc = "2.0"; method = notif_cancelled; params = some params }))
                c))
        else c
  ]

  -- PendingRequest::on_timer of the object `h`, when the timer was not cancelled.
  unfoldable pub on_timer : ℕ → McpClient V → McpClient V
  unfolding complete_pending
  on_timer h c =
      if is_waiting (c.objects h).state
      then complete_pending (c.objects h).id
          (failure_outcome timed_out (mcp request_timed_out "request timed out" none)) c
      else c
