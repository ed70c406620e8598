-- ===== src/Client/Delivery.antt =====
-- What a message of the server does to the client's requests.
use cppmcp.Base.{ℕ, ◌==◌, string_eq, ◌≡◌, false, none, some, arith}
use cppmcp.Outcome.{ok, throw, Exception}
use cppmcp.Json.{Json, IsJson, value_or}
use cppmcp.RequestId.{RequestId, request_id_of_json, id_eq, IsInt64Id}
use cppmcp.Map.{find}
use cppmcp.Protocol.{method_initialize, notif_progress}
use cppmcp.Jsonrpc.Building.{make_success_response}
use cppmcp.Jsonrpc.Responses.{parse-make_success_response}
use cppmcp.Pending.{waiting}
use cppmcp.Client.{McpClient}
use cppmcp.Client.Completion.{complete_pending}
use cppmcp.Client.Pairing.{Settles, complete_pending-Settles}
use cppmcp.Client.Inbound.{
  InboundHandlers, success_outcome, handle_notification, on_transport_message,
}

module _ {V : Type 0} ⦃json : Json V⦄ where
  -- The answer that a server builds for a request that waits under its id, other than initialize,
  -- ends exactly this request, with the server's result.
  pub on_transport_message-Settles :
      (laws : IsJson json) (handlers : InboundHandlers V) (c : McpClient V) (id : RequestId) (h : ℕ)
      (result : V)
      → IsInt64Id id
      → find id c.pending_map ≡ some h
      → (c.objects h).state ≡ waiting
      → (c.objects h).promise ≡ none
      → ((c.objects h).method == method_initialize) ≡ false
      → (d : McpClient V) × (on_transport_message handlers (make_success_response id result) c
          ≡ ok d)
        × Settles id h (success_outcome result) c d
  unfolding on_transport_message
  on_transport_message-Settles laws handlers c id h result i f w p n = (
    complete_pending id (success_outcome result) c,
    ground (arith, parse-make_success_response laws id result i),
    complete_pending-Settles id h (success_outcome result) c f w p n,
  )

  -- A progress notification whose progress or total is there but is no number throws out of the
  -- handler of the message, if its token can be read; so does the whole task.
  pub handle_progress-throws :
      (p raw : V) (token : RequestId) (e : Exception V) (c : McpClient V)
      → json.at? p "progressToken" ≡ some raw
      → request_id_of_json raw ≡ ok token
      → value_or json.get_double p "progress" json.from_zero ≡ throw e
      → handle_notification (record { jsonrpc = "2.0"; method = notif_progress; params = some p }) c
        ≡ throw e
  unfolding handle_notification
  handle_progress-throws p raw token e c m t v = ground arith
