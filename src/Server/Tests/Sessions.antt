-- ===== src/Server/Tests/Sessions.antt =====
-- The theorems about sessions, requests of the server and subscriptions, at a concrete server.
use cppmcp.Base.{
  [], ℤ, pos, neg, ◌==◌, string_eq, ℤ_eq, ◌≡◌, refl, true, false, ◌∷◌, none, some, if◌then◌else◌,
}
use cppmcp.Outcome.{ok}
use cppmcp.Json.Example.{
  Value, value_json, value_json-IsJson, string, integer, object, member, end, example,
}
use cppmcp.Map.{find, string_ord}
use cppmcp.RequestId.{int_id, request_id_of_json}
use cppmcp.Types.Initialize.{
  client_capabilities_to_json, initialize_result_to_json, InitializeResult,
}
use cppmcp.Jsonrpc.{JsonRpcErrorResponse, failure}
use cppmcp.Jsonrpc.Parsing.{parse_message, check_jsonrpc_envelope}
use cppmcp.Jsonrpc.Building.{make_success_response}
use cppmcp.Client.Completion.{accept_initialize}
use cppmcp.Protocol.{is_supported_version}
use cppmcp.Server.{McpServer, ClientHello, sent_to, result_called, error_called}
use cppmcp.Server.Sessions.{requested_version, handle_initialize}
use cppmcp.Server.Negotiation.{handle_initialize-accepted}
use cppmcp.Server.Outbound.{
  send_server_request, on_client_response, on_error_message, request_sampling, request_if,
}
use cppmcp.Server.Lifecycle.{stop}
use cppmcp.Server.Shutdown.{stop-silent, next, here, asks, receives}
use cppmcp.Server.Dispatch.{on_message}
use cppmcp.Server.Tests.Requests.{registry, no_match}
use cppmcp.Server.Replies.{
  answer_of, entry_of, send_server_request-answered, on_error_message-steals,
}
use cppmcp.Server.Asking.{sampling, announces, message_of, ask-announced}
use cppmcp.Server.Subscriptions.{handle_resources_subscribe, notify_resources_updated, subscribed}
use cppmcp.Server.Membership.{Subscribes, handle_resources_subscribe-Subscribes}
use cppmcp.Server.Routing.{Happened, update_of, notify_resources_updated-reaches}
use cppmcp.Server.Tests.{able, sampler, running, nothing}

abbrev hello : Value
hello = object (
    member "protocolVersion" (string "2025-03-26")
      (member "capabilities" (client_capabilities_to_json sampler) end))

handle_initialize-accepted_example :
    (r : InitializeResult Value) × ((handle_initialize none (int_id (pos 1)) hello "b" running).1
      ≡ ok (make_success_response (int_id (pos 1)) (initialize_result_to_json r)))
    × (accept_initialize (initialize_result_to_json r) ≡ ok r)
    × (r.capabilities ≡ able)
    × (is_supported_version r.protocol_version ≡ true)
    × (r.protocol_version ≡ "2025-03-26")
    × ((handle_initialize none (int_id (pos 1)) hello "b" running).0.negotiated_version
        ≡ r.protocol_version)
unfolding requested_version example is_supported_version
handle_initialize-accepted_example =
    handle_initialize-accepted value_json-IsJson (int_id (pos 1)) hello "2025-03-26" "b" running
      refl

send_server_request-answered_example :
    (s' t u : McpServer Value) × (send_server_request "roots/list" nothing true true "a" false
        running
      ≡ (s', true))
    × ((k : ℤ)
        → find k s'.outbound_pending ≡ (
            if pos 2 == k
            then some (entry_of "roots/list" "a")
            else find k running.outbound_pending))
    × ((send_server_request "sampling/createMessage" nothing true false "b" true s').0 ≡ t)
    × (on_client_response (answer_of (int_id (pos 2)) (string "yes")) t ≡ u)
    × (u.trace ≡ result_called (pos 2) (string "yes") ∷ t.trace)
    × (on_client_response (answer_of (int_id (pos 2)) (string "no")) u ≡ u)
    × ((k : ℤ)
        → find k u.outbound_pending ≡ (if pos 2 == k then none else find k t.outbound_pending))
send_server_request-answered_example =
    send_server_request-answered "roots/list" nothing (string "yes") (string "no") "a"
      "sampling/createMessage" nothing true false "b" true running refl refl

abbrev bad_method : Value
bad_method = object (
    member "jsonrpc" (string "2.0")
      (member "id" (integer (pos 1)) (member "method" (integer (pos 3)) end)))

on_error_message-steals_example :
    (r : JsonRpcErrorResponse Value) × (parse_message bad_method ≡ failure r)
    × ((on_error_message r running).1 ≡ none)
    × ((on_error_message r running).0.trace
        ≡ error_called (pos 1) (neg 32600) "Method must be a string" ∷ [])
    × (find (pos 1) (on_error_message r running).0.outbound_pending ≡ none)
unfolding example find check_jsonrpc_envelope request_id_of_json
on_error_message-steals_example =
    on_error_message-steals value_json-IsJson (λ key v. refl) bad_method (integer (pos 1))
      (integer (pos 3)) (pos 1) _ running refl refl refl refl refl refl refl

ask-announced_example :
    (seen : ClientHello Value) × (find "a" running.client_hellos ≡ some seen)
    × (announces sampling seen.capabilities ≡ true)
    × ((request_sampling nothing "a" false running).0.trace
        ≡ sent_to "a" (message_of sampling nothing (pos 2)) ∷ [])
unfolding example find request_if request_sampling
ask-announced_example =
    ask-announced sampling nothing "a" false running (request_sampling nothing "a" false running).0
      refl refl

abbrev for_y : Value
for_y = object (member "uri" (string "file:y") end)

handle_resources_subscribe-Subscribes_example :
    (s' : McpServer Value) × (handle_resources_subscribe (int_id (pos 1)) for_y "b" running
      ≡ ok (s', make_success_response (int_id (pos 1)) (object end)))
    × Subscribes running s' "file:y" "b" true
unfolding example
handle_resources_subscribe-Subscribes_example =
    handle_resources_subscribe-Subscribes (int_id (pos 1)) for_y (string "file:y") "file:y" "b"
      running (record { subscribe = some false; list_changed = none }) false refl refl refl refl
      refl

abbrev for_x : Value
for_x = object (member "uri" (string "file:x") end)

notify_resources_updated-reaches_example :
    Happened
      (sent_to "a" (update_of "file:x"))
      (notify_resources_updated "file:x" (λ session_id. session_id == "b") running)
unfolding subscribed find
notify_resources_updated-reaches_example =
    notify_resources_updated-reaches value_json-IsJson "file:x" "a"
      (λ session_id. session_id == "b") running refl refl refl refl refl

abbrev after_stop : McpServer Value
after_stop = (send_server_request "roots/list" nothing true true "a" false (stop running)).0

stop-silent_example : (on_message 5 no_match bad_method "a" registry after_stop).0.trace ≡ []
stop-silent_example =
    stop-silent 5 no_match running (on_message 5 no_match bad_method "a" registry after_stop).0 refl
      (next after_stop (on_message 5 no_match bad_method "a" registry after_stop).0
        (next (stop running) after_stop here (asks "roots/list" nothing true true "a" false))
        (receives bad_method "a" registry))
