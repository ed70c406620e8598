-- ===== src/Client/Tests.antt =====
-- A client with two requests, and the theorems about it.
use cppmcp.Base.{
  ℕ, pos, neg, String, nat_eq, ◌≡◌, refl, true, false, ◌&&◌, [], Option, none, some, if◌then◌else◌,
  arith,
}
use cppmcp.Outcome.{ok, throw, mcp}
use cppmcp.Json.Example.{
  Value, value_json, value_json-IsJson, example, object, string, null, member, end,
}
use cppmcp.RequestId.{
  RequestId, null_id, int_id, string_id, is_null_id, request_id_of_json, id_eq, request_id_to_json,
}
use cppmcp.Map.{find, insert}
use cppmcp.Protocol.{method_initialize, is_supported_version}
use cppmcp.Jsonrpc.Building.{make_success_response, serialize_request, serialize_notification}
use cppmcp.Types.Initialize.{
  InitializeResult, initialize_result_to_json, initialize_result_from_json,
  server_capabilities_from_json, implementation_from_json,
}
use cppmcp.Pending.{PendingRequest, McpOutcome, errored, cancelled, new_request, finish, is_waiting}
use cppmcp.Client.{McpClient, finish_at, raw_send}
use cppmcp.Client.Submit.{Submission, submit_request, run_submit, register_pending, needs_token_key}
use cppmcp.Client.Completion.{
  complete_pending, accept_initialize, on_transport_disconnect, fail_all_pending, on_timer,
  request_cancel, failure_outcome, check_negotiated_version,
}
use cppmcp.Client.Inbound.{InboundHandlers, success_outcome, on_transport_message}
use cppmcp.Client.Pairing.{Settles, complete_pending-Settles}
use cppmcp.Client.Handshake.{
  unsupported, Connects, Refuses, complete_pending-Connects, complete_pending-Refuses,
}
use cppmcp.Client.Drain.{failure, holds, fail_all_pending-ends}
use cppmcp.Client.Collisions.{register_pending-steals}
use cppmcp.Client.Delivery.{on_transport_message-Settles}

abbrev blank : PendingRequest Value
unfolding new_request
blank = new_request null_id "" null_id false false false (pos 0)

abbrev fresh : McpClient Value
fresh = record {
  objects = λ h. blank;
  next_id = 1;
  pending_map = [];
  default_timeout = pos 0;
  has_transport = true;
  connected = true;
  initialized = true;
  stopping = false;
  server_result = none;
  has_disconnect_handler = true;
  has_resource_updated_handler = false;
  has_list_changed_handler = false;
  has_server_log_handler = false;
  has_roots_changed_handler = false;
  trace = [];
}

abbrev call_of : String → Option RequestId → Submission Value
call_of method token = record {
  method = method;
  params = none;
  has_on_complete = true;
  has_on_error = true;
  has_on_progress = false;
  timeout = pos 30;
  progress_token = token;
}

-- A submission and its task on the strand.
abbrev submitted : Submission Value → McpClient Value → McpClient Value
submitted s c = elim (submit_request s c) [
  | throw e ↦ c
  | ok (d, num, params) ↦ run_submit num params d
]

all : Unit {0}
unfolding example new_request finish request_id_of_json request_id_to_json is_null_id
    needs_token_key find insert submit_request run_submit register_pending complete_pending
    on_transport_disconnect on_transport_message finish_at raw_send serialize_request
    serialize_notification make_success_response initialize_result_to_json
    initialize_result_from_json is_supported_version server_capabilities_from_json
    implementation_from_json check_negotiated_version accept_initialize
all = tt

-- One request with the token "t".
abbrev one : McpClient Value
one = submitted (call_of "tools/call" (some (string_id "t"))) fresh

one_keys :
    (find (int_id (pos 1)) one.pending_map ≡ some 1)
    × (find (string_id "t") one.pending_map ≡ some 1)
unfolding all
one_keys = (refl, refl)

complete_pending-Settles_example :
    Settles
      (int_id (pos 1))
      1
      (success_outcome null)
      one
      (complete_pending (int_id (pos 1)) (success_outcome null) one)
unfolding all
complete_pending-Settles_example =
    complete_pending-Settles (int_id (pos 1)) 1 (success_outcome null) one refl refl refl refl

abbrev initializing : McpClient Value
initializing = submitted (call_of method_initialize none) (record fresh { connected = false })

abbrev hello : InitializeResult Value
hello = record {
  protocol_version = "2025-03-26";
  capabilities = record {
    prompts = none;
    resources = none;
    tools = none;
    logging = none;
    completions = none;
    experimental = none;
  };
  server_info = record { name = "s"; version = "1" };
  instructions = none;
}

complete_pending-Connects_example :
    Connects
      (int_id (pos 1))
      1
      (success_outcome (initialize_result_to_json hello))
      hello
      initializing
      (complete_pending
        (int_id (pos 1))
        (success_outcome (initialize_result_to_json hello))
        initializing)
unfolding all
complete_pending-Connects_example =
    complete_pending-Connects (int_id (pos 1)) 1 (success_outcome (initialize_result_to_json hello))
      (initialize_result_to_json hello) initializing refl refl refl refl refl refl
      (string hello.protocol_version) hello refl refl refl refl

abbrev outdated : Value
outdated = initialize_result_to_json (record hello { protocol_version = "1999-01-01" })

complete_pending-Refuses_example :
    Refuses
      (int_id (pos 1))
      1
      initializing
      (complete_pending (int_id (pos 1)) (success_outcome outdated) initializing)
unfolding all
complete_pending-Refuses_example =
    complete_pending-Refuses (int_id (pos 1)) 1 (success_outcome outdated) outdated initializing
      refl refl refl refl refl refl (unsupported (string "1999-01-01") "1999-01-01" refl refl refl)

fail_all_pending-ends_example :
    ((fail_all_pending "bye" one).pending_map ≡ [])
    × ((h : ℕ)
        → (fail_all_pending "bye" one).objects h ≡ (
            if is_waiting (one.objects h).state && holds h one.pending_map
            then (finish (failure "bye") (one.objects h)).0
            else one.objects h))
fail_all_pending-ends_example = fail_all_pending-ends "bye" one

-- Request 1 waits; request 2 carries the number 1 as its token, without a progress callback.
abbrev two : McpClient Value
two =
    elim (submit_request (call_of "tools/call" (some (int_id (pos 1))))
      (submitted (call_of "ping" none) fresh)) [ throw e ↦ fresh | ok (d, num, params) ↦ d ]

register_pending-steals_example :
    let d = complete_pending (int_id (pos 1)) (success_outcome null) (register_pending 2 two) in
    ((d.objects 2).promise ≡ some (success_outcome null))
    × (d.objects 1 ≡ two.objects 1)
    × (complete_pending (int_id (pos 1)) (success_outcome null) d ≡ d)
    × (on_timer 1 d ≡ d)
    × (request_cancel (int_id (pos 1)) "" d ≡ d)
unfolding all
register_pending-steals_example =
    register_pending-steals two 2 1 (success_outcome null) (success_outcome null) "" (omega arith)
      refl refl refl refl refl

abbrev refused : McpOutcome Value
refused = failure_outcome errored (mcp (neg 1) "no" none)

abbrev given_up : McpOutcome Value
given_up = failure_outcome cancelled (mcp (neg 2) "stop" none)

abbrev no_handlers : InboundHandlers Value
no_handlers = record { sampling = none; elicitation = none; roots = none }

on_transport_message-Settles_example :
    (d : McpClient Value) × (on_transport_message no_handlers
        (make_success_response (int_id (pos 1)) null)
        one
      ≡ ok d)
    × Settles (int_id (pos 1)) 1 (success_outcome null) one d
unfolding all
on_transport_message-Settles_example =
    on_transport_message-Settles value_json-IsJson no_handlers one (int_id (pos 1)) 1 null
      (omega arith) refl refl refl refl

abbrev bad_progress : Value
bad_progress = object (member "progressToken" (string "t") (member "progress" (string "x") end))
