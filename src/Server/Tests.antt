-- ===== src/Server/Tests.antt =====
-- A server at concrete states, and the theorems about it.
pub mod Sessions
pub mod Requests
use cppmcp.Base.{
  ℤ, pos, ◌==◌, string_eq, ℤ_eq, ◌≡◌, refl, true, false, List, [], ◌∷◌, none, some, if◌then◌else◌,
  arith, length, ◌<◌, ◌≤◌, ◌^◌, ◌+◌, ◌-◌, is_some,
}
use cppmcp.Outcome.{ok, throw, std, map_result, unknown}
use cppmcp.Json.Example.{
  Value, value_json, value_json-IsJson, string, integer, object, member, end, example,
}
use cppmcp.Map.{find, string_ord}
use cppmcp.RequestId.{int_id, request_id_of_json}
use cppmcp.Types.Initialize.{
  ServerCapabilities, ClientCapabilities, client_capabilities_to_json,
  client_capabilities_from_json, initialize_result_to_json, InitializeResult,
}
use cppmcp.Jsonrpc.{JsonRpcErrorResponse, failure}
use cppmcp.Jsonrpc.Parsing.{parse_message, check_jsonrpc_envelope}
use cppmcp.Jsonrpc.Building.{make_success_response}
use cppmcp.Client.Completion.{accept_initialize}
use cppmcp.Protocol.{is_supported_version, method_sampling_create}
use cppmcp.Decimal.{to_string}
use cppmcp.Server.{McpServer, ListCache, ClientHello, sent_to, result_called}
use cppmcp.Server.Lists.{
  tools, prompts, page_of, list_offset, handle_list_request, list_result, cached, is_cacheable,
  invalidate_list_cache,
}
use cppmcp.Server.Pages.{follow, follow-all, page_of-bounded, page_of-wraps, list_offset-to_string}
use cppmcp.Server.Cache.{handle_list_request-cached, handle_list_request-invalidated}
use cppmcp.Server.Sessions.{requested_version, handle_initialize, hello_of}
use cppmcp.Server.Negotiation.{handle_initialize-accepted, handle_initialize-hello}
use cppmcp.Server.Outbound.{
  send_server_request, on_client_response, on_error_message, request_sampling, request_if,
}
use cppmcp.Server.Replies.{answer_of, send_server_request-answered, on_error_message-steals}
use cppmcp.Server.Subscriptions.{
  handle_resources_subscribe, handle_resources_unsubscribe, notify_resources_updated, subscribed,
}
use cppmcp.Server.Membership.{
  Subscribes, handle_resources_subscribe-Subscribes, handle_resources_unsubscribe-Subscribes,
}
use cppmcp.Server.Routing.{Happened, update_of, notify_resources_updated-reaches}

abbrev no_cache : ListCache Value
no_cache = record {
  tools_list_result = none;
  resources_list_result = none;
  resource_templates_list_result = none;
  prompts_list_result = none;
}

abbrev pub able : ServerCapabilities Value
able = record {
  prompts = none;
  resources = some (record { subscribe = some false; list_changed = none });
  tools = none;
  logging = none;
  completions = none;
  experimental = none;
}

abbrev pub sampler : ClientCapabilities Value
sampler = record {
  sampling = some tt;
  elicitation = some tt;
  roots = some (record { list_changed = some true });
  experimental = none;
}

-- A server that runs, with one request in flight and one session subscribed.
abbrev pub running : McpServer Value
running = record {
  server_info = record { name = "demo"; version = "1" };
  capabilities = able;
  has_transport = true;
  running = true;
  initialized = true;
  frozen = true;
  stopping = false;
  list_cache = no_cache;
  list_cache_enabled = true;
  list_page_size = 0;
  client_hellos = ("a", record { capabilities = sampler; protocol_version = "2025-06-18" }) ∷ [];
  negotiated_version = "";
  subscribed_resources = ("a", ("file:x", tt) ∷ []) ∷ [];
  outbound_pending =
      (
        pos 1,
        record {
          method = "roots/list";
          session_id = "a";
          has_on_result = true;
          has_on_error = true;
        },
      )
      ∷ [];
  next_outbound_id = 2;
  trace = [];
}

abbrev letters : List Value
letters = string "a" ∷ string "b" ∷ string "c" ∷ []

abbrev pub nothing : Value
nothing = object end

follow-all_example : follow (length letters + 1) 0 2 letters ≡ some letters
follow-all_example = follow-all 2 letters (omega arith) (omega arith)

abbrev at_twelve : Value
at_twelve = object (member "cursor" (string "12") end)

handle_list_request-cached_example :
    (s' : McpServer Value) × (handle_list_request tools
        (int_id (pos 1))
        nothing
        (ok letters)
        running
      ≡ ok (s', make_success_response (int_id (pos 1)) (list_result tools letters none)))
    × (handle_list_request tools (int_id (pos 2)) at_twelve (throw unknown) s'
        ≡ ok (s', make_success_response (int_id (pos 2)) (list_result tools letters none)))
    × (cached prompts s'.list_cache ≡ cached prompts no_cache)
unfolding is_cacheable cached
handle_list_request-cached_example =
    handle_list_request-cached tools (int_id (pos 1)) (int_id (pos 2)) nothing at_twelve letters
      (throw unknown) running prompts refl refl (ground arith)
