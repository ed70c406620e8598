-- ===== src/Types/Tests.antt =====
-- The theorems about the types at concrete values.
use cppmcp.Base.{◌≡◌, none, some, true, false}
use cppmcp.Outcome.{ok}
use cppmcp.Json.Example.{Value, value_json, value_json-IsJson, string}
use cppmcp.Types.Initialize.{
  InitializeResult, ClientCapabilities, initialize_result_to_json, initialize_result_from_json,
}
use cppmcp.Types.Roundtrip.{initialize_result_from_json-to_json}

abbrev hello : InitializeResult Value
hello = record {
  protocol_version = "2025-06-18";
  capabilities = record {
    prompts = none;
    resources = some (record { subscribe = some true; list_changed = none });
    tools = some (record { list_changed = some false });
    logging = some tt;
    completions = none;
    experimental = some (string "x");
  };
  server_info = record { name = "s"; version = "1" };
  instructions = some "be kind";
}

initialize_result_from_json-to_json_example :
    initialize_result_from_json (initialize_result_to_json hello) ≡ ok hello
initialize_result_from_json-to_json_example =
    initialize_result_from_json-to_json value_json-IsJson hello

abbrev capable : ClientCapabilities Value
capable = record {
  sampling = some tt;
  elicitation = none;
  roots = some (record { list_changed = some true });
  experimental = none;
}
