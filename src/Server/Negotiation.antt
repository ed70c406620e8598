-- ===== src/Server/Negotiation.antt =====
-- initialize between both sides: src/server.cpp answers, src/client.cpp accepts.
use cppmcp.Base.{String, ◌==◌, string_eq, true, ◌≡◌, refl, Option, none, some, arith, if◌then◌else◌}
use cppmcp.Outcome.{Result, ok}
use cppmcp.Json.{Json, IsJson, is_object}
use cppmcp.Map.{find, find-insert, string_ord}
use cppmcp.Protocol.{is_supported_version, default_negotiated_version}
use cppmcp.RequestId.{RequestId}
use cppmcp.Jsonrpc.Building.{make_success_response}
use cppmcp.Types.Initialize.{
  InitializeResult, ClientCapabilities, initialize_result_to_json, client_capabilities_to_json,
}
use cppmcp.Types.Roundtrip.{
  initialize_result_from_json-to_json, at?-protocol_version, client_capabilities_from_json-to_json,
}
use cppmcp.Client.Completion.{accept_initialize, check_negotiated_version}
use cppmcp.Server.{McpServer}
use cppmcp.Server.Sessions.{
  requested_version, announced, hello_of, record_client_hello, negotiated, handle_initialize,
}

default-is_supported : is_supported_version default_negotiated_version ≡ true
unfolding is_supported_version
default-is_supported = refl

negotiated-is_supported : (v : String) → is_supported_version (negotiated v) ≡ true
unfolding negotiated
negotiated-is_supported v = ground (arith, default-is_supported)

module _ {V : Type 0} ⦃json : Json V⦄ (laws : IsJson json) where
  check_negotiated_version-to_json :
      (r : InitializeResult V)
      → is_supported_version r.protocol_version ≡ true
      → check_negotiated_version (initialize_result_to_json r) ≡ ok tt
  unfolding check_negotiated_version
  check_negotiated_version-to_json r h = ground (
    arith,
    at?-protocol_version laws r,
    laws.kind-from_string r.protocol_version,
    laws.get_string-from_string r.protocol_version,
  )

  accept_initialize-to_json :
      (r : InitializeResult V)
      → is_supported_version r.protocol_version ≡ true
      → accept_initialize (initialize_result_to_json r) ≡ ok r
  unfolding accept_initialize
  accept_initialize-to_json r h =
      ground
        (arith, initialize_result_from_json-to_json laws r, check_negotiated_version-to_json r h)

  -- Whatever version the parameters of initialize ask for, if any, a server without a handler of the
  -- user answers with a result that the client accepts as it was built, with the server's capabilities
  -- and a version that both support; this is the version asked for if that is supported, and it is
  -- the one that the server keeps.
  pub handle_initialize-accepted :
      (id : RequestId) (params : V) (asked session_id : String) (s : McpServer V)
      → requested_version params ≡ ok asked
      → (r : InitializeResult V) × ((handle_initialize none id params session_id s).1
          ≡ ok (make_success_response id (initialize_result_to_json r)))
        × (accept_initialize (initialize_result_to_json r) ≡ ok r)
        × (r.capabilities ≡ s.capabilities)
        × (is_supported_version r.protocol_version ≡ true)
        × (r.protocol_version
            ≡ (if is_supported_version asked then asked else default_negotiated_version))
        × ((handle_initialize none id params session_id s).0.negotiated_version
            ≡ r.protocol_version)
  unfolding handle_initialize negotiated
  handle_initialize-accepted id params asked session_id s reads =
      let r : InitializeResult V = record {
        protocol_version = negotiated asked;
        capabilities = s.capabilities;
        server_info = s.server_info;
        instructions = none;
      } in
      (
        r,
        ground arith,
        accept_initialize-to_json r (negotiated-is_supported asked),
        refl,
        negotiated-is_supported asked,
        refl,
        ground arith,
      )

  -- Whoever handles initialize, with the capabilities that a client writes the server keeps for the
  -- session exactly these, with the version that was asked for, and every other session is as it was.
  pub handle_initialize-hello :
      (handler : Option (V → Result V (InitializeResult V))) (id : RequestId) (params : V)
      (c : ClientCapabilities V) (asked session_id other : String) (s : McpServer V)
      → json.at? params "capabilities" ≡ some (client_capabilities_to_json c)
      → is_object (client_capabilities_to_json c) ≡ true
      → requested_version params ≡ ok asked
      → find other (handle_initialize handler id params session_id s).0.client_hellos ≡ (
          if session_id == other
          then some (record { capabilities = c; protocol_version = asked })
          else find other s.client_hellos)
  unfolding handle_initialize record_client_hello hello_of announced
  handle_initialize-hello handler id params c asked session_id other s has object reads = ground (
    arith,
    client_capabilities_from_json-to_json laws c,
    find-insert session_id (hello_of params) other s.client_hellos,
  )
