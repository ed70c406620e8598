-- ===== src/Server/Sessions.antt =====
-- src/server.cpp: initialize, and what the server keeps of each session.
use cppmcp.Base.{String, string_eq, Option, none, some, if◌then◌else◌, is_empty, is_some}
use cppmcp.Outcome.{Result, ok, throw, Exception, ◌>>=◌, catch}
use cppmcp.Json.{Json, is_object, is_string}
use cppmcp.Map.{insert, string_ord}
use cppmcp.Protocol.{is_supported_version, default_negotiated_version}
use cppmcp.RequestId.{RequestId}
use cppmcp.Jsonrpc.Building.{make_success_response}
use cppmcp.Types.Initialize.{
  ClientCapabilities, client_capabilities_from_json, InitializeResult, initialize_result_to_json,
}
use cppmcp.Server.{McpServer, ClientHello}

unfoldable pub negotiated : String → String
negotiated requested =
    if is_supported_version requested then requested else default_negotiated_version

module _ {V : Type 0} where
  unfoldable pub no_capabilities : ClientCapabilities V
  no_capabilities = record {
    sampling = none;
    elicitation = none;
    roots = none;
    experimental = none;
  }

module _ {V : Type 0} ⦃json : Json V⦄ where
  -- The protocol version that the parameters ask for, or "" where there is none.
  unfoldable pub requested_version : V → Result V String
  requested_version params = elim (json.at? params "protocolVersion") [
    | none ↦ ok ""
    | some v ↦ if is_string v then json.get_string v else ok ""
  ]

  -- The capabilities that the parameters announce, as far as they were read, and what ended the read.
  unfoldable pub announced : V → ClientCapabilities V × Option (Exception V)
  unfolding no_capabilities
  announced params = elim (json.at? params "capabilities") [
    | none ↦ (no_capabilities, none)
    | some c ↦ if is_object c then client_capabilities_from_json c else (no_capabilities, none)
  ]

  -- The two reads of record_client_hello; the first exception ends them, and what was read is kept.
  unfoldable pub hello_of : V → ClientHello V
  unfolding announced requested_version
  hello_of params =
      let (read, failure) = announced params in
      let version : Result V String = requested_version params in
      record {
        capabilities = read;
        protocol_version = if is_some failure then "" else catch version (λ e. "");
      }

  unfoldable pub record_client_hello : V → String → McpServer V → McpServer V
  unfolding hello_of
  record_client_hello params session_id s = record s {
    client_hellos = insert session_id (hello_of params) s.client_hellos;
  }

  -- `handler` is the handler of the user, if there is one. The state comes with the outcome, since an
  -- exception of the handler leaves what was recorded.
  unfoldable pub handle_initialize :
      Option (V → Result V (InitializeResult V))
      → RequestId
      → V
      → String
      → McpServer V
      → McpServer V × Result V V
  unfolding record_client_hello requested_version negotiated
  handle_initialize handler id params session_id s =
      let s' = record_client_hello params session_id s in
      elim (requested_version params) [
        | throw e ↦ (s', throw e)
        | ok requested ↦ (
          record s' { negotiated_version = negotiated requested },
          elim handler [
            | none ↦ ok (
                make_success_response id (
                  initialize_result_to_json (record {
                    protocol_version = negotiated requested;
                    capabilities = s.capabilities;
                    server_info = s.server_info;
                    instructions = none;
                  })))
            | some h ↦ do
              result ← h params
              ok (
                  make_success_response id (
                    initialize_result_to_json (
                      if is_empty result.protocol_version
                      then record result { protocol_version = negotiated requested }
                      else result)))
          ],
        )
      ]
