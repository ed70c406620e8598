-- ===== src/Server/Asking.antt =====
-- src/server.cpp: the requests of the server that need a capability of the client.
use cppmcp.Base.{
  ℤ, pos, ℤ_eq, String, string_eq, Bool, true, false, ◌≡◌, inl, inr, ◌∷◌, some, is_empty, is_some,
  arith, Option-cases,
}
use cppmcp.Json.{Json, empty_object}
use cppmcp.Map.{find, string_ord, ℤ_ord}
use cppmcp.RequestId.{int_id}
use cppmcp.Jsonrpc.Building.{serialize_request}
use cppmcp.Types.Initialize.{ClientCapabilities}
use cppmcp.Server.{McpServer, ClientHello, sent_to}
use cppmcp.Server.Outbound.{
  send_server_request, request_if, client_can, request_sampling, request_elicitation, request_roots,
}

-- What the server can ask a client for.
pub data Asked : Type 0 where
  sampling elicitation roots : Asked

module _ {V : Type 0} ⦃json : Json V⦄ where
  -- The requests that need a capability of the client, each by its call, its capability and its method.
  abbrev pub ask : Asked → V → String → Bool → McpServer V → McpServer V × Bool
  ask sampling params session_id failed s = request_sampling params session_id failed s
  ask elicitation params session_id failed s = request_elicitation params session_id failed s
  ask roots params session_id failed s = request_roots session_id failed s

  abbrev pub announces : Asked → ClientCapabilities V → Bool
  announces sampling c = is_some c.sampling
  announces elicitation c = is_some c.elicitation
  announces roots c = is_some c.roots

  abbrev pub message_of : Asked → V → ℤ → V
  message_of kind params n = serialize_request (record {
    jsonrpc = "2.0";
    id = int_id n;
    method = elim kind [
      | sampling ↦ "sampling/createMessage"
      | elicitation ↦ "elicitation/create"
      | roots ↦ "roots/list"
    ];
    params = some (elim kind [ roots ↦ empty_object | _ ↦ params ]);
  })

  request_if-sent :
      (has : ClientCapabilities V → Bool) (method : String) (params : V) (session_id : String)
      (failed : Bool) (s s' : McpServer V)
      → is_empty session_id ≡ false
      → request_if has method params session_id failed s ≡ (s', true)
      → (hello : ClientHello V) × (find session_id s.client_hellos ≡ some hello)
        × (has hello.capabilities ≡ true)
        × (s'.trace
            ≡ sent_to session_id (
                serialize_request (record {
                  jsonrpc = "2.0";
                  id = int_id (pos s.next_outbound_id);
                  method = method;
                  params = some params;
                }))
              ∷ s.trace)
  unfolding request_if client_can send_server_request
  request_if-sent has method params session_id failed s s' named sent =
      elim (Option-cases (find session_id s.client_hellos)) [
        | inl unknown ↦ ground arith
        | inr (hello, e) ↦ (hello, e, ground arith, ground arith)
      ]

  -- Where a request for sampling, elicitation or roots says that it has asked a session with a name,
  -- that session's initialize has announced the capability of that name, and exactly one message was
  -- sent, to that session: the request with that capability's method.
  pub ask-announced :
      (kind : Asked) (params : V) (session_id : String) (failed : Bool) (s s' : McpServer V)
      → is_empty session_id ≡ false
      → ask kind params session_id failed s ≡ (s', true)
      → (hello : ClientHello V) × (find session_id s.client_hellos ≡ some hello)
        × (announces kind hello.capabilities ≡ true)
        × (s'.trace
            ≡ sent_to session_id (message_of kind params (pos s.next_outbound_id)) ∷ s.trace)
  unfolding request_sampling request_elicitation request_roots
  ask-announced sampling params session_id failed s s' named sent =
      request_if-sent _ _ params session_id failed s s' named sent
  ask-announced elicitation params session_id failed s s' named sent =
      request_if-sent _ _ params session_id failed s s' named sent
  ask-announced roots params session_id failed s s' named sent =
      request_if-sent _ _ empty_object session_id failed s s' named sent
