-- ===== src/Client/Handshake.antt =====
-- How the handshake ends on the client.
use cppmcp.Base.{
  ℕ, String, ◌<>◌, string_eq, ◌≡◌, ◌∙◌, ◌⊎◌, inl, inr, refl, true, false, none, some, arith,
  Bool-cases,
}
use cppmcp.Outcome.{Result, ok, throw, Exception, mcp, invalid_request}
use cppmcp.Json.{Json, is_string}
use cppmcp.RequestId.{RequestId, id_eq}
use cppmcp.Map.{find}
use cppmcp.Protocol.{method_initialize, is_supported_version}
use cppmcp.Types.Initialize.{InitializeResult, initialize_result_from_json}
use cppmcp.Pending.{McpOutcome, waiting, is_succeeded}
use cppmcp.Client.{McpClient, raw_send, finish_at}
use cppmcp.Client.Completion.{
  settle, settle_initialize, send_initialized, complete_pending, accept_initialize, bad_handshake,
  check_negotiated_version,
}
use cppmcp.Client.Pairing.{Settles, settle-Settles}

Result-cases :
    {V A : Type 0} (r : Result V A) → ((a : A) × (r ≡ ok a)) ⊎ ((e : Exception V) × (r ≡ throw e))
Result-cases (ok a) = inl (a, refl)
Result-cases (throw e) = inr (e, refl)

module _ {V : Type 0} where
  raw_send-objects : (m : V) (c : McpClient V) → (raw_send m c).objects ≡ c.objects
  unfolding raw_send
  raw_send-objects m c = ground arith

  raw_send-pending_map : (m : V) (c : McpClient V) → (raw_send m c).pending_map ≡ c.pending_map
  unfolding raw_send
  raw_send-pending_map m c = ground arith

  raw_send-handshake :
      (m : V) (c : McpClient V)
      → ((raw_send m c).connected ≡ c.connected) × ((raw_send m c).server_result ≡ c.server_result)
  unfolding raw_send
  raw_send-handshake m c = ground arith

  finish_at-handshake :
      (h : ℕ) (o : McpOutcome V) (c : McpClient V)
      → ((finish_at h o c).connected ≡ c.connected)
        × ((finish_at h o c).server_result ≡ c.server_result)
  unfolding finish_at
  finish_at-handshake h o c = ground arith

  Settles-same :
      {key : RequestId} {h : ℕ} {o : McpOutcome V} {b c d : McpClient V}
      → b.objects ≡ c.objects
      → b.pending_map ≡ c.pending_map
      → Settles key h o b d
      → Settles key h o c d
  Settles-same {h} {c} e f s = record {
    value = s.value;
    state = s.state;
    keys = λ k. rw (← e, ← f) (s.keys k);
    others = λ j. rw (← e) (s.others j);
  }

module _ {V : Type 0} ⦃json : Json V⦄ where
  settle-handshake :
      (key : RequestId) (h : ℕ) (o : McpOutcome V) (c : McpClient V)
      → ((settle key h o c).connected ≡ c.connected)
        × ((settle key h o c).server_result ≡ c.server_result)
  unfolding settle
  settle-handshake key h o c = finish_at-handshake h o _

  connect_with : InitializeResult V → McpClient V → McpClient V
  connect_with ir c = record c { server_result = some ir; connected = true; initialized = true }

  send_initialized-same :
      (c : McpClient V)
      → ((send_initialized c).objects ≡ c.objects)
        × ((send_initialized c).pending_map ≡ c.pending_map)
        × ((send_initialized c).connected ≡ c.connected)
        × ((send_initialized c).server_result ≡ c.server_result)
  unfolding send_initialized
  send_initialized-same c = (
    raw_send-objects _ c,
    raw_send-pending_map _ c,
    (raw_send-handshake _ c).0,
    (raw_send-handshake _ c).1,
  )

  -- The client as a successful response to its initialize request leaves it.
  pub record Connects (key : RequestId) (h : ℕ) (o : McpOutcome V) (ir : InitializeResult V)
      (c d : McpClient V) : Type 0 where
    pub settles : Settles key h o c d
    pub connected : d.connected ≡ true
    pub server_result : d.server_result ≡ some ir

  pub record Refuses (key : RequestId) (h : ℕ) (c d : McpClient V) : Type 0 where
    pub settles : Settles key h bad_handshake c d
    pub connected : d.connected ≡ c.connected
    pub server_result : d.server_result ≡ c.server_result

  version_of_initialize_result :
      (v : V) (ir : InitializeResult V)
      → initialize_result_from_json v ≡ ok ir
      → (raw : V) × (json.at? v "protocolVersion" ≡ some raw)
        × (json.get_string raw ≡ ok ir.protocol_version)
  unfolding initialize_result_from_json
  version_of_initialize_result v ir e = ground arith

  checked :
      (v raw : V) (version : String)
      → json.at? v "protocolVersion" ≡ some raw
      → is_string raw ≡ true
      → json.get_string raw ≡ ok version
      → is_supported_version version ≡ true
      → check_negotiated_version v ≡ ok tt
  unfolding check_negotiated_version
  checked v raw version member text read supported = ground arith

  accept_initialize-usable :
      (result raw : V) (ir : InitializeResult V)
      → initialize_result_from_json result ≡ ok ir
      → json.at? result "protocolVersion" ≡ some raw
      → is_string raw ≡ true
      → is_supported_version ir.protocol_version ≡ true
      → accept_initialize result ≡ ok ir
  unfolding accept_initialize
  accept_initialize-usable result raw ir read member text supported =
      let (raw', member', version) = version_of_initialize_result result ir read in
      let e = checked result raw' ir.protocol_version member' (ground arith) version supported in
      rw (read, e) refl

  -- A result of initialize that cannot be read, has no version as a text, or one that the client
  -- does not support.
  pub data IsUnusable (result : V) : Type 0 where
    unreadable :
        (e : Exception V) → initialize_result_from_json result ≡ throw e → IsUnusable result
    versionless : json.at? result "protocolVersion" ≡ none → IsUnusable result
    no_text :
        (raw : V)
        → json.at? result "protocolVersion" ≡ some raw
        → is_string raw ≡ false
        → IsUnusable result
    unsupported :
        (raw : V) (version : String)
        → json.at? result "protocolVersion" ≡ some raw
        → json.get_string raw ≡ ok version
        → is_supported_version version ≡ false
        → IsUnusable result

  abbrev missing_version : Exception V
  missing_version = mcp invalid_request "server response missing protocolVersion" none

  check_negotiated_version-no_text :
      (v raw : V)
      → json.at? v "protocolVersion" ≡ some raw
      → is_string raw ≡ false
      → (e : Exception V) × (check_negotiated_version v ≡ throw e)
  unfolding check_negotiated_version
  check_negotiated_version-no_text v raw member bad = (missing_version, ground arith)

  check_negotiated_version-missing :
      (v : V)
      → json.at? v "protocolVersion" ≡ none
      → (e : Exception V) × (check_negotiated_version v ≡ throw e)
  unfolding check_negotiated_version
  check_negotiated_version-missing v member = (missing_version, ground arith)

  check_negotiated_version-unsupported :
      (v raw : V) (version : String)
      → json.at? v "protocolVersion" ≡ some raw
      → json.get_string raw ≡ ok version
      → is_supported_version version ≡ false
      → (e : Exception V) × (check_negotiated_version v ≡ throw e)
  unfolding check_negotiated_version
  check_negotiated_version-unsupported v raw version member read bad =
      elim (Bool-cases (is_string raw)) [
        | inl text ↦ (
          mcp invalid_request ("server negotiated unsupported protocolVersion: " <> version) none,
          ground arith,
        )
        | inr other ↦ (missing_version, ground arith)
      ]

  accept_initialize-checked :
      (result : V) (e : Exception V)
      → check_negotiated_version result ≡ throw e
      → (e' : Exception V) × (accept_initialize result ≡ throw e')
  unfolding accept_initialize
  accept_initialize-checked result e h = elim (Result-cases (initialize_result_from_json result)) [
    | inl (ir, read) ↦ (e, rw (read, h) refl)
    | inr (e', read) ↦ (e', rw read refl)
  ]

  accept_initialize-unusable :
      (result : V) → IsUnusable result → (e : Exception V) × (accept_initialize result ≡ throw e)
  unfolding accept_initialize
  accept_initialize-unusable result (unreadable e read) = (e, rw read refl)
  accept_initialize-unusable result (versionless member) =
      let (e, h) = check_negotiated_version-missing result member in
      accept_initialize-checked result e h
  accept_initialize-unusable result (no_text raw member bad) =
      let (e, h) = check_negotiated_version-no_text result raw member bad in
      accept_initialize-checked result e h
  accept_initialize-unusable result (unsupported raw version member read bad) =
      let (e, h) = check_negotiated_version-unsupported result raw version member read bad in
      accept_initialize-checked result e h

  module _ (key : RequestId) (h : ℕ) (o : McpOutcome V) (result : V) (c : McpClient V)
      (found : find key c.pending_map ≡ some h) (w : (c.objects h).state ≡ waiting)
      (p : (c.objects h).promise ≡ none) (done : is_succeeded o.terminal ≡ true)
      (is_init : (c.objects h).method ≡ method_initialize) (has : o.result ≡ some result) where
    reaches : complete_pending key o c ≡ settle_initialize key h o c
    unfolding complete_pending
    reaches = ground (arith, string_eq.same_iff (c.objects h).method method_initialize)

    accepted :
        (ir : InitializeResult V)
        → accept_initialize result ≡ ok ir
        → settle_initialize key h o c ≡ settle key h o (send_initialized (connect_with ir c))
    unfolding settle_initialize connect_with
    accepted ir e = ground arith

    -- A result of initialize that from_json can read, with a text for its version and a version that
    -- the client supports: it connects the client and is kept, and the request ends with the response.
    pub complete_pending-Connects :
        (raw : V) (ir : InitializeResult V)
        → initialize_result_from_json result ≡ ok ir
        → json.at? result "protocolVersion" ≡ some raw
        → is_string raw ≡ true
        → is_supported_version ir.protocol_version ≡ true
        → Connects key h o ir c (complete_pending key o c)
    unfolding connect_with
    complete_pending-Connects raw ir read member text supported =
        let b = connect_with ir c in
        let (objects, pending_map, connected, kept) = send_initialized-same b in
        let same = settle-handshake key h o (send_initialized b) in
        let e = accept_initialize-usable result raw ir read member text supported in
        rw (reaches ∙ accepted ir e) (record {
          settles =
              Settles-same {c = c} objects pending_map
                (settle-Settles key h o (send_initialized b) (rw objects w) (rw objects p));
          connected = same.0 ∙ connected;
          server_result = same.1 ∙ kept;
        })

    refused :
        (e : Exception V)
        → accept_initialize result ≡ throw e
        → settle_initialize key h o c ≡ settle key h bad_handshake c
    unfolding settle_initialize
    refused e h' = ground arith

    -- A result of initialize that cannot be read, has no version as a text, or one that the client does
    -- not support: the connection is left as it was, and the request ends with an error about the
    -- version.
    pub complete_pending-Refuses : IsUnusable result → Refuses key h c (complete_pending key o c)
    complete_pending-Refuses unusable =
        let (e, h') = accept_initialize-unusable result unusable in
        let same = settle-handshake key h bad_handshake c in
        rw (reaches ∙ refused e h') (record {
          settles = settle-Settles key h bad_handshake c w p;
          connected = same.0;
          server_result = same.1;
        })
