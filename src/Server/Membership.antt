-- ===== src/Server/Membership.antt =====
-- src/server.cpp: which sessions are subscribed after a request.
use cppmcp.Base.{
  String, ◌==◌, string_eq, Bool, true, false, ◌&&◌, ◌≡◌, [], some, if◌then◌else◌, arith, inl, inr,
  Option-cases,
}
use cppmcp.Outcome.{ok}
use cppmcp.Json.{Json, is_string, empty_object}
use cppmcp.Map.{Map, find, insert, erase, string_ord, find-insert, find-erase}
use cppmcp.RequestId.{RequestId}
use cppmcp.Jsonrpc.Building.{make_success_response}
use cppmcp.Types.Initialize.{ResourcesCapability}
use cppmcp.Server.{McpServer}
use cppmcp.Server.Subscriptions.{
  subscribed, add_subscription, remove_subscription, get_string_param, advertises_subscribe, given,
  handle_resources_subscribe, handle_resources_unsubscribe,
}

subscribed-add :
    (uri session_id uri' session_id' : String) (m : Map String (Map String (Unit {0})))
    → subscribed uri' session_id' (add_subscription uri session_id m) ≡ (
        if session_id == session_id'
        then if uri == uri' then true else subscribed uri' session_id' m
        else subscribed uri' session_id' m)
unfolding subscribed add_subscription find insert
subscribed-add uri session_id uri' session_id' m = elim (Option-cases (find session_id m)) [
  | inl new ↦ ground (
    arith,
    find-insert session_id (insert uri tt []) session_id' m,
    find-insert uri tt uri' [],
    string_eq.same_iff session_id session_id',
  )
  | inr (uris, old) ↦ ground (
    arith,
    find-insert session_id (insert uri tt uris) session_id' m,
    find-insert uri tt uri' uris,
    string_eq.same_iff session_id session_id',
  )
]

subscribed-remove :
    (uri session_id uri' session_id' : String) (m : Map String (Map String (Unit {0})))
    → subscribed uri' session_id' (remove_subscription uri session_id m) ≡ (
        if session_id == session_id'
        then if uri == uri' then false else subscribed uri' session_id' m
        else subscribed uri' session_id' m)
unfolding subscribed remove_subscription
subscribed-remove uri session_id uri' session_id' m = elim (Option-cases (find session_id m)) [
  | inl new ↦ ground (arith, string_eq.same_iff session_id session_id')
  | inr (uris, old) ↦ ground (
    arith,
    find-insert session_id (erase uri uris) session_id' m,
    find-erase uri uri' uris,
    string_eq.same_iff session_id session_id',
  )
]

module _ {V : Type 0} where
  -- A member of the sessions after an operation.
  abbrev pub Subscribes : (s s' : McpServer V) → (uri session_id : String) → Bool → Type 0
  Subscribes s s' uri session_id now =
      (uri' session_id' : String)
      → subscribed uri' session_id' s'.subscribed_resources ≡ (
          if (session_id == session_id') && (uri == uri')
          then now
          else subscribed uri' session_id' s.subscribed_resources)

module _ {V : Type 0} ⦃json : Json V⦄ where
  get_string_param-given :
      (params v : V) (key text : String)
      → json.at? params key ≡ some v
      → is_string v ≡ true
      → json.get_string v ≡ ok text
      → get_string_param params key ≡ ok (given text)
  unfolding get_string_param
  get_string_param-given params v key text there string reads = ground arith

  -- Where the server's capabilities have a flag for subscriptions, whatever it says, a request to
  -- subscribe with a text as its uri succeeds; then its session is subscribed to the uri, and no other
  -- subscription of any session has changed.
  pub handle_resources_subscribe-Subscribes :
      (id : RequestId) (params v : V) (uri session_id : String) (s : McpServer V)
      (r : ResourcesCapability) (flag : Bool)
      → s.capabilities.resources ≡ some r
      → r.subscribe ≡ some flag
      → json.at? params "uri" ≡ some v
      → is_string v ≡ true
      → json.get_string v ≡ ok uri
      → (s' : McpServer V) × (handle_resources_subscribe id params session_id s
          ≡ ok (s', make_success_response id empty_object))
        × Subscribes s s' uri session_id true
  unfolding handle_resources_subscribe advertises_subscribe
  handle_resources_subscribe-Subscribes id params v uri session_id s r flag gate set there string
        reads =
      (
        record s { subscribed_resources = add_subscription uri session_id s.subscribed_resources },
        ground (arith, get_string_param-given params v "uri" uri there string reads),
        λ uri' session_id'.
            ground (arith, subscribed-add uri session_id uri' session_id' s.subscribed_resources),
      )

  -- A request to unsubscribe with a text as its uri succeeds; then its session is not subscribed to
  -- the uri, and no other subscription of any session has changed.
  pub handle_resources_unsubscribe-Subscribes :
      (id : RequestId) (params v : V) (uri session_id : String) (s : McpServer V)
      → json.at? params "uri" ≡ some v
      → is_string v ≡ true
      → json.get_string v ≡ ok uri
      → (s' : McpServer V) × (handle_resources_unsubscribe id params session_id s
          ≡ ok (s', make_success_response id empty_object))
        × Subscribes s s' uri session_id false
  unfolding handle_resources_unsubscribe
  handle_resources_unsubscribe-Subscribes id params v uri session_id s there string reads = (
    record s { subscribed_resources = remove_subscription uri session_id s.subscribed_resources },
    ground (arith, get_string_param-given params v "uri" uri there string reads),
    λ uri' session_id'.
        ground (arith, subscribed-remove uri session_id uri' session_id' s.subscribed_resources),
  )
