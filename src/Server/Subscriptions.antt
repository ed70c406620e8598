-- ===== src/Server/Subscriptions.antt =====
-- src/server.cpp: subscriptions to resources, and to whom an update goes.
use cppmcp.Base.{
  String, ◌<>◌, string_eq, Bool, false, List, [], ◌∷◌, none, some, if◌then◌else◌, is_some,
}
use cppmcp.Outcome.{Result, ok, ◌>>=◌, invalid_params, method_not_found}
use cppmcp.Json.{Json, is_string, empty_object}
use cppmcp.Map.{Map, find, insert, erase, string_ord}
use cppmcp.Protocol.{notif_resources_updated}
use cppmcp.RequestId.{RequestId}
use cppmcp.Jsonrpc.Building.{make_success_response, make_error_response}
use cppmcp.Types.Initialize.{ServerCapabilities}
use cppmcp.Server.{McpServer}
use cppmcp.Server.Outbound.{send_notification}

-- Whether a session is among those that subscribed to `uri`.
unfoldable pub subscribed : String → String → Map String (Map String (Unit {0})) → Bool
subscribed uri session_id m = elim (find session_id m) [
  | none ↦ false
  | some uris ↦ is_some (find uri uris)
]

-- The sessions that an update of `uri` goes to, in the order of the map.
unfoldable pub targets : String → Map String (Map String (Unit {0})) → List String
targets uri [] = []
targets uri ((session_id, uris) ∷ m) =
    let rest : List String = targets uri m in
    if is_some (find uri uris) then session_id ∷ rest else rest

-- subscribed_resources_[session_id].insert(uri)
unfoldable pub add_subscription :
    String → String → Map String (Map String (Unit {0})) → Map String (Map String (Unit {0}))
add_subscription uri session_id m = elim (find session_id m) [
  | none ↦ insert session_id (insert uri tt []) m
  | some uris ↦ insert session_id (insert uri tt uris) m
]

unfoldable pub remove_subscription :
    String → String → Map String (Map String (Unit {0})) → Map String (Map String (Unit {0}))
remove_subscription uri session_id m = elim (find session_id m) [
  | none ↦ m
  | some uris ↦ insert session_id (erase uri uris) m
]

-- The text of a parameter, or what the client did wrong.
pub data StringParam : Type 0 where
  given wrong : String → StringParam

module _ {V : Type 0} ⦃json : Json V⦄ where
  unfoldable pub get_string_param : V → String → Result V StringParam
  get_string_param params key = elim (json.at? params key) [
    | none ↦ ok (wrong ("Missing '" <> (key <> "' parameter")))
    | some v ↦
        if is_string v
        then (do text ← json.get_string v; ok (given text))
        else ok (wrong ("Parameter '" <> (key <> "' must be a string")))
  ]

  -- The capability is advertised where its flag is there, whatever the flag says.
  unfoldable pub advertises_subscribe : ServerCapabilities V → Bool
  advertises_subscribe c = elim c.resources [ none ↦ false | some r ↦ is_some r.subscribe ]

  unfoldable pub handle_resources_subscribe :
      RequestId → V → String → McpServer V → Result V (McpServer V × V)
  unfolding get_string_param advertises_subscribe add_subscription
  handle_resources_subscribe id params session_id s =
      if advertises_subscribe s.capabilities
      then (do
        uri ← get_string_param params "uri"
        (elim uri [
          | wrong why ↦ ok (s, make_error_response id invalid_params why none)
          | given text ↦ ok (
            record s {
              subscribed_resources = add_subscription text session_id s.subscribed_resources;
            },
            make_success_response id empty_object,
          )
        ]))
      else ok
          (s, make_error_response id method_not_found "Resource subscriptions not supported" none)

  unfoldable pub handle_resources_unsubscribe :
      RequestId → V → String → McpServer V → Result V (McpServer V × V)
  unfolding get_string_param remove_subscription
  handle_resources_unsubscribe id params session_id s = do
    uri ← get_string_param params "uri"
    (elim uri [
      | wrong why ↦ ok (s, make_error_response id invalid_params why none)
      | given text ↦ ok (
        record s {
          subscribed_resources = remove_subscription text session_id s.subscribed_resources;
        },
        make_success_response id empty_object,
      )
    ])

  -- The loop over the targets; `failed` says for which session the transport throws.
  unfoldable pub notify_each :
      V → (failed : String → Bool) → List String → McpServer V → McpServer V
  unfolding send_notification
  notify_each params failed [] s = s
  notify_each params failed (session_id ∷ rest) s =
      notify_each params failed rest
        (send_notification notif_resources_updated params session_id (failed session_id) s)

  unfoldable pub notify_resources_updated :
      (uri : String) → (failed : String → Bool) → McpServer V → McpServer V
  unfolding notify_each targets
  notify_resources_updated uri failed s =
      let params = json.from_object (("uri", json.from_string uri) ∷ []) in
      elim (targets uri s.subscribed_resources) [
        | [] ↦ send_notification notif_resources_updated params "" (failed "") s
        | first ∷ rest ↦ notify_each params failed (first ∷ rest) s
      ]
