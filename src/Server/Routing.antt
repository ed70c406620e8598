-- ===== src/Server/Routing.antt =====
-- src/server.cpp: whom an update of a resource reaches.
use cppmcp.Base.{
  String, ◌==◌, string_eq, Bool, true, false, ◌||◌, ◌≡◌, refl, ap, sym, subst, not, ◌⊎◌, ◌∙◌, List,
  [], ◌∷◌, ◌++◌, none, some, if◌then◌else◌, is_empty, arith, any, Bool-cases, inl, inr,
}
use cppmcp.Json.{Json, IsJson, is_null}
use cppmcp.Map.{Map, find, string_ord}
use cppmcp.Protocol.{notif_resources_updated}
use cppmcp.Jsonrpc.Building.{serialize_notification}
use cppmcp.Server.{McpServer, ServerEvent, sent_to, broadcast}
use cppmcp.Server.Outbound.{send_notification}
use cppmcp.Server.Subscriptions.{subscribed, targets, notify_each, notify_resources_updated}

targets_complete :
    (uri session_id : String) (m : Map String (Map String (Unit {0})))
    → subscribed uri session_id m ≡ true
    → any (λ target. target == session_id) (targets uri m) ≡ true
unfolding targets subscribed find
targets_complete uri session_id [] h = ground arith
targets_complete uri session_id ((key, uris) ∷ m) h =
    ground (arith, targets_complete uri session_id m, string_eq.same_iff key session_id)

module _ {V : Type 0} where
  -- The event has happened.
  abbrev pub Happened : ServerEvent V → McpServer V → Type 0
  Happened e s =
      (later : List (ServerEvent V)) × (earlier : List (ServerEvent V)) × (s.trace
        ≡ later ++ e ∷ earlier)

module _ {V : Type 0} ⦃json : Json V⦄ where
  -- The notification of an update.
  abbrev pub update_of : String → V
  update_of uri = serialize_notification (record {
    jsonrpc = "2.0";
    method = notif_resources_updated;
    params = some (json.from_object (("uri", json.from_string uri) ∷ []));
  })

  send_notification-keeps :
      (method : String) (params : V) (session_id : String) (failed : Bool) (s : McpServer V)
      → ((send_notification method params session_id failed s).has_transport ≡ s.has_transport)
        × ((send_notification method params session_id failed s).stopping ≡ s.stopping)
  unfolding send_notification
  send_notification-keeps method params session_id failed s = ground arith

  send_notification-trace :
      (method : String) (params : V) (session_id : String) (failed : Bool) (s : McpServer V)
      → ((send_notification method params session_id failed s).trace ≡ s.trace)
        ⊎ ((e : ServerEvent V) × ((send_notification method params session_id failed s).trace
              ≡ e ∷ s.trace))
  unfolding send_notification
  send_notification-trace method params session_id failed s =
      let message = serialize_notification (record {
        jsonrpc = "2.0";
        method = method;
        params = if is_null params then none else some params;
      }) in
      let e : ServerEvent V =
        (if is_empty session_id then broadcast message else sent_to session_id message) in
      elim (Bool-cases (not s.has_transport || (s.stopping || failed))) [
        | inl silent ↦ inl (ground arith)
        | inr sends ↦ inr (e, ground arith)
      ]

  send_notification-Happened :
      (method : String) (params : V) (session_id : String) (failed : Bool) (s : McpServer V)
      (e : ServerEvent V)
      → Happened e s
      → Happened e (send_notification method params session_id failed s)
  send_notification-Happened method params session_id failed s e (later, earlier, h) =
      elim (send_notification-trace method params session_id failed s) [
        | inl silent ↦ (later, earlier, silent ∙ h)
        | inr (e', more) ↦ (e' ∷ later, earlier, more ∙ ap (◌∷◌ e') h)
      ]

  notify_each-Happened :
      (params : V) (failed : String → Bool) (sessions : List String) (s : McpServer V)
      (e : ServerEvent V)
      → Happened e s
      → Happened e (notify_each params failed sessions s)
  unfolding notify_each
  notify_each-Happened params failed [] s e h = h
  notify_each-Happened params failed (session_id ∷ rest) s e h =
      notify_each-Happened params failed rest _ e (
        send_notification-Happened notif_resources_updated params session_id (failed session_id) s e
          h)

  send_notification-sent :
      (uri session_id : String) (s : McpServer V)
      → s.has_transport ≡ true
      → s.stopping ≡ false
      → is_empty session_id ≡ false
      → is_null (json.from_object (("uri", json.from_string uri) ∷ [])) ≡ false
      → Happened (sent_to session_id (update_of uri)) (
          send_notification notif_resources_updated
            (json.from_object (("uri", json.from_string uri) ∷ []))
            session_id
            false
            s)
  unfolding send_notification
  send_notification-sent uri session_id s up going named object = ([], s.trace, ground arith)

  notify_each-reaches :
      (uri session_id : String) (failed : String → Bool) (sessions : List String) (s : McpServer V)
      → any (λ target. target == session_id) sessions ≡ true
      → s.has_transport ≡ true
      → s.stopping ≡ false
      → is_empty session_id ≡ false
      → failed session_id ≡ false
      → is_null (json.from_object (("uri", json.from_string uri) ∷ [])) ≡ false
      → Happened
          (sent_to session_id (update_of uri))
          (notify_each (json.from_object (("uri", json.from_string uri) ∷ [])) failed sessions s)
  unfolding notify_each
  notify_each-reaches uri session_id failed [] s member up going named works object = ground arith
  notify_each-reaches uri session_id failed (first ∷ rest) s member up going named works object =
      let params = json.from_object (("uri", json.from_string uri) ∷ []) in
      let (kept, still) =
        send_notification-keeps notif_resources_updated params first (failed first) s in
      elim (Bool-cases (first == session_id)) [
        | inl here ↦
            let same : first ≡ session_id = (string_eq.same_iff first session_id).0 here in
            notify_each-Happened params failed rest _ _ (
              subst
                (λ target.
                  Happened (sent_to session_id (update_of uri))
                    (send_notification notif_resources_updated params target (failed target) s))
                (sym same)
                (subst
                  (λ flag.
                    Happened (sent_to session_id (update_of uri))
                      (send_notification notif_resources_updated params session_id flag s))
                  (sym works) (send_notification-sent uri session_id s up going named object)))
        | inr there ↦
            notify_each-reaches uri session_id failed rest _ (ground arith) (kept ∙ up)
              (still ∙ going) named works object
      ]

  from_targets :
      (uri session_id : String) (failed : String → Bool) (s : McpServer V) (sessions : List String)
      → targets uri s.subscribed_resources ≡ sessions
      → any (λ target. target == session_id) sessions ≡ true
      → Happened
          (sent_to session_id (update_of uri))
          (notify_each (json.from_object (("uri", json.from_string uri) ∷ [])) failed sessions s)
      → Happened (sent_to session_id (update_of uri)) (notify_resources_updated uri failed s)
  unfolding notify_resources_updated
  from_targets uri session_id failed s [] e member h = ground arith
  from_targets uri session_id failed s (first ∷ rest) e member h =
      rw (e, notify_resources_updated) h

  -- Where the transport is up and the server is not stopping, an update of a resource is sent to each
  -- session with a name that is subscribed to it and for which the transport does not throw, even if
  -- it throws for others.
  pub notify_resources_updated-reaches :
      (laws : IsJson json) (uri session_id : String) (failed : String → Bool) (s : McpServer V)
      → subscribed uri session_id s.subscribed_resources ≡ true
      → s.has_transport ≡ true
      → s.stopping ≡ false
      → is_empty session_id ≡ false
      → failed session_id ≡ false
      → Happened (sent_to session_id (update_of uri)) (notify_resources_updated uri failed s)
  notify_resources_updated-reaches laws uri session_id failed s member up going named works =
      let object : is_null (json.from_object (("uri", json.from_string uri) ∷ [])) ≡ false =
        ground (arith, laws.kind-from_object (("uri", json.from_string uri) ∷ [])) in
      let reached =
        notify_each-reaches uri session_id failed (targets uri s.subscribed_resources) s
          (targets_complete uri session_id s.subscribed_resources member) up going named works
          object in
      from_targets uri session_id failed s (targets uri s.subscribed_resources) refl
        (targets_complete uri session_id s.subscribed_resources member) reached
