-- ===== src/Http/Slots.antt =====
-- src/http_transport.cpp: what a refused request does to the count of connections.
use cppmcp.Base.{
  ℕ, zero, suc, ◌+◌, ◌<◌, nat_eq, ◌≡◌, refl, ap, ◌∙◌, Bool, true, false, [], arith, if-split,
}
use cppmcp.Json.{Json}
use cppmcp.Text.{Bytes, bytes_eq}
use cppmcp.Http.Connection.{Reading}
use cppmcp.Http.Transport.{
  JsonText, HttpTransport, HttpTransportConfig, on_error, on_disconnect, on_release, set_connection,
  deactivate,
}
use cppmcp.Http.Post.{Handled}
use cppmcp.Http.Dispatch.{
  Route, bad_host, bad_origin, options, post, get_sse, delete, sse_connect, sse_message, not_found,
  route_of, run_route, refuse, handle_request,
}
use cppmcp.Http.Lifecycle.{on_accept, at_capacity, new_connection}

abbrev pub is_refusal : Route → Bool
is_refusal bad_host = true
is_refusal bad_origin = true
is_refusal not_found = true
is_refusal _ = false

abbrev Leaks : (conn : ℕ) → HttpTransport → HttpTransport → Type 0
Leaks conn t t' =
    (on_error conn t' ≡ t')
    × (t'.active_connection_count ≡ t.active_connection_count)
    × (t'.config ≡ t.config)

on_error-inactive :
    (conn : ℕ) (t : HttpTransport) → (t.connections conn).active ≡ false → on_error conn t ≡ t
unfolding on_error
on_error-inactive conn t inactive =
    let c = t.connections conn in
    if-split (λ r. r ≡ t) c.active (on_disconnect c.on_disconnect (on_release (deactivate conn t)))
      t (λ active. absurd (ground (arith, active, inactive))) (λ _. refl)

refuse-inactive :
    (conn status : ℕ) (body : Bytes) (t : HttpTransport)
    → ((refuse conn status body t).connections conn).active ≡ false
unfolding refuse deactivate
refuse-inactive conn status body t = ground arith

refuse-Leaks :
    (conn status : ℕ) (body : Bytes) (t : HttpTransport) → Leaks conn t (refuse conn status body t)
unfolding refuse
refuse-Leaks conn status body t = (
  on_error-inactive conn (refuse conn status body t) (refuse-inactive conn status body t),
  refl,
  refl,
)

-- A transport with a new connection.
abbrev opened : HttpTransport → HttpTransport
opened t = set_connection t.next_connection (new_connection t.config) (record t {
  next_connection = suc t.next_connection;
  active_connection_count = suc t.active_connection_count;
})

on_accept-room : (t : HttpTransport) → at_capacity t ≡ false → on_accept t ≡ opened t
unfolding on_accept
on_accept-room t room =
    if-split (λ r. r ≡ opened t) (at_capacity t) _ (opened t)
      (λ full. absurd (ground (arith, full, room))) (λ _. refl)

-- The connection has read the request.
abbrev sent : (conn : ℕ) → Reading → HttpTransport → HttpTransport
sent conn reading t = set_connection conn (record (t.connections conn) { reading = reading }) t

sent-opened :
    (reading : Reading) (t : HttpTransport)
    → (sent t.next_connection reading (opened t)).connections t.next_connection
      ≡ record (new_connection t.config) { reading = reading }
sent-opened reading t = rw ((nat_eq.same_iff t.next_connection t.next_connection).1 refl) refl

module _ {V : Type 0} ⦃json : Json V⦄ (text : JsonText V) where
  run_route-Leaks :
      (r : Route) (session_id : Bytes) (now : ℕ) (handler : V → Bytes → Handled V) (conn : ℕ)
      (t : HttpTransport)
      → is_refusal r ≡ true
      → Leaks conn t (run_route text r session_id now handler conn t).0
  unfolding run_route
  run_route-Leaks bad_host session_id now handler conn t h = refuse-Leaks conn 403 _ t
  run_route-Leaks bad_origin session_id now handler conn t h = refuse-Leaks conn 403 _ t
  run_route-Leaks not_found session_id now handler conn t h = refuse-Leaks conn 404 _ t
  run_route-Leaks options session_id now handler conn t h = absurd (ground arith)
  run_route-Leaks post session_id now handler conn t h = absurd (ground arith)
  run_route-Leaks get_sse session_id now handler conn t h = absurd (ground arith)
  run_route-Leaks delete session_id now handler conn t h = absurd (ground arith)
  run_route-Leaks sse_connect session_id now handler conn t h = absurd (ground arith)
  run_route-Leaks sse_message session_id now handler conn t h = absurd (ground arith)

  -- The request that the connection has read is handled.
  unfoldable pub ask : (conn : ℕ) → Reading → HttpTransport → HttpTransport
  unfolding handle_request
  ask conn reading t =
      (handle_request text [] 0 (λ message sid. record { calls = []; returned = true }) conn
        (sent conn reading t)).0

  -- A client that connects, sends the request `reading`, gets its response and hangs up.
  unfoldable pub visit : Reading → HttpTransport → HttpTransport
  unfolding on_accept ask on_error
  visit reading t = on_error t.next_connection (ask t.next_connection reading (on_accept t))

  unfoldable pub visits : ℕ → Reading → HttpTransport → HttpTransport
  unfolding visit
  visits zero reading t = t
  visits (suc n) reading t = visits n reading (visit reading t)

  ask-Leaks :
      (reading : Reading) (t : HttpTransport)
      → is_refusal (route_of t.config (record (new_connection t.config) { reading = reading }))
        ≡ true
      → Leaks t.next_connection (opened t) (ask t.next_connection reading (opened t))
  unfolding ask handle_request
  ask-Leaks reading t refusal =
      run_route-Leaks _ [] 0 _ t.next_connection (sent t.next_connection reading (opened t))
        (ap (λ c. is_refusal (route_of t.config c)) (sent-opened reading t) ∙ refusal)

  visit-count :
      (reading : Reading) (t : HttpTransport)
      → at_capacity t ≡ false
      → is_refusal (route_of t.config (record (new_connection t.config) { reading = reading }))
        ≡ true
      → ((visit reading t).active_connection_count ≡ suc t.active_connection_count)
        × ((visit reading t).config ≡ t.config)
  unfolding visit
  visit-count reading t room refusal =
      let (same, count, config) = ask-Leaks reading t refusal in
      let e =
        ap (λ a. on_error t.next_connection (ask t.next_connection reading a))
          (on_accept-room t room)
        ∙ same in
      (
        ap (λ (r : HttpTransport). r.active_connection_count) e ∙ count,
        ap (λ (r : HttpTransport). r.config) e ∙ config,
      )

  -- Where connections are limited: a client that sends a request that is refused before a handler sees
  -- it, and goes, does not give its slot back. After as many of them as there were free slots, the
  -- transport is at capacity.
  pub visits-at_capacity :
      (n : ℕ) (reading : Reading) (t : HttpTransport)
      → zero < t.config.max_connections
      → t.active_connection_count + n ≡ t.config.max_connections
      → is_refusal (route_of t.config (record (new_connection t.config) { reading = reading }))
        ≡ true
      → at_capacity (visits n reading t) ≡ true
  unfolding visits
  visits-at_capacity zero reading t cap full refusal = ground (arith, cap, full)
  visits-at_capacity (suc n) reading t cap full refusal =
      let (count, config) = visit-count reading t (ground (arith, full)) refusal in
      visits-at_capacity n reading (visit reading t)
        (omega (arith, cap, ap (λ (c : HttpTransportConfig). c.max_connections) config))
        (omega (arith, count, full, ap (λ (c : HttpTransportConfig). c.max_connections) config))
        (ap (λ c. is_refusal (route_of c (record (new_connection c) { reading = reading }))) config
          ∙ refusal)
