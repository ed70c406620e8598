-- ===== src/Client.antt =====
-- include/cppmcp/client.hpp and src/client.cpp: the client's requests. The state is what the strand
-- owns; each task that runs on the strand is one function on it.
pub mod Submit
pub mod Completion
pub mod Inbound
pub mod Delivery
pub mod Pairing
pub mod Handshake
pub mod Collisions
pub mod Drain
pub mod Tests
use cppmcp.Base.{
  ℕ, suc, ℤ, pos, String, Bool, true, false, List, [], ◌∷◌, Option, none, some, if◌then◌else◌, ◌==◌,
  nat_eq,
}
use cppmcp.RequestId.{RequestId}
use cppmcp.Map.{Map}
use cppmcp.Pending.{PendingRequest, Callback, McpOutcome, finish, new_request}
use cppmcp.Types.Initialize.{InitializeResult}

-- What the client does to the world: a message to the transport, a callback of the request with
-- that handle, a call of the disconnect handler or of a handler for a notification of the server.
pub data Event (V : Type 0) : Type 0 where
  sent : V → Event V
  called : ℕ → Callback V → Event V
  disconnected : Event V
  resource_updated : String → Event V
  list_changed : String → Event V
  server_log : (level text : String) → (logger : Option String) → Event V
  roots_changed : Event V

-- A request object is known by a handle, the number that `next_id_` gave it. The handlers are those
-- of the user, between the JSON forms of their parameters and results; `trace` is newest first.
pub record McpClient (V : Type 0) : Type 0 where
  pub objects : ℕ → PendingRequest V
  pub next_id : ℕ
  pub pending_map : Map RequestId ℕ
  pub default_timeout : ℤ
  pub has_transport : Bool
  pub connected : Bool
  pub initialized : Bool
  pub stopping : Bool
  pub server_result : Option (InitializeResult V)
  pub has_disconnect_handler : Bool
  pub has_resource_updated_handler : Bool
  pub has_list_changed_handler : Bool
  pub has_server_log_handler : Bool
  pub has_roots_changed_handler : Bool
  pub trace : List (Event V)

abbrev pub update : {A : Type 0} → (ℕ → A) → ℕ → A → ℕ → A
update f h a k = if h == k then a else f k

module _ {V : Type 0} where
  abbrev pub emit : Event V → McpClient V → McpClient V
  emit e c = record c { trace = e ∷ c.trace }

  -- raw_send: nothing is sent without a transport.
  unfoldable pub raw_send : V → McpClient V → McpClient V
  raw_send message c = if c.has_transport then emit (sent message) c else c

  unfoldable pub emit_callback : ℕ → Option (Callback V) → McpClient V → McpClient V
  emit_callback h none c = c
  emit_callback h (some callback) c = emit (called h callback) c

  -- finish() of the object with the handle `h`.
  unfoldable pub finish_at : ℕ → McpOutcome V → McpClient V → McpClient V
  unfolding emit_callback
  finish_at h o c =
      let (pr, callback) = finish o (c.objects h) in
      emit_callback h callback (record c { objects = update c.objects h pr })
