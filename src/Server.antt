-- ===== src/Server.antt =====
-- include/cppmcp/server.hpp and src/server.cpp: the state of the server, which its mutexes guard.
-- The children model the operations; each runs its critical sections in the order of the source.
pub mod Lists
pub mod Pages
pub mod Cache
pub mod Lifecycle
pub mod Sessions
pub mod Negotiation
pub mod Outbound
pub mod Replies
pub mod Asking
pub mod Subscriptions
pub mod Membership
pub mod Routing
pub mod Schema
pub mod Calls
pub mod Templates
pub mod Dispatch
pub mod Answers
pub mod Frame
pub mod Gate
pub mod Shutdown
pub mod Tests
use cppmcp.Base.{ℕ, ℤ, String, Bool, List, ◌∷◌, Option, none}
use cppmcp.Outcome.{Result}
use cppmcp.Map.{Map}
use cppmcp.Types.Initialize.{ServerCapabilities, ClientCapabilities, Implementation}

-- The results of the lists that are kept, one for each kind of list.
pub record ListCache (V : Type 0) : Type 0 where
  pub tools_list_result : Option V
  pub resources_list_result : Option V
  pub resource_templates_list_result : Option V
  pub prompts_list_result : Option V

pub record ClientHello (V : Type 0) : Type 0 where
  pub capabilities : ClientCapabilities V
  pub protocol_version : String

-- A request of the server that waits for the client; the flags say which callbacks are set.
pub record OutboundPending : Type 0 where
  pub method : String
  pub session_id : String
  pub has_on_result : Bool
  pub has_on_error : Bool

-- What the server does to the world: a message to every client or to one session, and the callbacks
-- of its own requests, known by their number.
pub data ServerEvent (V : Type 0) : Type 0 where
  broadcast : V → ServerEvent V
  sent_to : (session_id : String) → V → ServerEvent V
  result_called : ℤ → V → ServerEvent V
  error_called : ℤ → (code : ℤ) → (message : String) → ServerEvent V

-- `trace` is newest first.
pub record McpServer (V : Type 0) : Type 0 where
  pub server_info : Implementation
  pub capabilities : ServerCapabilities V
  pub has_transport : Bool
  pub running : Bool
  pub initialized : Bool
  pub frozen : Bool
  pub stopping : Bool
  pub list_cache : ListCache V
  pub list_cache_enabled : Bool
  pub list_page_size : ℕ
  pub client_hellos : Map String (ClientHello V)
  pub negotiated_version : String
  pub subscribed_resources : Map String (Map String (Unit {0}))
  pub outbound_pending : Map ℤ OutboundPending
  pub next_outbound_id : ℕ
  pub trace : List (ServerEvent V)

module _ {V : Type 0} where
  abbrev pub emit : ServerEvent V → McpServer V → McpServer V
  emit e s = record s { trace = e ∷ s.trace }
