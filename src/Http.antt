-- ===== src/Http.antt =====
-- include/cppmcp/http_transport.hpp and src/http_transport.cpp: the HTTP server transport.
pub mod Guard
pub mod Guarded
pub mod Response
pub mod Connection
pub mod Limits
pub mod Split
pub mod Transport
pub mod Push
pub mod Post
pub mod Handlers
pub mod Dispatch
pub mod Lifecycle
pub mod Writing
pub mod Sound
pub mod Steps
pub mod Reach
pub mod Responses
pub mod Endings
pub mod Sweep
pub mod Slots
pub mod Routing
pub mod Tests
