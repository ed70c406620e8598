-- ===== src/Lib.antt =====
-- cppmcp is a library for the Model Context Protocol: clients and servers that exchange JSON-RPC
-- messages over a transport. A transport hands each message to McpClient (src/client.cpp) or to the
-- server (src/server.cpp); these classify it with src/jsonrpc.cpp, read its parameters with
-- src/types.cpp, and answer through the transport, which orders its writes with AsyncWriteQueue.
--
-- What each file models:
-- - Base with its children: names of the libraries, tests, lists and signed integers.
-- - Outcome: include/cppmcp/exception.hpp and error_codes.hpp. A call that can throw returns a
--   `Result`, whose exceptions are the three kinds that the catch clauses of the source tell apart.
-- - Json: what the source uses of nlohmann::json, as an interface over a type of values. `IsJson`
--   has the documented behaviour that theorems rely on; Json/Example has an instance for which it
--   holds.
-- - Map: std::map and std::set, as a list in the order of the keys.
-- - Protocol, RequestId: include/cppmcp/protocol.hpp and common.hpp.
-- - Jsonrpc with its children: include/cppmcp/jsonrpc.hpp and src/jsonrpc.cpp.
-- - Types with its children: the initialize exchange of include/cppmcp/types.hpp and src/types.cpp.
-- - WriteQueue: include/cppmcp/async_write_queue.hpp. A critical section is a function on the
--   queue; WriteQueue/Steps interleaves the sections of any number of threads.
-- - Pending: include/cppmcp/pending_request.hpp and src/pending_request.cpp.
-- - Client with its children: include/cppmcp/client.hpp and src/client.cpp. The state is what the
--   strand owns, with the shared request objects in a store indexed by handles, and each task that
--   the strand runs is a function on it; sends and calls of the user's functions are events.
-- - Decimal: std::to_string and std::stoull, as src/server.cpp uses them for cursors.
-- - Server with its children: include/cppmcp/server.hpp and src/server.cpp. Lists has the requests
--   for lists with their pages and cache, Sessions initialize, Lifecycle run, stop and
--   notifications, Outbound the requests of the server and the notifications, Subscriptions the
--   subscriptions; Pages, Cache, Negotiation, Replies, Asking, Membership and Routing hold their
--   proofs. Calls has the registration of handlers and the requests that call one, Schema the check
--   of a tool's arguments, Templates resources/read, Dispatch the way from a message to its
--   response; Answers, Frame, Gate, Shutdown and Schema/Fuel hold the proofs. What a user's
--   function or the transport does in a call is an argument.
-- - Text, Lines: byte strings, and the framing of lines that stdio_transport.cpp and
--   local_pipe_transport.cpp share.
-- - Stdio, Pipe: src/stdio_transport.cpp and src/local_pipe_transport.cpp, the transports of a
--   server.
-- - Http with its children: include/cppmcp/http_transport.hpp and src/http_transport.cpp. Guard has
--   the checks of Origin and Host, Response what is sent, Connection the callbacks of the HTTP
--   parser, Transport the state, Push the event streams, Post, Handlers and Dispatch the requests,
--   Lifecycle accept, sweep and stop. Connections, streams and sessions are known by handles and
--   ids, and what a handler does with the transport is a list of calls. Guarded, Limits, Split,
--   Writing, Sound, Steps, Reach, Responses, Endings, Sweep, Slots and Routing hold the proofs; the
--   steps in Reach are everything that can happen to the transport.
--
-- Bounds: sizes of the write queue are taken modulo 2 ^ 64, as size_t is; ids and error codes are
-- integers, and a theorem that needs an id to fit in int64_t says so. The offset of a page is taken
-- modulo 2 ^ 64. A decimal text is printed in at most twenty rounds, which is enough for 64 bits.
-- The client that follows pages has a bound on their number, and a theorem says which is enough.
-- schema_validate has fuel for its nesting, and a theorem says that any above the sizes of value
-- and schema is enough. The lines of a buffer are read with fuel for one more than its bytes. The
-- clock counts nanoseconds and timeouts are milliseconds. Every other loop goes over a list.
--
-- Not modelled: of src/server.cpp, its worker threads; of src/types.cpp, all but the initialize
-- exchange; the transports of a client; src/process.cpp, src/logging.cpp, src/request_executor.cpp
-- and src/context.cpp. Nor are sockets, pipes, threads and their executors, the cap of 64 MiB on a
-- read buffer, the time at which a timer fires, log output, the HTTP parser and regular
-- expressions, which are arguments where a definition needs what they return, and the text form of
-- JSON, which is the argument `JsonText`. Of exceptions of these libraries, those of dump(), of
-- parse() other than a parse_error, and of std::regex are left out. A connection of Http takes
-- every write while it is active: its queue is unbounded, as write_queue_max_bytes is by default,
-- and an event of the trace is a call of enqueue; WriteQueue has the bound and both overflow
-- policies.
pub mod Base
pub mod Outcome
pub mod Json
pub mod Map
pub mod Protocol
pub mod RequestId
pub mod Jsonrpc
pub mod WriteQueue
pub mod Types
pub mod Pending
pub mod Client
pub mod Decimal
pub mod Text
pub mod Lines
pub mod Stdio
pub mod Pipe
pub mod Http
pub mod Server
