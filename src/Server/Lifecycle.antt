-- ===== src/Server/Lifecycle.antt =====
-- src/server.cpp: the start and the end of a server, and its notifications from clients.
use cppmcp.Base.{◌==◌, string_eq, Bool, true, false, [], if◌then◌else◌}
use cppmcp.Protocol.{notif_initialized}
use cppmcp.Jsonrpc.{JsonRpcNotification}
use cppmcp.Server.{McpServer}

module _ {V : Type 0} where
  -- What run() does before its loop; `started` says whether the transport could be started.
  unfoldable pub run : (started : Bool) → McpServer V → McpServer V
  run started s = if s.has_transport then record s { frozen = started; running = started } else s

  unfoldable pub stop : McpServer V → McpServer V
  stop s =
      if s.stopping then s else record s { stopping = true; running = false; outbound_pending = [] }

  unfoldable pub process_notification : JsonRpcNotification V → McpServer V → McpServer V
  process_notification n s =
      if n.method == notif_initialized then record s { initialized = true } else s
