-- ===== src/Pipe.antt =====
-- include/cppmcp/local_pipe_transport.hpp and src/local_pipe_transport.cpp: the transport over local pipes,
-- with the branches for Unix where those for Windows differ.
pub mod Clients
use cppmcp.Base.{
  ℕ, suc, ltb, Bool, true, false, not, List, [], ◌∷◌, ◌++◌, Option, none, some, if◌then◌else◌,
  length, update, remove,
}
use cppmcp.Outcome.{parse_error}
use cppmcp.Json.{Json}
use cppmcp.Jsonrpc.Building.{make_error_response_null_id}
use cppmcp.Text.{Bytes, is_nil}
use cppmcp.Lines.{lines_of, strip_break}
use cppmcp.Http.Transport.{JsonText}
use cppmcp.Stdio.{Handled}

pub data PipeMode : Type 0 where
  single_client multi_client : PipeMode

-- What the transport does to the connection with that handle.
pub data Event : Type 0 where
  written : (conn : ℕ) (bytes : Bytes) → Event
  queue_shut_down : (conn : ℕ) → Event
  socket_closed : (conn : ℕ) → Event
  error_reported : Event

pub record PipeConnection : Type 0 where
  pub read_buf : Bytes
  pub active : Bool

-- Connections are known by `connection_id`. `accepting` says that an accept is pending. `trace` is
-- newest first.
pub record LocalPipeTransport : Type 0 where
  pub mode : PipeMode
  pub max_line_size : ℕ
  pub running : Bool
  pub accepting : Bool
  pub has_message_handler : Bool
  pub connections : ℕ → PipeConnection
  pub next_connection_id : ℕ
  pub active_connections : List ℕ
  pub trace : List Event

abbrev pub set_active : Bool → ℕ → LocalPipeTransport → LocalPipeTransport
set_active active conn t = record t {
  connections = update t.connections conn (record (t.connections conn) { active = active });
}

abbrev pub set_buf : Bytes → ℕ → LocalPipeTransport → LocalPipeTransport
set_buf read_buf conn t = record t {
  connections = update t.connections conn (record (t.connections conn) { read_buf = read_buf });
}

abbrev pub report : Event → LocalPipeTransport → LocalPipeTransport
report event t = record t { trace = event ∷ t.trace }

-- PipeConnection::enqueue_write
unfoldable pub enqueue_write : ℕ → Bytes → LocalPipeTransport → LocalPipeTransport
enqueue_write conn item t = report (written conn (item ++ 10 ∷ [])) t

unfoldable pub unregister_connection : ℕ → LocalPipeTransport → LocalPipeTransport
unregister_connection conn t = record (set_active false conn t) {
  active_connections = remove conn t.active_connections;
}

unfoldable pub on_error : ℕ → LocalPipeTransport → LocalPipeTransport
unfolding unregister_connection
on_error conn t =
    if (t.connections conn).active then unregister_connection conn (set_active false conn t) else t

-- The callback of async_accept without an error.
unfoldable pub on_accept : LocalPipeTransport → LocalPipeTransport
on_accept t = if not t.running then record t { accepting = false } else record t {
  connections = update t.connections t.next_connection_id (record { read_buf = []; active = true });
  next_connection_id = suc t.next_connection_id;
  active_connections = t.active_connections ++ t.next_connection_id ∷ [];
  accepting = elim t.mode [ single_client ↦ false | multi_client ↦ true ];
}

module _ {V : Type 0} ⦃json : Json V⦄ (text : JsonText V) where
  unfoldable pub write_all : ℕ → List V → LocalPipeTransport → LocalPipeTransport
  unfolding enqueue_write
  write_all conn [] t = t
  write_all conn (resp ∷ responses) t =
      write_all conn responses (enqueue_write conn (text.dump resp) t)

  abbrev run_handler : (V → Handled V) → ℕ → V → LocalPipeTransport → LocalPipeTransport
  run_handler handler conn message t =
      let handled = handler message in
      let sent = write_all conn handled.responses t in
      if handled.returned then sent else report error_reported sent

  unfoldable pub handle_line : (V → Handled V) → ℕ → Bytes → LocalPipeTransport → LocalPipeTransport
  unfolding write_all enqueue_write
  handle_line handler conn line t = elim (text.parse_text line) [
    | none ↦ report error_reported (
        enqueue_write conn (text.dump (make_error_response_null_id parse_error "Parse error" none))
          t)
    | some message ↦ if t.has_message_handler then run_handler handler conn message t else t
  ]

  -- handle_read_completion without an error, with the bytes that were transferred.
  unfoldable pub handle_read_completion :
      (V → Handled V) → ℕ → Bytes → LocalPipeTransport → LocalPipeTransport
  unfolding handle_line on_error enqueue_write
  handle_read_completion handler conn line t =
      let stripped = strip_break line in
      if ltb t.max_line_size (length line)
      then on_error conn (
          enqueue_write conn
            (text.dump (make_error_response_null_id parse_error "Message too large" none)) t)
      else if is_nil stripped
      then t
      else handle_line handler conn stripped t

  -- Each line is read if the one before it has left the connection active.
  unfoldable pub on_lines :
      (V → Handled V) → ℕ → List Bytes → LocalPipeTransport → LocalPipeTransport
  unfolding handle_read_completion
  on_lines handler conn [] t = t
  on_lines handler conn (line ∷ lines) t =
      on_lines handler conn lines
        (if (t.connections conn).active then handle_read_completion handler conn line t else t)

  -- A chunk arrives on the connection: the reads that it completes, and their handlers.
  unfoldable pub on_chunk : (V → Handled V) → ℕ → Bytes → LocalPipeTransport → LocalPipeTransport
  unfolding on_lines lines_of
  on_chunk handler conn chunk t =
      let (lines, left) = lines_of ((t.connections conn).read_buf ++ chunk) in
      on_lines handler conn lines (set_buf left conn t)

  unfoldable pub write_each : List ℕ → Bytes → LocalPipeTransport → LocalPipeTransport
  unfolding enqueue_write
  write_each [] item t = t
  write_each (conn ∷ conns) item t =
      write_each conns item (if (t.connections conn).active then enqueue_write conn item t else t)

  unfoldable pub send_message : V → LocalPipeTransport → LocalPipeTransport
  unfolding write_each
  send_message message t = write_each t.active_connections (text.dump message) t

unfoldable pub close_each : List ℕ → LocalPipeTransport → LocalPipeTransport
close_each [] t = t
close_each (conn ∷ conns) t =
    close_each conns
      (report (socket_closed conn) (report (queue_shut_down conn) (set_active false conn t)))

unfoldable pub stop : LocalPipeTransport → LocalPipeTransport
unfolding close_each
stop t =
    let closed = close_each t.active_connections (record t { running = false }) in
    if t.running then record closed { active_connections = []; accepting = false } else t
