-- ===== src/Stdio.antt =====
-- include/cppmcp/stdio_transport.hpp and src/stdio_transport.cpp: the server's transport over stdin and
-- stdout. The reads are those of the asio branch, which is all of it but the console fallback on Windows.
pub mod Chunks
pub mod Drops
pub mod Tests
use cppmcp.Base.{
  ℕ, ltb, ◌+◌, Bool, true, false, not, List, [], ◌∷◌, ◌++◌, Option, none, some, if◌then◌else◌,
  length,
}
use cppmcp.Outcome.{parse_error}
use cppmcp.Json.{Json}
use cppmcp.Jsonrpc.Building.{make_error_response_null_id}
use cppmcp.WriteQueue.{add_size, sub_size}
use cppmcp.Text.{Bytes, is_nil}
use cppmcp.Lines.{lines_of, strip_break}
use cppmcp.Http.Transport.{JsonText}

pub data Event : Type 0 where
  wrote : Bytes → Event
  error_reported : Event
  disconnected : Event

-- `trace` is newest first.
pub record StdioTransport : Type 0 where
  pub running : Bool
  pub max_line_size : ℕ
  pub has_message_handler : Bool
  pub write_queue : List Bytes
  pub write_queue_bytes : ℕ
  pub max_queued_write_bytes : ℕ
  pub write_stopping : Bool
  pub trace : List Event

-- What a message handler gives its sink, and whether it returned.
pub record Handled (V : Type 0) : Type 0 where
  pub responses : List V
  pub returned : Bool

abbrev pub report : Event → StdioTransport → StdioTransport
report event t = record t { trace = event ∷ t.trace }

-- `if (!write_queue_.empty()) write_queue_.pop_front();`
abbrev pub drop_front : List Bytes → List Bytes
drop_front [] = []
drop_front (item ∷ queue) = queue

abbrev pub over_limit : Bytes → StdioTransport → Bool
over_limit item t = ltb t.max_queued_write_bytes (add_size t.write_queue_bytes (length item))

-- send_message of a text that has its newline.
unfoldable pub send_data : Bytes → StdioTransport → StdioTransport
send_data item t =
    let kept = (if over_limit item t then drop_front t.write_queue else t.write_queue) in
    if t.write_stopping then t else record t {
      write_queue = kept ++ item ∷ [];
      write_queue_bytes = add_size t.write_queue_bytes (length item);
    }

abbrev pub front_written : List Bytes → StdioTransport → StdioTransport
front_written [] t = t
front_written (item ∷ queue) t = record t {
  write_queue = queue;
  write_queue_bytes = sub_size t.write_queue_bytes (length item);
  trace = wrote item ∷ t.trace;
}

-- One turn of write_loop; an empty queue is what it waits or ends on.
unfoldable pub write_turn : StdioTransport → StdioTransport
write_turn t = front_written t.write_queue t

module _ {V : Type 0} ⦃json : Json V⦄ (text : JsonText V) where
  unfoldable pub send_message : V → StdioTransport → StdioTransport
  unfolding send_data
  send_message message t = send_data (text.dump message ++ 10 ∷ []) t

  unfoldable pub send_all : List V → StdioTransport → StdioTransport
  unfolding send_message
  send_all [] t = t
  send_all (message ∷ messages) t = send_all messages (send_message message t)

  abbrev run_handler : (V → Handled V) → V → StdioTransport → StdioTransport
  run_handler handler message t =
      let handled = handler message in
      let sent = send_all handled.responses t in
      if handled.returned then sent else report error_reported sent

  unfoldable pub handle_line : (V → Handled V) → Bytes → StdioTransport → StdioTransport
  unfolding send_all send_message
  handle_line handler line t = elim (text.parse_text line) [
    | none ↦
        report error_reported
          (send_message (make_error_response_null_id parse_error "Parse error" none) t)
    | some message ↦ if t.has_message_handler then run_handler handler message t else t
  ]

  -- on_read without an error, with the bytes that were transferred.
  unfoldable pub on_line : (V → Handled V) → Bytes → StdioTransport → StdioTransport
  unfolding handle_line
  on_line handler line t =
      let stripped = strip_break line in
      if ltb t.max_line_size (length line)
      then report disconnected (report error_reported (record t { running = false }))
      else if is_nil stripped
      then t
      else handle_line handler stripped t

  -- Each line is read if the one before it has left the transport running.
  unfoldable pub on_lines : (V → Handled V) → List Bytes → StdioTransport → StdioTransport
  unfolding on_line
  on_lines handler [] t = t
  on_lines handler (line ∷ lines) t =
      on_lines handler lines (if t.running then on_line handler line t else t)

  -- A chunk arrives on stdin: the reads that it completes, and their handlers. `read_buf` stands beside
  -- the rest of the state.
  unfoldable pub on_chunk :
      (V → Handled V) → Bytes → Bytes × StdioTransport → Bytes × StdioTransport
  unfolding on_lines lines_of
  on_chunk handler chunk (read_buf, t) =
      let (lines, left) = lines_of (read_buf ++ chunk) in (left, on_lines handler lines t)

-- on_read with an error
unfoldable pub on_read_error : StdioTransport → StdioTransport
on_read_error t = report disconnected (record t { running = false })

-- stop: the writer ends once it has written what is queued.
unfoldable pub stop : StdioTransport → StdioTransport
stop t = record t { running = false; write_stopping = true }
