-- ===== src/Stdio/Tests.antt =====
-- The stdio transport at concrete states, and the theorems about it.
use cppmcp.Base.{◌≡◌, refl, true, false, [], ◌∷◌, none, some, if◌then◌else◌, arith}
use cppmcp.Json.Example.{Value, value_json, object, string, end}
use cppmcp.Text.{codes, is_nil}
use cppmcp.Http.Transport.{JsonText}
use cppmcp.Stdio.{StdioTransport, Handled, on_chunk}
use cppmcp.Stdio.Chunks.{on_chunk-append}
use cppmcp.Stdio.Drops.{send_row, send_row-last}

abbrev plain_text : JsonText Value
plain_text = record {
  dump = λ v. elim v [ string s ↦ codes s | _ ↦ codes "{}" ];
  parse_text = λ s. if is_nil s then none else some (object end);
}

abbrev echo : Value → Handled Value
echo message = record { responses = message ∷ []; returned = true }

-- The count is 30 bytes too high.
abbrev a_transport : StdioTransport
a_transport = record {
  running = true;
  max_line_size = 20;
  has_message_handler = true;
  write_queue = codes "abc" ∷ [];
  write_queue_bytes = 33;
  max_queued_write_bytes = 20;
  write_stopping = false;
  trace = [];
}

on_chunk-append_example :
    on_chunk plain_text echo
      (codes "}\r\n{")
      (on_chunk plain_text echo (codes "{") ([], a_transport))
    ≡ on_chunk plain_text echo (codes "{}\r\n{") ([], a_transport)
on_chunk-append_example =
    on_chunk-append plain_text echo (codes "{") (codes "}\r\n{") ([], a_transport)

send_row-last_example :
    (send_row (codes "d" ∷ codes "e" ∷ []) a_transport).write_queue ≡ codes "e" ∷ []
send_row-last_example =
    send_row-last (codes "abc") (codes "d") (codes "e" ∷ []) 30 a_transport refl refl refl
      (omega arith) (omega arith)
