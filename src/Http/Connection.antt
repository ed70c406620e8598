-- ===== src/Http/Connection.antt =====
-- src/http_transport.cpp: the callbacks of the parser of a connection (llhttp), which collect a request
-- within the limits of the configuration. A callback returns none where the code returns -1.
use cppmcp.Base.{
  ℕ, ◌+◌, ltb, leb, Bool, true, false, [], ◌++◌, Option, none, some, if◌then◌else◌, length,
}
use cppmcp.Map.{Map, insert}
use cppmcp.Text.{Bytes, bytes_eq, bytes_ord, is_nil, to_lower}

-- What a connection has of the request that is being read, and its limits.
pub record Reading : Type 0 where
  pub current_url : Bytes
  pub current_method : Bytes
  pub current_body : Bytes
  pub headers : Map Bytes Bytes
  pub current_header_field : Bytes
  pub current_header_value : Bytes
  pub request_complete : Bool
  pub max_body_size : ℕ
  pub max_header_count : ℕ
  pub max_header_line_size : ℕ

-- `old.append(at, length)` unless it is longer than `limit` then.
abbrev pub append_within : (limit : ℕ) (old piece : Bytes) → Option Bytes
append_within limit old piece =
    if ltb limit (length old + length piece) then none else some (old ++ piece)

abbrev pub with_url : Reading → Option Bytes → Option Reading
with_url r none = none
with_url r (some url) = some (record r { current_url = url })

unfoldable pub on_url : Bytes → Reading → Option Reading
on_url piece r = with_url r (append_within r.max_header_line_size r.current_url piece)

unfoldable pub on_method : Bytes → Reading → Option Reading
on_method piece r = some (record r { current_method = r.current_method ++ piece })

abbrev pub with_body : Reading → Option Bytes → Option Reading
with_body r none = none
with_body r (some body) = some (record r { current_body = body })

unfoldable pub on_body : Bytes → Reading → Option Reading
on_body piece r = with_body r (append_within r.max_body_size r.current_body piece)

-- The header that has been read so far goes to `headers`.
unfoldable pub flush_header : Reading → Reading
flush_header r = if is_nil r.current_header_field then r else record r {
  headers = insert (to_lower r.current_header_field) r.current_header_value r.headers;
  current_header_field = [];
  current_header_value = [];
}

abbrev pub with_field : Reading → Option Bytes → Option Reading
with_field r none = none
with_field r (some field) = some (record r { current_header_field = field })

unfoldable pub on_header_field : Bytes → Reading → Option Reading
unfolding flush_header
on_header_field piece r =
    let flushed = flush_header r in
    if leb flushed.max_header_count (length flushed.headers)
    then none
    else with_field flushed
        (append_within flushed.max_header_line_size flushed.current_header_field piece)

abbrev pub with_value : Reading → Option Bytes → Option Reading
with_value r none = none
with_value r (some value) = some (record r { current_header_value = value })

unfoldable pub on_header_value : Bytes → Reading → Option Reading
on_header_value piece r =
    with_value r (append_within r.max_header_line_size r.current_header_value piece)

unfoldable pub on_headers_complete : Reading → Option Reading
unfolding flush_header
on_headers_complete r = some (flush_header r)

unfoldable pub on_message_complete : Reading → Option Reading
on_message_complete r = some (record r { request_complete = true })

-- After a request has been dispatched.
unfoldable pub reset_reading : Reading → Reading
reset_reading r = record r {
  current_url = [];
  current_method = [];
  current_body = [];
  headers = [];
  current_header_field = [];
  current_header_value = [];
  request_complete = false;
}
