-- ===== src/Lines.antt =====
-- The lines that the stdio and pipe transports read: asio::async_read_until(stream, buffer, '\n') and the
-- start of its completion handler in src/stdio_transport.cpp and src/local_pipe_transport.cpp.
pub mod Framing
use cppmcp.Base.{
  ℕ, zero, suc, ◌==◌, nat_eq, Bool, true, false, ◌&&◌, ◌||◌, List, [], ◌∷◌, ◌++◌, length, Option,
  none, some, if◌then◌else◌,
}
use cppmcp.Text.{Bytes, is_nil, cut}

-- The next line of the buffer with its newline, and what is behind it.
abbrev pub found_line : Bytes × Option Bytes → Option (Bytes × Bytes)
found_line (line, none) = none
found_line (line, some rest) = some (line ++ 10 ∷ [], rest)

unfoldable pub read_until : Bytes → Option (Bytes × Bytes)
read_until buffer = found_line (cut 10 buffer)

abbrev pub after_line :
    (next : Bytes → List Bytes × Bytes) → Bytes → Option (Bytes × Bytes) → List Bytes × Bytes
after_line next buffer none = ([], buffer)
after_line next buffer (some (line, rest)) = (line ∷ (next rest).0, (next rest).1)

-- The lines that one read after the other takes off the buffer, and what they leave of it. `fuel` bounds
-- their number.
unfoldable pub read_lines : (fuel : ℕ) → Bytes → List Bytes × Bytes
unfolding read_until
read_lines zero buffer = ([], buffer)
read_lines (suc fuel) buffer = after_line (read_lines fuel) buffer (read_until buffer)

-- The reads of all of `s`, with fuel enough for its bytes.
unfoldable pub lines_of : Bytes → List Bytes × Bytes
unfolding read_lines
lines_of s = read_lines (suc (length s)) s

abbrev is_break : ℕ → Bool
is_break c = c == 10 || c == 13

-- `while (!line.empty() && (line.back() == '\n' || line.back() == '\r')) line.pop_back();`
unfoldable pub strip_break : Bytes → Bytes
strip_break [] = []
strip_break (c ∷ line) =
    let rest = strip_break line in if is_nil rest && is_break c then [] else c ∷ rest
