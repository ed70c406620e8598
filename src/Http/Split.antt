-- ===== src/Http/Split.antt =====
-- src/http_transport.cpp: a header name that reaches the parser in two pieces.
use cppmcp.Base.{
  ◌<◌, ◌≤◌, suc, leb, ◌≡◌, refl, ap, ◌∙◌, true, false, [], none, some, if◌then◌else◌, length, arith,
}
use cppmcp.Map.{find, insert, find-insert-same, length-insert}
use cppmcp.Text.{Bytes, bytes_eq, bytes_ord, is_nil, to_lower}
use cppmcp.Http.Connection.{Reading, append_within, flush_header, on_header_field, with_field}

flush_header-begun :
    (r : Reading)
    → is_nil r.current_header_field ≡ false
    → flush_header r ≡ record r {
      headers = insert (to_lower r.current_header_field) r.current_header_value r.headers;
      current_header_field = [];
      current_header_value = [];
    }
unfolding flush_header
flush_header-begun r h = rw h refl

flush_header-none : (r : Reading) → is_nil r.current_header_field ≡ true → flush_header r ≡ r
unfolding flush_header
flush_header-none r h = rw h refl

on_header_field-begins :
    (piece : Bytes) (r flushed : Reading)
    → flush_header r ≡ flushed
    → flushed.current_header_field ≡ []
    → length flushed.headers < flushed.max_header_count
    → length piece ≤ flushed.max_header_line_size
    → on_header_field piece r ≡ some (record flushed { current_header_field = piece })
unfolding on_header_field
on_header_field-begins piece r flushed e empty room short =
    ap
      (λ (f : Reading).
        if leb f.max_header_count (length f.headers)
        then none
        else with_field f (append_within f.max_header_line_size f.current_header_field piece))
      e
    ∙ begins
  where
    begins :
        (if leb flushed.max_header_count (length flushed.headers)
          then none
          else with_field flushed
              (append_within flushed.max_header_line_size flushed.current_header_field piece))
        ≡ some (record flushed { current_header_field = piece })
    begins = rw empty (ground (arith, room, short))

-- A header name that comes in two pieces, as when it spans two reads, becomes two headers: the first
-- piece is a header with an empty value, and the second is a name of its own.
pub on_header_field-split :
    (p q : Bytes) (r : Reading)
    → is_nil p ≡ false
    → r.current_header_field ≡ []
    → r.current_header_value ≡ []
    → suc (length r.headers) < r.max_header_count
    → length p ≤ r.max_header_line_size
    → length q ≤ r.max_header_line_size
    → (r' r'' : Reading) × (on_header_field p r ≡ some r')
      × (on_header_field q r' ≡ some r'')
      × (find (to_lower p) r''.headers ≡ some [])
      × (r''.current_header_field ≡ q)
on_header_field-split p q r some_p no_field no_value room short short' =
    let r' = record r { current_header_field = p } in
    let flushed = record r {
      headers = insert (to_lower p) r.current_header_value r.headers;
      current_header_field = [];
      current_header_value = [];
    } in
    (
      r',
      record flushed { current_header_field = q },
      on_header_field-begins p r r (flush_header-none r (ap is_nil no_field)) no_field (omega arith)
          short,
      on_header_field-begins q r' flushed (flush_header-begun r' some_p) refl
          (omega (arith, length-insert (to_lower p) r.current_header_value r.headers)) short',
      find-insert-same (to_lower p) r.current_header_value r.headers ∙ ap some no_value,
      refl,
    )
