-- ===== src/Http/Limits.antt =====
-- src/http_transport.cpp: the limits of a connection, and a request that reaches it in pieces.
use cppmcp.Base.{
  ℕ, suc, ◌≤◌, leb, ◌≡◌, refl, subst, false, Option, none, some, if◌then◌else◌, length, All, arith,
  length-append, OnSome, Bool-cases, inl, inr,
}
use cppmcp.Map.{length-insert, All-insert}
use cppmcp.Text.{Bytes, bytes_eq, bytes_ord, is_nil, to_lower}
use cppmcp.Http.Connection.{
  Reading, append_within, on_url, on_method, on_body, flush_header, on_header_field,
  on_header_value, on_headers_complete, on_message_complete, reset_reading, with_url, with_body,
  with_value, with_field,
}

-- A call that the parser makes, or the start of the next request.
pub data Callback : Type 0 where
  url method body header_field header_value : Bytes → Callback
  headers_complete message_complete reset : Callback

abbrev pub run_callback : Callback → Reading → Option Reading
run_callback (url piece) r = on_url piece r
run_callback (method piece) r = on_method piece r
run_callback (body piece) r = on_body piece r
run_callback (header_field piece) r = on_header_field piece r
run_callback (header_value piece) r = on_header_value piece r
run_callback headers_complete r = on_headers_complete r
run_callback message_complete r = on_message_complete r
run_callback reset r = some (reset_reading r)

-- The header that is being read counts.
abbrev pub headers_begun : Reading → ℕ
headers_begun r = if is_nil r.current_header_field then length r.headers else suc (length r.headers)

pub record IsWithin (r : Reading) : Type 0 where
  pub url_size : length r.current_url ≤ r.max_header_line_size
  pub body_size : length r.current_body ≤ r.max_body_size
  pub header_count : headers_begun r ≤ r.max_header_count
  pub field_size : length r.current_header_field ≤ r.max_header_line_size
  pub value_size : length r.current_header_value ≤ r.max_header_line_size
  pub value_sizes :
      All (λ (header : Bytes × Bytes). length header.1 ≤ r.max_header_line_size) r.headers

append_within-bound :
    (limit : ℕ) (old piece new : Bytes)
    → append_within limit old piece ≡ some new
    → length new ≤ limit
append_within-bound limit old piece new h = ground (arith, length-append old piece)

flush_header-IsWithin : (r : Reading) → IsWithin r → IsWithin (flush_header r)
unfolding flush_header
flush_header-IsWithin r w = elim (Bool-cases (is_nil r.current_header_field)) [
  | inl h ↦ rw h w
  | inr h ↦ rw h (record {
    url_size = w.url_size;
    body_size = w.body_size;
    header_count = ground (
      arith,
      w.header_count,
      length-insert (to_lower r.current_header_field) r.current_header_value r.headers,
    );
    field_size = omega arith;
    value_size = omega arith;
    value_sizes =
        All-insert _ (to_lower r.current_header_field) r.current_header_value r.headers w.value_size
          w.value_sizes;
  })
]

on_url-IsWithin : (piece : Bytes) (r : Reading) → IsWithin r → OnSome IsWithin (on_url piece r)
unfolding on_url
on_url-IsWithin piece r w =
    kept (append_within r.max_header_line_size r.current_url piece)
      (append_within-bound r.max_header_line_size r.current_url piece)
  where
    kept :
        (o : Option Bytes)
        → ((new : Bytes) → o ≡ some new → length new ≤ r.max_header_line_size)
        → OnSome IsWithin (with_url r o)
    kept none bound = tt
    kept (some new) bound = record {
      url_size = bound new refl;
      body_size = w.body_size;
      header_count = w.header_count;
      field_size = w.field_size;
      value_size = w.value_size;
      value_sizes = w.value_sizes;
    }

on_body-IsWithin : (piece : Bytes) (r : Reading) → IsWithin r → OnSome IsWithin (on_body piece r)
unfolding on_body
on_body-IsWithin piece r w =
    kept (append_within r.max_body_size r.current_body piece)
      (append_within-bound r.max_body_size r.current_body piece)
  where
    kept :
        (o : Option Bytes)
        → ((new : Bytes) → o ≡ some new → length new ≤ r.max_body_size)
        → OnSome IsWithin (with_body r o)
    kept none bound = tt
    kept (some new) bound = record {
      url_size = w.url_size;
      body_size = bound new refl;
      header_count = w.header_count;
      field_size = w.field_size;
      value_size = w.value_size;
      value_sizes = w.value_sizes;
    }

on_header_value-IsWithin :
    (piece : Bytes) (r : Reading) → IsWithin r → OnSome IsWithin (on_header_value piece r)
unfolding on_header_value
on_header_value-IsWithin piece r w =
    kept (append_within r.max_header_line_size r.current_header_value piece)
      (append_within-bound r.max_header_line_size r.current_header_value piece)
  where
    kept :
        (o : Option Bytes)
        → ((new : Bytes) → o ≡ some new → length new ≤ r.max_header_line_size)
        → OnSome IsWithin (with_value r o)
    kept none bound = tt
    kept (some new) bound = record {
      url_size = w.url_size;
      body_size = w.body_size;
      header_count = w.header_count;
      field_size = w.field_size;
      value_size = bound new refl;
      value_sizes = w.value_sizes;
    }

on_header_field-IsWithin :
    (piece : Bytes) (r : Reading) → IsWithin r → OnSome IsWithin (on_header_field piece r)
unfolding on_header_field
on_header_field-IsWithin piece r before =
    elim (Bool-cases (leb flushed.max_header_count (length flushed.headers))) [
      | inl full ↦ rw full tt
      | inr room ↦ rw room (
          kept room (append_within flushed.max_header_line_size flushed.current_header_field piece)
            (append_within-bound flushed.max_header_line_size flushed.current_header_field piece))
    ]
  where
    flushed : Reading
    flushed = flush_header r

    w : IsWithin flushed
    w = flush_header-IsWithin r before

    kept :
        leb flushed.max_header_count (length flushed.headers) ≡ false
        → (o : Option Bytes)
        → ((new : Bytes) → o ≡ some new → length new ≤ flushed.max_header_line_size)
        → OnSome IsWithin (with_field flushed o)
    kept room none bound = tt
    kept room (some new) bound = record {
      url_size = w.url_size;
      body_size = w.body_size;
      header_count = ground (arith, room);
      field_size = bound new refl;
      value_size = w.value_size;
      value_sizes = w.value_sizes;
    }

run_callback-IsWithin :
    (c : Callback) (r : Reading) → IsWithin r → OnSome IsWithin (run_callback c r)
unfolding on_method on_headers_complete on_message_complete reset_reading
run_callback-IsWithin (url piece) r w = on_url-IsWithin piece r w
run_callback-IsWithin (method piece) r w = record {
  url_size = w.url_size;
  body_size = w.body_size;
  header_count = w.header_count;
  field_size = w.field_size;
  value_size = w.value_size;
  value_sizes = w.value_sizes;
}
run_callback-IsWithin (body piece) r w = on_body-IsWithin piece r w
run_callback-IsWithin (header_field piece) r w = on_header_field-IsWithin piece r w
run_callback-IsWithin (header_value piece) r w = on_header_value-IsWithin piece r w
run_callback-IsWithin headers_complete r w = flush_header-IsWithin r w
run_callback-IsWithin message_complete r w = record {
  url_size = w.url_size;
  body_size = w.body_size;
  header_count = w.header_count;
  field_size = w.field_size;
  value_size = w.value_size;
  value_sizes = w.value_sizes;
}
run_callback-IsWithin reset r w = record {
  url_size = omega arith;
  body_size = omega arith;
  header_count = omega arith;
  field_size = omega arith;
  value_size = omega arith;
  value_sizes = tt;
}

-- The readings that a row of callbacks leads to.
pub data Reads (start : Reading) : Reading → Type 0 where
  begun : Reads start start
  next :
      (c : Callback) {r r' : Reading} → Reads start r → run_callback c r ≡ some r' → Reads start r'

-- From a reading within its limits, every row of callbacks that none of them refuses leads to one:
-- url, name and values are no longer than max_header_line_size, the body than max_body_size, and
-- the headers that have begun are at most max_header_count.
pub Reads-IsWithin : {start r : Reading} → IsWithin start → Reads start r → IsWithin r
Reads-IsWithin w begun = w
Reads-IsWithin w (next c {r} reads e) =
    subst (OnSome IsWithin) e (run_callback-IsWithin c r (Reads-IsWithin w reads))
