-- ===== src/Http/Response/Head.antt =====
-- src/http_transport.cpp: what a reader of a response finds in it.
use mathlib.Core.List.{append_assoc}
use cppmcp.Base.{
  ℕ, zero, suc, nat_eq, ◌==◌, ◌||◌, not, String, ◌≡◌, refl, ◌∙◌, ap, Bool, true, false, List, [],
  ◌∷◌, ◌++◌, map, Option, none, some, if◌then◌else◌, length, all, All, arith,
}
use cppmcp.Text.{Bytes, codes, is_nil, is_free, find_text}
use cppmcp.Text.Laws.{find_text-line}
use cppmcp.Decimal.{to_string, all_digits, all_digits-to_string}
use cppmcp.Http.Response.{
  sanitize_header_value, status_text, crlf, header_lines, build_http_response,
}

abbrev pub before_rest : Bytes → Option (List Bytes × Bytes) → Option (List Bytes × Bytes)
before_rest line none = none
before_rest line (some (lines, body)) = some (line ∷ lines, body)

-- A reader of messages: the lines up to an empty one, at most `n` with it, and what follows.
unfoldable pub read_head : ℕ → Bytes → Option (List Bytes × Bytes)
read_head zero s = none
read_head (suc n) s = elim (find_text crlf s) [
  | none ↦ none
  | some (line, after) ↦
      if is_nil line then some ([], after) else before_rest line (read_head n after)
]

-- Not NUL, LF or CR.
abbrev is_plain : ℕ → Bool
is_plain c = not (c == 0 || (c == 10 || c == 13))

abbrev pub is_clean : Bytes → Bool
is_clean s = all is_plain s

-- A text without its NUL, LF and CR bytes.
abbrev pub plain : Bytes → Bytes
plain [] = []
plain (c ∷ s) = let rest = plain s in if is_plain c then c ∷ rest else rest

sanitize_header_value_lem : (v : Bytes) → sanitize_header_value v ≡ plain v
unfolding sanitize_header_value
sanitize_header_value_lem [] = refl
sanitize_header_value_lem (c ∷ v) = ground (arith, sanitize_header_value_lem v)

is_free-is_clean : (s : Bytes) → is_clean s ≡ true → is_free 13 s ≡ true
unfolding is_free
is_free-is_clean [] h = refl
is_free-is_clean (c ∷ s) h = ground (arith, is_free-is_clean s)

is_clean-append : (s t : Bytes) → is_clean s ≡ true → is_clean t ≡ true → is_clean (s ++ t) ≡ true
is_clean-append [] t h k = k
is_clean-append (c ∷ s) t h k = ground (arith, is_clean-append s t)

is_clean-plain : (v : Bytes) → is_clean (plain v) ≡ true
is_clean-plain [] = refl
is_clean-plain (c ∷ v) = ground (arith, is_clean-plain v)

is_clean-digits : (s : String) → all_digits s ≡ true → is_clean (codes s) ≡ true
unfolding all_digits
is_clean-digits String.[] h = refl
is_clean-digits (String.◌∷◌ c s) h = ground (arith, is_clean-digits s)

is_clean-status_text : (status : ℕ) → is_clean (status_text status) ≡ true
is_clean-status_text status = ground arith

read_head-found :
    (n : ℕ) (s line after : Bytes)
    → find_text crlf s ≡ some (line, after)
    → is_nil line ≡ false
    → read_head (suc n) s ≡ before_rest line (read_head n after)
unfolding read_head
read_head-found n s line after found some_text = ground arith

read_head-line :
    (n : ℕ) (line rest : Bytes)
    → is_clean line ≡ true
    → is_nil line ≡ false
    → read_head (suc n) (line ++ (crlf ++ rest)) ≡ before_rest line (read_head n rest)
read_head-line n line rest h =
    read_head-found n (line ++ (crlf ++ rest)) line rest
      (find_text-line line rest (is_free-is_clean line h))

read_head-end : (n : ℕ) (body : Bytes) → read_head (suc n) (crlf ++ body) ≡ some ([], body)
unfolding read_head find_text
read_head-end n body = refl

-- The lines of a head as the arguments of build_http_response name them.
abbrev header_line : Bytes × Bytes → Bytes
header_line (name, value) = plain name ++ (codes ": " ++ plain value)

abbrev pub head_of :
    (status : ℕ) (content_type body : Bytes) (extra_headers : List (Bytes × Bytes)) → List Bytes
head_of status content_type body extra_headers =
    (codes "HTTP/1.1 " ++ (codes (to_string status) ++ (codes " " ++ status_text status)))
    ∷ (codes "Content-Type: " ++ plain content_type)
    ∷ (codes "Content-Length: " ++ codes (to_string (length body)))
    ∷ map header_line extra_headers

is_clean-header_line : (header : Bytes × Bytes) → is_clean (header_line header) ≡ true
is_clean-header_line (name, value) =
    is_clean-append (plain name) (codes ": " ++ plain value) (is_clean-plain name)
      (is_clean-plain value)

is_nil-header_line : (header : Bytes × Bytes) → is_nil (header_line header) ≡ false
is_nil-header_line (name, value) = colon_there (plain name)
  where
    colon_there : (s : Bytes) → is_nil (s ++ (codes ": " ++ plain value)) ≡ false
    colon_there [] = refl
    colon_there (c ∷ s) = refl

header_lines-cons :
    (header : Bytes × Bytes) (headers : List (Bytes × Bytes)) (rest : Bytes)
    → header_lines (header ∷ headers) rest
      ≡ header_line header ++ (crlf ++ header_lines headers rest)
unfolding header_lines
header_lines-cons (name, value) headers rest = simp (append_assoc, sanitize_header_value_lem)

read_head-header_lines :
    (headers : List (Bytes × Bytes)) (body : Bytes)
    → read_head (suc (length headers)) (header_lines headers (crlf ++ body))
      ≡ some (map header_line headers, body)
unfolding header_lines
read_head-header_lines [] body = read_head-end 0 body
read_head-header_lines (header ∷ headers) body =
    ap (read_head (suc (suc (length headers)))) (header_lines-cons header headers (crlf ++ body))
    ∙ read_head-line (suc (length headers)) (header_line header)
        (header_lines headers (crlf ++ body)) (is_clean-header_line header)
        (is_nil-header_line header)
    ∙ ap (before_rest (header_line header)) (read_head-header_lines headers body)

build_http_response-lines :
    (status : ℕ) (content_type body : Bytes) (extra_headers : List (Bytes × Bytes))
    → build_http_response status content_type body extra_headers
      ≡ (codes "HTTP/1.1 " ++ (codes (to_string status) ++ (codes " " ++ status_text status)))
        ++ (crlf
            ++ ((codes "Content-Type: " ++ plain content_type)
                ++ (crlf
                    ++ ((codes "Content-Length: " ++ codes (to_string (length body)))
                        ++ (crlf ++ header_lines extra_headers (crlf ++ body))))))
unfolding build_http_response
build_http_response-lines status content_type body extra_headers =
    simp (append_assoc, sanitize_header_value_lem)

is_clean-to_string : (n : ℕ) → is_clean (codes (to_string n)) ≡ true
is_clean-to_string n = is_clean-digits (to_string n) (all_digits-to_string n)

is_clean-status_line :
    (status : ℕ) → is_clean (codes (to_string status) ++ (codes " " ++ status_text status)) ≡ true
is_clean-status_line status =
    is_clean-append (codes (to_string status)) (codes " " ++ status_text status)
      (is_clean-to_string status) (is_clean-status_text status)

All-is_clean-header_line :
    (headers : List (Bytes × Bytes)) → All (λ line. is_clean line ≡ true) (map header_line headers)
All-is_clean-header_line [] = tt
All-is_clean-header_line (header ∷ headers) =
    (is_clean-header_line header, All-is_clean-header_line headers)

-- Whatever the content type, the extra headers and the body hold: a reader of the response finds the
-- status line, the two lines on the content and one line for each extra header, with the texts that
-- were given but their CR, LF and NUL bytes; no line has such a byte, and behind them is the body.
pub build_http_response-head :
    (status : ℕ) (content_type body : Bytes) (extra_headers : List (Bytes × Bytes))
    → (read_head
          (suc (suc (suc (suc (length extra_headers)))))
          (build_http_response status content_type body extra_headers)
        ≡ some (head_of status content_type body extra_headers, body))
      × All (λ line. is_clean line ≡ true) (head_of status content_type body extra_headers)
build_http_response-head status content_type body extra_headers =
    let n = length extra_headers in
    let rest = header_lines extra_headers (crlf ++ body) in
    let status_line =
      codes "HTTP/1.1 " ++ (codes (to_string status) ++ (codes " " ++ status_text status)) in
    let type_line = codes "Content-Type: " ++ plain content_type in
    let length_line = codes "Content-Length: " ++ codes (to_string (length body)) in
    let clean = is_clean-status_line status in
    let clean' = is_clean-plain content_type in
    let clean'' = is_clean-to_string (length body) in
    (
      ap (read_head (suc (suc (suc (suc n)))))
            (build_http_response-lines status content_type body extra_headers)
          ∙ read_head-line (suc (suc (suc n))) status_line
              (type_line ++ (crlf ++ (length_line ++ (crlf ++ rest)))) clean refl
          ∙ ap (before_rest status_line) (
              read_head-line (suc (suc n)) type_line (length_line ++ (crlf ++ rest)) clean' refl
              ∙ ap (before_rest type_line) (
                  read_head-line (suc n) length_line rest clean'' refl
                  ∙ ap (before_rest length_line) (read_head-header_lines extra_headers body))),
      (clean, (clean', (clean'', All-is_clean-header_line extra_headers))),
    )
