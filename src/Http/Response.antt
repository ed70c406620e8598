-- ===== src/Http/Response.antt =====
-- src/http_transport.cpp: the text of a response.
pub mod Head
use cppmcp.Base.{ℕ, ◌==◌, nat_eq, Bool, not, ◌&&◌, List, [], ◌∷◌, ◌++◌, if◌then◌else◌, length}
use cppmcp.Text.{Bytes, codes}
use cppmcp.Decimal.{to_string}

abbrev is_header_byte : ℕ → Bool
is_header_byte c = not (c == 13) && (not (c == 10) && not (c == 0))

-- The bytes of a header's value but CR, LF and NUL.
unfoldable pub sanitize_header_value : Bytes → Bytes
sanitize_header_value [] = []
sanitize_header_value (c ∷ v) =
    let out = sanitize_header_value v in if is_header_byte c then c ∷ out else out

abbrev pub status_text : ℕ → Bytes
status_text status =
    if status == 200
    then codes "OK"
    else if status == 202
    then codes "Accepted"
    else if status == 204
    then codes "No Content"
    else if status == 400
    then codes "Bad Request"
    else if status == 403
    then codes "Forbidden"
    else if status == 404
    then codes "Not Found"
    else if status == 405
    then codes "Method Not Allowed"
    else if status == 406
    then codes "Not Acceptable"
    else if status == 429
    then codes "Too Many Requests"
    else if status == 500
    then codes "Internal Server Error"
    else if status == 503
    then codes "Service Unavailable"
    else codes "Unknown"

abbrev crlf : Bytes
crlf = 13 ∷ 10 ∷ []

-- The lines of the extra headers, and `rest` behind them.
unfoldable pub header_lines : List (Bytes × Bytes) → Bytes → Bytes
unfolding sanitize_header_value
header_lines [] rest = rest
header_lines ((name, value) ∷ headers) rest =
    sanitize_header_value name
    ++ (codes ": " ++ (sanitize_header_value value ++ (crlf ++ header_lines headers rest)))

unfoldable pub build_http_response :
    (status : ℕ) (content_type body : Bytes) (extra_headers : List (Bytes × Bytes)) → Bytes
unfolding header_lines
build_http_response status content_type body extra_headers =
    codes "HTTP/1.1 "
    ++ (codes (to_string status)
        ++ (codes " "
            ++ (status_text status
                ++ (crlf
                    ++ (codes "Content-Type: "
                        ++ (sanitize_header_value content_type
                            ++ (crlf
                                ++ (codes "Content-Length: "
                                    ++ (codes (to_string (length body))
                                        ++ (crlf
                                            ++ header_lines extra_headers (crlf ++ body)))))))))))
