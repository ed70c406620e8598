-- ===== src/Http/Guard.antt =====
-- src/http_transport.cpp: the checks of the Origin and Host headers.
use cppmcp.Base.{◌==◌, Bool, false, not, ◌||◌, Option, none, some, if◌then◌else◌}
use cppmcp.Text.{Bytes, codes, bytes_eq, is_nil, cut, find_text, to_lower}

abbrev pub is_web_scheme : Bytes → Bool
is_web_scheme scheme = scheme == codes "http" || scheme == codes "https"

abbrev pub after_user : Bytes → Bytes × Option Bytes → Bytes
after_user authority (user, none) = authority
after_user authority (user, some after) = after

-- The part of `rest` before the first '/', without the user before its first '@'.
unfoldable pub hostport_of : Bytes → Bytes
hostport_of rest = let authority = (cut b'/' rest).0 in after_user authority (cut b'@' authority)

unfoldable pub is_origin_allowed : (origin config_host : Bytes) → Bool
unfolding hostport_of
is_origin_allowed origin config_host = elim (find_text (codes "://") origin) [
  | none ↦ false
  | some (scheme, rest) ↦
      if is_nil scheme || not (is_web_scheme (to_lower scheme))
      then false
      else (let host = to_lower (cut b':' (hostport_of rest)).0 in
          host == codes "127.0.0.1"
          || (host == codes "localhost" || (host == codes "::1" || host == config_host)))
]

unfoldable pub is_host_allowed : (host_header config_host : Bytes) → Bool
is_host_allowed host_header config_host =
    if is_nil host_header
    then false
    else (let host = to_lower (cut b':' host_header).0 in
        host == to_lower config_host
        || (host == codes "127.0.0.1" || (host == codes "localhost" || host == codes "::1")))
