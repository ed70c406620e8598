-- ===== src/Http/Guarded.antt =====
-- src/http_transport.cpp: which Origin and Host headers pass.
use mathlib.Core.List.{append_assoc}
use cppmcp.Base.{
  ◌==◌, ◌≡◌, ◌≢◌, refl, sym, subst, ap, ◌⊎◌, inl, inr, ◌∙◌, true, false, ◌||◌, [], ◌∷◌, ◌++◌,
  Option, none, some, arith, Option-cases, Bool-cases,
}
use cppmcp.Text.{Bytes, codes, bytes_eq, bytes_beq_iff, is_nil, is_free, cut, find_text, to_lower}
use cppmcp.Text.Laws.{
  is_free-cut, joined, joined-cut, find_text-some, is_free-to_lower, Starts, cut-parts,
}
use cppmcp.Http.Guard.{is_web_scheme, after_user, hostport_of, is_origin_allowed, is_host_allowed}

-- The hosts that a name without a colon can stand for.
abbrev pub IsLocal : (host config_host : Bytes) → Type 0
IsLocal host config_host =
    (host ≡ codes "127.0.0.1") ⊎ ((host ≡ codes "localhost") ⊎ (host ≡ config_host))

-- The user before a host and port: there is none, and no '@' anywhere, or it ends with the first '@'.
abbrev pub IsUser : (user hostport : Bytes) → Type 0
IsUser user hostport =
    ((user ≡ []) × (is_free b'@' hostport ≡ true))
    ⊎ ((name : Bytes) × (user ≡ name ++ b'@' ∷ []) × (is_free b'@' name ≡ true))

-- An origin of the form scheme://[user@]host[:port][/path]: the path begins with the first '/' after the
-- scheme, the user ends with the first '@' before the path, and the port begins with the first ':'
-- after the user.
pub record IsOrigin (origin scheme user host port path : Bytes) : Type 0 where
  pub parts : origin ≡ scheme ++ (codes "://" ++ ((user ++ (host ++ port)) ++ path))
  pub web : (to_lower scheme ≡ codes "http") ⊎ (to_lower scheme ≡ codes "https")
  pub user_form : IsUser user (host ++ port)
  pub port_form : Starts b':' port
  pub path_form : Starts b'/' path
  pub no_slash : is_free b'/' (user ++ (host ++ port)) ≡ true
  pub no_colon : is_free b':' host ≡ true

-- A colon in a name that was cut at its first colon.
loopback_never : (host : Bytes) → is_free b':' host ≡ true → to_lower host ≢ codes "::1"
unfolding is_free
loopback_never host free e = absurd-path (sym (is_free-to_lower host free) ∙ ap (is_free b':') e)
  where
    absurd-path : true ≢ false
    absurd-path h = ground arith

after_user-parts :
    (authority : Bytes) (p : Bytes × Option Bytes)
    → joined b'@' p ≡ authority
    → is_free b'@' p.0 ≡ true
    → (user : Bytes) × (authority ≡ user ++ after_user authority p)
      × IsUser user (after_user authority p)
after_user-parts authority (before, none) e free =
    ([], refl, inl (refl, ap (is_free b'@') (sym e) ∙ free))
after_user-parts authority (before, some after) e free = (
  before ++ b'@' ∷ [],
  sym e ∙ sym (append_assoc before (b'@' ∷ []) after),
  inr (before, refl, free),
)

hostport_of-parts :
    (rest : Bytes)
    → (user path : Bytes) × (rest ≡ (user ++ hostport_of rest) ++ path)
      × IsUser user (hostport_of rest)
      × Starts b'/' path
      × (is_free b'/' (user ++ hostport_of rest) ≡ true)
unfolding hostport_of
hostport_of-parts rest =
    let authority = (cut b'/' rest).0 in
    let (path, e, starts) = cut-parts b'/' rest in
    let (user, e', form) =
      after_user-parts authority (cut b'@' authority) (joined-cut b'@' authority)
        (is_free-cut b'@' authority) in
    (
      user,
      path,
      e ∙ ap (λ a. a ++ path) e',
      form,
      starts,
      ap (is_free b'/') (sym e') ∙ is_free-cut b'/' rest,
    )

one_of :
    (host config_host : Bytes)
    → (host == codes "127.0.0.1"
        || (host == codes "localhost" || (host == codes "::1" || host == config_host)))
      ≡ true
    → (host ≡ codes "::1") ⊎ IsLocal host config_host
one_of host config_host h = ground (
  arith,
  bytes_beq_iff host (codes "127.0.0.1"),
  bytes_beq_iff host (codes "localhost"),
  bytes_beq_iff host (codes "::1"),
  bytes_beq_iff host config_host,
)

IsLocal-of :
    (host config_host : Bytes)
    → is_free b':' host ≡ true
    → (to_lower host ≡ codes "::1") ⊎ IsLocal (to_lower host) config_host
    → IsLocal (to_lower host) config_host
IsLocal-of host config_host free (inl e) = absurd (loopback_never host free e)
IsLocal-of host config_host free (inr one) = one

is_origin_allowed-checks :
    (origin config_host scheme rest : Bytes)
    → find_text (codes "://") origin ≡ some (scheme, rest)
    → is_origin_allowed origin config_host ≡ true
    → (is_web_scheme (to_lower scheme) ≡ true)
      × (let host = to_lower (cut b':' (hostport_of rest)).0 in
          host == codes "127.0.0.1"
          || (host == codes "localhost" || (host == codes "::1" || host == config_host)))
        ≡ true
unfolding is_origin_allowed
is_origin_allowed-checks origin config_host scheme rest found h = ground arith

is_origin_allowed-schemeless :
    (origin config_host : Bytes)
    → find_text (codes "://") origin ≡ none
    → is_origin_allowed origin config_host ≢ true
unfolding is_origin_allowed
is_origin_allowed-schemeless origin config_host none_there h = ground arith

-- An origin that is allowed is an http or https scheme, `://`, what is before the first '/', and from there
-- on a path. What is before that '/' is a user that ends with its first '@', if it has one, then a host
-- up to the next ':', then a port; and this host in lower case is 127.0.0.1, localhost or the
-- configured host.
pub is_origin_allowed-IsLocal :
    (origin config_host : Bytes)
    → is_origin_allowed origin config_host ≡ true
    → (scheme user host port path : Bytes) × IsOrigin origin scheme user host port path
      × IsLocal (to_lower host) config_host
is_origin_allowed-IsLocal origin config_host h =
    elim (Option-cases (find_text (codes "://") origin)) [
      | inl none_there ↦ absurd (is_origin_allowed-schemeless origin config_host none_there h)
      | inr ((scheme, rest), found) ↦
          let (web, same) = is_origin_allowed-checks origin config_host scheme rest found h in
          let (user, path, e, user_form, path_form, no_slash) = hostport_of-parts rest in
          let hostport = hostport_of rest in
          let (port, e', port_form) = cut-parts b':' hostport in
          let host = (cut b':' hostport).0 in
          let no_colon = is_free-cut b':' hostport in
          (
            scheme,
            user,
            host,
            port,
            path,
            record {
              parts =
                  find_text-some (codes "://") origin scheme rest found
                  ∙ ap (λ r. scheme ++ (codes "://" ++ r)) (e ∙ ap (λ h. (user ++ h) ++ path) e');
              web = ground (
                arith,
                bytes_beq_iff (to_lower scheme) (codes "http"),
                bytes_beq_iff (to_lower scheme) (codes "https"),
              );
              user_form = subst (IsUser user) e' user_form;
              port_form = port_form;
              path_form = path_form;
              no_slash = ap (λ h. is_free b'/' (user ++ h)) (sym e') ∙ no_slash;
              no_colon = no_colon;
            },
            IsLocal-of host config_host no_colon (one_of (to_lower host) config_host same),
          )
    ]

host_of :
    (host config_host : Bytes)
    → (host == config_host
        || (host == codes "127.0.0.1" || (host == codes "localhost" || host == codes "::1")))
      ≡ true
    → (host ≡ codes "::1") ⊎ IsLocal host config_host
host_of host config_host h = ground (
  arith,
  bytes_beq_iff host (codes "127.0.0.1"),
  bytes_beq_iff host (codes "localhost"),
  bytes_beq_iff host (codes "::1"),
  bytes_beq_iff host config_host,
)

is_host_allowed-checks :
    (header config_host : Bytes)
    → is_host_allowed header config_host ≡ true
    → (let host = to_lower (cut b':' header).0 in
        host == to_lower config_host
        || (host == codes "127.0.0.1" || (host == codes "localhost" || host == codes "::1")))
      ≡ true
unfolding is_host_allowed
is_host_allowed-checks header config_host h = elim (Bool-cases (is_nil header)) [
  | inl empty ↦ ground arith
  | inr there ↦ ground arith
]

-- A Host header that is allowed is a host and maybe a port, and the host in lower case is 127.0.0.1,
-- localhost or the configured host in lower case.
pub is_host_allowed-IsLocal :
    (header config_host : Bytes)
    → is_host_allowed header config_host ≡ true
    → (host port : Bytes) × (header ≡ host ++ port)
      × Starts b':' port
      × (is_free b':' host ≡ true)
      × IsLocal (to_lower host) (to_lower config_host)
is_host_allowed-IsLocal header config_host h =
    let (port, e, port_form) = cut-parts b':' header in
    let host = (cut b':' header).0 in
    let no_colon = is_free-cut b':' header in
    (
      host,
      port,
      e,
      port_form,
      no_colon,
      IsLocal-of host (to_lower config_host) no_colon (
          host_of (to_lower host) (to_lower config_host)
            (is_host_allowed-checks header config_host h)),
    )
