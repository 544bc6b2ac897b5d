-- ===== src/Auth/ApiClient.antt =====
-- src/auth/ApiAuthClient.cpp. The resolver, the HTTP exchange and the JSON reader are arguments: what
-- they give for one call, `none` where they throw.
use transcription_api.Prelude.{
  Text, codes, text_eq, is_empty, ℤ, ℕ, ◌≡◌, refl, ◌≢◌, ◌⊎◌, inl, inr, Bool, true, not, ◌&&◌, ◌||◌,
  Option, none, some, List, [], ◌∷◌, ◌++◌, arith, ◌==◌, if◌then◌else◌, Option-cases,
}
use transcription_api.Auth.{ApiAuthConfig, AuthResult, allowed, denied, api_unavailable}

pub record Url : Type 0 where
  pub scheme : Text
  pub host : Text
  pub base_path : Text

unfoldable pub strip_prefix : Text → Text → Option Text
strip_prefix [] s = some s
strip_prefix (c ∷ p) [] = none
strip_prefix (c ∷ p) (d ∷ s) = let rest = strip_prefix p s in if c == d then rest else none

-- `[^/]+` takes all up to the first slash.
unfoldable pub until_slash : Text → Text × Text
until_slash [] = ([], [])
until_slash (c ∷ s) =
    let (host, rest) = until_slash s in if c == b'/' then ([], c ∷ s) else (c ∷ host, rest)

-- `.` of the regular expression matches no line terminator.
unfoldable pub one_line : Text → Bool
one_line [] = true
one_line (c ∷ s) = not (c == 10) && not (c == 13) && one_line s

-- The part behind `://`.
unfoldable pub parse_rest : Text → Text → Option Url
unfolding until_slash one_line
parse_rest scheme s =
    let (host, path) = until_slash s in
    if not (is_empty host) && one_line path
    then some (record { scheme = scheme; host = host; base_path = path })
    else none

-- `^(https?)://([^/]+)(/.*)?` on the whole text.
unfoldable pub parse_url : Text → Option Url
unfolding strip_prefix parse_rest
parse_url url = elim (strip_prefix (codes "https://") url) [
  | some s ↦ parse_rest (codes "https") s
  | none ↦ elim (strip_prefix (codes "http://") url) [
    | some s ↦ parse_rest (codes "http") s
    | none ↦ none
  ]
]

pub record Endpoint : Type 0 where
  pub address : Text
  pub link_local_v6 : Bool

-- The first endpoint that is not an IPv6 link-local one; `none` is the `runtime_error`.
unfoldable pub resolve_endpoint : List Endpoint → Option Endpoint
resolve_endpoint [] = none
resolve_endpoint (e ∷ es) =
    let rest = resolve_endpoint es in if e.link_local_v6 then rest else some e

pub record Request : Type 0 where
  pub use_tls : Bool
  pub target : Text
  pub host : Text
  pub user_agent : Text
  pub authorization : Text
  pub x_api_key : Text
  pub timeout_seconds : ℤ

pub record Response : Type 0 where
  pub status : ℕ
  pub body : Text

pub record Network : Type 0 where
  -- `resolver.resolve(host, port)`
  pub resolve : Text → Text → Option (List Endpoint)
  -- connect, handshake, write and read
  pub exchange : Endpoint → Request → Option Response
  -- `parse(body).value("is_active", false)`
  pub is_active : Text → Option Bool

unfoldable pub judge : (Text → Option Bool) → Response → AuthResult
judge is_active res =
    if res.status == 401 || res.status == 403
    then denied
    else if res.status == 200
    then elim (is_active res.body) [
      | none ↦ api_unavailable
      | some active ↦ if active then allowed else denied
    ]
    else api_unavailable

unfoldable pub request_of : ApiAuthConfig → Url → Text → Request
request_of config url client_key = record {
  use_tls = text_eq url.scheme (codes "https");
  target = url.base_path ++ codes "/client";
  host = url.host;
  user_agent = codes "TranscriptionServer/1.0";
  authorization = codes "Bearer " ++ config.api_secret_key;
  x_api_key = client_key;
  timeout_seconds = config.timeout_seconds;
}

-- The `try` block; every exception of it ends as "unavailable".
unfoldable pub ask_api : Network → ApiAuthConfig → Url → Text → Option Response
unfolding resolve_endpoint request_of
ask_api net config url client_key =
    let port = if text_eq url.scheme (codes "https") then codes "443" else codes "80" in
    elim (net.resolve url.host port) [
      | none ↦ none
      | some es ↦ elim (resolve_endpoint es) [
        | none ↦ none
        | some e ↦ net.exchange e (request_of config url client_key)
      ]
    ]

-- `ApiAuthClient::validate`
unfoldable pub api_validate : Network → ApiAuthConfig → Text → AuthResult
api_validate net config client_key = elim (parse_url config.api_base_url) [
  | none ↦ api_unavailable
  | some url ↦ elim (ask_api net config url client_key) [
    | none ↦ api_unavailable
    | some res ↦ judge net.is_active res
  ]
]

strip_prefix_lem : (p s rest : Text) → strip_prefix p s ≡ some rest → s ≡ p ++ rest
unfolding strip_prefix
strip_prefix_lem [] s rest e = ground arith
strip_prefix_lem (c ∷ p) [] rest e = cc
strip_prefix_lem (c ∷ p) (d ∷ s) rest e = ground (arith, strip_prefix_lem p s rest)

until_slash-append : (s : Text) → let (host, rest) = until_slash s in host ++ rest ≡ s
unfolding until_slash
until_slash-append [] = refl
until_slash-append (c ∷ s) = ground (arith, until_slash-append s)

parse_rest_lem :
    (scheme s : Text) (u : Url)
    → parse_rest scheme s ≡ some u
    → (u.scheme ≡ scheme) × (s ≡ u.host ++ u.base_path) × (u.host ≢ [])
unfolding parse_rest
parse_rest_lem scheme s u e = (ground arith, ground (arith, until_slash-append s), ground arith)

-- The parts of an accepted URL make up the URL, and its host is not empty.
pub parse_url_lem :
    (url : Text) (u : Url)
    → parse_url url ≡ some u
    → (url ≡ u.scheme ++ codes "://" ++ u.host ++ u.base_path)
      × ((u.scheme ≡ codes "http") ⊎ (u.scheme ≡ codes "https"))
      × (u.host ≢ [])
unfolding parse_url
parse_url_lem url u e = elim (Option-cases (strip_prefix (codes "https://") url)) [
  | inr (s, tls) ↦
      let (scheme, parts, host) = parse_rest_lem (codes "https") s u (ground arith) in
      (rw (strip_prefix_lem (codes "https://") url s tls, parts, scheme), inr scheme, host)
  | inl no_tls ↦ elim (Option-cases (strip_prefix (codes "http://") url)) [
    | inr (s, plain) ↦
        let (scheme, parts, host) = parse_rest_lem (codes "http") s u (ground arith) in
        (rw (strip_prefix_lem (codes "http://") url s plain, parts, scheme), inl scheme, host)
    | inl other ↦ absurd (ground arith)
  ]
]

-- 443 for a URL with TLS, else 80.
abbrev pub port_of : Url → Text
port_of u = if text_eq u.scheme (codes "https") then codes "443" else codes "80"
