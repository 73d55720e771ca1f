-- ===== src/Server/BaseUrl.antt =====
-- src/server/server.go: forwardedScheme, splitHostPort, validPathPrefix, assetPrefix and baseURL.
pub mod Trust
pub mod Prefixes
use pastebin.Base.{
  ℕ, zero, suc, ◌-◌, ◌≤◌, Bool, true, false, not, ◌&&◌, ◌||◌, Option, none, some, List, [], ◌∷◌,
  ◌++◌, Bytes, codes, bytes_eq, if◌then◌else◌, leb, ◌==◌, take, drop, length, is_some,
}
use pastebin.Base.Text.{trim_space, trim_right, contains_byte, has_prefix, has_suffix}
use pastebin.Server.Request.{Request, equal_fold, is_empty, first_text}
use pastebin.Server.Address.{Net, is_routable_host}
use pastebin.Server.Proxies.{
  Settings, first_of, is_trusted_peer, tor_request_onion, i2p_request_b32, overlay_host,
}

abbrev pub http : Bytes
http = codes "http"

abbrev pub https : Bytes
https = codes "https"

-- The scheme that a header names, if it is one of the two.
abbrev pub named_scheme : Bytes → Bytes → Bytes
named_scheme v other =
    if equal_fold v https then https else if equal_fold v http then http else other

unfoldable pub forwarded_scheme : Request → Bool → Bytes
forwarded_scheme r trusted =
    let ssl = equal_fold (trim_space (r.header (codes "X-Forwarded-Ssl"))) (codes "on") in
    let url = named_scheme (trim_space (r.header (codes "X-Url-Scheme"))) [] in
    if trusted
    then named_scheme (trim_space (r.header (codes "X-Forwarded-Proto")))
        (if ssl then https else url)
    else []

-- A byte that no path prefix may hold.
abbrev pub is_banned : ℕ → Bool
is_banned c = (c == b':') || ((c == b'\\') || (leb c 32 || (c == 127)))

unfoldable pub any_banned : Bytes → Bool
any_banned [] = false
any_banned (c ∷ s) = is_banned c || any_banned s

unfoldable pub valid_path_prefix : Bytes → Bool
valid_path_prefix [] = false
valid_path_prefix (c ∷ s) =
    if not (c == b'/')
    then false
    else if has_prefix (c ∷ s) (codes "//") || has_prefix (c ∷ s) (b'/' ∷ b'\\' ∷ [])
    then false
    else not (any_banned (c ∷ s))

-- `strings.TrimRight(s, "/")`
abbrev pub trim_slashes : Bytes → Bytes
trim_slashes s = trim_right (λ c. c == b'/') s

-- The bytes between the brackets of an address of IPv6 with no port.
abbrev pub unbracketed : Bytes → Bytes
unbracketed host = take (length host - 2) (drop 1 host)

abbrev pub split_or : Option (Bytes × Bytes) → Bytes → Bytes × Bytes
split_or (some hp) host = hp
split_or none host =
    if has_prefix host (codes "[") && has_suffix host (codes "]")
    then (unbracketed host, [])
    else (host, [])

abbrev pub url_prefix : Option Bytes → Bytes
url_prefix none = []
url_prefix (some path) = let p = trim_slashes path in if valid_path_prefix p then p else []

-- The first of the texts that is not empty, if it is a prefix that is safe.
abbrev pub safe_or : Bytes → Bytes → Bytes
safe_or [] other = other
safe_or (c ∷ p) other = if valid_path_prefix (c ∷ p) then c ∷ p else other

abbrev pub prefix_headers : Request → List Bytes
prefix_headers r =
    r.header (codes "X-Forwarded-Prefix")
    ∷ r.header (codes "X-Forwarded-Path")
    ∷ r.header (codes "X-Script-Name")
    ∷ []

abbrev pub scheme_of : Request → Bool → Bytes
scheme_of r trusted = first_text (forwarded_scheme r trusted) (if r.tls then https else http)

-- The host that a trusted proxy names.
unfoldable pub proxy_host : Request → Bool → Bytes
proxy_host r trusted =
    if trusted
    then first_of (
        trim_space (r.header (codes "X-Forwarded-Host"))
        ∷ trim_space (r.header (codes "X-Real-Host"))
        ∷ trim_space (r.header (codes "X-Original-Host"))
        ∷ [])
    else []

abbrev pub forwarded_port : Request → Bool → Bytes → Bytes
forwarded_port r trusted port =
    if trusted then first_text (trim_space (r.header (codes "X-Forwarded-Port"))) port else port

abbrev pub shown_port : Bytes → Bytes → Bytes
shown_port scheme port =
    if (bytes_eq scheme http && bytes_eq port (codes "80"))
      || (bytes_eq scheme https && bytes_eq port (codes "443"))
    then []
    else port

abbrev pub safe : Bytes → Bytes
safe p = if valid_path_prefix p then p else []

unfoldable pub proxy_prefix : Request → Bool → Bytes
proxy_prefix r trusted = if trusted then safe (trim_slashes (first_of (prefix_headers r))) else []

module _ (net : Net) where
  unfoldable pub split_host_port : Bytes → Bytes × Bytes
  split_host_port host = split_or (net.split_host_port host) host

  abbrev pub configured_prefix : Settings → Bytes
  configured_prefix cfg =
      if is_empty cfg.base_url then [] else url_prefix (net.url_path cfg.base_url)

  unfoldable pub asset_prefix : Settings → Request → Bytes
  asset_prefix cfg r =
      let rest = configured_prefix cfg in
      let named = first_of (
        trim_slashes (r.header (codes "X-Forwarded-Prefix"))
        ∷ trim_slashes (r.header (codes "X-Forwarded-Path"))
        ∷ trim_slashes (r.header (codes "X-Script-Name"))
        ∷ []) in
      if is_trusted_peer net cfg r then safe_or named rest else rest

  -- The configured name in place of a host that no client can reach.
  abbrev pub public_host : Settings → Bool → Bytes × Bytes → Bytes × Bytes
  public_host cfg named host =
      let f = trim_space cfg.fqdn in
      if not named
        && (not (is_routable_host net host.0)
            && (not (is_empty f) && not (equal_fold f (codes "localhost"))))
      then split_host_port f
      else host

  unfoldable pub host_port : Bytes → Bytes → Bytes
  host_port hostname [] =
      if contains_byte hostname b':' then codes "[" ++ (hostname ++ codes "]") else hostname
  host_port hostname (c ∷ port) = net.join_host_port hostname (c ∷ port)

  -- The host and the port in front of the forwarded port.
  unfoldable pub host_and_port : Settings → Request → Bool → Bytes × Bytes
  host_and_port cfg r trusted =
      let named = proxy_host r trusted in
      public_host cfg (not (is_empty named)) (split_host_port (first_text named r.host))

  abbrev pub direct_url : Settings → Request → Bool → Bytes
  direct_url cfg r trusted =
      let scheme = scheme_of r trusted in
      let hp = host_and_port cfg r trusted in
      let port = shown_port scheme (forwarded_port r trusted hp.1) in
      scheme ++ (codes "://" ++ (host_port hp.0 port ++ proxy_prefix r trusted))

  unfoldable pub base_url : Settings → Request → Bytes
  base_url cfg r =
      let onion = tor_request_onion net cfg r in
      let b32 = i2p_request_b32 net cfg r in
      if not (is_empty onion)
      then codes "http://" ++ onion
      else if not (is_empty b32)
      then codes "http://" ++ b32
      else if not (is_empty cfg.base_url)
      then cfg.base_url
      else direct_url cfg r (is_trusted_peer net cfg r)
