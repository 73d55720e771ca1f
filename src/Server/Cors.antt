-- ===== src/Server/Cors.antt =====
-- src/server/server.go: resolveCORSAllowList, corsOriginMatches, resolveCORSOrigin and corsMiddleware.
pub mod Credentials
use pastebin.Base.{
  ℕ, Bool, true, false, not, ◌&&◌, ◌||◌, Option, none, some, List, [], ◌∷◌, ◌++◌, Bytes, codes,
  bytes_eq, if◌then◌else◌, get_elem?,
}
use pastebin.Base.Text.{trim_space, split, has_suffix, cut_text}
use pastebin.Server.Request.{Request, is_empty}
use pastebin.Server.Address.{Net}
use pastebin.Server.Proxies.{Settings, tor_request_onion}
use pastebin.Server.Learner.{DomainLearner, cors_origins}

-- The settings server.cors.
pub record CorsConfig : Type 0 where
  pub allowed_origins : List Bytes
  pub allow_credentials : Bool

-- What the request is answered: the origin that is allowed, and whether with credentials.
pub record CorsReply : Type 0 where
  pub allow_origin : Bytes
  pub with_credentials : Bool

-- The texts of DOMAIN, each an origin of https.
unfoldable pub domain_origins : List Bytes → List Bytes
domain_origins [] = []
domain_origins (h ∷ hosts) =
    let rest = domain_origins hosts in
    let host = trim_space h in if is_empty host then rest else (codes "https://" ++ host) ∷ rest

abbrev pub from_env : Bytes → List Bytes
from_env domain = if is_empty domain then [] else domain_origins (split domain b',')

abbrev pub from_learner : Option DomainLearner → List Bytes
from_learner none = []
from_learner (some d) = cors_origins d

abbrev pub or_any : List Bytes → List Bytes
or_any [] = codes "*" ∷ []
or_any (o ∷ list) = o ∷ list

abbrev pub configured_or : List Bytes → List Bytes → Option (List Bytes)
configured_or [] other = some (or_any other)
configured_or (o ∷ []) other = if is_empty o then none else some (o ∷ [])
configured_or (o ∷ p ∷ list) other = some (o ∷ p ∷ list)

-- `none` if the operator has turned CORS off. `domain` is the variable DOMAIN.
unfoldable pub resolve_cors_allow_list :
    CorsConfig → Bytes → Option DomainLearner → Option (List Bytes)
resolve_cors_allow_list cfg domain learner =
    configured_or cfg.allowed_origins (from_env domain ++ from_learner learner)

abbrev pub under : Bytes → Bytes → Option (Bytes × Bytes) → Bool
under scheme base none = false
under scheme base (some (s, host)) =
    bytes_eq s scheme && (bytes_eq host base || has_suffix host (codes "." ++ base))

-- `url` is the scheme and the host name, with no port, that url.Parse finds.
module _ (url : Bytes → Option (Bytes × Bytes)) where
  abbrev pub wildcard_matches : Option (Bytes × Bytes) → Bytes → Bool
  wildcard_matches none origin = false
  wildcard_matches (some (scheme, base)) origin = under scheme base (url origin)

  unfoldable pub cors_origin_matches : Bytes → Bytes → Bool
  cors_origin_matches allowed origin =
      if bytes_eq allowed origin
      then true
      else wildcard_matches (cut_text (codes "://*.") allowed) origin

  unfoldable pub any_match : Bytes → List Bytes → Bool
  any_match origin [] = false
  any_match origin (allowed ∷ list) = cors_origin_matches allowed origin || any_match origin list

unfoldable pub has_wildcard : List Bytes → Bool
has_wildcard [] = false
has_wildcard (allowed ∷ list) = bytes_eq allowed (codes "*") || has_wildcard list

abbrev pub plain : Bytes → CorsReply
plain origin = record { allow_origin = origin; with_credentials = false }

-- The answer: the code ends with a fault if it reads the first element of an empty list.
pub data Answer : Type 0 where
  disabled fault : Answer
  answered : CorsReply → Answer

abbrev pub stable : Option Bytes → Answer
stable none = fault
stable (some origin) = answered (plain origin)

module _ (url : Bytes → Option (Bytes × Bytes)) where
  abbrev pub listed : CorsConfig → Bytes → Option (List Bytes) → Answer
  listed cfg origin none = disabled
  listed cfg origin (some list) =
      if has_wildcard list
      then answered (plain (codes "*"))
      else if is_empty origin
      then stable (get_elem? list 0)
      else if any_match url origin list
      then answered (record { allow_origin = origin; with_credentials = cfg.allow_credentials })
      else answered (plain (codes "*"))

module _ (net : Net) (url : Bytes → Option (Bytes × Bytes)) where
  unfoldable pub resolve_cors_origin :
      Settings → CorsConfig → Bytes → Option DomainLearner → Request → Answer
  resolve_cors_origin settings cfg domain learner r =
      let onion = tor_request_onion net settings r in
      if not (is_empty onion)
      then answered (plain (codes "http://" ++ onion))
      else listed url cfg (r.header (codes "Origin")) (resolve_cors_allow_list cfg domain learner)

-- The headers Access-Control-Allow-Origin and Access-Control-Allow-Credentials of a reply.
abbrev pub headers_of : Answer → Option (Bytes × Bool)
headers_of disabled = none
headers_of fault = none
headers_of (answered reply) =
    some
      (reply.allow_origin, reply.with_credentials && not (bytes_eq reply.allow_origin (codes "*")))
