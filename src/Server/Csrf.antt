-- ===== src/Server/Csrf.antt =====
-- src/server/server.go: generateCSRFToken, validateCSRFToken, isSameOrigin, isCSRFExempt and csrfMiddleware.
pub mod Tokens
use pastebin.Base.{
  ℕ, ◌+◌, Bool, true, false, not, ◌&&◌, ◌||◌, Option, none, some, List, [], ◌∷◌, ◌++◌, Bytes, codes,
  bytes_eq, if◌then◌else◌, ◌==◌, length, is_some,
}
use pastebin.Server.Signing.{Library}
use pastebin.Server.Request.{Request, equal_fold, is_empty, first_text}
use pastebin.Base.Text.{has_prefix, has_suffix, trim_suffix, to_lower, cut}

-- The settings web.csrf.
pub record CsrfConfig : Type 0 where
  pub enabled : Bool
  pub cookie_name : Bytes
  pub header_name : Bytes
  pub exempt_paths : List Bytes
  pub secure : Bytes

pub data Reason : Type 0 where
  token_absent signature_invalid token_mismatch : Reason

pub record Cookie : Type 0 where
  pub name : Bytes
  pub value : Bytes
  pub is_secure : Bool

-- What the middleware does: it calls the next handler, as the request came or with a token and its cookie, or
-- it answers 403.
pub data Verdict : Type 0 where
  untouched : Verdict
  served : Bytes → Cookie → Verdict
  forbidden : Reason → Verdict

-- A cookie that is there and has a value.
abbrev pub carried : Option Bytes → Option Bytes
carried none = none
carried (some []) = none
carried (some (c ∷ s)) = some (c ∷ s)

unfoldable pub is_mutating : Bytes → Bool
unfolding bytes_eq
is_mutating m =
    bytes_eq m (codes "POST")
    || (bytes_eq m (codes "PUT") || (bytes_eq m (codes "PATCH") || bytes_eq m (codes "DELETE")))

unfoldable pub is_websocket_upgrade : Request → Bool
unfolding equal_fold
is_websocket_upgrade r = equal_fold (r.header (codes "Upgrade")) (codes "websocket")

-- One pattern of the exempt paths.
unfoldable pub pattern_matches : Bytes → Bytes → Bool
unfolding has_prefix has_suffix trim_suffix bytes_eq
pattern_matches path p =
    let stem = trim_suffix p (codes "/*") in
    if has_suffix p (codes "/*")
    then has_prefix path (stem ++ codes "/") || bytes_eq path stem
    else bytes_eq p path

unfoldable pub is_csrf_exempt : Bytes → List Bytes → Bool
unfolding pattern_matches
is_csrf_exempt path [] = false
is_csrf_exempt path (p ∷ patterns) = pattern_matches path p || is_csrf_exempt path patterns

abbrev pub has_bearer : Request → Bool
has_bearer r =
    not (is_empty (r.header (codes "Authorization")))
    || not (is_empty (r.header (codes "X-API-Token")))

abbrev pub is_secure : CsrfConfig → Request → Bool
is_secure cfg r =
    if bytes_eq cfg.secure (codes "true")
    then true
    else if bytes_eq cfg.secure (codes "false")
    then false
    else r.tls

abbrev pub submitted : CsrfConfig → Request → Bytes
submitted cfg r = first_text (r.header cfg.header_name) r.form

abbrev pub answered : CsrfConfig → Request → Bytes → Option Reason → Verdict
answered cfg r token (some reason) = forbidden reason
answered cfg r token none =
    served token (record { name = cfg.cookie_name; value = token; is_secure = is_secure cfg r })

module _ (lib : Library) where
  abbrev pub same_host : Option Bytes → Bytes → Bool
  same_host none host = false
  same_host (some h) host = not (is_empty h) && equal_fold h host

  unfoldable pub is_same_origin : Request → Bool
  unfolding equal_fold
  is_same_origin r =
      let src = first_text (r.header (codes "Origin")) (r.header (codes "Referer")) in
      if is_empty src then false else same_host (lib.url_host src) r.host

  unfoldable pub bypassed : CsrfConfig → Request → Bool
  unfolding is_mutating is_websocket_upgrade is_csrf_exempt is_same_origin
  bypassed cfg r =
      not (is_mutating r.method)
      || (has_bearer r
          || (is_websocket_upgrade r
              || (is_csrf_exempt r.path cfg.exempt_paths
                  || (is_same_origin r || not (is_some (carried (r.cookie cfg.cookie_name)))))))

module _ (lib : Library) (secret : Bytes) where
  -- The random bytes are `none` if the system has none.
  unfoldable pub generate_csrf_token : Option Bytes → Option Bytes
  generate_csrf_token none = none
  generate_csrf_token (some nonce) =
      some (lib.encode nonce ++ b'.' ∷ lib.encode (lib.mac secret nonce))

  abbrev pub is_signed : Option Bytes → Option Bytes → Bool
  is_signed (some nonce) (some sig) = (length nonce == 32) && bytes_eq sig (lib.mac secret nonce)
  is_signed none _ = false
  is_signed (some nonce) none = false

  abbrev pub parts_signed : Option (Bytes × Bytes) → Bool
  parts_signed none = false
  parts_signed (some (a, b)) = is_signed (lib.decode a) (lib.decode b)

  unfoldable pub validate_csrf_token : Bytes → Bool
  unfolding cut bytes_eq
  validate_csrf_token token = parts_signed (cut b'.' token)

  -- The token of a valid cookie, or a new one.
  abbrev pub reused : Option Bytes → Option Bytes → Option Bytes
  reused none fresh = fresh
  reused (some c) fresh = if validate_csrf_token c then some c else fresh

  -- The reason to refuse a request that is not bypassed, whose cookie is given.
  unfoldable pub refusal : Bytes → Bytes → Option Reason
  unfolding validate_csrf_token bytes_eq
  refusal sent cookie =
      if is_empty sent
      then some token_absent
      else if not (validate_csrf_token sent)
      then some signature_invalid
      else if not (bytes_eq sent cookie)
      then some token_mismatch
      else none

  abbrev pub judged : CsrfConfig → Request → Option Bytes → Option Reason
  judged cfg r none = none
  judged cfg r (some c) = if bypassed lib cfg r then none else refusal (submitted cfg r) c

  abbrev pub checked : CsrfConfig → Request → Option Bytes → Verdict
  checked cfg r none = untouched
  checked cfg r (some token) =
      answered cfg r token (judged cfg r (carried (r.cookie cfg.cookie_name)))

  -- `random` is what the system gives for the 32 bytes of a new token.
  unfoldable pub csrf_middleware : CsrfConfig → Request → Option Bytes → Verdict
  unfolding generate_csrf_token validate_csrf_token bypassed refusal
  csrf_middleware cfg r random =
      if not cfg.enabled || is_empty secret
      then untouched
      else checked cfg r (reused (carried (r.cookie cfg.cookie_name)) (generate_csrf_token random))
