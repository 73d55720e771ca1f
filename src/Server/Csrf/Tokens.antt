-- ===== src/Server/Csrf/Tokens.antt =====
-- Which tokens are valid, and which requests csrfMiddleware lets through.
use mathlib.Core.Path.{subst}
use pastebin.Base.{
  ◌≡◌, refl, sym, Bool, true, false, Option, none, some, [], ◌∷◌, ◌++◌, Bytes, codes, bytes_eq_iff,
  bytes_eq_refl, arith, if◌then◌else◌, length,
}
use pastebin.Base.Text.{cut}
use pastebin.Server.Request.{is_empty, Request}
use pastebin.Server.Signing.{Library, IsBase64, cut_first}
use pastebin.Server.Csrf.{
  CsrfConfig, Verdict, untouched, served, forbidden, Reason, carried, is_mutating,
  is_websocket_upgrade, is_csrf_exempt, is_same_origin, generate_csrf_token, validate_csrf_token,
  bypassed, submitted, refusal, csrf_middleware, answered, checked, judged, reused,
}

generate_at :
    (lib : Library) (secret nonce token : Bytes)
    → generate_csrf_token lib secret (some nonce) ≡ some token
    → token ≡ lib.encode nonce ++ b'.' ∷ lib.encode (lib.mac secret nonce)
unfolding generate_csrf_token
generate_at lib secret nonce token h = cc

-- A token of 32 random bytes is valid.
pub validate-generate :
    (lib : Library) (secret nonce token : Bytes)
    → IsBase64 lib
    → length nonce ≡ 32
    → generate_csrf_token lib secret (some nonce) ≡ some token
    → validate_csrf_token lib secret token ≡ true
unfolding validate_csrf_token
validate-generate lib secret nonce token b n h =
    let mac = lib.mac secret nonce in
    rw
      (
        generate_at lib secret nonce token h,
        cut_first b'.' (lib.encode nonce) (lib.encode mac) (b.dotless nonce),
        b.decode-encode nonce,
        b.decode-encode mac,
      )
      (ground (arith, n, bytes_eq_refl mac))

-- The request that a foreign page can make a browser send: it changes state, it names no key of its own,
-- nothing exempts it, and it carries the cookie `c`.
pub record IsCrossSite (lib : Library) (cfg : CsrfConfig) (r : Request) (c : Bytes) : Type 0 where
  pub mutates : is_mutating r.method ≡ true
  pub no_authorization : r.header (codes "Authorization") ≡ []
  pub no_token : r.header (codes "X-API-Token") ≡ []
  pub no_upgrade : is_websocket_upgrade r ≡ false
  pub not_exempt : is_csrf_exempt r.path cfg.exempt_paths ≡ false
  pub foreign : is_same_origin lib r ≡ false
  pub with_cookie : carried (r.cookie cfg.cookie_name) ≡ some c

IsCrossSite-bypassed :
    (lib : Library) (cfg : CsrfConfig) (r : Request) (c : Bytes)
    → IsCrossSite lib cfg r c
    → bypassed lib cfg r ≡ false
unfolding bypassed
IsCrossSite-bypassed lib cfg r c h =
    rw
      (
        h.mutates, h.no_authorization, h.no_token, h.no_upgrade, h.not_exempt, h.foreign,
        h.with_cookie,
      )
      refl

refused-none :
    (lib : Library) (secret sent c : Bytes)
    → refusal lib secret sent c ≡ none
    → (sent ≡ c) × (validate_csrf_token lib secret sent ≡ true)
unfolding refusal
refused-none lib secret sent c h = ground (arith, bytes_eq_iff sent c)

-- What may become of a request that carries the cookie `c`.
abbrev pub Handled :
    Library → Bytes → CsrfConfig → Request → Bytes → Option Bytes → Verdict → Type 0
Handled lib secret cfg r c random (forbidden reason) = Unit
Handled lib secret cfg r c random (served token cookie) =
    (submitted cfg r ≡ c) × (validate_csrf_token lib secret c ≡ true) × (token ≡ c)
Handled lib secret cfg r c random untouched =
    (validate_csrf_token lib secret c ≡ false) × (random ≡ none)

Handled-refusal :
    (lib : Library) (secret : Bytes) (cfg : CsrfConfig) (r : Request) (c : Bytes)
    (random : Option Bytes)
    → validate_csrf_token lib secret c ≡ true
    → (o : Option Reason) → refusal lib secret (submitted cfg r) c ≡ o
    → Handled lib secret cfg r c random (answered cfg r c o)
Handled-refusal lib secret cfg r c random v (some x) h = tt
Handled-refusal lib secret cfg r c random v none h =
    let (same, valid) = refused-none lib secret (submitted cfg r) c h in (same, v, refl)

forged_refusal :
    (lib : Library) (secret : Bytes) (cfg : CsrfConfig) (r : Request) (c t : Bytes)
    (random : Option Bytes)
    → validate_csrf_token lib secret c ≡ false
    → (o : Option Reason) → refusal lib secret (submitted cfg r) c ≡ o
    → Handled lib secret cfg r c random (answered cfg r t o)
forged_refusal lib secret cfg r c t random v (some x) h = tt
forged_refusal lib secret cfg r c t random v none h =
    let (same, valid) = refused-none lib secret (submitted cfg r) c h in
    let e : validate_csrf_token lib secret c ≡ true = rw (sym same) valid in cc

forged_fresh :
    (lib : Library) (secret : Bytes) (cfg : CsrfConfig) (r : Request) (c : Bytes)
    (random : Option Bytes)
    → IsCrossSite lib cfg r c
    → validate_csrf_token lib secret c ≡ false
    → (fresh : Option Bytes) → generate_csrf_token lib secret random ≡ fresh
    → Handled lib secret cfg r c random (checked lib secret cfg r fresh)
unfolding generate_csrf_token
forged_fresh lib secret cfg r c none h v none g = (v, refl)
forged_fresh lib secret cfg r c (some n) h v none g = cc
forged_fresh lib secret cfg r c random h v (some t) g =
    rw (h.with_cookie, IsCrossSite-bypassed lib cfg r c h)
      (forged_refusal lib secret cfg r c t random v (refusal lib secret (submitted cfg r) c) refl)

middleware_on :
    (lib : Library) (secret : Bytes) (cfg : CsrfConfig) (r : Request) (random : Option Bytes)
    → cfg.enabled ≡ true
    → is_empty secret ≡ false
    → csrf_middleware lib secret cfg r random
      ≡ checked lib secret cfg r (
          reused lib secret
            (carried (r.cookie cfg.cookie_name))
            (generate_csrf_token lib secret random))
unfolding csrf_middleware
middleware_on lib secret cfg r random on keyed = simp (on, keyed) refl

checked-cookie :
    (lib : Library) (secret : Bytes) (cfg : CsrfConfig) (r : Request) (c : Bytes)
    (random : Option Bytes)
    → IsCrossSite lib cfg r c
    → (v : Bool) → validate_csrf_token lib secret c ≡ v
    → Handled lib secret cfg r c random
        (checked lib secret cfg r (if v then some c else generate_csrf_token lib secret random))
checked-cookie lib secret cfg r c random h true v =
    rw (h.with_cookie, IsCrossSite-bypassed lib cfg r c h)
      (Handled-refusal lib secret cfg r c random v (refusal lib secret (submitted cfg r) c) refl)
checked-cookie lib secret cfg r c random h false v =
    forged_fresh lib secret cfg r c random h v (generate_csrf_token lib secret random) refl

-- With the protection on, a request that a foreign page made a browser send reaches the handler with a
-- token only if it repeats the token of its cookie, and that is a token which the server signed; it is then
-- served with the same token. It reaches it without one only if its cookie is not valid and the system has
-- no random bytes. Otherwise it is refused.
pub csrf_middleware_cross_site :
    (lib : Library) (secret : Bytes) (cfg : CsrfConfig) (r : Request) (c : Bytes)
    (random : Option Bytes)
    → cfg.enabled ≡ true
    → is_empty secret ≡ false
    → IsCrossSite lib cfg r c
    → Handled lib secret cfg r c random (csrf_middleware lib secret cfg r random)
csrf_middleware_cross_site lib secret cfg r c random on keyed h =
    rw (middleware_on lib secret cfg r random on keyed, h.with_cookie)
      (checked-cookie lib secret cfg r c random h (validate_csrf_token lib secret c) refl)

-- The cookie of a reply, kept by the browser.
abbrev pub cookie_of : Verdict → Option Bytes
cookie_of (served token cookie) = some cookie.value
cookie_of _ = none

abbrev pub Serves : Bytes → Verdict → Type 0
Serves t (served token cookie) = (token ≡ t) × (cookie.value ≡ t)
Serves t _ = ⊥

fresh_value :
    (lib : Library) (secret : Bytes) (cfg : CsrfConfig) (r : Request) (t : Bytes)
    (fresh : Option Bytes)
    → carried (r.cookie cfg.cookie_name) ≡ none
    → cookie_of (checked lib secret cfg r fresh) ≡ some t
    → fresh ≡ some t
fresh_value lib secret cfg r t none h e = absurd (cc)
fresh_value lib secret cfg r t (some x) h e =
    subst (λ o. cookie_of (answered cfg r x (judged lib secret cfg r o)) ≡ some t) h e

carried_valid :
    (lib : Library) (secret t : Bytes)
    → validate_csrf_token lib secret t ≡ true
    → carried (some t) ≡ some t
unfolding validate_csrf_token cut
carried_valid lib secret [] v = cc
carried_valid lib secret (c ∷ t) v = refl

refusal_valid :
    (lib : Library) (secret t : Bytes)
    → validate_csrf_token lib secret t ≡ true
    → refusal lib secret t t ≡ none
unfolding refusal
refusal_valid lib secret [] v = absurd (cc (carried_valid lib secret [] v))
refusal_valid lib secret (c ∷ t) v = rw (v, bytes_eq_refl (c ∷ t)) refl

if_same : (b : Bool) (o : Option Reason) → (if b then o else o) ≡ o
if_same true o = refl
if_same false o = refl

judged_valid :
    (lib : Library) (secret : Bytes) (cfg : CsrfConfig) (r : Request) (t : Bytes)
    → validate_csrf_token lib secret t ≡ true
    → submitted cfg r ≡ t
    → judged lib secret cfg r (some t) ≡ none
judged_valid lib secret cfg r t v sent =
    rw (sent, refusal_valid lib secret t v) (if_same (bypassed lib cfg r) none)

-- A browser that comes with no cookie is given a token, and a request that sends it back in the cookie and in
-- the form is served with the same token, whatever its method, path, origin and other headers, as long as no
-- header of the configured name holds something else.
pub own_form_served :
    (lib : Library) (secret : Bytes) (cfg : CsrfConfig) (first r : Request) (nonce t : Bytes)
    (random : Option Bytes)
    → IsBase64 lib
    → length nonce ≡ 32
    → cfg.enabled ≡ true
    → is_empty secret ≡ false
    → carried (first.cookie cfg.cookie_name) ≡ none
    → cookie_of (csrf_middleware lib secret cfg first (some nonce)) ≡ some t
    → r.cookie cfg.cookie_name ≡ some t
    → submitted cfg r ≡ t
    → Serves t (csrf_middleware lib secret cfg r random)
own_form_served lib secret cfg first r nonce t random b n on keyed no_cookie given kept sent =
    let issued =
      fresh_value lib secret cfg first t (generate_csrf_token lib secret (some nonce)) no_cookie (
        subst
          (λ o.
            cookie_of (
              checked lib secret cfg first
                (reused lib secret o (generate_csrf_token lib secret (some nonce))))
            ≡ some t)
          no_cookie
          (subst (λ m. cookie_of m ≡ some t)
            (middleware_on lib secret cfg first (some nonce) on keyed) given)) in
    let valid = validate-generate lib secret nonce t b n issued in
    let e : carried (r.cookie cfg.cookie_name) ≡ some t =
      rw kept (carried_valid lib secret t valid) in
    let judgement : judged lib secret cfg r (carried (r.cookie cfg.cookie_name)) ≡ none =
      rw e (judged_valid lib secret cfg r t valid sent) in
    rw (middleware_on lib secret cfg r random on keyed, e, valid)
      (subst (λ o. Serves t (answered cfg r t o)) (sym judgement) (refl, refl))
