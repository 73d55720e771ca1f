-- ===== src/Tests/Web.antt =====
-- Tests of what the server does with a request, its statistics and its captcha.
use pastebin.Base.{
  if◌then◌else◌, ◌≤◌, ℕ, ◌+◌, ◌-◌, ◌≡◌, refl, ap, ◌⊎◌, true, false, Option, none, some, List, [],
  ◌∷◌, ◌++◌, map, Bytes, codes, bytes_eq, arith,
}
use pastebin.Base.Int.{pos}
use pastebin.Base.Text.{
  contains_byte, has_prefix, to_lower, trim_space, trim_front_all, trim_front, prefix_length,
}
use pastebin.Base.Decimal.{decimal, digits_before}
use pastebin.Server.Request.{Request, equal_fold, is_empty}
use pastebin.Server.Signing.{Library, IsBase64}
use pastebin.Server.Csrf.{
  CsrfConfig, served, csrf_middleware, generate_csrf_token, is_mutating, is_websocket_upgrade,
  is_csrf_exempt, is_same_origin,
}
use pastebin.Server.Csrf.Tokens.{
  IsCrossSite, Handled, Serves, csrf_middleware_cross_site, own_form_served,
}
use pastebin.Server.Address.{
  Net, v4, in_private_nets, is_loopback, is_private, is_link_local, ip_eq,
}
use pastebin.Server.Proxies.{
  tor_request_onion, Settings, is_trusted_peer, peer_addr, real_ip, any_entry, any_equal,
}
use pastebin.Server.BaseUrl.{base_url, asset_prefix}
use pastebin.Server.BaseUrl.Trust.{headers_ignored}
use pastebin.Server.Cors.{answered, plain, CorsConfig, resolve_cors_allow_list, resolve_cors_origin}
use pastebin.Server.Cors.Credentials.{Granted, resolve_cors_origin-Granted}
use pastebin.Server.Learner.{UrlDetectionConfig, observe_all}
use pastebin.Server.Learner.Samples.{Promoted, observe_all-Promoted}
use pastebin.Server.Stats.{last_24h}
use pastebin.Server.Stats.Ring.{requests, within, hour_of, recent, last_24h-recent}
use pastebin.Server.Captcha.{
  SimpleCaptcha, generate_simple_captcha, sign_captcha_payload, validate_simple_captcha,
}
use pastebin.Server.Captcha.Leak.{leaked, validate-leaked}

abbrev library : Library
library = record {
  mac = λ key s. key ++ s;
  encode = map (λ c. c + 47);
  decode = λ s. some (map (λ c. c - 47) s);
  url_host = λ s. some (codes "evil.example");
}

shifted : (s : Bytes) → map (λ c. c - 47) (map (λ c. c + 47) s) ≡ s
shifted [] = refl
shifted (c ∷ s) = let e : c + 47 - 47 ≡ c = omega arith in rw (e, shifted s) refl

no_dot : (s : Bytes) → contains_byte (map (λ c. c + 47) s) b'.' ≡ false
unfolding contains_byte
no_dot [] = refl
no_dot (c ∷ s) = ground (arith, no_dot s)

library-IsBase64 : IsBase64 library
library-IsBase64 = record { decode-encode = λ s. ap some (shifted s); dotless = no_dot }

abbrev protection : CsrfConfig
protection = record {
  enabled = true;
  cookie_name = codes "csrf";
  header_name = codes "X-CSRF-Token";
  exempt_paths = [];
  secure = codes "auto";
}

abbrev visit : Request
visit = record {
  method = codes "GET";
  path = codes "/";
  host = codes "paste.example";
  tls = true;
  header = λ name. [];
  cookie = λ name. none;
  form = [];
  remote_addr = codes "8.8.8.8";
  peer = none;
}

abbrev nonce : Bytes
nonce = codes "0123456789abcdef0123456789abcdef"

abbrev token : Bytes
token = map (λ c. c + 47) nonce ++ b'.' ∷ map (λ c. c + 47) (codes "key" ++ nonce)

-- A form that a page sends, and the same from a page of another site that does not know the token.
abbrev sent : Request
sent = record visit { method = codes "POST"; cookie = λ name. some token; form = token }

abbrev forged : Request
forged = record visit {
  method = codes "POST";
  header = λ name. codes "";
  cookie = λ name. some token;
  form = codes "guess";
}

forged-IsCrossSite : IsCrossSite library protection forged token
unfolding is_mutating is_websocket_upgrade is_csrf_exempt is_same_origin equal_fold bytes_eq
    to_lower
forged-IsCrossSite = record {
  mutates = refl;
  no_authorization = refl;
  no_token = refl;
  no_upgrade = refl;
  not_exempt = refl;
  foreign = refl;
  with_cookie = refl;
}

csrf_middleware_cross_site_example :
    Handled library
      (codes "key")
      protection
      forged
      token
      none
      (csrf_middleware library (codes "key") protection forged none)
csrf_middleware_cross_site_example =
    csrf_middleware_cross_site library (codes "key") protection forged token none refl refl
      forged-IsCrossSite

first_visit :
    csrf_middleware library (codes "key") protection visit (some nonce)
    ≡ served token (record { name = codes "csrf"; value = token; is_secure = true })
unfolding csrf_middleware generate_csrf_token bytes_eq
first_visit = refl

own_form_served_example :
    Serves token (csrf_middleware library (codes "key") protection sent (some (codes "other")))
unfolding csrf_middleware generate_csrf_token bytes_eq
own_form_served_example =
    own_form_served library (codes "key") protection visit sent nonce token (some (codes "other"))
      library-IsBase64 refl refl refl refl refl refl refl

abbrev network : Net
network = record {
  split_host_port = λ addr. none;
  join_host_port = λ host port. host ++ b':' ∷ port;
  parse_ip = λ addr. elim addr [ [] ↦ none | c ∷ s ↦ some (v4 8 8 8 8) ];
  parse_cidr = λ entry. none;
  url_path = λ url. none;
}

abbrev settings : Settings
settings = record {
  onion_address = [];
  b32_address = [];
  base_url = [];
  address = [];
  fqdn = [];
  additional = [];
  resolved = v4 9 9 9 9 ∷ [];
}

abbrev spoofing : Bytes → Bytes
spoofing name = codes "/evil"

headers_ignored_example :
    ((real_ip network settings (record visit { header = spoofing })).remote_addr ≡ codes "8.8.8.8")
    × (base_url network settings (real_ip network settings (record visit { header = spoofing }))
        ≡ base_url network settings (real_ip network settings visit))
    × (asset_prefix network settings (real_ip network settings (record visit { header = spoofing }))
        ≡ asset_prefix network settings (real_ip network settings visit))
unfolding is_trusted_peer peer_addr in_private_nets is_loopback is_private is_link_local any_entry
    any_equal ip_eq trim_space trim_front_all trim_front prefix_length has_prefix
headers_ignored_example = headers_ignored network settings visit spoofing refl

abbrev trusted_net : Net
trusted_net = record network { parse_ip = λ addr. some (v4 10 0 0 1) }

-- A proxy names its host, and a prefix that a browser would read as another host.
abbrev proxied : Request
proxied = record visit {
  header = λ name.
      if bytes_eq name (codes "X-Forwarded-Host")
      then codes "paste.example"
      else if bytes_eq name (codes "X-Forwarded-Prefix")
      then codes "//evil"
      else [];
}

abbrev sharing : CorsConfig
sharing = record {
  allowed_origins = codes "https://*.paste.example" ∷ [];
  allow_credentials = true;
}

abbrev parsed : Bytes → Option (Bytes × Bytes)
parsed origin = some (codes "https", codes "www.paste.example")

abbrev from_page : Request
from_page = record visit { header = λ name. codes "https://www.paste.example" }

resolve_cors_origin-Granted_example :
    ((is_empty (tor_request_onion network settings from_page) ≡ false)
      × (resolve_cors_origin network parsed settings sharing [] none from_page
          ≡ answered (plain (codes "http://" ++ tor_request_onion network settings from_page))))
    ⊎ ((is_empty (tor_request_onion network settings from_page) ≡ true)
        × Granted parsed sharing
            (codes "https://www.paste.example")
            (resolve_cors_allow_list sharing [] none)
            (resolve_cors_origin network parsed settings sharing [] none from_page))
resolve_cors_origin-Granted_example =
    resolve_cors_origin-Granted network parsed settings sharing [] none from_page

abbrev learning : UrlDetectionConfig
learning = record { learning = true; sample_window = pos 100; min_samples = pos 2 }

abbrev seen_hosts : List (ℕ × Bytes)
seen_hosts = (150, codes "a.b.example") ∷ (120, codes "a.b.example") ∷ (10, codes "c.example") ∷ []

abbrev suffixes : Bytes → Option Bytes
suffixes host = some (codes "b.example")

observe_all-Promoted_example :
    (((observe_all suffixes (some learning) seen_hosts).base_domain ≡ [])
      × ((observe_all suffixes (some learning) seen_hosts).wildcard_domain ≡ []))
    ⊎ (Promoted suffixes learning
          (observe_all suffixes (some learning) seen_hosts).base_domain
          seen_hosts
        × ((observe_all suffixes (some learning) seen_hosts).wildcard_domain
            ≡ codes "*." ++ (observe_all suffixes (some learning) seen_hosts).base_domain))
observe_all-Promoted_example = observe_all-Promoted suffixes learning seen_hosts

-- In seconds: two requests of one hour and one of the day before.
last_24h-recent_example :
    (last_24h (requests (map hour_of (90_000 ∷ 89_000 ∷ 10_000 ∷ [])))
      ≡ within (hour_of 90_000) (map hour_of (90_000 ∷ 89_000 ∷ 10_000 ∷ [])))
    × (recent 82_800 90_000 (90_000 ∷ 89_000 ∷ 10_000 ∷ [])
        ≤ last_24h (requests (map hour_of (90_000 ∷ 89_000 ∷ 10_000 ∷ []))))
    × (last_24h (requests (map hour_of (90_000 ∷ 89_000 ∷ 10_000 ∷ [])))
        ≤ recent 86_400 90_000 (90_000 ∷ 89_000 ∷ 10_000 ∷ []))
last_24h-recent_example =
    last_24h-recent 90_000 (89_000 ∷ 10_000 ∷ [])
      (omega arith, omega arith, (omega arith, omega arith, tt))

within_two : within 30 (30 ∷ 29 ∷ 6 ∷ []) ≡ 2
unfolding within
within_two = refl

abbrev challenge : SimpleCaptcha
challenge = record {
  question = codes "What is 3 + 5?";
  token = map (λ c. c + 47) (codes "8:700") ++ b'.' ∷ map (λ c. c + 47) (codes "key8:700");
}

validate-leaked_example :
    (leaked library challenge.token ≡ decimal 8)
    × (validate_simple_captcha library
          (codes "key")
          650
          challenge.token
          (leaked library challenge.token)
        ≡ true)
unfolding generate_simple_captcha sign_captcha_payload decimal digits_before
validate-leaked_example =
    validate-leaked library (codes "key") 100 650 2 4 challenge library-IsBase64 (omega arith)
      (omega arith) refl
