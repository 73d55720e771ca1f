-- ===== src/Server/BaseUrl/Prefixes.antt =====
-- What a base URL and an asset prefix look like.
use pastebin.Base.{
  ℕ, ◌<◌, ◌≡◌, ◌≢◌, ◌⊎◌, inl, inr, refl, ap, Bool, true, false, Option, none, some, [], ◌∷◌, ◌++◌,
  Bytes, codes, arith, if◌then◌else◌, Bool-cases, All,
}
use pastebin.Base.Text.{has_prefix}
use pastebin.Server.Request.{Request, is_empty}
use pastebin.Server.Address.{Net}
use pastebin.Server.Proxies.{Settings, is_trusted_peer, first_of}
use pastebin.Server.BaseUrl.{
  http, https, any_banned, valid_path_prefix, url_prefix, safe_or, safe, configured_prefix,
  asset_prefix, host_port, host_and_port, forwarded_port, base_url, trim_slashes,
}

-- No colon, backslash, white space or control byte.
abbrev pub Plain : ℕ → Type 0
Plain c = (c ≢ b':') × (c ≢ b'\\') × (32 < c) × (c ≢ 127)

abbrev pub Forks : Bytes → Type 0
Forks [] = ⊥
Forks (c ∷ s) = (c ≡ b'/') ⊎ (c ≡ b'\\')

-- Nothing, or a path from the root that no browser reads as another host or scheme.
abbrev pub SafePath : Bytes → Type 0
SafePath p = (p ≡ []) ⊎ ((s : Bytes) × (p ≡ b'/' ∷ s) × (¬ Forks s) × All Plain p)

any_banned-All : (s : Bytes) → any_banned s ≡ false → All Plain s
unfolding any_banned
any_banned-All [] h = tt
any_banned-All (c ∷ s) h = (ground arith, any_banned-All s (ground arith))

rooted :
    (c : ℕ) (s : Bytes)
    → valid_path_prefix (c ∷ s) ≡ true
    → (c ≡ b'/') × (¬ Forks s) × (any_banned (c ∷ s) ≡ false)
unfolding valid_path_prefix has_prefix
rooted c [] h = (ground arith, λ f. f, ground arith)
rooted c (d ∷ s) h = (ground arith, ground arith, ground arith)

valid-SafePath : (p : Bytes) → valid_path_prefix p ≡ true → SafePath p
valid-SafePath [] h = inl refl
valid-SafePath (c ∷ s) h =
    let (root, no_fork, plain) = rooted c s h in
    inr (s, ap (λ d. d ∷ s) root, no_fork, any_banned-All (c ∷ s) plain)

safe-SafePath : (p : Bytes) → SafePath (safe p)
safe-SafePath p = elim (Bool-cases (valid_path_prefix p)) [
  | inl v ↦ rw v (valid-SafePath p v)
  | inr v ↦ rw v (inl refl)
]

safe_or-SafePath : (p other : Bytes) → SafePath other → SafePath (safe_or p other)
safe_or-SafePath [] other h = h
safe_or-SafePath (c ∷ p) other h = elim (Bool-cases (valid_path_prefix (c ∷ p))) [
  | inl v ↦ rw v (valid-SafePath (c ∷ p) v)
  | inr v ↦ rw v h
]

url_prefix-SafePath : (path : Option Bytes) → SafePath (url_prefix path)
url_prefix-SafePath none = inl refl
url_prefix-SafePath (some path) = safe-SafePath (trim_slashes path)

choice_SafePath : (b : Bool) (p q : Bytes) → SafePath p → SafePath q → SafePath (if b then p else q)
choice_SafePath true p q hp hq = hp
choice_SafePath false p q hp hq = hq

configured-SafePath : (net : Net) (cfg : Settings) → SafePath (configured_prefix net cfg)
configured-SafePath net cfg =
    choice_SafePath (is_empty cfg.base_url) [] (url_prefix (net.url_path cfg.base_url)) (inl refl)
      (url_prefix-SafePath (net.url_path cfg.base_url))

-- Whatever the headers and the settings say, the asset prefix is empty, or a path from the root that does not
-- go on with a slash or a backslash and holds no colon, backslash, white space or control byte.
pub asset_prefix-SafePath :
    (net : Net) (cfg : Settings) (r : Request) → SafePath (asset_prefix net cfg r)
unfolding asset_prefix
asset_prefix-SafePath net cfg r =
    let rest = configured-SafePath net cfg in
    let named = first_of (
      trim_slashes (r.header (codes "X-Forwarded-Prefix"))
      ∷ trim_slashes (r.header (codes "X-Forwarded-Path"))
      ∷ trim_slashes (r.header (codes "X-Script-Name"))
      ∷ []) in
    choice_SafePath (is_trusted_peer net cfg r) (safe_or named (configured_prefix net cfg))
      (configured_prefix net cfg) (safe_or-SafePath named (configured_prefix net cfg) rest) rest

abbrev pub IsScheme : Bytes → Type 0
IsScheme s = (s ≡ http) ⊎ (s ≡ https)

-- The parts of a URL: its scheme, the given host, with no port or the given one, and the path.
abbrev pub IsShaped : Net → Bytes → Bytes → Bytes → Type 0
IsShaped net host own url =
    (scheme : Bytes) × (port : Bytes) × (prefix : Bytes) × (url
      ≡ scheme ++ (codes "://" ++ (host_port net host port ++ prefix)))
    × (((scheme ≡ http) × (port ≢ codes "80")) ⊎ ((scheme ≡ https) × (port ≢ codes "443")))
    × ((port ≡ []) ⊎ (port ≡ own))
    × SafePath prefix

-- The host and the port that a request is for: those of its Host, of the settings, or of a trusted proxy.
abbrev pub own_host : Net → Settings → Request → Bytes
own_host net cfg r = (host_and_port net cfg r (is_trusted_peer net cfg r)).0

abbrev pub own_port : Net → Settings → Request → Bytes
own_port net cfg r =
    let trusted = is_trusted_peer net cfg r in
    forwarded_port r trusted (host_and_port net cfg r trusted).1
