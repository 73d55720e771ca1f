-- ===== src/Server/Cors/Credentials.antt =====
-- To whom a reply with credentials is open.
use mathlib.Core.List.{Memᴰ}
use pastebin.Base.{
  ◌≡◌, ◌≢◌, ◌⊎◌, inl, inr, refl, sym, true, false, Option, none, some, List, [], ◌∷◌, ◌++◌, Bytes,
  codes, bytes_eq, bytes_eq_iff, arith, Bool-cases,
}
use pastebin.Base.Text.{has_suffix, cut_text}
use pastebin.Base.Affix.{has_suffix-append, cut_text-append}
use pastebin.Server.Request.{Request, is_empty}
use pastebin.Server.Address.{Net}
use pastebin.Server.Proxies.{Settings, tor_request_onion}
use pastebin.Server.Learner.{DomainLearner}
use pastebin.Server.Cors.{
  CorsConfig, Answer, disabled, fault, answered, cors_origin_matches, any_match, has_wildcard,
  wildcard_matches, under, plain, resolve_cors_allow_list, configured_or, or_any, listed,
  resolve_cors_origin, from_env, from_learner,
}

-- An entry of the list names the origin: it is the origin itself, or it is `scheme://*.base` and the origin has
-- that scheme and a host which is the base or ends with a dot and the base.
abbrev pub Names : (Bytes → Option (Bytes × Bytes)) → Bytes → Bytes → Type 0
Names url origin allowed =
    (allowed ≡ origin)
    ⊎ ((scheme : Bytes) × (base : Bytes) × (host : Bytes) × (allowed
          ≡ scheme ++ (codes "://*." ++ base))
        × (url origin ≡ some (scheme, host))
        × ((host ≡ base) ⊎ ((sub : Bytes) × (host ≡ sub ++ (codes "." ++ base)))))

under-Names :
    (url : Bytes → Option (Bytes × Bytes)) (origin allowed scheme base : Bytes)
    (o : Option (Bytes × Bytes))
    → allowed ≡ scheme ++ (codes "://*." ++ base)
    → url origin ≡ o
    → under scheme base o ≡ true
    → Names url origin allowed
under-Names url origin allowed scheme base none e u h = absurd (cc)
under-Names url origin allowed scheme base (some (s, host)) e u h =
    let same : s ≡ scheme = ground (arith, bytes_eq_iff s scheme) in
    elim (Bool-cases (bytes_eq host base)) [
      | inl b ↦ inr (scheme, base, host, e, rw (sym same) u, inl ((bytes_eq_iff host base).0 b))
      | inr b ↦
          let tail : has_suffix host (codes "." ++ base) ≡ true = ground arith in
          inr (
            scheme,
            base,
            host,
            e,
            rw (sym same) u,
            inr (has_suffix-append host (codes "." ++ base) tail),
          )
    ]

wildcard-Names :
    (url : Bytes → Option (Bytes × Bytes)) (origin allowed : Bytes) (o : Option (Bytes × Bytes))
    → cut_text (codes "://*.") allowed ≡ o
    → wildcard_matches url o origin ≡ true
    → Names url origin allowed
wildcard-Names url origin allowed none e h = absurd (cc)
wildcard-Names url origin allowed (some (scheme, base)) e h =
    under-Names url origin allowed scheme base (url origin)
      (cut_text-append (codes "://*.") allowed scheme base e) refl h

matches-Names :
    (url : Bytes → Option (Bytes × Bytes)) (origin allowed : Bytes)
    → cors_origin_matches url allowed origin ≡ true
    → Names url origin allowed
unfolding cors_origin_matches
matches-Names url origin allowed h = elim (Bool-cases (bytes_eq allowed origin)) [
  | inl e ↦ inl ((bytes_eq_iff allowed origin).0 e)
  | inr e ↦ wildcard-Names url origin allowed (cut_text (codes "://*.") allowed) refl (rw e at h)
]

any_match-Names :
    (url : Bytes → Option (Bytes × Bytes)) (origin : Bytes) (list : List Bytes)
    → any_match url origin list ≡ true
    → (allowed : Bytes) × (Memᴰ allowed list) × Names url origin allowed
unfolding any_match
any_match-Names url origin [] h = absurd (cc)
any_match-Names url origin (o ∷ list) h = elim (Bool-cases (cors_origin_matches url o origin)) [
  | inl e ↦ (o, Memᴰ.head refl, matches-Names url origin o e)
  | inr e ↦
      let (allowed, m, n) = any_match-Names url origin list (ground arith) in
      (allowed, Memᴰ.tail m, n)
]

-- The answer to a page is not a fault, and one that allows credentials is for the origin that the request names.
abbrev pub Granted :
    (Bytes → Option (Bytes × Bytes)) → CorsConfig → Bytes → Option (List Bytes) → Answer → Type 0
Granted url cfg origin list fault = ⊥
Granted url cfg origin list disabled = Unit
Granted url cfg origin list (answered reply) =
    (reply.with_credentials ≡ false)
    ⊎ ((reply.allow_origin ≡ origin)
        × (cfg.allow_credentials ≡ true)
        × ((entries : List Bytes) × (list ≡ some entries)
            × (has_wildcard entries ≡ false)
            × ((allowed : Bytes) × Memᴰ allowed entries × Names url origin allowed)))

matched-Granted :
    (url : Bytes → Option (Bytes × Bytes)) (cfg : CorsConfig) (origin : Bytes) (list : List Bytes)
    → has_wildcard list ≡ false
    → any_match url origin list ≡ true
    → Granted url cfg origin
        (some list)
        (answered (record { allow_origin = origin; with_credentials = cfg.allow_credentials }))
matched-Granted url cfg origin list w m = elim (Bool-cases cfg.allow_credentials) [
  | inr c ↦ inl c
  | inl c ↦ inr (refl, c, (list, refl, w, any_match-Names url origin list m))
]

listed-Granted :
    (url : Bytes → Option (Bytes × Bytes)) (cfg : CorsConfig) (origin : Bytes)
    (list : Option (List Bytes))
    → list ≢ some []
    → Granted url cfg origin list (listed url cfg origin list)
listed-Granted url cfg origin none h = tt
listed-Granted url cfg origin (some []) h = absurd (h refl)
listed-Granted url cfg origin (some (o ∷ list)) h = elim (Bool-cases (has_wildcard (o ∷ list))) [
  | inl w ↦ rw w (inl refl)
  | inr w ↦ elim (Bool-cases (is_empty origin)) [
    | inl e ↦ rw (w, e) (inl refl)
    | inr e ↦ elim (Bool-cases (any_match url origin (o ∷ list))) [
      | inl m ↦ rw (w, e, m) (matched-Granted url cfg origin (o ∷ list) w m)
      | inr m ↦ rw (w, e, m) (inl refl)
    ]
  ]
]

or_any_filled : (list : List Bytes) → or_any list ≢ []
or_any_filled [] = λ e. cc
or_any_filled (o ∷ list) = λ e. cc

some_inj : (a b : List Bytes) → some a ≡ some b → a ≡ b
some_inj a b e = cc

configured_filled : (origins other : List Bytes) → configured_or origins other ≢ some []
configured_filled [] other = λ e. or_any_filled other (some_inj (or_any other) [] e)
configured_filled (o ∷ []) other = elim (Bool-cases (is_empty o)) [
  | inl e ↦ rw e (λ f. cc)
  | inr e ↦ rw e (λ f. cc)
]
configured_filled (o ∷ p ∷ list) other = λ e. cc

-- A request that came for the onion address is answered with that address and no credentials. For any other the
-- first element of the list is never read of an empty one; and the reply allows credentials only if the settings
-- do, for the origin that the request names, which an entry of a list without `*` names: as it is, or as
-- `scheme://*.base` with that scheme and a host that is the base or ends with a dot and the base.
pub resolve_cors_origin-Granted :
    (net : Net) (url : Bytes → Option (Bytes × Bytes)) (settings : Settings) (cfg : CorsConfig)
    (domain : Bytes) (learner : Option DomainLearner) (r : Request)
    → ((is_empty (tor_request_onion net settings r) ≡ false)
        × (resolve_cors_origin net url settings cfg domain learner r
            ≡ answered (plain (codes "http://" ++ tor_request_onion net settings r))))
      ⊎ ((is_empty (tor_request_onion net settings r) ≡ true)
          × Granted url cfg
              (r.header (codes "Origin"))
              (resolve_cors_allow_list cfg domain learner)
              (resolve_cors_origin net url settings cfg domain learner r))
unfolding resolve_cors_origin
resolve_cors_origin-Granted net url settings cfg domain learner r =
    elim (Bool-cases (is_empty (tor_request_onion net settings r))) [
      | inr e ↦ inl (e, simp e refl)
      | inl e ↦
          let filled : resolve_cors_allow_list cfg domain learner ≢ some [] =
            unfold resolve_cors_allow_list in
            configured_filled cfg.allowed_origins (from_env domain ++ from_learner learner) in
          inr (
            e,
            simp e (
                listed-Granted url cfg (r.header (codes "Origin"))
                  (resolve_cors_allow_list cfg domain learner) filled),
          )
    ]
