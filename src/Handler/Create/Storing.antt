-- ===== src/Handler/Create/Storing.antt =====
-- What a request that succeeds has stored.
use pastebin.Base.{
  ℕ, ◌+◌, ◌≤◌, ◌<◌, ◌≡◌, ◌≢◌, refl, ap, ◌∙◌, not, ◌&&◌, [], ◌∷◌, ◌++◌, Option, none, some, ◌⊎◌, inl,
  inr, arith, Bytes, codes, bytes_eq, bytes_eq_iff, bytes_eq_refl, find_where, find-append_none,
  Bool-cases, take,
}
use mathlib.Core.Path.{subst}
use mathlib.Core.Sum.{inr-injective}
use pastebin.Base.Text.{trim_space}
use pastebin.Model.{Paste, CreateResponse}
use pastebin.Database.State.{Db, Result, ok, err, statement, run_with}
use pastebin.Database.Pastes.Ops.{has_id, stamp, create_paste}
use pastebin.Database.Tokens.Ops.{create_api_token, list_api_tokens}
use pastebin.Handler.Request.{parse_expiry}
use pastebin.Handler.Request.Limits.{parse_expiry_bounds}
use pastebin.Handler.Create.Input.{CreateRequest, Library, Request, read_input, extract_token}
use pastebin.Handler.Create.Content.{Body, prepare_body, require_content}
use pastebin.Handler.Create.{
  Draft, draft, new_paste, expiry_of, Entropy, made, rejected, pick_id, resolve_token,
  refresh_gauge, response, after_create, store_paste, with_id, with_body, with_input,
  create_from_request,
}

-- An expiry that is still to come, within ten years.
abbrev pub InFuture : ℕ → Option ℕ → Type 0
InFuture now none = Unit
InFuture now (some t) = (now < t) × (t ≤ now + 315_360_000_000_000_000)

-- What a new paste is like.
pub record IsFresh (now : ℕ) (p : Paste) : Type 0 where
  pub unviewed : p.views ≡ 0
  pub burn_bounded : p.burn_after ≤ 9999
  pub listed_or_not : p.visibility ≤ 1
  pub expires : InFuture now p.expires_at
  pub content : trim_space p.content ≢ []
  pub created : p.created_at ≡ now

-- The answer tells of the paste that is stored.
pub record Answers (r : Request) (resp : CreateResponse) (p : Paste) : Type 0 where
  pub title : resp.title ≡ p.title
  pub language : resp.language ≡ p.language
  pub visibility : resp.visibility ≡ p.visibility
  pub is_link : resp.is_link ≡ p.is_link
  pub burn_after : resp.burn_after ≡ p.burn_after
  pub expires_at : resp.expires_at ≡ p.expires_at
  pub created_at : resp.created_at ≡ p.created_at
  pub link : resp.link ≡ r.base ++ codes "/" ++ p.id

expiry-InFuture : (now : ℕ) (s : Bytes) (t : Option ℕ) → parse_expiry now s ≡ t → InFuture now t
expiry-InFuture now s none h = tt
expiry-InFuture now s (some t) h = parse_expiry_bounds now s h

draft-InFuture : (now : ℕ) (s : Bytes) → InFuture now (expiry_of now s)
draft-InFuture now s = elim (Bool-cases (not (bytes_eq s []) && not (bytes_eq s (codes "never")))) [
  | inl e ↦ rw e (expiry-InFuture now s (parse_expiry now s) refl)
  | inr e ↦ rw e tt
]

-- The paste of an answer is in the table, with a property.
pub record IsStored (Q : Paste → Type 0) (r : Request) (resp : CreateResponse) (d : Db)
    : Type 0 where
  pub paste : Paste
  pub found : find_where (has_id resp.id) d.pastes ≡ some paste
  pub held : Q paste
  pub answers : Answers r resp paste

-- A new paste is fresh, and its content is what the input of its request is made into.
pub record IsMade (lib : Library) (now : ℕ) (i : ℕ ⊎ CreateRequest) (p : Paste) : Type 0 where
  pub fresh : IsFresh now p
  pub req : CreateRequest
  pub body : Body
  pub read : i ≡ inr req
  pub prepared : prepare_body lib req ≡ inr body
  pub content : p.content ≡ body.content
  pub content_type : p.content_type ≡ body.content_type

draft-IsFresh :
    (now : ℕ) (req : CreateRequest) (b : Body) (id : Bytes)
    → trim_space b.content ≢ []
    → IsFresh now (stamp now (new_paste id (draft now req b)))
unfolding draft new_paste stamp
draft-IsFresh now req b id full = record {
  unviewed = refl;
  burn_bounded = ground arith;
  listed_or_not = ground arith;
  expires = draft-InFuture now req.expires_in;
  content = full;
  created = refl;
}

pub create-row :
    (now : ℕ) (p : Paste) (d : Db)
    → (create_paste now p d).0 ≡ ok tt
    → find_where (has_id p.id) (create_paste now p d).1.pastes ≡ some (stamp now p)
unfolding create_paste statement run_with stamp find_where
create-row now p d h =
    ground (arith, find-append_none (has_id p.id) d.pastes (stamp now p ∷ []), bytes_eq_refl p.id)

pub made-injective : (a b : CreateResponse) → made a ≡ made b → a ≡ b
made-injective a b h = ap (λ c. elim c [ made x ↦ x | rejected n ↦ a ]) h

abbrev accepted : Body → ℕ ⊎ Body
accepted b = inr b

same_content :
    (b b' : Body) → accepted b ≡ accepted b' → trim_space b.content ≡ trim_space b'.content
same_content b b' h = ap (λ x. trim_space x.content) (inr-injective b b' h)

module _ (lib : Library) (sha256 : Bytes → Bytes) where
  token-pastes :
      (now : ℕ) (hash prefix kind id : Bytes) (t : Option ℕ) (d : Db)
      → (refresh_gauge lib sha256 (create_api_token now hash prefix kind id t d)).pastes ≡ d.pastes
  unfolding create_api_token list_api_tokens statement run_with
  token-pastes now hash prefix kind id t d = ground arith

  -- Behind the check of the content, it is not blank.
  required-content :
      (b : ℕ ⊎ Body) {b' : Body} → require_content lib b ≡ inr b' → trim_space b'.content ≢ []
  required-content (inl status) h = absurd (cc h)
  required-content (inr b) {b'} h = elim (Bool-cases (bytes_eq (trim_space b.content) [])) [
    | inl e ↦ absurd (cc (rw e at h))
    | inr e ↦ λ blank.
        absurd (
          cc
            (e, (bytes_eq_iff (trim_space b.content) []).1 (same_content b b' (rw e at h) ∙ blank)))
  ]

  after-IsStored :
      (Q : Paste → Type 0) (now : ℕ) (r : Request) (p : Paste) (token : Bytes)
      (c : Result (Unit {0}) × Db) {resp : CreateResponse}
      → (c.0 ≡ ok tt → find_where (has_id p.id) c.1.pastes ≡ some (stamp now p))
      → Q (stamp now p)
      → (after_create lib sha256 now r p token c).0 ≡ made resp
      → IsStored Q r resp (after_create lib sha256 now r p token c).1
  unfolding stamp
  after-IsStored Q now r p token (err e, d) found fresh h = absurd (cc h)
  after-IsStored Q now r p token (ok u, d) {resp} found fresh h =
      let d' =
        refresh_gauge lib sha256 (
          create_api_token now (sha256 token) (take 12 token) (codes "paste") p.id p.expires_at
            d) in
      subst (λ x. IsStored Q r x d')
        (made-injective (response lib sha256 r (stamp now p) token) resp h)
        (record {
          paste = stamp now p;
          found =
              ap (find_where (has_id p.id)) (
                token-pastes now (sha256 token) (take 12 token) (codes "paste") p.id p.expires_at d)
              ∙ found refl;
          held = fresh;
          answers = record {
            title = refl;
            language = refl;
            visibility = refl;
            is_link = refl;
            burn_after = refl;
            expires_at = refl;
            created_at = refl;
            link = refl;
          };
        })

  store-IsStored :
      (Q : Paste → Type 0) (now : ℕ) (r : Request) (p : Paste) (t : Option Bytes × Db)
      {resp : CreateResponse}
      → Q (stamp now p)
      → (store_paste lib sha256 now r p t).0 ≡ made resp
      → IsStored Q r resp (store_paste lib sha256 now r p t).1
  unfolding store_paste
  store-IsStored Q now r p (none, d) fresh h = absurd (cc h)
  store-IsStored Q now r p (some token, d) fresh h =
      after-IsStored Q now r p token (create_paste now p d) (create-row now p d) fresh h

  id-IsStored :
      (Q : Paste → Type 0) (now : ℕ) (r : Request) (draw : Option Bytes) (f : Draft)
      (i : Option Bytes × Db) {resp : CreateResponse}
      → ((id : Bytes) → Q (stamp now (new_paste id f)))
      → (with_id lib sha256 now r draw f i).0 ≡ made resp
      → IsStored Q r resp (with_id lib sha256 now r draw f i).1
  id-IsStored Q now r draw f (none, d) fresh h = absurd (cc h)
  id-IsStored Q now r draw f (some [], d) fresh h = absurd (cc h)
  id-IsStored Q now r draw f (some (c ∷ cs), d) fresh h =
      store-IsStored Q now r (new_paste (c ∷ cs) f)
        (resolve_token lib sha256 now (extract_token lib r []) draw d) (fresh (c ∷ cs)) h

  new-IsMade :
      (now : ℕ) (req : CreateRequest) (b : Body) (id : Bytes)
      → prepare_body lib req ≡ inr b
      → IsMade lib now (inr req) (stamp now (new_paste id (draft now req b)))
  unfolding prepare_body draft new_paste stamp
  new-IsMade now req b id e = record {
    fresh = draft-IsFresh now req b id (required-content _ e);
    req = req;
    body = b;
    read = refl;
    prepared = e;
    content = refl;
    content_type = refl;
  }

  body-IsStored :
      (now : ℕ) (r : Request) (entropy : Entropy) (req : CreateRequest) (b : ℕ ⊎ Body) (d : Db)
      {resp : CreateResponse}
      → prepare_body lib req ≡ b
      → (with_body lib sha256 now r entropy req b d).0 ≡ made resp
      → IsStored (IsMade lib now (inr req)) r resp (with_body lib sha256 now r entropy req b d).1
  body-IsStored now r entropy req (inl status) d e h = absurd (cc h)
  body-IsStored now r entropy req (inr b) d e h =
      id-IsStored (IsMade lib now (inr req)) now r entropy.token (draft now req b)
        (pick_id entropy.ids 10 0 d) (λ id. new-IsMade now req b id e) h

  input-IsStored :
      (now : ℕ) (r : Request) (entropy : Entropy) (i : ℕ ⊎ CreateRequest) (d : Db)
      {resp : CreateResponse}
      → (with_input lib sha256 now r entropy i d).0 ≡ made resp
      → IsStored (IsMade lib now i) r resp (with_input lib sha256 now r entropy i d).1
  input-IsStored now r entropy (inl status) d h = absurd (cc h)
  input-IsStored now r entropy (inr req) d {resp} h =
      body-IsStored now r entropy req (prepare_body lib req) d {resp = resp} refl h

  -- Whatever the request and its body, and whichever statements fail: when the answer is a paste, that paste
  -- is in the table under the id of the answer, as the answer tells it; it is unviewed and created now, burns
  -- after at most 9999 views, is public or unlisted, expires not at all or at an instant behind now and within
  -- ten years, and its content is not blank and is what the checks make of the input that was read.
  pub create_from_request-IsStored :
      (limit now : ℕ) (r : Request) (entropy : Entropy) (d : Db) {resp : CreateResponse}
      → (create_from_request lib sha256 limit now r entropy d).0 ≡ made resp
      → IsStored
          (IsMade lib now (read_input lib limit r))
          r
          resp
          (create_from_request lib sha256 limit now r entropy d).1
  unfolding create_from_request
  create_from_request-IsStored limit now r entropy d h =
      input-IsStored now r entropy (read_input lib limit r) d h
