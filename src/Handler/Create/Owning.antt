-- ===== src/Handler/Create/Owning.antt =====
-- The token of an answer: it deletes the paste that it came with.
use pastebin.Base.{
  ℕ, zero, suc, ◌+◌, ◌≡◌, ◌≢◌, refl, sym, ap, ◌∙◌, false, List, [], ◌∷◌, ◌++◌, Option, none, some,
  ◌⊎◌, inl, inr, arith, Bytes, codes, bytes_eq, bytes_eq_iff, bytes_eq_refl, find_where,
  find-append_none, count-zero_find, Bool-cases, take,
}
use mathlib.Core.Option
use mathlib.Core.Path.{subst}
use pastebin.Model.{Paste, CreateResponse}
use pastebin.Database.State.{Db, Token, Result, ok, err, statement, run_with, ignore_error, unix}
use pastebin.Database.Pastes.Ops.{has_id, stamp, create_paste, get_paste_by_id, delete_paste}
use pastebin.Database.Tokens.Ops.{
  has_hash, has_lapsed, new_token, create_api_token, list_api_tokens, verify_api_token, touch_token,
}
use pastebin.Database.Tokens.Laws.{IsUnique, no_use, grants, verdict, verify-verdict, verify_pastes}
use pastebin.Cache.Driver.{Driver}
use pastebin.Handler.Cached.{Codec, World}
use pastebin.Handler.Serve.{matches, delete_reply, delete_verified, delete_paste_request, query}
use pastebin.Handler.Create.Input.{CreateRequest, Library, Request, read_input, extract_token}
use pastebin.Handler.Create.Content.{Body, prepare_body}
use pastebin.Handler.Create.Storing.{create-row, made-injective}
use pastebin.Handler.Create.{
  Draft, draft, new_paste, Entropy, made, pick_id, resolve_token, refresh_gauge, response,
  after_create, store_paste, with_id, with_body, with_input, create_from_request, spell,
}

-- What the tables hold for the paste of an answer and its token: they run without failures.
pub record IsOwned (now : ℕ) (sha256 : Bytes → Bytes) (resp : CreateResponse) (d : Db)
    : Type 0 where
  pub healthy : d.faults ≡ []
  pub unique : IsUnique d.tokens
  pub there : (p : Paste) × (find_where (has_id resp.id) d.pastes ≡ some p)
  pub given : resp.owner_token ≢ []
  pub granted :
      (later : ℕ)
      → has_lapsed later (Option.map unix resp.expires_at) ≡ false
      → (t : Token) × (find_where
            (grants later (sha256 resp.owner_token) (codes "paste") resp.id)
            d.tokens
          ≡ some t)

IsUnique-append :
    (rows : List Token) (t : Token)
    → IsUnique rows
    → find_where (has_hash t.token_hash) rows ≡ none
    → IsUnique (rows ++ t ∷ [])
unfolding find_where
IsUnique-append [] t u h = (refl, tt)
IsUnique-append (x ∷ rows) t (k, u) h = elim (Bool-cases (bytes_eq x.token_hash t.token_hash)) [
  | inl same ↦ absurd (cc (rw same at h))
  | inr other ↦ (
    find-append_none (has_hash x.token_hash) rows (t ∷ []) k
        ∙ ground
            (arith, bytes_eq_iff x.token_hash t.token_hash, bytes_eq_iff t.token_hash x.token_hash),
    IsUnique-append rows t u (rw other at h),
  )
]

faultless-pick :
    (ids : ℕ → Option Bytes) (left i : ℕ) (d : Db) → d.faults ≡ [] → (pick_id ids left i d).1 ≡ d
unfolding pick_id get_paste_by_id statement run_with
faultless-pick ids zero i d h = refl
faultless-pick ids (suc left) i d h = ground (arith, faultless-pick ids left (suc i) d)

-- The row of a token that is new is found for its paste, as long as it has not lapsed.
new-grants :
    (n now later : ℕ) (hash prefix kind id : Bytes) (t : Option ℕ) (rows : List Token)
    → find_where (has_hash hash) rows ≡ none
    → has_lapsed later (Option.map unix t) ≡ false
    → find_where (grants later hash kind id) (rows ++ new_token n now hash prefix kind id t ∷ [])
      ≡ some (new_token n now hash prefix kind id t)
unfolding grants find_where
new-grants n now later hash prefix kind id t rows fresh live =
    find-append_none (grants later hash kind id) rows (new_token n now hash prefix kind id t ∷ [])
      (no_use later hash kind id rows fresh)
    ∙ rw (bytes_eq_refl hash, bytes_eq_refl kind, bytes_eq_refl id, live) refl

create-healthy :
    (now : ℕ) (p : Paste) (d : Db)
    → d.faults ≡ []
    → ((create_paste now p d).1.faults ≡ []) × ((create_paste now p d).1.tokens ≡ d.tokens)
unfolding create_paste statement run_with
create-healthy now p d h = ground arith

module _ (lib : Library) (sha256 : Bytes → Bytes) where
  stored_token :
      (now : ℕ) (hash prefix kind id : Bytes) (t : Option ℕ) (d : Db)
      → d.faults ≡ []
      → find_where (has_hash hash) d.tokens ≡ none
      → refresh_gauge lib sha256 (create_api_token now hash prefix kind id t d) ≡ record d {
        tokens = d.tokens ++ new_token d.next_token now hash prefix kind id t ∷ [];
        next_token = d.next_token + 1;
      }
  unfolding create_api_token list_api_tokens statement run_with
  stored_token now hash prefix kind id t d h fresh = rw (h, fresh) refl

  after-IsOwned :
      (now : ℕ) (r : Request) (p : Paste) (token : Bytes) (c : Result (Unit {0}) × Db)
      {resp : CreateResponse}
      → (c.0 ≡ ok tt → find_where (has_id p.id) c.1.pastes ≡ some (stamp now p))
      → c.1.faults ≡ []
      → IsUnique c.1.tokens
      → token ≢ []
      → find_where (has_hash (sha256 token)) c.1.tokens ≡ none
      → (after_create lib sha256 now r p token c).0 ≡ made resp
      → IsOwned now sha256 resp (after_create lib sha256 now r p token c).1
  unfolding stamp
  after-IsOwned now r p token (err e, d) found healthy unique given fresh h = absurd (cc h)
  after-IsOwned now r p token (ok u, d) {resp} found healthy unique given fresh h =
      let row =
        new_token d.next_token now (sha256 token) (take 12 token) (codes "paste") p.id
          p.expires_at in
      let d' : Db = record d { tokens = d.tokens ++ row ∷ []; next_token = d.next_token + 1 } in
      let owned : IsOwned now sha256 (response lib sha256 r (stamp now p) token) d' = record {
        healthy = healthy;
        unique = IsUnique-append d.tokens row unique fresh;
        there = (stamp now p, found refl);
        given = given;
        granted = λ later live. (
          row,
          new-grants d.next_token now later (sha256 token) (take 12 token) (codes "paste") p.id
              p.expires_at d.tokens fresh live,
        );
      } in
      subst (λ x. IsOwned now sha256 resp x)
        (sym (
          stored_token now (sha256 token) (take 12 token) (codes "paste") p.id p.expires_at d
            healthy fresh))
        (subst (λ x. IsOwned now sha256 x d')
          (made-injective (response lib sha256 r (stamp now p) token) resp h) owned)

  store-IsOwned :
      (now : ℕ) (r : Request) (p : Paste) (token : Bytes) (d : Db) {resp : CreateResponse}
      → d.faults ≡ []
      → IsUnique d.tokens
      → token ≢ []
      → find_where (has_hash (sha256 token)) d.tokens ≡ none
      → (store_paste lib sha256 now r p (some token, d)).0 ≡ made resp
      → IsOwned now sha256 resp (store_paste lib sha256 now r p (some token, d)).1
  unfolding store_paste
  store-IsOwned now r p token d healthy unique given fresh h =
      let (still, same) = create-healthy now p d healthy in
      after-IsOwned now r p token (create_paste now p d) (create-row now p d) still (rw same unique)
        given (rw same fresh) h

  id-IsOwned :
      (now : ℕ) (r : Request) (raw : Bytes) (f : Draft) (i : Option Bytes × Db)
      {resp : CreateResponse}
      → i.1.faults ≡ []
      → IsUnique i.1.tokens
      → extract_token lib r [] ≡ []
      → find_where (has_hash (sha256 (codes "tok_" ++ spell raw))) i.1.tokens ≡ none
      → (with_id lib sha256 now r (some raw) f i).0 ≡ made resp
      → IsOwned now sha256 resp (with_id lib sha256 now r (some raw) f i).1
  unfolding resolve_token bytes_eq
  id-IsOwned now r raw f (none, d) healthy unique bare fresh h = absurd (cc h)
  id-IsOwned now r raw f (some [], d) healthy unique bare fresh h = absurd (cc h)
  id-IsOwned now r raw f (some (c ∷ cs), d) healthy unique bare fresh h = rw bare (
      store-IsOwned now r (new_paste (c ∷ cs) f) (codes "tok_" ++ spell raw) d healthy unique
        (λ e. absurd (cc e)) fresh (rw bare at h))

  body-IsOwned :
      (now : ℕ) (r : Request) (entropy : Entropy) (raw : Bytes) (req : CreateRequest) (b : ℕ ⊎ Body)
      (d : Db) {resp : CreateResponse}
      → d.faults ≡ []
      → IsUnique d.tokens
      → extract_token lib r [] ≡ []
      → entropy.token ≡ some raw
      → find_where (has_hash (sha256 (codes "tok_" ++ spell raw))) d.tokens ≡ none
      → (with_body lib sha256 now r entropy req b d).0 ≡ made resp
      → IsOwned now sha256 resp (with_body lib sha256 now r entropy req b d).1
  body-IsOwned now r entropy raw req (inl status) d healthy unique bare drawn fresh h =
      absurd (cc h)
  body-IsOwned now r entropy raw req (inr b) d healthy unique bare drawn fresh h =
      let same = faultless-pick entropy.ids 10 0 d healthy in
      rw drawn (
        id-IsOwned now r raw (draft now req b) (pick_id entropy.ids 10 0 d) (rw same healthy)
          (rw same unique) bare (rw same fresh) (rw drawn at h))

  input-IsOwned :
      (now : ℕ) (r : Request) (entropy : Entropy) (raw : Bytes) (i : ℕ ⊎ CreateRequest) (d : Db)
      {resp : CreateResponse}
      → d.faults ≡ []
      → IsUnique d.tokens
      → extract_token lib r [] ≡ []
      → entropy.token ≡ some raw
      → find_where (has_hash (sha256 (codes "tok_" ++ spell raw))) d.tokens ≡ none
      → (with_input lib sha256 now r entropy i d).0 ≡ made resp
      → IsOwned now sha256 resp (with_input lib sha256 now r entropy i d).1
  input-IsOwned now r entropy raw (inl status) d healthy unique bare drawn fresh h = absurd (cc h)
  input-IsOwned now r entropy raw (inr req) d healthy unique bare drawn fresh h =
      body-IsOwned now r entropy raw req (prepare_body lib req) d healthy unique bare drawn fresh h

verified-faults :
    (now : ℕ) (hash kind id : Bytes) (d : Db)
    → d.faults ≡ []
    → (verify_api_token now hash kind id d).1.faults ≡ []
unfolding verify_api_token statement run_with ignore_error touch_token
verified-faults now hash kind id d h = ground arith

verified-ok :
    (now : ℕ) (hash kind id : Bytes) (d : Db) {t : Token}
    → IsUnique d.tokens
    → d.faults ≡ []
    → find_where (grants now hash kind id) d.tokens ≡ some t
    → (verify_api_token now hash kind id d).0 ≡ ok tt
unfolding verdict
verified-ok now hash kind id d u h found = verify-verdict now hash kind id d u h ∙ rw found refl

module _ {S : Type 0} (driver : Driver S) (codec : Codec) where
  deleted-answer :
      (id : Bytes) (w : World S) {p : Paste}
      → w.db.faults ≡ []
      → find_where (has_id id) w.db.pastes ≡ some p
      → (delete_reply driver codec id (query (delete_paste id) w)).0 ≡ none
  unfolding delete_paste statement run_with
  deleted-answer id w {p} h found = ground (arith, count-zero_find (has_id id) w.db.pastes)

  verified-answer :
      (id : Bytes) (v : Result (Unit {0}) × World S) {p : Paste}
      → v.0 ≡ ok tt
      → v.1.db.faults ≡ []
      → find_where (has_id id) v.1.db.pastes ≡ some p
      → (delete_verified driver codec id v).0 ≡ none
  verified-answer id (err e, w) done h found = absurd (cc done)
  verified-answer id (ok u, w) done h found = deleted-answer id w h found

  module _ (sha256 : Bytes → Bytes) (operator : Option Bytes) where
    owned-answer :
        (now later : ℕ) (resp : CreateResponse) (w : World S)
        → IsOwned now sha256 resp w.db
        → has_lapsed later (Option.map unix resp.expires_at) ≡ false
        → (delete_paste_request driver codec sha256 operator later resp.id resp.owner_token w).0
          ≡ none
    unfolding delete_paste_request
    owned-answer now later resp w o live =
        let hash = sha256 resp.owner_token in
        let (p, there) = o.there in
        let (t, granted) = o.granted later live in
        let v = query (verify_api_token later hash (codes "paste") resp.id) w in
        let kept = verify_pastes later hash (codes "paste") resp.id w.db in
        elim (Bool-cases (bytes_eq resp.owner_token [])) [
          | inl e ↦ absurd (o.given ((bytes_eq_iff resp.owner_token []).0 e))
          | inr e ↦ rw e (elim (Bool-cases (matches operator hash)) [
            | inl op ↦ rw op (deleted-answer resp.id w o.healthy there)
            | inr not_op ↦ rw not_op (
                verified-answer resp.id v
                  (verified-ok later hash (codes "paste") resp.id w.db o.unique o.healthy granted)
                  (verified-faults later hash (codes "paste") resp.id w.db o.healthy)
                  (ap (find_where (has_id resp.id)) kept ∙ there))
          ])
        ]

    -- When the statements do not fail, and a request that carries no token is answered with a paste, on tables
    -- where no hash of a token is stored twice and the one of the new token is not stored: a request to delete
    -- the paste of the answer, with the owner token of the answer, is answered 200 by any world with the tables
    -- that the first request left, at any instant at which the token has not lapsed.
    pub delete_paste_request-create_from_request :
        (lib : Library) (limit now later : ℕ) (r : Request) (entropy : Entropy) (raw : Bytes)
        (d : Db) (w : World S) {resp : CreateResponse}
        → d.faults ≡ []
        → IsUnique d.tokens
        → extract_token lib r [] ≡ []
        → entropy.token ≡ some raw
        → find_where (has_hash (sha256 (codes "tok_" ++ spell raw))) d.tokens ≡ none
        → (create_from_request lib sha256 limit now r entropy d).0 ≡ made resp
        → w.db ≡ (create_from_request lib sha256 limit now r entropy d).1
        → has_lapsed later (Option.map unix resp.expires_at) ≡ false
        → (delete_paste_request driver codec sha256 operator later resp.id resp.owner_token w).0
          ≡ none
    unfolding create_from_request
    delete_paste_request-create_from_request lib limit now later r entropy raw d w {resp} healthy
          unique bare drawn fresh h same live =
        owned-answer now later resp w
          (subst (λ x. IsOwned now sha256 resp x) (sym same)
            (input-IsOwned lib sha256 now r entropy raw (read_input lib limit r) d healthy unique
              bare drawn fresh h))
          live
