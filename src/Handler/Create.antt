-- ===== src/Handler/Create.antt =====
-- src/handler/paste.go: `createFromRequest`, behind the reading of its input.
pub mod Input
pub mod Content
pub mod Storing
pub mod Owning
use pastebin.Base.{
  ℕ, zero, suc, ◌+◌, ◌%◌, Bool, true, false, not, ◌&&◌, ◌||◌, List, [], ◌∷◌, ◌++◌, map, Option,
  none, some, ◌⊎◌, inl, inr, Bytes, codes, bytes_eq, ltb, leb, ◌==◌, if◌then◌else◌, length, take,
  get_elem?,
}
use pastebin.Base.Int.{ℤ, pos_part}
use pastebin.Base.Text.{has_prefix, contains_any, trim_space, trim_right}
use pastebin.Model.{Paste, CreateResponse, visibility_public, visibility_unlisted}
use pastebin.Database.State.{Db, M, Result, ok, err}
use pastebin.Database.Pastes.Ops.{stamp, create_paste, get_paste_by_id}
use pastebin.Database.Tokens.Ops.{create_api_token, validate_api_token, list_api_tokens}
use pastebin.Handler.Request.{parse_expiry}
use pastebin.Handler.Create.Content.{Body, prepare_body}
use pastebin.Handler.Create.Input.{CreateRequest, Url, Library, Request, read_input, extract_token}

-- A request behind the checks of its content.
pub record Draft : Type 0 where
  pub title : Bytes
  pub content : Bytes
  pub content_type : Bytes
  pub language : Bytes
  pub visibility : ℕ
  pub is_link : Bool
  pub expires_at : Option ℕ
  pub burn_after : ℕ

abbrev pub visibility_of : Bytes → ℕ
visibility_of v =
    if bytes_eq v (codes "unlisted") || bytes_eq v (codes "1")
    then visibility_unlisted
    else visibility_public

abbrev pub clamp_burn : ℤ → ℕ
clamp_burn z = let n = pos_part z in if ltb 9999 n then 9999 else n

abbrev pub expiry_of : ℕ → Bytes → Option ℕ
expiry_of now s =
    if not (bytes_eq s []) && not (bytes_eq s (codes "never")) then parse_expiry now s else none

unfoldable pub draft : ℕ → CreateRequest → Body → Draft
draft now req b = record {
  title =
      if bytes_eq req.title []
      then (if b.is_link then b.content else codes "Untitled")
      else req.title;
  content = b.content;
  content_type = b.content_type;
  language = if bytes_eq b.language [] && not b.is_link then codes "text" else b.language;
  visibility = visibility_of req.visibility;
  is_link = b.is_link;
  expires_at = expiry_of now req.expires_in;
  burn_after = clamp_burn req.burn_after;
}

unfoldable pub new_paste : Bytes → Draft → Paste
new_paste id f = record {
  id = id;
  title = f.title;
  content = f.content;
  content_type = f.content_type;
  language = f.language;
  visibility = f.visibility;
  is_link = f.is_link;
  expires_at = f.expires_at;
  burn_after = f.burn_after;
  delete_token_hash = [];
  views = 0;
  created_at = 0;
  updated_at = 0;
}

-- `idCharset` and `tokenCharset`, the 62 letters and digits.
abbrev pub charset : Bytes
charset = codes "abcdefghijklmnopqrstuvwxyzABCDEFGHIJKLMNOPQRSTUVWXYZ0123456789"

abbrev pub letter : Option ℕ → ℕ
letter none = 0
letter (some c) = c

-- Random bytes as letters.
unfoldable pub spell : Bytes → Bytes
spell raw = map (λ v. letter (get_elem? charset (v % length charset))) raw

-- What `rand.Read` gives: eight bytes for each try of an id, and 32 for a token; none is its error.
pub record Entropy : Type 0 where
  pub ids : ℕ → Option Bytes
  pub token : Option Bytes

-- A paste that is there asks for another try; an error of the lookup does not.
abbrev pub is_taken : Result (Option Paste) → Bool
is_taken (err e) = false
is_taken (ok none) = false
is_taken (ok (some p)) = true

-- The tries that are left, and the number of the next; none where no random bytes were to be had, and ""
-- where every try was taken.
unfoldable pub pick_id : (ℕ → Option Bytes) → ℕ → ℕ → Db → Option Bytes × Db
unfolding spell
pick_id ids zero i d = (some [], d)
pick_id ids (suc left) i d = elim (ids i) [
  | none ↦ (none, d)
  | some raw ↦
      let found = get_paste_by_id (spell raw) d in
      let more = pick_id ids left (suc i) found.1 in
      if is_taken found.0 then more else (some (spell raw), found.1)
]

abbrev pub generate_owner_token : Option Bytes → Option Bytes
generate_owner_token none = none
generate_owner_token (some raw) = some (codes "tok_" ++ spell raw)

abbrev pub reused_or_new : Bytes → Option Bytes → Result (Unit {0}) × Db → Option Bytes × Db
reused_or_new incoming draw (ok u, d) = (some incoming, d)
reused_or_new incoming draw (err e, d) = (generate_owner_token draw, d)

pub data Created : Type 0 where
  made : CreateResponse → Created
  rejected : ℕ → Created

module _ (lib : Library) (sha256 : Bytes → Bytes) where
  unfoldable pub resolve_token : ℕ → Bytes → Option Bytes → Db → Option Bytes × Db
  unfolding spell
  resolve_token now incoming draw d =
      if bytes_eq incoming []
      then (generate_owner_token draw, d)
      else reused_or_new incoming draw (validate_api_token now (sha256 incoming) (codes "paste") d)

  -- `refreshActiveTokenGauge`: a listing, for a metric.
  abbrev pub refresh_gauge : Result (Unit {0}) × Db → Db
  refresh_gauge (ok u, d) = (list_api_tokens d).1
  refresh_gauge (err e, d) = d

  abbrev pub response : Request → Paste → Bytes → CreateResponse
  response r p token = record {
    id = p.id;
    title = p.title;
    language = p.language;
    visibility = p.visibility;
    is_link = p.is_link;
    burn_after = p.burn_after;
    expires_at = p.expires_at;
    views = 0;
    created_at = p.created_at;
    link = r.base ++ codes "/" ++ p.id;
    owner_token = token;
  }

  abbrev pub after_create : ℕ → Request → Paste → Bytes → Result (Unit {0}) × Db → Created × Db
  after_create now r p token (err e, d) = (rejected 500, d)
  after_create now r p token (ok u, d) = (
    made (response r (stamp now p) token),
    refresh_gauge
        (create_api_token now (sha256 token) (take 12 token) (codes "paste") p.id p.expires_at d),
  )

  -- The statements that store a paste and its token.
  unfoldable pub store_paste : ℕ → Request → Paste → Option Bytes × Db → Created × Db
  store_paste now r p (none, d) = (rejected 500, d)
  store_paste now r p (some token, d) = after_create now r p token (create_paste now p d)

  -- The token is resolved behind the id; the body is read by then.
  abbrev pub with_id : ℕ → Request → Option Bytes → Draft → Option Bytes × Db → Created × Db
  with_id now r draw f (none, d) = (rejected 500, d)
  with_id now r draw f (some [], d) = (rejected 500, d)
  with_id now r draw f (some (c ∷ cs), d) =
      store_paste now r (new_paste (c ∷ cs) f) (resolve_token now (extract_token lib r []) draw d)

  abbrev pub with_body : ℕ → Request → Entropy → CreateRequest → ℕ ⊎ Body → Db → Created × Db
  with_body now r entropy req (inl status) d = (rejected status, d)
  with_body now r entropy req (inr b) d =
      with_id now r entropy.token (draft now req b) (pick_id entropy.ids 10 0 d)

  abbrev pub with_input : ℕ → Request → Entropy → ℕ ⊎ CreateRequest → Db → Created × Db
  with_input now r entropy (inl status) d = (rejected status, d)
  with_input now r entropy (inr req) d = with_body now r entropy req (prepare_body lib req) d

  unfoldable pub create_from_request : ℕ → ℕ → Request → Entropy → Db → Created × Db
  unfolding store_paste draft new_paste pick_id resolve_token prepare_body
  create_from_request limit now r entropy d = with_input now r entropy (read_input lib limit r) d
