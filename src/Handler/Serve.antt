-- ===== src/Handler/Serve.antt =====
-- Reading and deleting a paste: `loadLivePaste`, `GetPaste`, `GetPasteForWeb` and `DeletePaste`.
pub mod Reading
pub mod Deleting
pub mod Web
use pastebin.Base.{
  ℕ, ◌+◌, ◌≡◌, ◌≢◌, refl, Bool, true, false, not, ◌&&◌, ◌||◌, List, [], ◌∷◌, ◌++◌, Option, none,
  some, Bytes, codes, bytes_eq, ltb, if◌then◌else◌,
}
use pastebin.Model.{Paste}
use pastebin.Database.State.{Db, M, Result, ok, err}
use pastebin.Database.Pastes.Ops.{get_paste_by_id, increment_views_and_check_burn, delete_paste}
use pastebin.Database.Tokens.Ops.{verify_api_token}
use pastebin.Cache.Driver.{Driver}
use pastebin.Handler.Codes.{Code, server_error, not_found, gone, unauthorized}
use pastebin.Handler.Cached.{Codec, World, get_cached_paste, cache_paste, invalidate_paste_cache}

-- What a read ends in: a paste, or the error that is sent.
pub data Loaded : Type 0 where
  live : Paste → Loaded
  refused : Code → Loaded

-- `paste.ExpiresAt != nil && paste.ExpiresAt.Before(now)`
unfoldable pub has_expired : ℕ → Paste → Bool
has_expired now p = elim p.expires_at [ none ↦ false | some t ↦ ltb t now ]

-- The constant-time comparison with the operator's hash; `none` is the zero array, no operator token.
unfoldable pub matches : Option Bytes → Bytes → Bool
matches none hash = false
matches (some operator) hash = bytes_eq hash operator

-- A call of the database from a handler.
abbrev pub query : {S : Type 0} {A : Type 0} → M A → World S → Result A × World S
query m w = let r = m w.db in (r.0, record w { db = r.1 })

module _ {S : Type 0} (driver : Driver S) (codec : Codec) where
  -- `h.db.DeletePaste(id)` with its error dropped, and the cache entry with it.
  unfoldable pub drop_paste : Bytes → World S → World S
  unfolding invalidate_paste_cache
  drop_paste id w = invalidate_paste_cache driver codec id (query (delete_paste id) w).1

  abbrev pub enforce_expiry : ℕ → Bytes → Paste → World S → Loaded × World S
  enforce_expiry now id p w =
      if has_expired now p then (refused gone, drop_paste id w) else (live p, w)

  abbrev pub load_row : ℕ → Bytes → Result (Option Paste) × World S → Loaded × World S
  load_row now id (err e, w) = (refused server_error, w)
  load_row now id (ok none, w) = (refused not_found, w)
  load_row now id (ok (some p), w) = enforce_expiry now id p (cache_paste driver codec now p w)

  abbrev pub load_from : ℕ → Bytes → Option Paste × World S → Loaded × World S
  load_from now id (some p, w) = enforce_expiry now id p w
  load_from now id (none, w) = load_row now id (query (get_paste_by_id id) w)

  unfoldable pub load_live_paste : ℕ → Bytes → World S → Loaded × World S
  load_live_paste now id w = load_from now id (get_cached_paste driver codec now id w)

  -- The paste as it is shown: with the count of the database, or its own plus one where that failed.
  abbrev pub shown : Paste → Result (ℕ × Bool) → Paste
  shown p (ok (views, burned)) = record p { views = views; delete_token_hash = [] }
  shown p (err e) = record p { views = p.views + 1; delete_token_hash = [] }

  abbrev pub after_view : Bytes → Result (ℕ × Bool) × World S → World S
  after_view id (ok (views, true), w) = invalidate_paste_cache driver codec id w
  after_view id (ok (views, false), w) = w
  after_view id (err e, w) = w

  abbrev pub view_loaded : ℕ → Bytes → Loaded × World S → Loaded × World S
  view_loaded now id (refused code, w) = (refused code, w)
  view_loaded now id (live p, w) =
      let r = query (increment_views_and_check_burn now id) w in
      (live (shown p r.0), after_view id r)

  -- `GetPaste`, up to the rendering of the paste that it shows.
  unfoldable pub get_paste : ℕ → Bytes → World S → Loaded × World S
  get_paste now id w = view_loaded now id (load_live_paste now id w)

  -- The replies of `DeletePaste`.
  abbrev pub delete_reply : Bytes → Result (Unit {0}) × World S → Option Code × World S
  delete_reply id (ok u, w) = (none, invalidate_paste_cache driver codec id w)
  delete_reply id (err e, w) = (some not_found, w)

  abbrev pub delete_verified : Bytes → Result (Unit {0}) × World S → Option Code × World S
  delete_verified id (err e, w) = (some not_found, w)
  delete_verified id (ok u, w) = delete_reply id (query (delete_paste id) w)

  module _ (sha256 : Bytes → Bytes) (operator_token_hash : Option Bytes) where
    abbrev pub is_operator : Bytes → Bool
    is_operator token = matches operator_token_hash (sha256 token)

    -- `none` is the answer 200; a code is the error that is sent.
    unfoldable pub delete_paste_request : ℕ → Bytes → Bytes → World S → Option Code × World S
    delete_paste_request now id token w =
        if bytes_eq token []
        then (some unauthorized, w)
        else if is_operator token
        then delete_reply id (query (delete_paste id) w)
        else delete_verified id (query (verify_api_token now (sha256 token) (codes "paste") id) w)
