-- ===== src/Handler/Serve/Web.antt =====
-- `GetPasteForWeb`, the read behind the paste page, beside the API's.
use pastebin.Base.{ℕ, ◌≡◌, refl, Option, none, some, Bytes, if◌then◌else◌, inl, inr, Bool-cases}
use pastebin.Model.{Paste}
use pastebin.Database.State.{Result, ok, err}
use pastebin.Database.Pastes.Ops.{get_paste_by_id, increment_views_and_check_burn}
use pastebin.Cache.Driver.{Driver}
use pastebin.Handler.Codes.{server_error}
use pastebin.Handler.Cached.{Codec, World, get_cached_paste, cache_paste}
use pastebin.Handler.Serve.{
  Loaded, live, refused, has_expired, query, drop_paste, enforce_expiry, load_row, load_from, shown,
  after_view, view_loaded, load_live_paste, get_paste,
}

-- A paste, no paste, or the error of the database.
pub data Web : Type 0 where
  found : Paste → Web
  absent failed : Web

module _ {S : Type 0} (driver : Driver S) (codec : Codec) where
  abbrev pub web_view : ℕ → Bytes → Paste → World S → Web × World S
  web_view now id p w =
      let r = query (increment_views_and_check_burn now id) w in
      (found (shown driver codec p r.0), after_view driver codec id r)

  abbrev pub web_unexpired : ℕ → Bytes → Paste → World S → Web × World S
  web_unexpired now id p w =
      if has_expired now p then (absent, drop_paste driver codec id w) else web_view now id p w

  abbrev pub web_row : ℕ → Bytes → Result (Option Paste) × World S → Web × World S
  web_row now id (err e, w) = (failed, w)
  web_row now id (ok none, w) = (absent, w)
  web_row now id (ok (some p), w) = web_unexpired now id p (cache_paste driver codec now p w)

  abbrev pub web_from : ℕ → Bytes → Option Paste × World S → Web × World S
  web_from now id (some p, w) = web_unexpired now id p w
  web_from now id (none, w) = web_row now id (query (get_paste_by_id id) w)

  unfoldable pub get_paste_for_web : ℕ → Bytes → World S → Web × World S
  get_paste_for_web now id w = web_from now id (get_cached_paste driver codec now id w)

-- What the page makes of an answer of the API.
abbrev pub web_of : Loaded → Web
web_of (live p) = found p
web_of (refused server_error) = failed
web_of (refused _) = absent

module _ {S : Type 0} (driver : Driver S) (codec : Codec) where
  unexpired-agrees :
      (now : ℕ) (id : Bytes) (p : Paste) (w : World S)
      → web_unexpired driver codec now id p w ≡ (
          let r = view_loaded driver codec now id (enforce_expiry driver codec now id p w) in
          (web_of r.0, r.1))
  unexpired-agrees now id p w = elim (Bool-cases (has_expired now p)) [
    | inl e ↦ rw e refl
    | inr e ↦ rw e refl
  ]

  row-agrees :
      (now : ℕ) (id : Bytes) (r : Result (Option Paste) × World S)
      → web_row driver codec now id r ≡ (
          let a = view_loaded driver codec now id (load_row driver codec now id r) in
          (web_of a.0, a.1))
  row-agrees now id (err e, w) = refl
  row-agrees now id (ok none, w) = refl
  row-agrees now id (ok (some p), w) = unexpired-agrees now id p _

  from-agrees :
      (now : ℕ) (id : Bytes) (c : Option Paste × World S)
      → web_from driver codec now id c ≡ (
          let a = view_loaded driver codec now id (load_from driver codec now id c) in
          (web_of a.0, a.1))
  from-agrees now id (some p, w) = unexpired-agrees now id p w
  from-agrees now id (none, w) = row-agrees now id _

  -- The page and the API are the same read: the same paste is shown, an expired or missing paste is absent,
  -- a failing database is an error, and the database and the cache are left alike.
  pub web-agrees :
      (now : ℕ) (id : Bytes) (w : World S)
      → get_paste_for_web driver codec now id w
        ≡ (web_of (get_paste driver codec now id w).0, (get_paste driver codec now id w).1)
  unfolding get_paste_for_web get_paste load_live_paste
  web-agrees now id w = from-agrees now id (get_cached_paste driver codec now id w)
