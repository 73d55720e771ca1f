-- ===== src/Handler/Compat/Counting.antt =====
-- The raw reads of the compatibility endpoints count and burn as `GetPaste` does.
use pastebin.Base.{ℕ, ◌≡◌, refl, Option, none, some, inl, inr, Bytes, Bool-cases}
use pastebin.Model.{Paste}
use pastebin.Database.State.{Db, Result, ok, err}
use pastebin.Database.Pastes.Ops.{get_paste_by_id}
use pastebin.Cache.Driver.{Driver}
use pastebin.Handler.Cached.{Codec, World, get_cached_paste, cache_paste, invalidate_paste_cache}
use pastebin.Handler.Serve.{
  has_expired, drop_paste, load_row, load_live_paste, view_loaded, get_paste,
}
use pastebin.Handler.Compat.{found_live, load_compat, raw_found, hastebin_get}

-- A server with no cache.
abbrev pub uncached : {S : Type 0} → Db → World S
uncached d = record { db = d; cache = none }

module _ {S : Type 0} (driver : Driver S) (codec : Codec) where
  row-agrees :
      (now : ℕ) (id : Bytes) (o : Result (Option Paste) × Db)
      → (let r = found_live now id o in raw_found driver codec now id (uncached r.1) r.0).1
        ≡ (view_loaded driver codec now id (load_row driver codec now id (o.0, uncached o.1))).1
  unfolding cache_paste drop_paste invalidate_paste_cache
  row-agrees now id (err e, d) = refl
  row-agrees now id (ok none, d) = refl
  row-agrees now id (ok (some p), d) = elim (Bool-cases (has_expired now p)) [
    | inl e ↦ rw e refl
    | inr e ↦ rw e refl
  ]

  -- On a server with no cache, and whichever statements fail, `HastebinGet` leaves the tables exactly as `GetPaste`
  -- does: it counts a view, burns the paste at its threshold, and deletes an expired one.
  pub hastebin_get-get_paste :
      (now : ℕ) (id : Bytes) (d : Db)
      → (hastebin_get driver codec now id (uncached d)).1
        ≡ (get_paste driver codec now id (uncached d)).1
  unfolding hastebin_get load_compat get_paste load_live_paste get_cached_paste
  hastebin_get-get_paste now id d = row-agrees now id (get_paste_by_id id d)
