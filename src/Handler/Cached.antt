-- ===== src/Handler/Cached.antt =====
-- The read-through cache of pastes: `getCachedPaste`, `cachePaste` and `invalidatePasteCache`.
use pastebin.Base.{ℕ, ◌≡◌, [], ◌++◌, Option, none, some, Bytes, codes, ltb, if◌then◌else◌}
use pastebin.Base.Int.{ℤ, pos}
use pastebin.Model.{Paste}
use pastebin.Database.State.{Db}
use pastebin.Cache.Driver.{Driver}

-- `json.Marshal` and `json.Unmarshal` of a paste. The delete token is not encoded (`json:"-"`); what
-- is encoded is read back, for a paste whose texts are valid UTF-8 (`IsText`).
pub record Codec : Type 1 where
  pub encode : Paste → Option Bytes
  pub decode : Bytes → Option Paste
  pub IsText : Paste → Type 0
  pub decode-encode :
      (p : Paste) {raw : Bytes}
      → IsText p
      → encode p ≡ some raw
      → decode raw ≡ some (record p { delete_token_hash = [] })

-- The state that a handler reaches: the database, and the cache if one is configured.
pub record World (S : Type 0) : Type 0 where
  pub db : Db
  pub cache : Option S

-- `pasteCacheTTL`, five minutes.
abbrev pub paste_cache_ttl : ℤ
paste_cache_ttl = pos 300_000_000_000

unfoldable pub paste_cache_key : Bytes → Bytes
paste_cache_key id = codes "paste:" ++ id

module _ {S : Type 0} (driver : Driver S) (codec : Codec) where
  abbrev pub usable : Option Paste → Option Paste
  usable none = none
  usable (some p) = if ltb 0 p.burn_after then none else some p

  abbrev pub decoded : Option Bytes → Option Paste
  decoded none = none
  decoded (some raw) = usable (codec.decode raw)

  abbrev pub cached : ℕ → Bytes → Option S → Option Paste × Option S
  cached now id none = (none, none)
  cached now id (some c) =
      let got = driver.get now (paste_cache_key id) c in (decoded got.0, some got.1)

  unfoldable pub get_cached_paste : ℕ → Bytes → World S → Option Paste × World S
  get_cached_paste now id w = let got = cached now id w.cache in (got.0, record w { cache = got.1 })

  abbrev pub stored : ℕ → Paste → S → Option Bytes → S
  stored now p c none = c
  stored now p c (some raw) = driver.set now (paste_cache_key p.id) raw paste_cache_ttl c

  abbrev pub cache_in : ℕ → Paste → Option S → Option S
  cache_in now p none = none
  cache_in now p (some c) = some (if ltb 0 p.burn_after then c else stored now p c (codec.encode p))

  unfoldable pub cache_paste : ℕ → Paste → World S → World S
  cache_paste now p w = record w { cache = cache_in now p w.cache }

  abbrev pub invalidate_in : Bytes → Option S → Option S
  invalidate_in id none = none
  invalidate_in id (some c) = some (driver.delete (paste_cache_key id) c)

  unfoldable pub invalidate_paste_cache : Bytes → World S → World S
  invalidate_paste_cache id w = record w { cache = invalidate_in id w.cache }
