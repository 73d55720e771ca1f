-- ===== src/Tests/Compat.antt =====
-- Tests of the compatibility endpoints.
use pastebin.Base.{◌+◌, ◌^◌, ◌≡◌, refl, [], ◌∷◌, none, some, codes, find_where, bytes_eq}
use pastebin.Base.Text.{has_prefix, parse_int, digits_from, is_digit}
use pastebin.Database.State.{statement, run_with}
use pastebin.Database.Pastes.Ops.{has_id, get_paste_by_id, create_paste, stamp}
use pastebin.Cache.Memory.{MemoryCache}
use pastebin.Cache.Driver.{memory_driver}
use pastebin.Handler.Cached.{World}
use pastebin.Handler.Serve.{get_paste}
use pastebin.Handler.Create.{pick_id, spell}
use pastebin.Base.Text.{hex}
use pastebin.Handler.Compat.{Wanted, internal_paste, create_paste_internal, len_remove}
use pastebin.Handler.Compat.Forms.{times_unit}
use pastebin.Handler.Request.{from_now}
use pastebin.Base.Int.{add_duration}
use pastebin.Handler.Compat.Removing.{len_remove-create_paste_internal}
use pastebin.Handler.Compat.{hastebin_get}
use pastebin.Handler.Compat.Counting.{uncached, hastebin_get-get_paste}
use pastebin.Tests.Creating.{lib, entropy}
use pastebin.Tests.Data.{db, id_a, sample_codec, cache}

abbrev wanted : Wanted
wanted = record {
  title = [];
  content = codes "hello";
  lang = [];
  visibility = 0;
  burn_after = 1;
  expires_at = none;
}

internal_created :
    (create_paste_internal lib (λ b. b) 90 wanted entropy db).0 ≡ some (codes "ab", codes "0203")
unfolding create_paste_internal internal_paste hex pick_id spell get_paste_by_id create_paste
    statement run_with stamp find_where bytes_eq has_prefix
internal_created = refl

len_remove-create_paste_internal_example :
    ((len_remove
        (λ b. b)
        (codes "ab")
        (codes "0203")
        (create_paste_internal lib (λ b. b) 90 wanted entropy db).1).0
      ≡ none)
    × (find_where
          (has_id (codes "ab"))
          (len_remove
            (λ b. b)
            (codes "ab")
            (codes "0203")
            (create_paste_internal lib (λ b. b) 90 wanted entropy db).1).1.pastes
        ≡ none)
len_remove-create_paste_internal_example =
    len_remove-create_paste_internal lib (λ b. b) 90 wanted entropy 2 (3 ∷ []) (codes "ab")
      (codes "0203") db refl refl internal_created

abbrev caching : World MemoryCache
caching = record {
  db = db;
  cache = some (record cache {
    entries = record { key = codes "pb:paste:c"; value = codes "{}"; expires_at = 60 } ∷ [];
  });
}

-- Lifetimes in seconds, from the instant `10 ^ 19`: one hour, and one that wraps into the past.
lifetimes :
    (from_now (10 ^ 19) (times_unit 1_000_000_000 (parse_int (codes "3600")))
      ≡ some (10 ^ 19 + 3_600_000_000_000))
    × (from_now (10 ^ 19) (times_unit 1_000_000_000 (parse_int (codes "9223372037")))
        ≡ some 776_627_963_290_448_384)
unfolding parse_int digits_from is_digit add_duration
lifetimes = (refl, refl)

hastebin_get-get_paste_example :
    (hastebin_get memory_driver sample_codec 40 id_a (uncached db)).1
    ≡ (get_paste memory_driver sample_codec 40 id_a (uncached db)).1
hastebin_get-get_paste_example = hastebin_get-get_paste memory_driver sample_codec 40 id_a db
