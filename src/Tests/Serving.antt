-- ===== src/Tests/Serving.antt =====
-- Tests of the reading handlers.
use pastebin.Base.{◌≡◌, refl, false, [], ◌∷◌, some, arith, find_where, bytes_eq}
use pastebin.Database.State.{statement, run_with}
use pastebin.Database.Pastes.Ops.{get_paste_by_id}
use pastebin.Cache.Memory.{get, peek}
use pastebin.Cache.Driver.{memory_driver, nothing_held}
use pastebin.Handler.Codes.{not_found}
use pastebin.Handler.Cached.{get_cached_paste, cache_paste}
use pastebin.Handler.Serve.{refused, has_expired, load_live_paste, get_paste}
use pastebin.Handler.Serve.Reading.{load-unexpired, get_all, showings, requests_burn, IsUncached}
use pastebin.Tests.Data.{id_a, id_b, burning, expiring, world, sample_codec, empty_cache}

load-unexpired_example : has_expired 40 expiring ≡ false
unfolding load_live_paste get_cached_paste cache_paste get_paste_by_id statement run_with find_where
    bytes_eq get peek has_expired
load-unexpired_example = load-unexpired memory_driver sample_codec 40 id_b world {q = expiring} refl

uncached : IsUncached memory_driver sample_codec id_a (some empty_cache)
unfolding peek find_where
uncached raw h = absurd (nothing_held h)

requests_burn_example :
    ((get_all memory_driver sample_codec (40 ∷ 41 ∷ []) id_a world).0
      ≡ showings burning (40 ∷ 41 ∷ []))
    × ((get_paste memory_driver sample_codec 42 id_a
          (get_all memory_driver sample_codec (40 ∷ 41 ∷ []) id_a world).1).0
        ≡ refused not_found)
unfolding find_where bytes_eq has_expired
requests_burn_example =
    requests_burn memory_driver sample_codec id_a (40 ∷ 41 ∷ []) 42 world {p = burning} refl
      uncached refl (omega arith) (refl, (refl, tt)) refl
