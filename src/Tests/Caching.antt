-- ===== src/Tests/Caching.antt =====
-- Tests of the memory cache and of the rate limiter.
use pastebin.Base.{
  some, ℕ, List, ◌≡◌, refl, [], ◌∷◌, none, codes, arith, ◌≤◌, ◌-◌, find_where, count_where,
  bytes_eq,
}
use pastebin.Base.Int.{pos, negsuc}
use pastebin.Cache.Memory.{serve, expiry, get, set, peek, is_stale}
use pastebin.Cache.Memory.Laws.{stored_entry_lost}
use pastebin.Cache.Memory.{new_memory_cache}
use pastebin.Cache.Memory.Refines.{
  CacheCall, lookup, store, sweep, run_cache, run_store, run_cache-run_store,
}
use pastebin.RateLimit.{is_after, Bucket, RateLimiter}
use pastebin.RateLimit.Window.{Attempt, run, window-le-limit}
use pastebin.Tests.Data.{cache, key_k, row_k}

stored_entry_lost_example :
    ((get 72 key_k (set 70 key_k (codes "w") (pos 5) cache)).0 ≡ some (codes "w"))
    × ((serve 70 key_k (set 70 key_k (codes "w") (pos 5) cache) (peek key_k cache)).0 ≡ none)
    × ((get 72 key_k
          (serve 70 key_k (set 70 key_k (codes "w") (pos 5) cache) (peek key_k cache)).1).0
        ≡ none)
unfolding peek is_stale find_where bytes_eq expiry
stored_entry_lost_example =
    stored_entry_lost 70 70 72 key_k (codes "w") (pos 5) cache cache {e = row_k} refl refl
      (omega arith)

abbrev at : ℕ → Attempt
at t = record { now = t; stamp = t }

window-le-limit_example :
    count_where (is_after (13 - 10)) (run 2 10 (at 1 ∷ at 2 ∷ at 3 ∷ at 12 ∷ []) [] []).0 ≤ 2
window-le-limit_example =
    window-le-limit 2 10 (at 1 ∷ at 2 ∷ at 3 ∷ at 12 ∷ []) 13
      (omega arith, (omega arith, (omega arith, (omega arith, tt)))) (omega arith)

abbrev bucket_a : Bucket
bucket_a = record { ip = codes "1.1.1.1"; requests = 3 ∷ 4 ∷ [] }

abbrev limiter : RateLimiter
limiter = record { buckets = bucket_a ∷ []; limit = 2; window = 10 }

abbrev calls : List (ℕ × CacheCall)
calls =
    (1, store key_k (codes "v") (pos 5))
    ∷ (3, lookup key_k)
    ∷ (7, lookup key_k)
    ∷ (8, store key_k (codes "w") (negsuc 0))
    ∷ (9, sweep)
    ∷ (9, lookup key_k)
    ∷ []

run_cache-run_store_example :
    run_cache calls (new_memory_cache (codes "pb:") (pos 100))
    ≡ run_store (pos 100) calls (λ key. none)
run_cache-run_store_example =
    run_cache-run_store (codes "pb:") (pos 100) 1 calls
      (omega arith, (omega arith, (omega arith, (omega arith, (omega arith, (omega arith, tt))))))
