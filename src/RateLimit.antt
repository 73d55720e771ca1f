-- ===== src/RateLimit.antt =====
-- src/server/ratelimit.go: the sliding window of one address, and the limiter over all addresses.
-- Instants are in nanoseconds; a limit below 0 is no different from 0.
pub mod Window
pub mod Sweep
use pastebin.Base.{
  ℕ, ◌+◌, ◌-◌, Bool, true, false, not, List, [], ◌∷◌, ◌++◌, Option, none, some, Bytes, bytes_eq,
  ltb, leb, if◌then◌else◌, length, is_some, find_where, filter_where, delete_where, update_where,
}

-- `t.After(cutoff)`
abbrev pub is_after : ℕ → ℕ → Bool
is_after cutoff t = ltb cutoff t

-- The requests of the bucket that are kept at `now`.
unfoldable pub unexpired : ℕ → ℕ → List ℕ → List ℕ
unexpired window now requests = filter_where (is_after (now - window)) requests

-- `ipBucket.allow`: the answer and the bucket. `stamp` is the second reading of the clock.
unfoldable pub bucket_allow : ℕ → ℕ → ℕ → ℕ → List ℕ → Bool × List ℕ
bucket_allow limit window now stamp requests =
    let valid = unexpired window now requests in
    if leb limit (length valid) then (false, valid) else (true, valid ++ stamp ∷ [])

pub record Bucket : Type 0 where
  pub ip : Bytes
  pub requests : List ℕ

pub record RateLimiter : Type 0 where
  pub buckets : List Bucket
  pub limit : ℕ
  pub window : ℕ

unfoldable pub new_rate_limiter : ℕ → ℕ → RateLimiter
new_rate_limiter limit window = record { buckets = []; limit = limit; window = window }

abbrev pub has_ip : Bytes → Bucket → Bool
has_ip ip b = bytes_eq b.ip ip

-- The requests of the bucket for the address; a missing bucket is made, and is empty.
abbrev pub requests_of : Option Bucket → List ℕ
requests_of none = []
requests_of (some b) = b.requests

abbrev pub put_bucket : Bytes → List ℕ → Option Bucket → List Bucket → List Bucket
put_bucket ip requests none buckets = record { ip = ip; requests = requests } ∷ buckets
put_bucket ip requests (some b) buckets =
    update_where (has_ip ip) (λ b'. record b' { requests = requests }) buckets

-- `rateLimiter.allow`
unfoldable pub limiter_allow : ℕ → ℕ → Bytes → RateLimiter → Bool × RateLimiter
limiter_allow now stamp ip rl =
    let found = find_where (has_ip ip) rl.buckets in
    let r = bucket_allow rl.limit rl.window now stamp (requests_of found) in
    (r.0, record rl { buckets = put_bucket ip r.1 found rl.buckets })

unfoldable pub update_limit : ℕ → RateLimiter → RateLimiter
update_limit new_limit rl = record rl { limit = new_limit }

-- The inner loop of `gc`: is a request still in the window?
unfoldable pub is_active : ℕ → List ℕ → Bool
is_active cutoff requests = is_some (find_where (is_after cutoff) requests)

-- One round of `gc`.
unfoldable pub gc : ℕ → RateLimiter → RateLimiter
gc now rl = record rl {
  buckets = delete_where (λ b. not (is_active (now - rl.window) b.requests)) rl.buckets;
}
