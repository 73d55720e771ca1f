-- ===== src/Server/Stats.antt =====
-- src/server/server.go: requestStats, the requests of the last hours in a ring of 24 counters. A request reads the
-- clock before it takes the lock; here a request is one step.
pub mod Ring
use pastebin.Base.{ℕ, zero, suc, ◌+◌, ◌%◌, Bool, true, false, List, [], ◌∷◌, if◌then◌else◌, ◌==◌}

pub record RequestStats : Type 0 where
  pub total : ℕ
  pub buckets : ℕ → ℕ  -- at the indices below 24
  pub last_hour : ℕ

abbrev pub new_stats : RequestStats
new_stats = record { total = 0; buckets = λ i. 0; last_hour = 0 }

unfoldable pub store : ℕ → ℕ → (ℕ → ℕ) → ℕ → ℕ
store i v buckets j = if j == i then v else buckets j

-- The loop that clears the buckets from `cur` on, until the one behind `h`. The indices run round in 24 rounds.
unfoldable pub clear : ℕ → ℕ → ℕ → (ℕ → ℕ) → ℕ → ℕ
unfolding store
clear zero cur stop buckets = buckets
clear (suc n) cur stop buckets =
    let rest = clear n ((cur + 1) % 24) stop (store cur 0 buckets) in
    if cur == stop then buckets else rest

-- The counters behind the lock, at the hour `h` of the day.
unfoldable pub turn : ℕ → RequestStats → RequestStats
unfolding clear
turn h rs = if h == rs.last_hour then rs else record rs {
  buckets = clear 24 ((rs.last_hour + 1) % 24) ((h + 1) % 24) rs.buckets;
  last_hour = h;
}

unfoldable pub inc : ℕ → RequestStats → RequestStats
unfolding turn store
inc h rs =
    let next = turn h (record rs { total = rs.total + 1 }) in
    record next { buckets = store h (next.buckets h + 1) next.buckets }

-- The sum of the first buckets.
unfoldable pub sum_below : ℕ → (ℕ → ℕ) → ℕ
sum_below zero buckets = 0
sum_below (suc n) buckets = sum_below n buckets + buckets n

unfoldable pub last_24h : RequestStats → ℕ
unfolding sum_below
last_24h rs = sum_below 24 rs.buckets
