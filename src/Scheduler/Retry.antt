-- ===== src/Scheduler/Retry.antt =====
-- The retries of a task that fails, and its counters.
use pastebin.Base.{
  ℕ, suc, ◌+◌, ◌*◌, ◌^◌, ◌≤◌, ◌<◌, ◌≡◌, refl, Bool, true, List, [], ◌∷◌, Option, some, Bytes, ltb,
  if◌then◌else◌, is_some, length, arith, count_where, Bool-cases, inl, inr,
}
use native.Mathlib.Nat.{mul-le-mul_left, pow-le-pow_right}
use pastebin.Scheduler.{Entry}
use pastebin.Base.Int.{add_duration}
use pastebin.Scheduler.Execute.{finish, shift_left}

-- A run: its start, its end, and its error message where it failed.
pub record Run : Type 0 where
  pub start : ℕ
  pub finished : ℕ
  pub failure : Option Bytes

unfoldable pub after_runs : List Run → Entry → Entry
unfolding finish
after_runs [] e = e
after_runs (r ∷ rs) e = after_runs rs (finish r.start r.finished r.failure e)

abbrev pub is_failure : Run → Bool
is_failure r = is_some r.failure

-- Runs that all fail, the last one first.
pub record Failed : Type 0 where
  pub start : ℕ
  pub finished : ℕ
  pub message : Bytes

unfoldable pub after_failures : List Failed → Entry → Entry
unfolding finish
after_failures [] e = e
after_failures (r ∷ rs) e = finish r.start r.finished (some r.message) (after_failures rs e)

-- Every run adds one to exactly one of the two counters, and the failures are counted by the second.
pub runs_accounted :
    (rs : List Run) (e : Entry)
    → ((after_runs rs e).run_count + (after_runs rs e).fail_count
        ≡ e.run_count + e.fail_count + length rs)
      × ((after_runs rs e).fail_count ≡ e.fail_count + count_where is_failure rs)
unfolding after_runs finish count_where
runs_accounted [] e = (omega arith, omega arith)
runs_accounted (r ∷ rs) e =
    ground (arith, runs_accounted rs (finish r.start r.finished r.failure e))

after_failures-fields :
    (rs : List Failed) (e : Entry)
    → e.retry_on_fail ≡ true
    → e.retry_attempt ≡ 0
    → length rs ≤ e.retry_max
    → ((after_failures rs e).retry_attempt ≡ length rs)
      × ((after_failures rs e).retry_on_fail ≡ true)
      × ((after_failures rs e).retry_max ≡ e.retry_max)
      × ((after_failures rs e).retry_base ≡ e.retry_base)
      × ((after_failures rs e).schedule ≡ e.schedule)
unfolding after_failures finish
after_failures-fields [] e on first h = (first, on, refl, refl, refl)
after_failures-fields (r ∷ rs) e on first h =
    ground (arith, after_failures-fields rs e on first (omega (arith, h)))

delay-exact :
    (t base m n : ℕ)
    → m ≤ n
    → base * 2 ^ n < 2 ^ 63
    → add_duration t (shift_left base m) ≡ t + base * 2 ^ m
unfolding add_duration shift_left
delay-exact t base m n h bound =
    let small : base * 2 ^ m < 2 ^ 63 =
      omega (arith, bound, mul-le-mul_left base (pow-le-pow_right {n = 2} (omega arith) h)) in
    ground (arith, small)

-- A task with retries that has none behind it fails `n` times and then once more, where `n` is at most its
-- maximum and the longest delay fits 63 bits. While `n` is below the maximum, the last failure is retried
-- `base * 2 ^ n` after its end, as attempt `n + 1`; at the maximum the next run is the schedule's, and the
-- attempts start again from 0.
pub backoff :
    (r : Failed) (rs : List Failed) (e : Entry)
    → e.retry_on_fail ≡ true
    → e.retry_attempt ≡ 0
    → length rs ≤ e.retry_max
    → e.retry_base * 2 ^ e.retry_max < 2 ^ 63
    → ((after_failures (r ∷ rs) e).next_run ≡ (
        if ltb (length rs) e.retry_max
        then r.finished + e.retry_base * 2 ^ length rs
        else e.schedule.next r.finished))
      × ((after_failures (r ∷ rs) e).retry_attempt
          ≡ (if ltb (length rs) e.retry_max then suc (length rs) else 0))
unfolding after_failures finish
backoff r rs e on first h bound =
    let (a, b, c, d, s) = after_failures-fields rs e on first h in
    let exact = delay-exact r.finished e.retry_base (length rs) e.retry_max h bound in
    elim (Bool-cases (ltb (length rs) e.retry_max)) [
      | inl below ↦ rw (a, b, c, d, s, below) (exact, omega arith)
      | inr above ↦ rw (a, b, c, d, s, above) (refl, refl)
    ]
