-- ===== src/Scheduler/Cron/Field/Daily.antt =====
-- The next run of a task that runs once a day.
use mathlib.Core.Option.{Option}
use pastebin.Base.{
  ℕ, ◌+◌, ◌*◌, ◌/◌, ◌%◌, ◌≡◌, refl, sym, ◌∙◌, arith, Bytes, codes, bytes_eq, ==_iff, ◌==◌,
}
use pastebin.Base.Int.{ℤ}
use pastebin.Base.Text.{trim_space}
use pastebin.Scheduler.Cron.Next.{
  contains, CronExpr, Zone, IsSteady, day_matches, minute_length, next,
}
use pastebin.Scheduler.Cron.Next.Skips.{matches}
use pastebin.Scheduler.Cron.Next.First.{next_earliest}
use pastebin.Scheduler.Cron.Field.{star, single, set_bit, of_cron, schedule, parse_schedule}

abbrev pub daily : CronExpr
daily = record {
  raw = codes "@daily";
  minute = single 0;
  hour = single 0;
  dom = star;
  month = star;
  dow = star;
}

-- Midnight matches, and nothing else does.
daily_midnight : (x : ℕ) → matches daily x ≡ (x % 1440 == 0)
unfolding matches day_matches contains star single set_bit
daily_midnight x = ground arith

next-daily :
    (z : Zone) (t : ℕ)
    → IsSteady z
    → next z daily t ≡ (t / (1440 * minute_length) + 1) * (1440 * minute_length)
next-daily z t h =
    let x = (t / (1440 * minute_length) + 1) * 1440 in
    let (m, a, b, d, e) =
      next_earliest z daily t x h (omega arith) (omega arith) (daily_midnight x ∙ ground arith) in
    let midnight : m % 1440 ≡ 0 = (==_iff (m % 1440) 0).0 (sym (daily_midnight m) ∙ e) in
    a ∙ omega arith

-- `@daily` is a schedule, whatever `time.ParseDuration` does, and in a location whose clock does not shift its next
-- run from any instant is the next midnight behind it.
pub daily-next :
    (z : Zone) (go_duration : Bytes → Option ℤ) (t : ℕ)
    → IsSteady z
    → (parse_schedule z go_duration (codes "@daily") ≡ schedule (of_cron z daily))
      × ((of_cron z daily).next t ≡ (t / (1440 * minute_length) + 1) * (1440 * minute_length))
unfolding parse_schedule of_cron bytes_eq trim_space
daily-next z go_duration t h = (refl, next-daily z t h)
