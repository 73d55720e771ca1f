-- ===== src/Scheduler/Cron/Next/Shifts.antt =====
-- What a clock that is set back does to the loop of `Next`.
use pastebin.Base.{ℕ, ◌≡◌, true, false}
use pastebin.Calendar.{month_of}
use pastebin.Scheduler.Cron.Next.{contains, CronExpr, day_matches}

-- The schedule runs at two o'clock and not before, on the day.
pub record IsAtTwo (c : CronExpr) (d : ℕ) : Type 0 where
  pub month : contains c.month (month_of d) ≡ true
  pub day : day_matches c d ≡ true
  pub midnight : contains c.hour 0 ≡ false
  pub one : contains c.hour 1 ≡ false
  pub two : contains c.hour 2 ≡ true
