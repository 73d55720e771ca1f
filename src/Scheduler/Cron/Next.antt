-- ===== src/Scheduler/Cron/Next.antt =====
-- src/scheduler/cron.go: the sets of values of a schedule, and `Next`. The times of its loop are whole minutes,
-- counted from the year 1; the location, whose clock may shift, is a parameter.
pub mod Skips
pub mod First
pub mod Shifts
use pastebin.Base.{
  ℕ, zero, suc, ◌≡◌, ◌+◌, ◌-◌, ◌*◌, ◌/◌, ◌%◌, Bool, true, false, not, ◌&&◌, ◌||◌, Option, none,
  some, Bytes, if◌then◌else◌, ltb, leb,
}
use pastebin.Calendar.{year_of, month_of, day_of, weekday_of, first_of}

pub record FieldSet : Type 0 where
  pub bits : ℕ → Bool
  pub star : Bool

unfoldable pub contains : FieldSet → ℕ → Bool
contains f v = if f.star then true else if leb 64 v then false else f.bits v

pub record CronExpr : Type 0 where
  pub raw : Bytes
  pub minute : FieldSet
  pub hour : FieldSet
  pub dom : FieldSet
  pub month : FieldSet
  pub dow : FieldSet

-- The day of a minute, and its hour and minute.
abbrev pub day_at : ℕ → ℕ
day_at n = n / 1440

abbrev pub hour_at : ℕ → ℕ
hour_at n = n / 60 % 24

abbrev pub minute_at : ℕ → ℕ
minute_at n = n % 60

unfoldable pub day_matches : CronExpr → ℕ → Bool
unfolding contains day_of weekday_of
day_matches c d =
    let dom_ok = contains c.dom (day_of d) in
    let dow_ok = contains c.dow (weekday_of d) in
    if c.dom.star && c.dow.star
    then true
    else if c.dom.star
    then dow_ok
    else if c.dow.star
    then dom_ok
    else dom_ok || dow_ok

-- The loop of `advanceToMonth`: a year and a month, if there is one within the rounds left.
unfoldable pub find_month : FieldSet → ℕ → ℕ → ℕ → Option (ℕ × ℕ)
unfolding contains
find_month f zero year m = none
find_month f (suc left) year m =
    let m' = if ltb 12 m then 1 else m in
    let year' = if ltb 12 m then suc year else year in
    let rest = find_month f left year' (suc m') in if contains f m' then some (year', m') else rest

-- The loops of `advanceToHour` and `advanceToMinute`: the next value of the set, or the end of the day or hour.
unfoldable pub find_value : FieldSet → ℕ → ℕ → ℕ → ℕ
unfolding contains
find_value f size zero v = size
find_value f size (suc left) v =
    let rest = find_value f size left (suc v) in
    if leb size v then size else if contains f v then v else rest

-- A location: its clock at an instant, and `time.Date`, the instant of a time of its clock. Both are minutes from
-- the year 1, the instants by the standard time of the location.
pub record Zone : Type 0 where
  pub local : ℕ → ℕ
  pub date : ℕ → ℕ

-- What the loop of `Next` ends in.
pub data Outcome : Type 0 where
  found : ℕ → Outcome
  beyond out_of_fuel : Outcome

-- `4 * 365 * 24 * time.Hour`
abbrev pub horizon : ℕ
horizon = 2_102_400

abbrev pub minute_length : ℕ
minute_length = 60_000_000_000

abbrev pub time_of : Outcome → ℕ
time_of (found n) = n * minute_length
time_of _ = 0

module _ (z : Zone) where
  abbrev pub month_target : ℕ → Option (ℕ × ℕ) → ℕ
  month_target n none = n + 365 * 1440
  month_target n (some (year, m)) = z.date (first_of year m * 1440)

  unfoldable pub advance_to_month : ℕ → FieldSet → ℕ
  unfolding find_month year_of month_of first_of
  advance_to_month n f =
      let d = day_at (z.local n) in month_target n (find_month f 12 (year_of d) (month_of d + 1))

  abbrev pub next_day : ℕ → ℕ
  next_day n = z.date ((day_at (z.local n) + 1) * 1440)

  unfoldable pub advance_to_hour : ℕ → FieldSet → ℕ
  unfolding find_value
  advance_to_hour n f =
      z.date (day_at (z.local n) * 1440) + find_value f 24 24 (suc (hour_at (z.local n))) * 60

  unfoldable pub advance_to_minute : ℕ → FieldSet → ℕ
  unfolding find_value
  advance_to_minute n f =
      z.date (z.local n / 60 * 60) + find_value f 60 60 (suc (minute_at (z.local n)))

  unfoldable pub next_from : CronExpr → ℕ → ℕ → ℕ → Outcome
  unfolding contains month_of day_matches advance_to_month advance_to_hour advance_to_minute
  next_from c limit zero n = out_of_fuel
  next_from c limit (suc fuel) n =
      let by_month = next_from c limit fuel (advance_to_month n c.month) in
      let by_day = next_from c limit fuel (next_day n) in
      let by_hour = next_from c limit fuel (advance_to_hour n c.hour) in
      let by_minute = next_from c limit fuel (advance_to_minute n c.minute) in
      if not (ltb n limit)
      then beyond
      else if not (contains c.month (month_of (day_at (z.local n))))
      then by_month
      else if not (day_matches c (day_at (z.local n)))
      then by_day
      else if not (contains c.hour (hour_at (z.local n)))
      then by_hour
      else if not (contains c.minute (minute_at (z.local n)))
      then by_minute
      else found n

  -- With a clock that does not shift a round of the loop moves on by a minute at least; one more ends it.
  unfoldable pub next_minute : CronExpr → ℕ → Outcome
  unfolding next_from
  next_minute c t = let n = t / minute_length + 1 in next_from c (n + horizon) (suc horizon) n

  -- `Next`, of an instant in nanoseconds from the year 1; 0 is the zero time.
  unfoldable pub next : CronExpr → ℕ → ℕ
  unfolding next_minute
  next c t = time_of (next_minute c t)

-- A clock that does not shift: a fixed offset.
abbrev pub steady : Zone
steady = record { local = λ n. n; date = λ m. m }

abbrev pub IsSteady : Zone → Type 0
IsSteady z = ((n : ℕ) → z.local n ≡ n) × ((m : ℕ) → z.date m ≡ m)
