-- ===== src/Calendar.antt =====
-- The Gregorian calendar of Go's `time`, on days counted from 1 January of the year 1.
pub mod Months
use mathlib.Core.Path.{subst}
use pastebin.Base.{
  ℕ, zero, suc, ◌+◌, ◌-◌, ◌*◌, ◌/◌, ◌%◌, ◌≤◌, ◌<◌, ◌≡◌, refl, sym, Bool, true, false, not, ◌&&◌,
  ◌||◌, inl, inr, arith, ap, ◌∙◌, if◌then◌else◌, ltb, leb, ◌==◌, Bool-cases,
}

unfoldable pub is_leap : ℕ → Bool
is_leap y = ((y % 4 == 0) && not (y % 100 == 0)) || (y % 400 == 0)

-- The days before 1 January of the year behind `y`.
unfoldable pub year_start : ℕ → ℕ
year_start y = 365 * y + y / 4 - y / 100 + y / 400

-- The days of a year before its month `m`; before the thirteenth stands the whole year.
unfoldable pub days_before : Bool → ℕ → ℕ
days_before leap m =
    let l = if leap then 1 else 0 in
    if ltb m 2
    then 0
    else if m == 2
    then 31
    else if m == 3
    then 59 + l
    else if m == 4
    then 90 + l
    else if m == 5
    then 120 + l
    else if m == 6
    then 151 + l
    else if m == 7
    then 181 + l
    else if m == 8
    then 212 + l
    else if m == 9
    then 243 + l
    else if m == 10
    then 273 + l
    else if m == 11
    then 304 + l
    else if m == 12
    then 334 + l
    else 365 + l

-- The month of a day of the year.
unfoldable pub month_at : Bool → ℕ → ℕ
month_at leap n =
    let l = if leap then 1 else 0 in
    if ltb n 31
    then 1
    else if ltb n (59 + l)
    then 2
    else if ltb n (90 + l)
    then 3
    else if ltb n (120 + l)
    then 4
    else if ltb n (151 + l)
    then 5
    else if ltb n (181 + l)
    then 6
    else if ltb n (212 + l)
    then 7
    else if ltb n (243 + l)
    then 8
    else if ltb n (273 + l)
    then 9
    else if ltb n (304 + l)
    then 10
    else if ltb n (334 + l)
    then 11
    else 12

-- The number of years before the year of day `n`, upward from a guess.
unfoldable pub years_from : ℕ → ℕ → ℕ → ℕ
unfolding year_start
years_from zero y n = y
years_from (suc fuel) y n =
    let later = years_from fuel (suc y) n in if leb (year_start (suc y)) n then later else y

unfoldable pub years_before : ℕ → ℕ
unfolding years_from
years_before n = years_from (suc n) (n / 366) n

-- `t.Year()`, `t.Month()` and `t.Day()` of a day, and `t.Weekday()`, 0 for Sunday.
unfoldable pub year_of : ℕ → ℕ
unfolding years_before
year_of n = years_before n + 1

unfoldable pub month_of : ℕ → ℕ
unfolding year_of year_start is_leap month_at
month_of n = month_at (is_leap (year_of n)) (n - year_start (year_of n - 1))

-- `time.Date(year, month, 1, …)`, for a month from 1 to 12: its day.
unfoldable pub first_of : ℕ → ℕ → ℕ
unfolding year_start is_leap days_before
first_of year month = year_start (year - 1) + days_before (is_leap year) month

unfoldable pub day_of : ℕ → ℕ
unfolding year_of month_of first_of
day_of n = n - first_of (year_of n) (month_of n) + 1

unfoldable pub weekday_of : ℕ → ℕ
weekday_of n = (n + 1) % 7
