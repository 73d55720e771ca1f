-- ===== src/Logging/Periods.antt =====
-- src/logging/rotate.go: periodKey, and the dates in the names of rotated files. An instant is the number of
-- nanoseconds since Go's zero time.
use pastebin.Base.{ℕ, ◌+◌, ◌-◌, ◌/◌, ◌%◌, [], ◌∷◌, ◌++◌, Bytes, codes, if◌then◌else◌, ltb}
use pastebin.Base.Decimal.{decimal}
use pastebin.Calendar.{year_of, month_of, day_of, first_of}
use pastebin.Logging.{Interval, no_interval, daily, weekly, monthly, yearly}

-- Two and four digits.
abbrev pub two : ℕ → Bytes
two n = (b'0' + n / 10 % 10) ∷ (b'0' + n % 10) ∷ []

abbrev pub four : ℕ → Bytes
four n = if ltb n 10000 then (b'0' + n / 1000 % 10) ∷ (b'0' + n / 100 % 10) ∷ two n else decimal n

abbrev pub day_number : ℕ → ℕ
day_number t = t / 86400000000000

-- The seconds of the day.
abbrev pub second_of : ℕ → ℕ
second_of t = t / 1000000000 % 86400

unfoldable pub date_text : ℕ → Bytes
date_text n = four (year_of n) ++ (b'-' ∷ (two (month_of n) ++ (b'-' ∷ two (day_of n))))

unfoldable pub clock_text : ℕ → Bytes
clock_text s = two (s / 3600) ++ (two (s / 60 % 60) ++ two (s % 60))

-- `t.ISOWeek()`: the year of the Thursday of the week, and the number of that Thursday in it.
abbrev pub thursday : ℕ → ℕ
thursday n = n - n % 7 + 3

unfoldable pub week_text : ℕ → Bytes
week_text n =
    let y = year_of (thursday n) in
    four y ++ (codes "-W" ++ two ((thursday n - first_of y 1) / 7 + 1))

unfoldable pub period_key : Interval → ℕ → Bytes
period_key daily t = date_text (day_number t)
period_key weekly t = week_text (day_number t)
period_key monthly t = four (year_of (day_number t)) ++ (b'-' ∷ two (month_of (day_number t)))
period_key yearly t = four (year_of (day_number t))
period_key no_interval t = []
