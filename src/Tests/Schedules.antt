-- ===== src/Tests/Schedules.antt =====
-- Tests of the schedules.
use pastebin.Base.{
  ℕ, [], ltb, if◌then◌else◌, ◌-◌, ◌+◌, ◌*◌, ◌/◌, ◌≤◌, ◌<◌, ◌≡◌, ◌⊎◌, refl, true, false, codes,
  arith, bytes_eq,
}
use pastebin.Base.Text.{split, split_from, has_prefix, cut, parse_int, digits_from, is_digit}
use pastebin.Calendar.{year_of, month_of, day_of, weekday_of}
use pastebin.Scheduler.Cron.Next.{
  FieldSet, CronExpr, contains, day_matches, horizon, minute_length, next_minute, next, Zone,
  steady, next_from, found, advance_to_hour, find_value, advance_to_month, advance_to_minute,
  find_month,
}
use pastebin.Scheduler.Cron.Next.Skips.{matches}
use pastebin.Scheduler.Cron.Next.First.{outcome, first_match, next-first_match, next_earliest}
use pastebin.Scheduler.Cron.Field.{
  no_bits, set_bit, single, star, panics, parse_field, parse_parts, parse_part, set_range,
  set_steps,
}
use pastebin.Scheduler.Cron.Field.Bounds.{parse_field_bounded}
use pastebin.Scheduler.Cron.Field.Daily.{daily}

-- 26 November 2026, a Thursday, is day 739,945 from the first of the year 1.
civil_day :
    (year_of 739_945 ≡ 2026)
    × (month_of 739_945 ≡ 11)
    × (day_of 739_945 ≡ 26)
    × (weekday_of 739_945 ≡ 4)
unfolding year_of month_of day_of weekday_of
civil_day = (refl, refl, refl, refl)

-- 29 February at midnight.
abbrev leap_day : CronExpr
leap_day = record {
  raw = codes "0 0 29 2 *";
  minute = single 0;
  hour = single 0;
  dom = single 29;
  month = single 2;
  dow = star;
}

-- From 29 February 2024 the next run of that schedule is never, since 2028 is a day beyond the horizon.
leap_day_missed : next steady leap_day (738_944 * 86_400_000_000_000) ≡ 0
unfolding next contains star single set_bit
leap_day_missed = refl

-- A step that runs out of 64 bits ends the program.
step_out_of_bits : parse_field 1 31 (codes "*/9223372036854775807") ≡ panics
unfolding parse_field parse_parts parse_part set_steps set_bit bytes_eq split split_from has_prefix
    parse_int digits_from is_digit
step_out_of_bits = refl

next-first_match_example :
    next_minute steady daily 5 ≡ outcome (first_match daily horizon (5 / minute_length + 1))
next-first_match_example = next-first_match steady daily 5 (λ n. refl, λ m. refl)

next_earliest_example :
    (m : ℕ) × (next steady daily 5 ≡ m * minute_length)
    × (5 < m * minute_length)
    × (m ≤ 1440)
    × (matches daily m ≡ true)
unfolding matches contains day_matches single star set_bit month_of day_of
next_earliest_example =
    next_earliest steady daily 5 1440 (λ n. refl, λ m. refl) (omega arith) (omega arith) refl

-- New York around 1 November 2026, the day 739,920: by the standard time, the clock is an hour ahead until one
-- o'clock, when it shows two and is set back.
abbrev autumn : Zone
autumn = record {
  local = λ n. if ltb n (739_920 * 1440 + 60) then n + 60 else n;
  date = λ m. if ltb m (739_920 * 1440 + 120) then m - 60 else m;
}

abbrev at : ℕ → CronExpr
at h = record { raw = []; minute = single 0; hour = single h; dom = star; month = star; dow = star }

-- New York around 8 March 2026, the day 739,682: at two o'clock the clock is set to three.
abbrev spring : Zone
spring = record {
  local = λ n. if ltb n (739_682 * 1440 + 120) then n else n + 60;
  date = λ m. if ltb m (739_682 * 1440 + 120) then m else m - 60;
}

-- Three o'clock of that day is skipped: the search from its midnight answers with the day behind it.
three_skipped :
    (spring.local (739_682 * 1440 + 120) ≡ 739_682 * 1440 + 180)
    × (next_from spring (at 3) (739_682 * 1440 + horizon) 10 (739_682 * 1440)
        ≡ found (739_683 * 1440 + 120))
unfolding next_from contains day_matches single star set_bit advance_to_hour find_value
    advance_to_month advance_to_minute find_month month_of
three_skipped = (refl, refl)

field_set : FieldSet
field_set = set_range 3 1 no_bits

parse_field_bounded_example :
    ((w : ℕ) × (field_set.bits w ≡ true)) × ((field_set.bits 7 ≡ false) ⊎ ((0 ≤ 7) × (7 ≤ 59)))
unfolding field_set set_range set_bit parse_field parse_parts parse_part bytes_eq split split_from
    has_prefix cut parse_int digits_from is_digit
parse_field_bounded_example =
    parse_field_bounded 0 59 (codes "1-3") 7 {f = field_set} (omega arith) refl refl
