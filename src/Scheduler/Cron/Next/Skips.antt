-- ===== src/Scheduler/Cron/Next/Skips.antt =====
-- What the steps of `Next` skip: no minute that matches.
use mathlib.Core.Path.{subst}
use pastebin.Base.{
  ℕ, zero, suc, ◌+◌, ◌-◌, ◌*◌, ◌%◌, ◌≤◌, ◌<◌, ◌≡◌, refl, sym, ap, ◌∙◌, Bool, false, ◌&&◌, Option,
  none, some, inl, inr, arith, if◌then◌else◌, ltb, leb, Bool-cases,
}
use pastebin.Calendar.{year_of, month_of}
use pastebin.Calendar.Months.{
  month_count, month_count-at, month_count-sum, month_count-between, month_count-before,
  first_of-count,
}
use pastebin.Scheduler.Cron.Next.{
  FieldSet, contains, CronExpr, steady, day_at, hour_at, minute_at, day_matches, find_month,
  month_target, advance_to_month, find_value, advance_to_hour, advance_to_minute,
}

-- The minute matches every field of the schedule.
unfoldable pub matches : CronExpr → ℕ → Bool
matches c n =
    contains c.month (month_of (day_at n))
    && day_matches c (day_at n)
    && contains c.hour (hour_at n)
    && contains c.minute (minute_at n)

-- A step to a later minute that skips no match.
pub record IsSkip (c : CronExpr) (n r : ℕ) : Type 0 where
  pub later : n < r
  pub blank : (x : ℕ) → n ≤ x → x < r → matches c x ≡ false

-- No value from `v` on and before `r` passes the test.
abbrev Misses : (ℕ → Bool) → ℕ → ℕ → Type 0
Misses g v r = (x : ℕ) → v ≤ x → x < r → g x ≡ false

Misses-more : (g : ℕ → Bool) (v r : ℕ) → g v ≡ false → Misses g (suc v) r → Misses g v r
Misses-more g v r h more x low high = elim (Bool-cases (ltb v x)) [
  | inl e ↦ more x (ground arith) high
  | inr e ↦ subst (λ y. g y ≡ false) (ground arith) h
]

Misses-none : (g : ℕ → Bool) (v r : ℕ) → r ≤ v → Misses g v r
Misses-none g v r h x low high = absurd (omega arith)

find_value-skips :
    (f : FieldSet) (size left v : ℕ)
    → v ≤ size
    → size ≤ v + left
    → (v ≤ find_value f size left v)
      × (find_value f size left v ≤ size)
      × Misses (contains f) v (find_value f size left v)
unfolding find_value
find_value-skips f size zero v low high =
    (low, omega arith, Misses-none (contains f) v size (omega arith))
find_value-skips f size (suc left) v low high = elim (Bool-cases (leb size v)) [
  | inl e ↦ rw e (low, omega arith, Misses-none (contains f) v size (ground arith))
  | inr e ↦ rw e (elim (Bool-cases (contains f v)) [
    | inl held ↦ rw held (omega arith, low, Misses-none (contains f) v v (omega arith))
    | inr missing ↦
        let (a, b, more) = find_value-skips f size left (suc v) (ground arith) (omega arith) in
        rw missing
          (omega arith, b, Misses-more (contains f) v (find_value f size left (suc v)) missing more)
  ])
]

-- The month of a number of months is in the set.
abbrev holds_month : FieldSet → ℕ → Bool
holds_month f k = contains f (k % 12 + 1)

-- What `find_month` answers, from the month number `k` on.
abbrev IsFound : FieldSet → ℕ → ℕ → Option (ℕ × ℕ) → Type 0
IsFound f k left none = Misses (holds_month f) k (k + left)
IsFound f k left (some (year, m)) =
    (1 ≤ year)
    × (1 ≤ m)
    × (m ≤ 12)
    × (k ≤ 12 * (year - 1) + (m - 1))
    × Misses (holds_month f) k (12 * (year - 1) + (m - 1))

IsFound-later :
    (f : FieldSet) (k left : ℕ) (o : Option (ℕ × ℕ))
    → holds_month f k ≡ false
    → IsFound f (suc k) left o
    → IsFound f k (suc left) o
IsFound-later f k left none missing more =
    Misses-more (holds_month f) k (k + suc left) missing (λ x a b. more x a (omega arith))
IsFound-later f k left (some (year, m)) missing (a, b, c, d, more) =
    (a, b, c, omega arith, Misses-more (holds_month f) k (12 * (year - 1) + (m - 1)) missing more)

find_month-IsFound :
    (f : FieldSet) (left year m k : ℕ)
    → 1 ≤ year
    → 1 ≤ m
    → m ≤ 13
    → k ≡ 12 * (year - 1) + (m - 1)
    → IsFound f k left (find_month f left year m)
unfolding find_month
find_month-IsFound f zero year m k y low high same =
    Misses-none (holds_month f) k (k + 0) (omega arith)
find_month-IsFound f (suc left) year m k y low high same =
    let m' = if ltb 12 m then 1 else m in
    let year' = if ltb 12 m then suc year else year in
    let ok_year : 1 ≤ year' = ground arith in
    let ok_low : 1 ≤ m' = ground arith in
    let ok_high : m' ≤ 12 = ground arith in
    let now : k ≡ 12 * (year' - 1) + (m' - 1) = ground arith in
    let month : k % 12 + 1 ≡ m' = omega arith in
    elim (Bool-cases (contains f m')) [
      | inl held ↦ rw held (
        ok_year,
        ok_low,
        ok_high,
        omega arith,
        Misses-none (holds_month f) k (12 * (year' - 1) + (m' - 1)) (omega arith),
      )
      | inr missing ↦ rw missing (
          IsFound-later f k left (find_month f left year' (suc m'))
            (ap (contains f) month ∙ missing)
            (find_month-IsFound f left year' (suc m') (suc k) ok_year (omega arith) (omega arith)
              (omega arith)))
    ]

module _ (c : CronExpr) (n : ℕ) where
  -- A minute of a month, of a day, of an hour or of itself that the schedule leaves out does not match.
  month_blank : (x : ℕ) → contains c.month (month_of (day_at x)) ≡ false → matches c x ≡ false
  unfolding matches
  month_blank x h = rw h refl

  day_blank : (x : ℕ) → day_matches c (day_at x) ≡ false → matches c x ≡ false
  unfolding matches
  day_blank x h = ground arith

  hour_blank : (x : ℕ) → contains c.hour (hour_at x) ≡ false → matches c x ≡ false
  unfolding matches
  hour_blank x h = ground arith

  minute_blank : (x : ℕ) → contains c.minute (minute_at x) ≡ false → matches c x ≡ false
  unfolding matches
  minute_blank x h = ground arith

  pub day-IsSkip : day_matches c (day_at n) ≡ false → IsSkip c n ((day_at n + 1) * 1440)
  day-IsSkip h = record {
    later = omega arith;
    blank = λ x low high. day_blank x (subst (λ d. day_matches c d ≡ false) (omega arith) h);
  }

  pub hour-IsSkip :
      contains c.hour (hour_at n) ≡ false → IsSkip c n (advance_to_hour steady n c.hour)
  unfolding advance_to_hour
  hour-IsSkip h =
      let (a, b, skipped) =
        find_value-skips c.hour 24 24 (suc (hour_at n)) (omega arith) (omega arith) in
      let all_skipped =
        Misses-more (contains c.hour) (hour_at n) (find_value c.hour 24 24 (suc (hour_at n))) h
          skipped in
      record {
        later = omega arith;
        blank = λ x low high. hour_blank x (all_skipped (hour_at x) (omega arith) (omega arith));
      }

  pub minute-IsSkip :
      contains c.minute (minute_at n) ≡ false → IsSkip c n (advance_to_minute steady n c.minute)
  unfolding advance_to_minute
  minute-IsSkip h =
      let (a, b, skipped) =
        find_value-skips c.minute 60 60 (suc (minute_at n)) (omega arith) (omega arith) in
      let all_skipped =
        Misses-more (contains c.minute) (minute_at n)
          (find_value c.minute 60 60 (suc (minute_at n))) h skipped in
      record {
        later = omega arith;
        blank =
            λ x low high. minute_blank x (all_skipped (minute_at x) (omega arith) (omega arith));
      }

  month_missed :
      (x : ℕ) → holds_month c.month (month_count (day_at x)) ≡ false → matches c x ≡ false
  month_missed x h = month_blank x (ap (contains c.month) (month_count-at (day_at x)).0 ∙ h)

  target-IsSkip :
      (o : Option (ℕ × ℕ))
      → holds_month c.month (month_count (day_at n)) ≡ false
      → IsFound c.month (suc (month_count (day_at n))) 12 o
      → IsSkip c n (month_target steady n o)
  target-IsSkip none h skipped = record {
    later = omega arith;
    blank = λ x low high.
        let k = month_count (day_at n) in
        let j = month_count (day_at x) in
        let same = skipped (k + 1 + (j + 12 - (k + 1) % 12) % 12) (omega arith) (omega arith) in
        month_missed x (subst (λ i. contains c.month i ≡ false) (omega arith) same);
  }
  target-IsSkip (some (year, m)) h (a, b, b', d, skipped) =
      let k = month_count (day_at n) in
      let j = 12 * (year - 1) + (m - 1) in
      let missed = Misses-more (holds_month c.month) k j h skipped in
      let start = first_of-count year m a b b' in
      record {
        later = omega (arith, start, month_count-before (day_at n) j (omega arith));
        blank = λ x low high.
            let (after_n, before) =
              month_count-between (day_at n) (day_at x) j (omega arith) (omega (arith, start)) in
            month_missed x (missed (month_count (day_at x)) after_n before);
      }

  pub month-IsSkip :
      contains c.month (month_of (day_at n)) ≡ false
      → IsSkip c n (advance_to_month steady n c.month)
  unfolding advance_to_month
  month-IsSkip h =
      let (at_month, at_year) = month_count-at (day_at n) in
      let sum = month_count-sum (day_at n) in
      target-IsSkip (find_month c.month 12 (year_of (day_at n)) (month_of (day_at n) + 1))
        (ap (contains c.month) (sym at_month) ∙ h)
        (find_month-IsFound c.month 12 (year_of (day_at n)) (month_of (day_at n) + 1)
          (suc (month_count (day_at n))) (omega arith) (omega arith) (omega arith) (omega arith))
