-- ===== src/Calendar/Months.antt =====
-- The months of the calendar follow each other without gaps, from the first of the year 1.
use mathlib.Core.Path.{subst}
use pastebin.Base.{
  ℕ, zero, suc, ◌+◌, ◌-◌, ◌*◌, ◌/◌, ◌%◌, ◌≤◌, ◌<◌, ◌≡◌, refl, sym, Bool, true, false, inl, inr,
  arith, ap, ◌∙◌, if◌then◌else◌, ltb, leb, ◌==◌, Bool-cases,
}
use pastebin.Calendar.{
  is_leap, year_start, days_before, month_at, years_from, years_before, year_of, month_of, first_of,
}

-- The months counted from the first of the year 1, and the first day of a month by its number.
unfoldable pub month_count : ℕ → ℕ
unfolding year_of month_of
month_count n = 12 * (year_of n - 1) + (month_of n - 1)

unfoldable pub month_start : ℕ → ℕ
unfolding first_of
month_start k = first_of (suc (k / 12)) (suc (k % 12))

year_step : (y : ℕ) → year_start (suc y) ≡ year_start y + (365 + (if is_leap (suc y) then 1 else 0))
unfolding year_start is_leap
year_step y = ground arith

month-holds :
    (leap : Bool) (n : ℕ)
    → n < 365 + (if leap then 1 else 0)
    → (days_before leap (month_at leap n) ≤ n) × (n < days_before leap (month_at leap n + 1))
unfolding days_before month_at
month-holds true n h = ground arith
month-holds false n h = ground arith

month_bounds : (leap : Bool) (n : ℕ) → (1 ≤ month_at leap n) × (month_at leap n ≤ 12)
unfolding month_at
month_bounds leap n = ground arith

years_from-holds :
    (fuel y n : ℕ)
    → year_start y ≤ n
    → n < y + fuel
    → (year_start (years_from fuel y n) ≤ n) × (n < year_start (suc (years_from fuel y n)))
unfolding years_from year_start
years_from-holds zero y n low high = absurd (omega arith)
years_from-holds (suc fuel) y n low high = ground (arith, years_from-holds fuel (suc y) n)

years_before-holds :
    (n : ℕ) → (year_start (years_before n) ≤ n) × (n < year_start (suc (years_before n)))
unfolding years_before
years_before-holds n =
    years_from-holds (suc n) (n / 366) n (unfold year_start in omega arith) (omega arith)

days_before-increases :
    (leap : Bool) (m : ℕ) → 1 ≤ m → m ≤ 12 → days_before leap m < days_before leap (suc m)
unfolding days_before
days_before-increases leap m low high = ground arith

year_days : (leap : Bool) → days_before leap 13 ≡ 365 + (if leap then 1 else 0)
unfolding days_before
year_days leap = refl

first_day : (leap : Bool) → days_before leap 1 ≡ 0
unfolding days_before
first_day leap = refl

pred_suc : (y : ℕ) → suc y - 1 ≡ y
pred_suc y = omega arith

first_of-suc : (y m : ℕ) → first_of (suc y) m ≡ year_start y + days_before (is_leap (suc y)) m
unfolding first_of
first_of-suc y m = ap (λ x. year_start x + days_before (is_leap (suc y)) m) (pred_suc y)

month_start-at :
    (k : ℕ)
    → month_start k ≡ year_start (k / 12) + days_before (is_leap (suc (k / 12))) (suc (k % 12))
unfolding month_start
month_start-at k = first_of-suc (k / 12) (suc (k % 12))

month_start-suc :
    (k : ℕ)
    → month_start (suc k)
      ≡ year_start (k / 12) + days_before (is_leap (suc (k / 12))) (suc (suc (k % 12)))
month_start-suc k = rw (month_start-at (suc k)) (elim (Bool-cases (k % 12 == 11)) [
  | inl e ↦
      let old : k % 12 ≡ 11 = ground arith in
      let q : suc k / 12 ≡ suc (k / 12) = omega arith in
      let m : suc k % 12 ≡ 0 = omega arith in
      rw (q, m, old, first_day (is_leap (suc (suc (k / 12)))), year_step (k / 12))
        (omega (arith, year_days (is_leap (suc (k / 12)))))
  | inr e ↦
      let q : suc k / 12 ≡ k / 12 = ground arith in
      let m : suc k % 12 ≡ suc (k % 12) = ground arith in rw (q, m) refl
])

month_start-increases : (k : ℕ) → month_start k < month_start (suc k)
month_start-increases k = omega (
  arith,
  month_start-at k,
  month_start-suc k,
  days_before-increases (is_leap (suc (k / 12))) (suc (k % 12)) (omega arith) (omega arith),
)

plus_one : (k : ℕ) → k + 1 ≡ suc k
plus_one k = omega arith

plus_zero : (k : ℕ) → k + 0 ≡ k
plus_zero k = omega arith

plus_suc : (k n : ℕ) → k + suc n ≡ suc (k + n)
plus_suc k n = omega arith

month_start_mono : (k n : ℕ) → month_start k ≤ month_start (k + n)
month_start_mono k zero = rw (plus_zero k) (omega arith)
month_start_mono k (suc n) =
    rw (plus_suc k n) (omega (arith, month_start_mono k n, month_start-increases (k + n)))

years_before-month :
    (n : ℕ)
    → (month_of n ≡ month_at (is_leap (suc (years_before n))) (n - year_start (years_before n)))
      × (year_of n ≡ suc (years_before n))
unfolding month_of year_of
years_before-month n =
    let y = years_before n in
    (
      ap (λ x. month_at (is_leap x) (n - year_start (x - 1))) (plus_one y)
          ∙ ap (λ x. month_at (is_leap (suc y)) (n - year_start x)) (pred_suc y),
      plus_one y,
    )

pub month_count-sum : (n : ℕ) → month_count n ≡ 12 * (year_of n - 1) + (month_of n - 1)
unfolding month_count
month_count-sum n = refl

pub month_count-at :
    (n : ℕ) → (month_of n ≡ month_count n % 12 + 1) × (year_of n ≡ month_count n / 12 + 1)
month_count-at n =
    let (m, y) = years_before-month n in
    let bounds = month_bounds (is_leap (suc (years_before n))) (n - year_start (years_before n)) in
    let sum = month_count-sum n in (omega arith, omega arith)

month_count-holds :
    (n : ℕ) → (month_start (month_count n) ≤ n) × (n < month_start (suc (month_count n)))
month_count-holds n =
    let (m, y) = years_before-month n in
    let (low, high) = years_before-holds n in
    let (a, b) =
      month-holds (is_leap (suc (years_before n))) (n - year_start (years_before n))
        (omega (arith, low, high, year_step (years_before n))) in
    let (m', y') = month_count-at n in
    let year : month_count n / 12 ≡ years_before n = omega arith in
    let month : suc (month_count n % 12)
        ≡ month_at (is_leap (suc (years_before n))) (n - year_start (years_before n)) =
      omega arith in
    let next =
      subst (λ x. n - year_start (years_before n) < days_before (is_leap (suc (years_before n))) x)
        (plus_one (month_at (is_leap (suc (years_before n))) (n - year_start (years_before n))))
        b in
    rw (month_start-at (month_count n), month_start-suc (month_count n), year, month)
      (omega arith, omega (arith, next))

month_start-le : (k j : ℕ) → k ≤ j → month_start k ≤ month_start j
month_start-le k j h =
    let sum : k + (j - k) ≡ j = omega arith in
    subst (λ x. month_start k ≤ month_start x) sum (month_start_mono k (j - k))

-- A day lies before the months behind its own.
pub month_count-before : (n k : ℕ) → month_count n < k → n < month_start k
month_count-before n k h =
    let (a, b) = month_count-holds n in
    omega (arith, month_start-le (suc (month_count n)) k (omega arith))

-- A day lies in a month before another's first day, and no day lies in a month before that of an earlier day.
pub month_count-between :
    (n e k : ℕ) → n ≤ e → e < month_start k → (month_count n ≤ month_count e) × (month_count e < k)
month_count-between n e k low high =
    let (a, b) = month_count-holds n in
    let (c, d) = month_count-holds e in
    (
      elim (Bool-cases (leb (month_count n) (month_count e))) [
        | inl h ↦ ground arith
        | inr h ↦
            absurd
              (omega (arith, month_start-le (suc (month_count e)) (month_count n) (ground arith)))
      ],
      elim (Bool-cases (ltb (month_count e) k)) [
        | inl h ↦ ground arith
        | inr h ↦ absurd (omega (arith, month_start-le k (month_count e) (ground arith)))
      ],
    )

-- The first day of a month by its number.
pub first_of-count :
    (year m : ℕ)
    → 1 ≤ year
    → 1 ≤ m
    → m ≤ 12
    → first_of year m ≡ month_start (12 * (year - 1) + (m - 1))
unfolding month_start
first_of-count year m y low high =
    let a : suc ((12 * (year - 1) + (m - 1)) / 12) ≡ year = omega arith in
    let b : suc ((12 * (year - 1) + (m - 1)) % 12) ≡ m = omega arith in
    ap (λ x. first_of x m) (sym a) ∙ ap (first_of (suc ((12 * (year - 1) + (m - 1)) / 12))) (sym b)

-- The number of the month does not fall from one day to a later one.
pub month_count_mono : (n e : ℕ) → n ≤ e → month_count n ≤ month_count e
month_count_mono n e h =
    (month_count-between n e (suc (month_count e)) h
      (month_count-before e (suc (month_count e)) (omega arith))).0
