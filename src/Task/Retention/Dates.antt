-- ===== src/Task/Retention/Dates.antt =====
-- The dates of backups as numbers and as days.
use pastebin.Base.{
  ℕ, ◌≤◌, ◌≡◌, ap, ◌∙◌, true, ◌&&◌, arith, leb, ◌<◌, ◌+◌, ◌-◌, ◌/◌, ◌%◌, some, inl, inr, sym,
  Bool-cases, ◌==◌,
}
use pastebin.Calendar.{year_of, month_of, first_of}
use pastebin.Calendar.Months.{month_count_mono, month_count-sum, first_of-count}
use pastebin.Task.Retention.{parse_date}

tests_passed :
    (y m d u v : ℕ)
    → (leb 1 y && (leb 1 m && (leb m 12 && (leb 1 d && ((u == y) && (v == m)))))) ≡ true
    → (1 ≤ y) × (1 ≤ m) × (m ≤ 12) × (1 ≤ d) × (u ≡ y) × (v ≡ m)
tests_passed y m d u v h =
    (ground arith, ground arith, ground arith, ground arith, ground arith, ground arith)

-- A date that is read: its year, month and day, and the number of its month.
parsed :
    (n day : ℕ)
    → parse_date n ≡ some day
    → (1 ≤ n / 10_000)
      × (1 ≤ n / 100 % 100)
      × (n / 100 % 100 ≤ 12)
      × (1 ≤ n % 100)
      × (day ≡ first_of (n / 10_000) (n / 100 % 100) + n % 100 - 1)
      × (year_of day ≡ n / 10_000)
      × (month_of day ≡ n / 100 % 100)
unfolding parse_date
parsed n day h =
    let at = first_of (n / 10_000) (n / 100 % 100) + n % 100 - 1 in
    elim (Bool-cases (
      leb 1 (n / 10_000)
      && (leb 1 (n / 100 % 100)
          && (leb (n / 100 % 100) 12
              && (leb 1 (n % 100)
                  && ((year_of at == n / 10_000) && (month_of at == n / 100 % 100))))))) [
                    | inr e ↦ absurd (cc (rw e at h))
                    | inl e ↦
                        let same : at ≡ day = cc (rw e at h) in
                        let (a, b, c, d, u, v) =
                          tests_passed (n / 10_000) (n / 100 % 100) (n % 100) (year_of at)
                            (month_of at) e in
                        (
                          a,
                          b,
                          c,
                          d,
                          sym same,
                          ap year_of (sym same) ∙ u,
                          ap month_of (sym same) ∙ v,
                        )
                  ]

-- The order of days is that of dates.
pub parse_date_mono : (a b x y : ℕ) → parse_date a ≡ some x → parse_date b ≡ some y → x ≤ y → a ≤ b
parse_date_mono a b x y p q h =
    let (y1, m1, m1', d1, e1, f1, g1) = parsed a x p in
    let (y2, m2, m2', d2, e2, f2, g2) = parsed b y q in
    let months = month_count_mono x y h in
    let sum1 = month_count-sum x in
    let sum2 = month_count-sum y in
    let start1 = first_of-count (a / 10_000) (a / 100 % 100) y1 m1 m1' in
    let start2 = first_of-count (b / 10_000) (b / 100 % 100) y2 m2 m2' in
    elim (Bool-cases (leb a b)) [
      | inl e ↦ ground arith
      | inr e ↦
          let below : b < a = ground arith in
          let year : a / 10_000 ≡ b / 10_000 = omega arith in
          let month : a / 100 % 100 ≡ b / 100 % 100 = omega arith in
          let first : first_of (a / 10_000) (a / 100 % 100)
              ≡ first_of (b / 10_000) (b / 100 % 100) =
            ap (λ u. first_of u (a / 100 % 100)) year ∙ ap (first_of (b / 10_000)) month in
          absurd (omega arith)
    ]
