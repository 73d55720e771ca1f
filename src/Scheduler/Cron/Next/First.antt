-- ===== src/Scheduler/Cron/Next/First.antt =====
-- `Next` answers with the first minute that matches.
use pastebin.Base.{
  ℕ, zero, suc, ◌+◌, ◌-◌, ◌*◌, ◌/◌, ◌≤◌, ◌<◌, ◌≡◌, ◌≢◌, refl, sym, ap, ◌∙◌, true, false, Option,
  none, some, inl, inr, arith, if◌then◌else◌, ltb, leb, Bool-cases,
}
use pastebin.Calendar.{month_of}
use pastebin.Scheduler.Cron.Next.{
  contains, CronExpr, Zone, steady, IsSteady, day_at, hour_at, minute_at, day_matches,
  advance_to_month, advance_to_hour, advance_to_minute, Outcome, found, beyond, next_from, horizon,
  minute_length, next_minute, time_of, next,
}
use pastebin.Scheduler.Cron.Next.Skips.{
  matches, IsSkip, month-IsSkip, day-IsSkip, hour-IsSkip, minute-IsSkip,
}

-- The first minute that matches, minute by minute, of so many from one on.
unfoldable pub first_match : CronExpr → ℕ → ℕ → Option ℕ
unfolding matches
first_match c zero n = none
first_match c (suc left) n =
    let rest = first_match c left (suc n) in if matches c n then some n else rest

abbrev pub outcome : Option ℕ → Outcome
outcome none = beyond
outcome (some n) = found n

zero_plus : (k : ℕ) → 0 + k ≡ k
zero_plus k = omega arith

plus_zero : (k : ℕ) → k + 0 ≡ k
plus_zero k = omega arith

suc_plus : (k n : ℕ) → suc k + n ≡ suc (k + n)
suc_plus k n = omega arith

suc_across : (n k : ℕ) → suc n + k ≡ n + suc k
suc_across n k = omega arith

module _ (c : CronExpr) where
  blank_all :
      (left n : ℕ)
      → ((x : ℕ) → n ≤ x → x < n + left → matches c x ≡ false)
      → first_match c left n ≡ none
  unfolding first_match
  blank_all zero n blank = refl
  blank_all (suc left) n blank =
      rw (blank n (omega arith) (omega arith))
        (blank_all left (suc n) (λ x a b. blank x (omega arith) (omega arith)))

  blank_part :
      (k left n : ℕ)
      → ((x : ℕ) → n ≤ x → x < n + k → matches c x ≡ false)
      → first_match c (k + left) n ≡ first_match c left (n + k)
  unfolding first_match
  blank_part zero left n blank =
      ap (λ x. first_match c x n) (zero_plus left) ∙ ap (first_match c left) (sym (plus_zero n))
  blank_part (suc k) left n blank =
      let rest = blank_part k left (suc n) (λ x a b. blank x (omega arith) (omega arith)) in
      ap (λ x. first_match c x n) (suc_plus k left)
      ∙ rw (blank n (omega arith) (omega arith)) (rest ∙ ap (first_match c left) (suc_across n k))

  none_left : (n : ℕ) → first_match c 0 n ≡ none
  unfolding first_match
  none_left n = refl

  skip_first :
      (limit n r : ℕ)
      → n < limit
      → IsSkip c n r
      → first_match c (limit - n) n ≡ first_match c (limit - r) r
  skip_first limit n r low s = elim (Bool-cases (leb r limit)) [
    | inl e ↦
        let all : (r - n) + (limit - r) ≡ limit - n = ground arith in
        let end : n + (r - n) ≡ r = omega (arith, s.later) in
        ap (λ x. first_match c x n) (sym all)
        ∙ blank_part (r - n) (limit - r) n (λ x a b. s.blank x a (omega (arith, s.later)))
        ∙ ap (first_match c (limit - r)) end
    | inr e ↦
        let end : limit - r ≡ 0 = ground arith in
        blank_all (limit - n) n (λ x a b. s.blank x a (ground (arith, s.later)))
        ∙ sym (ap (λ x. first_match c x r) end ∙ none_left r)
  ]

  here_first : (left n : ℕ) → 0 < left → matches c n ≡ true → first_match c left n ≡ some n
  unfolding first_match
  here_first zero n h held = absurd (omega arith)
  here_first (suc left) n h held = rw held refl

  all_matched :
      (n : ℕ)
      → contains c.month (month_of (day_at n)) ≡ true
      → day_matches c (day_at n) ≡ true
      → contains c.hour (hour_at n) ≡ true
      → contains c.minute (minute_at n) ≡ true
      → matches c n ≡ true
  unfolding matches
  all_matched n a b d e = rw (a, b, d, e) refl

  -- The fuel is enough, and the answer is that of the search minute by minute.
  next_from-first :
      (limit fuel n : ℕ)
      → limit < n + fuel
      → 0 < fuel
      → next_from steady c limit fuel n ≡ outcome (first_match c (limit - n) n)
  unfolding next_from
  next_from-first limit zero n enough some_left = absurd (omega arith)
  next_from-first limit (suc fuel) n enough some_left = elim (Bool-cases (ltb n limit)) [
    | inr past ↦
        rw past (sym (ap outcome (ap (λ x. first_match c x n) (ground arith) ∙ none_left n)))
    | inl early ↦
        let go : (r : ℕ)
            → IsSkip c n r
            → next_from steady c limit fuel r ≡ outcome (first_match c (limit - n) n) =
          λ r s.
            next_from-first limit fuel r (omega (arith, s.later)) (ground arith)
            ∙ ap outcome (sym (skip_first limit n r (ground arith) s)) in
        rw early (elim (Bool-cases (contains c.month (month_of (day_at n)))) [
          | inr a ↦ rw a (go (advance_to_month steady n c.month) (month-IsSkip c n a))
          | inl a ↦ rw a (elim (Bool-cases (day_matches c (day_at n))) [
            | inr b ↦ rw b (go ((day_at n + 1) * 1440) (day-IsSkip c n b))
            | inl b ↦ rw b (elim (Bool-cases (contains c.hour (hour_at n))) [
              | inr d ↦ rw d (go (advance_to_hour steady n c.hour) (hour-IsSkip c n d))
              | inl d ↦ rw d (elim (Bool-cases (contains c.minute (minute_at n))) [
                | inr e ↦ rw e (go (advance_to_minute steady n c.minute) (minute-IsSkip c n e))
                | inl e ↦ rw e (
                    sym (
                      ap outcome (here_first (limit - n) n (ground arith) (all_matched n a b d e))))
              ])
            ])
          ])
        ])
  ]

  -- The answer for a clock that does not shift.
  steady-first_match :
      (t : ℕ) → next_minute steady c t ≡ outcome (first_match c horizon (t / minute_length + 1))
  unfolding next_minute
  steady-first_match t =
      let n = t / minute_length + 1 in
      next_from-first (n + horizon) (suc horizon) n (omega arith) (omega arith)
      ∙ ap (λ x. outcome (first_match c x n)) (omega arith)

  first_match-holds :
      (left n x : ℕ)
      → n ≤ x
      → x < n + left
      → matches c x ≡ true
      → (m : ℕ) × (first_match c left n ≡ some m) × (n ≤ m) × (m ≤ x) × (matches c m ≡ true)
  unfolding first_match
  first_match-holds zero n x low high held = absurd (omega arith)
  first_match-holds (suc left) n x low high held = elim (Bool-cases (matches c n)) [
    | inl e ↦ rw e (n, refl, omega arith, low, e)
    | inr e ↦
        let other : n ≢ x = λ same. absurd (cc (e, ap (matches c) same, held)) in
        let (m, a, b, d, f) =
          first_match-holds left (suc n) x (omega (arith, other)) (omega arith) held in
        rw e (m, a, omega arith, d, f)
  ]

  steady_earliest :
      (t x : ℕ)
      → t < x * minute_length
      → x ≤ t / minute_length + horizon
      → matches c x ≡ true
      → (m : ℕ) × (next steady c t ≡ m * minute_length)
        × (t < m * minute_length)
        × (m ≤ x)
        × (matches c m ≡ true)
  unfolding next
  steady_earliest t x later near held =
      let (m, a, b, d, e) =
        first_match-holds horizon (t / minute_length + 1) x (omega arith) (omega arith) held in
      (m, ap time_of (steady-first_match t ∙ ap outcome a), omega arith, d, e)

IsSteady-steady : (z : Zone) → IsSteady z → z ≡ steady
IsSteady-steady z (l, d) i = record { local = λ n. l n i; date = λ m. d m i }

-- In a location whose clock does not shift, for every schedule and every instant, the loop of `Next` ends, and its
-- answer is that of the search minute by minute through the 4 * 365 days behind the instant: the first minute that
-- matches every field, or none.
pub next-first_match :
    (z : Zone) (c : CronExpr) (t : ℕ)
    → IsSteady z
    → next_minute z c t ≡ outcome (first_match c horizon (t / minute_length + 1))
next-first_match z c t h =
    ap (λ y. next_minute y c t) (IsSteady-steady z h) ∙ steady-first_match c t

-- In a location whose clock does not shift, if some whole minute behind an instant, within the 4 * 365 days that are
-- searched, matches the schedule, then `Next` answers with a whole minute behind the instant that matches and is no
-- later than that one.
pub next_earliest :
    (z : Zone) (c : CronExpr) (t x : ℕ)
    → IsSteady z
    → t < x * minute_length
    → x ≤ t / minute_length + horizon
    → matches c x ≡ true
    → (m : ℕ) × (next z c t ≡ m * minute_length)
      × (t < m * minute_length)
      × (m ≤ x)
      × (matches c m ≡ true)
next_earliest z c t x h later near held =
    let (m, a, b, d, e) = steady_earliest c t x later near held in
    (m, ap (λ y. next y c t) (IsSteady-steady z h) ∙ a, b, d, e)
