-- ===== src/Server/Stats/Ring.antt =====
-- What the ring counts, when the hours run on from a start.
use pastebin.Base.{
  ℕ, zero, suc, ◌+◌, ◌-◌, ◌%◌, ◌≤◌, ◌<◌, ◌≡◌, refl, ◌∙◌, Bool, true, false, ◌&&◌, List, [], ◌∷◌,
  map, ◌/◌, arith, if◌then◌else◌, ◌==◌, ltb, Bool-cases, ◌⊎◌, inl, inr,
}
use pastebin.Server.Stats.{RequestStats, new_stats, store, clear, turn, inc, sum_below, last_24h}

-- How far the index `i` lies behind the hour `a`, round the ring.
abbrev offset : ℕ → ℕ → ℕ
offset a i = (i + 24 - a % 24) % 24

step_index : (a : ℕ) → (a % 24 + 1) % 24 ≡ (a + 1) % 24
step_index a = omega arith

-- The index of an hour is the hour itself, or lies one further behind it than behind the next.
offset_step :
    (a i : ℕ)
    → i < 24
    → ((i == a % 24) ≡ true) × (offset a i ≡ 0)
      ⊎ ((i == a % 24) ≡ false) × (offset a i ≡ suc (offset (a + 1) i))
offset_step a i l = elim (Bool-cases (i == a % 24)) [
  | inl e ↦ inl (e, ground arith)
  | inr e ↦ inr (e, ground arith)
]

clear_at :
    (n a d : ℕ) (b : ℕ → ℕ) (i : ℕ)
    → d ≤ n
    → d < 24
    → i < 24
    → clear n (a % 24) ((a + d) % 24) b i ≡ (if ltb (offset a i) d then 0 else b i)
unfolding clear
clear_at zero a d b i h k l = ground arith
clear_at (suc n) a zero b i h k l =
    let e : (a % 24 == (a + 0) % 24) ≡ true = ground arith in rw e (ground arith)
clear_at (suc n) a (suc d) b i h k l =
    let e : (a % 24 == (a + suc d) % 24) ≡ false = ground arith in
    let f : (a + suc d) % 24 ≡ (a + 1 + d) % 24 = omega arith in
    rw
      (
        e,
        step_index a,
        f,
        clear_at n (a + 1) d (store (a % 24) 0 b) i (omega arith) (omega arith) l,
      )
      (elim (offset_step a i l) [
        | inl (s, o) ↦ unfold store in rw (s, o) (ground arith)
        | inr (s, o) ↦ unfold store in rw (s, o) (ground arith)
      ])

turn_at :
    (rs : RequestStats) (t u i : ℕ)
    → rs.last_hour ≡ t % 24
    → t ≤ u
    → u < t + 24
    → i < 24
    → (turn (u % 24) rs).buckets i ≡ (if ltb (offset (t + 1) i) (u - t) then 0 else rs.buckets i)
unfolding turn
turn_at rs t u i at h k l = elim (Bool-cases (u % 24 == rs.last_hour)) [
  | inl e ↦ rw e (ground arith)
  | inr e ↦
      let start : (rs.last_hour + 1) % 24 ≡ (t + 1) % 24 = omega arith in
      let stop : (u % 24 + 1) % 24 ≡ (t + 1 + (u - t)) % 24 = omega arith in
      let d : u - t < 24 = omega arith in
      rw (e, start, stop) (clear_at 24 (t + 1) (u - t) rs.buckets i (omega arith) d l)
]

abbrev pub tally : Bool → ℕ
tally true = 1
tally false = 0

-- The requests, newest first, of an hour of the day in the 24 hours up to `now`, and all of those hours.
hits : ℕ → ℕ → List ℕ → ℕ
hits i now [] = 0
hits i now (s ∷ trace) = tally ((s % 24 == i) && ltb now (s + 24)) + hits i now trace

unfoldable pub within : ℕ → List ℕ → ℕ
within now [] = 0
within now (s ∷ trace) = tally (ltb now (s + 24)) + within now trace

abbrev Upto : ℕ → List ℕ → Type 0
Upto t [] = Unit
Upto t (s ∷ trace) = (s ≤ t) × Upto t trace

-- Each request comes less than 24 hours behind the one before.
abbrev pub IsSpaced : List ℕ → Type 0
IsSpaced [] = Unit
IsSpaced (u ∷ []) = Unit
IsSpaced (u ∷ t ∷ trace) = (t ≤ u) × (u < t + 24) × IsSpaced (t ∷ trace)

Upto-le : (t u : ℕ) (trace : List ℕ) → t ≤ u → Upto t trace → Upto u trace
Upto-le t u [] h p = tt
Upto-le t u (s ∷ trace) h (p, ps) = (omega arith, Upto-le t u trace h ps)

IsSpaced-Upto : (t : ℕ) (trace : List ℕ) → IsSpaced (t ∷ trace) → Upto t trace
IsSpaced-Upto t [] h = tt
IsSpaced-Upto u (t ∷ trace) (le, gap, h) = (le, Upto-le t u trace le (IsSpaced-Upto t trace h))

hit_later :
    (i s t u : ℕ)
    → s ≤ t
    → t ≤ u
    → u < t + 24
    → i < 24
    → tally ((s % 24 == i) && ltb u (s + 24))
      ≡ (if ltb (offset (t + 1) i) (u - t) then 0 else tally ((s % 24 == i) && ltb t (s + 24)))
hit_later i s t u a b c l = elim (Bool-cases (s % 24 == i)) [
  | inr e ↦ rw e (ground arith)
  | inl e ↦ rw e (ground arith)
]

hits_later :
    (i t u : ℕ) (trace : List ℕ)
    → Upto t trace
    → t ≤ u
    → u < t + 24
    → i < 24
    → hits i u trace ≡ (if ltb (offset (t + 1) i) (u - t) then 0 else hits i t trace)
unfolding hits
hits_later i t u [] p a b l = ground arith
hits_later i t u (s ∷ trace) (le, p) a b l =
    rw (hit_later i s t u le a b l, hits_later i t u trace p a b l) (ground arith)

-- The server after requests at these hours, the newest first.
unfoldable pub requests : List ℕ → RequestStats
requests [] = new_stats
requests (t ∷ trace) = inc (t % 24) (requests trace)

clear_zero : (n cur stop : ℕ) (b : ℕ → ℕ) (i : ℕ) → ((j : ℕ) → b j ≡ 0) → clear n cur stop b i ≡ 0
unfolding clear store
clear_zero zero cur stop b i h = h i
clear_zero (suc n) cur stop b i h =
    let ih =
      clear_zero n ((cur + 1) % 24) stop (store cur 0 b) i
        (λ j. unfold store in ground (arith, h j)) in
    ground (arith, ih, h i)

turn_last : (h : ℕ) (rs : RequestStats) → (turn h rs).last_hour ≡ h
unfolding turn
turn_last h rs = elim (Bool-cases (h == rs.last_hour)) [
  | inl e ↦ rw e (ground arith)
  | inr e ↦ rw e refl
]

turn_zero : (h i : ℕ) (rs : RequestStats) → ((j : ℕ) → rs.buckets j ≡ 0) → (turn h rs).buckets i ≡ 0
unfolding turn
turn_zero h i rs z = elim (Bool-cases (h == rs.last_hour)) [
  | inl e ↦ rw e (z i)
  | inr e ↦ rw e (clear_zero 24 ((rs.last_hour + 1) % 24) ((h + 1) % 24) rs.buckets i z)
]

-- The ring behind a run: its hour is the newest, and each bucket holds the requests of its hour.
abbrev Rings : RequestStats → ℕ → List ℕ → Type 0
Rings rs t trace = (rs.last_hour ≡ t % 24) × ((i : ℕ) → i < 24 → rs.buckets i ≡ hits i t trace)

inc_bucket :
    (h i : ℕ) (rs : RequestStats)
    → (inc h rs).buckets i
      ≡ tally (h == i) + (turn h (record rs { total = rs.total + 1 })).buckets i
unfolding inc store
inc_bucket h i rs = elim (Bool-cases (i == h)) [
  | inl e ↦ let same : i ≡ h = ground arith in rw (same) (ground arith)
  | inr e ↦ let f : (h == i) ≡ false = ground arith in rw (e, f) (omega arith)
]

inc_last : (h : ℕ) (rs : RequestStats) → (inc h rs).last_hour ≡ h
unfolding inc
inc_last h rs = turn_last h (record rs { total = rs.total + 1 })

hits_first :
    (i t : ℕ) (trace : List ℕ) → hits i t (t ∷ trace) ≡ tally (t % 24 == i) + hits i t trace
unfolding hits
hits_first i t trace = elim (Bool-cases (t % 24 == i)) [
  | inl e ↦ rw e (ground arith)
  | inr e ↦ rw e (ground arith)
]

requests-Rings :
    (t : ℕ) (trace : List ℕ) → IsSpaced (t ∷ trace) → Rings (requests (t ∷ trace)) t (t ∷ trace)
unfolding requests hits
requests-Rings t [] h = (
  inc_last (t % 24) new_stats,
  λ i l.
      rw (inc_bucket (t % 24) i new_stats, hits_first i t [])
        (omega (arith, turn_zero (t % 24) i (record new_stats { total = 1 }) (λ j. refl))),
)
requests-Rings u (t ∷ trace) (le, gap, h) =
    let rs = requests (t ∷ trace) in
    let (at, ih) = requests-Rings t trace h in
    let old = IsSpaced-Upto u (t ∷ trace) (le, gap, h) in
    (
      inc_last (u % 24) rs,
      λ i l.
          rw
            (
              inc_bucket (u % 24) i rs,
              hits_first i u (t ∷ trace),
              turn_at (record rs { total = rs.total + 1 }) t u i at le gap l,
              hits_later i t u (t ∷ trace) (omega arith, IsSpaced-Upto t trace h) le gap l,
              ih i l,
            )
            refl,
    )

sum_below-ext :
    (n : ℕ) (a b : ℕ → ℕ) → ((i : ℕ) → i < n → a i ≡ b i) → sum_below n a ≡ sum_below n b
unfolding sum_below
sum_below-ext zero a b h = refl
sum_below-ext (suc n) a b h =
    omega (arith, sum_below-ext n a b (λ i l. h i (omega arith)), h n (omega arith))

sum_below-add : (n : ℕ) (a b : ℕ → ℕ) → sum_below n (λ i. a i + b i) ≡ sum_below n a + sum_below n b
unfolding sum_below
sum_below-add zero a b = refl
sum_below-add (suc n) a b = omega (arith, sum_below-add n a b)

sum_below-tally :
    (n k : ℕ) (w : Bool) → sum_below n (λ i. tally ((k == i) && w)) ≡ tally (ltb k n && w)
unfolding sum_below
sum_below-tally zero k w = ground arith
sum_below-tally (suc n) k w = ground (arith, sum_below-tally n k w)

sum_below-zero : (n : ℕ) → sum_below n (λ i. 0) ≡ 0
unfolding sum_below
sum_below-zero zero = refl
sum_below-zero (suc n) = omega (arith, sum_below-zero n)

sum_below-hits :
    (now : ℕ) (trace : List ℕ) → sum_below 24 (λ i. hits i now trace) ≡ within now trace
unfolding hits within
sum_below-hits now [] = sum_below-zero 24
sum_below-hits now (s ∷ trace) =
    let w = ltb now (s + 24) in
    let day : ltb (s % 24) 24 ≡ true = ground arith in
    sum_below-add 24 (λ i. tally ((s % 24 == i) && w)) (λ i. hits i now trace)
    ∙ rw (sum_below-tally 24 (s % 24) w, sum_below-hits now trace, day) refl

-- If each request came less than 24 clock hours behind the one before, the sum of the ring just behind a request is
-- the number of the requests of its clock hour and the 23 before.
pub last_24h-requests :
    (t : ℕ) (trace : List ℕ)
    → IsSpaced (t ∷ trace)
    → last_24h (requests (t ∷ trace)) ≡ within t (t ∷ trace)
unfolding last_24h
last_24h-requests t trace h =
    sum_below-ext 24 (requests (t ∷ trace)).buckets (λ i. hits i t (t ∷ trace))
      (requests-Rings t trace h).1
    ∙ sum_below-hits t (t ∷ trace)

-- The clock hour of an instant in seconds.
abbrev pub hour_of : ℕ → ℕ
hour_of t = t / 3600

-- The requests less than so many seconds before `now`.
unfoldable pub recent : ℕ → ℕ → List ℕ → ℕ
recent span now [] = 0
recent span now (s ∷ trace) = tally (ltb now (s + span)) + recent span now trace

within-recent :
    (now : ℕ) (trace : List ℕ)
    → (recent 82_800 now trace ≤ within (hour_of now) (map hour_of trace))
      × (within (hour_of now) (map hour_of trace) ≤ recent 86_400 now trace)
unfolding within recent
within-recent now [] = (omega arith, omega arith)
within-recent now (s ∷ trace) =
    let (low, high) = within-recent now trace in (ground arith, ground arith)

-- Requests at instants in seconds of a clock that does not shift, newest first, each in the clock hour of the one
-- before or in one of the 23 behind it: the sum of the ring just behind a request is the number of the requests of
-- its clock hour and of the 23 before, so at least those of the last 23 hours and at most those of the last 24.
pub last_24h-recent :
    (t : ℕ) (trace : List ℕ)
    → IsSpaced (map hour_of (t ∷ trace))
    → (last_24h (requests (map hour_of (t ∷ trace))) ≡ within (hour_of t) (map hour_of (t ∷ trace)))
      × (recent 82_800 t (t ∷ trace) ≤ last_24h (requests (map hour_of (t ∷ trace))))
      × (last_24h (requests (map hour_of (t ∷ trace))) ≤ recent 86_400 t (t ∷ trace))
last_24h-recent t trace h =
    let same = last_24h-requests (hour_of t) (map hour_of trace) h in
    let (low, high) = within-recent t (t ∷ trace) in (same, omega arith, omega arith)
