-- ===== src/Handler/Request/Limits.antt =====
-- The bounds of what a request is given.
use pastebin.Base.{
  ℕ, suc, ◌+◌, ◌^◌, ◌≤◌, ◌<◌, ◌≡◌, refl, true, ◌&&◌, List, [], ◌∷◌, Option, none, some, arith,
  Bytes, bytes_eq, ltb, leb, length, take, inl, inr, Bool-cases, length-take, take_all, All, zero,
}
use Prim.Native.Nat.{min}
use pastebin.Base.Text.{parse_int}
use pastebin.Base.Int.{ℤ, pos, negsuc, is_positive, add_duration}
use pastebin.Handler.Request.{
  read_bound, read_limited, first_match, named_expiries, raw_seconds, or_raw, from_now, seconds,
  parse_expiry, max_expiry_seconds,
}

-- Ten years in nanoseconds.
abbrev ten_years : ℕ
ten_years = 315_360_000_000_000_000

Fits : Option ℕ → Type 0
Fits none = Unit
Fits (some d) = (0 < d) × (d ≤ ten_years)

positive : (n : ℕ) → is_positive (pos n) ≡ true → 0 < n
positive n h = ground arith

raw-Fits : (z : Option ℤ) → Fits (raw_seconds z)
unfolding Fits seconds
raw-Fits none = tt
raw-Fits (some (negsuc n)) = tt
raw-Fits (some (pos n)) = elim (Bool-cases (is_positive (pos n) && leb n max_expiry_seconds)) [
  | inl e ↦ rw e (ground (arith, positive n), ground arith)
  | inr e ↦ rw e tt
]

-- Every duration of a table is positive and at most ten years.
abbrev InTable : Bytes × ℕ → Type 0
InTable e = (0 < e.1) × (e.1 ≤ ten_years)

first_match-Fits :
    (s : Bytes) (table : List (Bytes × ℕ)) → All InTable table → Fits (first_match s table)
unfolding Fits
first_match-Fits s [] h = tt
first_match-Fits s ((name, d) ∷ rest) (f, h) = elim (Bool-cases (bytes_eq s name)) [
  | inl e ↦ rw e f
  | inr e ↦ rw e (first_match-Fits s rest h)
]

or_raw-Fits : (s : Bytes) (d : Option ℕ) → Fits d → Fits (or_raw s d)
or_raw-Fits s none f = raw-Fits (parse_int s)
or_raw-Fits s (some d) f = f

named-InTable : All InTable named_expiries
named-InTable = (
  (omega arith, omega arith),
  (
    (omega arith, omega arith),
    (
      (omega arith, omega arith),
      (
        (omega arith, omega arith),
        (
          (omega arith, omega arith),
          (
            (omega arith, omega arith),
            (
              (omega arith, omega arith),
              ((omega arith, omega arith), ((omega arith, omega arith), tt)),
            ),
          ),
        ),
      ),
    ),
  ),
)

from_now-Fits :
    (now : ℕ) (d : Option ℕ) {t : ℕ}
    → Fits d
    → from_now now d ≡ some t
    → (now < t) × (t ≤ now + 315_360_000_000_000_000)
unfolding Fits add_duration
from_now-Fits now none f h = cc
from_now-Fits now (some d) {t} (a, b) h = ground (arith, h)

-- An expiry that is accepted lies after now and within ten years of it: nothing wraps, and no paste is
-- born expired.
pub parse_expiry_bounds :
    (now : ℕ) (s : Bytes) {t : ℕ}
    → parse_expiry now s ≡ some t
    → (now < t) × (t ≤ now + 315_360_000_000_000_000)
unfolding parse_expiry
parse_expiry_bounds now s h =
    from_now-Fits now (or_raw s (first_match s named_expiries))
      (or_raw-Fits s (first_match s named_expiries)
        (first_match-Fits s named_expiries named-InTable))
      h

take-take-suc : (n : ℕ) (xs : Bytes) → take n (take (suc n) xs) ≡ take n xs
take-take-suc zero xs = refl
take-take-suc (suc n) [] = refl
take-take-suc (suc n) (x ∷ xs) = rw (take-take-suc n xs) refl

-- A body is read up to the limit, and told to be too large exactly if it has more, for a limit below the
-- largest 64-bit number.
pub read_limited_lem :
    (limit : ℕ) (body : Bytes)
    → limit + 1 < 2 ^ 63
    → read_limited limit body ≡ (take limit body, ltb limit (length body))
unfolding read_limited
read_limited_lem limit body h = elim (Bool-cases (ltb limit (length body))) [
  | inl more ↦
      let few : ltb limit (min (suc limit) (length body)) ≡ true = ground arith in
      rw (bound, length-take (suc limit) body, few, more, take-take-suc limit body) refl
  | inr less ↦
      let whole : take (suc limit) body ≡ body = take_all body (suc limit) (ground arith) in
      let same : take limit body ≡ body = take_all body limit (ground arith) in
      rw (bound, whole, less, same) refl
]
  where
    bound : read_bound limit ≡ suc limit
    bound = ground arith
