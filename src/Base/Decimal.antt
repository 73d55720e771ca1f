-- ===== src/Base/Decimal.antt =====
-- Numbers in decimal digits, as `strconv.Itoa` writes them and `strconv.ParseInt` reads them.
use Prim.Native.Nat.{zero, ℕ, ◌+◌, ◌-◌, ◌*◌, ◌/◌, ◌%◌, ◌^◌, ◌<◌, ◌≤◌, suc}
use mathlib.Core.Path.{◌≡◌, refl}
use mathlib.Core.Logic.{◌≢◌, inl, inr}
use mathlib.Core.Bool.{true, false}
use mathlib.Core.List.{[], ◌∷◌}
use mathlib.Core.Option.{some}
use native.Mathlib.Omega.{arith}
use pastebin.Base.Tests.{ltb, ◌==◌, if◌then◌else◌, Bool-cases}
use pastebin.Base.Int.{pos, negsuc}
use pastebin.Base.Text.{Bytes, is_digit, digits_from, parse_int}

-- The digits of `n` in front of `buf`, in as many rounds as are given; none for 0.
unfoldable pub digits_before : ℕ → ℕ → Bytes → Bytes
digits_before zero n buf = buf
digits_before (suc k) n buf =
    let more = digits_before k (n / 10) ((b'0' + n % 10) ∷ buf) in if n == 0 then buf else more

-- `strconv.Itoa(n)` and `strconv.FormatInt(n, 10)` for `n` of 64 bits, which has at most 20 digits.
unfoldable pub decimal : ℕ → Bytes
decimal n = if n == 0 then b'0' ∷ [] else digits_before 20 n []

digit : (n : ℕ) → is_digit (b'0' + n % 10) ≡ true
unfolding is_digit
digit n = ground arith

tenfold : (n : ℕ) → n / 10 * 10 + (b'0' + n % 10 - b'0') ≡ n
tenfold n = omega arith

-- Reading the digits of `n` gives `n`, with what stands behind them still to read.
pub digits_from-digits_before :
    (k n : ℕ) (buf : Bytes) → n < 10 ^ k → digits_from 0 (digits_before k n buf) ≡ digits_from n buf
unfolding digits_before digits_from
digits_from-digits_before zero n buf h = let e : n ≡ 0 = omega arith in rw e refl
digits_from-digits_before (suc k) n buf h = elim (Bool-cases (n == 0)) [
  | inl z ↦ let e : n ≡ 0 = ground arith in rw e refl
  | inr z ↦
      rw
        (
          z,
          digits_from-digits_before k (n / 10) ((b'0' + n % 10) ∷ buf) (omega arith),
          digit n,
          tenfold n,
        )
        refl
]

-- Some digits are read, so the first byte is one.
signed_digits :
    (c n : ℕ) (s : Bytes)
    → digits_from 0 (c ∷ s) ≡ some n
    → n < 2 ^ 63
    → parse_int (c ∷ s) ≡ some (pos n)
unfolding parse_int digits_from is_digit
signed_digits c n s h b = ground arith

pub parse_int-digits :
    (s : Bytes) (n : ℕ)
    → s ≢ []
    → digits_from 0 s ≡ some n
    → n < 2 ^ 63
    → parse_int s ≡ some (pos n)
parse_int-digits [] n h e b = absurd (h refl)
parse_int-digits (c ∷ s) n h e b = signed_digits c n s e b

pub parse_int-minus :
    (s : Bytes) (n : ℕ)
    → s ≢ []
    → digits_from 0 s ≡ some (suc n)
    → suc n ≤ 2 ^ 63
    → parse_int (b'-' ∷ s) ≡ some (negsuc n)
unfolding parse_int
parse_int-minus [] n h e b = absurd (h refl)
parse_int-minus (c ∷ s) n h e b = let f : ltb n (2 ^ 63) ≡ true = ground arith in rw (e, f) refl

-- Digits are written, for a number above 0.
digits_before_more : (k n c : ℕ) (buf : Bytes) → digits_before k n (c ∷ buf) ≢ []
unfolding digits_before
digits_before_more zero n c buf = λ e. cc
digits_before_more (suc k) n c buf = elim (Bool-cases (n == 0)) [
  | inl z ↦ rw z (λ e. cc)
  | inr z ↦ rw z (digits_before_more k (n / 10) (b'0' + n % 10) (c ∷ buf))
]

pub digits_before_some : (k n : ℕ) → 0 < n → digits_before (suc k) n [] ≢ []
unfolding digits_before
digits_before_some k n h =
    let z : (n == 0) ≡ false = ground arith in
    rw z (digits_before_more k (n / 10) (b'0' + n % 10) [])

pub digits_from-decimal : (n : ℕ) → n < 2 ^ 64 → digits_from 0 (digits_before 20 n []) ≡ some n
unfolding digits_from
digits_from-decimal n h = digits_from-digits_before 20 n [] (omega arith)

pub parse_int-decimal : (n : ℕ) → n < 2 ^ 63 → parse_int (decimal n) ≡ some (pos n)
unfolding decimal
parse_int-decimal n h = elim (Bool-cases (n == 0)) [
  | inl z ↦
      let e : n ≡ 0 = ground arith in
      rw (z, e)
        (parse_int-digits (b'0' ∷ []) 0 (λ p. cc) (unfold digits_from is_digit in refl)
          (omega arith))
  | inr z ↦
      let p : 0 < n = ground arith in
      rw z (
        parse_int-digits (digits_before 20 n []) n (digits_before_some 19 n p)
          (digits_from-decimal n (omega arith)) h)
]
