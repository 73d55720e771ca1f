-- ===== src/Server/Captcha/Leak.antt =====
-- What a token of the challenge gives away.
use pastebin.Base.{
  ℕ, zero, suc, ◌+◌, ◌/◌, ◌%◌, ◌^◌, ◌≤◌, ◌<◌, ◌≡◌, inl, inr, refl, Bool, true, false, not, ◌&&◌,
  Option, none, some, [], ◌∷◌, ◌++◌, Bytes, bytes_eq_refl, arith, ltb, ◌==◌, Bool-cases,
}
use pastebin.Base.Text.{cut, contains_byte, trim_space}
use pastebin.Base.Decimal.{decimal, digits_before, parse_int-decimal}
use pastebin.Server.Request.{is_empty}
use pastebin.Server.Signing.{Library, IsBase64, cut_first}
use pastebin.Server.Captcha.{
  captcha_ttl, SimpleCaptcha, sign_captcha_payload, generate_simple_captcha,
  validate_simple_captcha,
}

no_colon_before :
    (k n : ℕ) (buf : Bytes)
    → contains_byte buf b':' ≡ false
    → contains_byte (digits_before k n buf) b':' ≡ false
unfolding digits_before contains_byte
no_colon_before zero n buf h = h
no_colon_before (suc k) n buf h = elim (Bool-cases (n == 0)) [
  | inl z ↦ rw z h
  | inr z ↦ rw z (no_colon_before k (n / 10) ((b'0' + n % 10) ∷ buf) (ground (arith, h)))
]

no_colon : (n : ℕ) → contains_byte (decimal n) b':' ≡ false
unfolding decimal contains_byte
no_colon n = elim (Bool-cases (n == 0)) [
  | inl z ↦ rw z refl
  | inr z ↦ rw z (no_colon_before 20 n [] refl)
]

-- The numbers below `n` are written as some text.
all_written : ℕ → Bool
all_written zero = true
all_written (suc n) = not (is_empty (trim_space (decimal n))) && all_written n

written_below : (k n : ℕ) → n < k → all_written k ≡ true → is_empty (trim_space (decimal n)) ≡ false
unfolding all_written
written_below zero n h a = absurd (omega arith)
written_below (suc k) n h a = elim (Bool-cases (n == k)) [
  | inl e ↦ let same : n ≡ k = ground arith in rw same (ground arith)
  | inr e ↦ written_below k n (ground arith) (ground arith)
]

written : (n : ℕ) → n < 20 → is_empty (trim_space (decimal n)) ≡ false
unfolding all_written trim_space decimal digits_before
written n h = written_below 20 n h refl

-- The answer that stands in a token, for whoever reads it.
abbrev first_field : Option (Bytes × Bytes) → Bytes
first_field none = []
first_field (some (a, b)) = a

abbrev decoded : Option Bytes → Bytes
decoded none = []
decoded (some p) = p

abbrev payload_of : Library → Option (Bytes × Bytes) → Bytes
payload_of lib none = []
payload_of lib (some (a, b)) = decoded (lib.decode a)

unfoldable pub leaked : Library → Bytes → Bytes
leaked lib token = first_field (cut b':' (payload_of lib (cut b'.' token)))

leaked-sign :
    (lib : Library) (secret a e : Bytes)
    → IsBase64 lib
    → contains_byte a b':' ≡ false
    → leaked lib (sign_captcha_payload lib secret (a ++ b':' ∷ e)) ≡ a
unfolding leaked sign_captcha_payload
leaked-sign lib secret a e b h =
    let payload = a ++ b':' ∷ e in
    rw
      (
        cut_first b'.' (lib.encode payload) (lib.encode (lib.mac secret payload))
            (b.dotless payload),
        b.decode-encode payload,
        cut_first b':' a e h,
      )
      refl

validate-sign :
    (lib : Library) (secret a : Bytes) (now e : ℕ)
    → IsBase64 lib
    → contains_byte a b':' ≡ false
    → is_empty (trim_space a) ≡ false
    → e < 2 ^ 63
    → now ≤ e
    → validate_simple_captcha lib secret now
        (sign_captcha_payload lib secret (a ++ b':' ∷ decimal e))
        a
      ≡ true
unfolding validate_simple_captcha sign_captcha_payload
validate-sign lib secret a now e b h filled small fresh =
    let payload = a ++ b':' ∷ decimal e in
    let mac = lib.mac secret payload in
    let in_time : ltb e now ≡ false = ground arith in
    rw
      (
        cut_first b'.' (lib.encode payload) (lib.encode mac) (b.dotless payload),
        b.decode-encode payload,
        b.decode-encode mac,
        bytes_eq_refl mac,
        cut_first b':' a (decimal e) h,
        parse_int-decimal e small,
        in_time,
        filled,
        bytes_eq_refl (trim_space a),
      )
      refl

-- A challenge is solved, until it expires, by the text that anyone reads off its token without the secret: that
-- text is the sum which the question asks for.
pub validate-leaked :
    (lib : Library) (secret : Bytes) (now u x y : ℕ) (c : SimpleCaptcha)
    → IsBase64 lib
    → now + captcha_ttl < 2 ^ 63
    → u ≤ now + captcha_ttl
    → generate_simple_captcha lib secret now (some (x, y)) ≡ some c
    → (leaked lib c.token ≡ decimal (x % 9 + 1 + (y % 9 + 1)))
      × (validate_simple_captcha lib secret u c.token (leaked lib c.token) ≡ true)
unfolding generate_simple_captcha
validate-leaked lib secret now u x y c b small fresh h =
    let sum = x % 9 + 1 + (y % 9 + 1) in
    let token : c.token
        ≡ sign_captcha_payload lib secret (decimal sum ++ b':' ∷ decimal (now + captcha_ttl)) =
      cc in
    let read =
      leaked-sign lib secret (decimal sum) (decimal (now + captcha_ttl)) b (no_colon sum) in
    rw (token, read)
      (
        refl,
        validate-sign lib secret (decimal sum) u (now + captcha_ttl) b (no_colon sum)
            (written sum (omega arith)) small fresh,
      )
