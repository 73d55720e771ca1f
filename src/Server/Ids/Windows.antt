-- ===== src/Server/Ids/Windows.antt =====
-- How long an id is accepted, and what the text of a window says.
use pastebin.Base.{
  ℕ, zero, suc, ◌+◌, ◌-◌, ◌/◌, ◌^◌, ◌≤◌, ◌<◌, ◌≡◌, ◌⊎◌, inl, inr, refl, true, false, some, [], ◌∷◌,
  Bytes, bytes_eq_refl, bytes_eq_iff, arith, ◌==◌, take,
}
use pastebin.Base.Int.{ℤ, pos, negsuc}
use pastebin.Base.Text.{parse_int}
use pastebin.Base.Decimal.{
  parse_int-digits, parse_int-minus, digits_before_some, digits_from-decimal, digits_before,
}
use pastebin.Server.Request.{is_empty}
use pastebin.Base.Text.{hex}
use pastebin.Server.Ids.{
  security_id_window, itoa64, before, security_id_for_window, current_security_id,
  valid_security_id,
}

-- A signed number of 64 bits, other than the least.
abbrev IsNegatable : ℤ → Type 0
IsNegatable (pos n) = n < 2 ^ 63
IsNegatable (negsuc n) = suc n < 2 ^ 63

-- Every 64-bit number but the least is written so that ParseInt reads it back.
pub parse_int-itoa64 : (z : ℤ) → IsNegatable z → parse_int (itoa64 z) ≡ some z
unfolding itoa64
parse_int-itoa64 (pos zero) h = unfold parse_int in refl
parse_int-itoa64 (pos (suc n)) h =
    parse_int-digits (digits_before 20 (suc n) []) (suc n)
      (digits_before_some 19 (suc n) (omega arith)) (digits_from-decimal (suc n) (omega arith)) h
parse_int-itoa64 (negsuc n) h =
    let z : (suc n == 2 ^ 63) ≡ false = ground arith in
    rw z (
      parse_int-minus (digits_before 20 (suc n) []) n (digits_before_some 19 (suc n) (omega arith))
        (digits_from-decimal (suc n) (omega arith)) (omega arith))

-- For the least 64-bit number only the sign is written.
least_number : itoa64 (negsuc (2 ^ 63 - 1)) ≡ b'-' ∷ []
unfolding itoa64
least_number = refl

-- The two windows in which an id of `now` is accepted: its own and the next.
quotient_step :
    (t u : ℕ) → t ≤ u → u ≤ t + 172800 → (u / 172800 ≡ t / 172800) ⊎ (u / 172800 ≡ suc (t / 172800))
quotient_step t u a b = ground arith

quarter_filled : (s : Bytes) → is_empty s ≡ false → is_empty (take 16 (hex s)) ≡ false
unfolding hex
quarter_filled [] h = cc
quarter_filled (c ∷ s) h = refl

id_filled :
    (mac : Bytes → Bytes → Bytes) (secret : Bytes) (z : ℤ)
    → ((key s : Bytes) → is_empty (mac key s) ≡ false)
    → is_empty (security_id_for_window mac secret z) ≡ false
unfolding security_id_for_window
id_filled mac secret z filled = quarter_filled (mac secret (itoa64 z)) (filled secret (itoa64 z))

-- With a secret, and an HMAC that gives some bytes, the id that is published at a time is accepted for the 48
-- hours that follow.
pub valid-current :
    (mac : Bytes → Bytes → Bytes) (secret : Bytes) (t u : ℕ)
    → is_empty secret ≡ false
    → ((key s : Bytes) → is_empty (mac key s) ≡ false)
    → t ≤ u
    → u ≤ t + security_id_window
    → valid_security_id mac secret u (current_security_id mac secret t) ≡ true
unfolding valid_security_id current_security_id
valid-current mac secret t u keyed filled a b =
    let id = security_id_for_window mac secret (pos (t / 172800)) in
    let f = id_filled mac secret (pos (t / 172800)) filled in
    let same = bytes_eq_refl id in
    elim (quotient_step t u a b) [
      | inl e ↦ rw (keyed, f, e, same) refl
      | inr e ↦ rw (keyed, f, e, same) (ground arith)
    ]

-- An id is accepted only if it is the one of the window or of the window before.
pub valid_security_id_only :
    (mac : Bytes → Bytes → Bytes) (secret : Bytes) (now : ℕ) (id : Bytes)
    → valid_security_id mac secret now id ≡ true
    → (id ≡ security_id_for_window mac secret (pos (now / security_id_window)))
      ⊎ (id ≡ security_id_for_window mac secret (before (now / security_id_window)))
unfolding valid_security_id
valid_security_id_only mac secret now id h =
    let w = now / security_id_window in
    ground (
      arith,
      bytes_eq_iff (security_id_for_window mac secret (pos w)) id,
      bytes_eq_iff (security_id_for_window mac secret (before w)) id,
    )
