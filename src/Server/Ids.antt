-- ===== src/Server/Ids.antt =====
-- src/server/security_id.go: the id of the security contact, which changes every 48 hours. A window is the
-- quotient of the Unix time, which is not negative.
pub mod Windows
use pastebin.Base.{
  ℕ, zero, suc, ◌+◌, ◌-◌, ◌/◌, ◌%◌, ◌^◌, Bool, true, false, ◌||◌, List, [], ◌∷◌, Bytes, bytes_eq,
  if◌then◌else◌, ltb, leb, ◌==◌, take,
}
use pastebin.Base.Int.{ℤ, pos, negsuc}
use pastebin.Base.Text.{hex}
use pastebin.Base.Decimal.{digits_before}
use pastebin.Server.Request.{is_empty}

abbrev pub security_id_window : ℕ
security_id_window = 172800

-- A 64-bit number; the negation of the least one is itself, so that no digit is written for it.
unfoldable pub itoa64 : ℤ → Bytes
itoa64 (pos zero) = b'0' ∷ []
itoa64 (pos (suc n)) = digits_before 20 (suc n) []
itoa64 (negsuc n) = b'-' ∷ (if suc n == 2 ^ 63 then [] else digits_before 20 (suc n) [])

abbrev pub before : ℕ → ℤ
before zero = negsuc 0
before (suc n) = pos n

-- `mac` is HMAC-SHA256, the key first.
module _ (mac : Bytes → Bytes → Bytes) (install_secret : Bytes) where
  unfoldable pub security_id_for_window : ℤ → Bytes
  unfolding itoa64 hex
  security_id_for_window window = take 16 (hex (mac install_secret (itoa64 window)))

  -- At a Unix time.
  unfoldable pub current_security_id : ℕ → Bytes
  current_security_id now =
      if is_empty install_secret
      then []
      else security_id_for_window (pos (now / security_id_window))

  unfoldable pub valid_security_id : ℕ → Bytes → Bool
  valid_security_id now id =
      let w = now / security_id_window in
      if is_empty id || is_empty install_secret
      then false
      else bytes_eq (security_id_for_window (pos w)) id
        || bytes_eq (security_id_for_window (before w)) id
