-- ===== src/Server/Captcha.antt =====
-- src/server/captcha.go: the arithmetic challenge of the forms. Times are Unix seconds, not negative.
pub mod Leak
use pastebin.Base.{
  ℕ, ◌+◌, ◌%◌, Bool, true, false, Option, none, some, List, [], ◌∷◌, ◌++◌, Bytes, codes, bytes_eq,
  if◌then◌else◌, ltb,
}
use pastebin.Base.Int.{ℤ, pos, negsuc}
use pastebin.Base.Text.{cut, parse_int, trim_space}
use pastebin.Base.Decimal.{decimal}
use pastebin.Server.Signing.{Library}
use pastebin.Server.Request.{is_empty}

-- Ten minutes.
abbrev pub captcha_ttl : ℕ
captcha_ttl = 600

pub record SimpleCaptcha : Type 0 where
  pub question : Bytes
  pub token : Bytes

-- `n > z`, for a time.
abbrev pub is_past : ℕ → ℤ → Bool
is_past n (pos z) = ltb z n
is_past n (negsuc z) = true

module _ (lib : Library) (secret : Bytes) where
  unfoldable pub sign_captcha_payload : Bytes → Bytes
  sign_captcha_payload payload = lib.encode payload ++ b'.' ∷ lib.encode (lib.mac secret payload)

  -- The two random bytes are `none` if the system has none.
  unfoldable pub generate_simple_captcha : ℕ → Option (ℕ × ℕ) → Option SimpleCaptcha
  generate_simple_captcha now none = none
  generate_simple_captcha now (some (x, y)) =
      let a = x % 9 + 1 in
      let b = y % 9 + 1 in
      some (record {
        question = codes "What is " ++ (decimal a ++ (codes " + " ++ (decimal b ++ codes "?")));
        token = sign_captcha_payload (decimal (a + b) ++ b':' ∷ decimal (now + captcha_ttl));
      })

  abbrev pub answers : Bytes → Bytes → Bool
  answers want got = if is_empty got then false else bytes_eq want got

  abbrev pub in_time : ℕ → Bytes → Bytes → Option ℤ → Bool
  in_time now want answer none = false
  in_time now want answer (some expiry) =
      if is_past now expiry then false else answers (trim_space want) (trim_space answer)

  abbrev pub fields_valid : ℕ → Bytes → Option (Bytes × Bytes) → Bool
  fields_valid now answer none = false
  fields_valid now answer (some (want, expiry)) = in_time now want answer (parse_int expiry)

  abbrev pub signed_valid : ℕ → Bytes → Option Bytes → Option Bytes → Bool
  signed_valid now answer (some payload) (some sig) =
      if bytes_eq sig (lib.mac secret payload)
      then fields_valid now answer (cut b':' payload)
      else false
  signed_valid now answer none _ = false
  signed_valid now answer (some payload) none = false

  abbrev pub parts_valid : ℕ → Bytes → Option (Bytes × Bytes) → Bool
  parts_valid now answer none = false
  parts_valid now answer (some (a, b)) = signed_valid now answer (lib.decode a) (lib.decode b)

  unfoldable pub validate_simple_captcha : ℕ → Bytes → Bytes → Bool
  validate_simple_captcha now token answer = parts_valid now answer (cut b'.' token)
