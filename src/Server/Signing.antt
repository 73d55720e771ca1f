-- ===== src/Server/Signing.antt =====
-- What the tokens of src/server stand on: HMAC, base64, and the text that url.Parse takes for a host.
use pastebin.Base.{ℕ, ◌≡◌, false, Option, some, [], ◌∷◌, ◌++◌, Bytes, arith}
use pastebin.Base.Text.{cut, contains_byte}

-- HMAC-SHA256 with its key first, base64.RawURLEncoding, and the host that url.Parse finds.
pub record Library : Type 0 where
  pub mac : Bytes → Bytes → Bytes
  pub encode : Bytes → Bytes
  pub decode : Bytes → Option Bytes
  pub url_host : Bytes → Option Bytes

-- What base64 promises: coded bytes are read back, and the code has no dot.
pub record IsBase64 (lib : Library) : Type 0 where
  pub decode-encode : (s : Bytes) → lib.decode (lib.encode s) ≡ some s
  pub dotless : (s : Bytes) → contains_byte (lib.encode s) b'.' ≡ false

pub cut_first :
    (sep : ℕ) (a b : Bytes) → contains_byte a sep ≡ false → cut sep (a ++ sep ∷ b) ≡ some (a, b)
unfolding cut contains_byte
cut_first sep [] b h = ground arith
cut_first sep (c ∷ a) b h = ground (arith, cut_first sep a b)
