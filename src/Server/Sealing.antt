-- ===== src/Server/Sealing.antt =====
-- src/common/secretbox/secretbox.go, and encryptSecurityReport and decryptSecurityReport of src/server/pgp_keypair.go.
use pastebin.Base.{
  ℕ, not, Option, none, some, List, [], ◌∷◌, ◌++◌, Bytes, codes, bytes_eq, if◌then◌else◌, ltb, ◌==◌,
  take, drop, length,
}
use pastebin.Server.Request.{is_empty}

-- AES-256-GCM with its key and nonce first, and OpenPGP with a public or a private key first.
pub record Ciphers : Type 0 where
  pub gcm_seal : Bytes → Bytes → Bytes → Bytes
  pub gcm_open : Bytes → Bytes → Bytes → Option Bytes
  pub pgp_encrypt : Bytes → Bytes → Option Bytes
  pub pgp_decrypt : Bytes → Bytes → Option Bytes

-- The bytes of a nonce.
abbrev pub nonce_size : ℕ
nonce_size = 12

module _ (c : Ciphers) where
  -- The nonce is `none` if the system has no random bytes.
  unfoldable pub seal : Bytes → Option Bytes → Bytes → Option Bytes
  seal key none plain = none
  seal key (some nonce) plain =
      if length key == 32 then some (nonce ++ c.gcm_seal key nonce plain) else none

  unfoldable pub open_sealed : Bytes → Bytes → Option Bytes
  open_sealed key sealed =
      if not (length key == 32)
      then none
      else if ltb (length sealed) nonce_size
      then none
      else c.gcm_open key (take nonce_size sealed) (drop nonce_size sealed)

  abbrev pub with_method : Bytes → Option Bytes → Option (Bytes × Bytes)
  with_method method none = none
  with_method method (some body) = some (body, method)

  abbrev pub or_aes : Option Bytes → Option (Bytes × Bytes) → Option (Bytes × Bytes)
  or_aes none other = other
  or_aes (some msg) other = some (msg, codes "pgp")

  -- `public` is the key of the project, empty if there is none: the body and the method.
  unfoldable pub encrypt_security_report :
      Bytes → Bytes → Option Bytes → Bytes → Option (Bytes × Bytes)
  encrypt_security_report public aes_key nonce body =
      let aes = with_method (codes "aes-256-gcm") (seal aes_key nonce body) in
      if is_empty public then aes else or_aes (c.pgp_encrypt public body) aes

  abbrev pub first_some : Option Bytes → Option Bytes → Option Bytes
  first_some none other = other
  first_some (some plain) other = some plain

  -- The private keys that can be read, the current one first.
  unfoldable pub decrypt_any : List Bytes → Bytes → Option Bytes
  decrypt_any [] sealed = none
  decrypt_any (k ∷ keys) sealed = first_some (c.pgp_decrypt k sealed) (decrypt_any keys sealed)

  unfoldable pub decrypt_security_report : List Bytes → Bytes → Bytes → Bytes → Option Bytes
  decrypt_security_report keys aes_key sealed method =
      if bytes_eq method (codes "pgp") then decrypt_any keys sealed else open_sealed aes_key sealed
