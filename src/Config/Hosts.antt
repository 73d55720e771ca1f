-- ===== src/Config/Hosts.antt =====
-- src/config/hostvalidate.go: IsValidHost and IsValidSSLHost.
pub mod Public
use pastebin.Base.{
  Bool, true, false, not, ◌&&◌, ◌||◌, Option, none, some, List, [], ◌∷◌, ◌++◌, map, Bytes, codes,
  bytes_eq, if◌then◌else◌, is_some,
}
use pastebin.Base.Text.{trim_space, to_lower, contains_byte, has_suffix}
use pastebin.Config.Switches.{is_word, is_empty}

abbrev pub dev_only_tlds : List Bytes
dev_only_tlds = map codes (
    "localhost" ∷ "test" ∷ "example" ∷ "invalid" ∷ "local" ∷ "lan" ∷ "internal" ∷ "home"
    ∷ "localdomain" ∷ "home.arpa" ∷ "intranet" ∷ "corp" ∷ "private" ∷ [])

-- net.ParseIP finds an address, and what the package publicsuffix says: the suffix of a host and whether ICANN manages
-- it, and the suffix with one label more.
pub record Names : Type 0 where
  pub is_ip : Bytes → Bool
  pub public_suffix : Bytes → Bytes × Bool
  pub etld_plus_one : Bytes → Option Bytes

abbrev pub has_text : Option Bytes → Bool
has_text none = false
has_text (some s) = not (is_empty s)

unfoldable pub is_overlay : Bytes → Bool
is_overlay host =
    has_suffix host (codes ".onion")
    || (has_suffix host (codes ".i2p") || has_suffix host (codes ".exit"))

module _ (names : Names) where
  -- The host in lower case and without white space, behind the tests on its form.
  unfoldable pub has_public_name : Bytes → Bool → Bool
  has_public_name host dev_mode =
      let suffix = names.public_suffix host in
      if is_word suffix.0 dev_only_tlds
      then dev_mode
      else if not dev_mode && not suffix.1
      then false
      else has_text (names.etld_plus_one host)

  unfoldable pub is_valid_host : Bytes → Bool → Bytes → Bool
  is_valid_host text dev_mode project =
      let host = to_lower (trim_space text) in
      if is_empty host
      then false
      else if names.is_ip host
      then false
      else if bytes_eq host (codes "localhost")
      then dev_mode
      else if not (is_empty project) && bytes_eq host (to_lower project)
      then dev_mode
      else if not (contains_byte host b'.')
      then false
      else if is_overlay host
      then true
      else if not (is_empty project) && has_suffix host (codes "." ++ to_lower project)
      then dev_mode
      else has_public_name host dev_mode

  unfoldable pub is_valid_ssl_host : Bytes → Bool
  is_valid_ssl_host text =
      if has_suffix (to_lower text) (codes ".onion") then false else is_valid_host text false []
