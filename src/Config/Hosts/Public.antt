-- ===== src/Config/Hosts/Public.antt =====
-- The hosts for which a public certificate may be asked.
use pastebin.Base.{◌≡◌, ◌⊎◌, refl, true, false, Bytes, codes, bytes_eq, arith}
use pastebin.Base.Text.{trim_space, to_lower, contains_byte, has_suffix}
use pastebin.Config.Switches.{is_word, is_empty}
use pastebin.Config.Hosts.{
  Names, dev_only_tlds, has_text, is_overlay, has_public_name, is_valid_host, is_valid_ssl_host,
}

-- A host that is accepted for a certificate does not end with `.onion` as it is written; behind its white space it is no
-- address and not `localhost`, it has a dot, and it is the name of an overlay network, or else its suffix is one that
-- ICANN manages and no development one, and the package finds a domain under that suffix.
pub is_valid_ssl_host_public :
    (names : Names) (text : Bytes)
    → is_valid_ssl_host names text ≡ true
    → (has_suffix (to_lower text) (codes ".onion") ≡ false)
      × (names.is_ip (to_lower (trim_space text)) ≡ false)
      × (bytes_eq (to_lower (trim_space text)) (codes "localhost") ≡ false)
      × (contains_byte (to_lower (trim_space text)) b'.' ≡ true)
      × ((is_overlay (to_lower (trim_space text)) ≡ true)
          ⊎ ((is_word (names.public_suffix (to_lower (trim_space text))).0 dev_only_tlds ≡ false)
              × ((names.public_suffix (to_lower (trim_space text))).1 ≡ true)
              × (has_text (names.etld_plus_one (to_lower (trim_space text))) ≡ true)))
unfolding is_valid_ssl_host is_valid_host has_public_name
is_valid_ssl_host_public names text h = ground (arith, h)

-- A name of I2P or of the Tor exits is accepted for a public certificate, although no public name server knows it.
pub overlay_accepted :
    (names : Names) (text : Bytes)
    → has_suffix (to_lower text) (codes ".onion") ≡ false
    → is_empty (to_lower (trim_space text)) ≡ false
    → names.is_ip (to_lower (trim_space text)) ≡ false
    → bytes_eq (to_lower (trim_space text)) (codes "localhost") ≡ false
    → contains_byte (to_lower (trim_space text)) b'.' ≡ true
    → is_overlay (to_lower (trim_space text)) ≡ true
    → is_valid_ssl_host names text ≡ true
unfolding is_valid_ssl_host is_valid_host
overlay_accepted names text a b c d e f = rw (a, b, c, d, e, f) refl
