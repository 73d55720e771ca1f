-- ===== src/Server/Address.antt =====
-- The IP addresses of src/server/server.go: privateNets and isRoutableHost. An address of Go that has a form of
-- four bytes is a `v4`; any other is its first two bytes and the fourteen behind them.
use pastebin.Base.{
  ℕ, ◌%◌, Bool, true, false, not, ◌&&◌, ◌||◌, Option, none, some, [], ◌∷◌, Bytes, codes, bytes_eq,
  if◌then◌else◌, leb, ◌==◌,
}
use pastebin.Base.Text.{trim_space}
use pastebin.Server.Request.{equal_fold, is_empty}

pub data Ip : Type 0 where
  v4 : ℕ → ℕ → ℕ → ℕ → Ip
  v6 : ℕ → ℕ → Bytes → Ip

-- `ip.Equal(other)`
unfoldable pub ip_eq : Ip → Ip → Bool
unfolding bytes_eq
ip_eq (v4 a b c d) (v4 e f g h) = (a == e) && ((b == f) && ((c == g) && (d == h)))
ip_eq (v6 a b s) (v6 c d t) = (a == c) && ((b == d) && bytes_eq s t)
ip_eq _ _ = false

abbrev pub zeros : ℕ → Bytes
zeros last = 0 ∷ 0 ∷ 0 ∷ 0 ∷ 0 ∷ 0 ∷ 0 ∷ 0 ∷ 0 ∷ 0 ∷ 0 ∷ 0 ∷ 0 ∷ last ∷ []

unfoldable pub is_loopback : Ip → Bool
unfolding bytes_eq
is_loopback (v4 a b c d) = a == 127
is_loopback (v6 a b s) = (a == 0) && ((b == 0) && bytes_eq s (zeros 1))

unfoldable pub is_private : Ip → Bool
is_private (v4 a b c d) =
    (a == 10) || (((a == 172) && (leb 16 b && leb b 31)) || ((a == 192) && (b == 168)))
is_private (v6 a b s) = leb 252 a && leb a 253

unfoldable pub is_link_local : Ip → Bool
is_link_local (v4 a b c d) = (a == 169) && (b == 254)
is_link_local (v6 a b s) = (a == 254) && (leb 128 b && leb b 191)

unfoldable pub is_link_local_multicast : Ip → Bool
is_link_local_multicast (v4 a b c d) = (a == 224) && ((b == 0) && (c == 0))
is_link_local_multicast (v6 a b s) = (a == 255) && (b % 16 == 2)

unfoldable pub is_unspecified : Ip → Bool
unfolding bytes_eq
is_unspecified (v4 a b c d) = (a == 0) && ((b == 0) && ((c == 0) && (d == 0)))
is_unspecified (v6 a b s) = (a == 0) && ((b == 0) && bytes_eq s (zeros 0))

unfoldable pub is_multicast : Ip → Bool
is_multicast (v4 a b c d) = leb 224 a && leb a 239
is_multicast (v6 a b s) = a == 255

abbrev pub is_broadcast : Ip → Bool
is_broadcast (v4 a b c d) = (a == 255) && ((b == 255) && ((c == 255) && (d == 255)))
is_broadcast (v6 a b s) = false

-- `ip.IsGlobalUnicast()`
unfoldable pub is_global_unicast : Ip → Bool
unfolding is_unspecified is_loopback is_multicast is_link_local
is_global_unicast ip = not (
    is_broadcast ip
    || (is_unspecified ip || (is_loopback ip || (is_multicast ip || is_link_local ip))))

-- Whether one of privateNets contains the address.
unfoldable pub in_private_nets : Ip → Bool
unfolding is_loopback is_private is_link_local
in_private_nets ip = is_loopback ip || (is_private ip || is_link_local ip)

-- Two addresses of one /24.
abbrev pub same_subnet : Ip → Ip → Bool
same_subnet (v4 a b c d) (v4 e f g h) = (a == e) && ((b == f) && (c == g))
same_subnet _ _ = false

-- What the package net does: the host and the port of an address, and addresses and networks as texts; and the
-- path that url.Parse finds.
pub record Net : Type 0 where
  pub split_host_port : Bytes → Option (Bytes × Bytes)
  pub join_host_port : Bytes → Bytes → Bytes
  pub parse_ip : Bytes → Option Ip
  pub parse_cidr : Bytes → Option (Ip → Bool)
  pub url_path : Bytes → Option Bytes

abbrev pub routable : Option Ip → Bool
routable none = true
routable (some ip) =
    if is_loopback ip
      || (is_private ip || (is_link_local ip || (is_link_local_multicast ip || is_unspecified ip)))
    then false
    else is_global_unicast ip

module _ (net : Net) where
  unfoldable pub is_routable_host : Bytes → Bool
  unfolding trim_space equal_fold is_loopback is_private is_link_local is_link_local_multicast
      is_unspecified is_global_unicast
  is_routable_host h =
      let t = trim_space h in
      if is_empty t || equal_fold t (codes "localhost") then false else routable (net.parse_ip t)
