-- ===== src/Server/Proxies.antt =====
-- src/server/server.go: peerAddr, isTrustedPeer, realIPMiddleware, torRequestOnion and i2pRequestB32.
use pastebin.Base.{
  Bool, false, not, ◌&&◌, ◌||◌, Option, none, some, List, [], ◌∷◌, Bytes, codes, if◌then◌else◌,
  is_some,
}
use pastebin.Base.Text.{trim_space, contains_byte, cut}
use pastebin.Server.Request.{Request, equal_fold, is_empty, first_text}
use pastebin.Server.Address.{Ip, ip_eq, in_private_nets, same_subnet, Net}

-- The settings that the address of the server depends on; `fqdn` is what ResolveFQDN finds, and `resolved` the
-- addresses of the proxies that are given by name.
pub record Settings : Type 0 where
  pub onion_address : Bytes
  pub b32_address : Bytes
  pub base_url : Bytes
  pub address : Bytes
  pub fqdn : Bytes
  pub additional : List Bytes
  pub resolved : List Ip

abbrev pub kept : Option Bytes → Bytes → Bytes
kept none addr = addr
kept (some v) addr = first_text v addr

unfoldable pub peer_addr : Request → Bytes
peer_addr r = kept r.peer r.remote_addr

unfoldable pub any_equal : Ip → List Ip → Bool
any_equal ip [] = false
any_equal ip (x ∷ xs) = ip_eq x ip || any_equal ip xs

-- The part in front of the first comma.
abbrev pub leftmost : Bytes → Option (Bytes × Bytes) → Bytes
leftmost s none = s
leftmost s (some (a, b)) = a

-- The first text that is not empty.
unfoldable pub first_of : List Bytes → Bytes
first_of [] = []
first_of (s ∷ l) = first_text s (first_of l)

abbrev pub host_of : Option (Bytes × Bytes) → Bytes → Bytes
host_of none addr = addr
host_of (some (h, p)) addr = h

abbrev pub near : Option Ip → Ip → Bool
near none ip = false
near (some listen) ip = same_subnet ip listen

abbrev pub inside : Option (Ip → Bool) → Ip → Bool
inside none ip = false
inside (some net) ip = net ip

abbrev pub equals : Option Ip → Ip → Bool
equals none ip = false
equals (some x) ip = ip_eq x ip

abbrev pub port_of : Option (Bytes × Bytes) → Bytes
port_of none = []
port_of (some (h, p)) = p

abbrev pub noted : Request → Request
noted r = record r { peer = some r.remote_addr }

module _ (net : Net) where
  -- An entry of server.trusted_proxies.additional.
  unfoldable pub entry_matches : Ip → Bytes → Bool
  entry_matches ip entry =
      if contains_byte entry b'/'
      then inside (net.parse_cidr entry) ip
      else equals (net.parse_ip entry) ip

  unfoldable pub any_entry : Ip → List Bytes → Bool
  any_entry ip [] = false
  any_entry ip (e ∷ entries) = entry_matches ip e || any_entry ip entries

  abbrev pub trusts : Settings → Option Ip → Bool
  trusts cfg none = false
  trusts cfg (some ip) =
      in_private_nets ip
      || (near (net.parse_ip (trim_space cfg.address)) ip
          || (any_entry ip cfg.additional || any_equal ip cfg.resolved))

  unfoldable pub is_trusted_peer : Settings → Request → Bool
  is_trusted_peer cfg r =
      let addr = peer_addr r in trusts cfg (net.parse_ip (host_of (net.split_host_port addr) addr))

  -- The address that the proxy's headers give for the client.
  unfoldable pub client_ip : Request → Bytes
  client_ip r =
      let named = trim_space (
        first_of (
          r.header (codes "CF-Connecting-IP")
          ∷ r.header (codes "True-Client-IP")
          ∷ r.header (codes "X-Real-IP")
          ∷ [])) in
      let xff = r.header (codes "X-Forwarded-For") in
      let listed = trim_space (leftmost xff (cut b',' xff)) in
      let last = trim_space (r.header (codes "X-Client-IP")) in
      first_of (named ∷ listed ∷ last ∷ [])

  abbrev pub rewritten : Bytes → Bytes → Bytes
  rewritten ip port = if is_empty port then ip else net.join_host_port ip port

  abbrev pub client_addr : Request → Bytes
  client_addr r =
      let ip = client_ip r in
      if not (is_empty ip) && is_some (net.parse_ip ip)
      then rewritten ip (port_of (net.split_host_port r.remote_addr))
      else r.remote_addr

  -- The request that the next handler sees.
  unfoldable pub real_ip : Settings → Request → Request
  real_ip cfg r =
      if is_trusted_peer cfg (noted r)
      then record (noted r) { remote_addr = client_addr r }
      else noted r

  -- The overlay address, if the request came for it.
  unfoldable pub overlay_host : Bytes → Request → Bytes
  overlay_host configured r =
      let address = trim_space configured in
      if is_empty address
      then []
      else if equal_fold (host_of (net.split_host_port r.host) r.host) address
      then address
      else []

  abbrev pub tor_request_onion : Settings → Request → Bytes
  tor_request_onion cfg r = overlay_host cfg.onion_address r

  abbrev pub i2p_request_b32 : Settings → Request → Bytes
  i2p_request_b32 cfg r = overlay_host cfg.b32_address r
