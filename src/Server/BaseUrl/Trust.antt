-- ===== src/Server/BaseUrl/Trust.antt =====
-- What the headers of a proxy can change, behind realIPMiddleware.
use pastebin.Base.{◌≡◌, ◌≢◌, refl, sym, ap, inl, inr, ◌∙◌, false, [], ◌∷◌, Bytes, Bool-cases}
use pastebin.Server.Request.{Request, first_text}
use pastebin.Server.Address.{Net}
use pastebin.Server.Proxies.{
  Settings, is_trusted_peer, real_ip, noted, peer_addr, overlay_host, trusts, host_of, client_addr,
}
use pastebin.Server.BaseUrl.{
  base_url, asset_prefix, forwarded_scheme, host_and_port, proxy_prefix, proxy_host, direct_url,
  configured_prefix,
}

-- The verdict on a peer reads no header.
trusted_same :
    (net : Net) (cfg : Settings) (r : Request) (h : Bytes → Bytes)
    → is_trusted_peer net cfg (noted (record r { header = h })) ≡ is_trusted_peer net cfg (noted r)
unfolding is_trusted_peer peer_addr
trusted_same net cfg r h = refl

untrusted_noted :
    (net : Net) (cfg : Settings) (r : Request)
    → is_trusted_peer net cfg (noted r) ≡ false
    → real_ip net cfg r ≡ noted r
unfolding real_ip
untrusted_noted net cfg r h = rw h refl

direct_url_same :
    (net : Net) (cfg : Settings) (r : Request) (h : Bytes → Bytes)
    → direct_url net cfg (record r { header = h }) false ≡ direct_url net cfg r false
unfolding forwarded_scheme host_and_port proxy_prefix proxy_host
direct_url_same net cfg r h = refl

untrusted_base_url :
    (net : Net) (cfg : Settings) (r : Request) (h : Bytes → Bytes)
    → is_trusted_peer net cfg (noted r) ≡ false
    → base_url net cfg (noted (record r { header = h })) ≡ base_url net cfg (noted r)
unfolding base_url overlay_host
untrusted_base_url net cfg r h u =
    rw (trusted_same net cfg r h, u, direct_url_same net cfg (noted r) h) refl

untrusted_asset_prefix :
    (net : Net) (cfg : Settings) (r : Request)
    → is_trusted_peer net cfg r ≡ false
    → asset_prefix net cfg r ≡ configured_prefix net cfg
unfolding asset_prefix
untrusted_asset_prefix net cfg r u = rw u refl

-- Behind realIPMiddleware a peer that is not trusted changes nothing by its headers: whatever it sends, its
-- address stays the one of the connection, and the base URL and the asset prefix are the same.
pub headers_ignored :
    (net : Net) (cfg : Settings) (r : Request) (h : Bytes → Bytes)
    → is_trusted_peer net cfg (noted r) ≡ false
    → ((real_ip net cfg (record r { header = h })).remote_addr ≡ r.remote_addr)
      × (base_url net cfg (real_ip net cfg (record r { header = h }))
          ≡ base_url net cfg (real_ip net cfg r))
      × (asset_prefix net cfg (real_ip net cfg (record r { header = h }))
          ≡ asset_prefix net cfg (real_ip net cfg r))
headers_ignored net cfg r h u =
    let v = trusted_same net cfg r h ∙ u in
    let s = untrusted_noted net cfg (record r { header = h }) v in
    let t = untrusted_noted net cfg r u in
    rw (s, t)
      (
        refl,
        untrusted_base_url net cfg r h u,
        untrusted_asset_prefix net cfg (noted (record r { header = h })) v
            ∙ sym (untrusted_asset_prefix net cfg (noted r) u),
      )

first_text_filled : (a b : Bytes) → a ≢ [] → first_text a b ≡ first_text a a
first_text_filled [] b h = absurd (h refl)
first_text_filled (c ∷ a) b h = refl

peer_kept :
    (net : Net) (cfg : Settings) (r : Request) (addr : Bytes)
    → r.remote_addr ≢ []
    → is_trusted_peer net cfg (record (noted r) { remote_addr = addr })
      ≡ is_trusted_peer net cfg (noted r)
unfolding is_trusted_peer peer_addr
peer_kept net cfg r addr h =
    let e = first_text_filled r.remote_addr addr h in
    ap (λ a. trusts net cfg (net.parse_ip (host_of (net.split_host_port a) a))) e

-- The address that the middleware puts in does not change whom the later handlers trust: they judge the peer
-- of the connection, as the middleware did.
pub is_trusted_peer-real_ip :
    (net : Net) (cfg : Settings) (r : Request)
    → r.remote_addr ≢ []
    → is_trusted_peer net cfg (real_ip net cfg r) ≡ is_trusted_peer net cfg (noted r)
unfolding real_ip
is_trusted_peer-real_ip net cfg r h = elim (Bool-cases (is_trusted_peer net cfg (noted r))) [
  | inl t ↦ rw t (peer_kept net cfg r (client_addr net r) h ∙ t)
  | inr u ↦ rw u u
]
