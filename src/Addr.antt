-- ===== src/Addr.antt =====
-- drivers/net/ovpn-dco/addr.h, bind.h and bind.c: transport addresses and the binding of a peer to
-- its remote endpoint. An address is a number, of 32 bits in the family AF_INET and of 128 in
-- AF_INET6; the unions of the source are read in the family that the record names.
use ovpn_dco.Base.{
  ℕ, Bool, ◌&&◌, ◌||◌, ◌==◌, if◌then◌else◌, Result, ok, err, Status, ◌>>◌, enomem, eafnosupport,
}

abbrev pub af_inet : ℕ
af_inet = 2

abbrev pub af_inet6 : ℕ
af_inet6 = 10

abbrev pub eth_p_ip : ℕ
eth_p_ip = 0x0800

abbrev pub eth_p_ipv6 : ℕ
eth_p_ipv6 = 0x86dd

-- `struct ovpn_sockaddr`
pub record SockAddr : Type 0 where
  pub family : ℕ
  pub addr : ℕ
  pub port : ℕ
  pub scope_id : ℕ

-- `struct ovpn_bind`
pub record Bind : Type 0 where
  pub sa : SockAddr
  pub local : ℕ

-- What the driver reads of a socket buffer's headers: the ethertype, the addresses of the IP
-- header, the source port of the UDP header, and the scope of the source on its interface.
pub record Packet : Type 0 where
  pub protocol : ℕ
  pub saddr : ℕ
  pub daddr : ℕ
  pub source : ℕ
  pub scope : ℕ

-- `skb_protocol_to_family`
unfoldable pub protocol_to_family : Packet → ℕ
protocol_to_family skb =
    if skb.protocol == eth_p_ip
    then af_inet
    else (if skb.protocol == eth_p_ipv6 then af_inet6 else 0)

-- `ovpn_sockaddr_validate`
unfoldable pub sockaddr_validate : SockAddr → Status
sockaddr_validate ss =
    if ss.family == af_inet || ss.family == af_inet6 then ok tt else err eafnosupport

-- `ovpn_bind_from_sockaddr`, with whether the allocation succeeds; the new binding is zeroed
unfoldable pub bind_from_sockaddr : Bool → SockAddr → Result Bind
unfolding sockaddr_validate
bind_from_sockaddr alloc ss = do
  sockaddr_validate ss
  if alloc then ok (record { sa = ss; local = 0 }) else err enomem

-- `ovpn_bind_skb_src_match`
unfoldable pub skb_src_match : Bind → Packet → Bool
unfolding protocol_to_family
skb_src_match bind skb =
    let family = protocol_to_family skb in
    bind.sa.family == family
    && ((family == af_inet || family == af_inet6)
        && (bind.sa.addr == skb.saddr && bind.sa.port == skb.source))
