-- ===== src/Device.antt =====
-- drivers/net/ovpn-dco/main.c: an interface, its MTU and its removal.
pub mod Setup
pub mod Creation
pub mod Module
use ovpn_dco.Base.{
  ℕ, ◌+◌, ◌-◌, ◌^◌, ◌≤◌, ◌<◌, ◌≡◌, arith, [], false, ◌||◌, Option, none, some, ◌==◌, ltb,
  if◌then◌else◌, ok, err, Status, einval,
}
use ovpn_dco.Aead.{auth_tag_size, nonce_wire_size}
use ovpn_dco.Peer.{Ovpn, mode_p2p}
use ovpn_dco.Peer.Table.{release_p2p, peers_free}
use ovpn_dco.Data.{ipproto_tcp, ipproto_udp}
use ovpn_dco.Data.Transmit.{skb_len_for}

-- the kernel's IPV4_MIN_MTU, IP_MAX_MTU and ETH_DATA_LEN
abbrev pub ipv4_min_mtu : ℕ
ipv4_min_mtu = 68

abbrev pub ip_max_mtu : ℕ
ip_max_mtu = 0xffff

abbrev pub eth_data_len : ℕ
eth_data_len = 1500

-- `overhead` of `ovpn_setup`: op word, packet id, tag, UDP header and the larger of the IP headers
abbrev pub overhead : ℕ
overhead = 4 + nonce_wire_size + auth_tag_size + 8 + 40

-- `ovpn_net_change_mtu`; the length of the hard header is 0, as `ovpn_setup` sets it
unfoldable pub change_mtu : Ovpn → ℕ → Status × Ovpn
change_mtu o new_mtu =
    if ltb new_mtu ipv4_min_mtu || ltb ip_max_mtu new_mtu
    then (err einval, o)
    else (ok tt, record o { mtu = new_mtu })

-- `ovpn_dellink`, up to the unregistration
unfoldable pub dellink : Ovpn → Ovpn
unfolding release_p2p peers_free
dellink o = if o.mode == mode_p2p then release_p2p o else peers_free o

-- the room for a packet with its headers does not wrap around
abbrev pub IsRoomy : ℕ → ℕ → ℕ → Type 0
IsRoomy header protocol len =
    skb_len_for header protocol len ≡ header + len + (if protocol == ipproto_tcp then 2 else 0)

-- Each MTU that `ovpn_net_change_mtu` accepts lies between 68 and 65535. A packet of a length up to
-- the MTU gets its full room in `ovpn_send_data` if the MTU and the headers, with two bytes more,
-- are below 2 ^ 16. Otherwise the room may be too small: for UDP it is less than the packet's
-- length as soon as the headers and the length reach 2 ^ 16.
pub change_mtu-IsRoomy :
    (o : Ovpn) (new_mtu header protocol len : ℕ)
    → (change_mtu o new_mtu).0 ≡ ok tt
    → header < 2 ^ 16
    → len ≤ (change_mtu o new_mtu).1.mtu
    → (68 ≤ new_mtu)
      × (new_mtu ≤ 65535)
      × (new_mtu + header + 2 < 2 ^ 16 → IsRoomy header protocol len)
      × (2 ^ 16 ≤ header + len → skb_len_for header ipproto_udp len < len)
unfolding change_mtu skb_len_for
change_mtu-IsRoomy o new_mtu header protocol len e h short =
    (ground arith, ground arith, λ small. ground arith, λ large. ground arith)
