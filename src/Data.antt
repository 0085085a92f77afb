-- ===== src/Data.antt =====
-- drivers/net/ovpn-dco/ovpn.c and skb.h: the data channel of a peer. What the kernel gives is the
-- record `Kernel`, and what its calls return while one packet is handled the record `Handling`. A
-- packet is the list of its bytes; what was an error -1 in the source is `eperm`, which has that
-- value.
pub mod Receive
pub mod Transmit
pub mod Keys
pub mod Refine
pub mod RoundTrip
pub mod Filter
pub mod Decrypt
pub mod References
pub mod Poll
pub mod Worker
use ovpn_dco.Base.{
  ℕ, ◌+◌, ◌*◌, ◌/◌, ◌^◌, List, [], ◌∷◌, Bool, true, false, ◌&&◌, not, Option, ◌==◌, leb,
  if◌then◌else◌, length, take, get_or, Result,
}
use ovpn_dco.Proto.{ntohl_at}
use ovpn_dco.Addr.{Packet, eth_p_ip, eth_p_ipv6}
use ovpn_dco.Aead.{CryptoApi, Buffers}
use ovpn_dco.Peer.Lookup.{Key}

-- The crypto API, the hash, the routing tables and the clock.
pub record Kernel : Type 0 where
  pub api : CryptoApi
  pub jhash : Key → ℕ
  pub route4 : ℕ → Result (Option ℕ)
  pub route6 : ℕ → Result (Option ℕ)
  pub msecs_to_jiffies : ℕ → ℕ
  pub hz : ℕ

-- The time, the buffer calls, whether `pskb_may_pull` finds memory for so many bytes, and whether
-- the checksum of an outgoing packet needs no help or is computed. `beyond` is what lies in memory
-- after a packet that was decrypted: the addresses of an IPv6 header are read there when the packet
-- is shorter than the header, as only 20 bytes of it are checked.
pub record Handling : Type 0 where
  pub now : ℕ
  pub buffers : Buffers
  pub memory : ℕ → Bool
  pub checksum : Bool
  pub beyond : List ℕ

abbrev pub ipproto_tcp : ℕ
ipproto_tcp = 6

abbrev pub ipproto_udp : ℕ
ipproto_udp = 17

abbrev pub keepalive_first_byte : ℕ
keepalive_first_byte = 0x2a

abbrev pub keepalive_message : List ℕ
keepalive_message =
    0x2a ∷ 0x18 ∷ 0x7b ∷ 0xf3 ∷ 0x64 ∷ 0x1e ∷ 0xb4 ∷ 0xcb ∷ 0x07 ∷ 0xed ∷ 0x2d ∷ 0x0a ∷ 0x98 ∷ 0x1f
    ∷ 0xc7 ∷ 0x48 ∷ []

abbrev pub explicit_exit_notify_message : List ℕ
explicit_exit_notify_message =
    0x28 ∷ 0x7f ∷ 0x34 ∷ 0x6b ∷ 0xd4 ∷ 0xef ∷ 0x7a ∷ 0x81 ∷ 0x2d ∷ 0x56 ∷ 0xb8 ∷ 0xd3 ∷ 0xaf ∷ 0xc5
    ∷ 0x45 ∷ 0x9c ∷ 6 ∷ []

abbrev pub may_pull : (ℕ → Bool) → ℕ → List ℕ → Bool
may_pull memory n skb = leb n (length skb) && memory n

-- whether `memcmp` gives 0
abbrev pub same_bytes : List ℕ → List ℕ → Bool
same_bytes [] [] = true
same_bytes (x ∷ xs) (y ∷ ys) = (x == y) && same_bytes xs ys
same_bytes _ _ = false

-- `ovpn_is_keepalive`
unfoldable pub is_keepalive : (ℕ → Bool) → List ℕ → Bool
is_keepalive memory skb =
    if not (get_or skb 0 0 == keepalive_first_byte)
    then false
    else (if not (may_pull memory (length keepalive_message) skb)
        then false
        else same_bytes (take (length keepalive_message) skb) keepalive_message)

-- `ovpn_ip_check_protocol`: an IPv4 header of 20 bytes is pulled for either version
unfoldable pub ip_check_protocol : (ℕ → Bool) → List ℕ → ℕ
ip_check_protocol memory skb =
    if not (may_pull memory 20 skb)
    then 0
    else (if get_or skb 0 0 / 2 ^ 4 == 4
        then eth_p_ip
        else (if get_or skb 0 0 / 2 ^ 4 == 6 then eth_p_ipv6 else 0))

-- the 16 bytes at an offset as one number
abbrev pub ipv6_addr_at : List ℕ → ℕ → ℕ
ipv6_addr_at skb offset =
    ntohl_at skb offset * 2 ^ 96
    + ntohl_at skb (offset + 4) * 2 ^ 64
    + ntohl_at skb (offset + 8) * 2 ^ 32
    + ntohl_at skb (offset + 12)

-- What the look-up by VPN address reads of a packet and of what follows it in memory: the addresses
-- of its IP header. Its transport header is not read.
unfoldable pub ip_packet : ℕ → List ℕ → Packet
ip_packet proto skb = record {
  protocol = proto;
  saddr = if proto == eth_p_ip then ntohl_at skb 12 else ipv6_addr_at skb 8;
  daddr = if proto == eth_p_ip then ntohl_at skb 16 else ipv6_addr_at skb 24;
  source = 0;
  scope = 0;
}
