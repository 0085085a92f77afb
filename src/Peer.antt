-- ===== src/Peer.antt =====
-- drivers/net/ovpn-dco/peer.c and peer.h, ovpnstruct.h and stats.h: the peers of an interface. A
-- peer is an object at an address of the heap `peers`; the interface's tables hold addresses. The
-- rings, NAPI and the work structures are not part of this state. A count that drops to 0 queues
-- the peer's `delete_work`: its address goes to `deleting`.
pub mod Timer
pub mod Endpoint
pub mod Lookup
pub mod References
pub mod Table
pub mod Parts
use ovpn_dco.Base.{
  ℕ, ◌+◌, ◌-◌, ◌%◌, ◌^◌, List, [], ◌∷◌, Bool, true, false, ◌&&◌, not, Option, none, some, ◌==◌,
  if◌then◌else◌, update,
}
use ovpn_dco.Addr.{Bind, SockAddr}
use ovpn_dco.Crypto.{CryptoState, state_init}

-- `enum ovpn_del_peer_reason`
pub data DelPeerReason : Type 0 where
  teardown userspace expired transport_error : DelPeerReason

-- `struct ovpn_peer_stat`: an atomic64_t and an atomic_t
pub record PeerStat : Type 0 where
  pub bytes : ℕ
  pub packets : ℕ

-- `struct ovpn_peer_stats`
pub record PeerStats : Type 0 where
  pub rx : PeerStat
  pub tx : PeerStat

-- `struct ovpn_peer`. A timer is the time that it is armed for; `protocol` is that of its socket.
pub record Peer : Type 0 where
  pub id : ℕ
  pub vpn_ipv4 : ℕ
  pub vpn_ipv6 : ℕ
  pub bind : Option Bind
  pub crypto : CryptoState
  pub keepalive_xmit : Option ℕ
  pub keepalive_interval : ℕ
  pub keepalive_recv : Option ℕ
  pub keepalive_timeout : ℕ
  pub stats : PeerStats
  pub delete_reason : DelPeerReason
  pub refcount : ℕ
  pub protocol : ℕ

-- `ovpn_peer_stats_init`
unfoldable pub stats_init : PeerStats
stats_init = record {
  rx = record { bytes = 0; packets = 0 };
  tx = record { bytes = 0; packets = 0 };
}

-- `ovpn_peer_stats_increment`
unfoldable pub stats_increment : PeerStat → ℕ → PeerStat
stats_increment stat n = record {
  bytes = (stat.bytes + n) % 2 ^ 64;
  packets = (stat.packets + 1) % 2 ^ 32;
}

-- `ovpn_peer_stats_increment_rx` and `ovpn_peer_stats_increment_tx`
abbrev pub stats_increment_rx : Peer → ℕ → Peer
stats_increment_rx pr n = record pr {
  stats = record pr.stats { rx = stats_increment pr.stats.rx n };
}

abbrev pub stats_increment_tx : Peer → ℕ → Peer
stats_increment_tx pr n = record pr {
  stats = record pr.stats { tx = stats_increment pr.stats.tx n };
}

-- the fields that `ovpn_peer_create` sets; the allocation zeroes the others
unfoldable pub peer_create : ℕ → ℕ → Peer
unfolding stats_init state_init
peer_create id protocol = record {
  id = id;
  vpn_ipv4 = 0;
  vpn_ipv6 = 0;
  bind = none;
  crypto = state_init;
  keepalive_xmit = none;
  keepalive_interval = 0;
  keepalive_recv = none;
  keepalive_timeout = 0;
  stats = stats_init;
  delete_reason = DelPeerReason.teardown;
  refcount = 1;
  protocol = protocol;
}

-- `ovpn_bind_reset`; the old binding is freed after a grace period
abbrev pub bind_reset : Peer → Option Bind → Peer
bind_reset pr new = record pr { bind = new }

-- A node of the table by VPN address: each peer has one for either family.
pub data VpnNode : Type 0 where
  addr4 addr6 : ℕ → VpnNode

-- `struct ovpn_struct`. `mode` is the number of `enum ovpn_mode`; a table maps a bucket to its list.
pub record Ovpn : Type 0 where
  pub mode : ℕ
  pub by_id : ℕ → List ℕ
  pub by_transp_addr : ℕ → List ℕ
  pub by_vpn_addr : ℕ → List VpnNode
  pub peer : Option ℕ
  pub peers : ℕ → Peer
  pub deleting : List ℕ
  pub mtu : ℕ
  pub registered_nl_portid : ℕ
  pub registered_nl_portid_set : Bool

abbrev pub mode_p2p : ℕ
mode_p2p = 0

abbrev pub mode_mp : ℕ
mode_mp = 1

abbrev pub set_peer : Ovpn → ℕ → Peer → Ovpn
set_peer o p pr = record o { peers = update o.peers p pr }

-- `ovpn_peer_hold`: `kref_get_unless_zero`
unfoldable pub peer_hold : Ovpn → ℕ → Bool × Ovpn
peer_hold o p =
    if (o.peers p).refcount == 0
    then (false, o)
    else (true, set_peer o p (record (o.peers p) { refcount = (o.peers p).refcount + 1 }))

-- `ovpn_peer_put`: `kref_put`, with `ovpn_peer_release_kref` at 0. A put at 0 is a bug that the
-- kernel reports; here it leaves the count and queues nothing.
unfoldable pub peer_put : Ovpn → ℕ → Ovpn
peer_put o p =
    let n = (o.peers p).refcount in
    record o {
      peers = update o.peers p (record (o.peers p) { refcount = n - 1 });
      deleting = if n == 1 then p ∷ o.deleting else o.deleting;
    }
