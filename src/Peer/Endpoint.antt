-- ===== src/Peer/Endpoint.antt =====
-- The remote and local endpoint of a peer: `ovpn_peer_reset_sockaddr`, `ovpn_peer_float`,
-- `ovpn_peer_update_local_endpoint` and `ovpn_peer_transp_match` of peer.c. The allocation of a
-- binding succeeds or not by the argument `alloc`. The spinlock and RCU make each one step.
use ovpn_dco.Base.{
  ℕ, ◌≡◌, arith, Bool, true, false, ◌&&◌, ◌||◌, Option, none, some, ◌==◌, if◌then◌else◌, ok, err,
  Status, einval, ◌⊎◌,
}
use ovpn_dco.Addr.{
  SockAddr, Bind, Packet, af_inet, af_inet6, protocol_to_family, bind_from_sockaddr, skb_src_match,
}
use ovpn_dco.Peer.{bind_reset, Peer}

-- `ovpn_peer_reset_sockaddr`
unfoldable pub reset_sockaddr : Bool → Peer → SockAddr → Option ℕ → Status × Peer
unfolding bind_from_sockaddr
reset_sockaddr alloc pr ss local_ip = elim (bind_from_sockaddr alloc ss) [
  | err e ↦ (err e, pr)
  | ok bind ↦ elim local_ip [
    | none ↦ (ok tt, bind_reset pr (some bind))
    | some ip ↦
        if ss.family == af_inet || ss.family == af_inet6
        then (ok tt, bind_reset pr (some (record bind { local = ip })))
        else (err einval, pr)
  ]
]

-- the address that a packet comes from; the scope is read for IPv6 alone
unfoldable pub source_addr : Packet → SockAddr
unfolding protocol_to_family
source_addr skb = record {
  family = protocol_to_family skb;
  addr = skb.saddr;
  port = skb.source;
  scope_id = if protocol_to_family skb == af_inet6 then skb.scope else 0;
}

-- `ovpn_peer_float`
unfoldable pub peer_float : Bool → Peer → Packet → Peer
unfolding skb_src_match reset_sockaddr source_addr
peer_float alloc pr skb = elim pr.bind [
  | none ↦ pr
  | some bind ↦
      let family = protocol_to_family skb in
      let local_ip = if bind.sa.family == family then some bind.local else none in
      if skb_src_match bind skb
      then pr
      else (if family == af_inet || family == af_inet6
          then (reset_sockaddr alloc pr (source_addr skb) local_ip).1
          else pr)
]

-- `ovpn_peer_update_local_endpoint`
unfoldable pub update_local_endpoint : Peer → Packet → Peer
unfolding protocol_to_family
update_local_endpoint pr skb = elim pr.bind [
  | none ↦ pr
  | some bind ↦
      let family = protocol_to_family skb in
      if family == af_inet || family == af_inet6
      then (if bind.local == skb.daddr
          then pr
          else record pr { bind = some (record bind { local = skb.daddr }) })
      else pr
]

-- `ovpn_peer_transp_match`
unfoldable pub transp_match : Peer → SockAddr → Bool
transp_match pr ss = elim pr.bind [
  | none ↦ false
  | some bind ↦
      ss.family == bind.sa.family
      && ((ss.family == af_inet || ss.family == af_inet6)
          && (ss.addr == bind.sa.addr && ss.port == bind.sa.port))
]

-- `ovpn_peer_skb_to_sockaddr`; the scope stays 0
unfoldable pub skb_to_sockaddr : Packet → Option SockAddr
unfolding protocol_to_family
skb_to_sockaddr skb =
    if protocol_to_family skb == af_inet || protocol_to_family skb == af_inet6
    then some (record {
      family = protocol_to_family skb;
      addr = skb.saddr;
      port = skb.source;
      scope_id = 0;
    })
    else none

-- the binding after a packet of either IP version, given the one before
abbrev floated : Bind → Packet → Bind
floated bind skb = if skb_src_match bind skb then bind else record {
  sa = source_addr skb;
  local = if bind.sa.family == protocol_to_family skb then bind.local else 0;
}

-- A packet of either IP version from a peer that has a binding, if the allocation succeeds, leaves
-- the binding alone when it comes from there; otherwise it binds the peer to the packet's source
-- and keeps the local address unless the IP version changed. In both cases the peer then matches
-- the packet's source, as the look-up by transport address tests it.
pub peer_float_follows :
    (pr : Peer) (skb : Packet) (bind : Bind) (ss : SockAddr)
    → pr.bind ≡ some bind
    → skb_to_sockaddr skb ≡ some ss
    → ((peer_float true pr skb).bind ≡ some (floated bind skb))
      × (transp_match (peer_float true pr skb) ss ≡ true)
unfolding peer_float skb_to_sockaddr transp_match
peer_float_follows pr skb bind ss e f = (ground (arith, e, f), ground (arith, e, f))

-- A packet that is neither IPv4 nor IPv6, or a failed allocation, leaves the peer as it was.
pub peer_float_stays :
    (pr : Peer) (skb : Packet) (alloc : Bool)
    → (alloc ≡ false) ⊎ (skb_to_sockaddr skb ≡ none)
    → peer_float alloc pr skb ≡ pr
unfolding peer_float skb_to_sockaddr
peer_float_stays pr skb alloc h = ground arith

-- A packet of the binding's IP version teaches the peer its own address: the one that the packet
-- was sent to; and a second packet to the same address changes nothing.
pub update_local_endpoint_lem :
    (pr : Peer) (skb : Packet) (bind : Bind) (ss : SockAddr)
    → pr.bind ≡ some bind
    → skb_to_sockaddr skb ≡ some ss
    → let pr' = update_local_endpoint pr skb in
      (pr'.bind ≡ some (record bind { local = skb.daddr })) × (update_local_endpoint pr' skb ≡ pr')
unfolding update_local_endpoint skb_to_sockaddr
update_local_endpoint_lem pr skb bind ss e f = (ground (arith, e, f), ground (arith, e, f))
