-- ===== src/Udp.antt =====
-- drivers/net/ovpn-dco/udp.c and ovpn.c: what happens to a datagram that arrives on the socket of
-- an interface, up to the ring of a peer. The headers are a `Packet`; the bytes of the datagram
-- start with its UDP header. What the calls of the kernel return is the record `Arrival`.
pub mod References
pub mod Output
use ovpn_dco.Base.{
  ℕ, List, Bool, true, false, ◌&&◌, not, Option, none, some, ◌==◌, if◌then◌else◌, drop, Result, ok,
  err, Status, enospc,
}
use ovpn_dco.Proto.{data_v2, peer_id_undef, opcode_from_skb, peer_id_from_skb}
use ovpn_dco.Addr.{Packet}
use ovpn_dco.Peer.{Peer, Ovpn, set_peer, peer_put}
use ovpn_dco.Peer.Endpoint.{peer_float}
use ovpn_dco.Peer.Lookup.{Key, lookup_id, lookup_transp_addr}

-- Whether the socket has an interface, `pskb_may_pull`, whether the peer's ring is full, whether
-- `queue_work` queues the work anew, what the message to userspace returns and whether a new
-- binding can be allocated.
pub record Arrival : Type 0 where
  pub has_ovpn : Bool
  pub may_pull : Bool
  pub ring_full : Bool
  pub work_queued : Bool
  pub to_userspace : Status
  pub alloc : Bool

abbrev pub udp_header : ℕ
udp_header = 8

-- `ovpn_recv`, with what goes to the ring of which peer
unfoldable pub ovpn_recv : Arrival → Ovpn → ℕ → List ℕ → Status × Ovpn × Option (ℕ × List ℕ)
unfolding peer_put
ovpn_recv env o p skb =
    if not (opcode_from_skb skb 0 == data_v2)
    then elim env.to_userspace [ err e ↦ (err e, o, none) | ok _ ↦ (ok tt, peer_put o p, none) ]
    else (if env.ring_full
        then (err enospc, o, none)
        else (ok tt, if env.work_queued then o else peer_put o p, some (p, skb)))

-- the end of `ovpn_udp_encap_recv`, once there is a peer
unfoldable pub recv_from : Arrival → Ovpn → ℕ → List ℕ → ℕ × Ovpn × Option (ℕ × List ℕ)
recv_from env o p skb =
    let (ret, o', ring) = ovpn_recv env o p (drop udp_header skb) in
    elim ret [ err _ ↦ (0, peer_put o' p, none) | ok _ ↦ (0, o', ring) ]

-- `ovpn_udp_encap_recv`
unfoldable pub encap_recv :
    (Key → ℕ) → Arrival → Ovpn → Packet → List ℕ → ℕ × Ovpn × Option (ℕ × List ℕ)
encap_recv jhash env o packet skb =
    let opcode = opcode_from_skb skb udp_header in
    let peer_id = peer_id_from_skb skb udp_header in
    if not (env.has_ovpn && env.may_pull)
    then (0, o, none)
    else (if opcode == data_v2 && not (peer_id == peer_id_undef)
        then (let (peer, o') = lookup_id jhash o peer_id in
            elim peer [
              | none ↦ (0, o', none)
              | some p ↦
                  recv_from env (set_peer o' p (peer_float env.alloc (o'.peers p) packet)) p skb
            ])
        else (let (peer, o') = lookup_transp_addr jhash o packet in
            elim peer [
              | none ↦ (if opcode == data_v2 then 0 else 1, o', none)
              | some p ↦ recv_from env o' p skb
            ]))
