-- ===== src/Peer/Lookup.antt =====
-- The tables of peer.c and their look-ups. `jhash` stands for the kernel's hash of a key's bytes,
-- and `route4` and `route6` for the routing tables: the gateway towards an address, if there is a
-- route through one. Each function runs under its lock or RCU, so it is one step. A node that is
-- reached through the member of the wrong type is a fault: `none`.
pub mod ById
pub mod ByAddr
pub mod Kinds
use ovpn_dco.Base.{
  ℕ, ◌+◌, ◌-◌, ◌%◌, List, [], ◌∷◌, Bool, true, false, ◌&&◌, ◌||◌, not, Option, none, some, ◌==◌,
  if◌then◌else◌, update, Result, ok, err,
}
use ovpn_dco.Addr.{SockAddr, Packet, af_inet, af_inet6, protocol_to_family}
use ovpn_dco.Peer.{Peer, Ovpn, VpnNode, peer_hold, mode_p2p}
use ovpn_dco.Peer.Endpoint.{transp_match, skb_to_sockaddr}

abbrev pub hash_size : ℕ
hash_size = 4096

-- what is hashed: a peer id, a socket address or a VPN address
pub data Key : Type 0 where
  peer_id : ℕ → Key
  sockaddr : SockAddr → Key
  vpn_addr4 vpn_addr6 : ℕ → Key

-- The first entry of a bucket that passes the test and can be held.
unfoldable pub scan : (Peer → Bool) → Ovpn → List ℕ → Option ℕ × Ovpn
unfolding peer_hold
scan test o [] = (none, o)
scan test o (p ∷ ps) =
    let rest = scan test o ps in
    if test (o.peers p)
    then (let (held, o') = peer_hold o p in if held then (some p, o') else rest)
    else rest

-- `likely(tmp && test && ovpn_peer_hold(tmp))` on the single peer of P2P mode
unfoldable pub scan_p2p : (Peer → Bool) → Ovpn → Option ℕ × Ovpn
unfolding scan
scan_p2p test o = elim o.peer [ none ↦ (none, o) | some p ↦ scan test o (p ∷ []) ]

-- `ovpn_peer_lookup_vpn_addr4`
unfoldable pub lookup_vpn_addr4 : Ovpn → List VpnNode → ℕ → Option (Option ℕ × Ovpn)
unfolding peer_hold
lookup_vpn_addr4 o [] addr = some (none, o)
lookup_vpn_addr4 o (VpnNode.addr6 p ∷ ns) addr = none
lookup_vpn_addr4 o (VpnNode.addr4 p ∷ ns) addr =
    let rest = lookup_vpn_addr4 o ns addr in
    if addr == (o.peers p).vpn_ipv4
    then (let (held, o') = peer_hold o p in if held then some (some p, o') else rest)
    else rest

-- `ovpn_peer_lookup_vpn_addr6`: the `continue` of the loop over the four words of the address
-- goes on with that inner loop, so no word is a condition for what follows.
unfoldable pub lookup_vpn_addr6 : Ovpn → List VpnNode → ℕ → Option (Option ℕ × Ovpn)
unfolding peer_hold
lookup_vpn_addr6 o [] addr = some (none, o)
lookup_vpn_addr6 o (VpnNode.addr4 p ∷ ns) addr = none
lookup_vpn_addr6 o (VpnNode.addr6 p ∷ ns) addr =
    let rest = lookup_vpn_addr6 o ns addr in
    let (held, o') = peer_hold o p in if held then some (some p, o') else rest

-- `ovpn_gw4` and `ovpn_gw6`: no route and a route without a gateway both give NULL
unfoldable pub next_hop : (ℕ → Result (Option ℕ)) → ℕ → ℕ
next_hop route dst = elim (route dst) [ err _ ↦ dst | ok none ↦ dst | ok (some gateway) ↦ gateway ]

module _ (jhash : Key → ℕ) where
  -- `ovpn_peer_index`
  unfoldable pub peer_index : Key → ℕ
  peer_index key = jhash key % hash_size

  -- `ovpn_peer_lookup_id`
  unfoldable pub lookup_id : Ovpn → ℕ → Option ℕ × Ovpn
  unfolding scan scan_p2p
  lookup_id o id =
      if o.mode == mode_p2p
      then scan_p2p (λ pr. pr.id == id) o
      else scan (λ pr. pr.id == id) o (o.by_id (peer_index (Key.peer_id id)))

  -- `ovpn_peer_lookup_transp_addr`
  unfoldable pub lookup_transp_addr : Ovpn → Packet → Option ℕ × Ovpn
  unfolding scan scan_p2p skb_to_sockaddr
  lookup_transp_addr o skb = elim (skb_to_sockaddr skb) [
    | none ↦ (none, o)
    | some ss ↦
        if o.mode == mode_p2p
        then scan_p2p (λ pr. transp_match pr ss) o
        else scan (λ pr. transp_match pr ss) o (o.by_transp_addr (peer_index (Key.sockaddr ss)))
  ]

  -- `ovpn_peer_lookup_vpn_addr`; a family other than the two leaves the peer NULL
  unfoldable pub lookup_vpn_addr :
      (ℕ → Result (Option ℕ))
      → (ℕ → Result (Option ℕ))
      → Ovpn
      → Packet
      → Bool
      → Option (Option ℕ × Ovpn)
  unfolding scan_p2p next_hop
  lookup_vpn_addr route4 route6 o skb use_src =
      let addr = if use_src then skb.saddr else skb.daddr in
      if o.mode == mode_p2p
      then some (scan_p2p (λ _. true) o)
      else (if protocol_to_family skb == af_inet
          then (let hop = next_hop route4 addr in
              lookup_vpn_addr4 o (o.by_vpn_addr (peer_index (Key.vpn_addr4 hop))) hop)
          else (if protocol_to_family skb == af_inet6
              then (let hop = next_hop route6 addr in
                  lookup_vpn_addr6 o (o.by_vpn_addr (peer_index (Key.vpn_addr6 hop))) hop)
              else some (none, o)))
