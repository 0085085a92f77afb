-- ===== src/Peer/Lookup/ByAddr.antt =====
-- Proofs on `ovpn_peer_lookup_vpn_addr` and `ovpn_peer_lookup_transp_addr` in MP mode.
use ovpn_dco.Base.{
  ℕ, List, [], ◌∷◌, false, true, some, ◌==◌, first, ◌≡◌, refl, inl, inr, Bool-cases,
}
use ovpn_dco.Addr.{SockAddr, Packet}
use ovpn_dco.Peer.{Ovpn, VpnNode, peer_hold, mode_mp, mode_p2p}
use ovpn_dco.Peer.Endpoint.{transp_match, skb_to_sockaddr}
use ovpn_dco.Peer.Lookup.{
  Key, peer_index, scan, lookup_transp_addr, lookup_vpn_addr4, lookup_vpn_addr6,
}
use ovpn_dco.Peer.Lookup.ById.{live, held, scan_lem}

-- a bucket of IPv4 nodes alone
unfoldable pub nodes4 : List ℕ → List VpnNode
nodes4 [] = []
nodes4 (p ∷ ps) = VpnNode.addr4 p ∷ nodes4 ps

-- a bucket of IPv6 nodes alone
unfoldable pub nodes6 : List ℕ → List VpnNode
nodes6 [] = []
nodes6 (p ∷ ps) = VpnNode.addr6 p ∷ nodes6 ps

lookup_vpn_addr4-scan :
    (o : Ovpn) (ps : List ℕ) (addr : ℕ)
    → lookup_vpn_addr4 o (nodes4 ps) addr ≡ some (scan (λ pr. addr == pr.vpn_ipv4) o ps)
unfolding lookup_vpn_addr4 nodes4 scan
lookup_vpn_addr4-scan o [] addr = refl
lookup_vpn_addr4-scan o (p ∷ ps) addr =
    let rest = lookup_vpn_addr4-scan o ps addr in
    elim (Bool-cases (addr == (o.peers p).vpn_ipv4)) [
      | inr e ↦ rw (e, rest) refl
      | inl e ↦ elim (Bool-cases (peer_hold o p).0) [
        | inl f ↦ rw (e, f) refl
        | inr f ↦ rw (e, f, rest) refl
      ]
    ]

lookup_vpn_addr6-scan :
    (o : Ovpn) (ps : List ℕ) (addr : ℕ)
    → lookup_vpn_addr6 o (nodes6 ps) addr ≡ some (scan (λ _. true) o ps)
unfolding lookup_vpn_addr6 nodes6 scan
lookup_vpn_addr6-scan o [] addr = refl
lookup_vpn_addr6-scan o (p ∷ ps) addr = elim (Bool-cases (peer_hold o p).0) [
  | inl f ↦ rw f refl
  | inr f ↦ rw (f, lookup_vpn_addr6-scan o ps addr) refl
]

-- In a bucket of IPv4 nodes alone, the look-up of an IPv4 address gives the first live peer with
-- that address, with one reference more, or no peer and the state as it was. In a bucket of IPv6
-- nodes alone, the look-up of an IPv6 address gives the first live peer of all, whatever its address
-- is, with one reference more.
pub lookup_vpn_addr_lem :
    (o : Ovpn) (ps : List ℕ) (addr : ℕ)
    → let found4 = first (live (λ pr. addr == pr.vpn_ipv4) o) ps in
      let found6 = first (live (λ _. true) o) ps in
      (lookup_vpn_addr4 o (nodes4 ps) addr ≡ some (found4, held o found4))
      × (lookup_vpn_addr6 o (nodes6 ps) addr ≡ some (found6, held o found6))
lookup_vpn_addr_lem o ps addr = (
  rw (lookup_vpn_addr4-scan o ps addr, scan_lem (λ pr. addr == pr.vpn_ipv4) o ps) refl,
  rw (lookup_vpn_addr6-scan o ps addr, scan_lem (λ _. true) o ps) refl,
)

-- In MP mode, a datagram's source gives the first live peer of the address's bucket whose remote
-- endpoint is that address and port, with one reference more, or no peer.
pub lookup_transp_addr_lem :
    (jhash : Key → ℕ) (o : Ovpn) (skb : Packet) (ss : SockAddr)
    → o.mode ≡ mode_mp
    → skb_to_sockaddr skb ≡ some ss
    → lookup_transp_addr jhash o skb ≡ (
      first
          (live (λ pr. transp_match pr ss) o)
          (o.by_transp_addr (peer_index jhash (Key.sockaddr ss))),
      held o (
          first
            (live (λ pr. transp_match pr ss) o)
            (o.by_transp_addr (peer_index jhash (Key.sockaddr ss)))),
    )
unfolding lookup_transp_addr
lookup_transp_addr_lem jhash o skb ss mp from =
    let multi : (o.mode == mode_p2p) ≡ false = rw mp refl in
    rw (lookup_transp_addr, from, multi)
      (scan_lem (λ pr. transp_match pr ss) o
        (o.by_transp_addr (peer_index jhash (Key.sockaddr ss))))
