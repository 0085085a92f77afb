-- ===== src/Peer/Lookup/Kinds.antt =====
-- The look-up by VPN address in a table whose buckets hold nodes of the packet's family alone: it
-- does not fault, and takes a reference to what it finds.
use ovpn_dco.Base.{
  ℕ, ◌≡◌, refl, arith, List, [], ◌∷◌, Bool, true, false, Option, none, some, ◌==◌, if◌then◌else◌,
  Bool-cases, inl, inr, Result,
}
use ovpn_dco.Addr.{Packet, af_inet, af_inet6, protocol_to_family}
use ovpn_dco.Peer.{Peer, Ovpn, VpnNode, peer_hold, mode_p2p}
use ovpn_dco.Peer.References.{Takes, scan_p2p-Takes}
use ovpn_dco.Peer.Lookup.{
  Key, lookup_vpn_addr, lookup_vpn_addr4, lookup_vpn_addr6, scan_p2p, next_hop, peer_index,
}
use ovpn_dco.Peer.Lookup.ById.{held}

abbrev pub all4 : List VpnNode → Bool
all4 [] = true
all4 (VpnNode.addr4 p ∷ ns) = all4 ns
all4 (VpnNode.addr6 p ∷ ns) = false

abbrev pub all6 : List VpnNode → Bool
all6 [] = true
all6 (VpnNode.addr6 p ∷ ns) = all6 ns
all6 (VpnNode.addr4 p ∷ ns) = false

-- the peer that a look-up gives passes the test
abbrev pub Passes : (Peer → Bool) → Ovpn → Option ℕ × Ovpn → Type 0
Passes test o r = (p : ℕ) → r.0 ≡ some p → test (o.peers p) ≡ true

-- A look-up that ends without a fault, with what it takes and tests.
abbrev pub Finds : (Peer → Bool) → Ovpn → Option (Option ℕ × Ovpn) → Type 0
Finds test o r = (s : Option ℕ × Ovpn) × (r ≡ some s) × Takes o s × Passes test o s

lookup_vpn_addr4-Finds :
    (o : Ovpn) (ns : List VpnNode) (addr : ℕ)
    → all4 ns ≡ true
    → Finds (λ pr. addr == pr.vpn_ipv4) o (lookup_vpn_addr4 o ns addr)
unfolding lookup_vpn_addr4 held peer_hold
lookup_vpn_addr4-Finds o [] addr h =
    ((none, o), refl, (refl, λ p e z. ground arith), λ p e. ground arith)
lookup_vpn_addr4-Finds o (VpnNode.addr6 p ∷ ns) addr h = absurd (ground arith)
lookup_vpn_addr4-Finds o (VpnNode.addr4 p ∷ ns) addr h =
    let (s, e, takes, passes) = lookup_vpn_addr4-Finds o ns addr h in
    elim (Bool-cases (addr == (o.peers p).vpn_ipv4)) [
      | inr f ↦ (s, rw (lookup_vpn_addr4, f) e, takes, passes)
      | inl f ↦ elim (Bool-cases ((o.peers p).refcount == 0)) [
        | inl z ↦ (s, rw (lookup_vpn_addr4, f, z) e, takes, passes)
        | inr z ↦ (
          (some p, held o (some p)),
          rw (lookup_vpn_addr4, f, z) refl,
          (refl, λ q g w. ground (arith, z)),
          λ q g. ground (arith, f),
        )
      ]
    ]

lookup_vpn_addr6-Finds :
    (o : Ovpn) (ns : List VpnNode) (addr : ℕ)
    → all6 ns ≡ true
    → Finds (λ pr. true) o (lookup_vpn_addr6 o ns addr)
unfolding lookup_vpn_addr6 held peer_hold
lookup_vpn_addr6-Finds o [] addr h = ((none, o), refl, (refl, λ p e z. ground arith), λ p e. refl)
lookup_vpn_addr6-Finds o (VpnNode.addr4 p ∷ ns) addr h = absurd (ground arith)
lookup_vpn_addr6-Finds o (VpnNode.addr6 p ∷ ns) addr h =
    let (s, e, takes, passes) = lookup_vpn_addr6-Finds o ns addr h in
    elim (Bool-cases ((o.peers p).refcount == 0)) [
      | inl z ↦ (s, rw (lookup_vpn_addr6, z) e, takes, passes)
      | inr z ↦ (
        (some p, held o (some p)),
        rw (lookup_vpn_addr6, z) refl,
        (refl, λ q g w. ground (arith, z)),
        λ q g. refl,
      )
    ]

-- Every bucket holds nodes of the packet's family alone, which P2P mode does not need.
abbrev pub OneKind : Ovpn → Packet → Type 0
OneKind o skb =
    (o.mode == mode_p2p) ≡ false
    → (((protocol_to_family skb == af_inet) ≡ true) → (b : ℕ) → all4 (o.by_vpn_addr b) ≡ true)
      × (((protocol_to_family skb == af_inet6) ≡ true) → (b : ℕ) → all6 (o.by_vpn_addr b) ≡ true)

-- What a look-up tests: the IPv4 address in MP mode, nothing in P2P mode or for IPv6.
abbrev pub accepts : (ℕ → Result (Option ℕ)) → Ovpn → Packet → ℕ → Peer → Bool
accepts route4 o skb addr pr =
    if o.mode == mode_p2p
    then true
    else (if protocol_to_family skb == af_inet then next_hop route4 addr == pr.vpn_ipv4 else true)

module _ (jhash : Key → ℕ) (route4 route6 : ℕ → Result (Option ℕ)) where
  pub lookup_vpn_addr-Finds :
      (o : Ovpn) (skb : Packet) (use_src : Bool)
      → OneKind o skb
      → Finds
          (accepts route4 o skb (if use_src then skb.saddr else skb.daddr))
          o
          (lookup_vpn_addr jhash route4 route6 o skb use_src)
  unfolding lookup_vpn_addr held
  lookup_vpn_addr-Finds o skb use_src kind =
      let addr = if use_src then skb.saddr else skb.daddr in
      elim (Bool-cases (o.mode == mode_p2p)) [
        | inl m ↦
            rw (lookup_vpn_addr, m)
              (scan_p2p (λ _. true) o, refl, scan_p2p-Takes (λ _. true) o, λ p e. refl)
        | inr m ↦ elim (Bool-cases (protocol_to_family skb == af_inet)) [
          | inl f ↦
              rw (lookup_vpn_addr, m, f)
                (lookup_vpn_addr4-Finds o
                  (o.by_vpn_addr (peer_index jhash (Key.vpn_addr4 (next_hop route4 addr))))
                  (next_hop route4 addr)
                  ((kind m).0 f (peer_index jhash (Key.vpn_addr4 (next_hop route4 addr)))))
          | inr f ↦ elim (Bool-cases (protocol_to_family skb == af_inet6)) [
            | inl g ↦
                rw (lookup_vpn_addr, m, f, g)
                  (lookup_vpn_addr6-Finds o
                    (o.by_vpn_addr (peer_index jhash (Key.vpn_addr6 (next_hop route6 addr))))
                    (next_hop route6 addr)
                    ((kind m).1 g (peer_index jhash (Key.vpn_addr6 (next_hop route6 addr)))))
            | inr g ↦
                rw (lookup_vpn_addr, m, f, g)
                  ((none, o), refl, (refl, λ p e z. ground arith), λ p e. ground arith)
          ]
        ]
      ]
