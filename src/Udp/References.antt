-- ===== src/Udp/References.antt =====
-- The reference that the look-up of a datagram's peer takes, on every path through the code.
use ovpn_dco.Base.{
  ℕ, ◌+◌, List, Bool, false, ◌&&◌, not, Option, none, some, ◌==◌, if◌then◌else◌, drop, ok, err,
  Status, enospc, ◌≡◌, refl, ap, ◌∙◌, ◌≢◌, inl, inr, Bool-cases, Option-cases, arith, ==_iff,
  eq_self,
}
use mathlib.Core.Path.{subst}
use ovpn_dco.Proto.{data_v2, peer_id_undef, opcode_from_skb, peer_id_from_skb}
use ovpn_dco.Addr.{Packet}
use ovpn_dco.Peer.{Peer, Ovpn, set_peer, peer_put}
use ovpn_dco.Peer.Endpoint.{peer_float, reset_sockaddr}
use ovpn_dco.Peer.Lookup.{Key, lookup_id, lookup_transp_addr}
use ovpn_dco.Peer.Lookup.ById.{held, held-none}
use ovpn_dco.Peer.References.{
  refs, refs-held, put_balanced, lookup_id-Takes, lookup_transp_addr-Takes,
}
use ovpn_dco.Udp.{Arrival, ovpn_recv, recv_from, encap_recv, udp_header}

-- one reference for the decryption work, if it was queued anew for the ring of the peer
abbrev pub owed : Arrival → Option (ℕ × List ℕ) → ℕ → ℕ
owed env none q = 0
owed env (some (p, skb)) q = if env.work_queued && p == q then 1 else 0

recv_from-refs :
    (env : Arrival) (o : Ovpn) (p q : ℕ) (skb : List ℕ)
    → refs o p ≢ 0
    → refs (recv_from env o p skb).1 q + (if p == q then 1 else 0)
      ≡ refs o q + owed env (recv_from env o p skb).2 q
unfolding recv_from ovpn_recv
recv_from-refs env o p q skb alive =
    let put = put_balanced o p q alive in
    let packet = drop udp_header skb in
    elim (Bool-cases (opcode_from_skb packet 0 == data_v2)) [
      | inr d ↦ go d env.to_userspace refl
      | inl d ↦ elim (Bool-cases env.ring_full) [
        | inl f ↦
            let r : ovpn_recv env o p packet ≡ (err enospc, o, none) = rw (ovpn_recv, d, f) refl in
            rw (recv_from, r, r) put
        | inr f ↦ elim (Bool-cases env.work_queued) [
          | inl w ↦
              let r : ovpn_recv env o p packet ≡ (ok tt, o, some (p, packet)) =
                rw (ovpn_recv, d, f, w) refl in
              rw (recv_from, r, r, w) refl
          | inr w ↦
              let r : ovpn_recv env o p packet ≡ (ok tt, peer_put o p, some (p, packet)) =
                rw (ovpn_recv, d, f, w) refl in
              rw (recv_from, r, r, w) put
        ]
      ]
    ]
  where
    go :
        (opcode_from_skb (drop udp_header skb) 0 == data_v2) ≡ false
        → (u : Status) → env.to_userspace ≡ u
        → refs (recv_from env o p skb).1 q + (if p == q then 1 else 0)
          ≡ refs o q + owed env (recv_from env o p skb).2 q
    go d (ok tt) u =
        let r : ovpn_recv env o p (drop udp_header skb) ≡ (ok tt, peer_put o p, none) =
          rw (ovpn_recv, d, u) refl in
        rw (recv_from, r, r) (put_balanced o p q alive)
    go d (err e) u =
        let r : ovpn_recv env o p (drop udp_header skb) ≡ (err e, o, none) =
          rw (ovpn_recv, d, u) refl in
        rw (recv_from, r, r) (put_balanced o p q alive)

float-refs :
    (alloc : Bool) (pr : Peer) (packet : Packet)
    → (peer_float alloc pr packet).refcount ≡ pr.refcount
unfolding peer_float reset_sockaddr
float-refs alloc pr packet = ground arith

-- the reference that a look-up took is the one that the rest of the code disposes of
found-balanced :
    (env : Arrival) (o o' : Ovpn) (p q : ℕ) (skb : List ℕ)
    → ((x : ℕ) → refs o' x ≡ refs (held o (some p)) x)
    → refs (recv_from env o' p skb).1 q ≡ refs o q + owed env (recv_from env o' p skb).2 q
found-balanced env o o' p q skb same =
    let mine : refs o' p ≡ refs o p + 1 = same p ∙ refs-held o p p ∙ rw (eq_self p) refl in
    let rest = recv_from-refs env o' p q skb (λ z. omega (arith, mine, z)) in
    elim (Bool-cases (p == q)) [
      | inl e ↦
          let there : refs o' q ≡ refs o q + 1 = same q ∙ refs-held o p q ∙ rw e refl in
          omega (arith, (rw e at rest), there)
      | inr e ↦
          let there : refs o' q ≡ refs o q = same q ∙ refs-held o p q ∙ rw e refl in
          omega (arith, (rw e at rest), there)
    ]

float-keeps :
    (alloc : Bool) (o : Ovpn) (p x : ℕ) (packet : Packet)
    → refs (set_peer o p (peer_float alloc (o.peers p) packet)) x ≡ refs o x
float-keeps alloc o p x packet = elim (Bool-cases (p == x)) [
  | inl e ↦
      rw (refs, e)
        (subst (λ y. (peer_float alloc (o.peers p) packet).refcount ≡ (o.peers y).refcount)
          ((==_iff p x).0 e) (float-refs alloc (o.peers p) packet))
  | inr e ↦ rw (refs, e) refl
]

-- However a datagram is handled, each peer's reference count is afterwards what it was, plus one
-- for the peer whose decryption work was queued anew with the packet in its ring: on every other
-- path, errors included, the reference that the look-up took is given back.
pub encap_recv-refs :
    (jhash : Key → ℕ) (env : Arrival) (o : Ovpn) (packet : Packet) (skb : List ℕ) (q : ℕ)
    → refs (encap_recv jhash env o packet skb).1 q
      ≡ refs o q + owed env (encap_recv jhash env o packet skb).2 q
unfolding encap_recv
encap_recv-refs jhash env o packet skb q =
    let opcode = opcode_from_skb skb udp_header in
    let peer_id = peer_id_from_skb skb udp_header in
    elim (Bool-cases (env.has_ovpn && env.may_pull)) [
      | inr e ↦ rw (encap_recv, e) (omega arith)
      | inl e ↦ elim (Bool-cases (opcode == data_v2 && not (peer_id == peer_id_undef))) [
        | inl d ↦
            let found = lookup_id jhash o peer_id in
            let takes = lookup_id-Takes jhash o peer_id in
            elim (Option-cases found.0) [
              | inl f ↦
                  let same : found.1 ≡ o = takes.0 ∙ ap (held o) f ∙ held-none o in
                  rw (encap_recv, e, d, f) (ap (λ s. refs s q) same ∙ omega arith)
              | inr (p, f) ↦
                  rw (encap_recv, e, d, f)
                    (found-balanced env o
                      (set_peer found.1 p (peer_float env.alloc (found.1.peers p) packet)) p q skb
                      (λ x.
                        float-keeps env.alloc found.1 p x packet
                        ∙ ap (λ s. refs s x) (takes.0 ∙ ap (held o) f)))
            ]
        | inr d ↦
            let found = lookup_transp_addr jhash o packet in
            let takes = lookup_transp_addr-Takes jhash o packet in
            elim (Option-cases found.0) [
              | inl f ↦
                  let same : found.1 ≡ o = takes.0 ∙ ap (held o) f ∙ held-none o in
                  rw (encap_recv, e, d, f) (ap (λ s. refs s q) same ∙ omega arith)
              | inr (p, f) ↦
                  rw (encap_recv, e, d, f)
                    (found-balanced env o found.1 p q skb
                      (λ x. ap (λ s. refs s x) (takes.0 ∙ ap (held o) f)))
            ]
      ]
    ]
