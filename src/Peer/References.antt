-- ===== src/Peer/References.antt =====
-- Reference counts of the peers: what a put, a hold and the look-ups of peer.c do to them.
use ovpn_dco.Base.{
  ℕ, ◌+◌, ◌-◌, List, [], ◌∷◌, Bool, Option, none, some, ◌==◌, if◌then◌else◌, ◌≡◌, refl, ap, ◌≢◌,
  inl, inr, Bool-cases, Option-cases, arith, ==_iff, eq_self, first-some,
}
use mathlib.Core.Path.{subst}
use ovpn_dco.Addr.{Packet}
use ovpn_dco.Peer.{Peer, Ovpn, peer_put, mode_p2p}
use ovpn_dco.Peer.Endpoint.{skb_to_sockaddr, transp_match}
use ovpn_dco.Peer.Lookup.{Key, peer_index, scan, scan_p2p, lookup_id, lookup_transp_addr}
use ovpn_dco.Peer.Lookup.ById.{held, live, scan_lem}

abbrev pub refs : Ovpn → ℕ → ℕ
refs o q = (o.peers q).refcount

refs-put_self : (o : Ovpn) (p : ℕ) → refs (peer_put o p) p ≡ refs o p - 1
unfolding peer_put
refs-put_self o p = rw (refs, eq_self p) refl

pub refs-put :
    (o : Ovpn) (p q : ℕ) → refs (peer_put o p) q ≡ (if p == q then refs o q - 1 else refs o q)
unfolding peer_put
refs-put o p q = elim (Bool-cases (p == q)) [
  | inl e ↦
      rw e
        (subst (λ x. refs (peer_put o p) x ≡ refs o x - 1) ((==_iff p q).0 e) (refs-put_self o p))
  | inr e ↦ rw (refs, e) refl
]

refs-held_self : (o : Ovpn) (p : ℕ) → refs (held o (some p)) p ≡ refs o p + 1
unfolding held
refs-held_self o p = rw (refs, eq_self p) refl

pub refs-held :
    (o : Ovpn) (p q : ℕ) → refs (held o (some p)) q ≡ (if p == q then refs o q + 1 else refs o q)
unfolding held
refs-held o p q = elim (Bool-cases (p == q)) [
  | inl e ↦
      rw e (
        subst (λ x. refs (held o (some p)) x ≡ refs o x + 1) ((==_iff p q).0 e)
          (refs-held_self o p))
  | inr e ↦ rw (refs, e) refl
]

pub put_balanced :
    (o : Ovpn) (p q : ℕ)
    → refs o p ≢ 0
    → refs (peer_put o p) q + (if p == q then 1 else 0) ≡ refs o q + 0
put_balanced o p q alive = elim (Bool-cases (p == q)) [
  | inl e ↦
      (let same = (==_iff p q).0 e in
        rw (refs-put o p q, e) (omega (arith, ap (refs o) same, alive)))
  | inr e ↦ rw (refs-put o p q, e) (omega arith)
]

-- A look-up takes a reference to what it finds, which has one already, and does nothing else.
abbrev pub Takes : Ovpn → Option ℕ × Ovpn → Type 0
Takes o r = (r.1 ≡ held o r.0) × ((p : ℕ) → r.0 ≡ some p → refs o p ≢ 0)

scan-Takes : (test : Peer → Bool) (o : Ovpn) (ps : List ℕ) → Takes o (scan test o ps)
unfolding live
scan-Takes test o ps =
    rw (scan_lem test o ps)
      (refl, λ p e z. (let found = (first-some (live test o) p ps e).1 in ground (arith, found)))

pub scan_p2p-Takes : (test : Peer → Bool) (o : Ovpn) → Takes o (scan_p2p test o)
unfolding scan_p2p held
scan_p2p-Takes test o = go o.peer
  where
    go : (x : Option ℕ) → Takes o (elim x [ none ↦ (none, o) | some p ↦ scan test o (p ∷ []) ])
    go none = (refl, λ p f z. ground arith)
    go (some p) = scan-Takes test o (p ∷ [])

pub lookup_id-Takes : (jhash : Key → ℕ) (o : Ovpn) (id : ℕ) → Takes o (lookup_id jhash o id)
unfolding lookup_id
lookup_id-Takes jhash o id = elim (Bool-cases (o.mode == mode_p2p)) [
  | inl e ↦ rw (lookup_id, e) (scan_p2p-Takes (λ pr. pr.id == id) o)
  | inr e ↦
      rw (lookup_id, e)
        (scan-Takes (λ pr. pr.id == id) o (o.by_id (peer_index jhash (Key.peer_id id))))
]

pub lookup_transp_addr-Takes :
    (jhash : Key → ℕ) (o : Ovpn) (packet : Packet) → Takes o (lookup_transp_addr jhash o packet)
unfolding lookup_transp_addr held
lookup_transp_addr-Takes jhash o packet = elim (Option-cases (skb_to_sockaddr packet)) [
  | inl e ↦ rw (lookup_transp_addr, e) (refl, λ p f z. ground arith)
  | inr (ss, e) ↦ elim (Bool-cases (o.mode == mode_p2p)) [
    | inl m ↦ rw (lookup_transp_addr, e, m) (scan_p2p-Takes (λ pr. transp_match pr ss) o)
    | inr m ↦
        rw (lookup_transp_addr, e, m)
          (scan-Takes (λ pr. transp_match pr ss) o
            (o.by_transp_addr (peer_index jhash (Key.sockaddr ss))))
  ]
]
