-- ===== src/Data/References.antt =====
-- The references to peers that the work items of ovpn.c hold: one for a work that is queued or
-- running, which it gives back when its ring is empty.
use ovpn_dco.Base.{
  is_ok, ℕ, List, [], ◌∷◌, ◌+◌, ◌-◌, ◌≡◌, ◌≢◌, refl, sym, ap, ◌∙◌, arith, Bool, false, ◌&&◌, ◌||◌,
  Option, none, some, ◌==◌, if◌then◌else◌, Bool-cases, inl, inr, update_self, Status, ==_iff,
  eq_self,
}
use mathlib.Core.Path.{subst}
use ovpn_dco.Addr.{Packet}
use ovpn_dco.Crypto.{◌>>=◌}
use ovpn_dco.Crypto.Refs.{IsCounted, Ensures, Ensures->>=, Ensures-with}
use ovpn_dco.Peer.{Peer, Ovpn, peer_hold, peer_put}
use ovpn_dco.Peer.References.{refs, refs-held, put_balanced, Takes}
use ovpn_dco.Peer.Lookup.ById.{held}
use ovpn_dco.Peer.Lookup.Kinds.{OneKind, lookup_vpn_addr-Finds}
use ovpn_dco.Data.{Kernel, Handling}
use ovpn_dco.Data.Receive.{decrypt_one, decrypt_work}
use ovpn_dco.Data.Transmit.{Queueing, queue_to, queue_skb, xmit_special}
use ovpn_dco.Data.Filter.{none-Takes}
use ovpn_dco.Data.Decrypt.{Handled, Routable, decrypt_one_lem}

Handled-refs :
    (k : Kernel) (h : Handling) (o : Ovpn) (p q : ℕ) (owed : ℕ → ℕ) (skb : List ℕ)
    (ring : List (List ℕ)) (r : Status × Ovpn × List (List ℕ))
    → Handled k h o p owed skb ring r
    → refs r.1 q ≡ refs o q
Handled-refs k h o p q owed skb ring r d =
    ap (λ o'. refs o' q) d.others ∙ elim (Bool-cases (p == q)) [
      | inl e ↦ rw (refs, e) (d.same_count ∙ ap (λ x. refs o x) ((==_iff p q).0 e))
      | inr e ↦ rw (refs, e) refl
    ]

-- For each packet of a ring that opens, when its turn comes, the buckets that its look-up may read
-- hold nodes of its family.
abbrev pub Routed : Kernel → Ovpn → ℕ → List (Handling × Packet × List ℕ) → List (List ℕ) → Type 0
Routed k o p [] ring = Unit {0}
Routed k o p ((h, packet, skb) ∷ rx) ring =
    Routable k h o p skb
    × ((r : Status × Ovpn × List (List ℕ))
        → decrypt_one k h o p packet skb ring ≡ some r
        → Routed k r.1 p rx r.2)

-- after the work: its reference is given back, and the key slots are counted right
abbrev pub Worked : Ovpn → ℕ → (ℕ → ℕ) → Bool × Ovpn × List (List ℕ) → Type 0
Worked o p owed r =
    ((q : ℕ) → refs r.1 q + (if p == q then 1 else 0) ≡ refs o q)
    × IsCounted (r.1.peers p).crypto owed

-- While a reference for the work is held, the peer's key slots are counted right and the table is
-- right for each packet that opens when its turn comes, `ovpn_decrypt_work` goes through the packets
-- of its ring without a fault and gives back that one reference to its peer and no other. The key
-- slots are then counted right.
pub decrypt_work-refs :
    (k : Kernel) (o : Ovpn) (p : ℕ) (owed : ℕ → ℕ) (rx : List (Handling × Packet × List ℕ))
    (ring : List (List ℕ))
    → IsCounted (o.peers p).crypto owed
    → Routed k o p rx ring
    → refs o p ≢ 0
    → Ensures (Worked o p owed) (decrypt_work k o p rx ring)
unfolding decrypt_work peer_put
decrypt_work-refs k o p owed [] ring v kind alive = (
  λ q. put_balanced o p q alive ∙ omega arith,
  subst (λ (pr : Peer). IsCounted pr.crypto owed)
      (sym (update_self o.peers p (record (o.peers p) { refcount = (o.peers p).refcount - 1 }))) v,
)
decrypt_work-refs k o p owed ((h, packet, skb) ∷ rx) ring v kind alive =
    Ensures-with _ _ (decrypt_one k h o p packet skb ring) _
      (decrypt_one_lem k h o p owed packet skb ring v kind.0)
      (handled (λ o' ring'. decrypt_work-refs k o' p owed rx ring'))
  where
    handled :
        ((o' : Ovpn) (ring' : List (List ℕ))
          → IsCounted (o'.peers p).crypto owed
          → Routed k o' p rx ring'
          → refs o' p ≢ 0
          → Ensures (Worked o' p owed) (decrypt_work k o' p rx ring'))
        → (r : Status × Ovpn × List (List ℕ)) → decrypt_one k h o p packet skb ring ≡ some r
        → Handled k h o p owed skb ring r
        → Ensures
            (Worked o p owed)
            (decrypt_work k r.1 p rx r.2 >>= λ s. some (is_ok r.0 || s.0, s.1, s.2))
    handled again r e d =
        let counted : IsCounted (r.1.peers p).crypto owed =
          subst (λ c. IsCounted c owed)
            (sym (
              ap (λ (o' : Ovpn). (o'.peers p).crypto) d.others
              ∙ ap (λ (pr : Peer). pr.crypto) (update_self o.peers p d.after)))
            d.counted in
        let same : (q : ℕ) → refs r.1 q ≡ refs o q =
          λ q. Handled-refs k h o p q owed skb ring r d in
        Ensures->>= _ _ (decrypt_work k r.1 p rx r.2) _
          (again r.1 r.2 counted (kind.1 r e) (λ z. alive (sym (same p) ∙ z)))
          (λ (s : Bool × Ovpn × List (List ℕ)) w. (λ q. w.0 q ∙ same q, w.1))

-- one reference for the encryption work, if it was queued anew for the ring of the peer
abbrev pub queued : Queueing → Option (ℕ × List (List ℕ)) → ℕ → ℕ
queued env none q = 0
queued env (some (p, skbs)) q = if env.work_queued && p == q then 1 else 0

queue_to-refs :
    (env : Queueing) (o : Ovpn) (p q : ℕ) (skbs : List (List ℕ))
    → refs o p ≢ 0
    → refs (queue_to env o p skbs).0 q + (if p == q then 1 else 0)
      ≡ refs o q + queued env (queue_to env o p skbs).1 q
unfolding queue_to
queue_to-refs env o p q skbs alive =
    let put = put_balanced o p q alive in
    elim (Bool-cases env.ring_full) [
      | inl f ↦ rw (queue_to, f) put
      | inr f ↦ elim (Bool-cases env.work_queued) [
        | inl w ↦ rw (queue_to, f, w) refl
        | inr w ↦ rw (queue_to, f, w) put
      ]
    ]

-- the reference that was taken before is the one that is given back or kept for the work
queue_held :
    (env : Queueing) (o o' : Ovpn) (p q : ℕ) (skbs : List (List ℕ))
    → o' ≡ held o (some p)
    → refs (queue_to env o' p skbs).0 q ≡ refs o q + queued env (queue_to env o' p skbs).1 q
queue_held env o o' p q skbs same =
    let count : (x : ℕ) → refs o' x ≡ (if p == x then refs o x + 1 else refs o x) =
      λ x. ap (λ s. refs s x) same ∙ refs-held o p x in
    let mine : refs o' p ≡ refs o p + 1 = count p ∙ rw (eq_self p) refl in
    let rest = queue_to-refs env o' p q skbs (λ z. omega (arith, mine, z)) in
    elim (Bool-cases (p == q)) [
      | inl e ↦
          let there : refs o' q ≡ refs o q + 1 = count q ∙ rw e refl in
          omega (arith, (rw e at rest), there)
      | inr e ↦
          let there : refs o' q ≡ refs o q = count q ∙ rw e refl in
          omega (arith, (rw e at rest), there)
    ]

-- the counts after a packet was queued or dropped
abbrev pub Queued : Queueing → Ovpn → Ovpn × Option (ℕ × List (List ℕ)) → Type 0
Queued env o r = (q : ℕ) → refs r.0 q ≡ refs o q + queued env r.1 q

-- A packet for the tunnel, in a table whose buckets hold nodes of its family, is looked up, queued
-- or dropped without a fault; each peer's reference count is then what it was, plus one for the
-- peer whose encryption work was queued anew.
pub queue_skb-refs :
    (k : Kernel) (env : Queueing) (o : Ovpn) (packet : Packet) (skbs : List (List ℕ))
    → OneKind o packet
    → Ensures (Queued env o) (queue_skb k env o packet skbs)
unfolding queue_skb
queue_skb-refs k env o packet skbs kind =
    let (s, e, takes, _) = lookup_vpn_addr-Finds k.jhash k.route4 k.route6 o packet false kind in
    rw (queue_skb, e) (found s takes)
  where
    found :
        (s : Option ℕ × Ovpn)
        → Takes o s
        → Ensures
            (Queued env o)
            (elim s.0 [ none ↦ some (s.1, none) | some p ↦ some (queue_to env s.1 p skbs) ])
    found (none, o') takes =
        λ q. ap (λ x. refs x q) (none-Takes o (none, o') takes refl) ∙ omega arith
    found (some p, o') takes = λ q. queue_held env o o' p q skbs takes.0

-- A message of the driver's own to a peer, such as a keepalive, takes and gives back references
-- in the same way.
pub xmit_special-refs :
    (alloc : Bool) (env : Queueing) (o : Ovpn) (p q : ℕ) (bytes : List ℕ)
    → refs (xmit_special alloc env o p bytes).0 q
      ≡ refs o q + queued env (xmit_special alloc env o p bytes).1 q
unfolding xmit_special peer_hold held
xmit_special-refs alloc env o p q bytes = elim (Bool-cases alloc) [
  | inr a ↦ rw (xmit_special, a) (omega arith)
  | inl a ↦ elim (Bool-cases ((o.peers p).refcount == 0)) [
    | inl z ↦ rw (xmit_special, a, z) (omega arith)
    | inr z ↦ rw (xmit_special, a, z) (queue_held env o (held o (some p)) p q (bytes ∷ []) refl)
  ]
]
