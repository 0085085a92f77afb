-- ===== src/Data/Filter.antt =====
-- The end of `ovpn_decrypt_one`: which decrypted packets are delivered.
use ovpn_dco.Base.{
  ◌≢◌, ◌≤◌, ◌<◌, arith, is_ok, ℕ, List, [], ◌∷◌, ◌++◌, ◌≡◌, refl, ap, ◌∙◌, true, false, Option,
  none, some, ◌==◌, if◌then◌else◌, Bool-cases, ◌⊎◌, inl, inr, leb, ok, err, Status, length,
  eq_of_ne, ==_iff, eperm,
}
use mathlib.Core.Path.{subst}
use ovpn_dco.Addr.{Packet}
use ovpn_dco.Crypto.Refs.{Ensures}
use ovpn_dco.Peer.{Ovpn, peer_put}
use ovpn_dco.Peer.References.{refs, Takes}
use ovpn_dco.Peer.Lookup.ById.{held, held-none, put-held}
use ovpn_dco.Peer.Lookup.Kinds.{OneKind, accepts, Passes, lookup_vpn_addr-Finds}
use ovpn_dco.Peer.Lookup.{lookup_vpn_addr}
use ovpn_dco.Tcp.Send.{queue_len}
use ovpn_dco.Data.{Kernel, Handling, ip_check_protocol, ip_packet, may_pull, is_keepalive}
use ovpn_dco.Data.Receive.{admit_one, produce}

-- the reference of a look-up, given back
pub put-Takes :
    (o : Ovpn) (s : Option ℕ × Ovpn) (q : ℕ) → Takes o s → s.0 ≡ some q → peer_put s.1 q ≡ o
put-Takes o s q takes e =
    ap (λ o'. peer_put o' q) (takes.0 ∙ ap (held o) e)
    ∙ put-held o q (eq_of_ne (refs o q) 0 (takes.1 q e))

pub none-Takes : (o : Ovpn) (s : Option ℕ × Ovpn) → Takes o s → s.0 ≡ none → s.1 ≡ o
none-Takes o s takes e = takes.0 ∙ ap (held o) e ∙ held-none o

-- the headers of a decrypted packet
abbrev pub headers : Handling → List ℕ → Packet
headers h text = ip_packet (ip_check_protocol h.memory text) (text ++ h.beyond)

-- the peer that the look-up of a packet's source gives
abbrev pub IsFrom : Kernel → Handling → Ovpn → List ℕ → Option ℕ → Type 0
IsFrom k h o text found =
    (o' : Ovpn) × (lookup_vpn_addr k.jhash k.route4 k.route6 o (headers h text) true
      ≡ some (found, o'))

-- Why a packet is not delivered: it has no IP header, its source is not one of the peer's, or the
-- ring is full.
pub data Refused (k : Kernel) (h : Handling) (o : Ovpn) (p : ℕ) (text : List ℕ)
    (ring : List (List ℕ)) : Type 0 where
  no_header : ip_check_protocol h.memory text ≡ 0 → Refused k h o p text ring
  other_source :
      (found : Option ℕ) → IsFrom k h o text found → found ≢ some p → Refused k h o p text ring
  ring_full : queue_len ≤ length ring → Refused k h o p text ring

-- Either nothing is delivered, for one of the reasons, or the packet is put at the end of the ring;
-- then the ring is not full, and the look-up of the packet's source gives the peer, which may use
-- it.
abbrev pub Delivers :
    Kernel → Handling → Ovpn → ℕ → List ℕ → List (List ℕ) → Status → List (List ℕ) → Type 0
Delivers k h o p text ring ret ring' =
    ((is_ok ret ≡ false) × (ring' ≡ ring) × Refused k h o p text ring)
    ⊎ ((ret ≡ ok tt)
        × (ring' ≡ ring ++ (text ∷ []))
        × (length ring < queue_len)
        × IsFrom k h o text (some p)
        × (accepts k.route4 o (headers h text) (headers h text).saddr (o.peers p) ≡ true))

abbrev pub Admits :
    Kernel → Handling → Ovpn → ℕ → List ℕ → List (List ℕ) → Status × Ovpn × List (List ℕ) → Type 0
Admits k h o p text ring r = (r.1 ≡ o) × Delivers k h o p text ring r.0 r.2

produce_lem :
    (k : Kernel) (h : Handling) (o : Ovpn) (p : ℕ) (text : List ℕ) (ring : List (List ℕ))
    → IsFrom k h o text (some p)
    → accepts k.route4 o (headers h text) (headers h text).saddr (o.peers p) ≡ true
    → Delivers k h o p text ring (produce ring text).0 (produce ring text).1
unfolding produce
produce_lem k h o p text ring from may = elim (Bool-cases (leb queue_len (length ring))) [
  | inl e ↦ rw (produce, e) (inl (refl, refl, Refused.ring_full (ground (arith, e))))
  | inr e ↦ rw (produce, e) (inr (refl, refl, ground (arith, e), from, may))
]

pub admit_one_lem :
    (k : Kernel) (h : Handling) (o : Ovpn) (p : ℕ) (text : List ℕ) (ring : List (List ℕ))
    → OneKind o (headers h text)
    → Ensures (Admits k h o p text ring) (admit_one k h o p text ring)
unfolding admit_one
admit_one_lem k h o p text ring kind = elim (Bool-cases (ip_check_protocol h.memory text == 0)) [
  | inl z ↦ elim (Bool-cases (may_pull h.memory 1 text)) [
    | inr m ↦ rw (admit_one, z, m) (refl, inl (refl, refl, nothing z))
    | inl m ↦ elim (Bool-cases (is_keepalive h.memory text)) [
      | inl a ↦ rw (admit_one, z, m, a) (refl, inl (refl, refl, nothing z))
      | inr a ↦ rw (admit_one, z, m, a) (refl, inl (refl, refl, nothing z))
    ]
  ]
  | inr z ↦
      let (s, e, takes, passes) =
        lookup_vpn_addr-Finds k.jhash k.route4 k.route6 o (headers h text) true kind in
      rw (admit_one, z, e) (found s e takes passes)
]
  where
    nothing : (ip_check_protocol h.memory text == 0) ≡ true → Refused k h o p text ring
    nothing z = Refused.no_header ((==_iff (ip_check_protocol h.memory text) 0).0 z)

    found :
        (s : Option ℕ × Ovpn)
        → lookup_vpn_addr k.jhash k.route4 k.route6 o (headers h text) true ≡ some s
        → Takes o s
        → Passes (accepts k.route4 o (headers h text) (headers h text).saddr) o s
        → Ensures (Admits k h o p text ring) (elim s.0 [
          | none ↦ some (err eperm, s.1, ring)
          | some q ↦
              let (ret, ring') = produce ring text in
              if q == p
              then some (ret, peer_put s.1 q, ring')
              else some (err eperm, peer_put s.1 q, ring)
        ])
    found (none, o') e takes passes = (
      none-Takes o (none, o') takes refl,
      inl (refl, refl, Refused.other_source none (o', e) (λ z. absurd (ground (arith, z)))),
    )
    found (some q, o') from takes passes =
        let back = put-Takes o (some q, o') q takes refl in
        elim (Bool-cases (q == p)) [
          | inr e ↦ rw e (
            back,
            inl (
              refl,
              refl,
              Refused.other_source (some q) (o', from) (λ z. absurd (ground (arith, z, e))),
            ),
          )
          | inl e ↦ rw e (
            back,
            produce_lem k h o p text ring
                (subst (λ x. IsFrom k h o text (some x)) ((==_iff q p).0 e) (o', from))
                (subst
                  (λ x.
                    accepts k.route4 o (headers h text) (headers h text).saddr (o.peers x) ≡ true)
                  ((==_iff q p).0 e) (passes q refl)),
          )
        ]
