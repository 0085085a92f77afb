-- ===== src/Data/Decrypt.antt =====
-- `ovpn_decrypt_one` as a whole: what a received packet changes, and which ones are delivered.
use ovpn_dco.Base.{
  ℕ, List, ◌≡◌, refl, sym, ap, ◌∙◌, arith, none, some, ◌⊎◌, inl, inr, update, update_same, Result,
  ok, err, Status, length, Errno, eperm,
}
use mathlib.Core.Path.{subst}
use ovpn_dco.Addr.{Packet}
use ovpn_dco.KeySlot.{KeySlot}
use ovpn_dco.Aead.{unseal_packet}
use ovpn_dco.Crypto.{CryptoState}
use ovpn_dco.Crypto.Refs.{IsCounted, Ensures, Ensures-map, Ensures-with, SamePointers}
use ovpn_dco.Crypto.Slots.{chosen}
use ovpn_dco.Proto.{key_id_from_skb}
use ovpn_dco.Peer.{Peer, Ovpn, set_peer}
use ovpn_dco.Peer.Timer.{keepalive_recv_reset}
use ovpn_dco.Peer.Endpoint.{update_local_endpoint}
use ovpn_dco.Peer.Lookup.Kinds.{OneKind}
use ovpn_dco.Data.{Kernel, Handling}
use ovpn_dco.Data.Receive.{open_one, admit_one, decrypt_one, note_received}
use ovpn_dco.Data.Keys.{open_one-IsCounted}
use ovpn_dco.Data.Filter.{Admits, Delivers, headers, admit_one_lem}
use ovpn_dco.Data.Refine.{Selects, open_one_unknown, open_one_forged}

note_received_keeps :
    (k : Kernel) (h : Handling) (pr : Peer) (packet : Packet) (len : ℕ)
    → let pr' = note_received k h pr packet len in
      (pr'.crypto ≡ pr.crypto)
      × (pr'.refcount ≡ pr.refcount)
      × (pr'.vpn_ipv4 ≡ pr.vpn_ipv4)
      × (pr'.id ≡ pr.id)
      × (pr'.vpn_ipv6 ≡ pr.vpn_ipv6)
unfolding note_received keepalive_recv_reset update_local_endpoint
note_received_keeps k h pr packet len =
    (ground arith, ground arith, ground arith, ground arith, ground arith)

-- What becomes of a packet: it does not open, and the ring is as before, or its payload is delivered
-- or refused on the interface as it is then.
abbrev pub Outcome :
    Kernel
    → Handling
    → Ovpn
    → ℕ
    → List ℕ
    → List (List ℕ)
    → Peer
    → Status × Ovpn × List (List ℕ)
    → Type 0
Outcome k h o p skb ring after r =
    ((e : Errno) × (open_one k h (o.peers p).crypto skb ≡ some (err e, after.crypto))
      × (r.0 ≡ err e)
      × (r.2 ≡ ring))
    ⊎ ((text : List ℕ) × (open_one k h (o.peers p).crypto skb ≡ some (ok text, after.crypto))
        × Delivers k h (set_peer o p after) p text ring r.0 r.2)

-- What a received packet may change: of the peer's fields not its id, VPN addresses and count; its
-- key slots are still counted right. The other peers and the tables are as before.
pub record Handled (k : Kernel) (h : Handling) (o : Ovpn) (p : ℕ) (owed : ℕ → ℕ) (skb : List ℕ)
    (ring : List (List ℕ)) (r : Status × Ovpn × List (List ℕ)) : Type 0 where
  pub after : Peer
  pub others : r.1 ≡ set_peer o p after
  pub counted : IsCounted after.crypto owed
  pub same_count : after.refcount ≡ (o.peers p).refcount
  pub same_id : after.id ≡ (o.peers p).id
  pub same_vpn_ipv4 : after.vpn_ipv4 ≡ (o.peers p).vpn_ipv4
  pub same_vpn_ipv6 : after.vpn_ipv6 ≡ (o.peers p).vpn_ipv6
  pub outcome : Outcome k h o p skb ring after r

-- If the packet opens, the buckets that its look-up may read hold nodes of its family.
abbrev pub Routable : Kernel → Handling → Ovpn → ℕ → List ℕ → Type 0
Routable k h o p skb =
    (text : List ℕ) (cs : CryptoState)
    → open_one k h (o.peers p).crypto skb ≡ some (ok text, cs)
    → OneKind o (headers h text)

pub decrypt_one_lem :
    (k : Kernel) (h : Handling) (o : Ovpn) (p : ℕ) (owed : ℕ → ℕ) (packet : Packet) (skb : List ℕ)
    (ring : List (List ℕ))
    → IsCounted (o.peers p).crypto owed
    → Routable k h o p skb
    → Ensures (Handled k h o p owed skb ring) (decrypt_one k h o p packet skb ring)
unfolding decrypt_one
decrypt_one_lem k h o p owed packet skb ring v kind =
    Ensures-with _ _ (open_one k h (o.peers p).crypto skb) _
      (open_one-IsCounted k h (o.peers p).crypto owed skb v) opened
  where
    opened :
        (s : Result (List ℕ) × CryptoState)
        → open_one k h (o.peers p).crypto skb ≡ some s
        → IsCounted s.1 owed × SamePointers (o.peers p).crypto s.1
        → Ensures (Handled k h o p owed skb ring) (elim s.0 [
          | err e ↦ some (err e, set_peer o p (record (o.peers p) { crypto = s.1 }), ring)
          | ok text ↦
              admit_one k h
                (set_peer o p
                  (note_received k h (record (o.peers p) { crypto = s.1 }) packet (length skb)))
                p
                text
                ring
        ])
    opened (err e, cs) f (v', _) = record {
      after = record (o.peers p) { crypto = cs };
      others = refl;
      counted = v';
      same_count = refl;
      same_id = refl;
      same_vpn_ipv4 = refl;
      same_vpn_ipv6 = refl;
      outcome = inl (e, f, refl, refl);
    }
    opened (ok text, cs) f (v', _) =
        let pr : Peer = record (o.peers p) { crypto = cs } in
        let pr' = note_received k h pr packet (length skb) in
        let keeps = note_received_keeps k h pr packet (length skb) in
        Ensures-map (Admits k h (set_peer o p pr') p text ring) _
          (admit_one k h (set_peer o p pr') p text ring)
          (admit_one_lem k h (set_peer o p pr') p text ring (kind text cs f))
          (λ (r : Status × Ovpn × List (List ℕ)) a. record {
            after = pr';
            others = a.0;
            counted = subst (λ c. IsCounted c owed) (sym keeps.0) v';
            same_count = keeps.1;
            same_id = keeps.3;
            same_vpn_ipv4 = keeps.2;
            same_vpn_ipv6 = keeps.4;
            outcome = inr (text, f ∙ ap (λ c. some (ok text, c)) (sym keeps.0), a.1);
          })

-- No key is there for the packet, or the one that its key id selects does not authenticate it.
abbrev pub IsForged : Kernel → CryptoState → (ℕ → ℕ) → List ℕ → Type 0
IsForged k cs owed skb =
    (IsCounted cs owed × (chosen cs (key_id_from_skb skb) ≡ none))
    ⊎ ((q : ℕ) × (ks : KeySlot) × (e : Errno) × Selects cs owed skb q ks
        × (unseal_packet k.api ks skb ≡ err e))

-- Where the key slots of the peer are counted right and no live key of the key id authenticates the
-- packet, `ovpn_decrypt_one` returns an error and changes nothing of its state: the ring, the peer
-- with its timers, statistics and key slots, the other peers and the tables. What
-- `ovpn_udp_encap_recv` does with the packet before it is queued, such as a float of the peer's
-- endpoint, is not part of this.
pub decrypt_one_forged :
    (k : Kernel) (h : Handling) (o : Ovpn) (p : ℕ) (owed : ℕ → ℕ) (packet : Packet) (skb : List ℕ)
    (ring : List (List ℕ))
    → IsForged k (o.peers p).crypto owed skb
    → (f : Errno) × (decrypt_one k h o p packet skb ring ≡ some (err f, o, ring))
unfolding decrypt_one
decrypt_one_forged k h o p owed packet skb ring bad =
    let (f, e) = refused bad in
    let same : update o.peers p (record (o.peers p) { crypto = (o.peers p).crypto }) ≡ o.peers =
      update_same o.peers p in
    (f, rw (decrypt_one, e, same) refl)
  where
    refused :
        IsForged k (o.peers p).crypto owed skb
        → (f : Errno) × (open_one k h (o.peers p).crypto skb ≡ some (err f, (o.peers p).crypto))
    refused (inl (v, e)) = (eperm, open_one_unknown k h (o.peers p).crypto owed skb v e)
    refused (inr (q, ks, e, s, u)) = open_one_forged k h (o.peers p).crypto owed skb q ks e s u
