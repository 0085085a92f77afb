-- ===== src/Peer/Lookup/ById.antt =====
-- Proofs on `ovpn_peer_lookup_id`: which peer it finds, and what it does to the reference counts.
use ovpn_dco.Base.{
  ℕ, ◌+◌, List, [], ◌∷◌, Bool, true, false, ◌&&◌, not, Option, none, some, ◌==◌, first, first-some,
  mem, ◌≡◌, refl, inl, inr, Bool-cases, update_self, update-update, update_same, ◌-◌, arith,
}
use ovpn_dco.Peer.{Peer, Ovpn, peer_hold, peer_put, set_peer, mode_p2p, mode_mp}
use ovpn_dco.Peer.Lookup.{Key, peer_index, scan, lookup_id}

-- a peer that passes the test and is not being released
unfoldable pub live : (Peer → Bool) → Ovpn → ℕ → Bool
live test o p = not ((o.peers p).refcount == 0) && test (o.peers p)

-- one more reference to the peer that was found
unfoldable pub held : Ovpn → Option ℕ → Ovpn
held o none = o
held o (some p) = set_peer o p (record (o.peers p) { refcount = (o.peers p).refcount + 1 })

pub held-none : (o : Ovpn) → held o none ≡ o
unfolding held
held-none o = refl

pub scan_lem :
    (test : Peer → Bool) (o : Ovpn) (ps : List ℕ)
    → scan test o ps ≡ (first (live test o) ps, held o (first (live test o) ps))
unfolding scan first live held peer_hold
scan_lem test o [] = refl
scan_lem test o (p ∷ ps) =
    let rest = scan_lem test o ps in
    elim (Bool-cases (test (o.peers p))) [
      | inr e ↦ elim (Bool-cases ((o.peers p).refcount == 0)) [
        | inl f ↦ rw (e, f, rest) refl
        | inr f ↦ rw (e, f, rest) refl
      ]
      | inl e ↦ elim (Bool-cases ((o.peers p).refcount == 0)) [
        | inl f ↦ rw (e, f, rest) refl
        | inr f ↦ rw (e, f) refl
      ]
    ]

module _ (jhash : Key → ℕ) where
  -- the live peer with an id that is first in its bucket
  unfoldable pub find : Ovpn → ℕ → Option ℕ
  find o id = first (live (λ pr. pr.id == id) o) (o.by_id (peer_index jhash (Key.peer_id id)))

  -- In MP mode `lookup_id` gives the first peer of the id's bucket that has the id and is not being
  -- released, with one reference more, and changes nothing else.
  pub lookup_id_lem :
      (o : Ovpn) (id : ℕ)
      → o.mode ≡ mode_mp
      → lookup_id jhash o id ≡ (find o id, held o (find o id))
  unfolding lookup_id find
  lookup_id_lem o id mp =
      let multi : (o.mode == mode_p2p) ≡ false = rw mp refl in
      rw multi (scan_lem (λ pr. pr.id == id) o (o.by_id (peer_index jhash (Key.peer_id id))))

  -- a peer that is found stands in the bucket of the id, has the id and is not being released
  pub find_lem :
      (o : Ovpn) (id q : ℕ)
      → find o id ≡ some q
      → (mem q (o.by_id (peer_index jhash (Key.peer_id id))) ≡ true)
        × (((o.peers q).id == id) ≡ true)
        × (((o.peers q).refcount == 0) ≡ false)
  unfolding find live
  find_lem o id q found =
      let both =
        first-some (live (λ pr. pr.id == id) o) q (o.by_id (peer_index jhash (Key.peer_id id)))
          found in
      let passes = both.1 in (both.0, ground arith, ground arith)

-- A hold and a put of a live peer leave the state as it was.
pub put-held :
    (o : Ovpn) (p : ℕ) → ((o.peers p).refcount == 0) ≡ false → peer_put (held o (some p)) p ≡ o
unfolding held peer_hold peer_put
put-held o p alive =
    let n = (o.peers p).refcount in
    let more : Peer = record (o.peers p) { refcount = n + 1 } in
    let two : (n + 1 == 1) ≡ false = ground arith in
    let back : n + 1 - 1 ≡ n = omega arith in
    rw
      (
        update_self o.peers p more,
        two,
        back,
        update-update o.peers p more (o.peers p),
        update_same o.peers p,
      )
      refl
