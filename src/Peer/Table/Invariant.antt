-- ===== src/Peer/Table/Invariant.antt =====
-- The invariant of the table by id: each entry stands in the bucket of its id and is not being
-- released, and the ids of a bucket are distinct. A look-up then finds exactly the registered peers.
use ovpn_dco.Base.{
  ℕ, List, [], ◌∷◌, Bool, true, ◌&&◌, ◌||◌, not, some, ◌==◌, mem, all, all-mem, all_imp, ◌≡◌, refl,
  inl, inr, Bool-cases, ==_iff, arith,
}
use ovpn_dco.Peer.{Peer, Ovpn}
use ovpn_dco.Peer.Lookup.{Key, peer_index}
use ovpn_dco.Peer.Lookup.ById.{live, find, find_lem}
use ovpn_dco.Peer.Table.Lists.{distinct_ids, first_unique}

-- the entries after the one with the id have other ids
only_one :
    (peers : ℕ → Peer) (p : ℕ) (ps : List ℕ)
    → distinct_ids peers ps ≡ true
    → mem p ps ≡ true
    → all (λ q. not ((peers q).id == (peers p).id) || (p == q)) ps ≡ true
unfolding distinct_ids mem all
only_one peers p [] distinct member = refl
only_one peers p (q ∷ qs) distinct member =
    let rest = only_one peers p qs in
    let unlike = all-mem (λ r. not ((peers r).id == (peers q).id)) p qs in
    let same = (==_iff p q).0 in
    let tail =
      all_imp (λ r. not ((peers r).id == (peers q).id))
        (λ r. not ((peers r).id == (peers q).id) || (q == r)) qs (λ r e. ground arith) in
    elim (Bool-cases (p == q)) [ inl e ↦ rw (same e) ground arith | inr e ↦ ground arith ]

module _ (jhash : Key → ℕ) where
  -- what holds of the entries of bucket `b`
  unfoldable pub entry : (ℕ → Peer) → ℕ → ℕ → Bool
  unfolding peer_index
  entry peers b p =
      (peer_index jhash (Key.peer_id (peers p).id) == b) && not ((peers p).refcount == 0)

  unfoldable pub bucket_ok : (ℕ → Peer) → ℕ → List ℕ → Bool
  unfolding entry all distinct_ids
  bucket_ok peers b ps = all (entry peers b) ps && distinct_ids peers ps

  unfoldable pub IsTable : Ovpn → Type 0
  IsTable o = (b : ℕ) → bucket_ok o.peers b (o.by_id b) ≡ true

  unfoldable pub registered : Ovpn → ℕ → Bool
  unfolding mem peer_index
  registered o p = mem p (o.by_id (peer_index jhash (Key.peer_id (o.peers p).id)))

  -- In a well-formed table a look-up by id finds the peer that is registered under the id.
  pub find-registered :
      (o : Ovpn) (p : ℕ) → IsTable o → registered o p ≡ true → find jhash o (o.peers p).id ≡ some p
  unfolding IsTable find registered bucket_ok entry live
  find-registered o p valid member =
      let b = peer_index jhash (Key.peer_id (o.peers p).id) in
      let ok_b = valid b in
      let ps = o.by_id b in
      let here : entry o.peers b p ≡ true = all-mem (entry o.peers b) p ps (ground arith) member in
      let only = only_one o.peers p ps (ground arith) member in
      first_unique (live (λ pr. pr.id == (o.peers p).id) o) p ps member (ground arith) (
        all_imp (λ q. not ((o.peers q).id == (o.peers p).id) || (p == q))
          (λ q. not (live (λ pr. pr.id == (o.peers p).id) o q) || (p == q)) ps (λ q e. ground arith)
          only)

  pub registered-find :
      (o : Ovpn) (p : ℕ) → find jhash o (o.peers p).id ≡ some p → registered o p ≡ true
  unfolding registered
  registered-find o p found = (find_lem jhash o (o.peers p).id p found).0

  -- no other entry of the bucket has the id of a registered peer
  pub registered_unique :
      (o : Ovpn) (p q : ℕ)
      → IsTable o
      → registered o p ≡ true
      → mem q (o.by_id (peer_index jhash (Key.peer_id (o.peers p).id))) ≡ true
      → ((o.peers q).id == (o.peers p).id) ≡ true
      → (p == q) ≡ true
  unfolding IsTable registered bucket_ok
  registered_unique o p q valid member listed same =
      let b = peer_index jhash (Key.peer_id (o.peers p).id) in
      let ok_b = valid b in
      let only = only_one o.peers p (o.by_id b) (ground arith) member in
      let at =
        all-mem (λ q. not ((o.peers q).id == (o.peers p).id) || (p == q)) q (o.by_id b) only
          listed in
      ground arith
