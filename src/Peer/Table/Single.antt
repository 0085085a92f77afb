-- ===== src/Peer/Table/Single.antt =====
-- P2P mode of peer.c: the interface has one peer at most, and one reference to it.
use ovpn_dco.Base.{
  ℕ, ◌+◌, ◌-◌, ◌<◌, ◌≡◌, refl, arith, Bool, false, Option, none, some, ◌==◌, if◌then◌else◌, ok, err,
  enoent,
}
use ovpn_dco.Peer.{Ovpn, DelPeerReason, peer_put, peer_hold, mode_p2p}
use ovpn_dco.Peer.References.{refs}
use ovpn_dco.Peer.Lookup.{Key, lookup_id, scan, scan_p2p}
use ovpn_dco.Peer.Table.{peer_add, peer_del, add_p2p, del_p2p, release_p2p}

-- whether a peer is that of the interface
abbrev pub is_peer : Ovpn → ℕ → Bool
is_peer o p = elim o.peer [ none ↦ false | some q ↦ q == p ]

-- each peer's count is what others hold and, if it is the interface's, one more
abbrev pub IsOwned : Ovpn → (ℕ → ℕ) → Type 0
IsOwned o held = (p : ℕ) → refs o p ≡ held p + (if is_peer o p then 1 else 0)

abbrev pub one_less : (ℕ → ℕ) → ℕ → ℕ → ℕ
one_less held p q = if p == q then held q - 1 else held q

abbrev pub one_more : (ℕ → ℕ) → Option ℕ → ℕ → ℕ
one_more held r q = elim r [ none ↦ held q | some p ↦ if p == q then held q + 1 else held q ]

add_p2p-IsOwned :
    (o : Ovpn) (held : ℕ → ℕ) (p : ℕ)
    → IsOwned o held
    → 0 < held p
    → IsOwned (add_p2p o p).1 (one_less held p)
unfolding add_p2p peer_put
add_p2p-IsOwned o held p v h q = ground (arith, v q, h)

del_p2p-IsOwned :
    (o : Ovpn) (held : ℕ → ℕ) (p : ℕ) (reason : DelPeerReason)
    → IsOwned o held
    → IsOwned (del_p2p o p reason).1 held
unfolding del_p2p peer_put
del_p2p-IsOwned o held p reason v q = ground (arith, v q)

release_p2p-IsOwned : (o : Ovpn) (held : ℕ → ℕ) → IsOwned o held → IsOwned (release_p2p o) held
unfolding release_p2p del_p2p peer_put
release_p2p-IsOwned o held v q = ground (arith, v q)

lookup_id-IsOwned :
    (jhash : Key → ℕ) (o : Ovpn) (held : ℕ → ℕ) (id : ℕ)
    → o.mode ≡ mode_p2p
    → IsOwned o held
    → let (found, o') = lookup_id jhash o id in IsOwned o' (one_more held found)
unfolding lookup_id scan scan_p2p peer_hold
lookup_id-IsOwned jhash o held id mode v q = ground (arith, v q, mode)

peer_put-IsOwned :
    (o : Ovpn) (held : ℕ → ℕ) (p : ℕ)
    → IsOwned o held
    → 0 < held p
    → IsOwned (peer_put o p) (one_less held p)
unfolding peer_put
peer_put-IsOwned o held p v h q = ground (arith, v q, h)

-- whether a peer is the one that is recorded
abbrev pub names : Option ℕ → ℕ → Bool
names none p = false
names (some q) p = q == p

-- A run in P2P mode from an interface without a peer: its state, the references that are held
-- elsewhere, and the peer that a plain record of the additions and removals has. Who adds a peer
-- hands its reference over.
pub data SingleRuns (jhash : Key → ℕ) (o₀ : Ovpn) (held₀ : ℕ → ℕ)
    : Ovpn → (ℕ → ℕ) → Option ℕ → Type 0 where
  start : SingleRuns jhash o₀ held₀ o₀ held₀ none
  adds :
      {o : Ovpn} {held : ℕ → ℕ} {r : Option ℕ} (p : ℕ)
      → SingleRuns jhash o₀ held₀ o held r
      → 0 < held p
      → SingleRuns jhash o₀ held₀ (peer_add jhash o p).1 (one_less held p) (some p)
  dels :
      {o : Ovpn} {held : ℕ → ℕ} {r : Option ℕ} (p : ℕ) (reason : DelPeerReason)
      → SingleRuns jhash o₀ held₀ o held r
      → SingleRuns jhash o₀ held₀ (peer_del jhash o p reason).1 held (if names r p then none else r)
  releases :
      {o : Ovpn} {held : ℕ → ℕ} {r : Option ℕ}
      → SingleRuns jhash o₀ held₀ o held r
      → SingleRuns jhash o₀ held₀ (release_p2p o) held none
  looks :
      {o : Ovpn} {held : ℕ → ℕ} {r : Option ℕ} (id : ℕ)
      → SingleRuns jhash o₀ held₀ o held r
      → SingleRuns jhash o₀ held₀
          (lookup_id jhash o id).1
          (one_more held (lookup_id jhash o id).0)
          r
  puts :
      {o : Ovpn} {held : ℕ → ℕ} {r : Option ℕ} (p : ℕ)
      → SingleRuns jhash o₀ held₀ o held r
      → 0 < held p
      → SingleRuns jhash o₀ held₀ (peer_put o p) (one_less held p) r

record IsSingle (o : Ovpn) (held : ℕ → ℕ) (r : Option ℕ) : Type 0 where
  p2p : o.mode ≡ mode_p2p
  owned : IsOwned o held
  recorded : o.peer ≡ r

add-IsSingle :
    (jhash : Key → ℕ) (o : Ovpn) (held : ℕ → ℕ) (r : Option ℕ) (p : ℕ)
    → IsSingle o held r
    → 0 < held p
    → IsSingle (peer_add jhash o p).1 (one_less held p) (some p)
unfolding peer_add add_p2p peer_put
add-IsSingle jhash o held r p s h =
    let same : peer_add jhash o p ≡ add_p2p o p = ground (arith, s.p2p) in
    record {
      p2p = rw same (ground (arith, s.p2p));
      owned = rw same (add_p2p-IsOwned o held p s.owned h);
      recorded = rw same refl;
    }

del-IsSingle :
    (jhash : Key → ℕ) (o : Ovpn) (held : ℕ → ℕ) (r : Option ℕ) (p : ℕ) (reason : DelPeerReason)
    → IsSingle o held r
    → IsSingle (peer_del jhash o p reason).1 held (if names r p then none else r)
unfolding peer_del del_p2p peer_put
del-IsSingle jhash o held r p reason s =
    let same : peer_del jhash o p reason ≡ del_p2p o p reason = ground (arith, s.p2p) in
    record {
      p2p = rw same (ground (arith, s.p2p));
      owned = rw same (del_p2p-IsOwned o held p reason s.owned);
      recorded = rw same (ground (arith, s.recorded));
    }

release-IsSingle :
    (o : Ovpn) (held : ℕ → ℕ) (r : Option ℕ)
    → IsSingle o held r
    → IsSingle (release_p2p o) held none
unfolding release_p2p del_p2p peer_put
release-IsSingle o held r s = record {
  p2p = ground (arith, s.p2p);
  owned = release_p2p-IsOwned o held s.owned;
  recorded = ground arith;
}

look-IsSingle :
    (jhash : Key → ℕ) (o : Ovpn) (held : ℕ → ℕ) (r : Option ℕ) (id : ℕ)
    → IsSingle o held r
    → IsSingle (lookup_id jhash o id).1 (one_more held (lookup_id jhash o id).0) r
unfolding lookup_id scan scan_p2p peer_hold
look-IsSingle jhash o held r id s = record {
  p2p = ground (arith, s.p2p);
  owned = lookup_id-IsOwned jhash o held id s.p2p s.owned;
  recorded = ground (arith, s.p2p, s.recorded);
}

put-IsSingle :
    (o : Ovpn) (held : ℕ → ℕ) (r : Option ℕ) (p : ℕ)
    → IsSingle o held r
    → 0 < held p
    → IsSingle (peer_put o p) (one_less held p) r
unfolding peer_put
put-IsSingle o held r p s h = record {
  p2p = s.p2p;
  owned = peer_put-IsOwned o held p s.owned h;
  recorded = s.recorded;
}

runs-IsSingle :
    (jhash : Key → ℕ) {o₀ : Ovpn} {held₀ : ℕ → ℕ} {o : Ovpn} {held : ℕ → ℕ} {r : Option ℕ}
    → IsSingle o₀ held₀ none
    → SingleRuns jhash o₀ held₀ o held r
    → IsSingle o held r
runs-IsSingle jhash s SingleRuns.start = s
runs-IsSingle jhash s (SingleRuns.adds p run h) =
    add-IsSingle jhash _ _ _ p (runs-IsSingle jhash s run) h
runs-IsSingle jhash s (SingleRuns.dels p reason run) =
    del-IsSingle jhash _ _ _ p reason (runs-IsSingle jhash s run)
runs-IsSingle jhash s (SingleRuns.releases run) = release-IsSingle _ _ _ (runs-IsSingle jhash s run)
runs-IsSingle jhash s (SingleRuns.looks id run) =
    look-IsSingle jhash _ _ _ id (runs-IsSingle jhash s run)
runs-IsSingle jhash s (SingleRuns.puts p run h) = put-IsSingle _ _ _ p (runs-IsSingle jhash s run) h

lookup_id-recorded :
    (jhash : Key → ℕ) (o : Ovpn) (held : ℕ → ℕ) (r : Option ℕ) (id : ℕ)
    → IsSingle o held r
    → (lookup_id jhash o id).0
      ≡ elim r [ none ↦ none | some q ↦ if (o.peers q).id == id then some q else none ]
unfolding lookup_id scan scan_p2p peer_hold
lookup_id-recorded jhash o held none id s = ground (arith, s.p2p, s.recorded)
lookup_id-recorded jhash o held (some q) id s = ground (arith, s.p2p, s.recorded, s.owned q)

-- In P2P mode, from an interface without a peer on, where each count is what is held, after any run
-- of additions, deletions, releases, look-ups and puts, where only references that are held are put
-- or handed over: the count of each peer is what is held elsewhere, and one more for the peer of
-- the interface; so a peer that is replaced or deleted loses one reference, once. A look-up finds
-- the peer that was added last and not deleted or released since, if it has the id. A deletion
-- succeeds for that peer alone and gives -ENOENT for any other.
pub agrees_with_register :
    (jhash : Key → ℕ) (o₀ : Ovpn) (held₀ : ℕ → ℕ) {o : Ovpn} {held : ℕ → ℕ} {r : Option ℕ}
    (id p : ℕ) (reason : DelPeerReason)
    → o₀.mode ≡ mode_p2p
    → o₀.peer ≡ none
    → ((q : ℕ) → refs o₀ q ≡ held₀ q)
    → SingleRuns jhash o₀ held₀ o held r
    → (refs o p ≡ held p + (if names r p then 1 else 0))
      × ((lookup_id jhash o id).0
          ≡ elim r [ none ↦ none | some q ↦ if (o.peers q).id == id then some q else none ])
      × ((peer_del jhash o p reason).0 ≡ (if names r p then ok tt else err enoent))
unfolding peer_del del_p2p
agrees_with_register jhash o₀ held₀ {o} {held} {r} id p reason mode empty counts run =
    let s₀ : IsSingle o₀ held₀ none = record {
      p2p = mode;
      owned = λ q. ground (arith, counts q, empty);
      recorded = empty;
    } in
    let s = runs-IsSingle jhash s₀ run in
    (
      ground (arith, s.owned p, s.recorded),
      lookup_id-recorded jhash o held r id s,
      ground (arith, s.p2p, s.recorded),
    )
