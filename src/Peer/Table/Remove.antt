-- ===== src/Peer/Table/Remove.antt =====
-- Proofs on `ovpn_peer_del` in MP mode: what a deletion takes from the interface, and that it keeps
-- the invariant of the table.
use ovpn_dco.Base.{
  ℕ, ◌+◌, ◌-◌, ◌∷◌, Bool, true, false, ◌&&◌, none, some, ◌==◌, if◌then◌else◌, update, ok, err,
  enoent, ◌≡◌, refl, sym, ap, ◌∙◌, ◌≢◌, inl, inr, Bool-cases, Option-cases, eq_self, ==_iff,
  update_ne, update-update, arith,
}
use ovpn_dco.Peer.{Peer, Ovpn, VpnNode, DelPeerReason, peer_put, mode_mp}
use ovpn_dco.Peer.Lookup.{Key, peer_index}
use ovpn_dco.Peer.Lookup.ById.{live, find, find_lem, held, held-none, lookup_id_lem, put-held}
use ovpn_dco.Peer.Table.{unlink, unlink_node, unhash, del_mp, peer_del}
use ovpn_dco.Peer.Table.Lists.{distinct_ids-erase, all-erase, first-erase, mem-erase}
use ovpn_dco.Peer.Table.Invariant.{
  entry, bucket_ok, IsTable, registered, find-registered, registered-find, registered_unique,
}

-- The interface without the peer: it stands in no list, it has the reason and one reference less,
-- and its release is queued when that was the last one.
unfoldable pub removed : Ovpn → ℕ → DelPeerReason → Ovpn
unfolding unlink unlink_node
removed o p reason = record o {
  by_id = unlink p o.by_id;
  by_vpn_addr = unlink_node (VpnNode.addr6 p) (unlink_node (VpnNode.addr4 p) o.by_vpn_addr);
  by_transp_addr = unlink p o.by_transp_addr;
  peers =
      update o.peers p
        (record (o.peers p) { refcount = (o.peers p).refcount - 1; delete_reason = reason });
  deleting = if (o.peers p).refcount == 1 then p ∷ o.deleting else o.deleting;
}

unhash-held :
    (o : Ovpn) (p : ℕ) (reason : DelPeerReason)
    → ((o.peers p).refcount == 0) ≡ false
    → peer_put (unhash (held o (some p)) p reason) p ≡ removed o p reason
unfolding unhash held peer_put removed unlink unlink_node
unhash-held o p reason alive =
    let n = (o.peers p).refcount in
    let two : (n + 1 == 1) ≡ false = ground arith in
    let back : n + 1 - 1 ≡ n = omega arith in simp (eq_self p, two, back, update-update)

removed_id :
    (o : Ovpn) (p q : ℕ) (reason : DelPeerReason)
    → ((removed o p reason).peers q).id ≡ (o.peers q).id
unfolding removed
removed_id o p q reason = elim (Bool-cases (p == q)) [
  | inl e ↦ (let same = (==_iff p q).0 e in rw (e, same) refl)
  | inr e ↦ rw e refl
]

module _ (jhash : Key → ℕ) where
  -- In MP mode with a well-formed table, a deletion of a registered peer takes it from the three
  -- tables, drops one reference in all, notes the reason and queues the release if that reference
  -- was the last; for any other peer it fails with ENOENT and changes nothing.
  pub peer_del_lem :
      (o : Ovpn) (p : ℕ) (reason : DelPeerReason)
      → o.mode ≡ mode_mp
      → IsTable jhash o
      → peer_del jhash o p reason
        ≡ (if registered jhash o p then (ok tt, removed o p reason) else (err enoent, o))
  unfolding peer_del del_mp
  peer_del_lem o p reason mp valid =
      let multi : (o.mode == mode_mp) ≡ true = rw mp refl in
      let look = lookup_id_lem jhash o (o.peers p).id mp in
      elim (Bool-cases (registered jhash o p)) [
        | inl r ↦
            let found = find-registered jhash o p valid r in
            rw (multi, r, del_mp, look, found, look, found, eq_self p)
              (ap (λ s. (ok tt, s))
                (unhash-held o p reason (find_lem jhash o (o.peers p).id p found).2))
        | inr r ↦ elim (Option-cases (find jhash o (o.peers p).id)) [
          | inl f ↦
              rw (multi, r, del_mp, look, f, look, f) (ap (λ s. (err enoent, s)) (held-none o))
          | inr (q, f) ↦ elim (Bool-cases (q == p)) [
            | inl e ↦
                let found = f ∙ ap some ((==_iff q p).0 e) in
                let contra = registered-find jhash o p found in ground arith
            | inr e ↦
                rw (multi, r, del_mp, look, f, look, f, e)
                  (ap (λ s. (err enoent, s)) (put-held o q (find_lem jhash o (o.peers p).id q f).2))
          ]
        ]
      ]

  -- `removed` keeps the invariant of the table by id.
  removed-IsTable :
      (o : Ovpn) (p : ℕ) (reason : DelPeerReason)
      → IsTable jhash o
      → IsTable jhash (removed o p reason)
  unfolding IsTable removed bucket_ok entry unlink
  removed-IsTable o p reason valid b =
      let ok_b = valid b in
      let pr : Peer = record (o.peers p) {
        refcount = (o.peers p).refcount - 1;
        delete_reason = reason;
      } in
      let entries =
        all-erase (entry jhash o.peers b) (entry jhash (update o.peers p pr) b) p (o.by_id b)
          (λ q ne. rw (update_ne o.peers p q pr ne) refl) in
      let ids = distinct_ids-erase o.peers p pr (o.by_id b) in ground arith

  -- After the deletion of a registered peer from a well-formed table, its id is not found any more
  -- and each other id is found as before.
  find-removed :
      (o : Ovpn) (p id : ℕ) (reason : DelPeerReason)
      → IsTable jhash o
      → registered jhash o p ≡ true
      → find jhash (removed o p reason) id
        ≡ (if (o.peers p).id == id then none else find jhash o id)
  unfolding find live removed unlink
  find-removed o p id reason valid member =
      let pr : Peer = record (o.peers p) {
        refcount = (o.peers p).refcount - 1;
        delete_reason = reason;
      } in
      let look : Peer → Bool = λ pr. pr.id == id in
      let b = peer_index jhash (Key.peer_id id) in
      elim (Bool-cases ((o.peers p).id == id)) [
        | inl e ↦ elim (Option-cases (find jhash (removed o p reason) id)) [
          | inl f ↦ rw e f
          | inr (q, f) ↦
              let (member_q, id_q, alive_q) = find_lem jhash (removed o p reason) id q f in
              let (other, listed) = mem-erase p q (o.by_id b) member_q in
              let same = (==_iff (o.peers p).id id).0 e in
              let same_q =
                sym (removed_id o p q reason)
                ∙ (==_iff ((removed o p reason).peers q).id id).0 id_q in
              let unique =
                registered_unique jhash o p q valid member (rw same listed)
                  (rw (same_q, same) (eq_self id)) in
              ground arith
        ]
        | inr e ↦
            let same : (q : ℕ) → p ≢ q → live look (removed o p reason) q ≡ live look o q =
              λ q ne. rw (update_ne o.peers p q pr ne) refl in
            rw e (
              first-erase (live look o) (live look (removed o p reason)) p (o.by_id b) same
                (ground arith))
      ]

  -- In MP mode a deletion keeps the invariant of the table by id, also when it fails.
  pub peer_del-IsTable :
      (o : Ovpn) (p : ℕ) (reason : DelPeerReason)
      → o.mode ≡ mode_mp
      → IsTable jhash o
      → IsTable jhash (peer_del jhash o p reason).1
  peer_del-IsTable o p reason mp valid = elim (Bool-cases (registered jhash o p)) [
    | inl r ↦ rw (peer_del_lem o p reason mp valid, r) (removed-IsTable o p reason valid)
    | inr r ↦ rw (peer_del_lem o p reason mp valid, r) valid
  ]

  -- In MP mode with a well-formed table, after a deletion of a registered peer its id is not found
  -- any more; any other look-up by id, and every one if the peer was not registered, finds what it
  -- found before.
  pub find-peer_del :
      (o : Ovpn) (p id : ℕ) (reason : DelPeerReason)
      → o.mode ≡ mode_mp
      → IsTable jhash o
      → find jhash (peer_del jhash o p reason).1 id
        ≡ (if registered jhash o p && ((o.peers p).id == id) then none else find jhash o id)
  find-peer_del o p id reason mp valid = elim (Bool-cases (registered jhash o p)) [
    | inl r ↦ rw (peer_del_lem o p reason mp valid, r) (find-removed o p id reason valid r)
    | inr r ↦ rw (peer_del_lem o p reason mp valid, r) refl
  ]
