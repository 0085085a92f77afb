-- ===== src/Peer/Table/Add.antt =====
-- Proofs on `ovpn_peer_add` in MP mode: a duplicate is refused and nothing changes, and a peer that
-- is added is found under its id.
use ovpn_dco.Base.{
  is_ok, ℕ, List, ◌∷◌, true, false, ◌&&◌, ◌||◌, not, none, some, ◌==◌, if◌then◌else◌, ok, err,
  eexist, eprotonosupport, first, all, all_both, first-nowhere, ◌≡◌, refl, ap, ◌⊎◌, inl, inr,
  Bool-cases, Option-cases, eq_self, ==_iff, update_self, arith,
}
use mathlib.Core.Path.{subst}
use ovpn_dco.Addr.{af_inet, af_inet6}
use ovpn_dco.Peer.{Ovpn, VpnNode, mode_mp}
use ovpn_dco.Peer.Lookup.{Key, peer_index}
use ovpn_dco.Peer.Lookup.ById.{live, find, find_lem, held, held-none, lookup_id_lem, put-held}
use ovpn_dco.Peer.Table.{unlink, link, link_vpn, add_mp, peer_add}
use ovpn_dco.Peer.Table.Lists.{distinct_ids}
use ovpn_dco.Peer.Table.Invariant.{entry, bucket_ok, IsTable}

module _ (jhash : Key → ℕ) where
  -- the interface with the peer in the table by id, and some other two tables
  unfoldable pub added : Ovpn → ℕ → (ℕ → List ℕ) → (ℕ → List VpnNode) → Ovpn
  unfolding link
  added o p transp vpn = record o {
    by_id = link p (peer_index jhash (Key.peer_id (o.peers p).id)) o.by_id;
    by_transp_addr = transp;
    by_vpn_addr = vpn;
  }

  -- In MP mode, when a live peer has the id already, the addition fails with EEXIST and the state of
  -- the interface is the one before: the reference that the look-up took is given back.
  pub peer_add_duplicate :
      (o : Ovpn) (p q : ℕ)
      → o.mode ≡ mode_mp
      → find jhash o (o.peers p).id ≡ some q
      → peer_add jhash o p ≡ (err eexist, o)
  unfolding peer_add
  peer_add_duplicate o p q mp f =
      let multi : (o.mode == mode_mp) ≡ true = rw mp refl in
      let look = lookup_id_lem jhash o (o.peers p).id mp in
      rw (multi, add_mp, look, f, look, f)
        (ap (λ s. (err eexist, s)) (put-held o q (find_lem jhash o (o.peers p).id q f).2))

  pub peer_add-cases :
      (o : Ovpn) (p : ℕ)
      → o.mode ≡ mode_mp
      → ((q : ℕ) × (find jhash o (o.peers p).id ≡ some q) × (peer_add jhash o p ≡ (err eexist, o)))
        ⊎ (peer_add jhash o p
            ≡ (err eprotonosupport, record o { by_transp_addr = unlink p o.by_transp_addr }))
        ⊎ ((transp : ℕ → List ℕ) × (vpn : ℕ → List VpnNode) × (find jhash o (o.peers p).id ≡ none)
            × (peer_add jhash o p ≡ (ok tt, added o p transp vpn)))
  unfolding peer_add added link_vpn held
  peer_add-cases o p mp =
      let multi : (o.mode == mode_mp) ≡ true = rw mp refl in
      let look = lookup_id_lem jhash o (o.peers p).id mp in
      elim (Option-cases (find jhash o (o.peers p).id)) [
        | inr (q, f) ↦ inl (q, f, peer_add_duplicate o p q mp f)
        | inl f ↦ inr (elim (Option-cases (o.peers p).bind) [
          | inl e ↦ inr (
            unlink p o.by_transp_addr,
            (link_vpn jhash o p).by_vpn_addr,
            f,
            rw (multi, add_mp, look, f, look, f, e, look, f, held-none o) refl,
          )
          | inr (bind, e) ↦
              elim (Bool-cases (bind.sa.family == af_inet || bind.sa.family == af_inet6)) [
                | inl g ↦ inr (
                  link p (peer_index jhash (Key.sockaddr (record bind.sa { scope_id = 0 })))
                      (unlink p o.by_transp_addr),
                  (link_vpn jhash o p).by_vpn_addr,
                  f,
                  rw (multi, add_mp, look, f, look, f, e, g, look, f, held-none o) refl,
                )
                | inr g ↦
                    inl (rw (multi, add_mp, look, f, look, f, e, g, look, f, held-none o) refl)
              ]
        ])
      ]

  added-IsTable :
      (o : Ovpn) (p : ℕ) (transp : ℕ → List ℕ) (vpn : ℕ → List VpnNode)
      → IsTable jhash o
      → ((o.peers p).refcount == 0) ≡ false
      → find jhash o (o.peers p).id ≡ none
      → IsTable jhash (added o p transp vpn)
  unfolding IsTable added link bucket_ok entry find live all distinct_ids
  added-IsTable o p transp vpn valid alive free b =
      let ok_b = valid b in
      let home = peer_index jhash (Key.peer_id (o.peers p).id) in
      elim (Bool-cases (home == b)) [
        | inl e ↦
            let same = (==_iff home b).0 e in
            let ps = o.by_id b in
            let nobody = first-nowhere (live (λ pr. pr.id == (o.peers p).id) o) ps (
              subst (λ x. first (live (λ pr. pr.id == (o.peers p).id) o) (o.by_id x) ≡ none) same
                free) in
            let others =
              all_both (entry jhash o.peers b) (λ q. not (live (λ pr. pr.id == (o.peers p).id) o q))
                (λ q. not ((o.peers q).id == (o.peers p).id)) ps (λ q x y. ground arith)
                (ground arith) nobody in
            let here : entry jhash o.peers b p ≡ true = ground arith in
            let entries : all (entry jhash o.peers b) ps ≡ true = ground arith in
            let ids : distinct_ids o.peers ps ≡ true = ground arith in
            rw (same, update_self o.by_id b (p ∷ o.by_id b), here, entries, others, ids) refl
        | inr e ↦ rw e ok_b
      ]

  pub find-added :
      (o : Ovpn) (p id : ℕ) (transp : ℕ → List ℕ) (vpn : ℕ → List VpnNode)
      → ((o.peers p).refcount == 0) ≡ false
      → find jhash (added o p transp vpn) id
        ≡ (if (o.peers p).id == id then some p else find jhash o id)
  unfolding find live added link first
  find-added o p id transp vpn alive = elim (Bool-cases ((o.peers p).id == id)) [
    | inl e ↦
        let same = (==_iff (o.peers p).id id).0 e in
        rw (e, same, eq_self (peer_index jhash (Key.peer_id id)), alive, same, eq_self id) refl
    | inr e ↦
        let home = peer_index jhash (Key.peer_id (o.peers p).id) in
        let b = peer_index jhash (Key.peer_id id) in
        elim (Bool-cases (home == b)) [
          | inl h ↦ rw (e, h, alive, e, (==_iff home b).0 h) refl
          | inr h ↦ rw (e, h) refl
        ]
  ]

  -- In MP mode an addition of a peer that has a reference keeps the invariant of the table by id,
  -- also when it fails.
  pub peer_add-IsTable :
      (o : Ovpn) (p : ℕ)
      → o.mode ≡ mode_mp
      → IsTable jhash o
      → ((o.peers p).refcount == 0) ≡ false
      → IsTable jhash (peer_add jhash o p).1
  unfolding IsTable
  peer_add-IsTable o p mp valid alive = elim (peer_add-cases o p mp) [
    | inl (q, f, e) ↦ rw e valid
    | inr (inl e) ↦ rw e valid
    | inr (inr (transp, vpn, f, e)) ↦ rw e (added-IsTable o p transp vpn valid alive f)
  ]

  -- In MP mode, after an addition of a peer that has a reference, a look-up of the peer's id finds
  -- that peer if the addition succeeded; any other look-up finds what it found before.
  pub find-peer_add :
      (o : Ovpn) (p id : ℕ)
      → o.mode ≡ mode_mp
      → ((o.peers p).refcount == 0) ≡ false
      → find jhash (peer_add jhash o p).1 id ≡ (
          if is_ok (peer_add jhash o p).0 && ((o.peers p).id == id)
          then some p
          else find jhash o id)
  unfolding find live
  find-peer_add o p id mp alive = elim (peer_add-cases o p mp) [
    | inl (q, f, e) ↦ rw e refl
    | inr (inl e) ↦ rw e refl
    | inr (inr (transp, vpn, f, e)) ↦ rw e (find-added o p id transp vpn alive)
  ]
