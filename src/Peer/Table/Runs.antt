-- ===== src/Peer/Table/Runs.antt =====
-- Additions and deletions in MP mode in any order, against a map from ids to peers.
use ovpn_dco.Base.{
  is_ok, ℕ, ◌≡◌, ◌⊎◌, refl, ◌∙◌, [], Bool, true, false, ◌&&◌, Option, none, some, ◌==◌,
  if◌then◌else◌, update, Status, ok, err, eexist, enoent, inl, inr, Bool-cases, Option-cases,
  eq_self, ==_iff, first, all,
}
use ovpn_dco.Peer.{Ovpn, DelPeerReason, mode_mp}
use ovpn_dco.Peer.Lookup.{Key}
use ovpn_dco.Peer.Lookup.ById.{find}
use ovpn_dco.Peer.Table.{peer_add, peer_del}
use ovpn_dco.Peer.Table.Lists.{distinct_ids}
use ovpn_dco.Peer.Table.Invariant.{bucket_ok, IsTable, registered, find-registered, registered-find}
use ovpn_dco.Peer.Table.Add.{
  added, peer_add-cases, peer_add_duplicate, peer_add-IsTable, find-peer_add,
}
use ovpn_dco.Peer.Table.Remove.{removed, peer_del_lem, peer_del-IsTable, find-peer_del}

-- whether the entry of the map is the peer
abbrev pub names : Option ℕ → ℕ → Bool
names none p = false
names (some q) p = q == p

-- The map after an addition that returned `ret`, and after a deletion.
abbrev pub map_add : (ℕ → Option ℕ) → ℕ → ℕ → Status → ℕ → Option ℕ
map_add m id p ret = if is_ok ret then update m id (some p) else m

abbrev pub map_del : (ℕ → Option ℕ) → ℕ → ℕ → ℕ → Option ℕ
map_del m id p = if names (m id) p then update m id none else m

map_add_at :
    (m : ℕ → Option ℕ) (pid p id : ℕ) (ret : Status)
    → (if is_ok ret && (pid == id) then some p else m id) ≡ map_add m pid p ret id
map_add_at m pid p id (ok _) = refl
map_add_at m pid p id (err _) = refl

map_del_at :
    (m : ℕ → Option ℕ) (pid id : ℕ) (b : Bool)
    → (if b && (pid == id) then none else m id) ≡ (if b then update m pid none else m) id
map_del_at m pid id true = refl
map_del_at m pid id false = refl

module _ (jhash : Key → ℕ) where
  -- The interface after some additions and deletions, with the map. A peer that is added has a
  -- reference.
  pub data Runs (o : Ovpn) : (ℕ → Option ℕ) → Ovpn → Type 0 where
    start : Runs o (λ _. none) o
    adds :
        {m m' : ℕ → Option ℕ} {o' o'' : Ovpn} (p : ℕ)
        → Runs o m o'
        → ((o'.peers p).refcount == 0) ≡ false
        → m' ≡ map_add m (o'.peers p).id p (peer_add jhash o' p).0
        → o'' ≡ (peer_add jhash o' p).1
        → Runs o m' o''
    dels :
        {m m' : ℕ → Option ℕ} {o' o'' : Ovpn} (p : ℕ) (reason : DelPeerReason)
        → Runs o m o'
        → m' ≡ map_del m (o'.peers p).id p
        → o'' ≡ (peer_del jhash o' p reason).1
        → Runs o m' o''

  record Follows (m : ℕ → Option ℕ) (o : Ovpn) : Type 0 where
    multi : o.mode ≡ mode_mp
    table : IsTable jhash o
    finds : (id : ℕ) → find jhash o id ≡ m id

  empty-Follows : (o : Ovpn) → o.mode ≡ mode_mp → ((b : ℕ) → o.by_id b ≡ []) → Follows (λ _. none) o
  unfolding IsTable bucket_ok all distinct_ids find first
  empty-Follows o mp empty = record {
    multi = mp;
    table = λ b. rw (empty b) refl;
    finds = λ id. rw (empty _) refl;
  }

  registered-names :
      (o : Ovpn) (p : ℕ)
      → IsTable jhash o
      → registered jhash o p ≡ names (find jhash o (o.peers p).id) p
  registered-names o p v = elim (Bool-cases (registered jhash o p)) [
    | inl r ↦ rw (r, find-registered jhash o p v r, eq_self p) refl
    | inr r ↦ elim (Option-cases (find jhash o (o.peers p).id)) [
      | inl f ↦ rw (r, f) refl
      | inr (q, f) ↦ elim (Bool-cases (q == p)) [
        | inl e ↦ let there = registered-find jhash o p (f ∙ rw ((==_iff q p).0 e) refl) in cc
        | inr e ↦ rw (r, f, e) refl
      ]
    ]
  ]

  mode-peer_add : (o : Ovpn) (p : ℕ) → o.mode ≡ mode_mp → (peer_add jhash o p).1.mode ≡ mode_mp
  unfolding added
  mode-peer_add o p mp = elim (peer_add-cases jhash o p mp) [
    | inl (q, f, e) ↦ rw e mp
    | inr (inl e) ↦ rw e mp
    | inr (inr (transp, vpn, f, e)) ↦ rw e mp
  ]

  mode-peer_del :
      (o : Ovpn) (p : ℕ) (reason : DelPeerReason)
      → o.mode ≡ mode_mp
      → IsTable jhash o
      → (peer_del jhash o p reason).1.mode ≡ mode_mp
  unfolding removed
  mode-peer_del o p reason mp v = elim (Bool-cases (registered jhash o p)) [
    | inl r ↦ rw (peer_del_lem jhash o p reason mp v, r) mp
    | inr r ↦ rw (peer_del_lem jhash o p reason mp v, r) mp
  ]

  adds-Follows :
      (m : ℕ → Option ℕ) (o : Ovpn) (p : ℕ)
      → Follows m o
      → ((o.peers p).refcount == 0) ≡ false
      → Follows (map_add m (o.peers p).id p (peer_add jhash o p).0) (peer_add jhash o p).1
  adds-Follows m o p f alive = record {
    multi = mode-peer_add o p f.multi;
    table = peer_add-IsTable jhash o p f.multi f.table alive;
    finds = λ id.
        find-peer_add jhash o p id f.multi alive
        ∙ rw (f.finds id) (map_add_at m (o.peers p).id p id (peer_add jhash o p).0);
  }

  dels-Follows :
      (m : ℕ → Option ℕ) (o : Ovpn) (p : ℕ) (reason : DelPeerReason)
      → Follows m o
      → Follows (map_del m (o.peers p).id p) (peer_del jhash o p reason).1
  dels-Follows m o p reason f =
      let pid = (o.peers p).id in
      let same : registered jhash o p ≡ names (m pid) p =
        registered-names o p f.table ∙ rw (f.finds pid) refl in
      record {
        multi = mode-peer_del o p reason f.multi f.table;
        table = peer_del-IsTable jhash o p reason f.multi f.table;
        finds = λ id.
            find-peer_del jhash o p id reason f.multi f.table
            ∙ rw (same, f.finds id) (map_del_at m pid id (names (m pid) p));
      }

  Runs-Follows :
      {o o' : Ovpn} {m : ℕ → Option ℕ}
      → o.mode ≡ mode_mp
      → ((b : ℕ) → o.by_id b ≡ [])
      → Runs o m o'
      → Follows m o'
  Runs-Follows {o} mp empty start = empty-Follows o mp empty
  Runs-Follows mp empty (adds {m} {m'} {o'} p r alive e f) =
      rw (e, f) (adds-Follows m o' p (Runs-Follows mp empty r) alive)
  Runs-Follows mp empty (dels {m} {m'} {o'} p reason r e f) =
      rw (e, f) (dels-Follows m o' p reason (Runs-Follows mp empty r))

  -- From an interface in MP mode without peers on, after any additions and deletions, where a peer
  -- that is added has a reference: the invariant of the table by id holds, and a look-up of an id
  -- finds what the map holds under it, into which a successful addition wrote the peer and from
  -- which a deletion took it. A further deletion succeeds for a peer under its id in the map, and
  -- is ENOENT for any other. A further addition under an id that is in the map is EEXIST and changes
  -- nothing.
  pub agrees_with_map :
      {o o' : Ovpn} {m : ℕ → Option ℕ} (p id : ℕ) (reason : DelPeerReason)
      → o.mode ≡ mode_mp
      → ((b : ℕ) → o.by_id b ≡ [])
      → Runs o m o'
      → IsTable jhash o'
        × (find jhash o' id ≡ m id)
        × ((peer_del jhash o' p reason).0
            ≡ (if names (m (o'.peers p).id) p then ok tt else err enoent))
        × ((m (o'.peers p).id ≡ none) ⊎ (peer_add jhash o' p ≡ (err eexist, o')))
  agrees_with_map {o} {o'} {m} p id reason mp empty r =
      let f = Runs-Follows mp empty r in
      let pid = (o'.peers p).id in
      let same : registered jhash o' p ≡ names (m pid) p =
        registered-names o' p f.table ∙ rw (f.finds pid) refl in
      (
        f.table,
        f.finds id,
        elim (Bool-cases (registered jhash o' p)) [
          | inl t ↦ rw (peer_del_lem jhash o' p reason f.multi f.table, ← same, t) refl
          | inr t ↦ rw (peer_del_lem jhash o' p reason f.multi f.table, ← same, t) refl
        ],
        elim (Option-cases (m pid)) [
          | inl e ↦ inl e
          | inr (q, e) ↦ inr (peer_add_duplicate jhash o' p q f.multi (f.finds pid ∙ e))
        ],
      )
