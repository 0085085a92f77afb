-- ===== src/Peer/Table/Teardown.antt =====
-- `ovpn_peers_free` empties the tables of an interface.
use ovpn_dco.Base.{
  ℕ, zero, suc, ◌+◌, ◌-◌, ◌≡◌, refl, ◌∙◌, arith, List, [], ◌∷◌, Bool, true, false, ◌&&◌, not, ◌==◌,
  ltb, if◌then◌else◌, inl, inr, Bool-cases, eq_self, ==_iff, mem, all-mem,
}
use ovpn_dco.Peer.{Peer, Ovpn, DelPeerReason, peer_put}
use ovpn_dco.Peer.Lookup.{Key, hash_size, peer_index}
use ovpn_dco.Peer.Table.{unlink, unhash, free_bucket, free_from, peers_free}
use ovpn_dco.Peer.Table.Erase.{
  erase_all, mem-erase_all, no_members, erase_all_absent, nodup, distinct-nodup,
}
use ovpn_dco.Peer.Table.Invariant.{entry, bucket_ok, IsTable, registered}

eq_flip : (p q : ℕ) → (p == q) ≡ false → (q == p) ≡ false
eq_flip p q h = ground arith

-- a peer whose table entry is gone
abbrev pub freed : Peer → Peer
freed pr = record pr { refcount = pr.refcount - 1; delete_reason = DelPeerReason.teardown }

unhash-peers :
    (o : Ovpn) (p q : ℕ)
    → (unhash o p DelPeerReason.teardown).peers q
      ≡ (if q == p then freed (o.peers q) else o.peers q)
unfolding unhash peer_put
unhash-peers o p q = elim (Bool-cases (q == p)) [
  | inl e ↦ (let same = (==_iff q p).0 e in rw (same, eq_self p) refl)
  | inr e ↦ (let other = eq_flip q p e in rw (e, other) refl)
]

free_bucket-peers :
    (ps : List ℕ) (o : Ovpn) (q : ℕ)
    → nodup ps ≡ true
    → (free_bucket ps o).peers q ≡ (if mem q ps then freed (o.peers q) else o.peers q)
unfolding free_bucket nodup mem
free_bucket-peers [] o q h = refl
free_bucket-peers (p ∷ ps) o q h =
    let o' = unhash o p DelPeerReason.teardown in
    let rest = free_bucket-peers ps o' q (ground arith) in
    let one = unhash-peers o p q in
    elim (Bool-cases (q == p)) [
      | inl e ↦
          let same = (==_iff q p).0 e in
          let alone : mem q ps ≡ false = rw same (ground arith) in rest ∙ rw (alone, one, e) refl
      | inr e ↦ rest ∙ rw (one, e) refl
    ]

free_bucket-by_id :
    (ps : List ℕ) (o : Ovpn) (b : ℕ) → (free_bucket ps o).by_id b ≡ erase_all ps (o.by_id b)
unfolding free_bucket erase_all unhash unlink peer_put
free_bucket-by_id [] o b = refl
free_bucket-by_id (p ∷ ps) o b = free_bucket-by_id ps (unhash o p DelPeerReason.teardown) b

free_bucket-transp :
    (ps : List ℕ) (o : Ovpn) (b : ℕ)
    → (free_bucket ps o).by_transp_addr b ≡ erase_all ps (o.by_transp_addr b)
unfolding free_bucket erase_all unhash unlink peer_put
free_bucket-transp [] o b = refl
free_bucket-transp (p ∷ ps) o b = free_bucket-transp ps (unhash o p DelPeerReason.teardown) b

and_true : (a : Bool) → a && true ≡ a
and_true true = refl
and_true false = refl

and_false : (a : Bool) → a && false ≡ false
and_false true = refl
and_false false = refl

and_not : (a b : Bool) → a && (b && not a) ≡ false
and_not true b = and_false b
and_not false b = refl

beyond_bound : (n b : ℕ) → ltb n hash_size ≡ true → ltb b hash_size ≡ false → (n == b) ≡ false
beyond_bound n b h k = ground arith

add_zero : (n : ℕ) → n + 0 ≡ n
add_zero n = omega arith

add_suc : (n m : ℕ) → n + suc m ≡ n + 1 + m
add_suc n m = omega arith

module _ (jhash : Key → ℕ) where
  abbrev home : Ovpn → ℕ → ℕ
  home o q = peer_index jhash (Key.peer_id (o.peers q).id)

  -- whether the peer stands in one of the buckets below `bkt`
  abbrev gone : Ovpn → ℕ → ℕ → Bool
  gone o bkt q = registered jhash o q && ltb (home o q) bkt

  -- The interface `o'` after the buckets below `bkt` have been freed.
  record IsFreed (o o' : Ovpn) (bkt : ℕ) : Type 0 where
    by_id : (b : ℕ) → o'.by_id b ≡ (if ltb b bkt then [] else o.by_id b)
    peers : (q : ℕ) → o'.peers q ≡ (if gone o bkt q then freed (o.peers q) else o.peers q)
    transp :
        (b q : ℕ) → mem q (o'.by_transp_addr b) ≡ mem q (o.by_transp_addr b) && not (gone o bkt q)

  -- an entry of a bucket has its home there
  listed_home :
      (o : Ovpn) (b q : ℕ)
      → IsTable jhash o
      → mem q (o.by_id b) ≡ registered jhash o q && (home o q == b)
  unfolding IsTable bucket_ok entry registered
  listed_home o b q v =
      let ok_b = v b in
      let here = all-mem (entry jhash o.peers b) q (o.by_id b) (ground arith) in
      elim (Bool-cases (home o q == b)) [
        | inl e ↦ (let same = (==_iff (home o q) b).0 e in rw (e, same) (ground arith))
        | inr e ↦
            (let absent : mem q (o.by_id b) ≡ false = ground arith in rw (absent, e) (ground arith))
      ]

  -- what is left of a bucket when another one is freed
  bucket_left :
      (o : Ovpn) (bkt b : ℕ)
      → IsTable jhash o
      → erase_all (o.by_id bkt) (if ltb b bkt then [] else o.by_id b)
        ≡ (if ltb b (bkt + 1) then [] else o.by_id b)
  unfolding mem
  bucket_left o bkt b v = elim (Bool-cases (ltb b (bkt + 1))) [
    | inl e ↦
        let l : List ℕ = if ltb b bkt then [] else o.by_id b in
        rw e (
          no_members (erase_all (o.by_id bkt) l) (λ q.
            mem-erase_all (o.by_id bkt) l q ∙ (elim (Bool-cases (ltb b bkt)) [
              | inl n ↦ rw n refl
              | inr n ↦ (let same : b ≡ bkt = ground arith in rw (n, same) (ground arith))
            ])))
    | inr e ↦
        let n : ltb b bkt ≡ false = ground arith in
        rw (n, e)
          (erase_all_absent (o.by_id bkt) (o.by_id b)
            (λ q. ground (arith, listed_home o bkt q v, listed_home o b q v)))
  ]

  -- one more bucket
  next_bucket :
      (o o' : Ovpn) (bkt : ℕ)
      → IsTable jhash o
      → IsFreed o o' bkt
      → IsFreed o (free_bucket (o'.by_id bkt) o') (bkt + 1)
  unfolding IsTable bucket_ok
  next_bucket o o' bkt v f =
      let ok_b = v bkt in
      let same : o'.by_id bkt ≡ o.by_id bkt = f.by_id bkt ∙ ground arith in
      let ps = o.by_id bkt in
      let alone = distinct-nodup o.peers ps (ground arith) in
      let here = λ (q : ℕ). listed_home o bkt q v in
      rw same (record {
        by_id = λ b. free_bucket-by_id ps o' b ∙ rw (f.by_id b) (bucket_left o bkt b v);
        peers = λ q. free_bucket-peers ps o' q alone ∙ rw (f.peers q) (ground (arith, here q));
        transp = λ b q.
            rw (free_bucket-transp ps o' b, mem-erase_all ps (o'.by_transp_addr b) q, f.transp b q)
              (ground (arith, here q));
      })

  free_from-IsFreed :
      (left : ℕ) (o o' : Ovpn) (bkt : ℕ)
      → IsTable jhash o
      → IsFreed o o' bkt
      → IsFreed o (free_from left bkt o') (bkt + left)
  unfolding free_from
  free_from-IsFreed zero o o' bkt v f = rw (add_zero bkt) f
  free_from-IsFreed (suc left) o o' bkt v f = rw (add_suc bkt left) (
      free_from-IsFreed left o (free_bucket (o'.by_id bkt) o') (bkt + 1) v
        (next_bucket o o' bkt v f))

  start-IsFreed : (o : Ovpn) → IsFreed o o 0
  start-IsFreed o = record {
    by_id = λ b. ground arith;
    peers = λ q. ground arith;
    transp = λ b q. ground arith;
  }

  home_small : (o : Ovpn) (q : ℕ) → ltb (home o q) hash_size ≡ true
  unfolding peer_index
  home_small o q = ground arith

  -- no entries stand past the last bucket
  beyond :
      (o : Ovpn) (b r : ℕ) → IsTable jhash o → ltb b hash_size ≡ false → mem r (o.by_id b) ≡ false
  beyond o b r v e =
      let small = home_small o r in
      let other : (home o r == b) ≡ false = beyond_bound (home o r) b small e in
      listed_home o b r v ∙ rw other (and_false (registered jhash o r))

  done_all :
      (o o' : Ovpn) (b q : ℕ)
      → IsTable jhash o
      → IsFreed o o' hash_size
      → (o'.by_id b ≡ [])
        × (o'.peers q ≡ (if registered jhash o q then freed (o.peers q) else o.peers q))
        × (registered jhash o q && mem q (o'.by_transp_addr b) ≡ false)
  done_all o o' b q v f =
      let here : gone o hash_size q ≡ registered jhash o q =
        rw (home_small o q) (and_true (registered jhash o q)) in
      (
        f.by_id b ∙ (elim (Bool-cases (ltb b hash_size)) [
          | inl e ↦ rw e refl
          | inr e ↦ rw e (no_members (o.by_id b) (λ r. beyond o b r v e))
        ]),
        f.peers q ∙ rw here refl,
        rw (f.transp b q, here) (and_not (registered jhash o q) (mem q (o.by_transp_addr b))),
      )

  -- On a well-formed table `ovpn_peers_free` empties every bucket of the table by id. Each peer that
  -- was registered has then one reference less, the reason of a teardown, and is in no bucket of the
  -- table by transport address; every other peer is as before.
  pub peers_free_lem :
      (o : Ovpn) (b q : ℕ)
      → IsTable jhash o
      → ((peers_free o).by_id b ≡ [])
        × ((peers_free o).peers q ≡ (if registered jhash o q then freed (o.peers q) else o.peers q))
        × (registered jhash o q && mem q ((peers_free o).by_transp_addr b) ≡ false)
  unfolding peers_free
  peers_free_lem o b q v =
      done_all o (free_from hash_size 0 o) b q v
        (free_from-IsFreed hash_size o o 0 v (start-IsFreed o))
