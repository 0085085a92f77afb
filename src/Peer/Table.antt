-- ===== src/Peer/Table.antt =====
-- The tables of peer.c as they change: `ovpn_peer_add`, `ovpn_peer_del` and `ovpn_peers_free`.
pub mod Lists
pub mod Invariant
pub mod Remove
pub mod Add
pub mod Runs
pub mod Erase
pub mod Teardown
pub mod Single
use ovpn_dco.Base.{
  ℕ, zero, suc, ◌+◌, ◌-◌, List, [], ◌∷◌, Bool, true, false, ◌&&◌, ◌||◌, not, Option, none, some,
  ◌==◌, if◌then◌else◌, update, Result, ok, err, Status, eexist, enoent, eprotonosupport, eopnotsupp,
}
use ovpn_dco.Addr.{SockAddr, af_inet, af_inet6}
use ovpn_dco.Peer.{Peer, Ovpn, VpnNode, DelPeerReason, peer_put, set_peer, mode_p2p, mode_mp}
use ovpn_dco.Peer.Lookup.{Key, hash_size, peer_index, lookup_id}

-- `hlist_del_init_rcu`: the node leaves whatever list it is in
unfoldable pub erase : ℕ → List ℕ → List ℕ
erase p [] = []
erase p (q ∷ qs) = let rest = erase p qs in if p == q then rest else q ∷ rest

unfoldable pub unlink : ℕ → (ℕ → List ℕ) → ℕ → List ℕ
unfolding erase
unlink p table b = erase p (table b)

abbrev node_eq : VpnNode → VpnNode → Bool
node_eq (VpnNode.addr4 p) (VpnNode.addr4 q) = p == q
node_eq (VpnNode.addr6 p) (VpnNode.addr6 q) = p == q
node_eq (VpnNode.addr4 p) (VpnNode.addr6 q) = false
node_eq (VpnNode.addr6 p) (VpnNode.addr4 q) = false

unfoldable pub erase_node : VpnNode → List VpnNode → List VpnNode
erase_node n [] = []
erase_node n (m ∷ ms) = let rest = erase_node n ms in if node_eq n m then rest else m ∷ rest

unfoldable pub unlink_node : VpnNode → (ℕ → List VpnNode) → ℕ → List VpnNode
unfolding erase_node
unlink_node n table b = erase_node n (table b)

-- `hlist_add_head_rcu`
unfoldable pub link {ℓ} : {A : Type ℓ} → A → ℕ → (ℕ → List A) → ℕ → List A
link n b table = update table b (n ∷ table b)

abbrev pub set_reason : Ovpn → ℕ → DelPeerReason → Ovpn
set_reason o p reason = set_peer o p (record (o.peers p) { delete_reason = reason })

-- `ovpn_peer_add_p2p`
unfoldable pub add_p2p : Ovpn → ℕ → Status × Ovpn
add_p2p o p =
    let o' : Ovpn = elim o.peer [
      | none ↦ o
      | some tmp ↦ peer_put (set_reason o tmp DelPeerReason.teardown) tmp
    ] in
    (ok tt, record o' { peer = some p })

-- `ovpn_peer_unhash`
unfoldable pub unhash : Ovpn → ℕ → DelPeerReason → Ovpn
unfolding unlink unlink_node
unhash o p reason =
    set_reason
      (peer_put
        (record o {
          by_id = unlink p o.by_id;
          by_vpn_addr = unlink_node (VpnNode.addr6 p) (unlink_node (VpnNode.addr4 p) o.by_vpn_addr);
          by_transp_addr = unlink p o.by_transp_addr;
        })
        p)
      p reason

-- `ovpn_peer_del_p2p`
unfoldable pub del_p2p : Ovpn → ℕ → DelPeerReason → Status × Ovpn
del_p2p o p reason = elim o.peer [
  | none ↦ (err enoent, o)
  | some tmp ↦
      if tmp == p
      then (ok tt, record (set_reason (peer_put o tmp) tmp reason) { peer = none })
      else (err enoent, o)
]

-- `ovpn_peer_release_p2p`
unfoldable pub release_p2p : Ovpn → Ovpn
unfolding del_p2p
release_p2p o = elim o.peer [ none ↦ o | some tmp ↦ (del_p2p o tmp DelPeerReason.teardown).1 ]

-- `ovpn_peers_free`: every entry of every bucket
unfoldable pub free_bucket : List ℕ → Ovpn → Ovpn
unfolding unhash
free_bucket [] o = o
free_bucket (p ∷ ps) o = free_bucket ps (unhash o p DelPeerReason.teardown)

-- the buckets from `bkt` on, `left` of them
unfoldable pub free_from : ℕ → ℕ → Ovpn → Ovpn
unfolding free_bucket
free_from zero bkt o = o
free_from (suc left) bkt o = free_from left (bkt + 1) (free_bucket (o.by_id bkt) o)

unfoldable pub peers_free : Ovpn → Ovpn
unfolding free_from
peers_free o = free_from hash_size 0 o

module _ (jhash : Key → ℕ) where
  -- the part of `ovpn_peer_add_mp` on the transport address; `none` is an unknown family
  unfoldable pub link_transp : Ovpn → ℕ → Option Ovpn
  unfolding unlink link
  link_transp o p =
      let table = unlink p o.by_transp_addr in
      elim (o.peers p).bind [
        | none ↦ some (record o { by_transp_addr = table })
        | some bind ↦
            let sa = record bind.sa { scope_id = 0 } in
            if sa.family == af_inet || sa.family == af_inet6
            then some
                (record o { by_transp_addr = link p (peer_index jhash (Key.sockaddr sa)) table })
            else none
      ]

  -- the part on the VPN addresses; 0 is the unset address of either family
  unfoldable pub link_vpn : Ovpn → ℕ → Ovpn
  unfolding unlink_node link
  link_vpn o p =
      let pr = o.peers p in
      let with4 =
        if pr.vpn_ipv4 == 0
        then o.by_vpn_addr
        else link (VpnNode.addr4 p) (peer_index jhash (Key.vpn_addr4 pr.vpn_ipv4)) o.by_vpn_addr in
      let table = unlink_node (VpnNode.addr6 p) with4 in
      record o {
        by_vpn_addr =
            if pr.vpn_ipv6 == 0
            then table
            else link (VpnNode.addr6 p) (peer_index jhash (Key.vpn_addr6 pr.vpn_ipv6)) table;
      }

  -- `ovpn_peer_add_mp`
  unfoldable pub add_mp : Ovpn → ℕ → Status × Ovpn
  unfolding link_transp link_vpn lookup_id link
  add_mp o p =
      let id = (o.peers p).id in
      let (tmp, o') = lookup_id jhash o id in
      elim tmp [
        | some q ↦ (err eexist, peer_put o' q)
        | none ↦ elim (link_transp o' p) [
          | none ↦ (err eprotonosupport, record o' { by_transp_addr = unlink p o'.by_transp_addr })
          | some o'' ↦ (
            ok tt,
            link_vpn (record o'' { by_id = link p (peer_index jhash (Key.peer_id id)) o''.by_id })
                p,
          )
        ]
      ]

  -- `ovpn_peer_add`
  unfoldable pub peer_add : Ovpn → ℕ → Status × Ovpn
  unfolding add_mp add_p2p
  peer_add o p =
      if o.mode == mode_mp
      then add_mp o p
      else (if o.mode == mode_p2p then add_p2p o p else (err eopnotsupp, o))

  -- `ovpn_peer_del_mp`
  unfoldable pub del_mp : Ovpn → ℕ → DelPeerReason → Status × Ovpn
  unfolding lookup_id unhash
  del_mp o p reason =
      let (tmp, o') = lookup_id jhash o (o.peers p).id in
      elim tmp [
        | none ↦ (err enoent, o')
        | some q ↦
            if q == p then (ok tt, peer_put (unhash o' p reason) q) else (err enoent, peer_put o' q)
      ]

  -- `ovpn_peer_del`
  unfoldable pub peer_del : Ovpn → ℕ → DelPeerReason → Status × Ovpn
  unfolding del_mp del_p2p
  peer_del o p reason =
      if o.mode == mode_mp
      then del_mp o p reason
      else (if o.mode == mode_p2p then del_p2p o p reason else (err eopnotsupp, o))

  -- `ovpn_peer_expire`, the callback of the timer `keepalive_recv`
  unfoldable pub peer_expire : Ovpn → ℕ → Ovpn
  unfolding peer_del
  peer_expire o p = (peer_del o p DelPeerReason.expired).1
