-- ===== src/Tests/Table.antt =====
-- Witnesses for the tables of an interface: peers 1 and 2, with the ids 7 and 8.
use ovpn_dco.Base.{
  arith, some, ℕ, ◌≡◌, ◌⊎◌, refl, [], false, ◌&&◌, Option, none, if◌then◌else◌, mem, ok, err,
  eexist, enoent,
}
use ovpn_dco.Peer.{mode_p2p, peer_hold, Ovpn, DelPeerReason, peer_create}
use ovpn_dco.Peer.Lookup.ById.{find}
use ovpn_dco.Peer.Table.{peer_add, add_p2p, peer_del, peers_free}
use ovpn_dco.Peer.Table.Invariant.{IsTable, registered}
use ovpn_dco.Peer.Table.Runs.{names, map_add, map_del, Runs, agrees_with_map}
use ovpn_dco.Peer.Table.Teardown.{freed, peers_free_lem}
use ovpn_dco.Peer.References.{refs}
use ovpn_dco.Peer.Table.Single.{SingleRuns, agrees_with_register}
use ovpn_dco.Peer.Lookup.{lookup_id, scan, scan_p2p}
use ovpn_dco.Tests.Peers.{hash_toy, one_peer, one_peer-IsTable}

abbrev no_peers : Ovpn
no_peers = record one_peer { by_id = λ b. [] }

-- peer 1 is added, and deleted again
abbrev with_one : Ovpn
with_one = (peer_add hash_toy no_peers 1).1

abbrev without : Ovpn
without = (peer_del hash_toy with_one 1 DelPeerReason.userspace).1

-- the map after both
abbrev recorded : ℕ → Option ℕ
recorded =
    map_del (map_add (λ _. none) (no_peers.peers 1).id 1 (peer_add hash_toy no_peers 1).0)
      (with_one.peers 1).id 1

agrees_with_map_example :
    IsTable hash_toy without
    × (find hash_toy without 8 ≡ recorded 8)
    × ((peer_del hash_toy without 2 DelPeerReason.expired).0
        ≡ (if names (recorded (without.peers 2).id) 2 then ok tt else err enoent))
    × ((recorded (without.peers 2).id ≡ none)
        ⊎ (peer_add hash_toy without 2 ≡ (err eexist, without)))
unfolding peer_create
agrees_with_map_example =
    agrees_with_map hash_toy 2 8 DelPeerReason.expired refl (λ b. refl)
      (Runs.dels 1 DelPeerReason.userspace (Runs.adds 1 Runs.start refl refl refl) refl refl)

peers_free_lem_example :
    ((peers_free one_peer).by_id 7 ≡ [])
    × ((peers_free one_peer).peers 1
        ≡ (if registered hash_toy one_peer 1 then freed (one_peer.peers 1) else one_peer.peers 1))
    × (registered hash_toy one_peer 1 && mem 1 ((peers_free one_peer).by_transp_addr 7) ≡ false)
peers_free_lem_example = peers_free_lem hash_toy one_peer 7 1 one_peer-IsTable

-- in P2P mode: peer 1, with the id 7, is added and looked up
abbrev single : Ovpn
single = record one_peer { mode = mode_p2p; peer = none }

abbrev with_single : Ovpn
with_single = (lookup_id hash_toy (peer_add hash_toy single 1).1 7).1

agrees_with_register_example :
    (refs with_single 1 ≡ 2)
    × ((lookup_id hash_toy with_single 7).0 ≡ some 1)
    × ((peer_del hash_toy with_single 1 DelPeerReason.userspace).0 ≡ ok tt)
unfolding peer_create lookup_id scan scan_p2p peer_hold peer_add add_p2p
agrees_with_register_example =
    agrees_with_register hash_toy single (refs single) 7 1 DelPeerReason.userspace refl refl
      (λ q. refl) (SingleRuns.looks 7 (SingleRuns.adds 1 SingleRuns.start (omega arith)))
