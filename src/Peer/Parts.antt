-- ===== src/Peer/Parts.antt =====
-- drivers/net/ovpn-dco/peer.c: what a peer consists of beside the fields of `Peer`: its memory,
-- route cache, rings and NAPI and its reference to the interface, in `ovpn_peer_create`, which
-- unwinds when a call fails, in `ovpn_peer_release` and in `ovpn_peer_free`.
use ovpn_dco.Base.{
  arith, List, [], ◌∷◌, Bool, Option, some, not, if◌then◌else◌, ok, err, Status, enomem,
}
use ovpn_dco.Crypto.{◌>>=◌}
use ovpn_dco.Resource.{Resource, give_back, give_back_all, acquire, IsUndone}

-- what the calls of `ovpn_peer_create` return
pub record PartCalls : Type 0 where
  pub memory : Bool
  pub dst_cache : Status
  pub tx_ring : Status
  pub rx_ring : Status
  pub netif_rx_ring : Status

-- the labels `err`, `err_dst_cache`, `err_tx_ring` and `err_rx_ring`, each falling into the one
-- before
unfoldable pub err_free : Status → List Resource → Option (Status × List Resource)
err_free ret held = do held' ← give_back Resource.memory held; some (ret, held')

unfoldable pub err_dst_cache : Status → List Resource → Option (Status × List Resource)
unfolding err_free
err_dst_cache ret held = do held' ← give_back Resource.dst_cache held; err_free ret held'

unfoldable pub err_tx_ring : Status → List Resource → Option (Status × List Resource)
unfolding err_dst_cache
err_tx_ring ret held = do held' ← give_back Resource.tx_ring held; err_dst_cache ret held'

unfoldable pub err_rx_ring : Status → List Resource → Option (Status × List Resource)
unfolding err_tx_ring
err_rx_ring ret held = do held' ← give_back Resource.rx_ring held; err_tx_ring ret held'

-- the end of `ovpn_peer_create`, where no call fails: NAPI and the reference to the interface
unfoldable pub start_napi : List Resource → List Resource
start_napi held = Resource.dev_reference ∷ Resource.napi_enabled ∷ Resource.napi ∷ held

-- `ovpn_peer_create` from its allocation on, over what is held
unfoldable pub create_parts : PartCalls → List Resource → Option (Status × List Resource)
unfolding err_free err_dst_cache err_tx_ring err_rx_ring start_napi
create_parts env held = if not env.memory then some (err enomem, held) else elim env.dst_cache [
  | err e ↦ err_free (err e) (Resource.memory ∷ held)
  | ok _ ↦ elim env.tx_ring [
    | err e ↦ err_dst_cache (err e) (Resource.dst_cache ∷ Resource.memory ∷ held)
    | ok _ ↦ elim env.rx_ring [
      | err e ↦ err_tx_ring (err e) (Resource.tx_ring ∷ Resource.dst_cache ∷ Resource.memory ∷ held)
      | ok _ ↦
          let built =
            Resource.rx_ring ∷ Resource.tx_ring ∷ Resource.dst_cache ∷ Resource.memory ∷ held in
          elim env.netif_rx_ring [
            | err e ↦ err_rx_ring (err e) built
            | ok _ ↦ some (ok tt, start_napi (Resource.netif_rx_ring ∷ built))
          ]
    ]
  ]
]

-- `ovpn_peer_release` before the socket is put
unfoldable pub stop_napi : List Resource → Option (List Resource)
stop_napi = give_back_all (Resource.napi_enabled ∷ Resource.napi ∷ [])

-- `ovpn_peer_free` after the binding and the timers
unfoldable pub free_parts : List Resource → Option (List Resource)
free_parts = give_back_all (
    Resource.tx_ring ∷ Resource.rx_ring ∷ Resource.netif_rx_ring ∷ Resource.dst_cache
    ∷ Resource.dev_reference ∷ Resource.memory ∷ [])

-- all that the end of a peer gives back
unfoldable pub release_parts : List Resource → Option (List Resource)
unfolding stop_napi free_parts
release_parts held = do left ← stop_napi held; free_parts left

-- the calls in the order in which they stand, with what each acquires
abbrev pub part_calls : PartCalls → List (Resource × Status)
part_calls env =
    (Resource.memory, if env.memory then ok tt else err enomem)
    ∷ (Resource.dst_cache, env.dst_cache)
    ∷ (Resource.tx_ring, env.tx_ring)
    ∷ (Resource.rx_ring, env.rx_ring)
    ∷ (Resource.netif_rx_ring, env.netif_rx_ring)
    ∷ (Resource.napi, ok tt)
    ∷ (Resource.napi_enabled, ok tt)
    ∷ (Resource.dev_reference, ok tt)
    ∷ []

-- Whatever is held before: `ovpn_peer_create` returns the status of the first call that fails, or
-- 0. If one fails, all that was acquired before it is given back, in an order without a fault, and
-- what is held is as before. If none fails, the release of the peer gives back, without a fault,
-- exactly what the creation acquired.
pub create_parts_lem :
    (env : PartCalls) (held : List Resource)
    → IsUndone (create_parts env) release_parts (part_calls env) held
unfolding create_parts stop_napi free_parts err_free err_dst_cache err_tx_ring err_rx_ring
    start_napi release_parts give_back give_back_all acquire IsUndone
create_parts_lem env held = ground arith
