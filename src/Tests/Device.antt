-- ===== src/Tests/Device.antt =====
-- Witnesses for the module, a new interface, the parts of a new peer, and the polls of its ring.
use ovpn_dco.Base.{
  ℕ, ◌≤◌, ◌≡◌, refl, arith, List, [], ◌∷◌, true, false, Option, none, some, ok, err, enomem,
}
use ovpn_dco.Resource.{Resource, IsUndone, give_back, acquire}
use ovpn_dco.Peer.{Ovpn, mode_mp}
use ovpn_dco.Peer.Lookup.{lookup_id}
use ovpn_dco.Peer.Parts.{PartCalls, create_parts, release_parts, part_calls, create_parts_lem}
use ovpn_dco.Device.Module.{
  Registers, netlink_register, module_init, module_cleanup, registrations, module_init-cleanup,
}
use ovpn_dco.Device.Creation.{Newlink, newlink, newlink_lem}
use ovpn_dco.Data.Poll.{Tun, napi_poll, polls, written, polls-written}
use ovpn_dco.Tests.Peers.{hash_toy, one_peer}

-- another module has a notifier with the kernel
abbrev registers : Registers
registers = record { rtnl_link = ok tt; genl_family = ok tt; notifier = err enomem }

module_init-cleanup_example :
    IsUndone
      (module_init registers)
      module_cleanup
      (registrations registers)
      (Resource.notifier ∷ [])
module_init-cleanup_example = module_init-cleanup registers (Resource.notifier ∷ [])

-- the failed loading, run
unloaded :
    module_init registers (Resource.notifier ∷ []) ≡ some (err enomem, Resource.notifier ∷ [])
unfolding module_init netlink_register give_back
unloaded = refl

-- no memory for the statistics
abbrev short_of_memory : Newlink
short_of_memory = record {
  dev_create = ok tt;
  crypto_wq = true;
  events_wq = true;
  tstats = false;
  alloc_security = ok tt;
  registers = ok tt;
  destructs = true;
}

newlink_lem_example :
    (o' : Ovpn) × (newlink short_of_memory one_peer (some mode_mp) []
      ≡ some (err enomem, o', Resource.events_wq ∷ Resource.crypto_wq ∷ []))
    × (◌≡◌ {A = Option (List Resource)} (some []) (some []))
    × (mode_mp ≡ mode_mp)
    × (o'.registered_nl_portid_set ≡ false)
    × ((lookup_id hash_toy o' 7).0 ≡ none)
unfolding acquire
newlink_lem_example = newlink_lem hash_toy short_of_memory one_peer (some mode_mp) [] 7

abbrev part_results : PartCalls
part_results = record {
  memory = true;
  dst_cache = ok tt;
  tx_ring = ok tt;
  rx_ring = ok tt;
  netif_rx_ring = err enomem;
}

create_parts_lem_example :
    IsUndone
      (create_parts part_results)
      release_parts
      (part_calls part_results)
      (Resource.tx_ring ∷ [])
create_parts_lem_example = create_parts_lem part_results (Resource.tx_ring ∷ [])

-- three packets, and a budget of two
abbrev ring : List (ℕ × List ℕ)
ring = (30, 69 ∷ []) ∷ (40, 69 ∷ 0 ∷ []) ∷ (50, 96 ∷ []) ∷ []

abbrev tun : Tun
tun = record { rx_packets = 5; rx_bytes = 700; received = [] }

polls-written_example :
    ((napi_poll 2 tun ring).0.0 ≤ 2)
    × (polls 4 2 tun ring
        ≡ some (record {
          rx_packets = 8;
          rx_bytes = 820;
          received = (69 ∷ []) ∷ (69 ∷ 0 ∷ []) ∷ (96 ∷ []) ∷ [];
        }))
unfolding written
polls-written_example =
    polls-written 4 2 tun ring (omega arith) (omega arith) (omega arith) (omega arith)
