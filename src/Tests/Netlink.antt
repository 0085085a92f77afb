-- ===== src/Tests/Netlink.antt =====
-- Witnesses for the properties of the netlink commands and of the interface.
use ovpn_dco.Base.{
  ℕ, ◌+◌, ◌≤◌, ◌<◌, ◌^◌, refl, List, [], ◌∷◌, arith, true, none, some, length, ok, ◌==◌,
  if◌then◌else◌,
}
use ovpn_dco.Crypto.Refs.{Ensures}
use ovpn_dco.Data.{ipproto_udp}
use ovpn_dco.Data.Transmit.{Transport, skb_len_for}
use ovpn_dco.Netlink.Commands.{Command}
use ovpn_dco.Netlink.Changes.{IsSound}
use ovpn_dco.Netlink.Sessions.{runs, runs-IsSound, SameTable}
use ovpn_dco.Netlink.Peers.{all_peers, peers_of}
use ovpn_dco.Netlink.DumpCalls.{Dumping}
use ovpn_dco.Netlink.DumpCalls.Whole.{Dumped, dump_all-Dumped}
use ovpn_dco.Netlink.Packets.{PacketAttrs, Message}
use ovpn_dco.Netlink.Listener.{ListenerEvent}
use ovpn_dco.Device.{change_mtu, change_mtu-IsRoomy, IsRoomy}
use ovpn_dco.Tests.Keys.{two_keys-IsCounted}
use ovpn_dco.Tests.Peers.{one_peer}
use ovpn_dco.Tests.Data.{kernel, tunnel}

abbrev session : List (ℕ × Command)
session =
    (5, Command.cmd_swap_keys (some (ok (some 5))))
    ∷ (6, Command.cmd_del_key (some (ok (record { peer_id = some 5; key_slot = some 0 }))))
    ∷ (7, Command.cmd_new_key none)
    ∷ []

runs-IsSound_example : Ensures (λ o. IsSound o × SameTable tunnel o) (runs kernel tunnel session)
runs-IsSound_example = runs-IsSound kernel tunnel session (λ p. two_keys-IsCounted)

abbrev empty_out : ℕ → Transport
empty_out p = record { udp = []; tcp_tx_ring = [] }

-- a control packet for the peer 5
abbrev control : PacketAttrs
control = record { packet = some (0x20 ∷ 1 ∷ 2 ∷ 3 ∷ []); peer_id = some 5 }

abbrev message : Message
message = record { alloc = true; header_fits = true; attrs_fit = true; sending = ok tt }

abbrev events : List ListenerEvent
events =
    ListenerEvent.registers 3
    ∷ ListenerEvent.registers 4
    ∷ ListenerEvent.released 4
    ∷ ListenerEvent.released 3
    ∷ ListenerEvent.registers 4
    ∷ []

change_mtu-IsRoomy_example :
    (68 ≤ 1400)
    × (1400 ≤ 65535)
    × (1400 + 80 + 2 < 2 ^ 16 → IsRoomy 80 17 100)
    × (2 ^ 16 ≤ 80 + 100 → skb_len_for 80 ipproto_udp 100 < 100)
unfolding change_mtu
change_mtu-IsRoomy_example =
    change_mtu-IsRoomy one_peer 1400 80 17 100 refl (omega arith) (omega arith)

few : length (all_peers one_peer) ≤ 1
unfolding all_peers peers_of
few = omega arith

-- one interface, with the index 3
abbrev dump_request : Dumping
dump_request = record {
  alloc = ok tt;
  parse = ok tt;
  devices = λ i. if i == 3 then some true else none;
  ifindex = some 3;
  interfaces = λ d. one_peer;
}

dump_all-Dumped_example : Dumped dump_request (λ d. 1) (2 ∷ [])
dump_all-Dumped_example = dump_all-Dumped dump_request (λ d. 1) 2 [] (omega arith, tt) (λ d e. few)
