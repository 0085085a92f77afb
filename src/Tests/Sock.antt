-- ===== src/Tests/Sock.antt =====
-- Witnesses for the sockets: socket 4 is a UDP socket that no one has attached.
use ovpn_dco.Base.{
  refl, ◌≡◌, update, arith, true, false, none, some, ◌==◌, if◌then◌else◌, inl, ok, err, einval,
}
use ovpn_dco.Addr.{af_inet}
use ovpn_dco.Crypto.Refs.{Ensures}
use ovpn_dco.Sock.{UserData, Socket, Owner, Sockets, socket_new, socket_put}
use ovpn_dco.Sock.Files.{UsedOnce, left_over, given_up, socket_put-socket_new}
use ovpn_dco.Sock.Tcp.{Wakes, tcp-Wakes}
use ovpn_dco.Netlink.NewPeer.{Creating, NewPeerAttrs, new_peer_on, sockfd_get, local_of}
use ovpn_dco.Netlink.Sockets.{IsReady, Ended, Added}
use ovpn_dco.Netlink.Creation.{new_peer_on-Ended}
use ovpn_dco.Udp.Output.{Routing}
use ovpn_dco.Tests.Peers.{hash_toy, one_peer, remote}

abbrev plain : Socket
plain = record {
  protocol = 17;
  family = af_inet;
  established = false;
  callbacks = false;
  user_data = UserData.nothing;
  files = 2;
}

abbrev opened : Sockets
opened = record {
  sockets = λ sk. plain;
  holders = λ h. record { owner = Owner.of_ovpn 0; sock = 0; refcount = 0 };
}

socket_put-socket_new_example :
    UsedOnce (ok tt) opened 4 1 2 7 (left_over opened 4 1 (inl (refl, refl)))
socket_put-socket_new_example = socket_put-socket_new (ok tt) opened 4 1 2 7 (inl (refl, refl))

abbrev creating : Creating
creating = record {
  socket_of = λ fd. some 4;
  create = ok tt;
  bind_alloc = true;
  holder_alloc = true;
  ring = ok tt;
  peer = 2;
  holder = 7;
}

abbrev wanted : NewPeerAttrs
wanted = record {
  peer_id = some 8;
  sockaddr_remote = some (record { len = 16; value = remote });
  socket = some 3;
  ipv4 = some (record { len = 4; value = 0x0a080002 });
  ipv6 = none;
  local_ip = none;
}

new_peer_on-Ended_example :
    Ensures
      (Ended (Added hash_toy 2 8 one_peer) opened 4 1)
      (new_peer_on hash_toy creating wanted 1 one_peer (sockfd_get opened 4) 8 4)
unfolding local_of
new_peer_on-Ended_example =
    new_peer_on-Ended hash_toy creating wanted one_peer opened 4 1 8
      (IsReady.fresh (refl, refl) refl) refl (λ ss e f. ground arith)

abbrev routing : Routing
routing = record {
  cached = none;
  confirm = λ addr. true;
  route = λ addr. if addr == 0 then ok (1, 9) else err einval;
}

abbrev stream : Socket
stream = record plain { protocol = 6; established = true }

abbrev connected : Sockets
connected = record opened { sockets = λ sk. stream }

tcp-Wakes_example :
    (s' : Sockets) × (s'' : Sockets) × (socket_new true (ok tt) connected 4 1 2 7
      ≡ some (ok (some 7), s'))
    × Wakes s' 4 (some 2)
    × (socket_put s' 7 ≡ some s'')
    × Wakes s'' 4 none
    × (s''.sockets ≡ update connected.sockets 4 (given_up stream))
tcp-Wakes_example =
    tcp-Wakes connected 4 1 2 7 (record { tcp = refl; established = refl; unused = refl })
