-- ===== src/Tests/Peers.antt =====
-- Witnesses for the properties of the peers and their tables: an interface in MP mode where the
-- peer 7 is registered, and the new peer 8.
use ovpn_dco.Base.{
  List, ℕ, ◌+◌, ◌≡◌, refl, [], ◌∷◌, true, false, none, some, ◌==◌, if◌then◌else◌, Bool-cases, inl,
  inr, ok, first, all, ==_iff,
}
use ovpn_dco.Addr.{skb_src_match, Bind, SockAddr, Packet, af_inet, eth_p_ip}
use ovpn_dco.Peer.{Peer, Ovpn, peer_create, mode_mp}
use ovpn_dco.Peer.Endpoint.{
  peer_float, peer_float_follows, transp_match, skb_to_sockaddr, source_addr,
}
use ovpn_dco.Peer.Lookup.{Key, peer_index, lookup_vpn_addr4, lookup_vpn_addr6}
use ovpn_dco.Peer.Lookup.ById.{find, live, held}
use ovpn_dco.Peer.Lookup.ByAddr.{nodes4, nodes6, lookup_vpn_addr_lem}
use ovpn_dco.Peer.Table.Lists.{distinct_ids}
use ovpn_dco.Peer.Table.Invariant.{IsTable, entry, bucket_ok}
use ovpn_dco.Udp.{Arrival, encap_recv}
use ovpn_dco.Peer.References.{refs}
use ovpn_dco.Udp.References.{owed, encap_recv-refs}

abbrev pub remote : SockAddr
remote = record { family = af_inet; addr = 0x0a000001; port = 1194; scope_id = 0 }

abbrev pub bound : Bind
bound = record { sa = remote; local = 0x0a0000fe }

-- a packet from another port of the remote address
abbrev pub moved : Packet
moved = record {
  protocol = eth_p_ip;
  saddr = 0x0a000001;
  daddr = 0x0a0000fe;
  source = 1195;
  scope = 0;
}

abbrev moved_from : SockAddr
moved_from = record { family = af_inet; addr = 0x0a000001; port = 1195; scope_id = 0 }

abbrev bound_peer : ℕ → Peer
bound_peer id = record (peer_create id 17) { bind = some bound }

-- a hash for the tests: peer ids go to their own bucket, all else to bucket 0
abbrev pub hash_toy : Key → ℕ
hash_toy (Key.peer_id id) = id
hash_toy (Key.sockaddr ss) = 0
hash_toy (Key.vpn_addr4 addr) = 0
hash_toy (Key.vpn_addr6 addr) = 0

-- Object 1 is the registered peer 7, object 2 the peer 8 and any other object another peer 7.
abbrev pub one_peer : Ovpn
one_peer = record {
  mode = mode_mp;
  by_id = λ b. if b == 7 then 1 ∷ [] else [];
  by_transp_addr = λ b. if b == 0 then 1 ∷ [] else [];
  by_vpn_addr = λ b. [];
  peer = none;
  peers = λ p. if p == 2 then bound_peer 8 else bound_peer 7;
  deleting = [];
  mtu = 1500;
  registered_nl_portid = 0;
  registered_nl_portid_set = false;
}

pub one_peer-IsTable : IsTable hash_toy one_peer
unfolding IsTable bucket_ok entry distinct_ids all peer_create peer_index
one_peer-IsTable b = elim (Bool-cases (b == 7)) [
  | inl e ↦ rw ((==_iff b 7).0 e) refl
  | inr e ↦ rw e refl
]

registered_seven : find hash_toy one_peer 7 ≡ some 1
unfolding find live first peer_create peer_index
registered_seven = refl

-- a peer that was never given an IPv6 address gets the traffic to any
lookup_vpn_addr_lem_example :
    (lookup_vpn_addr4 one_peer (nodes4 (1 ∷ [])) 5 ≡ some (none, one_peer))
    × (lookup_vpn_addr6 one_peer (nodes6 (1 ∷ [])) 5 ≡ some (some 1, held one_peer (some 1)))
unfolding first live peer_create held
lookup_vpn_addr_lem_example = lookup_vpn_addr_lem one_peer (1 ∷ []) 5

peer_float_follows_example :
    ((peer_float true (bound_peer 7) moved).bind ≡ some (record bound { sa = moved_from }))
    × (transp_match (peer_float true (bound_peer 7) moved) moved_from ≡ true)
unfolding skb_to_sockaddr peer_create skb_src_match source_addr
peer_float_follows_example = peer_float_follows (bound_peer 7) moved bound moved_from refl refl

abbrev arrival : Arrival
arrival = record {
  has_ovpn = true;
  may_pull = true;
  ring_full = false;
  work_queued = true;
  to_userspace = ok tt;
  alloc = true;
}

-- a UDP header of zeros, then a data packet for the peer 7
abbrev datagram : List ℕ
datagram = 0 ∷ 0 ∷ 0 ∷ 0 ∷ 0 ∷ 0 ∷ 0 ∷ 0 ∷ 72 ∷ 0 ∷ 0 ∷ 7 ∷ 0 ∷ 0 ∷ 0 ∷ 1 ∷ []

encap_recv-refs_example :
    refs (encap_recv hash_toy arrival one_peer moved datagram).1 1
    ≡ refs one_peer 1 + owed arrival (encap_recv hash_toy arrival one_peer moved datagram).2 1
encap_recv-refs_example = encap_recv-refs hash_toy arrival one_peer moved datagram 1
