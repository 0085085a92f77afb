-- ===== src/Netlink/Peers.antt =====
-- drivers/net/ovpn-dco/netlink.c: the commands that show and delete peers. A message with a peer
-- holds the values of the record `PeerReply`.
use ovpn_dco.Base.{
  ℕ, zero, suc, ◌+◌, List, [], ◌∷◌, ◌++◌, Bool, ◌||◌, not, Option, none, some, ◌==◌, if◌then◌else◌,
  length, Result, ok, err, Status, ◌>>=◌, enoent, enomem, emsgsize,
}
use ovpn_dco.Addr.{Bind, af_inet, af_inet6}
use ovpn_dco.Peer.{Peer, Ovpn, PeerStats, DelPeerReason, peer_put}
use ovpn_dco.Peer.Lookup.{Key, lookup_id, hash_size}
use ovpn_dco.Peer.Table.{peer_del}
use ovpn_dco.Netlink.{Nested, nested, required}

-- the attributes OVPN_GET_PEER_RESP_ATTR
pub record PeerReply : Type 0 where
  pub peer_id : ℕ
  pub ipv4 : Option ℕ
  pub ipv6 : Option ℕ
  pub keepalive_interval : ℕ
  pub keepalive_timeout : ℕ
  pub bind : Option Bind
  pub local_port : ℕ
  pub stats : PeerStats

abbrev unless_any : ℕ → Option ℕ
unless_any addr = if addr == 0 then none else some addr

abbrev shown : Bind → Option Bind
shown bind = if (bind.sa.family == af_inet) || (bind.sa.family == af_inet6) then some bind else none

-- `ovpn_netlink_send_peer`, if the message has room; the local port is the socket's
unfoldable pub send_peer : Bool → Peer → ℕ → Result PeerReply
send_peer room pr local_port =
    if not room
    then err emsgsize
    else ok (record {
      peer_id = pr.id;
      ipv4 = unless_any pr.vpn_ipv4;
      ipv6 = unless_any pr.vpn_ipv6;
      keepalive_interval = pr.keepalive_interval;
      keepalive_timeout = pr.keepalive_timeout;
      bind = elim pr.bind [ none ↦ none | some bind ↦ shown bind ];
      local_port = local_port;
      stats = pr.stats;
    })

-- `ovpn_netlink_get_peer`: the reference stays when the message cannot be allocated. `reply` is what
-- the call genlmsg_reply returns, which sends a message that is complete.
unfoldable pub get_peer :
    (Key → ℕ) → Bool → Bool → Status → ℕ → Ovpn → Nested (Option ℕ) → Result PeerReply × Ovpn
get_peer jhash alloc room reply local_port o attr = elim (nested attr >>= required) [
  | err e ↦ (err e, o)
  | ok peer_id ↦
      let (found, o') = lookup_id jhash o peer_id in
      elim found [
        | none ↦ (err enoent, o')
        | some p ↦ if not alloc then (err enomem, o') else (
          send_peer room (o'.peers p) local_port >>= (λ message. reply >>= (λ _. ok message)),
          peer_put o' p,
        )
      ]
]

-- `ovpn_netlink_del_peer`
unfoldable pub netlink_del_peer : (Key → ℕ) → Ovpn → Nested (Option ℕ) → Status × Ovpn
netlink_del_peer jhash o attr = elim (nested attr >>= required) [
  | err e ↦ (err e, o)
  | ok peer_id ↦
      let (found, o') = lookup_id jhash o peer_id in
      elim found [
        | none ↦ (err enoent, o')
        | some p ↦
            let (ret, o'') = peer_del jhash o' p DelPeerReason.userspace in (ret, peer_put o'' p)
      ]
]

-- the peers of so many buckets of the table by id, in the order of the buckets
unfoldable pub peers_of : (ℕ → List ℕ) → ℕ → ℕ → List ℕ
peers_of by_id zero bkt = []
peers_of by_id (suc n) bkt = by_id bkt ++ peers_of by_id n (bkt + 1)

unfoldable pub all_peers : Ovpn → List ℕ
unfolding peers_of
all_peers o = peers_of o.by_id hash_size 0

-- The loop of `ovpn_netlink_dump_peers`: the first `last_idx` peers are passed over, and then peers
-- go out as long as the message has room.
unfoldable pub dump_loop : ℕ → ℕ → List ℕ → List ℕ
dump_loop last_idx room [] = []
dump_loop (suc last_idx) room (p ∷ ps) = dump_loop last_idx room ps
dump_loop zero zero (p ∷ ps) = []
dump_loop zero (suc room) (p ∷ ps) = p ∷ dump_loop zero room ps

-- `ovpn_netlink_dump_peers`: the peers in the message, and the index for the next call
unfoldable pub dump_peers : Ovpn → ℕ → ℕ → List ℕ × ℕ
unfolding dump_loop all_peers
dump_peers o last_idx room =
    let dumped = dump_loop last_idx room (all_peers o) in (dumped, last_idx + length dumped)
