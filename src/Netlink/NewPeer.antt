-- ===== src/Netlink/NewPeer.antt =====
-- drivers/net/ovpn-dco/netlink.c: `ovpn_netlink_new_peer`, with `ovpn_peer_new` of peer.c. A fault
-- is `none`: those of the sockets, a NULL `struct ovpn_socket`, or a read past an attribute.
use ovpn_dco.Base.{
  ℕ, ◌+◌, ◌/◌, ◌%◌, ◌^◌, Bool, ◌&&◌, ◌||◌, not, Option, none, some, ◌==◌, if◌then◌else◌, Result, ok,
  err, Errno, Status, ◌>>◌, einval, enotsock,
}
use ovpn_dco.Addr.{SockAddr, af_inet, af_inet6}
use ovpn_dco.Crypto.{◌>>=◌}
use ovpn_dco.Peer.{Peer, Ovpn, peer_create, set_peer}
use ovpn_dco.Peer.Endpoint.{reset_sockaddr}
use ovpn_dco.Peer.Lookup.{Key}
use ovpn_dco.Peer.Table.{peer_add}
use ovpn_dco.Data.{ipproto_udp}
use ovpn_dco.Sock.{Sockets, set_socket, sockfd_put, socket_new, socket_put}
use ovpn_dco.Netlink.{Nested, nested}

-- What the kernel gives while a peer is made: the socket of a file descriptor, and whether the
-- allocations succeed: the peer with its rings, its binding, the socket structure and the TCP ring.
-- `peer` and `holder` are the addresses of the new objects.
pub record Creating : Type 0 where
  pub socket_of : ℕ → Option ℕ
  pub create : Status
  pub bind_alloc : Bool
  pub holder_alloc : Bool
  pub ring : Status
  pub peer : ℕ
  pub holder : ℕ

-- the new peer with its binding, which a UDP peer must have
unfoldable pub make_peer : Creating → ℕ → ℕ → Option SockAddr → Option ℕ → Result Peer
make_peer env protocol id sa local_ip =
    env.create
    >> (if protocol == ipproto_udp
        then (elim sa [
          | none ↦ err einval
          | some ss ↦
              let (ret, pr) = reset_sockaddr env.bind_alloc (peer_create id protocol) ss local_ip in
              ret >> ok pr
        ])
        else ok (peer_create id protocol))

-- the socket of the new peer; NULL is followed
unfoldable pub attach_peer :
    Creating → Sockets → ℕ → ℕ → Peer → Option (Result (Peer × ℕ) × Sockets)
attach_peer env s ovpn sk pr = do
  (made, s') ← socket_new env.holder_alloc env.ring s sk ovpn env.peer env.holder
  elim made [
    | err _ ↦ some (err enotsock, s')
    | ok none ↦ none
    | ok (some h) ↦ some (ok (pr, h), s')
  ]

-- `ovpn_peer_new`
unfoldable pub peer_new :
    Creating
    → Sockets
    → ℕ
    → ℕ
    → ℕ
    → Option SockAddr
    → Option ℕ
    → Option (Result (Peer × ℕ) × Sockets)
unfolding attach_peer
peer_new env s ovpn sk id sa local_ip =
    elim (make_peer env (s.sockets sk).protocol id sa local_ip) [
      | err e ↦ some (err e, s)
      | ok pr ↦ attach_peer env s ovpn sk pr
    ]

-- an attribute with its length
pub record Sized {ℓ} (A : Type ℓ) : Type ℓ where
  pub len : ℕ
  pub value : A

-- the attributes OVPN_NEW_PEER_ATTR
pub record NewPeerAttrs : Type 0 where
  pub peer_id : Option ℕ
  pub sockaddr_remote : Option (Sized SockAddr)
  pub socket : Option ℕ
  pub ipv4 : Option (Sized ℕ)
  pub ipv6 : Option (Sized ℕ)
  pub local_ip : Option (Sized ℕ)

-- the basic attributes: the peer's id and the file descriptor
unfoldable pub new_peer_args : Nested NewPeerAttrs → Result (NewPeerAttrs × ℕ × ℕ)
new_peer_args attr = elim (nested attr) [
  | err e ↦ err e
  | ok attrs ↦ elim attrs.peer_id [
    | none ↦ err einval
    | some id ↦ elim attrs.socket [
      | none ↦ err einval
      | some fd ↦ elim attrs.ipv4 [
        | some _ ↦ ok (attrs, id, fd)
        | none ↦ elim attrs.ipv6 [ some _ ↦ ok (attrs, id, fd) | none ↦ err einval ]
      ]
    ]
  ]
]

-- whether an IPv6 address is an IPv4 address in ::ffff:0:0/96
abbrev pub is_mapped : ℕ → Bool
is_mapped addr = addr / 2 ^ 32 == 0xffff

-- the remote endpoint of a UDP peer; 16 and 28 are the sizes of the two socket addresses
unfoldable pub remote_of : Option (Sized SockAddr) → Result SockAddr
remote_of none = err einval
remote_of (some remote) =
    let ss = remote.value in
    if not
      ((remote.len == 16 && ss.family == af_inet) || (remote.len == 28 && ss.family == af_inet6))
    then err einval
    else (if ss.family == af_inet6 && is_mapped ss.addr
        then ok (record ss { family = af_inet; addr = ss.addr % 2 ^ 32; scope_id = 0 })
        else ok ss)

-- The local address, of 4 or 16 bytes. Of a mapped one the last 4 bytes are passed on, which is
-- read past by an IPv6 endpoint.
unfoldable pub local_of : SockAddr → Option (Sized ℕ) → Option (Result (Option ℕ))
local_of ss none = some (ok none)
local_of ss (some ip) =
    if ip.len == 4
    then some (if ss.family == af_inet then ok (some ip.value) else err einval)
    else (if ip.len == 16
        then (if is_mapped ip.value
            then (if ss.family == af_inet6 then none else some (ok (some (ip.value % 2 ^ 32))))
            else some (if ss.family == af_inet6 then ok (some ip.value) else err einval))
        else some (err einval))

-- the endpoints, which only UDP has
unfoldable pub endpoints_of : ℕ → NewPeerAttrs → Option (Result (Option SockAddr × Option ℕ))
endpoints_of protocol attrs =
    if not (protocol == ipproto_udp)
    then some (ok (none, none))
    else elim (remote_of attrs.sockaddr_remote) [
      | err e ↦ some (err e)
      | ok ss ↦ do
        local_ip ← local_of ss attrs.local_ip
        some (elim local_ip [ err e ↦ err e | ok ip ↦ ok (some ss, ip) ])
    ]

-- the VPN addresses, of 4 and 16 bytes
unfoldable pub vpn_addrs : NewPeerAttrs → Peer → Result Peer
vpn_addrs attrs pr =
    let with4 : Result Peer = elim attrs.ipv4 [
      | none ↦ ok pr
      | some ip ↦ if ip.len == 4 then ok (record pr { vpn_ipv4 = ip.value }) else err einval
    ] in
    elim with4 [
      | err e ↦ err e
      | ok pr' ↦ elim attrs.ipv6 [
        | none ↦ ok pr'
        | some ip ↦ if ip.len == 16 then ok (record pr' { vpn_ipv6 = ip.value }) else err einval
      ]
    ]

-- the label `peer_release`: a peer that is not in use gives its socket up
unfoldable pub release_new : Errno → Ovpn → Sockets → ℕ → Option (Status × Ovpn × Sockets)
release_new e o s h = do s' ← socket_put s h; some (err e, o, s')

-- a peer with its addresses goes into the tables
unfoldable pub add_new :
    (Key → ℕ)
    → Creating
    → NewPeerAttrs
    → Ovpn
    → Sockets
    → Peer
    → ℕ
    → Option (Status × Ovpn × Sockets)
unfolding release_new
add_new jhash env attrs o s pr h = elim (vpn_addrs attrs pr) [
  | err e ↦ release_new e o s h
  | ok pr' ↦
      let (ret, o') = peer_add jhash (set_peer o env.peer pr') env.peer in
      elim ret [ err e ↦ release_new e o' s h | ok _ ↦ some (ok tt, o', s) ]
]

-- the part from the look-up of the file descriptor on, which took a reference to the file
unfoldable pub new_peer_on :
    (Key → ℕ)
    → Creating
    → NewPeerAttrs
    → ℕ
    → Ovpn
    → Sockets
    → ℕ
    → ℕ
    → Option (Status × Ovpn × Sockets)
unfolding add_new
new_peer_on jhash env attrs ovpn o s id sk = do
  endpoints ← endpoints_of (s.sockets sk).protocol attrs
  elim endpoints [
    | err e ↦ some (err e, o, sockfd_put s sk)
    | ok (ss, local_ip) ↦ do
      (made, s') ← peer_new env s ovpn sk id ss local_ip
      elim made [
        | err e ↦ some (err e, o, sockfd_put s' sk)
        | ok (pr, h) ↦ add_new jhash env attrs o s' pr h
      ]
  ]

-- `sockfd_lookup`
abbrev pub sockfd_get : Sockets → ℕ → Sockets
sockfd_get s sk = set_socket s sk (record (s.sockets sk) { files = (s.sockets sk).files + 1 })

-- `ovpn_netlink_new_peer`
unfoldable pub new_peer :
    (Key → ℕ)
    → Creating
    → ℕ
    → Ovpn
    → Sockets
    → Nested NewPeerAttrs
    → Option (Status × Ovpn × Sockets)
unfolding new_peer_on
new_peer jhash env ovpn o s attr = elim (new_peer_args attr) [
  | err e ↦ some (err e, o, s)
  | ok (attrs, id, fd) ↦ elim (env.socket_of fd) [
    | none ↦ some (err enotsock, o, s)
    | some sk ↦ new_peer_on jhash env attrs ovpn o (sockfd_get s sk) id sk
  ]
]
