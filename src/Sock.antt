-- ===== src/Sock.antt =====
-- drivers/net/ovpn-dco/sock.c and sock.h, with the attachment and detachment of udp.c and tcp.c: the
-- sockets that carry the tunnels. The kernel's sockets are the heap `sockets`, the driver's
-- counted `struct ovpn_socket` the heap `holders`. `none` is a fault: NULL, or one structure read as
-- another.
pub mod Files
pub mod Tcp
pub mod Release
use ovpn_dco.Base.{
  ℕ, ◌+◌, ◌-◌, Bool, true, false, ◌&&◌, not, Option, none, some, ◌==◌, if◌then◌else◌, update,
  Result, ok, err, Errno, Status, einval, enomem, enodev, ebusy, ealready, enotsupp, eopnotsupp,
  eafnosupport,
}
use ovpn_dco.Crypto.{◌>>=◌}
use ovpn_dco.Addr.{af_inet, af_inet6}
use ovpn_dco.Data.{ipproto_udp, ipproto_tcp}

-- What `sk_user_data` points to: `setup_udp_tunnel_sock` stores the interface there, and
-- `ovpn_socket_new` then the `struct ovpn_socket`.
pub data UserData : Type 0 where
  nothing : UserData
  interface holder : ℕ → UserData

-- A kernel socket: whether it is an established TCP socket, whether the driver's callbacks are set
-- (for UDP, the encapsulation), its user data, and the references to its file.
pub record Socket : Type 0 where
  pub protocol : ℕ
  pub family : ℕ
  pub established : Bool
  pub callbacks : Bool
  pub user_data : UserData
  pub files : ℕ

-- the union of `struct ovpn_socket`
pub data Owner : Type 0 where
  of_ovpn of_peer : ℕ → Owner

-- `struct ovpn_socket`
pub record OvpnSocket : Type 0 where
  pub owner : Owner
  pub sock : ℕ
  pub refcount : ℕ

pub record Sockets : Type 0 where
  pub sockets : ℕ → Socket
  pub holders : ℕ → OvpnSocket

abbrev pub set_socket : Sockets → ℕ → Socket → Sockets
set_socket s sk sock = record s { sockets = update s.sockets sk sock }

abbrev pub set_holder : Sockets → ℕ → OvpnSocket → Sockets
set_holder s h sock = record s { holders = update s.holders h sock }

-- `sockfd_put`
unfoldable pub sockfd_put : Sockets → ℕ → Sockets
sockfd_put s sk = set_socket s sk (record (s.sockets sk) { files = (s.sockets sk).files - 1 })

abbrev pub owned_by : Owner → ℕ → Bool
owned_by (Owner.of_ovpn i) ovpn = i == ovpn
owned_by (Owner.of_peer p) ovpn = false

-- `ovpn_udp_socket_attach`; between the two stores of the user data it is an interface
unfoldable pub udp_attach : Sockets → ℕ → ℕ → Option (Status × Sockets)
udp_attach s sk ovpn =
    if not ((s.sockets sk).protocol == ipproto_udp)
    then some (err einval, s)
    else elim (s.sockets sk).user_data [
      | UserData.nothing ↦ some (
        ok tt,
        set_socket s sk
            (record (s.sockets sk) { callbacks = true; user_data = UserData.interface ovpn }),
      )
      | UserData.interface i ↦ none
      | UserData.holder h ↦
          some (if owned_by (s.holders h).owner ovpn then err ealready else err ebusy, s)
    ]

-- `ovpn_tcp_socket_attach`, with whether the ring can be allocated
unfoldable pub tcp_attach : Status → Sockets → ℕ → Status × Sockets
tcp_attach ring s sk = elim ring [
  | err e ↦ (err e, s)
  | ok _ ↦ elim (s.sockets sk).user_data [
    | UserData.nothing ↦
        if not ((s.sockets sk).protocol == ipproto_tcp && (s.sockets sk).established)
        then (err einval, s)
        else (ok tt, set_socket s sk (record (s.sockets sk) { callbacks = true }))
    | _ ↦ (err ebusy, s)
  ]
]

-- `ovpn_socket_attach`
unfoldable pub socket_attach : Status → Sockets → ℕ → ℕ → Option (Status × Sockets)
socket_attach ring s sk ovpn =
    if (s.sockets sk).protocol == ipproto_udp
    then udp_attach s sk ovpn
    else (if (s.sockets sk).protocol == ipproto_tcp
        then some (tcp_attach ring s sk)
        else some (err enotsupp, s))

-- `ovpn_socket_hold`
unfoldable pub socket_hold : Sockets → ℕ → Bool × Sockets
socket_hold s h =
    let n = (s.holders h).refcount in
    if n == 0
    then (false, s)
    else (true, set_holder s h (record (s.holders h) { refcount = n + 1 }))

-- `ovpn_socket_get`: NULL when the count is 0 already
unfoldable pub socket_get : Sockets → ℕ → Option (Option ℕ × Sockets)
unfolding socket_hold
socket_get s sk = elim (s.sockets sk).user_data [
  | UserData.holder h ↦ let (held, s') = socket_hold s h in some (if held then some h else none, s')
  | _ ↦ none
]

-- the `struct ovpn_socket` that `ovpn_socket_new` makes, at a new address
unfoldable pub make_holder : Sockets → ℕ → ℕ → ℕ → ℕ → Sockets
make_holder s sk ovpn peer new =
    let owner =
      if (s.sockets sk).protocol == ipproto_tcp then Owner.of_peer peer else Owner.of_ovpn ovpn in
    set_socket (set_holder s new (record { owner = owner; sock = sk; refcount = 1 })) sk
      (record (s.sockets sk) { user_data = UserData.holder new })

-- `ovpn_socket_new`, with whether the structure can be allocated. When it cannot, the socket stays
-- attached. The result is a pointer that may be NULL.
unfoldable pub socket_new :
    Bool → Status → Sockets → ℕ → ℕ → ℕ → ℕ → Option (Result (Option ℕ) × Sockets)
socket_new alloc ring s sk ovpn peer new = do
  (ret, s') ← socket_attach ring s sk ovpn
  elim ret [
    | err Errno.ealready ↦ do (found, s'') ← socket_get s' sk; some (ok found, sockfd_put s'' sk)
    | err e ↦ some (err e, s')
    | ok _ ↦
        if not alloc
        then some (err enomem, s')
        else some (ok (some new), make_holder s' sk ovpn peer new)
  ]

-- a socket without the driver's callbacks and user data
abbrev pub plain : Socket → Socket
plain sock = record sock { callbacks = false; user_data = UserData.nothing }

-- `ovpn_udp_socket_detach`, which sets up an empty encapsulation
abbrev pub udp_detach : Sockets → ℕ → Sockets
udp_detach s sk = set_socket s sk (plain (s.sockets sk))

-- `ovpn_tcp_socket_detach`, for a socket whose structure has its peer: the callbacks that were saved
-- come back. The works and the ring of the peer are not part of this state.
abbrev pub tcp_detach : Sockets → ℕ → Option Sockets
tcp_detach s sk = elim (s.sockets sk).user_data [
  | UserData.holder h ↦ some (set_socket s sk (plain (s.sockets sk)))
  | _ ↦ none
]

-- `ovpn_socket_detach`: by the protocol, and the reference to the socket's file is given back
unfoldable pub socket_detach : Sockets → ℕ → Option Sockets
unfolding sockfd_put
socket_detach s sk =
    if (s.sockets sk).protocol == ipproto_udp
    then some (sockfd_put (udp_detach s sk) sk)
    else (if (s.sockets sk).protocol == ipproto_tcp
        then (do s' ← tcp_detach s sk; some (sockfd_put s' sk))
        else some (sockfd_put s sk))

-- `ovpn_socket_put`
unfoldable pub socket_put : Sockets → ℕ → Option Sockets
socket_put s h =
    let n = (s.holders h).refcount in
    let s' = set_holder s h (record (s.holders h) { refcount = n - 1 }) in
    if n == 0 then none else (if n == 1 then socket_detach s' (s.holders h).sock else some s')

-- `ovpn_from_udp_sock`: the interface of a socket, if it is one of the driver's
unfoldable pub from_udp_sock : Sockets → ℕ → Option (Option ℕ)
from_udp_sock s sk =
    if not ((s.sockets sk).protocol == ipproto_udp && (s.sockets sk).callbacks)
    then some none
    else elim (s.sockets sk).user_data [
      | UserData.nothing ↦ some none
      | UserData.interface i ↦ none
      | UserData.holder h ↦
          if not ((s.holders h).sock == sk)
          then some none
          else elim (s.holders h).owner [ Owner.of_ovpn i ↦ some (some i) | Owner.of_peer p ↦ none ]
    ]

-- `ovpn_sock_encap_overhead`: the sizes of the UDP header and of the IP header
unfoldable pub sock_encap_overhead : Option Socket → Result ℕ
sock_encap_overhead none = err enodev
sock_encap_overhead (some sk) =
    if not (sk.protocol == ipproto_udp)
    then err eopnotsupp
    else (if sk.family == af_inet
        then ok (8 + 20)
        else (if sk.family == af_inet6 then ok (8 + 40) else err eafnosupport))
