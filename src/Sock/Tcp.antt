-- ===== src/Sock/Tcp.antt =====
-- The callbacks of tcp.c on a TCP socket, from its attachment to its end.
use ovpn_dco.Base.{
  ℕ, ◌-◌, ◌≡◌, refl, ap, ◌∙◌, true, false, not, if◌then◌else◌, Option, none, some, ◌==◌, update,
  update_self, update-update, ok,
}
use ovpn_dco.Data.{ipproto_udp, ipproto_tcp}
use ovpn_dco.Sock.{
  tcp_detach, plain, UserData, Socket, Owner, OvpnSocket, Sockets, set_socket, set_holder,
  sockfd_put, tcp_attach, socket_attach, make_holder, socket_new, socket_detach, socket_put,
}
use ovpn_dco.Sock.Files.{given_up}

-- Data arrives on a TCP socket: if `ovpn_tcp_data_ready` is its callback, the peer whose `rx_work`
-- is queued, if any
unfoldable pub tcp_data_ready : Sockets → ℕ → Option (Option ℕ)
tcp_data_ready s sk =
    if not (s.sockets sk).callbacks then some none else elim (s.sockets sk).user_data [
      | UserData.nothing ↦ some none
      | UserData.interface i ↦ none
      | UserData.holder h ↦ elim (s.holders h).owner [
        | Owner.of_peer p ↦ some (some p)
        | Owner.of_ovpn i ↦ none
      ]
    ]

-- A TCP socket can be written to: if `ovpn_tcp_write_space` is its callback, the peer whose
-- `tx_work` is queued, if any
unfoldable pub tcp_write_space : Sockets → ℕ → Option (Option ℕ)
tcp_write_space s sk =
    if not (s.sockets sk).callbacks then some none else elim (s.sockets sk).user_data [
      | UserData.nothing ↦ some none
      | UserData.interface i ↦ none
      | UserData.holder h ↦ elim (s.holders h).owner [
        | Owner.of_peer p ↦ some (some p)
        | Owner.of_ovpn i ↦ none
      ]
    ]

-- An established TCP socket that no one uses.
pub record IsConnected (s : Sockets) (sk : ℕ) : Type 0 where
  pub tcp : (s.sockets sk).protocol ≡ ipproto_tcp
  pub established : (s.sockets sk).established ≡ true
  pub unused : (s.sockets sk).user_data ≡ UserData.nothing

-- both callbacks of a socket find the peer
abbrev pub Wakes : Sockets → ℕ → Option ℕ → Type 0
Wakes s sk p = (tcp_data_ready s sk ≡ some p) × (tcp_write_space s sk ≡ some p)

connected_attach :
    (s : Sockets) (sk ovpn : ℕ)
    → IsConnected s sk
    → socket_attach (ok tt) s sk ovpn
      ≡ some (ok tt, set_socket s sk (record (s.sockets sk) { callbacks = true }))
unfolding socket_attach tcp_attach
connected_attach s sk ovpn c =
    let u : ((s.sockets sk).protocol == ipproto_udp) ≡ false = ap (λ n. n == ipproto_udp) c.tcp in
    let t : ((s.sockets sk).protocol == ipproto_tcp) ≡ true = ap (λ n. n == ipproto_tcp) c.tcp in
    rw (socket_attach, u, t, tcp_attach, c.unused, t, c.established, c.unused) refl

-- the socket, and the state, with a peer on it
abbrev taken : Sockets → ℕ → ℕ → Socket
taken s sk new = record (s.sockets sk) { callbacks = true; user_data = UserData.holder new }

abbrev with_peer : Sockets → ℕ → ℕ → ℕ → Sockets
with_peer s sk peer new = record {
  sockets = update s.sockets sk (taken s sk new);
  holders = update s.holders new (record { owner = Owner.of_peer peer; sock = sk; refcount = 1 });
}

abbrev detached : Sockets → ℕ → Sockets
detached s sk = sockfd_put (set_socket s sk (plain (s.sockets sk))) sk

detach_held :
    (s : Sockets) (h sk : ℕ)
    → (s.sockets sk).protocol ≡ ipproto_tcp
    → (s.sockets sk).user_data ≡ UserData.holder h
    → socket_detach s sk ≡ some (detached s sk)
unfolding socket_detach
detach_held s h sk f user =
    let u : ((s.sockets sk).protocol == ipproto_udp) ≡ false = ap (λ n. n == ipproto_udp) f in
    let t : ((s.sockets sk).protocol == ipproto_tcp) ≡ true = ap (λ n. n == ipproto_tcp) f in
    let d : tcp_detach s sk ≡ some (set_socket s sk (plain (s.sockets sk))) =
      ap
        (λ (x : UserData). elim x [
          | UserData.holder _ ↦ some (set_socket s sk (plain (s.sockets sk)))
          | _ ↦ none
        ])
        user in
    rw (socket_detach, u, t, d) refl

-- the put of a structure with one reference detaches the socket
last_tcp_put :
    (s : Sockets) (h sk : ℕ)
    → (s.holders h).refcount ≡ 1
    → (s.holders h).sock ≡ sk
    → (s.sockets sk).protocol ≡ ipproto_tcp
    → (s.sockets sk).user_data ≡ UserData.holder h
    → (s' : Sockets) × (socket_put s h ≡ some s')
      × (s'.sockets ≡ update s.sockets sk (given_up (s.sockets sk)))
unfolding socket_put sockfd_put
last_tcp_put s h sk one back f user =
    let zero' : ((s.holders h).refcount == 0) ≡ false = ap (λ n. n == 0) one in
    let last : ((s.holders h).refcount == 1) ≡ true = ap (λ n. n == 1) one in
    let idle : Socket = record (s.sockets sk) { callbacks = false; user_data = UserData.nothing } in
    let s1 = set_holder s h (record (s.holders h) { refcount = (s.holders h).refcount - 1 }) in
    let begun : socket_put s h ≡ socket_detach s1 (s.holders h).sock =
      rw (socket_put, zero', last) refl in
    (
      detached s1 sk,
      begun ∙ ap (λ x. socket_detach s1 x) back ∙ detach_held s1 h sk f user,
      rw (update_self s.sockets sk idle, update-update s.sockets sk idle (given_up (s.sockets sk)))
          refl,
    )

-- the peer made on the socket, and both callbacks of the socket
tcp_made :
    (s : Sockets) (sk ovpn peer new : ℕ)
    → IsConnected s sk
    → socket_new true (ok tt) s sk ovpn peer new ≡ some (ok (some new), with_peer s sk peer new)
unfolding socket_new make_holder
tcp_made s sk ovpn peer new c =
    let a : Socket = record (s.sockets sk) { callbacks = true } in
    let b : Socket = record a { user_data = UserData.holder new } in
    let t : ((s.sockets sk).protocol == ipproto_tcp) ≡ true = ap (λ n. n == ipproto_tcp) c.tcp in
    let begun : socket_new true (ok tt) s sk ovpn peer new
        ≡ some (ok (some new), make_holder (set_socket s sk a) sk ovpn peer new) =
      rw (socket_new, connected_attach s sk ovpn c) refl in
    let clean : make_holder (set_socket s sk a) sk ovpn peer new ≡ with_peer s sk peer new =
      rw (make_holder, update_self s.sockets sk a, t, update-update s.sockets sk a b) refl in
    begun ∙ ap (λ x. some (ok (some new), x)) clean

-- A peer that is made on an established TCP socket that no one uses, if the allocations succeed, is
-- woken by both callbacks of the socket. When the peer gives the socket up, the callbacks find no
-- one, and the reference to the socket's file is given back; no other socket changes.
pub tcp-Wakes :
    (s : Sockets) (sk ovpn peer new : ℕ)
    → IsConnected s sk
    → (s' : Sockets) × (s'' : Sockets) × (socket_new true (ok tt) s sk ovpn peer new
        ≡ some (ok (some new), s'))
      × Wakes s' sk (some peer)
      × (socket_put s' new ≡ some s'')
      × Wakes s'' sk none
      × (s''.sockets ≡ update s.sockets sk (given_up (s.sockets sk)))
unfolding tcp_data_ready tcp_write_space
tcp-Wakes s sk ovpn peer new c =
    let s' = with_peer s sk peer new in
    let b = taken s sk new in
    let there = update_self s.sockets sk b in
    let mine =
      update_self s.holders new (record { owner = Owner.of_peer peer; sock = sk; refcount = 1 }) in
    let (s'', put, same) =
      last_tcp_put s' new sk (ap (λ (x : OvpnSocket). x.refcount) mine)
        (ap (λ (x : OvpnSocket). x.sock) mine) (ap (λ (x : Socket). x.protocol) there ∙ c.tcp)
        (ap (λ (x : Socket). x.user_data) there) in
    let gone : s''.sockets ≡ update s.sockets sk (given_up b) =
      same ∙ rw (there, update-update s.sockets sk b (given_up b)) refl in
    (
      s',
      s'',
      tcp_made s sk ovpn peer new c,
      (rw (tcp_data_ready, there, mine) refl, rw (tcp_write_space, there, mine) refl),
      put,
      (
        rw (tcp_data_ready, gone, update_self s.sockets sk (given_up b)) refl,
        rw (tcp_write_space, gone, update_self s.sockets sk (given_up b)) refl,
      ),
      gone,
    )
