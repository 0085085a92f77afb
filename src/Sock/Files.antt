-- ===== src/Sock/Files.antt =====
-- The references to the files of the sockets: a peer's socket is used and given up again.
use ovpn_dco.Base.{
  ℕ, ◌+◌, ◌-◌, ◌≡◌, ◌⊎◌, refl, ap, ◌∙◌, arith, true, false, some, ◌==◌, inl, inr, update,
  update_self, update-update, ok, err, Errno, Status, eq_self,
}
use mathlib.Core.Option.{map}
use ovpn_dco.Data.{ipproto_udp, ipproto_tcp}
use ovpn_dco.Sock.{
  UserData, Socket, Owner, OvpnSocket, Sockets, set_socket, set_holder, sockfd_put, udp_attach,
  socket_attach, socket_hold, socket_get, make_holder, socket_new, socket_detach, socket_put,
  from_udp_sock,
}

-- A UDP socket that no one has attached.
abbrev pub IsFresh : Sockets → ℕ → Type 0
IsFresh s sk =
    ((s.sockets sk).protocol ≡ ipproto_udp) × ((s.sockets sk).user_data ≡ UserData.nothing)

-- A UDP socket that already carries peers of the interface.
pub record IsShared (s : Sockets) (sk ovpn h : ℕ) : Type 0 where
  pub udp : (s.sockets sk).protocol ≡ ipproto_udp
  pub user : (s.sockets sk).user_data ≡ UserData.holder h
  pub attached : (s.sockets sk).callbacks ≡ true
  pub back : (s.holders h).sock ≡ sk
  pub owner : (s.holders h).owner ≡ Owner.of_ovpn ovpn
  pub alive : ((s.holders h).refcount == 0) ≡ false

fresh_attach :
    (ring : Status) (s : Sockets) (sk ovpn : ℕ)
    → IsFresh s sk
    → socket_attach ring s sk ovpn
      ≡ some (
        ok tt,
        set_socket s sk
            (record (s.sockets sk) { callbacks = true; user_data = UserData.interface ovpn }),
      )
unfolding socket_attach udp_attach
fresh_attach ring s sk ovpn f =
    let u : ((s.sockets sk).protocol == ipproto_udp) ≡ true = ap (λ n. n == ipproto_udp) f.0 in
    rw (socket_attach, u, f.1) refl

shared_attach :
    (ring : Status) (s : Sockets) (sk ovpn h : ℕ)
    → IsShared s sk ovpn h
    → socket_attach ring s sk ovpn ≡ some (err Errno.ealready, s)
unfolding socket_attach udp_attach
shared_attach ring s sk ovpn h f =
    let u : ((s.sockets sk).protocol == ipproto_udp) ≡ true = ap (λ n. n == ipproto_udp) f.udp in
    rw (socket_attach, u, f.user, f.owner, eq_self ovpn) refl

-- the socket after its last peer, with its file reference given back
abbrev pub given_up : Socket → Socket
given_up sock = record sock {
  callbacks = false;
  user_data = UserData.nothing;
  files = sock.files - 1;
}

-- the put of a structure with one reference detaches the socket
last_put :
    (s : Sockets) (h sk : ℕ)
    → (s.holders h).refcount ≡ 1
    → (s.holders h).sock ≡ sk
    → (s.sockets sk).protocol ≡ ipproto_udp
    → map (λ (r : Sockets). r.sockets) (socket_put s h)
      ≡ some (update s.sockets sk (given_up (s.sockets sk)))
unfolding socket_put socket_detach sockfd_put
last_put s h sk one back f =
    let zero' : ((s.holders h).refcount == 0) ≡ false = ap (λ n. n == 0) one in
    let last : ((s.holders h).refcount == 1) ≡ true = ap (λ n. n == 1) one in
    let u : ((s.sockets sk).protocol == ipproto_udp) ≡ true = ap (λ n. n == ipproto_udp) f in
    let idle : Socket = record (s.sockets sk) { callbacks = false; user_data = UserData.nothing } in
    rw
      (
        socket_put,
        zero',
        last,
        back,
        u,
        update_self s.sockets sk idle,
        update-update s.sockets sk idle (given_up (s.sockets sk)),
      )
      refl

-- A UDP socket that a new peer of the interface can use.
abbrev pub Usable : Sockets → ℕ → ℕ → Type 0
Usable s sk ovpn = IsFresh s sk ⊎ ((h : ℕ) × IsShared s sk ovpn h)

-- the socket once the peer has given it up again
abbrev pub left_over : (s : Sockets) (sk ovpn : ℕ) → Usable s sk ovpn → Socket
left_over s sk ovpn (inl _) = given_up (s.sockets sk)
left_over s sk ovpn (inr _) = record (s.sockets sk) { files = (s.sockets sk).files - 1 }

-- the use of a socket by a peer, and its end
abbrev pub UsedOnce : Status → Sockets → ℕ → ℕ → ℕ → ℕ → Socket → Type 0
UsedOnce ring s sk ovpn peer new sock =
    (h : ℕ) × (s' : Sockets) × (socket_new true ring s sk ovpn peer new ≡ some (ok (some h), s'))
    × (from_udp_sock s' sk ≡ some (some ovpn))
    × (map (λ (r : Sockets). r.sockets) (socket_put s' h) ≡ some (update s.sockets sk sock))

fresh_used :
    (ring : Status) (s : Sockets) (sk ovpn peer new : ℕ)
    → IsFresh s sk
    → UsedOnce ring s sk ovpn peer new (given_up (s.sockets sk))
unfolding socket_new make_holder from_udp_sock
fresh_used ring s sk ovpn peer new f =
    let a : Socket = record (s.sockets sk) {
      callbacks = true;
      user_data = UserData.interface ovpn;
    } in
    let b : Socket = record a { user_data = UserData.holder new } in
    let s1 = set_socket s sk a in
    let u : ((s.sockets sk).protocol == ipproto_udp) ≡ true = ap (λ n. n == ipproto_udp) f.0 in
    let t : ((s.sockets sk).protocol == ipproto_tcp) ≡ false = ap (λ n. n == ipproto_tcp) f.0 in
    let made : OvpnSocket = record { owner = Owner.of_ovpn ovpn; sock = sk; refcount = 1 } in
    let s' : Sockets = record {
      sockets = update s.sockets sk b;
      holders = update s.holders new made;
    } in
    let clean : make_holder s1 sk ovpn peer new ≡ s' =
      rw (make_holder, update_self s.sockets sk a, t, update-update s.sockets sk a b) refl in
    let there = update_self s.sockets sk b in
    let mine = update_self s.holders new made in
    let begun : socket_new true ring s sk ovpn peer new
        ≡ some (ok (some new), make_holder s1 sk ovpn peer new) =
      rw (socket_new, fresh_attach ring s sk ovpn f) refl in
    (
      new,
      s',
      begun ∙ ap (λ x. some (ok (some new), x)) clean,
      rw (from_udp_sock, there, u, mine, eq_self sk) refl,
      last_put s' new sk (ap (λ (x : OvpnSocket). x.refcount) mine)
            (ap (λ (x : OvpnSocket). x.sock) mine) (ap (λ (x : Socket). x.protocol) there ∙ f.0)
          ∙ rw (there, update-update s.sockets sk b (given_up b)) refl,
    )

shared_get :
    (s : Sockets) (sk ovpn h : ℕ)
    → IsShared s sk ovpn h
    → socket_get s sk
      ≡ some
          (some h, set_holder s h (record (s.holders h) { refcount = (s.holders h).refcount + 1 }))
unfolding socket_get socket_hold
shared_get s sk ovpn h f = rw (socket_get, f.user, f.alive) refl

shared_used :
    (ring : Status) (s : Sockets) (sk ovpn peer new h : ℕ)
    → IsShared s sk ovpn h
    → UsedOnce ring s sk ovpn peer new (record (s.sockets sk) { files = (s.sockets sk).files - 1 })
unfolding socket_new sockfd_put from_udp_sock socket_put
shared_used ring s sk ovpn peer new h f =
    let n = (s.holders h).refcount in
    let more : OvpnSocket = record (s.holders h) { refcount = n + 1 } in
    let s1 = set_holder s h more in
    let less : Socket = record (s.sockets sk) { files = (s.sockets sk).files - 1 } in
    let s' = sockfd_put s1 sk in
    let mine = update_self s.holders h more in
    let there = update_self s.sockets sk less in
    let u : ((s.sockets sk).protocol == ipproto_udp) ≡ true = ap (λ x. x == ipproto_udp) f.udp in
    let zero' : (n + 1 == 0) ≡ false = ground arith in
    let one' : (n + 1 == 1) ≡ false = ground (arith, f.alive) in
    (
      h,
      s',
      rw (socket_new, shared_attach ring s sk ovpn h f, shared_get s sk ovpn h f) refl,
      rw (from_udp_sock, there, u, f.attached, f.user, mine, f.back, eq_self sk, f.owner) refl,
      rw (socket_put, mine, zero', one') refl,
    )

-- A new peer of an interface gets a UDP socket that is fresh or already carries peers of the
-- interface, if the structure for it can be allocated, and from then on packets on the socket are
-- the interface's. When the peer gives the socket up again, each socket is as it was, but that the
-- reference to the file that came with the request is gone, and a socket that was fresh is detached.
pub socket_put-socket_new :
    (ring : Status) (s : Sockets) (sk ovpn peer new : ℕ) (usable : Usable s sk ovpn)
    → UsedOnce ring s sk ovpn peer new (left_over s sk ovpn usable)
socket_put-socket_new ring s sk ovpn peer new (inl f) = fresh_used ring s sk ovpn peer new f
socket_put-socket_new ring s sk ovpn peer new (inr (h, f)) = shared_used ring s sk ovpn peer new h f
