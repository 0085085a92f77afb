-- ===== src/Netlink/Creation.antt =====
-- The command for a new peer on each of its exits.
use mathlib.Core.Path.{subst}
use mathlib.Core.Option.{map}
use ovpn_dco.Base.{
  ℕ, ◌≡◌, ◌≢◌, ◌⊎◌, refl, sym, ap, ◌∙◌, arith, true, Option, none, some, ◌==◌, inl, inr, Result, ok,
  err, Errno, Status, Bool-cases,
}
use ovpn_dco.Addr.{SockAddr}
use ovpn_dco.Crypto.{◌>>=◌}
use ovpn_dco.Crypto.Refs.{Ensures, Ensures->>=}
use ovpn_dco.Peer.{Peer, Ovpn, set_peer, peer_create}
use ovpn_dco.Peer.Endpoint.{reset_sockaddr}
use ovpn_dco.Peer.Lookup.{Key}
use ovpn_dco.Peer.Table.{peer_add}
use ovpn_dco.Data.{ipproto_udp}
use ovpn_dco.Sock.{Socket, Sockets, sockfd_put, socket_new, socket_put, from_udp_sock}
use ovpn_dco.Sock.Files.{socket_put-socket_new}
use ovpn_dco.Netlink.Sockets.{IsReady, Ended, Added, usable, put-get, release_new-Ended}
use ovpn_dco.Netlink.NewPeer.{
  Creating, NewPeerAttrs, peer_new, make_peer, attach_peer, remote_of, local_of, endpoints_of,
  vpn_addrs, release_new, add_new, new_peer_on, sockfd_get,
}

-- a socket that has been given to a peer, and what giving it up leaves
abbrev Given : Sockets → ℕ → ℕ → Sockets → ℕ → Type 0
Given s sk ovpn s' h =
    (from_udp_sock s' sk ≡ some (some ovpn))
    × ((f : ℕ → Socket) × (map (λ (r : Sockets). r.sockets) (socket_put s' h) ≡ some f)
        × (f ≡ s.sockets))

-- the id of a new peer is the one it was made with
vpn_addrs-id : (attrs : NewPeerAttrs) (pr pr' : Peer) → vpn_addrs attrs pr ≡ ok pr' → pr'.id ≡ pr.id
unfolding vpn_addrs
vpn_addrs-id attrs pr pr' e = ground (arith, e)

make_peer-id :
    (env : Creating) (protocol id : ℕ) (sa : Option SockAddr) (local_ip : Option ℕ) (pr : Peer)
    → make_peer env protocol id sa local_ip ≡ ok pr
    → pr.id ≡ id
unfolding make_peer reset_sockaddr peer_create
make_peer-id env protocol id sa local_ip pr e = ground (arith, e)

add_new-Ended :
    (jhash : Key → ℕ) (env : Creating) (attrs : NewPeerAttrs) (o : Ovpn) (s s' : Sockets)
    (sk ovpn id h : ℕ) (pr : Peer)
    → pr.id ≡ id
    → Given s sk ovpn s' h
    → Ensures (Ended (Added jhash env.peer id o) s sk ovpn) (add_new jhash env attrs o s' pr h)
unfolding add_new
add_new-Ended jhash env attrs o s s' sk ovpn id h pr named (carries, (f, put, same)) =
    go (vpn_addrs attrs pr) refl
  where
    go2 :
        (pr' : Peer) (r : Status × Ovpn)
        → pr'.id ≡ id
        → peer_add jhash (set_peer o env.peer pr') env.peer ≡ r
        → Ensures
            (Ended (Added jhash env.peer id o) s sk ovpn)
            (elim r.0 [ err e ↦ release_new e r.1 s' h | ok _ ↦ some (ok tt, r.1, s') ])
    go2 pr' (ok _, o') i e = Ended.added refl (pr', i, e) carries
    go2 pr' (err e, o') i _ =
        release_new-Ended (Added jhash env.peer id o) s s' sk ovpn h e o' f put same

    go :
        (r : Result Peer)
        → vpn_addrs attrs pr ≡ r
        → Ensures (Ended (Added jhash env.peer id o) s sk ovpn) (elim r [
          | err e ↦ release_new e o s' h
          | ok pr' ↦
              let (ret, o') = peer_add jhash (set_peer o env.peer pr') env.peer in
              elim ret [ err e ↦ release_new e o' s' h | ok _ ↦ some (ok tt, o', s') ]
        ])
    go (err e) _ = release_new-Ended (Added jhash env.peer id o) s s' sk ovpn h e o f put same
    go (ok pr') e =
        go2 pr' (peer_add jhash (set_peer o env.peer pr') env.peer)
          (vpn_addrs-id attrs pr pr' e ∙ named) refl

-- a peer was made with its socket, or nothing has happened to the sockets
abbrev Made : Sockets → Sockets → ℕ → ℕ → ℕ → Result (Peer × ℕ) × Sockets → Type 0
Made s s1 sk ovpn id r =
    ((e : Errno) × (r ≡ (err e, s1)))
    ⊎ ((pr : Peer) × (h : ℕ) × (r.0 ≡ ok (pr, h)) × (pr.id ≡ id) × Given s sk ovpn r.1 h)

attach_peer-Made :
    (env : Creating) (s : Sockets) (sk ovpn id : ℕ) (pr : Peer)
    → pr.id ≡ id
    → IsReady s sk ovpn
    → env.holder_alloc ≡ true
    → Ensures (Made s (sockfd_get s sk) sk ovpn id) (attach_peer env (sockfd_get s sk) ovpn sk pr)
unfolding attach_peer
attach_peer-Made env s sk ovpn id pr named ready alloc =
    let (u, same) = usable s sk ovpn ready in
    let (h, s', begun, carries, put) =
      socket_put-socket_new env.ring (sockfd_get s sk) sk ovpn env.peer env.holder u in
    let attached : socket_new env.holder_alloc env.ring (sockfd_get s sk) sk ovpn env.peer
          env.holder
        ≡ some (ok (some h), s') =
      ap (λ b. socket_new b env.ring (sockfd_get s sk) sk ovpn env.peer env.holder) alloc ∙ begun in
    rw (attach_peer, attached) (inr (pr, h, refl, named, (carries, (_, put, same))))

peer_new-Made :
    (env : Creating) (s : Sockets) (sk ovpn id : ℕ) (ss : Option SockAddr) (local_ip : Option ℕ)
    → IsReady s sk ovpn
    → env.holder_alloc ≡ true
    → Ensures
        (Made s (sockfd_get s sk) sk ovpn id)
        (peer_new env (sockfd_get s sk) ovpn sk id ss local_ip)
unfolding peer_new
peer_new-Made env s sk ovpn id ss local_ip ready alloc =
    go (make_peer env ((sockfd_get s sk).sockets sk).protocol id ss local_ip) refl
  where
    go :
        (b : Result Peer)
        → make_peer env ((sockfd_get s sk).sockets sk).protocol id ss local_ip ≡ b
        → Ensures (Made s (sockfd_get s sk) sk ovpn id) (elim b [
          | err e ↦ some (err e, sockfd_get s sk)
          | ok pr ↦ attach_peer env (sockfd_get s sk) ovpn sk pr
        ])
    go (err e) _ = inl (e, refl)
    go (ok pr) e =
        attach_peer-Made env s sk ovpn id pr (make_peer-id env _ id ss local_ip pr e) ready alloc

-- the local address is not read past its end, for the remote address of the command
abbrev pub InBounds : NewPeerAttrs → Type 0
InBounds attrs =
    (ss : SockAddr) → remote_of attrs.sockaddr_remote ≡ ok ss → local_of ss attrs.local_ip ≢ none

endpoints_defined :
    (protocol : ℕ) (attrs : NewPeerAttrs)
    → InBounds attrs
    → Ensures {A = Result (Option SockAddr × Option ℕ)}
        (λ r. Unit {0})
        (endpoints_of protocol attrs)
unfolding endpoints_of
endpoints_defined protocol attrs within = elim (Bool-cases (protocol == ipproto_udp)) [
  | inr e ↦ rw (endpoints_of, e) tt
  | inl e ↦ rw (endpoints_of, e) (go (remote_of attrs.sockaddr_remote) refl)
]
  where
    go2 :
        (ss : SockAddr) (m : Option (Result (Option ℕ)))
        → m ≢ none
        → Ensures {A = Result (Option SockAddr × Option ℕ)}
            (λ r. Unit {0})
            (m >>= λ ip. some (elim ip [ err e ↦ err e | ok a ↦ ok (some ss, a) ]))
    go2 ss none h = absurd (h refl)
    go2 ss (some ip) h = tt

    go :
        (r : Result SockAddr)
        → remote_of attrs.sockaddr_remote ≡ r
        → Ensures {A = Result (Option SockAddr × Option ℕ)}
            (λ r. Unit {0})
            (elim r [
              | err e ↦ some (err e)
              | ok ss ↦ local_of ss attrs.local_ip >>= λ ip.
                  some (elim ip [ err e ↦ err e | ok a ↦ ok (some ss, a) ])
            ])
    go (err e) _ = tt
    go (ok ss) e = go2 ss (local_of ss attrs.local_ip) (within ss e)

-- The command for a new peer on a UDP socket that no one has attached or that carries peers of the
-- interface, where the structure for the socket can be allocated and the local address is not read
-- past its end with the remote address of the command, does not fault. Either `ovpn_peer_add` has
-- added a peer with the id, and packets on the socket are the interface's, or the command fails and
-- every socket is as before, its attachment and the reference to its file included.
pub new_peer_on-Ended :
    (jhash : Key → ℕ) (env : Creating) (attrs : NewPeerAttrs) (o : Ovpn) (s : Sockets)
    (sk ovpn id : ℕ)
    → IsReady s sk ovpn
    → env.holder_alloc ≡ true
    → InBounds attrs
    → Ensures
        (Ended (Added jhash env.peer id o) s sk ovpn)
        (new_peer_on jhash env attrs ovpn o (sockfd_get s sk) id sk)
unfolding new_peer_on
new_peer_on-Ended jhash env attrs o s sk ovpn id ready alloc within =
    Ensures->>= _ _ (endpoints_of ((sockfd_get s sk).sockets sk).protocol attrs) _
      (endpoints_defined ((sockfd_get s sk).sockets sk).protocol attrs within) (λ r _. go r)
  where
    finish :
        (r : Result (Peer × ℕ) × Sockets)
        → Made s (sockfd_get s sk) sk ovpn id r
        → Ensures (Ended (Added jhash env.peer id o) s sk ovpn) (elim r.0 [
          | err e ↦ some (err e, o, sockfd_put r.1 sk)
          | ok x ↦ add_new jhash env attrs o r.1 x.0 x.1
        ])
    finish (err x, s') (inl (e, same)) =
        Ended.refused x refl (
          ap (λ (y : Result (Peer × ℕ) × Sockets). (sockfd_put y.1 sk).sockets) same ∙ put-get s sk)
    finish (ok x, s') (inl (e, same)) = absurd (ground (arith, same))
    finish (err x, s') (inr (pr, h, same, named, given)) = absurd (ground (arith, same))
    finish (ok x, s') (inr (pr, h, same, named, given)) =
        let heq : h ≡ x.1 = ground (arith, same) in
        let peq : pr ≡ x.0 = ground (arith, same) in
        add_new-Ended jhash env attrs o s s' sk ovpn id x.1 x.0
          (ap (λ (y : Peer). y.id) (sym peq) ∙ named) (subst (Given s sk ovpn s') heq given)

    go :
        (r : Result (Option SockAddr × Option ℕ))
        → Ensures (Ended (Added jhash env.peer id o) s sk ovpn) (elim r [
          | err e ↦ some (err e, o, sockfd_put (sockfd_get s sk) sk)
          | ok (ss, local_ip) ↦ peer_new env (sockfd_get s sk) ovpn sk id ss local_ip >>= λ m.
              elim m.0 [
                | err e ↦ some (err e, o, sockfd_put m.1 sk)
                | ok x ↦ add_new jhash env attrs o m.1 x.0 x.1
              ]
        ])
    go (err e) = Ended.refused e refl (put-get s sk)
    go (ok (ss, local_ip)) =
        Ensures->>= _ _ (peer_new env (sockfd_get s sk) ovpn sk id ss local_ip) _
          (peer_new-Made env s sk ovpn id ss local_ip ready alloc) finish
