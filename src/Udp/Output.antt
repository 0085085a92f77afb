-- ===== src/Udp/Output.antt =====
-- drivers/net/ovpn-dco/udp.c: a packet on its way out. The routing tables and the cache of a peer's
-- route are the kernel's: the record `Routing`. A route is a number that stands for it.
use ovpn_dco.Base.{
  ℕ, ◌≡◌, ◌⊎◌, Bool, true, false, not, Option, none, some, ◌==◌, if◌then◌else◌, Result, ok, err,
  Errno, eafnosupport,
}
use ovpn_dco.Addr.{Bind, af_inet, af_inet6}
use ovpn_dco.Peer.{Peer}

-- The cached route with its source address, whether an address is one of the host's, and the route
-- to the peer from a source address, with the source that the look-up leaves in the flow: it
-- chooses one where none is given.
pub record Routing : Type 0 where
  pub cached : Option (ℕ × ℕ)
  pub confirm : ℕ → Bool
  pub route : ℕ → Result (ℕ × ℕ)

-- What goes to `udp_tunnel_xmit_skb` or its IPv6 counterpart.
pub record Xmit : Type 0 where
  pub family : ℕ
  pub route : ℕ
  pub saddr : ℕ
  pub daddr : ℕ
  pub port : ℕ

-- the result of an output function: what is sent, the binding, and the cache
abbrev pub Output : Type 0
Output = Result Xmit × Bind × Option (ℕ × ℕ)

abbrev xmit_to : Bind → ℕ → ℕ → Xmit
xmit_to bind route saddr = record {
  family = bind.sa.family;
  route = route;
  saddr = saddr;
  daddr = bind.sa.addr;
  port = bind.sa.port;
}

abbrev is_einval : Errno → Bool
is_einval Errno.einval = true
is_einval _ = false

-- the local address that is not usable anymore is reset
abbrev confirmed : Routing → Bind → Bind
confirmed r bind = if r.confirm bind.local then bind else record bind { local = 0 }

abbrev routed : Bind → Result (ℕ × ℕ) → Output
routed bind (ok (route, saddr)) = (ok (xmit_to bind route saddr), bind, some (route, saddr))
routed bind (err e) = (err e, bind, none)

-- the second attempt of IPv4, without a source address
abbrev routed4 : Routing → Bind → Result (ℕ × ℕ) → Output
routed4 r bind (ok route) = routed bind (ok route)
routed4 r bind (err e) =
    if is_einval e then routed (record bind { local = 0 }) (r.route 0) else (err e, bind, none)

-- `ovpn_udp4_output`
unfoldable pub udp4_output : Routing → Bind → Output
udp4_output r bind = elim r.cached [
  | some (route, saddr) ↦ (ok (xmit_to bind route saddr), bind, r.cached)
  | none ↦ (let bind' = confirmed r bind in routed4 r bind' (r.route bind'.local))
]

-- `ovpn_udp6_output`
unfoldable pub udp6_output : Routing → Bind → Output
udp6_output r bind = elim r.cached [
  | some (route, saddr) ↦ (ok (xmit_to bind route saddr), bind, r.cached)
  | none ↦ (let bind' = confirmed r bind in routed bind' (r.route bind'.local))
]

-- `ovpn_udp_output`
unfoldable pub udp_output : Routing → Bind → Output
unfolding udp4_output udp6_output
udp_output r bind =
    if bind.sa.family == af_inet
    then udp4_output r bind
    else (if bind.sa.family == af_inet6
        then udp6_output r bind
        else (err eafnosupport, bind, r.cached))

-- `ovpn_udp_send_skb`, with whether the peer has a socket: what is sent, and the peer after it
unfoldable pub udp_send_skb : Routing → Bool → Peer → Option Xmit × Peer
udp_send_skb r has_sock pr = if not has_sock then (none, pr) else elim pr.bind [
  | none ↦ (none, pr)
  | some bind ↦
      let (ret, bind', cache) = udp_output r bind in
      (elim ret [ ok x ↦ some x | err _ ↦ none ], record pr { bind = some bind' })
]

-- where a packet of a binding goes, and from which address
abbrev pub Aims : Routing → Bind → Output → Type 0
Aims r bind out =
    (out.1.sa ≡ bind.sa)
    × ((x : Xmit)
        → out.0 ≡ ok x
        → (x.daddr ≡ bind.sa.addr)
          × (x.port ≡ bind.sa.port)
          × ((r.cached ≡ some (x.route, x.saddr))
              ⊎ ((r.route out.1.local ≡ ok (x.route, x.saddr))
                  × (out.2 ≡ some (x.route, x.saddr))
                  × ((out.1.local ≡ 0) ⊎ (r.confirm out.1.local ≡ true)))))
