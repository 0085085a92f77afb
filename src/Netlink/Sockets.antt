-- ===== src/Netlink/Sockets.antt =====
-- What the command for a new peer does to the sockets, on each of its exits.
use mathlib.Core.Option.{map}
use ovpn_dco.Base.{
  ℕ, ◌+◌, ◌-◌, ◌≡◌, refl, sym, ap, ◌∙◌, arith, false, Option, none, some, inl, inr, update,
  update_self, update-update, update_same, ok, err, Errno, Status,
}
use ovpn_dco.Crypto.{◌>>=◌}
use ovpn_dco.Crypto.Refs.{Ensures}
use ovpn_dco.Peer.{Peer, Ovpn, set_peer}
use ovpn_dco.Peer.Lookup.{Key}
use ovpn_dco.Peer.Table.{peer_add}
use ovpn_dco.Sock.{UserData, Socket, Sockets, sockfd_put, socket_put, from_udp_sock}
use ovpn_dco.Sock.Files.{IsFresh, IsShared, Usable, left_over, given_up}
use ovpn_dco.Netlink.NewPeer.{release_new, sockfd_get}

-- A UDP socket that no one has attached, or that carries peers of the interface.
pub data IsReady (s : Sockets) (sk ovpn : ℕ) : Type 0 where
  fresh : IsFresh s sk → (s.sockets sk).callbacks ≡ false → IsReady s sk ovpn
  shared : (h : ℕ) → IsShared s sk ovpn h → IsReady s sk ovpn

-- the interface once a new peer with an id was written to an address and added
abbrev pub Added : (Key → ℕ) → ℕ → ℕ → Ovpn → Ovpn → Type 0
Added jhash p id o o' =
    (pr : Peer) × (pr.id ≡ id) × (peer_add jhash (set_peer o p pr) p ≡ (ok tt, o'))

-- The peer is added and the socket carries it, or the command fails and every socket is as before.
pub data Ended (added_to : Ovpn → Type 0) (s : Sockets) (sk ovpn : ℕ) (r : Status × Ovpn × Sockets)
    : Type 0 where
  added :
      r.0 ≡ ok tt
      → added_to r.1
      → from_udp_sock r.2 sk ≡ some (some ovpn)
      → Ended added_to s sk ovpn r
  refused : (e : Errno) → r.0 ≡ err e → r.2.sockets ≡ s.sockets → Ended added_to s sk ovpn r

got :
    (s : Sockets) (sk : ℕ)
    → (sockfd_get s sk).sockets sk ≡ record (s.sockets sk) { files = (s.sockets sk).files + 1 }
got s sk = update_self s.sockets sk (record (s.sockets sk) { files = (s.sockets sk).files + 1 })

-- what is stored over the socket with the new reference
stored_back :
    (s : Sockets) (sk : ℕ) (sock : Socket)
    → sock ≡ s.sockets sk
    → update (sockfd_get s sk).sockets sk sock ≡ s.sockets
stored_back s sk sock e =
    update-update s.sockets sk (record (s.sockets sk) { files = (s.sockets sk).files + 1 }) sock
    ∙ ap (update s.sockets sk) e
    ∙ update_same s.sockets sk

less_one : (sock : Socket) → record sock { files = sock.files + 1 - 1 } ≡ sock
less_one sock =
    let back : sock.files + 1 - 1 ≡ sock.files = omega arith in
    ap (λ n. record sock { files = n }) back

pub put-get : (s : Sockets) (sk : ℕ) → (sockfd_put (sockfd_get s sk) sk).sockets ≡ s.sockets
unfolding sockfd_put
put-get s sk =
    stored_back s sk
      (record ((sockfd_get s sk).sockets sk) { files = ((sockfd_get s sk).sockets sk).files - 1 })
      (ap (λ (x : Socket). record x { files = x.files - 1 }) (got s sk) ∙ less_one (s.sockets sk))

given_up-same :
    (sock : Socket)
    → sock.callbacks ≡ false
    → sock.user_data ≡ UserData.nothing
    → given_up (record sock { files = sock.files + 1 }) ≡ sock
given_up-same sock c u =
    ap
      (λ x. record sock { callbacks = x; user_data = UserData.nothing; files = sock.files + 1 - 1 })
      (sym c)
    ∙ ap (λ x. record sock { user_data = x; files = sock.files + 1 - 1 }) (sym u)
    ∙ less_one sock

pub usable :
    (s : Sockets) (sk ovpn : ℕ)
    → IsReady s sk ovpn
    → (u : Usable (sockfd_get s sk) sk ovpn) × (update
          (sockfd_get s sk).sockets
          sk
          (left_over (sockfd_get s sk) sk ovpn u)
        ≡ s.sockets)
usable s sk ovpn (IsReady.fresh f c) = (
  inl (
    ap (λ (x : Socket). x.protocol) (got s sk) ∙ f.0,
    ap (λ (x : Socket). x.user_data) (got s sk) ∙ f.1,
  ),
  stored_back s sk (given_up ((sockfd_get s sk).sockets sk))
      (ap given_up (got s sk) ∙ given_up-same (s.sockets sk) c f.1),
)
usable s sk ovpn (IsReady.shared h f) = (
  inr (
    h,
    record {
      udp = ap (λ (x : Socket). x.protocol) (got s sk) ∙ f.udp;
      user = ap (λ (x : Socket). x.user_data) (got s sk) ∙ f.user;
      attached = ap (λ (x : Socket). x.callbacks) (got s sk) ∙ f.attached;
      back = f.back;
      owner = f.owner;
      alive = f.alive;
    },
  ),
  stored_back s sk _
      (ap (λ (x : Socket). record x { files = x.files - 1 }) (got s sk) ∙ less_one (s.sockets sk)),
)

pub release_new-Ended :
    (added_to : Ovpn → Type 0) (s s' : Sockets) (sk ovpn h : ℕ) (e : Errno) (o : Ovpn)
    (f : ℕ → Socket)
    → map (λ (r : Sockets). r.sockets) (socket_put s' h) ≡ some f
    → f ≡ s.sockets
    → Ensures (Ended added_to s sk ovpn) (release_new e o s' h)
unfolding release_new
release_new-Ended added_to s s' sk ovpn h e o f put same = go (socket_put s' h) put
  where
    go :
        (m : Option Sockets)
        → map (λ (r : Sockets). r.sockets) m ≡ some f
        → Ensures (Ended added_to s sk ovpn) (m >>= λ x. some (err e, o, x))
    go none z = absurd (ground arith)
    go (some x) z = Ended.refused e refl (ground (arith, z) ∙ same)
