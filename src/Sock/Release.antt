-- ===== src/Sock/Release.antt =====
-- The end of a peer, in peer.c: the work that its last reference queues, and the callback after the
-- grace period. The peer's rings and its NAPI are not part of the state. `none` is a fault.
use ovpn_dco.Base.{ℕ, ◌≡◌, refl, Bool, Option, none, some, if◌then◌else◌}
use ovpn_dco.Crypto.{◌>>=◌, grace_period, state_release}
use ovpn_dco.Crypto.Refs.{Ensures, Ensures->>=}
use ovpn_dco.Crypto.Runs.{Run}
use ovpn_dco.Crypto.Release.{Freed, state_release-Freed}
use ovpn_dco.Peer.{bind_reset, Peer}
use ovpn_dco.Sock.{Sockets, socket_put}
use ovpn_dco.Netlink.Packets.{Message, notify_del_peer}

-- `ovpn_peer_free`, up to the memory: the binding and the timers
unfoldable pub peer_free : Peer → Peer
peer_free pr = record (bind_reset pr none) { keepalive_xmit = none; keepalive_recv = none }

-- `ovpn_peer_release_rcu`
unfoldable pub peer_release_rcu : Peer → Option Peer
unfolding peer_free
peer_release_rcu pr = do
  crypto ← state_release pr.crypto
  some (peer_free (record pr { crypto = crypto }))

-- `ovpn_peer_release` before its `call_rcu`, with the peer's socket
unfoldable pub peer_release : Sockets → Option ℕ → Option Sockets
peer_release s none = some s
peer_release s (some h) = socket_put s h

-- `ovpn_peer_delete_work`: what is sent to userspace. `freed` says that the grace period ends before
-- the notification, which then reads memory that was given back.
unfoldable pub peer_delete_work :
    Message → Bool → Sockets → Option ℕ → Peer → Option (Option ℕ × Sockets)
unfolding peer_release
peer_delete_work m freed s sock pr = do
  s' ← peer_release s sock
  if freed then none else some ((notify_del_peer m pr.id).1, s')

-- A peer whose key slots are in a state that the operations reach is released without a fault: its
-- binding is gone, both timers are off, and each key slot is freed after a grace period of its own
-- unless a caller still holds it.
pub peer_release_rcu_lem :
    (pr : Peer) {held : ℕ → ℕ}
    → Run pr.crypto held
    → Ensures
        (λ (pr' : Peer).
          (pr'.bind ≡ none)
          × (pr'.keepalive_xmit ≡ none)
          × (pr'.keepalive_recv ≡ none)
          × Freed held (grace_period pr'.crypto))
        (peer_release_rcu pr)
unfolding peer_release_rcu
peer_release_rcu_lem pr {held} r =
    Ensures->>= (λ cs. Freed held (grace_period cs)) _ (state_release pr.crypto) _
      (state_release-Freed r) (λ cs f. (refl, refl, refl, f))
