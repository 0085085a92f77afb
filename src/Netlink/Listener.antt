-- ===== src/Netlink/Listener.antt =====
-- The packets that pass between userspace and the transport, and who is registered for them.
use ovpn_dco.Base.{
  ℕ, List, [], ◌∷◌, ◌++◌, ◌≤◌, ◌≡◌, ◌≢◌, true, Option, none, some, ◌==◌, if◌then◌else◌, ◌⊎◌, update,
  length, get_or, ok, err, Errno, Status, enomem, ehostunreach,
}
use ovpn_dco.Proto.{data_v1, data_v2, opcode_from_byte}
use ovpn_dco.Peer.{Ovpn}
use ovpn_dco.Peer.Lookup.{lookup_id}
use ovpn_dco.Tcp.{frame}
use ovpn_dco.Tcp.Send.{queue_tcp_skb}
use ovpn_dco.Data.{Kernel, ipproto_tcp}
use ovpn_dco.Data.Transmit.{Transport, skb_len_for}
use ovpn_dco.Netlink.{Nested}
use ovpn_dco.Netlink.Packets.{PacketAttrs, packet_args, register_packet, netlink_notify}

-- a packet of allowed size that is not a data packet
abbrev pub IsControl : ℕ → List ℕ → Type 0
IsControl mtu packet =
    (4 ≤ length packet)
    × (length packet ≤ mtu)
    × (opcode_from_byte (get_or packet 0 0) ≢ data_v1)
    × (opcode_from_byte (get_or packet 0 0) ≢ data_v2)

-- what a peer's transport is given: the packet framed in the ring of TCP, or as it is
abbrev pub sent : ℕ → List ℕ → Transport → Transport
sent protocol packet out =
    if protocol == ipproto_tcp
    then record out { tcp_tx_ring = queue_tcp_skb out.tcp_tx_ring (frame packet) }
    else record out { udp = out.udp ++ (packet ∷ []) }

-- What sending a packet to a peer id comes to: there is no such peer, there is no buffer, or the
-- transport of the peer that is found is given the packet.
abbrev pub Handed :
    Kernel
    → (ℕ → Option ℕ)
    → ℕ
    → ℕ
    → List ℕ
    → Ovpn
    → (ℕ → Transport)
    → Status × Ovpn × (ℕ → Transport)
    → Type 0
Handed k alloc header peer_id packet o out r =
    let (found, o') = lookup_id k.jhash o peer_id in
    let protocol : ℕ → ℕ = λ p. (o'.peers p).protocol in
    (r.1 ≡ o)
    × (((found ≡ none) × (r.0 ≡ err ehostunreach) × (r.2 ≡ out))
        ⊎ ((p : ℕ) × (found ≡ some p)
            × (((alloc (skb_len_for header (protocol p) (length packet)) ≡ none)
                  × (r.0 ≡ err enomem)
                  × (r.2 ≡ out))
                ⊎ ((r.0 ≡ ok tt) × (r.2 ≡ update out p (sent (protocol p) packet (out p)))))))

-- What a packet command comes to: its attributes are refused, or they hold a control packet for a
-- peer id, which is sent.
abbrev pub Controlled :
    Kernel
    → (ℕ → Option ℕ)
    → ℕ
    → Nested PacketAttrs
    → Ovpn
    → (ℕ → Transport)
    → Status × Ovpn × (ℕ → Transport)
    → Type 0
Controlled k alloc header attr o out r =
    ((e : Errno) × (packet_args o.mtu attr ≡ err e) × (r ≡ (err e, o, out)))
    ⊎ ((peer_id : ℕ) × (packet : List ℕ) × (packet_args o.mtu attr ≡ ok (peer_id, packet))
        × IsControl o.mtu packet
        × Handed k alloc header peer_id packet o out r)

-- What happens to the listener of an interface: a port registers, or the socket of a port closes.
pub data ListenerEvent : Type 0 where
  registers released : ℕ → ListenerEvent

abbrev only : Ovpn → List (List (Option Ovpn)) → Ovpn
only o ((some o' ∷ devs) ∷ nets) = o'
only o nets = o

-- the code's step, on an interface that is alone in its namespace
unfoldable pub listener_step : Ovpn → ListenerEvent → Ovpn
listener_step o (ListenerEvent.registers portid) = (register_packet o portid).1
listener_step o (ListenerEvent.released portid) =
    only o (netlink_notify true portid ((some o ∷ []) ∷ [])).1

-- The abstract listener: one port at most. A port registers if none is registered, and its release
-- frees the place.
unfoldable pub listener_spec : Option ℕ → ListenerEvent → Option ℕ
listener_spec none (ListenerEvent.registers portid) = some portid
listener_spec (some owner) (ListenerEvent.registers portid) = some owner
listener_spec none (ListenerEvent.released portid) = none
listener_spec (some owner) (ListenerEvent.released portid) =
    if portid == owner then none else some owner

-- the listener that an interface has
abbrev pub listener : Ovpn → Option ℕ
listener o = if o.registered_nl_portid_set then some o.registered_nl_portid else none

pub listener_run : Ovpn → List ListenerEvent → Ovpn
listener_run o [] = o
listener_run o (e ∷ es) = listener_run (listener_step o e) es

pub listener_trace : Option ℕ → List ListenerEvent → Option ℕ
listener_trace owner [] = owner
listener_trace owner (e ∷ es) = listener_trace (listener_spec owner e) es
