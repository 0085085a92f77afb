-- ===== src/Netlink/Packets.antt =====
-- drivers/net/ovpn-dco/netlink.c: control packets between userspace and the transport. One process
-- may register for the packets of an interface; it is known by its port.
use ovpn_dco.Base.{
  ℕ, List, [], ◌∷◌, Bool, true, false, ◌||◌, not, Option, none, some, ◌==◌, ltb, if◌then◌else◌,
  length, get_or, Result, ok, err, Status, ◌>>=◌, einval, ebusy, enomem, enobufs, emsgsize,
}
use ovpn_dco.Proto.{data_v1, data_v2, opcode_from_byte}
use ovpn_dco.Peer.{Ovpn}
use ovpn_dco.Data.{Kernel}
use ovpn_dco.Data.Transmit.{Transport, send_data}
use ovpn_dco.Netlink.{Nested, nested, required}

-- `ovpn_netlink_init`
unfoldable pub netlink_init : Ovpn → Ovpn
netlink_init o = record o { registered_nl_portid_set = false }

-- `ovpn_netlink_register_packet`, from a port
unfoldable pub register_packet : Ovpn → ℕ → Status × Ovpn
register_packet o portid =
    if o.registered_nl_portid_set
    then (err ebusy, o)
    else (ok tt, record o { registered_nl_portid = portid; registered_nl_portid_set = true })

-- the attributes OVPN_PACKET_ATTR
pub record PacketAttrs : Type 0 where
  pub packet : Option (List ℕ)
  pub peer_id : Option ℕ

-- the checks of `ovpn_netlink_packet`: the peer's id and the packet
unfoldable pub packet_args : ℕ → Nested PacketAttrs → Result (ℕ × List ℕ)
packet_args mtu attr = do
  attrs ← nested attr
  packet ← required attrs.packet
  peer_id ← required attrs.peer_id
  let opcode = opcode_from_byte (get_or packet 0 0)
  if ltb (length packet) 4 || ltb mtu (length packet)
      then err einval
      else (if (opcode == data_v1) || (opcode == data_v2) then err einval else ok (peer_id, packet))

-- `ovpn_netlink_packet`, with what `ovpn_send_data` takes
unfoldable pub netlink_packet :
    Kernel
    → (ℕ → Option ℕ)
    → ℕ
    → Ovpn
    → Nested PacketAttrs
    → (ℕ → Transport)
    → Option (Status × Ovpn × (ℕ → Transport))
netlink_packet k alloc header o attr out = elim (packet_args o.mtu attr) [
  | err e ↦ some (err e, o, out)
  | ok (peer_id, packet) ↦ send_data k alloc header o peer_id packet out
]

-- What the building and sending of a message meets: whether it can be allocated, whether its header
-- and its attributes fit, and what the sending returns.
pub record Message : Type 0 where
  pub alloc : Bool
  pub header_fits : Bool
  pub attrs_fit : Bool
  pub sending : Status

-- what goes out: the port, the peer's id and the packet
pub record Upcall : Type 0 where
  pub portid : ℕ
  pub peer_id : ℕ
  pub packet : List ℕ

-- `ovpn_netlink_send_packet`
unfoldable pub send_packet : Message → Ovpn → ℕ → List ℕ → Status × Option Upcall
send_packet m o peer_id packet =
    if not o.registered_nl_portid_set
    then (ok tt, none)
    else (if not m.alloc
        then (err enomem, none)
        else (if not m.header_fits
            then (err enobufs, none)
            else (if not m.attrs_fit then (err emsgsize, none) else (
              m.sending,
              some (record { portid = o.registered_nl_portid; peer_id = peer_id; packet = packet }),
            ))))

-- `ovpn_netlink_notify_del_peer`: whether a message with the peer's id goes out to the group
unfoldable pub notify_del_peer : Message → ℕ → Status × Option ℕ
notify_del_peer m peer_id =
    if not m.alloc
    then (err enomem, none)
    else (if not m.header_fits
        then (err enobufs, none)
        else (if not m.attrs_fit then (err emsgsize, none) else (ok tt, some peer_id)))

-- The inner loop of `ovpn_netlink_notify` over the devices of one namespace: it ends at the first
-- one whose port it is. A device that is not the driver's is `none`.
unfoldable pub notify_net : ℕ → List (Option Ovpn) → Bool × List (Option Ovpn)
notify_net portid [] = (false, [])
notify_net portid (none ∷ devs) = let (found, rest) = notify_net portid devs in (found, none ∷ rest)
notify_net portid (some o ∷ devs) =
    let (found, rest) = notify_net portid devs in
    if not (portid == o.registered_nl_portid)
    then (found, some o ∷ rest)
    else (true, some (record o { registered_nl_portid_set = false }) ∷ devs)

-- the outer loop, over the namespaces
unfoldable pub notify_all : ℕ → List (List (Option Ovpn)) → Bool × List (List (Option Ovpn))
unfolding notify_net
notify_all portid [] = (false, [])
notify_all portid (net ∷ nets) =
    let (here, net') = notify_net portid net in
    let (there, nets') = notify_all portid nets in (here || there, net' ∷ nets')

-- `ovpn_netlink_notify`: `released` says that a generic netlink socket is released. The result is
-- whether the notification is NOTIFY_OK.
unfoldable pub netlink_notify :
    Bool → ℕ → List (List (Option Ovpn)) → Bool × List (List (Option Ovpn))
unfolding notify_all
netlink_notify released portid nets = if not released then (false, nets) else notify_all portid nets
