-- ===== src/Netlink/Commands.antt =====
-- drivers/net/ovpn-dco/netlink.c: the commands on the keys and the keepalive of a peer. `none` is a
-- fault of the key slots.
use ovpn_dco.Base.{ℕ, Option, none, some, Result, ok, err, Status, enoent}
use ovpn_dco.KeySlot.{PeerKeyReset}
use ovpn_dco.Aead.{key_slot_new}
use ovpn_dco.Crypto.{state_reset, slot_delete, slots_swap, ◌>>=◌}
use ovpn_dco.Peer.{Peer, Ovpn, set_peer, peer_put}
use ovpn_dco.Peer.Timer.{keepalive_set}
use ovpn_dco.Peer.Lookup.{Key, lookup_id}
use ovpn_dco.Data.{Kernel}
use ovpn_dco.Netlink.{
  Nested, NewKeyAttrs, DelKeyAttrs, SetPeerAttrs, new_key_args, del_key_args, swap_keys_args,
  set_peer_args,
}

-- The look-up of the peer, what is done to it, and the put: the shape of most of the commands.
unfoldable pub with_peer :
    (Key → ℕ) → Ovpn → ℕ → (Peer → Option (Status × Peer)) → Option (Status × Ovpn)
with_peer jhash o peer_id change =
    let (found, o') = lookup_id jhash o peer_id in
    elim found [
      | none ↦ some (err enoent, o')
      | some p ↦ do (ret, pr) ← change (o'.peers p); some (ret, peer_put (set_peer o' p pr) p)
    ]

-- the early return on attributes that are not as they should be
abbrev pub checked {ℓ} :
    {A : Type ℓ} → Ovpn → Result A → (A → Option (Status × Ovpn)) → Option (Status × Ovpn)
checked o (err e) command = some (err e, o)
checked o (ok args) command = command args

unfoldable pub install_key : Kernel → PeerKeyReset → Peer → Option (Status × Peer)
install_key k pkr pr = do
  (ret, cs) ← state_reset pr.crypto pkr.slot (key_slot_new k.api pkr.key)
  some (ret, record pr { crypto = cs })

-- `ovpn_netlink_new_key`
unfoldable pub new_key : Kernel → Ovpn → Nested NewKeyAttrs → Option (Status × Ovpn)
new_key k o attr =
    checked o (new_key_args attr) (λ args. with_peer k.jhash o args.0 (install_key k args.1))

unfoldable pub remove_key : ℕ → Peer → Option (Status × Peer)
remove_key slot pr = do cs ← slot_delete pr.crypto slot; some (ok tt, record pr { crypto = cs })

-- `ovpn_netlink_del_key`
unfoldable pub del_key : Kernel → Ovpn → Nested DelKeyAttrs → Option (Status × Ovpn)
del_key k o attr =
    checked o (del_key_args attr) (λ args. with_peer k.jhash o args.0 (remove_key args.1))

unfoldable pub exchange_keys : Peer → Option (Status × Peer)
exchange_keys pr = some (ok tt, record pr { crypto = slots_swap pr.crypto })

-- `ovpn_netlink_swap_keys`, whose one attribute is the peer's id
unfoldable pub swap_keys : Kernel → Ovpn → Nested (Option ℕ) → Option (Status × Ovpn)
swap_keys k o attr =
    checked o (swap_keys_args attr) (λ peer_id. with_peer k.jhash o peer_id exchange_keys)

-- the keepalive is set if both parameters are given
unfoldable pub configure : Kernel → ℕ → Option ℕ → Option ℕ → Peer → Option (Status × Peer)
configure k now (some interval) (some timeout) pr =
    some (ok tt, keepalive_set k.msecs_to_jiffies pr now interval timeout)
configure k now interval timeout pr = some (ok tt, pr)

-- `ovpn_netlink_set_peer`, at a time
unfoldable pub netlink_set_peer : Kernel → ℕ → Ovpn → Nested SetPeerAttrs → Option (Status × Ovpn)
netlink_set_peer k now o attr =
    checked o (set_peer_args attr)
      (λ args. with_peer k.jhash o args.0 (configure k now args.1 args.2))

-- the commands of `ovpn_netlink_ops` on the keys and the keepalive
pub data Command : Type 0 where
  cmd_new_key : Nested NewKeyAttrs → Command
  cmd_del_key : Nested DelKeyAttrs → Command
  cmd_swap_keys : Nested (Option ℕ) → Command
  cmd_set_peer : Nested SetPeerAttrs → Command

unfoldable pub run : Kernel → ℕ → Ovpn → Command → Option (Status × Ovpn)
run k now o (Command.cmd_new_key attr) = new_key k o attr
run k now o (Command.cmd_del_key attr) = del_key k o attr
run k now o (Command.cmd_swap_keys attr) = swap_keys k o attr
run k now o (Command.cmd_set_peer attr) = netlink_set_peer k now o attr
