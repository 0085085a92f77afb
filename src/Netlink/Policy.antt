-- ===== src/Netlink/Policy.antt =====
-- The attributes of include/uapi/linux/ovpn_dco.h and the policies of netlink.c. The kernel checks
-- a message against the policy of the family before it calls a handler: an attribute of a number
-- has at least its bytes, one of an exact length has that length.
use ovpn_dco.Base.{ℕ, Option, none, some}
use ovpn_dco.Aead.{nonce_tail_size}

-- `enum ovpn_nl_commands`
pub data NlCommand : Type 0 where
  unspec new_peer set_peer del_peer new_key swap_keys del_key register_packet packet get_peer :
      NlCommand

-- `enum ovpn_netlink_attrs`
pub data Attr : Type 0 where
  unspec ifindex new_peer set_peer del_peer new_key swap_keys del_key packet get_peer : Attr

-- `enum ovpn_netlink_key_dir_attrs`
pub data KeyDirAttr : Type 0 where
  unspec cipher_key nonce_tail : KeyDirAttr

-- `enum ovpn_netlink_new_key_attrs`
pub data NewKeyAttr : Type 0 where
  unspec peer_id key_slot key_id cipher_alg encrypt_key decrypt_key : NewKeyAttr

-- `enum ovpn_netlink_del_key_attrs`
pub data DelKeyAttr : Type 0 where
  unspec peer_id key_slot : DelKeyAttr

-- `enum ovpn_netlink_swap_keys_attrs`
pub data SwapKeysAttr : Type 0 where
  unspec peer_id : SwapKeysAttr

-- `enum ovpn_netlink_new_peer_attrs`
pub data NewPeerAttr : Type 0 where
  unspec peer_id sockaddr_remote socket ipv4 ipv6 local_ip : NewPeerAttr

-- `enum ovpn_netlink_set_peer_attrs`
pub data SetPeerAttr : Type 0 where
  unspec peer_id keepalive_interval keepalive_timeout : SetPeerAttr

-- `enum ovpn_netlink_del_peer_attrs`
pub data DelPeerAttr : Type 0 where
  unspec reason peer_id : DelPeerAttr

-- `enum ovpn_netlink_get_peer_attrs`
pub data GetPeerAttr : Type 0 where
  unspec peer_id : GetPeerAttr

-- `enum ovpn_netlink_packet_attrs`
pub data PacketAttr : Type 0 where
  unspec packet peer_id : PacketAttr

-- the arrays of policies that nest in the family's
pub data Table : Type 0 where
  key_dir new_peer set_peer del_peer get_peer new_key swap_keys del_key packet : Table

-- the attributes of each of them
abbrev pub AttrOf : Table → Type 0
AttrOf Table.key_dir = KeyDirAttr
AttrOf Table.new_peer = NewPeerAttr
AttrOf Table.set_peer = SetPeerAttr
AttrOf Table.del_peer = DelPeerAttr
AttrOf Table.get_peer = GetPeerAttr
AttrOf Table.new_key = NewKeyAttr
AttrOf Table.swap_keys = SwapKeysAttr
AttrOf Table.del_key = DelKeyAttr
AttrOf Table.packet = PacketAttr

-- `struct nla_policy`, as the macros of netlink.c make it
pub data Policy : Type 0 where
  u8 u16 u32 : Policy
  u8_range : ℕ → ℕ → Policy
  exact_len min_len max_len : ℕ → Policy
  nested : Table → Policy

-- `ovpn_netlink_policy`
unfoldable pub family_policy : Attr → Option Policy
family_policy Attr.unspec = none
family_policy Attr.ifindex = some Policy.u32
family_policy Attr.new_peer = some (Policy.nested Table.new_peer)
family_policy Attr.set_peer = some (Policy.nested Table.set_peer)
family_policy Attr.del_peer = some (Policy.nested Table.del_peer)
family_policy Attr.get_peer = some (Policy.nested Table.get_peer)
family_policy Attr.new_key = some (Policy.nested Table.new_key)
family_policy Attr.swap_keys = some (Policy.nested Table.swap_keys)
family_policy Attr.del_key = some (Policy.nested Table.del_key)
family_policy Attr.packet = some (Policy.nested Table.packet)

-- `ovpn_netlink_policy_key_dir`
unfoldable pub policy_key_dir : KeyDirAttr → Option Policy
policy_key_dir KeyDirAttr.unspec = none
policy_key_dir KeyDirAttr.cipher_key = some (Policy.max_len 255)
policy_key_dir KeyDirAttr.nonce_tail = some (Policy.exact_len nonce_tail_size)

-- `ovpn_netlink_policy_new_key`
unfoldable pub policy_new_key : NewKeyAttr → Option Policy
policy_new_key NewKeyAttr.unspec = none
policy_new_key NewKeyAttr.peer_id = some Policy.u32
policy_new_key NewKeyAttr.key_slot = some (Policy.u8_range 0 1)
policy_new_key NewKeyAttr.key_id = some Policy.u8
policy_new_key NewKeyAttr.cipher_alg = some Policy.u16
policy_new_key NewKeyAttr.encrypt_key = some (Policy.nested Table.key_dir)
policy_new_key NewKeyAttr.decrypt_key = some (Policy.nested Table.key_dir)

-- `ovpn_netlink_policy_del_key`
unfoldable pub policy_del_key : DelKeyAttr → Option Policy
policy_del_key DelKeyAttr.unspec = none
policy_del_key DelKeyAttr.peer_id = some Policy.u32
policy_del_key DelKeyAttr.key_slot = some (Policy.u8_range 0 1)

-- `ovpn_netlink_policy_swap_keys`
unfoldable pub policy_swap_keys : SwapKeysAttr → Option Policy
policy_swap_keys SwapKeysAttr.unspec = none
policy_swap_keys SwapKeysAttr.peer_id = some Policy.u32

-- `ovpn_netlink_policy_new_peer`; a `struct sockaddr` has 16 bytes, a `struct in6_addr` as well
unfoldable pub policy_new_peer : NewPeerAttr → Option Policy
policy_new_peer NewPeerAttr.unspec = none
policy_new_peer NewPeerAttr.peer_id = some Policy.u32
policy_new_peer NewPeerAttr.sockaddr_remote = some (Policy.min_len 16)
policy_new_peer NewPeerAttr.socket = some Policy.u32
policy_new_peer NewPeerAttr.ipv4 = some Policy.u32
policy_new_peer NewPeerAttr.ipv6 = some (Policy.exact_len 16)
policy_new_peer NewPeerAttr.local_ip = some (Policy.max_len 16)

-- `ovpn_netlink_policy_set_peer`
unfoldable pub policy_set_peer : SetPeerAttr → Option Policy
policy_set_peer SetPeerAttr.unspec = none
policy_set_peer SetPeerAttr.peer_id = some Policy.u32
policy_set_peer SetPeerAttr.keepalive_interval = some Policy.u32
policy_set_peer SetPeerAttr.keepalive_timeout = some Policy.u32

-- `ovpn_netlink_policy_del_peer`
unfoldable pub policy_del_peer : DelPeerAttr → Option Policy
policy_del_peer DelPeerAttr.unspec = none
policy_del_peer DelPeerAttr.reason = some (Policy.u8_range 0 3)
policy_del_peer DelPeerAttr.peer_id = some Policy.u32

-- `ovpn_netlink_policy_get_peer`
unfoldable pub policy_get_peer : GetPeerAttr → Option Policy
policy_get_peer GetPeerAttr.unspec = none
policy_get_peer GetPeerAttr.peer_id = some Policy.u32

-- `ovpn_netlink_policy_packet`
unfoldable pub policy_packet : PacketAttr → Option Policy
policy_packet PacketAttr.unspec = none
policy_packet PacketAttr.peer_id = some Policy.u32
policy_packet PacketAttr.packet = some (Policy.max_len 0xffff)

unfoldable pub policy_in : (t : Table) → AttrOf t → Option Policy
unfolding policy_key_dir policy_new_key policy_del_key policy_swap_keys policy_new_peer
    policy_set_peer policy_del_peer policy_get_peer policy_packet
policy_in Table.key_dir a = policy_key_dir a
policy_in Table.new_peer a = policy_new_peer a
policy_in Table.set_peer a = policy_set_peer a
policy_in Table.del_peer a = policy_del_peer a
policy_in Table.get_peer a = policy_get_peer a
policy_in Table.new_key a = policy_new_key a
policy_in Table.swap_keys a = policy_swap_keys a
policy_in Table.del_key a = policy_del_key a
policy_in Table.packet a = policy_packet a
