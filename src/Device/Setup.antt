-- ===== src/Device/Setup.antt =====
-- drivers/net/ovpn-dco/main.c: the network device of an interface, as `ovpn_setup` fills it in and
-- as the kernel opens and stops it, and what ethtool shows of it.
use ovpn_dco.Base.{ℕ, ◌+◌, ◌-◌, ◌/◌, ◌*◌, ◌^◌, List, [], ◌∷◌, ◌++◌, Bool, true, false}
use ovpn_dco.Device.{eth_data_len, overhead}

-- whose functions `netdev_ops` points to
pub data NetDeviceOps : Type 0 where
  ovpn_netdev_ops other_netdev_ops : NetDeviceOps

-- the bits of `netdev_features_t` that `ovpn_setup` sets
pub data Feature : Type 0 where
  netif_f_sg netif_f_lltx netif_f_hw_csum netif_f_rxcsum : Feature
  netif_f_gso netif_f_gso_software netif_f_highdma : Feature

-- the bits of `flags` that `ovpn_setup` sets
pub data Flag : Type 0 where
  iff_pointopoint iff_noarp iff_multicast : Flag

-- `struct net_device`, as far as the driver sets it. `send_redirects` is the setting of its IPv4
-- part, if it has one, and `all_send_redirects` that of the whole network namespace.
pub record NetDevice : Type 0 where
  pub netdev_ops : NetDeviceOps
  pub needs_free_netdev : Bool
  pub hard_header_len : ℕ
  pub addr_len : ℕ
  pub mtu : ℕ
  pub max_mtu : ℕ
  pub flags : List Flag
  pub features : List Feature
  pub hw_features : List Feature
  pub hw_enc_features : List Feature
  pub needed_headroom : ℕ
  pub needed_tailroom : ℕ
  pub has_ipv4 : Bool
  pub send_redirects : Bool
  pub all_send_redirects : Bool
  pub queues_started : Bool

-- `SKB_HEADER_LEN`; the kernel's NET_SKB_PAD depends on the machine
unfoldable pub skb_header_len : ℕ → ℕ
skb_header_len net_skb_pad = 40 + 8 + net_skb_pad

-- `OVPN_HEAD_ROOM`: aligned to 4
unfoldable pub head_room : ℕ → ℕ
unfolding skb_header_len
head_room net_skb_pad = (16 + skb_header_len net_skb_pad + 3) / 4 * 4

abbrev pub max_padding : ℕ
max_padding = 16

-- `feat` of `ovpn_setup`
abbrev feat : List Feature
feat =
    Feature.netif_f_sg ∷ Feature.netif_f_lltx ∷ Feature.netif_f_hw_csum ∷ Feature.netif_f_rxcsum
    ∷ Feature.netif_f_gso ∷ Feature.netif_f_gso_software ∷ Feature.netif_f_highdma ∷ []

-- `ovpn_setup`; a `|=` appends
unfoldable pub setup : ℕ → NetDevice → NetDevice
unfolding head_room
setup net_skb_pad dev = record dev {
  netdev_ops = NetDeviceOps.ovpn_netdev_ops;
  needs_free_netdev = true;
  hard_header_len = 0;
  addr_len = 0;
  mtu = eth_data_len - overhead;
  max_mtu = 2 ^ 31 - 1 - overhead;
  flags = Flag.iff_pointopoint ∷ Flag.iff_noarp ∷ Flag.iff_multicast ∷ [];
  features = dev.features ++ feat;
  hw_features = dev.hw_features ++ feat;
  hw_enc_features = dev.hw_enc_features ++ feat;
  needed_headroom = head_room net_skb_pad;
  needed_tailroom = max_padding;
}

-- `ovpn_dev_is_valid`
unfoldable pub dev_is_valid : NetDevice → Bool
dev_is_valid dev = elim dev.netdev_ops [
  | NetDeviceOps.ovpn_netdev_ops ↦ true
  | NetDeviceOps.other_netdev_ops ↦ false
]

-- `ovpn_net_open`: it always succeeds
unfoldable pub net_open : NetDevice → NetDevice
net_open dev = elim dev.has_ipv4 [
  | true ↦ record dev { send_redirects = false; all_send_redirects = false; queues_started = true }
  | false ↦ record dev { queues_started = true }
]

-- `ovpn_net_stop`
unfoldable pub net_stop : NetDevice → NetDevice
net_stop dev = record dev { queues_started = false }

-- What `ovpn_get_link_ksettings` reports: the constants of the kernel by name.
pub data Duplex : Type 0 where
  duplex_half duplex_full : Duplex

pub data Port : Type 0 where
  port_tp port_other : Port

pub record LinkSettings : Type 0 where
  pub supported : ℕ
  pub advertising : ℕ
  pub speed : ℕ
  pub duplex : Duplex
  pub port : Port
  pub phy_address : ℕ
  pub internal_transceiver : Bool
  pub autoneg : Bool

-- `ovpn_get_link_ksettings`
unfoldable pub get_link_ksettings : LinkSettings → LinkSettings
get_link_ksettings cmd = record cmd {
  supported = 0;
  advertising = 0;
  speed = 1000;
  duplex = Duplex.duplex_full;
  port = Port.port_tp;
  phy_address = 0;
  internal_transceiver = true;
  autoneg = false;
}
