-- ===== src/KeySlot.antt =====
-- drivers/net/ovpn-dco/crypto.h: the structures of the data channel's keys. A byte string carries
-- its own length, so `cipher_key_size` and `nonce_tail_size` are lengths of lists; a configured
-- cipher object of the kernel's crypto API is a number that stands for it.
use ovpn_dco.Base.{ℕ, List}
use ovpn_dco.Pktid.{PktidRecv, PktidXmit}

-- `struct ovpn_key_direction`
pub record KeyDirection : Type 0 where
  pub cipher_key : List ℕ
  pub nonce_tail : List ℕ

-- `struct ovpn_key_config`; `cipher_alg` is the number of `enum ovpn_cipher_alg`
pub record KeyConfig : Type 0 where
  pub cipher_alg : ℕ
  pub key_id : ℕ
  pub encrypt : KeyDirection
  pub decrypt : KeyDirection

-- `struct ovpn_peer_key_reset`; `slot` is the number of `enum ovpn_key_slot`
pub record PeerKeyReset : Type 0 where
  pub slot : ℕ
  pub key : KeyConfig

-- `struct ovpn_crypto_key_slot`
pub record KeySlot : Type 0 where
  pub key_id : ℕ
  pub encrypt : ℕ
  pub decrypt : ℕ
  pub nonce_tail_xmit : List ℕ
  pub nonce_tail_recv : List ℕ
  pub pid_recv : PktidRecv
  pub pid_xmit : PktidXmit
  pub refcount : ℕ
