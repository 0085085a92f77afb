-- ===== src/Netlink.antt =====
-- drivers/net/ovpn-dco/netlink.c: the commands of userspace. A command's attributes, once parsed by
-- the kernel against the policies, are a record of optional values; the attribute that nests them
-- may be missing or fail to parse. A device is the number of its interface.
pub mod Commands
pub mod Changes
pub mod Sessions
pub mod Packets
pub mod Peers
pub mod NewPeer
pub mod Sockets
pub mod Creation
pub mod Dump
pub mod Listener
pub mod Policy
pub mod DumpCalls
use ovpn_dco.Base.{
  ℕ, ◌+◌, ◌-◌, List, Bool, true, ◌&&◌, ◌||◌, not, Option, none, some, ◌==◌, if◌then◌else◌, update,
  Result, ok, err, Status, ◌>>=◌, einval, enoent, enodev,
}
use ovpn_dco.KeySlot.{KeyDirection, KeyConfig, PeerKeyReset}

-- an attribute that nests others
abbrev pub Nested {ℓ} : Type ℓ → Type ℓ
Nested A = Option (Result A)

-- the early returns for an attribute that is missing or does not parse
abbrev pub nested {ℓ} : {A : Type ℓ} → Nested A → Result A
nested none = err einval
nested (some parsed) = parsed

abbrev pub required {ℓ} : {A : Type ℓ} → Option A → Result A
required none = err einval
required (some a) = ok a

-- `ovpn_get_dev_from_attrs`: `devices` says of an index whether there is a device and whether it
-- is one of the driver's. The counts are those of the devices' references.
unfoldable pub get_dev_from_attrs : (ℕ → Option Bool) → (ℕ → ℕ) → Option ℕ → Result ℕ × (ℕ → ℕ)
get_dev_from_attrs devices refs none = (err einval, refs)
get_dev_from_attrs devices refs (some ifindex) = elim (devices ifindex) [
  | none ↦ (err enodev, refs)
  | some valid ↦
      let held = update refs ifindex (refs ifindex + 1) in
      if not valid then (err einval, update held ifindex (held ifindex - 1)) else (ok ifindex, held)
]

-- `ovpn_post_doit`
unfoldable pub post_doit : ℕ → (ℕ → ℕ) → ℕ → ℕ
post_doit ifindex refs = update refs ifindex (refs ifindex - 1)

-- A command between `ovpn_pre_doit` and `ovpn_post_doit`, which runs only after a success.
unfoldable pub doit : (ℕ → Option Bool) → (ℕ → ℕ) → Option ℕ → (ℕ → Status) → Status × (ℕ → ℕ)
unfolding get_dev_from_attrs post_doit
doit devices refs ifindex command =
    let (dev, refs') = get_dev_from_attrs devices refs ifindex in
    elim dev [ err e ↦ (err e, refs') | ok d ↦ (command d, post_doit d refs') ]

-- the attributes OVPN_KEY_DIR_ATTR
pub record KeyDirAttrs : Type 0 where
  pub cipher_key : Option (List ℕ)
  pub nonce_tail : Option (List ℕ)

-- `ovpn_netlink_get_key_dir`; 1 and 2 are the two ciphers
unfoldable pub get_key_dir : Result KeyDirAttrs → ℕ → Result KeyDirection
get_key_dir parsed cipher = do
  attrs ← parsed
  if (cipher == 1) || (cipher == 2)
      then (do
        cipher_key ← required attrs.cipher_key
        nonce_tail ← required attrs.nonce_tail
        ok (record { cipher_key = cipher_key; nonce_tail = nonce_tail }))
      else err einval

-- the attributes OVPN_NEW_KEY_ATTR; the key id is what `nla_get_u16` reads
pub record NewKeyAttrs : Type 0 where
  pub peer_id : Option ℕ
  pub key_slot : Option ℕ
  pub key_id : Option ℕ
  pub cipher_alg : Option ℕ
  pub encrypt_key : Option (Result KeyDirAttrs)
  pub decrypt_key : Option (Result KeyDirAttrs)

-- the checks of `ovpn_netlink_new_key`: the peer's id and the key
unfoldable pub new_key_args : Nested NewKeyAttrs → Result (ℕ × PeerKeyReset)
unfolding get_key_dir
new_key_args attr = do
  attrs ← nested attr
  peer_id ← required attrs.peer_id
  slot ← required attrs.key_slot
  key_id ← required attrs.key_id
  cipher_alg ← required attrs.cipher_alg
  encrypt_key ← required attrs.encrypt_key
  decrypt_key ← required attrs.decrypt_key
  encrypt ← get_key_dir encrypt_key cipher_alg
  decrypt ← get_key_dir decrypt_key cipher_alg
  ok (
    peer_id,
    record {
      slot = slot;
      key = record {
        cipher_alg = cipher_alg;
        key_id = key_id;
        encrypt = encrypt;
        decrypt = decrypt;
      };
    },
  )

-- the attributes OVPN_DEL_KEY_ATTR
pub record DelKeyAttrs : Type 0 where
  pub peer_id : Option ℕ
  pub key_slot : Option ℕ

abbrev pub del_key_args : Nested DelKeyAttrs → Result (ℕ × ℕ)
del_key_args attr = do
  attrs ← nested attr
  peer_id ← required attrs.peer_id
  slot ← required attrs.key_slot
  ok (peer_id, slot)

-- the attributes OVPN_SET_PEER_ATTR
pub record SetPeerAttrs : Type 0 where
  pub peer_id : Option ℕ
  pub keepalive_interval : Option ℕ
  pub keepalive_timeout : Option ℕ

abbrev pub set_peer_args : Nested SetPeerAttrs → Result (ℕ × Option ℕ × Option ℕ)
set_peer_args attr = do
  attrs ← nested attr
  peer_id ← required attrs.peer_id
  ok (peer_id, attrs.keepalive_interval, attrs.keepalive_timeout)

abbrev pub swap_keys_args : Nested (Option ℕ) → Result ℕ
swap_keys_args attr = nested attr >>= required
