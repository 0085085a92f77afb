-- ===== src/Aead.antt =====
-- drivers/net/ovpn-dco/crypto_aead.c: a key slot built from a configuration, and one packet
-- encrypted or decrypted with it. The kernel's crypto API and its buffer management are not part
-- of the repository: they are the records `CryptoApi` and `Buffers`, arguments of the functions
-- that call them. A packet is the list of its bytes.
pub mod Header
pub mod Replay
use ovpn_dco.Base.{
  ℕ, ◌+◌, ◌-◌, ◌%◌, ◌^◌, List, Bool, ◌++◌, length, take, drop, ltb, ◌==◌, if◌then◌else◌, ◌||◌, not,
  Result, ok, err, Status, einval, enomem, enobufs, enospc, enodata, eopnotsupp, ◌>>=◌, ◌>>◌,
}
use ovpn_dco.Proto.{data_v2, op_size_v2, opcode_compose, htonl, ntohl_at}
use ovpn_dco.Pktid.{xmit_init, xmit_next, recv_init, recv, aead_write}
use ovpn_dco.KeySlot.{KeyDirection, KeyConfig, KeySlot}

abbrev pub auth_tag_size : ℕ
auth_tag_size = 16

abbrev pub nonce_size : ℕ
nonce_size = 12

abbrev pub nonce_tail_size : ℕ
nonce_tail_size = 8

abbrev pub nonce_wire_size : ℕ
nonce_wire_size = nonce_size - nonce_tail_size

pub data AlgName : Type 0 where
  gcm_aes chacha20_poly1305 : AlgName

-- The calls of the kernel's crypto API. The two `set` calls return the configured object. `seal`
-- takes the object, the IV, the associated data and the plaintext, and gives the ciphertext and
-- the tag; `unseal` takes them back.
pub record CryptoApi : Type 0 where
  pub alloc_slot : Bool
  pub alloc_aead : AlgName → Result ℕ
  pub setkey : ℕ → List ℕ → Result ℕ
  pub setauthsize : ℕ → ℕ → Result ℕ
  pub ivsize : ℕ → ℕ
  pub authsize : ℕ → ℕ
  pub seal : ℕ → List ℕ → List ℕ → List ℕ → Result (List ℕ × List ℕ)
  pub unseal : ℕ → List ℕ → List ℕ → List ℕ → List ℕ → Result (List ℕ)

-- What the socket buffer and memory calls return for one packet: `skb_cow_head`,
-- `skb_cow_data`, `skb_to_sgvec_nomark`, `aead_request_alloc` and `pskb_may_pull`; and the size of
-- the scatterlist, MAX_SKB_FRAGS + 2.
pub record Buffers : Type 0 where
  pub cow_head : Bool
  pub cow_data : Result ℕ
  pub to_sgvec : ℕ
  pub request_alloc : Bool
  pub may_pull : Bool
  pub sg_size : ℕ

abbrev pub guard : Bool → Result (Unit {0}) → Result (Unit {0})
guard test fail = if test then ok tt else fail

-- `ovpn_aead_init`; the error path frees the object that failed to configure
unfoldable pub aead_init : CryptoApi → AlgName → List ℕ → Result ℕ
aead_init api alg_name key = do
  aead ← api.alloc_aead alg_name
  keyed ← api.setkey aead key
  sized ← api.setauthsize keyed auth_tag_size
  guard (api.ivsize sized == nonce_size) (err einval)
  ok sized

unfoldable pub alg_name_of : ℕ → Result AlgName
alg_name_of alg =
    if alg == 1
    then ok AlgName.gcm_aes
    else (if alg == 2 then ok AlgName.chacha20_poly1305 else err eopnotsupp)

-- `ovpn_aead_crypto_key_slot_init` with the arguments that `ovpn_aead_crypto_key_slot_new` gives it
unfoldable pub key_slot_new : CryptoApi → KeyConfig → Result KeySlot
key_slot_new api kc = do
  alg_name ← alg_name_of kc.cipher_alg
  guard api.alloc_slot (err enomem)
  encrypt ← aead_init api alg_name kc.encrypt.cipher_key
  decrypt ← aead_init api alg_name kc.decrypt.cipher_key
  guard
      (not (
        not (length kc.encrypt.nonce_tail == nonce_tail_size)
        || not (length kc.decrypt.nonce_tail == nonce_tail_size)))
      (err einval)
  ok (record {
    key_id = kc.key_id % 2 ^ 8;
    encrypt = encrypt;
    decrypt = decrypt;
    nonce_tail_xmit = kc.encrypt.nonce_tail;
    nonce_tail_recv = kc.decrypt.nonce_tail;
    pid_recv = recv_init;
    pid_xmit = xmit_init;
    refcount = 1;
  })

-- `ovpn_aead_encap_overhead`
unfoldable pub encap_overhead : CryptoApi → KeySlot → ℕ
encap_overhead api ks = op_size_v2 + 4 + api.authsize ks.encrypt

-- the checks that come before the packet id is taken
unfoldable pub prepare : Buffers → Status
prepare b = do
  guard b.cow_head (err enobufs)
  nfrags ← b.cow_data
  guard (not (ltb b.sg_size (nfrags + 2))) (err enospc)
  guard b.request_alloc (err enomem)
  guard (nfrags == b.to_sgvec) (err einval)

-- the packet once its id is known: op, id and tag in front of the ciphertext
unfoldable pub seal_packet : CryptoApi → KeySlot → ℕ → ℕ → List ℕ → Result (List ℕ)
seal_packet api ks pktid peer_id payload = do
  let iv = aead_write pktid ks.nonce_tail_xmit
  let op = opcode_compose data_v2 ks.key_id peer_id
  let head = htonl op ++ take nonce_wire_size iv
  (ciphertext, tag) ← api.seal ks.encrypt iv head payload
  ok (head ++ (tag ++ ciphertext))

-- `ovpn_aead_encrypt`. The id stays used up when the cipher fails after it.
unfoldable pub aead_encrypt : CryptoApi → Buffers → KeySlot → List ℕ → ℕ → Result (List ℕ) × KeySlot
aead_encrypt api b ks skb peer_id = elim (prepare b) [
  | err e ↦ (err e, ks)
  | ok _ ↦
      let (ret, pid_xmit) = xmit_next ks.pid_xmit in
      (ret >>= λ pktid. seal_packet api ks pktid peer_id skb, record ks { pid_xmit = pid_xmit })
]

-- the checks of the decryption; `nfrags` is compared as in the other direction
unfoldable pub prepare_decrypt : Buffers → ℕ → ℕ → Status
prepare_decrypt b len payload_offset = do
  guard (not (ltb len payload_offset)) (err einval)
  guard b.may_pull (err enodata)
  nfrags ← b.cow_data
  guard (not (ltb b.sg_size (nfrags + 2))) (err enospc)
  guard b.request_alloc (err enomem)
  guard (nfrags == b.to_sgvec) (err einval)

-- the plaintext of a packet whose tag is right
unfoldable pub unseal_packet : CryptoApi → KeySlot → List ℕ → Result (List ℕ)
unseal_packet api ks skb =
    let head = take (op_size_v2 + nonce_wire_size) skb in
    let rest = drop (op_size_v2 + nonce_wire_size) skb in
    let tag_size = api.authsize ks.decrypt in
    let iv = take nonce_wire_size (drop op_size_v2 skb) ++ ks.nonce_tail_recv in
    api.unseal ks.decrypt iv head (drop tag_size rest) (take tag_size rest)

-- the window is asked only about authenticated ids; the time stamp is always 0
unfoldable pub check_replay : ℕ → ℕ → KeySlot → List ℕ → List ℕ → Result (List ℕ) × KeySlot
check_replay hz now ks skb plaintext =
    let (ret, pid_recv) = recv hz ks.pid_recv now (ntohl_at skb op_size_v2) 0 in
    (ret >> ok plaintext, record ks { pid_recv = pid_recv })

-- `ovpn_aead_decrypt`
unfoldable pub aead_decrypt :
    CryptoApi → Buffers → ℕ → ℕ → KeySlot → List ℕ → Result (List ℕ) × KeySlot
aead_decrypt api b hz now ks skb =
    let payload_offset = op_size_v2 + nonce_wire_size + api.authsize ks.decrypt in
    elim (prepare_decrypt b (length skb) payload_offset >> unseal_packet api ks skb) [
      | err e ↦ (err e, ks)
      | ok plaintext ↦ check_replay hz now ks skb plaintext
    ]
