-- ===== src/Aead/Header.antt =====
-- The layout of an encrypted packet, and that the other end decrypts it.
use ovpn_dco.Base.{
  ℕ, ◌+◌, ◌%◌, ◌^◌, ◌<◌, ◌≤◌, ◌≡◌, refl, List, ◌++◌, arith, true, false, Bool-cases, ◌⊎◌, inl, inr,
  length, ◌==◌, take-append, drop-append, Result, ok, err, Status,
}
use ovpn_dco.Proto.{
  data_v2, opcode_compose, htonl, ntohl_at, opcode_from_skb, key_id_from_skb, peer_id_from_skb,
}
use ovpn_dco.Proto.RoundTrip.{compose_fields}
use ovpn_dco.Pktid.{xmit_next, aead_write, seq_limit}
use ovpn_dco.KeySlot.{KeySlot}
use ovpn_dco.Aead.{CryptoApi, Buffers, prepare, seal_packet, unseal_packet, aead_encrypt}

-- A result of `ovpn_aead_encrypt` seen as head, tag and ciphertext.
pub record IsSealed (api : CryptoApi) (ks : KeySlot) (peer_id pktid : ℕ) (payload skb : List ℕ)
    : Type 0 where
  pub ciphertext : List ℕ
  pub tag : List ℕ
  pub sealed :
      api.seal ks.encrypt
        (htonl pktid ++ ks.nonce_tail_xmit)
        (htonl (opcode_compose data_v2 ks.key_id peer_id) ++ htonl pktid)
        payload
      ≡ ok (ciphertext, tag)
  pub bytes :
      skb ≡ (htonl (opcode_compose data_v2 ks.key_id peer_id) ++ htonl pktid) ++ (tag ++ ciphertext)

seal_packet-IsSealed :
    (api : CryptoApi) (ks : KeySlot) (pktid peer_id : ℕ) (payload skb : List ℕ)
    → seal_packet api ks pktid peer_id payload ≡ ok skb
    → IsSealed api ks peer_id pktid payload skb
unfolding seal_packet aead_write
seal_packet-IsSealed api ks pktid peer_id payload skb e =
    go
      (api.seal ks.encrypt (htonl pktid ++ ks.nonce_tail_xmit)
        (htonl (opcode_compose data_v2 ks.key_id peer_id) ++ htonl pktid) payload)
      refl
  where
    go :
        (r : Result (List ℕ × List ℕ))
        → api.seal ks.encrypt
            (htonl pktid ++ ks.nonce_tail_xmit)
            (htonl (opcode_compose data_v2 ks.key_id peer_id) ++ htonl pktid)
            payload
          ≡ r
        → IsSealed api ks peer_id pktid payload skb
    go (err x) s = cc
    go (ok (c, t)) s = record { ciphertext = c; tag = t; sealed = s; bytes = ground arith }

pub aead_encrypt-IsSealed :
    (api : CryptoApi) (b : Buffers) (ks : KeySlot) (peer_id : ℕ) (payload skb : List ℕ)
    → ks.pid_xmit.seq_num ≤ seq_limit
    → (aead_encrypt api b ks payload peer_id).0 ≡ ok skb
    → (ks.pid_xmit.seq_num < 2 ^ 32)
      × (prepare b ≡ ok tt)
      × IsSealed api ks peer_id ks.pid_xmit.seq_num payload skb
unfolding aead_encrypt xmit_next
aead_encrypt-IsSealed api b ks peer_id payload skb h e =
    go (prepare b) refl (Bool-cases (ks.pid_xmit.seq_num == seq_limit))
  where
    go :
        (r : Status)
        → prepare b ≡ r
        → ((ks.pid_xmit.seq_num == seq_limit) ≡ true) ⊎ ((ks.pid_xmit.seq_num == seq_limit) ≡ false)
        → (ks.pid_xmit.seq_num < 2 ^ 32)
          × (prepare b ≡ ok tt)
          × IsSealed api ks peer_id ks.pid_xmit.seq_num payload skb
    go (err x) p _ = absurd (ground arith)
    go (ok tt) p (inl full) = absurd (ground arith)
    go (ok tt) p (inr left) =
        let same : ks.pid_xmit.seq_num % 2 ^ 32 ≡ ks.pid_xmit.seq_num = ground arith in
        (
          ground arith,
          p,
          seal_packet-IsSealed api ks ks.pid_xmit.seq_num peer_id payload skb
              (ground (arith, same)),
        )

pub word_at_four :
    (word pktid : ℕ) (rest : List ℕ)
    → pktid < 2 ^ 32
    → ntohl_at ((htonl word ++ htonl pktid) ++ rest) 4 ≡ pktid
unfolding ntohl_at
word_at_four word pktid rest h = omega arith

-- Where the key id is below 8 and the peer id below 2 ^ 24, as the header holds them, and the
-- packet ids are not past their limit: a packet that `ovpn_aead_encrypt` produces starts with the
-- DATA_V2 opcode, the key id and the peer id, carries as packet id the next number of the key's
-- sequence, which it uses up, and is longer than the ciphertext by 8 bytes and the tag.
pub encrypt_layout :
    (api : CryptoApi) (b : Buffers) (ks : KeySlot) (peer_id : ℕ) (payload skb : List ℕ)
    → ks.pid_xmit.seq_num ≤ seq_limit
    → ks.key_id < 8
    → peer_id < 2 ^ 24
    → (aead_encrypt api b ks payload peer_id).0 ≡ ok skb
    → (opcode_from_skb skb 0 ≡ data_v2)
      × (key_id_from_skb skb ≡ ks.key_id)
      × (peer_id_from_skb skb 0 ≡ peer_id)
      × (ntohl_at skb 4 ≡ ks.pid_xmit.seq_num)
      × ((aead_encrypt api b ks payload peer_id).1.pid_xmit.seq_num ≡ ks.pid_xmit.seq_num + 1)
      × IsSealed api ks peer_id ks.pid_xmit.seq_num payload skb
unfolding opcode_from_skb key_id_from_skb peer_id_from_skb
encrypt_layout api b ks peer_id payload skb hs hk hp e =
    let (small, ready, sealed) = aead_encrypt-IsSealed api b ks peer_id payload skb hs e in
    let op = opcode_compose data_v2 ks.key_id peer_id in
    let fields = compose_fields data_v2 ks.key_id peer_id (omega arith) hk hp in
    let tail = sealed.tag ++ sealed.ciphertext in
    (
      rw sealed.bytes fields.0,
      rw sealed.bytes fields.1,
      rw sealed.bytes fields.2,
      rw sealed.bytes (word_at_four op ks.pid_xmit.seq_num tail small),
      used_up ks small ready,
      sealed,
    )
  where
    used_up :
        (k : KeySlot)
        → k.pid_xmit.seq_num < 2 ^ 32
        → prepare b ≡ ok tt
        → (aead_encrypt api b k payload peer_id).1.pid_xmit.seq_num ≡ k.pid_xmit.seq_num + 1
    used_up k small ready = unfold aead_encrypt xmit_next in ground arith

-- What the cipher is relied on for: `unseal` takes back what `seal` made under the same IV and
-- associated data, and a tag has the length of the receiving object's `authsize`.
pub record IsPaired (api : CryptoApi) (ks kr : KeySlot) : Type 0 where
  pub inverse :
      (iv ad text ciphertext tag : List ℕ)
      → api.seal ks.encrypt iv ad text ≡ ok (ciphertext, tag)
      → api.unseal kr.decrypt iv ad ciphertext tag ≡ ok text
  pub tag_length :
      (iv ad text ciphertext tag : List ℕ)
      → api.seal ks.encrypt iv ad text ≡ ok (ciphertext, tag)
      → length tag ≡ api.authsize kr.decrypt
  pub nonce_tails : ks.nonce_tail_xmit ≡ kr.nonce_tail_recv

pub unseal_packet-sealed :
    (api : CryptoApi) (ks kr : KeySlot) (peer_id pktid : ℕ) (payload skb : List ℕ)
    → IsPaired api ks kr
    → IsSealed api ks peer_id pktid payload skb
    → unseal_packet api kr skb ≡ ok payload
unfolding unseal_packet
unseal_packet-sealed api ks kr peer_id pktid payload skb pair s =
    let n = pair.tag_length _ _ _ _ _ s.sealed in
    rw
      (
        s.bytes,
        unseal_packet,
        drop-append s.tag s.ciphertext (api.authsize kr.decrypt) n,
        take-append s.tag s.ciphertext (api.authsize kr.decrypt) n,
        ← pair.nonce_tails,
      )
      (pair.inverse _ _ _ _ _ s.sealed)
