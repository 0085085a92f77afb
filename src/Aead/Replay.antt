-- ===== src/Aead/Replay.antt =====
-- Decryption and the replay window: a packet that was sent is recovered, a forged one changes
-- nothing, and over any run of packets no packet id is delivered twice under one key.
use ovpn_dco.Base.{
  ℕ, ◌+◌, ◌^◌, ◌<◌, ◌≤◌, ◌≡◌, refl, sym, ◌∙◌, List, [], ◌∷◌, ◌++◌, arith, true, length,
  length-append, Result, ok, err, Status, ◌⊎◌, inl, inr, Errno,
}
use ovpn_dco.Proto.{ntohl_at}
use ovpn_dco.Pktid.{recv, recv_init, seq_limit}
use ovpn_dco.Pktid.Steps.{Tracks}
use ovpn_dco.Pktid.Replay.{logged, verdict, recv_lem}
use ovpn_dco.Pktid.Runs.{AllDistinct, verdict-unseen, recv_init-Tracks}
use ovpn_dco.KeySlot.{KeySlot}
use ovpn_dco.Aead.{
  CryptoApi, Buffers, prepare, prepare_decrypt, unseal_packet, aead_encrypt, aead_decrypt,
  check_replay,
}
use ovpn_dco.Aead.Header.{
  IsSealed, IsPaired, aead_encrypt-IsSealed, unseal_packet-sealed, word_at_four,
}

prepare_decrypt-ok :
    (b : Buffers) (len offset : ℕ)
    → prepare b ≡ ok tt
    → b.may_pull ≡ true
    → offset ≤ len
    → prepare_decrypt b len offset ≡ ok tt
unfolding prepare prepare_decrypt
prepare_decrypt-ok b len offset p m h = ground arith

sealed_length :
    (api : CryptoApi) (ks kr : KeySlot) (peer_id pktid : ℕ) (payload skb : List ℕ)
    → IsPaired api ks kr
    → IsSealed api ks peer_id pktid payload skb
    → 8 + api.authsize kr.decrypt ≤ length skb
sealed_length api ks kr peer_id pktid payload skb pair s =
    let n = pair.tag_length _ _ _ _ _ s.sealed in
    rw s.bytes (omega (arith, n, length-append s.tag s.ciphertext))

decrypt-ready :
    (api : CryptoApi) (b : Buffers) (hz now : ℕ) (ks : KeySlot) (skb text : List ℕ)
    → prepare_decrypt b (length skb) (8 + api.authsize ks.decrypt) ≡ ok tt
    → unseal_packet api ks skb ≡ ok text
    → aead_decrypt api b hz now ks skb ≡ check_replay hz now ks skb text
unfolding aead_decrypt
decrypt-ready api b hz now ks skb text p u = rw (p, aead_decrypt) (rw (u, aead_decrypt))

-- A packet sealed under one key slot is decrypted to its payload by the slot paired with it, if
-- the receive window accepts its packet id and the buffer calls succeed.
pub decrypt-encrypt :
    (api : CryptoApi) (b b' : Buffers) (hz now peer_id : ℕ) (ks kr : KeySlot) (payload skb : List ℕ)
    → IsPaired api ks kr
    → ks.pid_xmit.seq_num ≤ seq_limit
    → prepare b' ≡ ok tt
    → b'.may_pull ≡ true
    → (aead_encrypt api b ks payload peer_id).0 ≡ ok skb
    → (recv hz kr.pid_recv now ks.pid_xmit.seq_num 0).0 ≡ ok tt
    → (aead_decrypt api b' hz now kr skb).0 ≡ ok payload
unfolding check_replay
decrypt-encrypt api b b' hz now peer_id ks kr payload skb pair hs ready pull e fresh =
    let (small, _, s) = aead_encrypt-IsSealed api b ks peer_id payload skb hs e in
    let pid : ntohl_at skb 4 ≡ ks.pid_xmit.seq_num =
      rw s.bytes (word_at_four _ ks.pid_xmit.seq_num (s.tag ++ s.ciphertext) small) in
    rw (
      decrypt-ready api b' hz now kr skb payload
          (prepare_decrypt-ok b' _ _ ready pull
            (sealed_length api ks kr peer_id _ payload skb pair s))
          (unseal_packet-sealed api ks kr peer_id _ payload skb pair s),
      check_replay,
      pid,
      fresh,
    )

-- How a decryption ends: with the slot untouched, or at the replay check.
decrypt_cases :
    (api : CryptoApi) (b : Buffers) (hz now : ℕ) (ks : KeySlot) (skb : List ℕ)
    → ((e : Errno) × (aead_decrypt api b hz now ks skb ≡ (err e, ks)))
      ⊎ ((text : List ℕ) × (unseal_packet api ks skb ≡ ok text)
          × (aead_decrypt api b hz now ks skb ≡ check_replay hz now ks skb text))
unfolding aead_decrypt
decrypt_cases api b hz now ks skb =
    go (prepare_decrypt b (length skb) (8 + api.authsize ks.decrypt)) refl
      (unseal_packet api ks skb) refl
  where
    go :
        (p : Status)
        → prepare_decrypt b (length skb) (8 + api.authsize ks.decrypt) ≡ p
        → (u : Result (List ℕ)) → unseal_packet api ks skb ≡ u
        → ((e : Errno) × (aead_decrypt api b hz now ks skb ≡ (err e, ks)))
          ⊎ ((text : List ℕ) × (unseal_packet api ks skb ≡ ok text)
              × (aead_decrypt api b hz now ks skb ≡ check_replay hz now ks skb text))
    go (err e) hp u hu = inl (e, rw (hp, aead_decrypt))
    go (ok tt) hp (err e) hu = inl (e, rw (hp, aead_decrypt) (rw (hu, aead_decrypt)))
    go (ok tt) hp (ok text) hu = inr (text, hu, rw (hp, aead_decrypt) (rw (hu, aead_decrypt)))

-- A packet that fails authentication is not delivered and leaves the key slot as it was, its
-- replay window and counters included.
pub decrypt_forged :
    (api : CryptoApi) (b : Buffers) (hz now : ℕ) (ks : KeySlot) (skb : List ℕ) (e : Errno)
    → unseal_packet api ks skb ≡ err e
    → (f : Errno) × (aead_decrypt api b hz now ks skb ≡ (err f, ks))
decrypt_forged api b hz now ks skb e bad = elim (decrypt_cases api b hz now ks skb) [
  | inl refused ↦ refused
  | inr (text, good, _) ↦ absurd (ground (arith, bad, good))
]

-- One decryption against the packet ids delivered before.
abbrev pub delivers : Result (List ℕ) → ℕ → List (ℕ × ℕ) → List (ℕ × ℕ)
delivers (ok _) pktid acc = (0, pktid) ∷ acc
delivers (err _) pktid acc = acc

record Step (ks : KeySlot) (pktid : ℕ) (acc : List (ℕ × ℕ)) (r : Result (List ℕ) × KeySlot)
    : Type 0 where
  tracks : Tracks r.1.pid_recv (delivers r.0 pktid acc)
  distinct : AllDistinct acc → AllDistinct (delivers r.0 pktid acc)

check_replay-Step :
    (hz now : ℕ) (ks : KeySlot) (skb text : List ℕ) (acc : List (ℕ × ℕ))
    → Tracks ks.pid_recv acc
    → ntohl_at skb 4 < 2 ^ 32
    → Step ks (ntohl_at skb 4) acc (check_replay hz now ks skb text)
unfolding check_replay
check_replay-Step hz now ks skb text acc v h =
    let (ret, kept) = recv_lem hz now (ntohl_at skb 4) 0 v h in
    go (recv hz ks.pid_recv now (ntohl_at skb 4) 0).0 refl ret kept
  where
    pid : ℕ
    pid = ntohl_at skb 4

    go :
        (r : Status)
        → (recv hz ks.pid_recv now pid 0).0 ≡ r
        → (recv hz ks.pid_recv now pid 0).0 ≡ verdict ks.pid_recv acc now pid 0
        → Tracks
            (recv hz ks.pid_recv now pid 0).1
            (logged (recv hz ks.pid_recv now pid 0).0 (0, pid) acc)
        → Step ks pid acc (check_replay hz now ks skb text)
    go (ok tt) e q t = record {
      tracks = rw (e, check_replay) (rw e at t);
      distinct = λ d. rw (e, check_replay) (verdict-unseen now pid 0 v (sym q ∙ e), d);
    }
    go (err f) e q t = record {
      tracks = rw (e, check_replay) (rw e at t);
      distinct = λ d. rw (e, check_replay) d;
    }

decrypt-Step :
    (api : CryptoApi) (b : Buffers) (hz now : ℕ) (ks : KeySlot) (skb : List ℕ) (acc : List (ℕ × ℕ))
    → Tracks ks.pid_recv acc
    → ntohl_at skb 4 < 2 ^ 32
    → Step ks (ntohl_at skb 4) acc (aead_decrypt api b hz now ks skb)
decrypt-Step api b hz now ks skb acc v h = elim (decrypt_cases api b hz now ks skb) [
  | inl (e, refused) ↦ rw refused (record { tracks = v; distinct = λ d. d })
  | inr (text, _, opened) ↦ rw opened (check_replay-Step hz now ks skb text acc v h)
]

-- The packet ids that a run of packets delivers under one key slot, newest first.
pub delivered : CryptoApi → ℕ → KeySlot → List (ℕ × ℕ) → List (ℕ × Buffers × List ℕ) → List (ℕ × ℕ)
delivered api hz ks acc [] = acc
delivered api hz ks acc ((now, b, skb) ∷ packets) =
    let (ret, ks') = aead_decrypt api b hz now ks skb in
    delivered api hz ks' (delivers ret (ntohl_at skb 4) acc) packets

abbrev pub HaveU32 : List (ℕ × Buffers × List ℕ) → Type 0
HaveU32 [] = Unit {0}
HaveU32 ((now, b, skb) ∷ packets) = (ntohl_at skb 4 < 2 ^ 32) × HaveU32 packets

delivered-AllDistinct :
    (api : CryptoApi) (hz : ℕ) (packets : List (ℕ × Buffers × List ℕ)) (ks : KeySlot)
    (acc : List (ℕ × ℕ))
    → Tracks ks.pid_recv acc
    → AllDistinct acc
    → HaveU32 packets
    → AllDistinct (delivered api hz ks acc packets)
unfolding delivered
delivered-AllDistinct api hz [] ks acc v d h = d
delivered-AllDistinct api hz ((now, b, skb) ∷ packets) ks acc v d h =
    let step = decrypt-Step api b hz now ks skb acc v h.0 in
    delivered-AllDistinct api hz packets (aead_decrypt api b hz now ks skb).1 _ step.tracks
      (step.distinct d) h.1

-- Whatever packets arrive, in whatever order, with packet ids of 32 bits, a key slot with a fresh
-- receive window delivers no packet id more than once.
pub delivered_once :
    (api : CryptoApi) (hz : ℕ) (packets : List (ℕ × Buffers × List ℕ)) (ks : KeySlot)
    → ks.pid_recv ≡ recv_init
    → HaveU32 packets
    → AllDistinct (delivered api hz ks [] packets)
delivered_once api hz packets ks e h =
    delivered-AllDistinct api hz packets ks [] (rw e recv_init-Tracks) tt h
