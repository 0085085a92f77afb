-- ===== src/Data/Keys.antt =====
-- What the handling of a packet does to the key slots of its peer.
use ovpn_dco.Base.{
  ℕ, List, ◌≡◌, refl, sym, ◌∙◌, arith, Option, none, some, if◌then◌else◌, Bool-cases, inl, inr,
  update, Result, err, eperm,
}
use ovpn_dco.KeySlot.{KeySlot}
use ovpn_dco.Aead.{CryptoApi, Buffers, aead_decrypt, aead_encrypt, check_replay}
use ovpn_dco.Crypto.{CryptoState, slot_put, key_id_to_slot, slot_primary}
use ovpn_dco.Crypto.Refs.{
  IsCounted, Ensures, Ensures->>=, Ensures-map, gain, SamePointers, slot_put-IsCounted,
}
use ovpn_dco.Crypto.Slots.{Kept, chosen, key_id_to_slot_lem, slot_primary_lem}
use ovpn_dco.Crypto.Keys.{kill_primary_keeps}
use ovpn_dco.Proto.{key_id_from_skb}
use ovpn_dco.Peer.{Peer}
use ovpn_dco.Data.{Kernel, Handling}
use ovpn_dco.Data.Receive.{decrypt_with, open_one}
use ovpn_dco.Data.Transmit.{encrypt_with, encrypt_one, kill_exhausted, is_erange}

decrypt_refcount :
    (api : CryptoApi) (b : Buffers) (hz now : ℕ) (ks : KeySlot) (skb : List ℕ)
    → (aead_decrypt api b hz now ks skb).1.refcount ≡ ks.refcount
unfolding aead_decrypt check_replay
decrypt_refcount api b hz now ks skb = ground arith

pub encrypt_refcount :
    (api : CryptoApi) (b : Buffers) (ks : KeySlot) (skb : List ℕ) (id : ℕ)
    → (aead_encrypt api b ks skb id).1.refcount ≡ ks.refcount
unfolding aead_encrypt
encrypt_refcount api b ks skb id = ground arith

-- A slot that is replaced by one with the same count.
pub store-IsCounted :
    (cs : CryptoState) (held : ℕ → ℕ) (p : ℕ) (ks ks' : KeySlot)
    → cs.slots p ≡ some ks
    → ks'.refcount ≡ ks.refcount
    → IsCounted cs held
    → IsCounted (record cs { slots = update cs.slots p (some ks') }) held
store-IsCounted cs held p ks ks' e same v = record {
  counted = λ q. ground (arith, v.counted q, e, same);
  unused = λ q h. ground (arith, v.unused q, e);
}

pub holds_some :
    (cs : CryptoState) (held : ℕ → ℕ) (p : ℕ)
    → IsCounted cs (gain (some p) held)
    → (ks : KeySlot) × (cs.slots p ≡ some ks)
holds_some cs held p v = go (cs.slots p) refl
  where
    go : (o : Option KeySlot) → cs.slots p ≡ o → (ks : KeySlot) × (cs.slots p ≡ some ks)
    go none e = absurd (ground (arith, v.counted p, e))
    go (some ks) e = (ks, e)

pub decrypt_with-IsCounted :
    (k : Kernel) (h : Handling) (cs : CryptoState) (held : ℕ → ℕ) (p : ℕ) (skb : List ℕ)
    → IsCounted cs (gain (some p) held)
    → Ensures (λ r. IsCounted r.1 held × SamePointers cs r.1) (decrypt_with k h cs p skb)
unfolding decrypt_with
decrypt_with-IsCounted k h cs held p skb v =
    let (ks, e) = holds_some cs held p v in
    let (ret, ks') = aead_decrypt k.api h.buffers k.hz h.now ks skb in
    let stored =
      store-IsCounted cs (gain (some p) held) p ks ks' e
        (decrypt_refcount k.api h.buffers k.hz h.now ks skb) v in
    rw (e, decrypt_with)
      (Ensures->>= _ _ (slot_put (record cs { slots = update cs.slots p (some ks') }) p) _
        (slot_put-IsCounted _ held p stored) (λ _ r. r))

-- The decryption of a packet never faults, and takes and drops one reference to the key slot.
pub open_one-IsCounted :
    (k : Kernel) (h : Handling) (cs : CryptoState) (held : ℕ → ℕ) (skb : List ℕ)
    → IsCounted cs held
    → Ensures (λ r. IsCounted r.1 held × SamePointers cs r.1) (open_one k h cs skb)
unfolding open_one
open_one-IsCounted k h cs held skb v =
    Ensures->>= _ _ (key_id_to_slot cs (key_id_from_skb skb)) _
      (key_id_to_slot_lem cs held (key_id_from_skb skb) v) taken
  where
    taken :
        (r : Option ℕ × CryptoState)
        → (r.0 ≡ chosen cs (key_id_from_skb skb)) × Kept held r × SamePointers cs r.1
        → Ensures
            (λ (s : Result (List ℕ) × CryptoState). IsCounted s.1 held × SamePointers cs s.1)
            (elim r.0 [ none ↦ some (err eperm, r.1) | some p ↦ decrypt_with k h r.1 p skb ])
    taken (none, cs') (e, v', same) =
        (record { counted = λ q. ground (arith, v'.counted q); unused = v'.unused }, same)
    taken (some p, cs') (e, v', same) =
        Ensures-map
          (λ (s : Result (List ℕ) × CryptoState). IsCounted s.1 held × SamePointers cs' s.1) _ _
          (decrypt_with-IsCounted k h cs' held p skb v')
          (λ (a : Result (List ℕ) × CryptoState) s. (s.0, (s.1.0 ∙ same.0, s.1.1 ∙ same.1)))

pub kill_exhausted-IsCounted :
    (ret : Result (List ℕ)) (cs : CryptoState) (held : ℕ → ℕ) (p : ℕ)
    → IsCounted cs held
    → cs.primary ≡ some p
    → Ensures
        (λ cs'.
          IsCounted cs' held
          × (cs'.secondary ≡ cs.secondary)
          × (cs'.primary ≡ (if is_erange ret then none else cs.primary)))
        (kill_exhausted ret cs)
unfolding kill_exhausted
kill_exhausted-IsCounted ret cs held p v e = elim (Bool-cases (is_erange ret)) [
  | inl z ↦
      rw (z, kill_exhausted)
        (Ensures-map (λ cs'. IsCounted cs' held × SamePointers (record cs { primary = none }) cs') _
          _ (kill_primary_keeps cs held p v e) (λ _ h. (h.0, h.1.1, h.1.0)))
  | inr z ↦ rw (z, kill_exhausted) (v, refl, refl)
]

-- what the encryption of a packet of a length leaves of the peer
abbrev pub Encrypted : Peer → (ℕ → ℕ) → Peer → Type 0
Encrypted pr held pr' =
    IsCounted pr'.crypto held
    × (pr'.refcount ≡ pr.refcount)
    × (pr'.crypto.secondary ≡ pr.crypto.secondary)

encrypt_with-Encrypted :
    (k : Kernel) (h : Handling) (pr : Peer) (held : ℕ → ℕ) (p : ℕ) (skb : List ℕ)
    → IsCounted pr.crypto (gain (some p) held)
    → pr.crypto.primary ≡ some p
    → Ensures (λ r. Encrypted pr held r.1) (encrypt_with k h pr p skb)
unfolding encrypt_with
encrypt_with-Encrypted k h pr held p skb v e =
    let cs = pr.crypto in
    let (ks, f) = holds_some cs held p v in
    let (ret, ks') = aead_encrypt k.api h.buffers ks skb pr.id in
    let stored =
      store-IsCounted cs (gain (some p) held) p ks ks' f
        (encrypt_refcount k.api h.buffers ks skb pr.id) v in
    elim (Bool-cases h.checksum) [
      | inr c ↦
          rw (c, encrypt_with)
            (Ensures->>= _ _ (slot_put cs p) _ (slot_put-IsCounted cs held p v)
              (λ cs' r. (r.0, refl, r.1.1)))
      | inl c ↦
          rw (c, encrypt_with)
            (rw (f, encrypt_with)
              (Ensures->>= _ _
                (kill_exhausted ret (record cs { slots = update cs.slots p (some ks') })) _
                (kill_exhausted-IsCounted ret _ (gain (some p) held) p stored e)
                (λ cs' r.
                  Ensures->>= _ _ (slot_put cs' p) _ (slot_put-IsCounted cs' held p r.0)
                    (λ cs'' s. (s.0, refl, s.1.1 ∙ r.1)))))
    ]

pub encrypt_one-Encrypted :
    (k : Kernel) (h : Handling) (pr : Peer) (held : ℕ → ℕ) (skb : List ℕ)
    → IsCounted pr.crypto held
    → Ensures (λ r. Encrypted pr held r.1) (encrypt_one k h pr skb)
unfolding encrypt_one
encrypt_one-Encrypted k h pr held skb v =
    Ensures->>= _ _ (slot_primary pr.crypto) _ (slot_primary_lem pr.crypto held v) taken
  where
    taken :
        (r : Option ℕ × CryptoState)
        → (r.0 ≡ pr.crypto.primary) × Kept held r × SamePointers pr.crypto r.1
        → Ensures
            (λ (s : Option (List ℕ) × Peer). Encrypted pr held s.1)
            (elim r.0 [
              | none ↦ some (none, record pr { crypto = r.1 })
              | some p ↦ encrypt_with k h (record pr { crypto = r.1 }) p skb
            ])
    taken (none, cs) (e, v', same) =
        (record { counted = λ q. ground (arith, v'.counted q); unused = v'.unused }, refl, same.1)
    taken (some p, cs) (e, v', same) =
        Ensures-map (λ (s : Option (List ℕ) × Peer). Encrypted (record pr { crypto = cs }) held s.1)
          _ _
          (encrypt_with-Encrypted k h (record pr { crypto = cs }) held p skb v' (same.0 ∙ sym e))
          (λ (a : Option (List ℕ) × Peer) s. (s.0, s.1, s.2 ∙ same.1))
