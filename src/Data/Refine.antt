-- ===== src/Data/Refine.antt =====
-- The handling of a packet without its references: the locked look-up, the decryption or
-- encryption and the release of the key slot are together one decryption or encryption with it.
use ovpn_dco.Base.{
  ℕ, List, ◌+◌, ◌-◌, ◌≡◌, refl, sym, ap, ◌∙◌, arith, false, none, some, ◌==◌, Bool-cases, inl, inr,
  update, update_self, update-update, update_same, err, eperm, Errno,
}
use ovpn_dco.KeySlot.{KeySlot}
use ovpn_dco.Aead.{
  CryptoApi, Buffers, aead_decrypt, aead_encrypt, check_replay, seal_packet, unseal_packet,
}
use ovpn_dco.Aead.Replay.{decrypt_forged}
use ovpn_dco.Crypto.{CryptoState, slot_hold, slot_put, hold_or_null, key_id_to_slot}
use ovpn_dco.Crypto.Refs.{IsCounted}
use ovpn_dco.Crypto.Slots.{chosen, matches, has_key_id_lem, points_live}
use ovpn_dco.Proto.{key_id_from_skb}
use ovpn_dco.Data.{Kernel, Handling}
use ovpn_dco.Data.Receive.{decrypt_with, open_one}

key_id_to_slot-chosen :
    (cs : CryptoState) (held : ℕ → ℕ) (key_id : ℕ)
    → IsCounted cs held
    → key_id_to_slot cs key_id ≡ hold_or_null cs (chosen cs key_id)
unfolding key_id_to_slot
key_id_to_slot-chosen cs held key_id v =
    let first = has_key_id_lem cs cs.primary key_id (λ q e. points_live cs held q v (inl e)) in
    let second = has_key_id_lem cs cs.secondary key_id (λ q e. points_live cs held q v (inr e)) in
    rw (first, key_id_to_slot)
      (elim (Bool-cases (matches cs cs.primary key_id)) [
        | inl e ↦ rw (e, key_id_to_slot) refl
        | inr e ↦
            rw (e, key_id_to_slot)
              (rw (second, key_id_to_slot)
                (elim (Bool-cases (matches cs cs.secondary key_id)) [
                  | inl f ↦ rw (f, key_id_to_slot) refl
                  | inr f ↦ rw (f, key_id_to_slot) (unfold hold_or_null in refl)
                ]))
      ])

-- the slot with one more reference
abbrev pub more : KeySlot → KeySlot
more ks = record ks { refcount = ks.refcount + 1 }

-- the state with another slot at an address
abbrev pub stored : CryptoState → ℕ → KeySlot → CryptoState
stored cs p ks = record cs { slots = update cs.slots p (some ks) }

pub hold_lem :
    (cs : CryptoState) (p : ℕ) (ks : KeySlot)
    → cs.slots p ≡ some ks
    → (ks.refcount == 0) ≡ false
    → hold_or_null cs (some p) ≡ some (some p, stored cs p (more ks))
unfolding hold_or_null slot_hold
hold_lem cs p ks e alive = rw (e, hold_or_null) (rw (alive, hold_or_null) refl)

-- a slot that is held once more than the state says is put back
put_lem :
    (cs : CryptoState) (p n : ℕ) (ks ks' : KeySlot)
    → (n == 0) ≡ false
    → slot_put (stored (stored cs p ks) p (record ks' { refcount = n + 1 })) p
      ≡ some (stored cs p (record ks' { refcount = n }))
unfolding slot_put
put_lem cs p n ks ks' alive =
    let more' : KeySlot = record ks' { refcount = n + 1 } in
    let less' : KeySlot = record ks' { refcount = n } in
    let zero' : (n + 1 == 0) ≡ false = ground arith in
    let two : (n + 1 == 1) ≡ false = ground arith in
    let back : n + 1 - 1 ≡ n = omega arith in
    rw
      (
        slot_put,
        update_self (update cs.slots p (some ks)) p (some more'),
        zero',
        two,
        back,
        update-update (update cs.slots p (some ks)) p (some more') (some less'),
        update-update cs.slots p (some ks) (some less'),
      )
      refl

decrypt_more :
    (api : CryptoApi) (b : Buffers) (hz now n : ℕ) (ks : KeySlot) (skb : List ℕ)
    → let (ret, ks') = aead_decrypt api b hz now ks skb in
      aead_decrypt api b hz now (record ks { refcount = n }) skb
      ≡ (ret, record ks' { refcount = n })
unfolding aead_decrypt check_replay unseal_packet
decrypt_more api b hz now n ks skb = ground arith

pub encrypt_more :
    (api : CryptoApi) (b : Buffers) (n id : ℕ) (ks : KeySlot) (skb : List ℕ)
    → let (ret, ks') = aead_encrypt api b ks skb id in
      aead_encrypt api b (record ks { refcount = n }) skb id ≡ (ret, record ks' { refcount = n })
unfolding aead_encrypt seal_packet
encrypt_more api b n id ks skb = ground arith

decrypt_with_lem :
    (k : Kernel) (h : Handling) (cs : CryptoState) (p : ℕ) (ks : KeySlot) (skb : List ℕ)
    → (ks.refcount == 0) ≡ false
    → let (ret, ks') = aead_decrypt k.api h.buffers k.hz h.now ks skb in
      decrypt_with k h (stored cs p (more ks)) p skb
      ≡ some (ret, stored cs p (record ks' { refcount = ks.refcount }))
unfolding decrypt_with
decrypt_with_lem k h cs p ks skb alive =
    let (ret, ks') = aead_decrypt k.api h.buffers k.hz h.now ks skb in
    rw
      (
        decrypt_with,
        update_self cs.slots p (some (more ks)),
        decrypt_more k.api h.buffers k.hz h.now (ks.refcount + 1) ks skb,
        put_lem cs p ks.refcount (more ks) ks' alive,
      )
      refl

-- The slot that a packet's key id selects is the one at an address.
pub record Selects (cs : CryptoState) (held : ℕ → ℕ) (skb : List ℕ) (p : ℕ) (ks : KeySlot)
    : Type 0 where
  pub counted : IsCounted cs held
  pub selected : chosen cs (key_id_from_skb skb) ≡ some p
  pub there : cs.slots p ≡ some ks
  pub alive : (ks.refcount == 0) ≡ false

-- With right counts, opening a packet whose key id selects a live slot is its decryption with that
-- slot: the look-up, its reference and the put leave nothing behind but the slot's new state.
pub open_one_lem :
    (k : Kernel) (h : Handling) (cs : CryptoState) (held : ℕ → ℕ) (skb : List ℕ) (p : ℕ)
    (ks : KeySlot)
    → Selects cs held skb p ks
    → let (ret, ks') = aead_decrypt k.api h.buffers k.hz h.now ks skb in
      open_one k h cs skb ≡ some (ret, stored cs p (record ks' { refcount = ks.refcount }))
unfolding open_one
open_one_lem k h cs held skb p ks s =
    rw
      (
        open_one,
        key_id_to_slot-chosen cs held (key_id_from_skb skb) s.counted,
        s.selected,
        hold_lem cs p ks s.there s.alive,
        decrypt_with_lem k h cs p ks skb s.alive,
      )
      refl

-- A packet that no key is for is refused, and the key slots are as before.
pub open_one_unknown :
    (k : Kernel) (h : Handling) (cs : CryptoState) (held : ℕ → ℕ) (skb : List ℕ)
    → IsCounted cs held
    → chosen cs (key_id_from_skb skb) ≡ none
    → open_one k h cs skb ≡ some (err eperm, cs)
unfolding open_one hold_or_null
open_one_unknown k h cs held skb v e =
    rw (open_one, key_id_to_slot-chosen cs held (key_id_from_skb skb) v, e) refl

-- A packet that fails authentication is refused, and the key slots are as before.
pub open_one_forged :
    (k : Kernel) (h : Handling) (cs : CryptoState) (held : ℕ → ℕ) (skb : List ℕ) (p : ℕ)
    (ks : KeySlot) (e : Errno)
    → Selects cs held skb p ks
    → unseal_packet k.api ks skb ≡ err e
    → (f : Errno) × (open_one k h cs skb ≡ some (err f, cs))
open_one_forged k h cs held skb p ks e s bad =
    let (f, same) = decrypt_forged k.api h.buffers k.hz h.now ks skb e bad in
    let back : update cs.slots p (some ks) ≡ cs.slots =
      ap (update cs.slots p) (sym s.there) ∙ update_same cs.slots p in
    (f, rw (open_one_lem k h cs held skb p ks s, same, back) refl)
