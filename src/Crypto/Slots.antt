-- ===== src/Crypto/Slots.antt =====
-- The look-ups of a key slot, `ovpn_crypto_key_id_to_slot` and `ovpn_crypto_key_slot_primary`.
use ovpn_dco.Base.{
  ℕ, ◌≡◌, ◌≢◌, refl, arith, Bool, true, false, Option, none, some, ◌==◌, if◌then◌else◌, Bool-cases,
  ◌⊎◌, inl, inr,
}
use ovpn_dco.KeySlot.{KeySlot}
use ovpn_dco.Crypto.{
  CryptoState, ◌>>=◌, slot_hold, hold_or_null, has_key_id, key_id_to_slot, slot_primary,
}
use ovpn_dco.Crypto.Ops.{gain-none}
use ovpn_dco.Crypto.Refs.{
  count_of, IsCounted, Ensures, Ensures->>=, gain, SamePointers, slot_hold-IsCounted,
}

-- The counts are right after the step, with the reference handed out.
abbrev pub Kept : (ℕ → ℕ) → Option ℕ × CryptoState → Type 0
Kept held r = IsCounted r.1 (gain r.0 held)

-- a pointer in the state is to a live slot
pub points_live :
    (cs : CryptoState) (held : ℕ → ℕ) (p : ℕ)
    → IsCounted cs held
    → (cs.primary ≡ some p) ⊎ (cs.secondary ≡ some p)
    → count_of (cs.slots p) ≢ 0
points_live cs held p v h z = ground (arith, v.counted p)

hold_or_null-Kept :
    (cs : CryptoState) (held : ℕ → ℕ) (p : Option ℕ)
    → IsCounted cs held
    → ((q : ℕ) → p ≡ some q → count_of (cs.slots q) ≢ 0)
    → Ensures (λ r. (r.0 ≡ p) × Kept held r × SamePointers cs r.1) (hold_or_null cs p)
unfolding hold_or_null
hold_or_null-Kept cs held none v alive = (refl, gain-none cs held v, (refl, refl))
hold_or_null-Kept cs held (some p) v alive =
    Ensures->>= _ _ (slot_hold cs p) _ (slot_hold-IsCounted cs held p v (alive p refl)) taken
  where
    taken :
        (r : Bool × CryptoState)
        → (r.0 ≡ true) × IsCounted r.1 (gain (some p) held) × SamePointers cs r.1
        → Ensures
            (λ s. (s.0 ≡ some p) × Kept held s × SamePointers cs s.1)
            (some (if r.0 then some p else none, r.1))
    taken (true, cs') (e, v', same) = (refl, v', same)
    taken (false, cs') (e, v', same) = cc

-- whether the slot that a pointer names has the key id
abbrev pub matches : CryptoState → Option ℕ → ℕ → Bool
matches cs none key_id = false
matches cs (some p) key_id = elim (cs.slots p) [ none ↦ false | some ks ↦ ks.key_id == key_id ]

pub has_key_id_lem :
    (cs : CryptoState) (p : Option ℕ) (key_id : ℕ)
    → ((q : ℕ) → p ≡ some q → count_of (cs.slots q) ≢ 0)
    → has_key_id cs p key_id ≡ some (matches cs p key_id)
unfolding has_key_id
has_key_id_lem cs none key_id alive = refl
has_key_id_lem cs (some p) key_id alive = go (cs.slots p) (alive p refl)
  where
    go :
        (o : Option KeySlot)
        → count_of o ≢ 0
        → (o >>= λ ks. some (ks.key_id == key_id))
          ≡ some (elim o [ none ↦ false | some ks ↦ ks.key_id == key_id ])
    go none h = absurd (h refl)
    go (some ks) h = refl

-- the slot that the key id selects, the primary one first
abbrev pub chosen : CryptoState → ℕ → Option ℕ
chosen cs key_id =
    if matches cs cs.primary key_id
    then cs.primary
    else (if matches cs cs.secondary key_id then cs.secondary else none)

-- Looking a key id up never faults; it hands out the primary slot if that has the key id, else
-- the secondary if that has it, else NULL, with one more reference to what it hands out, and it
-- moves no pointer.
pub key_id_to_slot_lem :
    (cs : CryptoState) (held : ℕ → ℕ) (key_id : ℕ)
    → IsCounted cs held
    → Ensures
        (λ r. (r.0 ≡ chosen cs key_id) × Kept held r × SamePointers cs r.1)
        (key_id_to_slot cs key_id)
unfolding key_id_to_slot
key_id_to_slot_lem cs held key_id v =
    let first : (q : ℕ) → cs.primary ≡ some q → count_of (cs.slots q) ≢ 0 =
      λ q e. points_live cs held q v (inl e) in
    let second : (q : ℕ) → cs.secondary ≡ some q → count_of (cs.slots q) ≢ 0 =
      λ q e. points_live cs held q v (inr e) in
    rw (has_key_id_lem cs cs.primary key_id first, key_id_to_slot)
      (elim (Bool-cases (matches cs cs.primary key_id)) [
        | inl yes_first ↦
            rw (yes_first, key_id_to_slot) (hold_or_null-Kept cs held cs.primary v first)
        | inr no_first ↦
            rw (no_first, key_id_to_slot)
              (rw (has_key_id_lem cs cs.secondary key_id second, key_id_to_slot)
                (elim (Bool-cases (matches cs cs.secondary key_id)) [
                  | inl yes_second ↦
                      rw (yes_second, key_id_to_slot)
                        (hold_or_null-Kept cs held cs.secondary v second)
                  | inr no_second ↦
                      rw (no_second, key_id_to_slot) (refl, gain-none cs held v, (refl, refl))
                ]))
      ])

pub slot_primary_lem :
    (cs : CryptoState) (held : ℕ → ℕ)
    → IsCounted cs held
    → Ensures (λ r. (r.0 ≡ cs.primary) × Kept held r × SamePointers cs r.1) (slot_primary cs)
unfolding slot_primary
slot_primary_lem cs held v =
    hold_or_null-Kept cs held cs.primary v (λ q e. points_live cs held q v (inl e))
