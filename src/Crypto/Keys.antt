-- ===== src/Crypto/Keys.antt =====
-- What installing, swapping, killing and releasing keys does to the two slots.
use mathlib.Core.Path.{subst}
use ovpn_dco.Base.{
  einval, ℕ, ◌≡◌, refl, ◌∙◌, arith, none, some, ◌==◌, if◌then◌else◌, Bool-cases, inl, inr, Result,
  ok, err,
}
use ovpn_dco.KeySlot.{KeySlot}
use ovpn_dco.Crypto.{
  CryptoState, slot_put, put_if, add_slot, state_release, kill_primary, state_reset, slot_delete,
  slots_swap, slot_primary, slot_primary_id,
}
use ovpn_dco.Crypto.Ops.{gain-none, exchange_primary, exchange_secondary}
use ovpn_dco.Crypto.Slots.{Kept, slot_primary_lem}
use ovpn_dco.Crypto.Refs.{
  IsCounted, Ensures, Ensures->>=, Ensures-map, gain, SamePointers, slot_put-IsCounted,
  put_if-IsCounted, add_slot-IsCounted,
}

abbrev outcome : ℕ → Result (Unit {0})
outcome slot = if slot == 0 then ok tt else (if slot == 1 then ok tt else err einval)

-- Installing a new key succeeds for the two slots that there are, stores the new slot in the one
-- named and leaves the other pointer alone; for any other slot number it gives -EINVAL and
-- changes neither pointer.
pub state_reset_lem :
    (cs : CryptoState) (held : ℕ → ℕ) (slot : ℕ) (ks : KeySlot)
    → IsCounted cs held
    → ks.refcount ≡ 1
    → Ensures
        (λ r.
          (r.0 ≡ outcome slot)
          × (r.1.primary ≡ (if slot == 0 then some cs.next else cs.primary))
          × (r.1.secondary ≡ (if slot == 1 then some cs.next else cs.secondary)))
        (state_reset cs slot (ok ks))
unfolding state_reset
state_reset_lem cs held slot ks v one =
    let new = add_slot-IsCounted cs held ks v one in
    let cs' = add_slot cs ks in
    elim (Bool-cases (slot == 0)) [
      | inl first ↦
          rw (first, state_reset)
            (Ensures->>= _ _ (put_if (record cs' { primary = some cs.next }) cs'.primary) _
              (put_if-IsCounted _ held cs'.primary (exchange_primary cs' held (some cs.next) new))
              (λ a h. unfold add_slot in ground (arith, h.1)))
      | inr other ↦ elim (Bool-cases (slot == 1)) [
        | inl second ↦
            rw (other, second, state_reset)
              (Ensures->>= _ _ (put_if (record cs' { secondary = some cs.next }) cs'.secondary) _
                (put_if-IsCounted _ held cs'.secondary
                  (exchange_secondary cs' held (some cs.next) new))
                (λ a h. unfold add_slot in ground (arith, h.1)))
        | inr invalid ↦
            rw (other, invalid, state_reset)
              (Ensures->>= _ _ (slot_put cs' cs.next) _ (slot_put-IsCounted cs' held cs.next new)
                (λ a h. unfold add_slot in ground (arith, h.1)))
      ]
    ]

-- Killing the primary key faults when there is none: the old pointer is put untested.
pub kill_primary_fault : (cs : CryptoState) → cs.primary ≡ none → kill_primary cs ≡ none
unfolding kill_primary
kill_primary_fault cs e = rw (e, kill_primary)

-- With a primary key, killing it does not fault, removes that pointer, keeps the secondary and
-- keeps the counts right.
pub kill_primary_keeps :
    (cs : CryptoState) (held : ℕ → ℕ) (p : ℕ)
    → IsCounted cs held
    → cs.primary ≡ some p
    → Ensures
        (λ cs'. IsCounted cs' held × SamePointers (record cs { primary = none }) cs')
        (kill_primary cs)
unfolding kill_primary
kill_primary_keeps cs held p v e =
    rw (e, kill_primary)
      (slot_put-IsCounted (record cs { primary = none }) held p
        (subst (λ o. IsCounted (record cs { primary = none }) (gain o held)) e
          (exchange_primary cs held none (gain-none cs held v))))

-- From right counts a deletion of the primary key does not fault, and killing the primary key
-- right after it does.
pub kill_after_delete :
    (cs : CryptoState) (held : ℕ → ℕ)
    → IsCounted cs held
    → Ensures (λ cs'. kill_primary cs' ≡ none) (slot_delete cs slot_primary_id)
unfolding slot_delete
kill_after_delete cs held v =
    Ensures-map (λ cs'. IsCounted cs' held × SamePointers (record cs { primary = none }) cs') _ _
      (put_if-IsCounted _ held cs.primary (exchange_primary cs held none (gain-none cs held v)))
      (λ cs' h. kill_primary_fault cs' h.1.0)

-- Releasing the whole state empties both slots, gives their references back and does not fault.
pub state_release_lem :
    (cs : CryptoState) (held : ℕ → ℕ)
    → IsCounted cs held
    → Ensures
        (λ cs'. IsCounted cs' held × (cs'.primary ≡ none) × (cs'.secondary ≡ none))
        (state_release cs)
unfolding state_release
state_release_lem cs held v =
    Ensures->>= (λ cs'. IsCounted cs' held × SamePointers (record cs { primary = none }) cs') _
      (put_if (record cs { primary = none }) cs.primary) _
      (put_if-IsCounted _ held cs.primary (exchange_primary cs held none (gain-none cs held v)))
      (λ cs' h.
        Ensures-map (λ c. IsCounted c held × SamePointers (record cs' { secondary = none }) c) _ _
          (put_if-IsCounted _ held cs'.secondary
            (exchange_secondary cs' held none (gain-none cs' held h.0)))
          (λ c k. (k.0, k.1.0 ∙ h.1.0, k.1.1)))

-- After a swap the encryption side gets the slot that was secondary, with a reference.
pub slots_swap_lem :
    (cs : CryptoState) (held : ℕ → ℕ)
    → IsCounted cs held
    → ((slots_swap cs).secondary ≡ cs.primary)
      × Ensures
          (λ r. (r.0 ≡ cs.secondary) × IsCounted r.1 (gain cs.secondary held))
          (slot_primary (slots_swap cs))
unfolding slots_swap
slots_swap_lem cs held v = (
  refl,
  Ensures-map (λ r. (r.0 ≡ cs.secondary) × Kept held r × SamePointers (slots_swap cs) r.1) _ _
      (slot_primary_lem (slots_swap cs) held
        (record { counted = λ q. omega (arith, v.counted q); unused = v.unused }))
      (λ r h. (h.0, subst (λ o. IsCounted r.1 (gain o held)) h.0 h.1)),
)
