-- ===== src/Crypto/Ops.antt =====
-- The operations that store, replace and remove key slots keep the reference counts right.
use ovpn_dco.Base.{
  ℕ, ◌≡◌, refl, arith, Option, none, some, ◌==◌, Bool-cases, inl, inr, Result, ok, err,
}
use ovpn_dco.KeySlot.{KeySlot}
use ovpn_dco.Crypto.{CryptoState, slot_put, put_if, add_slot, state_reset, slot_delete}
use ovpn_dco.Crypto.Refs.{
  IsCounted, Ensures, Ensures->>=, put_if-kept, gain, slot_put-IsCounted, put_if-IsCounted,
  add_slot-IsCounted,
}

-- A held pointer stored in a slot, and the old one taken out.
pub exchange_primary :
    (cs : CryptoState) (held : ℕ → ℕ) (p : Option ℕ)
    → IsCounted cs (gain p held)
    → IsCounted (record cs { primary = p }) (gain cs.primary held)
exchange_primary cs held p v = record {
  counted = λ q. omega (arith, v.counted q);
  unused = v.unused;
}

pub exchange_secondary :
    (cs : CryptoState) (held : ℕ → ℕ) (p : Option ℕ)
    → IsCounted cs (gain p held)
    → IsCounted (record cs { secondary = p }) (gain cs.secondary held)
exchange_secondary cs held p v = record {
  counted = λ q. omega (arith, v.counted q);
  unused = v.unused;
}

pub gain-none :
    (cs : CryptoState) (held : ℕ → ℕ) → IsCounted cs held → IsCounted cs (gain none held)
gain-none cs held v = record { counted = λ q. omega (arith, v.counted q); unused = v.unused }

pub state_reset-IsCounted :
    (cs : CryptoState) (held : ℕ → ℕ) (slot : ℕ) (made : Result KeySlot)
    → IsCounted cs held
    → ((ks : KeySlot) → made ≡ ok ks → ks.refcount ≡ 1)
    → Ensures (λ r. IsCounted r.1 held) (state_reset cs slot made)
unfolding state_reset
state_reset-IsCounted cs held slot (err e) v one = v
state_reset-IsCounted cs held slot (ok ks) v one =
    let new = add_slot-IsCounted cs held ks v (one ks refl) in
    let cs' = add_slot cs ks in
    elim (Bool-cases (slot == 0)) [
      | inl first ↦
          rw (first, state_reset)
            (Ensures->>= _ _ (put_if (record cs' { primary = some cs.next }) cs'.primary) _
              (put_if-IsCounted _ held cs'.primary (exchange_primary cs' held (some cs.next) new))
              (λ _ h. h.0))
      | inr other ↦ elim (Bool-cases (slot == 1)) [
        | inl second ↦
            rw (other, second, state_reset)
              (Ensures->>= _ _ (put_if (record cs' { secondary = some cs.next }) cs'.secondary) _
                (put_if-IsCounted _ held cs'.secondary
                  (exchange_secondary cs' held (some cs.next) new))
                (λ _ h. h.0))
        | inr invalid ↦
            rw (other, invalid, state_reset)
              (Ensures->>= _ _ (slot_put cs' cs.next) _ (slot_put-IsCounted cs' held cs.next new)
                (λ _ h. h.0))
      ]
    ]

pub slot_delete-IsCounted :
    (cs : CryptoState) (held : ℕ → ℕ) (slot : ℕ)
    → IsCounted cs held
    → Ensures (λ cs'. IsCounted cs' held) (slot_delete cs slot)
unfolding slot_delete
slot_delete-IsCounted cs held slot v =
    let v' = gain-none cs held v in
    elim (Bool-cases (slot == 0)) [
      | inl first ↦
          rw (first, slot_delete) (put_if-kept _ held cs.primary (exchange_primary cs held none v'))
      | inr other ↦ elim (Bool-cases (slot == 1)) [
        | inl second ↦
            rw (other, second, slot_delete)
              (put_if-kept _ held cs.secondary (exchange_secondary cs held none v'))
        | inr invalid ↦ rw (other, invalid, slot_delete) v
      ]
    ]
