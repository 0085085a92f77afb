-- ===== src/Crypto/Refs.antt =====
-- Reference counts of the key slots: the invariant that every count is the number of pointers to
-- the slot, and what taking and dropping one reference does to it.
use ovpn_dco.Base.{
  ℕ, ◌+◌, ◌≤◌, ◌≡◌, ◌≢◌, refl, arith, true, Option, none, some, ◌==◌, if◌then◌else◌, eq_of_ne,
}
use ovpn_dco.KeySlot.{KeySlot}
use ovpn_dco.Crypto.{CryptoState, ◌>>=◌, slot_hold, slot_put, put_if, add_slot}

-- the count of a slot; a freed one has none
abbrev pub count_of : Option KeySlot → ℕ
count_of none = 0
count_of (some ks) = ks.refcount

-- one for a pointer to the slot
abbrev pub points : Option ℕ → ℕ → ℕ
points none p = 0
points (some q) p = if q == p then 1 else 0

-- `held` counts the references that callers hold.
abbrev pub owed : CryptoState → (ℕ → ℕ) → ℕ → ℕ
owed cs held p = points cs.primary p + points cs.secondary p + held p

-- Each slot's count is the number of references to it, and no address from `next` on is in use.
pub record IsCounted (cs : CryptoState) (held : ℕ → ℕ) : Type 0 where
  pub counted : (p : ℕ) → count_of (cs.slots p) ≡ owed cs held p
  pub unused : (p : ℕ) → cs.next ≤ p → cs.slots p ≡ none

-- The result of a computation that does not fault satisfies P.
abbrev pub Ensures : {A : Type 0} → (A → Type 0) → Option A → Type 0
Ensures P none = ⊥
Ensures P (some a) = P a

pub Ensures->>= :
    {A B : Type 0} (P : A → Type 0) (Q : B → Type 0) (m : Option A) (f : A → Option B)
    → Ensures P m
    → ((a : A) → P a → Ensures Q (f a))
    → Ensures Q (m >>= f)
Ensures->>= P Q none f h k = absurd h
Ensures->>= P Q (some a) f h k = k a h

-- the same, where what follows may use what the first part returned
pub Ensures-with :
    {A B : Type 0} (P : A → Type 0) (Q : B → Type 0) (m : Option A) (f : A → Option B)
    → Ensures P m
    → ((a : A) → m ≡ some a → P a → Ensures Q (f a))
    → Ensures Q (m >>= f)
Ensures-with P Q none f h k = absurd h
Ensures-with P Q (some a) f h k = k a refl h

pub Ensures-map :
    {A : Type 0} (P Q : A → Type 0) (m : Option A)
    → Ensures P m
    → ((a : A) → P a → Q a)
    → Ensures Q m
Ensures-map P Q none h f = h
Ensures-map P Q (some a) h f = f a h

-- one more reference held
abbrev pub gain : Option ℕ → (ℕ → ℕ) → ℕ → ℕ
gain p held q = held q + points p q

live :
    (cs : CryptoState) (p : ℕ)
    → count_of (cs.slots p) ≢ 0
    → (ks : KeySlot) × (cs.slots p ≡ some ks) × (ks.refcount ≢ 0)
live cs p h = go (cs.slots p) refl
  where
    go :
        (o : Option KeySlot)
        → cs.slots p ≡ o
        → (ks : KeySlot) × (cs.slots p ≡ some ks) × (ks.refcount ≢ 0)
    go none e = absurd (h (rw e))
    go (some ks) e = (ks, e, λ z. h (rw e z))

-- The pointers are the same in two states.
abbrev pub SamePointers : CryptoState → CryptoState → Type 0
SamePointers cs cs' = (cs'.primary ≡ cs.primary) × (cs'.secondary ≡ cs.secondary)

-- Dropping a held reference does not fault and keeps the counts right; the pointers stay.
pub slot_put-IsCounted :
    (cs : CryptoState) (held : ℕ → ℕ) (p : ℕ)
    → IsCounted cs (gain (some p) held)
    → Ensures (λ cs'. IsCounted cs' held × SamePointers cs cs') (slot_put cs p)
unfolding slot_put
slot_put-IsCounted cs held p v =
    let (ks, e, pos) = live cs p (ground (arith, v.counted p)) in
    rw (e, slot_put)
      (rw (eq_of_ne ks.refcount 0 pos, slot_put)
        (
          record {
            counted = λ q. ground (arith, v.counted q, e);
            unused = λ q h. ground (arith, v.unused q, e);
          },
          (refl, refl),
        ))

-- Taking a reference to a counted slot does not fault, succeeds, and keeps the counts right.
pub slot_hold-IsCounted :
    (cs : CryptoState) (held : ℕ → ℕ) (p : ℕ)
    → IsCounted cs held
    → count_of (cs.slots p) ≢ 0
    → Ensures
        (λ r. (r.0 ≡ true) × IsCounted r.1 (gain (some p) held) × SamePointers cs r.1)
        (slot_hold cs p)
unfolding slot_hold
slot_hold-IsCounted cs held p v alive =
    let (ks, e, pos) = live cs p alive in
    rw (e, slot_hold)
      (rw (eq_of_ne ks.refcount 0 pos, slot_hold)
        (
          refl,
          record {
            counted = λ q. ground (arith, v.counted q, e);
            unused = λ q h. ground (arith, v.unused q, e);
          },
          (refl, refl),
        ))

pub put_if-IsCounted :
    (cs : CryptoState) (held : ℕ → ℕ) (p : Option ℕ)
    → IsCounted cs (gain p held)
    → Ensures (λ cs'. IsCounted cs' held × SamePointers cs cs') (put_if cs p)
unfolding put_if
put_if-IsCounted cs held none v =
    (record { counted = λ q. ground (arith, v.counted q); unused = v.unused }, (refl, refl))
put_if-IsCounted cs held (some p) v = slot_put-IsCounted cs held p v

pub put_if-kept :
    (cs : CryptoState) (held : ℕ → ℕ) (p : Option ℕ)
    → IsCounted cs (gain p held)
    → Ensures (λ cs'. IsCounted cs' held) (put_if cs p)
put_if-kept cs held p v =
    Ensures-map (λ cs'. IsCounted cs' held × SamePointers cs cs') _ _ (put_if-IsCounted cs held p v)
      (λ _ h. h.0)

-- A new slot starts with the one reference that its creator holds.
pub add_slot-IsCounted :
    (cs : CryptoState) (held : ℕ → ℕ) (ks : KeySlot)
    → IsCounted cs held
    → ks.refcount ≡ 1
    → IsCounted (add_slot cs ks) (gain (some cs.next) held)
unfolding add_slot
add_slot-IsCounted cs held ks v one = record {
  counted = λ q. ground (arith, v.counted q, v.unused cs.next, one);
  unused = λ q h. ground (arith, v.unused q);
}
