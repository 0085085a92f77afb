-- ===== src/Crypto/Runs.antt =====
-- Whole runs of operations on a peer's key slots, and the operations that tear them down.
use mathlib.Core.Path.{subst}
use ovpn_dco.Base.{ℕ, ◌-◌, ◌≡◌, ◌≢◌, refl, arith, Option, none, some, Result, ok, err}
use ovpn_dco.KeySlot.{KeySlot}
use ovpn_dco.Crypto.{
  CryptoState, ◌>>=◌, state_init, slot_put, state_reset, slot_delete, slots_swap, key_id_to_slot,
  slot_primary,
}
use ovpn_dco.Crypto.Ops.{gain-none, state_reset-IsCounted, slot_delete-IsCounted}
use ovpn_dco.Crypto.Slots.{Kept, chosen, key_id_to_slot_lem, slot_primary_lem}
use ovpn_dco.Crypto.Refs.{
  points, IsCounted, Ensures, Ensures->>=, Ensures-map, gain, SamePointers, slot_put-IsCounted,
}

-- What a caller does with the key slots; `put` gives a reference back. A reset brings what the
-- allocation of the slot gave.
pub data Op : Type 0 where
  reset : ℕ → Result KeySlot → Op
  delete : ℕ → Op
  swap : Op
  find : ℕ → Op
  find_primary : Op
  put : ℕ → Op

-- The operation, and the reference that it hands to its caller.
unfoldable pub perform : Op → CryptoState → Option (Option ℕ × CryptoState)
perform (reset slot made) cs = do (ret, cs') ← state_reset cs slot made; some (none, cs')
perform (delete slot) cs = do cs' ← slot_delete cs slot; some (none, cs')
perform swap cs = some (none, slots_swap cs)
perform (find key_id) cs = key_id_to_slot cs key_id
perform find_primary cs = slot_primary cs
perform (put p) cs = do cs' ← slot_put cs p; some (none, cs')

-- a new slot comes with one reference
abbrev pub NewSlot : Op → Type 0
NewSlot (reset slot (ok ks)) = ks.refcount ≡ 1
NewSlot _ = Unit {0}

-- the references held once the operation is called: a put uses one up
abbrev pub before : Op → (ℕ → ℕ) → ℕ → ℕ
before (put p) held q = held q - points (some p) q
before _ held q = held q

-- only a reference that is held is put
abbrev pub Allowed : Op → (ℕ → ℕ) → Type 0
Allowed (put p) held = held p ≢ 0
Allowed (reset slot (ok ks)) held = ks.refcount ≡ 1
Allowed _ held = Unit {0}

-- From right counts, each operation runs without a fault and leaves the counts right, with the
-- reference that it hands out counted as held and one that is put no longer so.
pub perform-IsCounted :
    (o : Op) (cs : CryptoState) (held : ℕ → ℕ)
    → IsCounted cs held
    → Allowed o held
    → Ensures (λ r. IsCounted r.1 (gain r.0 (before o held))) (perform o cs)
unfolding perform slots_swap
perform-IsCounted (reset slot (err e)) cs held v h = unfold state_reset in gain-none cs held v
perform-IsCounted (reset slot (ok ks)) cs held v h =
    Ensures->>= _ _ (state_reset cs slot (ok ks)) _
      (state_reset-IsCounted cs held slot (ok ks) v (λ ks' e. ground arith))
      (λ r v'. gain-none r.1 held v')
perform-IsCounted (delete slot) cs held v h =
    Ensures->>= _ _ (slot_delete cs slot) _ (slot_delete-IsCounted cs held slot v)
      (λ cs' v'. gain-none cs' held v')
perform-IsCounted swap cs held v h = record {
  counted = λ q. omega (arith, v.counted q);
  unused = v.unused;
}
perform-IsCounted (find key_id) cs held v h =
    Ensures-map (λ r. (r.0 ≡ chosen cs key_id) × Kept held r × SamePointers cs r.1) _ _
      (key_id_to_slot_lem cs held key_id v) (λ _ r. r.1)
perform-IsCounted find_primary cs held v h =
    Ensures-map (λ r. (r.0 ≡ cs.primary) × Kept held r × SamePointers cs r.1) _ _
      (slot_primary_lem cs held v) (λ _ r. r.1)
perform-IsCounted (put p) cs held v h =
    Ensures->>= _ _ (slot_put cs p) _
      (slot_put-IsCounted cs (before (put p) held) p
        (record { counted = λ q. ground (arith, v.counted q); unused = v.unused }))
      (λ cs' v'. gain-none cs' _ v'.0)

pub state_init-IsCounted : IsCounted state_init (λ _. 0)
unfolding state_init
state_init-IsCounted = record { counted = λ p. refl; unused = λ p h. refl }

-- The states that runs of operations reach from `ovpn_crypto_state_init`, with the references that
-- the callers hold by then. Only a held reference is put, and a new slot comes with one.
pub data Run : CryptoState → (ℕ → ℕ) → Type 0 where
  start : Run state_init (λ _. 0)
  step :
      {cs cs' : CryptoState} {held held' : ℕ → ℕ} (o : Op) (p : Option ℕ)
      → Run cs held
      → Allowed o held
      → perform o cs ≡ some (p, cs')
      → held' ≡ gain p (before o held)
      → Run cs' held'

pub Run-IsCounted : {cs : CryptoState} {held : ℕ → ℕ} → Run cs held → IsCounted cs held
Run-IsCounted start = state_init-IsCounted
Run-IsCounted (step {cs} {cs'} {held} o p r h e f) = rw f (
    subst (Ensures (λ s. IsCounted s.1 (gain s.0 (before o held)))) e
      (perform-IsCounted o cs held (Run-IsCounted r) h))

-- In every state that the operations of `Op` reach, where callers put only references that they
-- hold and a new slot comes with one reference, each key slot's reference count is the number of
-- pointers and held references to it, and no next such operation dereferences NULL or a freed slot
-- or drops a count below zero.
pub Run-safe :
    {cs : CryptoState} {held : ℕ → ℕ} (o : Op)
    → Run cs held
    → Allowed o held
    → IsCounted cs held × Ensures (λ _. Unit {0}) (perform o cs)
Run-safe {cs} {held} o r h = (
  Run-IsCounted r,
  Ensures-map (λ s. IsCounted s.1 (gain s.0 (before o held))) _ _
      (perform-IsCounted o cs held (Run-IsCounted r) h) (λ _ _. tt),
)
