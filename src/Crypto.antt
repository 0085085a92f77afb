-- ===== src/Crypto.antt =====
-- drivers/net/ovpn-dco/crypto.c and the inline functions of crypto.h: the two key slots of a peer
-- and their reference counts. The slots are objects on a heap, `slots`, which the pointers
-- `primary` and `secondary` share with whoever holds a reference. `none` is a fault: a
-- dereference of NULL or of a freed slot, or a count that would drop below 0. The callbacks
-- that `call_rcu` has queued are `pending`; `grace_period` runs them.
pub mod Refs
pub mod Ops
pub mod Slots
pub mod Runs
pub mod Keys
pub mod Release
pub mod Readers
use ovpn_dco.Base.{
  ℕ, ◌+◌, ◌-◌, List, [], ◌∷◌, Bool, true, false, Option, none, some, ◌==◌, if◌then◌else◌, update,
  Result, ok, err, Status, einval,
}
use ovpn_dco.KeySlot.{KeySlot}

-- `struct ovpn_crypto_state`, with the heap of its key slots. The next allocation gets the
-- address `next`.
pub record CryptoState : Type 0 where
  pub primary : Option ℕ
  pub secondary : Option ℕ
  pub slots : ℕ → Option KeySlot
  pub next : ℕ
  pub pending : List ℕ

-- `enum ovpn_key_slot`
abbrev pub slot_primary_id : ℕ
slot_primary_id = 0

abbrev pub slot_secondary_id : ℕ
slot_secondary_id = 1

-- A computation that may fault.
infixl 5 ◌>>=◌
abbrev pub ◌>>=◌ {ℓ κ} : {A : Type ℓ} {B : Type κ} → Option A → (A → Option B) → Option B
none >>= f = none
some a >>= f = f a

unfoldable pub state_init : CryptoState
state_init = record { primary = none; secondary = none; slots = λ _. none; next = 0; pending = [] }

-- `ovpn_crypto_key_slot_hold`: `kref_get_unless_zero`
unfoldable pub slot_hold : CryptoState → ℕ → Option (Bool × CryptoState)
slot_hold cs p = do
  ks ← cs.slots p
  if ks.refcount == 0
      then some (false, cs)
      else some (
        true,
        record cs { slots = update cs.slots p (some (record ks { refcount = ks.refcount + 1 })) },
      )

-- `ovpn_crypto_key_slot_put`: `kref_put`, whose release queues the destruction
unfoldable pub slot_put : CryptoState → ℕ → Option CryptoState
slot_put cs p = do
  ks ← cs.slots p
  if ks.refcount == 0
      then none
      else some (record cs {
        slots = update cs.slots p (some (record ks { refcount = ks.refcount - 1 }));
        pending = if ks.refcount == 1 then p ∷ cs.pending else cs.pending;
      })

-- `ovpn_ks_destroy_rcu` for each queued slot, after the grace period
unfoldable pub destroy_all : List ℕ → (ℕ → Option KeySlot) → ℕ → Option KeySlot
destroy_all [] slots = slots
destroy_all (p ∷ ps) slots = destroy_all ps (update slots p none)

unfoldable pub grace_period : CryptoState → CryptoState
unfolding destroy_all
grace_period cs = record cs { slots = destroy_all cs.pending cs.slots; pending = [] }

-- the `if (old) ovpn_crypto_key_slot_put(old)` of several functions
unfoldable pub put_if : CryptoState → Option ℕ → Option CryptoState
unfolding slot_put
put_if cs none = some cs
put_if cs (some p) = slot_put cs p

-- `ovpn_crypto_state_release`
unfoldable pub state_release : CryptoState → Option CryptoState
unfolding put_if
state_release cs = do
  cs' ← put_if (record cs { primary = none }) cs.primary
  put_if (record cs' { secondary = none }) cs'.secondary

-- `ovpn_crypto_kill_primary`: no test of the old pointer
unfoldable pub kill_primary : CryptoState → Option CryptoState
unfolding slot_put
kill_primary cs = do ks ← cs.primary; slot_put (record cs { primary = none }) ks

-- the allocation of a new key slot
unfoldable pub add_slot : CryptoState → KeySlot → CryptoState
add_slot cs ks = record cs { slots = update cs.slots cs.next (some ks); next = cs.next + 1 }

-- `ovpn_crypto_state_reset`; `made` is what `ovpn_aead_crypto_key_slot_new` returned
unfoldable pub state_reset : CryptoState → ℕ → Result KeySlot → Option (Status × CryptoState)
unfolding put_if slot_put add_slot
state_reset cs slot (err e) = some (err e, cs)
state_reset cs slot (ok ks) =
    let new = cs.next in
    let cs' = add_slot cs ks in
    if slot == slot_primary_id
    then (do cs'' ← put_if (record cs' { primary = some new }) cs'.primary; some (ok tt, cs''))
    else (if slot == slot_secondary_id
        then (do
          cs'' ← put_if (record cs' { secondary = some new }) cs'.secondary
          some (ok tt, cs''))
        else (do cs'' ← slot_put cs' new; some (err einval, cs'')))

-- `ovpn_crypto_key_slot_delete`
unfoldable pub slot_delete : CryptoState → ℕ → Option CryptoState
unfolding put_if
slot_delete cs slot =
    if slot == slot_primary_id
    then put_if (record cs { primary = none }) cs.primary
    else (if slot == slot_secondary_id
        then put_if (record cs { secondary = none }) cs.secondary
        else some cs)

-- `ovpn_crypto_key_slots_swap`
unfoldable pub slots_swap : CryptoState → CryptoState
slots_swap cs =
    let old_secondary = cs.secondary in
    let old_primary = cs.primary in record cs { primary = old_secondary; secondary = old_primary }

-- whether the slot at a pointer has the key id; NULL has none
unfoldable pub has_key_id : CryptoState → Option ℕ → ℕ → Option Bool
has_key_id cs none key_id = some false
has_key_id cs (some p) key_id = do ks ← cs.slots p; some (ks.key_id == key_id)

-- a pointer, with a reference taken if that is possible
unfoldable pub hold_or_null : CryptoState → Option ℕ → Option (Option ℕ × CryptoState)
unfolding slot_hold
hold_or_null cs none = some (none, cs)
hold_or_null cs (some p) = do
  (held, cs') ← slot_hold cs p
  some (if held then some p else none, cs')

-- `ovpn_crypto_key_id_to_slot`
unfoldable pub key_id_to_slot : CryptoState → ℕ → Option (Option ℕ × CryptoState)
unfolding has_key_id hold_or_null
key_id_to_slot cs key_id = do
  in_primary ← has_key_id cs cs.primary key_id
  if in_primary then hold_or_null cs cs.primary else (do
    in_secondary ← has_key_id cs cs.secondary key_id
    if in_secondary then hold_or_null cs cs.secondary else some (none, cs))

-- `ovpn_crypto_key_slot_primary`
unfoldable pub slot_primary : CryptoState → Option (Option ℕ × CryptoState)
unfolding hold_or_null
slot_primary cs = hold_or_null cs cs.primary
