-- ===== src/Crypto/Readers.antt =====
-- The readers of a peer's key slots run without a lock against the functions of crypto.c, which
-- hold the mutex while they change the pointers. One step here is one access to shared memory. RCU
-- is the kernel's: `call_rcu` notes the readers that are inside a read section then, and the
-- callback runs once they have left it.
pub mod Safety
use ovpn_dco.Base.{
  ℕ, ◌+◌, ◌-◌, ◌≤◌, ◌≡◌, ◌≢◌, Bool, true, false, Option, none, some, ◌==◌, if◌then◌else◌, update,
}
use ovpn_dco.KeySlot.{KeySlot}
use ovpn_dco.Crypto.{◌>>=◌}
use ovpn_dco.Crypto.Refs.{points}

-- Where a reader stands. `entered none` is in `ovpn_crypto_key_slot_primary`, `entered (some k)` in
-- `ovpn_crypto_key_id_to_slot` for the key id `k`; what follows has the pointer that was loaded.
pub data Reader : Type 0 where
  outside : Reader
  entered : Option ℕ → Reader
  primary_loaded : Option ℕ → ℕ → Reader
  missed : ℕ → Reader
  secondary_loaded : ℕ → ℕ → Reader
  leaving : Reader

abbrev pub inside : Reader → Bool
inside Reader.outside = false
inside _ = true

-- The shared state: the pointers, and the old primary in the middle of a swap; the slots; those
-- given to `call_rcu`, and for which readers each one waits; how many references the callers hold.
pub record Shared : Type 0 where
  pub primary : Option ℕ
  pub secondary : Option ℕ
  pub swapping : Option (Option ℕ)
  pub slots : ℕ → Option KeySlot
  pub queued : ℕ → Bool
  pub waits : ℕ → ℕ → Bool
  pub held : ℕ → ℕ
  pub reader : ℕ → Reader

unfoldable pub start_shared : Shared
start_shared = record {
  primary = none;
  secondary = none;
  swapping = none;
  slots = λ _. none;
  queued = λ _. false;
  waits = λ _ _. false;
  held = λ _. 0;
  reader = λ _. Reader.outside;
}

abbrev pub go_to : Shared → ℕ → Reader → Shared
go_to s i pc = record s { reader = update s.reader i pc }

-- a reference for the caller, unless the count is 0: the end of either look-up
unfoldable pub try_hold : Shared → ℕ → ℕ → KeySlot → Shared
try_hold s i p ks =
    if ks.refcount == 0 then go_to s i Reader.leaving else record (go_to s i Reader.leaving) {
      slots = update s.slots p (some (record ks { refcount = ks.refcount + 1 }));
      held = update s.held p (s.held p + 1);
    }

abbrev pub after_primary : Option ℕ → Reader
after_primary none = Reader.leaving
after_primary (some k) = Reader.missed k

abbrev pub wants : Option ℕ → KeySlot → Bool
wants none ks = true
wants (some k) ks = ks.key_id == k

-- One step of a reader that is inside: `none` is the read of a slot that has been freed. The key id
-- of a slot never changes, so that its test and the hold are one step. The last step leaves the read
-- section.
unfoldable pub read_on : Shared → ℕ → Reader → Option Shared
unfolding try_hold
read_on s i Reader.outside = some s
read_on s i (Reader.entered wanted) = elim s.primary [
  | none ↦ some (go_to s i (after_primary wanted))
  | some p ↦ some (go_to s i (Reader.primary_loaded wanted p))
]
read_on s i (Reader.primary_loaded wanted p) = do
  ks ← s.slots p
  some (if wants wanted ks then try_hold s i p ks else go_to s i (after_primary wanted))
read_on s i (Reader.missed k) = elim s.secondary [
  | none ↦ some (go_to s i Reader.leaving)
  | some p ↦ some (go_to s i (Reader.secondary_loaded k p))
]
read_on s i (Reader.secondary_loaded k p) = do
  ks ← s.slots p
  some (if ks.key_id == k then try_hold s i p ks else go_to s i Reader.leaving)
read_on s i Reader.leaving =
    some
      (record (go_to s i Reader.outside) { waits = λ p j. if i == j then false else s.waits p j })

-- `ovpn_crypto_key_slot_primary` and `ovpn_crypto_key_id_to_slot`, the next step of reader `i`
unfoldable pub read : Shared → ℕ → Option Shared
unfolding read_on
read s i = read_on s i (s.reader i)

-- What the functions of crypto.c do to the shared memory: the slot of `ovpn_crypto_state_reset` is
-- new at an address; a pointer is replaced, and its reference goes to the caller; a swap takes two
-- steps; a reference is put, and the callback of RCU destroys a slot.
pub data Write : Type 0 where
  install : ℕ → KeySlot → Write
  replace_primary replace_secondary : Option ℕ → Write
  swap_primary swap_secondary : Write
  put destroy : ℕ → Write

-- the references after a pointer is replaced: that of the new one goes into the pointer
abbrev pub exchanged : (ℕ → ℕ) → Option ℕ → Option ℕ → ℕ → ℕ
exchanged held new old q = held q - points new q + points old q

-- The step itself; `none` is a put of a slot that has been freed or that has no reference.
unfoldable pub write : Shared → Write → Option Shared
write s (Write.install p ks) =
    some (record s { slots = update s.slots p (some ks); held = update s.held p (s.held p + 1) })
write s (Write.replace_primary new) =
    some (record s { primary = new; held = exchanged s.held new s.primary })
write s (Write.replace_secondary new) =
    some (record s { secondary = new; held = exchanged s.held new s.secondary })
write s Write.swap_primary = some (record s { primary = s.secondary; swapping = some s.primary })
write s Write.swap_secondary = elim s.swapping [
  | none ↦ some s
  | some old ↦ some (record s { secondary = old; swapping = none })
]
write s (Write.put p) = do
  ks ← s.slots p
  if ks.refcount == 0
      then none
      else some (record s {
        slots = update s.slots p (some (record ks { refcount = ks.refcount - 1 }));
        held = update s.held p (s.held p - 1);
        queued = if ks.refcount == 1 then update s.queued p true else s.queued;
        waits = if ks.refcount == 1 then update s.waits p (λ i. inside (s.reader i)) else s.waits;
      })
write s (Write.destroy p) =
    some (record s { slots = update s.slots p none; queued = update s.queued p false })

-- When a step may happen: an allocation is at a free address, the slot has one reference, pointers
-- change under the mutex, callers use references that they hold, and RCU waits for the readers.
abbrev pub Permitted : Shared → Write → Type 0
Permitted s (Write.install p ks) = (s.slots p ≡ none) × (ks.refcount ≡ 1)
Permitted s (Write.replace_primary new) = (s.swapping ≡ none) × ((q : ℕ) → points new q ≤ s.held q)
Permitted s (Write.replace_secondary new) =
    (s.swapping ≡ none) × ((q : ℕ) → points new q ≤ s.held q)
Permitted s Write.swap_primary = s.swapping ≡ none
Permitted s Write.swap_secondary = Unit {0}
Permitted s (Write.put p) = s.held p ≢ 0
Permitted s (Write.destroy p) = (s.queued p ≡ true) × ((i : ℕ) → s.waits p i ≡ false)

-- The states that any interleaving of readers and writers reaches. A reader comes in at any time,
-- for the primary slot or for a key id.
pub data Reach : Shared → Type 0 where
  start : Reach start_shared
  comes :
      {s : Shared} (i : ℕ) (wanted : Option ℕ)
      → Reach s
      → s.reader i ≡ Reader.outside
      → Reach (go_to s i (Reader.entered wanted))
  reads : {s s' : Shared} (i : ℕ) → Reach s → read s i ≡ some s' → Reach s'
  writes : {s s' : Shared} (w : Write) → Reach s → Permitted s w → write s w ≡ some s' → Reach s'
