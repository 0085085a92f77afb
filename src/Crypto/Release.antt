-- ===== src/Crypto/Release.antt =====
-- The end of a peer's key slots, `ovpn_crypto_state_release` and the grace period after it: a slot
-- whose count is 0 waits in `pending` until its memory is given back.
use mathlib.Core.Path.{subst}
use ovpn_dco.Base.{
  ℕ, ◌≡◌, refl, arith, List, [], ◌∷◌, Bool, true, false, Option, none, some, ◌==◌, if◌then◌else◌,
  Bool-cases, inl, inr, mem, update, ok, err, Status, einval,
}
use ovpn_dco.KeySlot.{KeySlot}
use ovpn_dco.Crypto.{
  CryptoState, ◌>>=◌, state_init, slot_hold, slot_put, put_if, destroy_all, grace_period, add_slot,
  state_release, state_reset, slot_delete, slots_swap, slot_primary_id, slot_secondary_id,
  has_key_id, hold_or_null, key_id_to_slot, slot_primary,
}
use ovpn_dco.Crypto.Refs.{count_of, IsCounted, Ensures}
use ovpn_dco.Crypto.Runs.{Op, perform, Allowed, Run, Run-IsCounted}
use ovpn_dco.Crypto.Keys.{state_release_lem}

-- a slot without references whose memory is still there
abbrev pub dead : Option KeySlot → Bool
dead none = false
dead (some ks) = ks.refcount == 0

-- The slots that are queued to be destroyed are the dead ones.
abbrev pub IsQueued : CryptoState → Type 0
IsQueued cs = (p : ℕ) → dead (cs.slots p) ≡ mem p cs.pending

abbrev Left : {A : Type 0} → A × CryptoState → Type 0
Left r = IsQueued r.1

-- what a computation leaves behind, if it does not fault
abbrev IfRuns : {A : Type 0} → (A → Type 0) → Option A → Type 0
IfRuns P none = Unit {0}
IfRuns P (some a) = P a

IfRuns->>= :
    {A B : Type 0} (P : A → Type 0) (Q : B → Type 0) (m : Option A) (f : A → Option B)
    → IfRuns P m
    → ((a : A) → P a → IfRuns Q (f a))
    → IfRuns Q (m >>= f)
IfRuns->>= P Q none f h k = tt
IfRuns->>= P Q (some a) f h k = k a h

slot_put-IsQueued : (cs : CryptoState) (p : ℕ) → IsQueued cs → IfRuns IsQueued (slot_put cs p)
unfolding slot_put
slot_put-IsQueued cs p v = go (cs.slots p) refl
  where
    go : (o : Option KeySlot) → cs.slots p ≡ o → IfRuns IsQueued (slot_put cs p)
    go none e = rw (e, slot_put) tt
    go (some ks) e = elim (Bool-cases (ks.refcount == 0)) [
      | inl z ↦ rw (e, slot_put) (rw (z, slot_put) tt)
      | inr z ↦ rw (e, slot_put) (rw (z, slot_put) (λ q. unfold mem in ground (arith, v q, v p, e)))
    ]

put_if-IsQueued : (cs : CryptoState) (p : Option ℕ) → IsQueued cs → IfRuns IsQueued (put_if cs p)
unfolding put_if
put_if-IsQueued cs none v = v
put_if-IsQueued cs (some p) v = slot_put-IsQueued cs p v

hold_or_null-IsQueued :
    (cs : CryptoState) (p : Option ℕ) → IsQueued cs → IfRuns Left (hold_or_null cs p)
unfolding hold_or_null slot_hold
hold_or_null-IsQueued cs none v = v
hold_or_null-IsQueued cs (some p) v = go (cs.slots p) refl
  where
    go : (o : Option KeySlot) → cs.slots p ≡ o → IfRuns Left (hold_or_null cs (some p))
    go none e = rw (e, hold_or_null) tt
    go (some ks) e = elim (Bool-cases (ks.refcount == 0)) [
      | inl z ↦ rw (e, hold_or_null) (rw (z, hold_or_null) v)
      | inr z ↦ rw (e, hold_or_null) (rw (z, hold_or_null) (λ q. ground (arith, v q, v p, e)))
    ]

-- `ovpn_crypto_key_id_to_slot` reads the key ids without a change of the state.
reading-IsQueued :
    (cs : CryptoState) (m : Option Bool) (f : Bool → Option (Option ℕ × CryptoState))
    → ((b : Bool) → IfRuns Left (f b))
    → IfRuns Left (m >>= f)
reading-IsQueued cs none f h = tt
reading-IsQueued cs (some b) f h = h b

key_id_to_slot-IsQueued :
    (cs : CryptoState) (key_id : ℕ) → IsQueued cs → IfRuns Left (key_id_to_slot cs key_id)
unfolding key_id_to_slot
key_id_to_slot-IsQueued cs key_id v =
    reading-IsQueued cs (has_key_id cs cs.primary key_id) _ (elim [
      | true ↦ hold_or_null-IsQueued cs cs.primary v
      | false ↦
          reading-IsQueued cs (has_key_id cs cs.secondary key_id) _
            (elim [ true ↦ hold_or_null-IsQueued cs cs.secondary v | false ↦ v ])
    ])

add_slot-IsQueued :
    (cs : CryptoState) (held : ℕ → ℕ) (ks : KeySlot)
    → IsCounted cs held
    → ks.refcount ≡ 1
    → IsQueued cs
    → IsQueued (add_slot cs ks)
unfolding add_slot
add_slot-IsQueued cs held ks c one v q =
    let fresh = c.unused cs.next (omega arith) in ground (arith, v q, v cs.next, fresh, one)

-- a put at the end of an operation that returns something
ended-IsQueued :
    {A : Type 0} (a : A) (m : Option CryptoState)
    → IfRuns IsQueued m
    → IfRuns Left (m >>= (λ cs. some (a, cs)))
ended-IsQueued a m v = IfRuns->>= IsQueued Left m (λ cs. some (a, cs)) v (λ cs w. w)

-- Destroying a list of slots frees each of them and no other.
destroy_all_lem :
    (ps : List ℕ) (slots : ℕ → Option KeySlot) (q : ℕ)
    → destroy_all ps slots q ≡ (if mem q ps then none else slots q)
unfolding destroy_all mem
destroy_all_lem [] slots q = refl
destroy_all_lem (p ∷ ps) slots q =
    let rest = destroy_all_lem ps (update slots p none) q in ground (arith, rest)

state_reset-IsQueued :
    (cs : CryptoState) (held : ℕ → ℕ) (slot : ℕ) (ks : KeySlot)
    → IsCounted cs held
    → ks.refcount ≡ 1
    → IsQueued cs
    → IfRuns Left (state_reset cs slot (ok ks))
unfolding state_reset
state_reset-IsQueued cs held slot ks c one v =
    let new = add_slot cs ks in
    let w = add_slot-IsQueued cs held ks c one v in
    let first : CryptoState = record new { primary = some cs.next } in
    let second : CryptoState = record new { secondary = some cs.next } in
    let done : Status = ok tt in
    elim (Bool-cases (slot == slot_primary_id)) [
      | inl e ↦
          rw (e, state_reset)
            (ended-IsQueued done (put_if first new.primary) (put_if-IsQueued first new.primary w))
      | inr e ↦ elim (Bool-cases (slot == slot_secondary_id)) [
        | inl f ↦
            rw (e, f, state_reset)
              (ended-IsQueued done (put_if second new.secondary)
                (put_if-IsQueued second new.secondary w))
        | inr f ↦
            rw (e, f, state_reset)
              (ended-IsQueued (err einval) (slot_put new cs.next) (slot_put-IsQueued new cs.next w))
      ]
    ]

slot_delete-IsQueued :
    (cs : CryptoState) (slot : ℕ) → IsQueued cs → IfRuns IsQueued (slot_delete cs slot)
unfolding slot_delete
slot_delete-IsQueued cs slot v = elim (Bool-cases (slot == slot_primary_id)) [
  | inl e ↦ rw (e, slot_delete) (put_if-IsQueued (record cs { primary = none }) cs.primary v)
  | inr e ↦ elim (Bool-cases (slot == slot_secondary_id)) [
    | inl f ↦
        rw (e, f, slot_delete) (put_if-IsQueued (record cs { secondary = none }) cs.secondary v)
    | inr f ↦ rw (e, f, slot_delete) v
  ]
]

-- each operation keeps the queue right
perform-IsQueued :
    (o : Op) (cs : CryptoState) (held : ℕ → ℕ)
    → IsCounted cs held
    → Allowed o held
    → IsQueued cs
    → IfRuns Left (perform o cs)
unfolding perform slots_swap
perform-IsQueued (Op.reset slot (err e)) cs held c h v = unfold state_reset in v
perform-IsQueued (Op.reset slot (ok ks)) cs held c h v =
    IfRuns->>= Left Left (state_reset cs slot (ok ks)) (λ r. some (none, r.1))
      (state_reset-IsQueued cs held slot ks c h v) (λ r w. w)
perform-IsQueued (Op.delete slot) cs held c h v =
    ended-IsQueued none (slot_delete cs slot) (slot_delete-IsQueued cs slot v)
perform-IsQueued Op.swap cs held c h v = v
perform-IsQueued (Op.find key_id) cs held c h v = key_id_to_slot-IsQueued cs key_id v
perform-IsQueued Op.find_primary cs held c h v =
    unfold slot_primary in hold_or_null-IsQueued cs cs.primary v
perform-IsQueued (Op.put p) cs held c h v =
    ended-IsQueued none (slot_put cs p) (slot_put-IsQueued cs p v)

Run-IsQueued : {cs : CryptoState} {held : ℕ → ℕ} → Run cs held → IsQueued cs
Run-IsQueued Run.start = λ p. unfold state_init mem in refl
Run-IsQueued (Run.step {cs} {cs'} {held} o p r h e f) =
    subst (IfRuns Left) e (perform-IsQueued o cs held (Run-IsCounted r) h (Run-IsQueued r))

state_release-IsQueued : (cs : CryptoState) → IsQueued cs → IfRuns IsQueued (state_release cs)
unfolding state_release
state_release-IsQueued cs v =
    IfRuns->>= IsQueued IsQueued (put_if (record cs { primary = none }) cs.primary)
      (λ cs'. put_if (record cs' { secondary = none }) cs'.secondary)
      (put_if-IsQueued (record cs { primary = none }) cs.primary v)
      (λ cs' w. put_if-IsQueued (record cs' { secondary = none }) cs'.secondary w)

-- the state of each slot after the grace period
abbrev pub Freed : (ℕ → ℕ) → CryptoState → Type 0
Freed held cs = (q : ℕ) → (held q ≡ 0 → cs.slots q ≡ none) × (count_of (cs.slots q) ≡ held q)

grace_period-Freed :
    (cs : CryptoState) (held : ℕ → ℕ)
    → IsCounted cs held
    → cs.primary ≡ none
    → cs.secondary ≡ none
    → IsQueued cs
    → Freed held (grace_period cs)
unfolding grace_period
grace_period-Freed cs held c first second v q =
    let counted : count_of (cs.slots q) ≡ held q = ground (arith, c.counted q, first, second) in
    let now = destroy_all_lem cs.pending cs.slots q in rw (now) (go (cs.slots q) counted (v q))
  where
    go :
        (o : Option KeySlot)
        → count_of o ≡ held q
        → dead o ≡ mem q cs.pending
        → (held q ≡ 0 → (if mem q cs.pending then none else o) ≡ none)
          × (count_of (if mem q cs.pending then none else o) ≡ held q)
    go none counted queued = (λ z. ground arith, ground arith)
    go (some ks) counted queued = (λ z. ground arith, ground arith)

-- In every state that the operations of `Op` reach, where callers put only references that they
-- hold and a new slot comes with one reference, `ovpn_crypto_state_release` does not fault. After
-- the grace period the memory of each slot that no caller holds is given back, and any other is
-- still there with as many references as callers hold.
pub state_release-Freed :
    {cs : CryptoState} {held : ℕ → ℕ}
    → Run cs held
    → Ensures (λ cs'. Freed held (grace_period cs')) (state_release cs)
state_release-Freed {cs} {held} r =
    go (state_release cs) (state_release_lem cs held (Run-IsCounted r))
      (state_release-IsQueued cs (Run-IsQueued r))
  where
    go :
        (m : Option CryptoState)
        → Ensures (λ c. IsCounted c held × (c.primary ≡ none) × (c.secondary ≡ none)) m
        → IfRuns IsQueued m
        → Ensures (λ c. Freed held (grace_period c)) m
    go none h v = h
    go (some c) h v = grace_period-Freed c held h.0 h.1 h.2 v
