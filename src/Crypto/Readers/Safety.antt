-- ===== src/Crypto/Readers/Safety.antt =====
-- No reader of the key slots meets freed memory, however it is interleaved with the writers.
use mathlib.Core.Path.{subst}
use ovpn_dco.Base.{
  ℕ, ◌+◌, ◌≡◌, ◌≢◌, refl, arith, Bool, true, false, not, ◌&&◌, ◌||◌, Option, none, some, ◌==◌,
  Bool-cases, inl, inr, sym, eq_self,
}
use ovpn_dco.KeySlot.{KeySlot}
use ovpn_dco.Crypto.Refs.{count_of, points, Ensures, Ensures-map}
use ovpn_dco.Crypto.Release.{dead}
use ovpn_dco.Crypto.Readers.{
  Reader, inside, Shared, start_shared, go_to, try_hold, after_primary, wants, read_on, read, Write,
  write, Permitted, Reach,
}

-- whether the reader has a pointer to the slot
abbrev pub has_loaded : Reader → ℕ → Bool
has_loaded (Reader.primary_loaded _ q) p = q == p
has_loaded (Reader.secondary_loaded _ q) p = q == p
has_loaded _ p = false

-- the reference that stands for the secondary pointer; in a swap it is the old primary's
abbrev pub other : Option (Option ℕ) → Option ℕ → Option ℕ
other none secondary = secondary
other (some old) secondary = old

abbrev pub is_live : Option KeySlot → Bool
is_live o = not (count_of o == 0)

pub record IsShared (s : Shared) : Type 0 where
  pub counted :
      (p : ℕ)
      → count_of (s.slots p)
        ≡ points s.primary p + points (other s.swapping s.secondary) p + s.held p
  pub queue : (p : ℕ) → dead (s.slots p) ≡ s.queued p
  pub guarded :
      (i p : ℕ)
      → has_loaded (s.reader i) p ≡ true
      → is_live (s.slots p) || (s.queued p && s.waits p i) ≡ true
  pub one_swap : (old : Option ℕ) → s.swapping ≡ some old → s.secondary ≡ s.primary

start-IsShared : IsShared start_shared
unfolding start_shared
start-IsShared = record {
  counted = λ p. refl;
  queue = λ p. refl;
  guarded = λ i p h. cc;
  one_swap = λ old e. cc;
}

-- a step of a reader that changes nothing but where it stands
go_to-IsShared :
    (s : Shared) (i : ℕ) (pc : Reader)
    → IsShared s
    → ((p : ℕ) → has_loaded pc p ≡ true → is_live (s.slots p) || (s.queued p && s.waits p i) ≡ true)
    → IsShared (go_to s i pc)
go_to-IsShared s i pc v h = record {
  counted = v.counted;
  queue = v.queue;
  guarded = λ j p l. ground (arith, v.guarded j p, h p);
  one_swap = v.one_swap;
}

try_hold-IsShared :
    (s : Shared) (i p : ℕ) (ks : KeySlot)
    → IsShared s
    → s.slots p ≡ some ks
    → IsShared (try_hold s i p ks)
unfolding try_hold
try_hold-IsShared s i p ks v e = elim (Bool-cases (ks.refcount == 0)) [
  | inl z ↦ rw z (go_to-IsShared s i Reader.leaving v (λ q l. cc))
  | inr z ↦ rw z (record {
    counted = λ q. ground (arith, v.counted q, v.counted p);
    queue = λ q. ground (arith, v.queue q, v.queue p);
    guarded = λ j q l. ground (arith, v.guarded j q);
    one_swap = v.one_swap;
  })
]

-- what a pointer leads to is live
primary_live : (s : Shared) (p : ℕ) → IsShared s → s.primary ≡ some p → is_live (s.slots p) ≡ true
primary_live s p v e = ground (arith, v.counted p)

secondary_live :
    (s : Shared) (p : ℕ) → IsShared s → s.secondary ≡ some p → is_live (s.slots p) ≡ true
secondary_live s p v e = go s.swapping refl
  where
    go : (o : Option (Option ℕ)) → s.swapping ≡ o → is_live (s.slots p) ≡ true
    go none f = ground (arith, v.counted p, f)
    go (some old) f = ground (arith, v.counted p, v.one_swap old f)

-- a slot that a reader has a pointer to is there
guarded_there :
    (s : Shared) (i p : ℕ)
    → IsShared s
    → has_loaded (s.reader i) p ≡ true
    → (ks : KeySlot) × (s.slots p ≡ some ks)
guarded_there s i p v l = go (s.slots p) refl
  where
    go : (o : Option KeySlot) → s.slots p ≡ o → (ks : KeySlot) × (s.slots p ≡ some ks)
    go none e = absurd (ground (arith, v.guarded i p l, v.queue p))
    go (some ks) e = (ks, e)

after_primary_loads : (wanted : Option ℕ) (p : ℕ) → has_loaded (after_primary wanted) p ≡ false
after_primary_loads none p = refl
after_primary_loads (some k) p = refl

-- A step of a reader that stands at `pc` meets no freed slot.
read_on-IsShared :
    (s : Shared) (i : ℕ) (pc : Reader)
    → IsShared s
    → s.reader i ≡ pc
    → Ensures IsShared (read_on s i pc)
unfolding read_on
read_on-IsShared s i Reader.outside v e = v
read_on-IsShared s i (Reader.entered wanted) v e = go s.primary refl
  where
    go :
        (o : Option ℕ)
        → s.primary ≡ o
        → Ensures IsShared (elim o [
          | none ↦ some (go_to s i (after_primary wanted))
          | some p ↦ some (go_to s i (Reader.primary_loaded wanted p))
        ])
    go none f =
        go_to-IsShared s i (after_primary wanted) v (λ q l. cc (after_primary_loads wanted q))
    go (some p) f =
        go_to-IsShared s i (Reader.primary_loaded wanted p) v
          (λ q l. ground (arith, primary_live s p v f))
read_on-IsShared s i (Reader.primary_loaded wanted p) v e =
    let (ks, f) = guarded_there s i p v (rw (e, eq_self p) refl) in
    rw f (elim (Bool-cases (wants wanted ks)) [
      | inl w ↦ rw w (try_hold-IsShared s i p ks v f)
      | inr w ↦
          rw w
            (go_to-IsShared s i (after_primary wanted) v (λ q l. cc (after_primary_loads wanted q)))
    ])
read_on-IsShared s i (Reader.missed k) v e = go s.secondary refl
  where
    go :
        (o : Option ℕ)
        → s.secondary ≡ o
        → Ensures IsShared (elim o [
          | none ↦ some (go_to s i Reader.leaving)
          | some p ↦ some (go_to s i (Reader.secondary_loaded k p))
        ])
    go none f = go_to-IsShared s i Reader.leaving v (λ q l. cc)
    go (some p) f =
        go_to-IsShared s i (Reader.secondary_loaded k p) v
          (λ q l. ground (arith, secondary_live s p v f))
read_on-IsShared s i (Reader.secondary_loaded k p) v e =
    let (ks, f) = guarded_there s i p v (rw (e, eq_self p) refl) in
    rw f (elim (Bool-cases (ks.key_id == k)) [
      | inl w ↦ rw w (try_hold-IsShared s i p ks v f)
      | inr w ↦ rw w (go_to-IsShared s i Reader.leaving v (λ q l. cc))
    ])
read_on-IsShared s i Reader.leaving v e = record {
  counted = v.counted;
  queue = v.queue;
  guarded = λ j p l. ground (arith, v.guarded j p);
  one_swap = v.one_swap;
}

read-IsShared : (s : Shared) (i : ℕ) → IsShared s → Ensures IsShared (read s i)
unfolding read
read-IsShared s i v = read_on-IsShared s i (s.reader i) v refl

-- a slot that a caller holds has a count
held_there :
    (s : Shared) (p : ℕ)
    → IsShared s
    → s.held p ≢ 0
    → (ks : KeySlot) × (s.slots p ≡ some ks) × ((ks.refcount == 0) ≡ false)
held_there s p v h = go (s.slots p) refl
  where
    go :
        (o : Option KeySlot)
        → s.slots p ≡ o
        → (ks : KeySlot) × (s.slots p ≡ some ks) × ((ks.refcount == 0) ≡ false)
    go none e = absurd (ground (arith, v.counted p, e))
    go (some ks) e = (ks, e, ground (arith, v.counted p, e))

loaded_inside : (pc : Reader) (p : ℕ) → has_loaded pc p ≡ true → inside pc ≡ true
loaded_inside Reader.outside p l = cc
loaded_inside (Reader.entered _) p l = refl
loaded_inside (Reader.primary_loaded _ _) p l = refl
loaded_inside (Reader.missed _) p l = refl
loaded_inside (Reader.secondary_loaded _ _) p l = refl
loaded_inside Reader.leaving p l = refl

write-IsShared :
    (s : Shared) (w : Write) → IsShared s → Permitted s w → Ensures IsShared (write s w)
unfolding write
write-IsShared s (Write.install p ks) v h = record {
  counted = λ q. ground (arith, v.counted q, h.0, h.1);
  queue = λ q. ground (arith, v.queue q, v.queue p, h.0, h.1);
  guarded = λ j q l. ground (arith, v.guarded j q, h.1);
  one_swap = v.one_swap;
}
write-IsShared s (Write.replace_primary new) v h = record {
  counted = λ q. ground (arith, v.counted q, h.0, h.1 q);
  queue = v.queue;
  guarded = v.guarded;
  one_swap = λ old e. cc (h.0);
}
write-IsShared s (Write.replace_secondary new) v h = record {
  counted = λ q. ground (arith, v.counted q, h.0, h.1 q);
  queue = v.queue;
  guarded = v.guarded;
  one_swap = λ old e. cc (h.0);
}
write-IsShared s Write.swap_primary v h = record {
  counted = λ q. ground (arith, v.counted q, h);
  queue = v.queue;
  guarded = v.guarded;
  one_swap = λ old e. refl;
}
write-IsShared s Write.swap_secondary v h = go s.swapping refl
  where
    go :
        (o : Option (Option ℕ))
        → s.swapping ≡ o
        → Ensures IsShared (elim o [
          | none ↦ some s
          | some old ↦ some (record s { secondary = old; swapping = none })
        ])
    go none e = v
    go (some old) e = record {
      counted = λ q. ground (arith, v.counted q, e);
      queue = v.queue;
      guarded = v.guarded;
      one_swap = λ o f. cc;
    }
write-IsShared s (Write.put p) v h =
    let (ks, e, z) = held_there s p v h in
    rw (e, write)
      (rw (z, write)
        (record {
          counted = λ q. ground (arith, v.counted q, e, z);
          queue = λ q. ground (arith, v.queue q, v.queue p, e, z);
          guarded = λ j q l.
              ground
                (arith, v.guarded j q, v.queue q, v.queue p, loaded_inside (s.reader j) q, e, z);
          one_swap = v.one_swap;
        }))
write-IsShared s (Write.destroy p) v h = record {
  counted = λ q. ground (arith, v.counted q, v.queue q, h.0);
  queue = λ q. ground (arith, v.queue q);
  guarded = λ j q l. ground (arith, v.guarded j q, v.queue q, h.0, h.1 j);
  one_swap = v.one_swap;
}

Reach-IsShared : {s : Shared} → Reach s → IsShared s
Reach-IsShared Reach.start = start-IsShared
Reach-IsShared (Reach.comes {s} i wanted r e) =
    go_to-IsShared s i (Reader.entered wanted) (Reach-IsShared r) (λ p l. cc)
Reach-IsShared (Reach.reads {s} i r e) =
    subst (Ensures IsShared) e (read-IsShared s i (Reach-IsShared r))
Reach-IsShared (Reach.writes {s} w r h e) =
    subst (Ensures IsShared) e (write-IsShared s w (Reach-IsShared r) h)

-- In every state that readers and writers reach, however they are interleaved: the next step of any
-- reader does not meet a freed slot, and no permitted step of a writer puts a freed slot or one
-- without references. The count of each slot is the number of pointers to it and of references that
-- callers hold, where in the middle of a swap the old primary stands for the secondary pointer. The
-- slots that wait for the callback of `call_rcu` are those that are still there with a count of 0.
pub Reach-safe :
    {s : Shared} (i : ℕ) (w : Write)
    → Reach s
    → Permitted s w
    → Ensures (λ _. Unit {0}) (read s i)
      × Ensures (λ _. Unit {0}) (write s w)
      × ((p : ℕ)
          → count_of (s.slots p)
            ≡ points s.primary p + points (other s.swapping s.secondary) p + s.held p)
      × ((p : ℕ) → s.queued p ≡ dead (s.slots p))
Reach-safe {s} i w r h =
    let v = Reach-IsShared r in
    (
      Ensures-map IsShared _ (read s i) (read-IsShared s i v) (λ _ _. tt),
      Ensures-map IsShared _ (write s w) (write-IsShared s w v h) (λ _ _. tt),
      v.counted,
      λ p. sym (v.queue p),
    )
