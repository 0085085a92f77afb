-- ===== src/Tests/Readers.antt =====
-- A reader of the key slots in a race: it has loaded the primary pointer when a writer deletes the
-- key and puts the last reference.
use ovpn_dco.Base.{ℕ, ◌+◌, ◌≡◌, refl, arith, none, some}
use ovpn_dco.Crypto.Refs.{count_of, points, Ensures}
use ovpn_dco.Crypto.Release.{dead}
use ovpn_dco.Crypto.Readers.{Shared, read, Write, write, start_shared, Reach}
use ovpn_dco.Crypto.Readers.Safety.{other, Reach-safe}
use ovpn_dco.Tests.{slot}

abbrev Reached : Type 0
Reached = (s : Shared) × Reach s

-- the key stands at address 5, and reader 0 has loaded its pointer
abbrev loaded : Reached
unfolding write read start_shared
loaded =
    let r1 : Reached = (_, Reach.writes (Write.install 5 slot) Reach.start (refl, refl) refl) in
    let r2 : Reached =
      (_, Reach.writes (Write.replace_primary (some 5)) r1.1 (refl, λ q. ground arith) refl) in
    let r3 : Reached = (_, Reach.comes 0 (some 2) r2.1 refl) in (_, Reach.reads 0 r3.1 refl)

-- the pointer is gone, and the slot is queued to be destroyed
abbrev raced : Reached
unfolding write read start_shared loaded
raced =
    let r1 : Reached =
      (_, Reach.writes (Write.replace_primary none) loaded.1 (refl, λ q. ground arith) refl) in
    (_, Reach.writes (Write.put 5) r1.1 (λ e. ground arith) refl)

Reach-safe_example :
    Ensures (λ _. Unit {0}) (read raced.0 0)
    × Ensures (λ _. Unit {0}) (write raced.0 (Write.replace_primary none))
    × ((p : ℕ)
        → count_of (raced.0.slots p)
          ≡ points raced.0.primary p
            + points (other raced.0.swapping raced.0.secondary) p
            + raced.0.held p)
    × ((p : ℕ) → raced.0.queued p ≡ dead (raced.0.slots p))
unfolding write read start_shared loaded raced
Reach-safe_example = Reach-safe 0 (Write.replace_primary none) raced.1 (refl, λ q. ground arith)
