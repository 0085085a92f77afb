-- ===== src/Tests/Keys.antt =====
-- Witnesses for the properties of the key slots: a peer with two keys, 2 as primary and 3 as
-- secondary, and no reference held elsewhere.
use ovpn_dco.Base.{ℕ, ◌≡◌, refl, [], arith, none, some, ◌==◌, if◌then◌else◌, ok, update}
use ovpn_dco.KeySlot.{KeySlot}
use ovpn_dco.Crypto.{
  CryptoState, state_init, state_reset, slot_delete, kill_primary, key_id_to_slot, slot_primary_id,
  state_release, grace_period,
}
use ovpn_dco.Crypto.Refs.{IsCounted, Ensures, gain}
use ovpn_dco.Crypto.Runs.{Op, perform, before, Run, Run-safe}
use ovpn_dco.Crypto.Keys.{kill_after_delete}
use ovpn_dco.Crypto.Release.{Freed, state_release-Freed}
use ovpn_dco.Tests.{slot}

abbrev other : KeySlot
other = record slot { key_id = 3 }

abbrev pub two_keys : CryptoState
two_keys = record {
  primary = some 0;
  secondary = some 1;
  slots = λ p. if p == 0 then some slot else (if p == 1 then some other else none);
  next = 2;
  pending = [];
}

abbrev pub nobody : ℕ → ℕ
nobody p = 0

pub two_keys-IsCounted : IsCounted two_keys nobody
two_keys-IsCounted = record { counted = λ p. ground arith; unused = λ p h. ground arith }

Run-safe_example :
    IsCounted state_init nobody
    × Ensures (λ _. Unit {0}) (perform (Op.reset 0 (ok slot)) state_init)
Run-safe_example = Run-safe (Op.reset 0 (ok slot)) Run.start refl

kill_after_delete_example :
    Ensures (λ cs'. kill_primary cs' ≡ none) (slot_delete two_keys slot_primary_id)
kill_after_delete_example = kill_after_delete two_keys nobody two_keys-IsCounted

-- one key installed and found by a caller, who keeps the reference
abbrev in_use : CryptoState
in_use = record {
  primary = some 0;
  secondary = none;
  slots = update (update (λ _. none) 0 (some slot)) 0 (some (record slot { refcount = 2 }));
  next = 1;
  pending = [];
}

abbrev one_held : ℕ → ℕ
one_held = gain (some 0) (before (Op.find 2) nobody)

in_use-Run : Run in_use one_held
unfolding perform state_reset key_id_to_slot state_init
in_use-Run =
    Run.step (Op.find 2) (some 0) (Run.step (Op.reset 0 (ok slot)) none Run.start refl refl refl) tt
      refl refl

state_release-Freed_example :
    Ensures (λ cs'. Freed one_held (grace_period cs')) (state_release in_use)
state_release-Freed_example = state_release-Freed in_use-Run
