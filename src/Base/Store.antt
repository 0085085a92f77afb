-- ===== src/Base/Store.antt =====
-- Memory as a function from addresses, and a write to it.
use Prim.Native.Nat.{ℕ}
use mathlib.Core.Path.{◌≡◌, fun_ext}
use mathlib.Core.Logic.{◌≢◌}
use native.Mathlib.Omega.{arith}
use ovpn_dco.Base.Test.{◌==◌, if◌then◌else◌}

module _ {ℓ} {A : Type ℓ} where
  abbrev pub update : (ℕ → A) → ℕ → A → ℕ → A
  update f p v q = if p == q then v else f q

  pub update_self : (f : ℕ → A) (p : ℕ) (v : A) → update f p v p ≡ v
  update_self f p v = ground arith

  pub update_ne : (f : ℕ → A) (p q : ℕ) (v : A) → p ≢ q → update f p v q ≡ f q
  update_ne f p q v h = ground arith

  pub update-update : (f : ℕ → A) (p : ℕ) (v w : A) → update (update f p v) p w ≡ update f p w
  update-update f p v w = fun_ext (λ q. ground arith)

  pub update_same : (f : ℕ → A) (p : ℕ) → update f p (f p) ≡ f
  update_same f p = fun_ext (λ q. ground arith)
