-- ===== src/Base/Search.antt =====
-- Searches of lists: Boolean quantifiers, membership of a list of numbers and the first entry that
-- passes a test.
use Prim.Native.Nat.{ℕ}
use mathlib.Core.Path.{◌≡◌, refl}
use mathlib.Core.Logic.{inl, inr}
use mathlib.Core.Bool.{Bool, true, false, not, ◌&&◌, ◌||◌}
use mathlib.Core.Option.{Option, none, some}
use mathlib.Core.List.{List, [], ◌∷◌}
use ovpn_dco.Base.Test.{◌==◌, ==_iff, eq_self, if◌then◌else◌, Bool-cases}
use native.Mathlib.Omega.{arith}

unfoldable pub all : (ℕ → Bool) → List ℕ → Bool
all test [] = true
all test (p ∷ ps) = test p && all test ps

unfoldable pub mem : ℕ → List ℕ → Bool
mem p [] = false
mem p (q ∷ qs) = (p == q) || mem p qs

unfoldable pub first : (ℕ → Bool) → List ℕ → Option ℕ
first test [] = none
first test (p ∷ ps) = let rest = first test ps in if test p then some p else rest

pub all-mem :
    (test : ℕ → Bool) (p : ℕ) (ps : List ℕ) → all test ps ≡ true → mem p ps ≡ true → test p ≡ true
unfolding all mem
all-mem test p [] every member = ground arith
all-mem test p (q ∷ qs) every member =
    let rest = all-mem test p qs in
    let same = (==_iff p q).0 in
    elim (Bool-cases (p == q)) [ inl e ↦ (let eq = same e in ground arith) | inr e ↦ ground arith ]

pub first-none :
    (test : ℕ → Bool) (p : ℕ) (ps : List ℕ)
    → first test ps ≡ none
    → mem p ps ≡ true
    → test p ≡ false
unfolding first mem
first-none test p [] nothing member = ground arith
first-none test p (q ∷ qs) nothing member =
    let rest = first-none test p qs in
    let same = (==_iff p q).0 in
    elim (Bool-cases (p == q)) [ inl e ↦ (let eq = same e in ground arith) | inr e ↦ ground arith ]

pub first-some :
    (test : ℕ → Bool) (p : ℕ) (ps : List ℕ)
    → first test ps ≡ some p
    → (mem p ps ≡ true) × (test p ≡ true)
unfolding first mem
first-some test p [] found = ground arith
first-some test p (q ∷ qs) found =
    let rest = first-some test p qs in
    let self = eq_self p in
    elim (Bool-cases (test q)) [ inl e ↦ ground arith | inr e ↦ ground arith ]

pub all_imp :
    (test test' : ℕ → Bool) (ps : List ℕ)
    → ((p : ℕ) → test p ≡ true → test' p ≡ true)
    → all test ps ≡ true
    → all test' ps ≡ true
unfolding all
all_imp test test' [] weaker every = refl
all_imp test test' (q ∷ qs) weaker every =
    let rest = all_imp test test' qs weaker in
    let here = weaker q in
    elim (Bool-cases (test q)) [ inl e ↦ ground arith | inr e ↦ ground arith ]

pub all_both :
    (test test' both : ℕ → Bool) (ps : List ℕ)
    → ((p : ℕ) → test p ≡ true → test' p ≡ true → both p ≡ true)
    → all test ps ≡ true
    → all test' ps ≡ true
    → all both ps ≡ true
unfolding all
all_both test test' both [] join every every' = refl
all_both test test' both (q ∷ qs) join every every' =
    let rest = all_both test test' both qs join in
    let here = join q in elim (Bool-cases (test q)) [ inl e ↦ ground arith | inr e ↦ ground arith ]

pub first-nowhere :
    (test : ℕ → Bool) (ps : List ℕ) → first test ps ≡ none → all (λ p. not (test p)) ps ≡ true
unfolding all first
first-nowhere test [] nothing = refl
first-nowhere test (q ∷ qs) nothing =
    let rest = first-nowhere test qs in
    elim (Bool-cases (test q)) [ inl e ↦ ground arith | inr e ↦ ground arith ]
