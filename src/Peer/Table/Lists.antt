-- ===== src/Peer/Table/Lists.antt =====
-- Lemmas on the buckets of the table by id: what a removal from a bucket keeps.
use ovpn_dco.Base.{
  ℕ, List, [], ◌∷◌, Bool, true, false, ◌&&◌, ◌||◌, not, none, some, ◌==◌, update, first, mem, all,
  ◌≡◌, refl, ◌≢◌, inl, inr, Bool-cases, ==_iff, update_ne, arith,
}
use ovpn_dco.Peer.{Peer}
use ovpn_dco.Peer.Table.{erase}

-- no two peers of the list have the same id
unfoldable pub distinct_ids : (ℕ → Peer) → List ℕ → Bool
unfolding all
distinct_ids peers [] = true
distinct_ids peers (p ∷ ps) =
    all (λ q. not ((peers q).id == (peers p).id)) ps && distinct_ids peers ps

-- every test that the removed entry alone may change
pub all-erase :
    (test test' : ℕ → Bool) (p : ℕ) (ps : List ℕ)
    → ((q : ℕ) → p ≢ q → test' q ≡ test q)
    → all test ps ≡ true
    → all test' (erase p ps) ≡ true
unfolding all erase
all-erase test test' p [] same every = refl
all-erase test test' p (q ∷ qs) same every =
    let rest = all-erase test test' p qs same in
    let keeps = same q in elim (Bool-cases (p == q)) [ inl e ↦ ground arith | inr e ↦ ground arith ]

pub distinct_ids-erase :
    (peers : ℕ → Peer) (p : ℕ) (pr : Peer) (ps : List ℕ)
    → distinct_ids peers ps ≡ true
    → distinct_ids (update peers p pr) (erase p ps) ≡ true
unfolding distinct_ids erase
distinct_ids-erase peers p pr [] distinct = refl
distinct_ids-erase peers p pr (q ∷ qs) distinct =
    let rest = distinct_ids-erase peers p pr qs in
    let others =
      all-erase (λ r. not ((peers r).id == (peers q).id))
        (λ r. not ((update peers p pr r).id == (peers q).id)) p qs
        (λ r ne. rw (update_ne peers p r pr ne) refl) in
    elim (Bool-cases (p == q)) [
      | inl e ↦ ground arith
      | inr e ↦ (let keep = update_ne peers p q pr in ground arith)
    ]

-- an entry that passes and whose id no other entry has is the first that passes
pub first_unique :
    (test : ℕ → Bool) (p : ℕ) (ps : List ℕ)
    → mem p ps ≡ true
    → test p ≡ true
    → all (λ q. not (test q) || (p == q)) ps ≡ true
    → first test ps ≡ some p
unfolding all mem first
first_unique test p [] member passes only = ground arith
first_unique test p (q ∷ qs) member passes only =
    let rest = first_unique test p qs in
    let same = (==_iff p q).0 in
    elim (Bool-cases (test q)) [ inl e ↦ ground arith | inr e ↦ ground arith ]

pub first_without :
    (test : ℕ → Bool) (ps : List ℕ) → all (λ q. not (test q)) ps ≡ true → first test ps ≡ none
unfolding all first
first_without test [] nowhere = refl
first_without test (q ∷ qs) nowhere =
    let rest = first_without test qs in
    elim (Bool-cases (test q)) [ inl e ↦ ground arith | inr e ↦ ground arith ]

-- a removal of an entry that does not pass, and that does not change the test of the others
pub first-erase :
    (test test' : ℕ → Bool) (p : ℕ) (ps : List ℕ)
    → ((q : ℕ) → p ≢ q → test' q ≡ test q)
    → test p ≡ false
    → first test' (erase p ps) ≡ first test ps
unfolding first erase
first-erase test test' p [] same fails = refl
first-erase test test' p (q ∷ qs) same fails =
    let rest = first-erase test test' p qs same fails in
    let keeps = same q in elim (Bool-cases (p == q)) [ inl e ↦ ground arith | inr e ↦ ground arith ]

pub mem-erase :
    (p q : ℕ) (ps : List ℕ) → mem q (erase p ps) ≡ true → ((p == q) ≡ false) × (mem q ps ≡ true)
unfolding mem erase
mem-erase p q [] member = ground arith
mem-erase p q (r ∷ rs) member =
    let rest = mem-erase p q rs in
    let same = (==_iff q r).0 in
    elim (Bool-cases (p == r)) [ inl e ↦ ground arith | inr e ↦ ground arith ]
