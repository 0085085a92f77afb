-- ===== src/Peer/Table/Erase.antt =====
-- Lemmas on lists of entries: several of them taken out of another list, and lists without repeats.
use ovpn_dco.Base.{
  ℕ, ◌≡◌, refl, arith, List, [], ◌∷◌, Bool, true, false, ◌&&◌, not, ◌==◌, inl, inr, Bool-cases, mem,
  all-mem,
}
use ovpn_dco.Peer.{Peer}
use ovpn_dco.Peer.Table.{erase}
use ovpn_dco.Peer.Table.Lists.{distinct_ids}

mem-erase_eq : (p q : ℕ) (qs : List ℕ) → mem q (erase p qs) ≡ mem q qs && not (p == q)
unfolding mem erase
mem-erase_eq p q [] = refl
mem-erase_eq p q (r ∷ rs) =
    let rest = mem-erase_eq p q rs in
    elim (Bool-cases (p == r)) [ inl e ↦ ground arith | inr e ↦ ground arith ]

-- the entries of one list taken from another, in order
unfoldable pub erase_all : List ℕ → List ℕ → List ℕ
erase_all [] l = l
erase_all (p ∷ ps) l = erase_all ps (erase p l)

pub mem-erase_all : (ps l : List ℕ) (q : ℕ) → mem q (erase_all ps l) ≡ mem q l && not (mem q ps)
unfolding erase_all mem
mem-erase_all [] l q = ground arith
mem-erase_all (p ∷ ps) l q =
    let rest = mem-erase_all ps (erase p l) q in ground (arith, mem-erase_eq p q l)

pub no_members : (l : List ℕ) → ((q : ℕ) → mem q l ≡ false) → l ≡ []
unfolding mem
no_members [] h = refl
no_members (q ∷ qs) h = ground (arith, h q)

erase_absent : (p : ℕ) (l : List ℕ) → mem p l ≡ false → erase p l ≡ l
unfolding mem erase
erase_absent p [] h = refl
erase_absent p (q ∷ qs) h = let rest = erase_absent p qs in ground arith

-- lists without common entries
pub erase_all_absent :
    (ps l : List ℕ) → ((q : ℕ) → mem q ps && mem q l ≡ false) → erase_all ps l ≡ l
unfolding erase_all mem
erase_all_absent [] l h = refl
erase_all_absent (p ∷ ps) l h =
    let absent = erase_absent p l (ground (arith, h p)) in
    rw absent (erase_all_absent ps l (λ q. ground (arith, h q)))

unfoldable pub nodup : List ℕ → Bool
unfolding mem
nodup [] = true
nodup (p ∷ ps) = not (mem p ps) && nodup ps

pub distinct-nodup :
    (peers : ℕ → Peer) (ps : List ℕ) → distinct_ids peers ps ≡ true → nodup ps ≡ true
unfolding distinct_ids nodup
distinct-nodup peers [] h = refl
distinct-nodup peers (p ∷ ps) h =
    let rest = distinct-nodup peers ps in
    let others = all-mem (λ q. not ((peers q).id == (peers p).id)) p ps in ground arith
