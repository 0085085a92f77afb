-- ===== src/Netlink/Sessions.antt =====
-- Whole sequences of commands on keys and the keepalive.
use ovpn_dco.Base.{
  ℕ, List, [], ◌∷◌, ◌≡◌, refl, sym, ap, ◌∙◌, Option, some, ◌==◌, Bool-cases, inl, inr, update,
  ==_iff, Status,
}
use mathlib.Core.Path.{subst}
use ovpn_dco.Crypto.{◌>>=◌}
use ovpn_dco.Crypto.Refs.{IsCounted, Ensures, Ensures->>=, Ensures-map}
use ovpn_dco.Peer.{Ovpn}
use ovpn_dco.Peer.References.{refs}
use ovpn_dco.Data.{Kernel}
use ovpn_dco.Netlink.Commands.{Command, run}
use ovpn_dco.Netlink.Changes.{Changes, Commanded, IsSound, nobody, run-Commanded}

-- the commands one after the other, each at its time
unfoldable pub runs : Kernel → Ovpn → List (ℕ × Command) → Option Ovpn
unfolding run
runs k o [] = some o
runs k o ((now, c) ∷ cs) = do (ret, o') ← run k now o c; runs k o' cs

-- The ids and counts of all peers and the table by id are the same.
abbrev pub SameTable : Ovpn → Ovpn → Type 0
SameTable o o' =
    ((q : ℕ) → ((o'.peers q).id ≡ (o.peers q).id) × (refs o' q ≡ refs o q)) × (o'.by_id ≡ o.by_id)

Changes-SameTable : (o o' : Ovpn) → Changes o o' → SameTable o o'
Changes-SameTable o o' c = subst (λ x. SameTable o x) (sym c.others) ((λ q. same q), refl)
  where
    same :
        (q : ℕ)
        → ((update o.peers c.changed c.after q).id ≡ (o.peers q).id)
          × ((update o.peers c.changed c.after q).refcount ≡ (o.peers q).refcount)
    same q = elim (Bool-cases (c.changed == q)) [
      | inl e ↦
          (let eq = (==_iff c.changed q).0 e in
            rw e (
              c.same_id ∙ ap (λ x. (o.peers x).id) eq,
              c.same_count ∙ ap (λ x. (o.peers x).refcount) eq,
            ))
      | inr e ↦ rw e (refl, refl)
    ]

Changes-IsSound : (o o' : Ovpn) → Changes o o' → IsSound o → IsSound o'
Changes-IsSound o o' c sound = subst IsSound (sym c.others) each
  where
    each : (q : ℕ) → IsCounted (update o.peers c.changed c.after q).crypto nobody
    each q = elim (Bool-cases (c.changed == q)) [ inl e ↦ rw e c.counted | inr e ↦ rw e (sound q) ]

-- Any sequence of commands on keys and the keepalive runs without a fault, from a state where the
-- key slots are counted right to another, and leaves the id and the reference count of every peer
-- and the table by id as they were.
pub runs-IsSound :
    (k : Kernel) (o : Ovpn) (cs : List (ℕ × Command))
    → IsSound o
    → Ensures (λ o'. IsSound o' × SameTable o o') (runs k o cs)
unfolding runs
runs-IsSound k o [] sound = (sound, ((λ q. (refl, refl)), refl))
runs-IsSound k o ((now, c) ∷ cs) sound =
    Ensures->>= _ _ (run k now o c) _ (run-Commanded k now o c sound) (λ (r : Status × Ovpn) d.
      let (sound', same) : IsSound r.1 × SameTable o r.1 = next r d in
      Ensures-map _ _ (runs k r.1 cs) (runs-IsSound k r.1 cs sound') (λ o' h.
        (h.0, ((λ q. ((h.1.0 q).0 ∙ (same.0 q).0, (h.1.0 q).1 ∙ (same.0 q).1)), h.1.1 ∙ same.1))))
  where
    next : (r : Status × Ovpn) → Commanded o r → IsSound r.1 × SameTable o r.1
    next r (inl (e, same)) =
        let s : o ≡ r.1 = sym (ap (λ (x : Status × Ovpn). x.1) same) in
        (subst IsSound s sound, subst (SameTable o) s ((λ q. (refl, refl)), refl))
    next r (inr c) = (Changes-IsSound o r.1 c sound, Changes-SameTable o r.1 c)
