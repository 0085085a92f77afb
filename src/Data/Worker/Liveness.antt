-- ===== src/Data/Worker/Liveness.antt =====
-- The work item empties its ring and comes to rest.
use ovpn_dco.Base.{
  ℕ, zero, suc, ◌+◌, ◌≤◌, ◌≡◌, refl, sym, ap, ◌∙◌, arith, List, [], ◌∷◌, ◌++◌, Bool, true, false,
  length, if◌then◌else◌, inl, inr, ◌⊎◌,
}
use mathlib.Core.List.{append-nil}
use mathlib.Core.Path.{subst}
use ovpn_dco.Data.Worker.{Work, Phase, Step, Reach, rest, turn, turn_from, turns}
use ovpn_dco.Data.Worker.Safety.{IsWork, Step-IsWork, reached-IsWork}

-- the turns that are left, at most
abbrev weight : Phase → ℕ
weight Phase.idle = 0
weight Phase.draining = 2
weight Phase.leaving = 1

abbrev measure : Work → ℕ
measure w = length w.ring + weight w.phase + (if w.pending then 3 else 0)

-- a turn of the work item is a step, unless it rests
abbrev pub Turned : Work → Work → Type 0
Turned w w' =
    (Step w w' × (measure w' + 1 ≤ measure w))
    ⊎ ((w' ≡ w) × (w.phase ≡ Phase.idle) × (w.pending ≡ false))

turn-Turned : (w : Work) → Turned w (turn w)
unfolding turn turn_from
turn-Turned w = go w.phase refl w.pending refl w.ring refl
  where
    go :
        (f : Phase)
        → w.phase ≡ f
        → (p : Bool) → w.pending ≡ p
        → (r : List (List ℕ)) → w.ring ≡ r
        → Turned w (turn_from f p r w)
    go Phase.idle f true p r g = inl (Step.start p f refl, ground (arith, f, p))
    go Phase.idle f false p r g = inr (refl, f, p)
    go Phase.draining f p q [] g = inl (Step.empty f g refl, ground (arith, f, g))
    go Phase.draining f p q (skb ∷ skbs) g =
        inl (Step.consume skb skbs f g refl, ground (arith, f, g))
    go Phase.leaving f p q r g = inl (Step.put f refl, ground (arith, f))

-- what the callers have done, which the work item does not change
abbrev Callers : Work → Work → Type 0
Callers w w' =
    (w'.accepted ≡ w.accepted)
    × (w'.others ≡ w.others)
    × (w'.leaked ≡ w.leaked)
    × (w'.arriving ≡ w.arriving)
    × (w'.produced ≡ w.produced)

turn-Callers : (w : Work) → Callers w (turn w)
unfolding turn turn_from
turn-Callers w = go w.phase w.pending w.ring
  where
    go : (f : Phase) (p : Bool) (r : List (List ℕ)) → Callers w (turn_from f p r w)
    go Phase.idle true r = (refl, refl, refl, refl, refl)
    go Phase.idle false r = (refl, refl, refl, refl, refl)
    go Phase.draining p [] = (refl, refl, refl, refl, refl)
    go Phase.draining p (skb ∷ skbs) = (refl, refl, refl, refl, refl)
    go Phase.leaving p r = (refl, refl, refl, refl, refl)

-- at rest: nothing in the ring, and no reference of the work
abbrev pub IsSettled : Work → Work → Type 0
IsSettled w w' =
    (w'.ring ≡ [])
    × (w'.phase ≡ Phase.idle)
    × (w'.pending ≡ false)
    × (w'.taken ≡ w.accepted)
    × (w'.refcount ≡ w.others + w.leaked + w.arriving)

no_entry : (xs : List (List ℕ)) → length xs ≡ 0 → xs ≡ []
no_entry [] e = refl
no_entry (x ∷ xs) e = absurd (omega arith)

at_rest : (f : Phase) → weight f ≡ 0 → f ≡ Phase.idle
at_rest Phase.idle e = refl
at_rest Phase.draining e = absurd (omega arith)
at_rest Phase.leaving e = absurd (omega arith)

settled : (w : Work) → IsWork w → w.produced ≡ 0 → measure w ≡ 0 → IsSettled w w
settled w h p m =
    let nothing : w.ring ≡ [] = no_entry w.ring (ground (arith, m)) in
    (
      nothing,
      at_rest w.phase (ground (arith, m)),
      ground (arith, m),
      sym (h.in_order ∙ ap (λ r. w.taken ++ r) nothing ∙ append-nil w.taken),
      ground (arith, h.counted, p, m),
    )

resting :
    (w : Work)
    → IsWork w
    → w.produced ≡ 0
    → w.phase ≡ Phase.idle
    → w.pending ≡ false
    → measure w ≡ 0
resting w h p f q = ground (arith, h.watched, p, f, q)

turns-IsSettled :
    (n : ℕ) (w : Work) → IsWork w → w.produced ≡ 0 → measure w ≤ n → IsSettled w (turns n w)
unfolding turns
turns-IsSettled zero w h p m = settled w h p (omega arith)
turns-IsSettled (suc n) w h p m =
    let (a, b, l, c, d) = turn-Callers w in
    let later : IsWork (turn w) → measure (turn w) ≤ n → IsSettled w (turns n (turn w)) = λ h' m'.
      let s = turns-IsSettled n (turn w) h' (d ∙ p) m' in
      (s.0, s.1, s.2, s.3 ∙ a, ground (arith, s.4, b, l, c)) in
    elim (turn-Turned w) [
      | inl (step, fewer) ↦ later (Step-IsWork w (turn w) step h) (omega arith)
      | inr (same, f, q) ↦
          later (subst IsWork (sym same) h) (omega (arith, ap measure same, resting w h p f q))
    ]

measure_bound : (w : Work) → measure w ≤ length w.ring + 5
measure_bound w = go w.phase w.pending
  where
    go :
        (f : Phase) (p : Bool) → length w.ring + weight f + (if p then 3 else 0) ≤ length w.ring + 5
    go Phase.idle true = omega arith
    go Phase.idle false = omega arith
    go Phase.draining true = omega arith
    go Phase.draining false = omega arith
    go Phase.leaving true = omega arith
    go Phase.leaving false = omega arith

-- In every state that the threads reach from rest where no caller is between the ring and
-- `queue_work`, the work item alone, in at most as many turns as the ring has packets and five
-- more, takes every packet that was put in, in order, and comes to rest with its reference given
-- back. No later call is needed to wake it.
pub work_settles :
    (n : ℕ) (w : Work)
    → Reach (rest n) w
    → w.produced ≡ 0
    → IsSettled w (turns (length w.ring + 5) w)
work_settles n w r p =
    turns-IsSettled (length w.ring + 5) w (reached-IsWork n w r) p (measure_bound w)
