-- ===== src/Data/Worker/Safety.antt =====
-- What holds between any two steps on a ring and its work item.
use mathlib.Core.List.{append_assoc}
use ovpn_dco.Base.{
  ℕ, ◌+◌, ◌≤◌, ◌≡◌, refl, sym, ap, ◌∙◌, arith, List, [], ◌∷◌, ◌++◌, Bool, true, false, ◌||◌, ◌==◌,
  not, length, length-append, if◌then◌else◌,
}
use mathlib.Core.Path.{subst}
use ovpn_dco.Tcp.Send.{queue_len}
use ovpn_dco.Data.Worker.{Work, Phase, Step, Reach, rest}

abbrev pub busy : Phase → ℕ
busy Phase.idle = 0
busy Phase.draining = 1
busy Phase.leaving = 1

abbrev pub is_draining : Phase → Bool
is_draining Phase.draining = true
is_draining _ = false

pub record IsWork (w : Work) : Type 0 where
  pub counted :
      w.refcount
      ≡ w.others + w.leaked + w.arriving + w.produced + (if w.pending then 1 else 0) + busy w.phase
  pub watched :
      (length w.ring == 0) || (not (w.produced == 0) || (w.pending || is_draining w.phase)) ≡ true
  pub in_order : w.accepted ≡ w.taken ++ w.ring
  pub bounded : length w.ring ≤ queue_len

pub rest-IsWork : (n : ℕ) → IsWork (rest n)
unfolding rest
rest-IsWork n = record {
  counted = omega arith;
  watched = refl;
  in_order = refl;
  bounded = omega arith;
}

append_one :
    (xs ys zs : List (List ℕ)) (x : List ℕ)
    → zs ≡ xs ++ ys
    → zs ++ (x ∷ []) ≡ xs ++ (ys ++ (x ∷ []))
append_one xs ys zs x e = rw e (append_assoc xs ys (x ∷ []))

move_one :
    (xs ys zs ws : List (List ℕ)) (x : List ℕ)
    → zs ≡ xs ++ ys
    → ys ≡ x ∷ ws
    → zs ≡ (xs ++ (x ∷ [])) ++ ws
move_one xs ys zs ws x e f = e ∙ ap (λ l. xs ++ l) f ∙ sym (append_assoc xs (x ∷ []) ws)

pub Step-IsWork : (w w' : Work) → Step w w' → IsWork w → IsWork w'
Step-IsWork w w' (Step.hold live e) h = subst IsWork (sym e) (record {
  counted = ground (arith, h.counted);
  watched = ground (arith, h.watched);
  in_order = h.in_order;
  bounded = h.bounded;
})
Step-IsWork w w' (Step.hold_other live e) h = subst IsWork (sym e) (record {
  counted = ground (arith, h.counted);
  watched = ground (arith, h.watched);
  in_order = h.in_order;
  bounded = h.bounded;
})
Step-IsWork w w' (Step.put_other live e) h = subst IsWork (sym e) (record {
  counted = ground (arith, h.counted);
  watched = ground (arith, h.watched);
  in_order = h.in_order;
  bounded = h.bounded;
})
Step-IsWork w w' (Step.full live long e) h = subst IsWork (sym e) (record {
  counted = ground (arith, h.counted);
  watched = ground (arith, h.watched);
  in_order = h.in_order;
  bounded = h.bounded;
})
Step-IsWork w w' (Step.full_kept live long e) h = subst IsWork (sym e) (record {
  counted = ground (arith, h.counted);
  watched = ground (arith, h.watched);
  in_order = h.in_order;
  bounded = h.bounded;
})
Step-IsWork w w' (Step.produce skb live short e) h = subst IsWork (sym e) (record {
  counted = ground (arith, h.counted);
  watched = ground (arith, h.watched);
  in_order = append_one w.taken w.ring w.accepted skb h.in_order;
  bounded = omega (arith, length-append w.ring (skb ∷ []), short);
})
Step-IsWork w w' (Step.queue_new live p e) h = subst IsWork (sym e) (record {
  counted = ground (arith, h.counted);
  watched = ground (arith, h.watched);
  in_order = h.in_order;
  bounded = h.bounded;
})
Step-IsWork w w' (Step.queue_old live p e) h = subst IsWork (sym e) (record {
  counted = ground (arith, h.counted);
  watched = ground (arith, h.watched);
  in_order = h.in_order;
  bounded = h.bounded;
})
Step-IsWork w w' (Step.start p f e) h = subst IsWork (sym e) (record {
  counted = ground (arith, h.counted, p, f);
  watched = ground (arith, p, f);
  in_order = h.in_order;
  bounded = h.bounded;
})
Step-IsWork w w' (Step.consume skb skbs f g e) h = subst IsWork (sym e) (record {
  counted = ground (arith, h.counted);
  watched = ground (arith, f);
  in_order = move_one w.taken w.ring w.accepted skbs skb h.in_order g;
  bounded = ground (arith, h.bounded, g);
})
Step-IsWork w w' (Step.empty f g e) h = subst IsWork (sym e) (record {
  counted = ground (arith, h.counted, f);
  watched = ground (arith, g);
  in_order = h.in_order;
  bounded = h.bounded;
})
Step-IsWork w w' (Step.put f e) h = subst IsWork (sym e) (record {
  counted = ground (arith, h.counted, f);
  watched = ground (arith, h.watched, f);
  in_order = h.in_order;
  bounded = h.bounded;
})

Reach-IsWork : {w w' : Work} → IsWork w → Reach w w' → IsWork w'
Reach-IsWork v Reach.here = v
Reach-IsWork v (Reach.next {w'} {w''} r s) = Step-IsWork w' w'' s (Reach-IsWork v r)

-- However the callers and the work item interleave from a resting state on, in every state that
-- is reached the peer's reference count is the number of references held, elsewhere, by callers, by
-- the queued work and by the running work, and of those that a reader of a TCP socket kept when the
-- ring was full. A packet in the ring is never stranded: the work is
-- queued or in its loop, or a caller is about to queue it. The packets come out in the order they
-- went in, none lost or repeated, and the ring is never longer than it may be.
pub reached-IsWork : (n : ℕ) (w : Work) → Reach (rest n) w → IsWork w
reached-IsWork n w r = Reach-IsWork (rest-IsWork n) r
