-- ===== src/Tests/Worker.antt =====
-- Witnesses for the ring and its work item: one caller brings a packet, and the work starts.
use ovpn_dco.Base.{refl, [], ◌∷◌, arith, true}
use ovpn_dco.Data.Worker.{Work, Phase, Step, Reach, rest, turns}
use ovpn_dco.Data.Worker.Safety.{IsWork, reached-IsWork}
use ovpn_dco.Data.Worker.Liveness.{IsSettled, work_settles}

abbrev with_packet : Work
with_packet = record {
  ring = (1 ∷ 2 ∷ []) ∷ [];
  pending = true;
  phase = Phase.idle;
  arriving = 0;
  produced = 0;
  others = 1;
  leaked = 0;
  refcount = 2;
  accepted = (1 ∷ 2 ∷ []) ∷ [];
  taken = [];
}

arrived : Reach (rest 1) with_packet
unfolding rest
arrived =
    Reach.next
      (Reach.next (Reach.next Reach.here (Step.hold (λ e. ground arith) refl))
        (Step.produce (1 ∷ 2 ∷ []) (λ e. ground arith) (omega arith) refl))
      (Step.queue_new (λ e. ground arith) refl refl)

reached-IsWork_example : IsWork with_packet
reached-IsWork_example = reached-IsWork 1 with_packet arrived

work_settles_example : IsSettled with_packet (turns 6 with_packet)
work_settles_example = work_settles 1 with_packet arrived refl
