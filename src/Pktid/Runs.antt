-- ===== src/Pktid/Runs.antt =====
-- Runs of calls of `ovpn_pktid_recv`: the property that the window is there for.
use ovpn_dco.Base.{
  sym, ◌∙◌, ℕ, ◌^◌, ◌<◌, ◌≡◌, refl, List, [], ◌∷◌, arith, false, ltb, ◌==◌, Bool-cases, inl, inr,
  ok, err, Status,
}
use ovpn_dco.Pktid.{PktidRecv, recv_init, recv}
use ovpn_dco.Pktid.Window.{zeros-IsHistory}
use ovpn_dco.Pktid.Steps.{Tracks, seen, unseen_later, unseen_above}
use ovpn_dco.Pktid.Replay.{logged, verdict, recv_lem}

-- The acceptances of a run of calls, each with its time, packet id and time stamp; newest first.
pub accepted : ℕ → PktidRecv → List (ℕ × ℕ) → List (ℕ × ℕ × ℕ) → List (ℕ × ℕ)
accepted hz pr acc [] = acc
accepted hz pr acc ((now, i, t) ∷ calls) =
    let (ret, pr') = recv hz pr now i t in accepted hz pr' (logged ret (t, i) acc) calls

-- No pair is in the list twice.
abbrev pub AllDistinct : List (ℕ × ℕ) → Type 0
AllDistinct [] = Unit {0}
AllDistinct ((t, i) ∷ acc) = (seen acc t i ≡ false) × AllDistinct acc

abbrev pub AllU32 : List (ℕ × ℕ × ℕ) → Type 0
AllU32 [] = Unit {0}
AllU32 ((now, i, t) ∷ calls) = (i < 2 ^ 32) × AllU32 calls

-- The verdict accepts nothing that was accepted before.
pub verdict-unseen :
    {pr : PktidRecv} {acc : List (ℕ × ℕ)} (now i t : ℕ)
    → Tracks pr acc
    → verdict pr acc now i t ≡ ok tt
    → seen acc t i ≡ false
verdict-unseen {pr} {acc} now i t v e = elim (Bool-cases (t == pr.time)) [
  | inr other ↦ unseen_later t i v (ground arith)
  | inl same ↦ elim (Bool-cases (ltb pr.id i)) [
    | inl above ↦ ground (arith, unseen_above i v)
    | inr below ↦ ground arith
  ]
]

pub logged-AllDistinct :
    (ret : Status) (t i : ℕ) (acc : List (ℕ × ℕ))
    → AllDistinct acc
    → (ret ≡ ok tt → seen acc t i ≡ false)
    → AllDistinct (logged ret (t, i) acc)
logged-AllDistinct (ok tt) t i acc d new = (new refl, d)
logged-AllDistinct (err e) t i acc d new = d

accepted-AllDistinct :
    (hz : ℕ) (calls : List (ℕ × ℕ × ℕ)) {pr : PktidRecv} {acc : List (ℕ × ℕ)}
    → Tracks pr acc
    → AllDistinct acc
    → AllU32 calls
    → AllDistinct (accepted hz pr acc calls)
unfolding accepted
accepted-AllDistinct hz [] v d h = d
accepted-AllDistinct hz ((now, i, t) ∷ calls) {pr} {acc} v d h =
    let step = recv_lem hz now i t v h.0 in
    accepted-AllDistinct hz calls step.1
      (logged-AllDistinct _ t i acc d (λ e. verdict-unseen now i t v (sym step.0 ∙ e))) h.1

pub recv_init-Tracks : Tracks recv_init []
unfolding recv_init
recv_init-Tracks = record {
  ring = zeros-IsHistory;
  base_in = omega arith;
  extent_in = omega arith;
  extent_le_id = omega arith;
  id_in = omega arith;
  times = λ t i e. ground arith;
  ids = λ i e. ground arith;
  window = λ k hk. absurd (omega arith);
}

-- Replay protection: over any run of calls on a fresh receiver, whatever the 32-bit ids, the time
-- stamps and the times of arrival, no packet id is accepted twice at one time stamp.
pub no_replay :
    (hz : ℕ) (calls : List (ℕ × ℕ × ℕ))
    → AllU32 calls
    → AllDistinct (accepted hz recv_init [] calls)
no_replay hz calls h = accepted-AllDistinct hz calls recv_init-Tracks tt h
