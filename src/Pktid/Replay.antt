-- ===== src/Pktid/Replay.antt =====
-- Replay protection: the verdict of `ovpn_pktid_recv` against what it has accepted before, and
-- whole runs of calls.
use mathlib.Core.Path.{subst}
use ovpn_dco.Base.{
  ◌∙◌, ℕ, ◌+◌, ◌-◌, ◌%◌, ◌^◌, ◌≤◌, ◌<◌, ◌≡◌, ◌≢◌, refl, List, ◌∷◌, arith, Bool, not, ltb, ◌&&◌,
  ◌||◌, ◌==◌, if◌then◌else◌, Bool-cases, inl, inr, ok, err, Status, einval, etime,
}
use ovpn_dco.Pktid.{
  PktidRecv, recv, recv_id, recv_locked, set_expire, expire_floor, time_after_eq, backtrack,
  new_time, test_bit, replay_index,
}
use ovpn_dco.Pktid.Steps.{
  Tracks, seen, new_time-Tracks, next_id-Tracks, jump_within-Tracks, jump_past-Tracks,
  set_bit-Tracks,
}

-- Three members play no part in the invariant.
keep-Tracks :
    {pr : PktidRecv} {acc : List (ℕ × ℕ)} (a b c : ℕ)
    → Tracks pr acc
    → Tracks (record pr { expire = a; id_floor = b; max_backtrack = c }) acc
keep-Tracks a b c v = record {
  ring = v.ring;
  base_in = v.base_in;
  extent_in = v.extent_in;
  extent_le_id = v.extent_le_id;
  id_in = v.id_in;
  times = v.times;
  ids = v.ids;
  window = v.window;
}

abbrev pub logged : Status → ℕ × ℕ → List (ℕ × ℕ) → List (ℕ × ℕ)
logged (ok _) x acc = x ∷ acc
logged (err _) x acc = acc

-- An id is good at the current time stamp if it is above all others, or inside the window, above
-- the floor, and not accepted before.
abbrev pub is_fresh : PktidRecv → List (ℕ × ℕ) → ℕ → ℕ → Bool
is_fresh pr acc floor i =
    ltb pr.id i || ltb (pr.id - i) pr.extent && (ltb floor i && not (seen acc pr.time i))

backtrack-Tracks :
    {pr : PktidRecv} {acc : List (ℕ × ℕ)} (i : ℕ)
    → Tracks pr acc
    → i ≤ pr.id
    → Tracks (backtrack pr i).1 (logged (backtrack pr i).0 (pr.time, i) acc)
unfolding backtrack
backtrack-Tracks {pr} {acc} i v h = elim (Bool-cases (ltb (pr.id - i) pr.extent)) [
  | inr far ↦ rw (far, backtrack) (keep-Tracks pr.expire pr.id_floor _ v)
  | inl near ↦ elim (Bool-cases (ltb pr.id_floor i)) [
    | inr low ↦ rw (near, low, backtrack) (keep-Tracks pr.expire pr.id_floor _ v)
    | inl high ↦ elim (Bool-cases (test_bit pr.history (replay_index pr.base (pr.id - i)))) [
      | inl replay ↦ rw (near, high, replay, backtrack) (keep-Tracks pr.expire pr.id_floor _ v)
      | inr fresh ↦
          rw (near, high, fresh, backtrack)
            (keep-Tracks pr.expire pr.id_floor _ (set_bit-Tracks i v h (ground arith)))
    ]
  ]
]

backtrack-verdict :
    {pr : PktidRecv} {acc : List (ℕ × ℕ)} (i : ℕ)
    → Tracks pr acc
    → i ≤ pr.id
    → (backtrack pr i).0 ≡ (if is_fresh pr acc pr.id_floor i then ok tt else err einval)
unfolding backtrack
backtrack-verdict {pr} {acc} i v h =
    let back : pr.id - (pr.id - i) ≡ i = omega arith in ground (arith, v.window (pr.id - i), back)

recv_id-verdict :
    {pr : PktidRecv} {acc : List (ℕ × ℕ)} (i : ℕ)
    → Tracks pr acc
    → i ≢ 0
    → (recv_id pr i).0 ≡ (if is_fresh pr acc pr.id_floor i then ok tt else err einval)
unfolding recv_id
recv_id-verdict {pr} {acc} i v pos = elim (Bool-cases (ltb pr.id i)) [
  | inl above ↦ ground (arith, v.id_in)
  | inr below ↦ ground (arith, backtrack-verdict i v, v.id_in)
]

recv_id-Tracks :
    {pr : PktidRecv} {acc : List (ℕ × ℕ)} (i : ℕ)
    → Tracks pr acc
    → i ≢ 0
    → i < 2 ^ 32
    → Tracks (recv_id pr i).1 (logged (recv_id pr i).0 (pr.time, i) acc)
unfolding recv_id
recv_id-Tracks {pr} {acc} i v pos h = elim (Bool-cases (i == (pr.id + 1) % 2 ^ 32)) [
  | inl next ↦ rw (next, recv_id) (next_id-Tracks i v (ground (arith, v.id_in)) h)
  | inr other ↦ elim (Bool-cases (ltb pr.id i)) [
    | inr below ↦ rw (other, below, recv_id) (backtrack-Tracks i v (ground arith))
    | inl above ↦ elim (Bool-cases (ltb (i - pr.id) 2048)) [
      | inl near ↦
          rw (other, above, near, recv_id) (jump_within-Tracks i v (ground arith) (ground arith) h)
      | inr far ↦ rw (other, above, far, recv_id) (jump_past-Tracks i v (ground arith) h)
    ]
  ]
]

set_expire-Tracks :
    (hz now : ℕ) (r : Status × PktidRecv) (x : ℕ × ℕ) (acc : List (ℕ × ℕ))
    → Tracks r.1 (logged r.0 x acc)
    → Tracks (set_expire hz now r).1 (logged (set_expire hz now r).0 x acc)
unfolding set_expire
set_expire-Tracks hz now (ok _, pr) x acc v = keep-Tracks _ pr.id_floor pr.max_backtrack v
set_expire-Tracks hz now (err e, pr) x acc v = v

set_expire-verdict : (hz now : ℕ) (r : Status × PktidRecv) → (set_expire hz now r).0 ≡ r.0
unfolding set_expire
set_expire-verdict hz now (ok tt, pr) = refl
set_expire-verdict hz now (err e, pr) = refl

expire_floor-Tracks :
    {pr : PktidRecv} {acc : List (ℕ × ℕ)} (now : ℕ)
    → Tracks pr acc
    → Tracks (expire_floor pr now) acc
unfolding expire_floor
expire_floor-Tracks {pr} now v = elim (Bool-cases (time_after_eq now pr.expire)) [
  | inl e ↦ rw e (keep-Tracks pr.expire pr.id pr.max_backtrack v)
  | inr e ↦ rw e v
]

-- What the window has to decide, from the acceptances so far: no id 0; an older time stamp is
-- refused, a newer one accepted; at the current one the id has to be fresh, and after a pause of
-- the expiry time nothing at or below the highest id is.
abbrev pub verdict : PktidRecv → List (ℕ × ℕ) → ℕ → ℕ → ℕ → Status
verdict pr acc now i t =
    if i == 0
    then err einval
    else (if t == pr.time
        then (if is_fresh pr acc (if time_after_eq now pr.expire then pr.id else pr.id_floor) i
            then ok tt
            else err einval)
        else (if ltb pr.time t then ok tt else err etime))

expire_floor_fields :
    (pr : PktidRecv) (now : ℕ)
    → let pr' = expire_floor pr now in
      (pr'.time ≡ pr.time)
      × (pr'.id ≡ pr.id)
      × (pr'.extent ≡ pr.extent)
      × (pr'.id_floor ≡ (if time_after_eq now pr.expire then pr.id else pr.id_floor))
unfolding expire_floor
expire_floor_fields pr now = ground arith

-- After the time stamp moved forward every id but 0 is next or a jump.
new_time-verdict :
    {pr : PktidRecv} {acc : List (ℕ × ℕ)} (i t : ℕ)
    → Tracks pr acc
    → pr.time < t
    → i ≢ 0
    → (recv_id (new_time pr t) i).0 ≡ ok tt
unfolding new_time
new_time-verdict {pr} i t v h pos = recv_id-verdict i (new_time-Tracks t v h) pos ∙ ground arith

recv_verdict :
    {pr : PktidRecv} {acc : List (ℕ × ℕ)} (hz now i t : ℕ)
    → Tracks pr acc
    → (recv_locked hz pr now i t).0 ≡ verdict pr acc now i t
unfolding recv_locked
recv_verdict {pr} {acc} hz now i t v =
    let pr' = expire_floor pr now in
    ground (
      arith,
      expire_floor_fields pr now,
      set_expire-verdict hz now (recv_id pr' i),
      set_expire-verdict hz now (recv_id (new_time pr' t) i),
      recv_id-verdict i (expire_floor-Tracks now v),
      new_time-verdict i t (expire_floor-Tracks now v),
    )

recv-Tracks :
    {pr : PktidRecv} {acc : List (ℕ × ℕ)} (hz now i t : ℕ)
    → Tracks pr acc
    → i < 2 ^ 32
    → let (ret, pr') = recv_locked hz pr now i t in Tracks pr' (logged ret (t, i) acc)
unfolding recv_locked
recv-Tracks {pr} {acc} hz now i t v h =
    let pr' = expire_floor pr now in
    let v' = expire_floor-Tracks now v in
    elim (Bool-cases (i == 0)) [
      | inl zero_id ↦ rw (zero_id, recv_locked) v'
      | inr pos ↦ elim (Bool-cases (t == pr'.time)) [
        | inl now_time ↦
            rw (pos, now_time, recv_locked)
              (set_expire-Tracks hz now (recv_id pr' i) (t, i) acc
                (subst (λ s. Tracks (recv_id pr' i).1 (logged (recv_id pr' i).0 (s, i) acc))
                  (ground arith) (recv_id-Tracks i v' (ground arith) h)))
        | inr other ↦ elim (Bool-cases (ltb pr'.time t)) [
          | inr older ↦ rw (pos, other, older, recv_locked) v'
          | inl newer ↦
              rw (pos, other, newer, recv_locked)
                (set_expire-Tracks hz now (recv_id (new_time pr' t) i) (t, i) acc
                  (unfold new_time in
                    recv_id-Tracks i (new_time-Tracks t v' (ground arith)) (ground arith) h))
        ]
      ]
    ]

pub recv_lem :
    {pr : PktidRecv} {acc : List (ℕ × ℕ)} (hz now i t : ℕ)
    → Tracks pr acc
    → i < 2 ^ 32
    → let (ret, pr') = recv hz pr now i t in
      (ret ≡ verdict pr acc now i t) × Tracks pr' (logged ret (t, i) acc)
unfolding recv
recv_lem hz now i t v h = (recv_verdict hz now i t v, recv-Tracks hz now i t v h)
