-- ===== src/Pktid/Steps.antt =====
-- The receiver's window against the list of the ids that it has accepted: each branch of
-- `ovpn_pktid_recv_locked` keeps the two in step.
use ovpn_dco.Base.{
  ℕ, ◌+◌, ◌-◌, ◌^◌, ◌≤◌, ◌<◌, ◌≡◌, List, [], ◌∷◌, arith, Bool, true, false, ◌&&◌, ◌||◌, ◌==◌,
  Bool-cases, inl, inr,
}
use ovpn_dco.Pktid.{
  PktidRecv, replay_index, neg_u32, set_bit, test_bit, clear_loop, next_id, jump_within, jump_past,
  new_time,
}
use ovpn_dco.Pktid.Window.{
  IsHistory, set_bit-IsHistory, test_bit-set_bit, replay_index_lem, replay_index-back,
  replay_index-lt, test_bit-clear_loop, clear_loop-IsHistory, one-IsHistory, test_bit-one,
}

-- Whether a time stamp and id are among the accepted ones.
abbrev pub seen : List (ℕ × ℕ) → ℕ → ℕ → Bool
seen [] t i = false
seen ((t', i') ∷ acc) t i = t' == t && i' == i || seen acc t i

-- `acc` is the history of acceptances behind the receiver's state.
pub record Tracks (pr : PktidRecv) (acc : List (ℕ × ℕ)) : Type 0 where
  pub ring : IsHistory pr.history
  pub base_in : pr.base < 2048
  pub extent_in : pr.extent ≤ 2048
  pub extent_le_id : pr.extent ≤ pr.id
  pub id_in : pr.id < 2 ^ 32
  pub times : (t i : ℕ) → seen acc t i ≡ true → t ≤ pr.time
  pub ids : (i : ℕ) → seen acc pr.time i ≡ true → i ≤ pr.id
  pub window :
      (k : ℕ)
      → k < pr.extent
      → test_bit pr.history (replay_index pr.base k) ≡ seen acc pr.time (pr.id - k)

pub unseen_above :
    {pr : PktidRecv} {acc : List (ℕ × ℕ)} (i : ℕ)
    → Tracks pr acc
    → pr.id < i
    → seen acc pr.time i ≡ false
unseen_above {pr} {acc} i v h = elim (Bool-cases (seen acc pr.time i)) [
  | inl e ↦ absurd (omega (arith, v.ids i e))
  | inr e ↦ e
]

-- a fresh time stamp has been seen with no id
pub unseen_later :
    {pr : PktidRecv} {acc : List (ℕ × ℕ)} (t i : ℕ)
    → Tracks pr acc
    → pr.time < t
    → seen acc t i ≡ false
unseen_later {pr} {acc} t i v h = elim (Bool-cases (seen acc t i)) [
  | inl e ↦ absurd (omega (arith, v.times t i e))
  | inr e ↦ e
]

pub new_time-Tracks :
    {pr : PktidRecv} {acc : List (ℕ × ℕ)} (t : ℕ)
    → Tracks pr acc
    → pr.time < t
    → Tracks (new_time pr t) acc
unfolding new_time
new_time-Tracks {pr} {acc} t v h = record {
  ring = v.ring;
  base_in = omega arith;
  extent_in = omega arith;
  extent_le_id = omega arith;
  id_in = omega arith;
  times = λ t' i e. omega (arith, v.times t' i e);
  ids = λ i e. ground (arith, unseen_later t i v h);
  window = λ k hk. absurd (omega arith);
}

-- After moving `base` back by `d`, the offsets from `d` on name the old positions.
old_offset :
    (base d k : ℕ)
    → base < 2048
    → 0 < d
    → d ≤ k
    → k < 2048
    → replay_index (replay_index base (neg_u32 d)) k ≡ replay_index base (k - d)
old_offset base d k hb hd hk hs = omega (
  arith,
  replay_index-back base d,
  replay_index_lem (replay_index base (neg_u32 d)) k,
  replay_index_lem base (k - d),
)

-- The bit set at the base is the one at offset 0.
test_base :
    (h : List ℕ) (base k : ℕ)
    → IsHistory h
    → base < 2048
    → k < 2048
    → test_bit (set_bit h base) (replay_index base k) ≡ (k == 0 || test_bit h (replay_index base k))
test_base h base k ih hb hk = ground (
  arith,
  test_bit-set_bit h base (replay_index base k) ih hb (replay_index-lt base k),
  replay_index_lem base k,
)

-- What any accepted id above the highest does to the two monotone parts.
module _ {pr : PktidRecv} {acc : List (ℕ × ℕ)} (i : ℕ) (v : Tracks pr acc) where
  times-cons : (t j : ℕ) → seen ((pr.time, i) ∷ acc) t j ≡ true → t ≤ pr.time
  times-cons t j e = ground (arith, v.times t j)

  ids-cons :
      (top j : ℕ) → i ≤ top → pr.id ≤ top → seen ((pr.time, i) ∷ acc) pr.time j ≡ true → j ≤ top
  ids-cons top j hi ht e = ground (arith, v.ids j)

  next_id_window :
      (k : ℕ)
      → i ≡ pr.id + 1
      → k < 2048
      → k ≤ pr.extent
      → let base = replay_index pr.base (neg_u32 1) in
        test_bit (set_bit pr.history base) (replay_index base k)
        ≡ seen ((pr.time, i) ∷ acc) pr.time (i - k)
  next_id_window k e hs hk = ground (
    arith,
    test_base pr.history (replay_index pr.base (neg_u32 1)) k v.ring
        (replay_index-lt pr.base (neg_u32 1)) hs,
    old_offset pr.base 1 k v.base_in,
    v.window (k - 1),
    v.extent_le_id,
  )

  pub next_id-Tracks : i ≡ pr.id + 1 → i < 2 ^ 32 → Tracks (next_id pr i) ((pr.time, i) ∷ acc)
  unfolding next_id
  next_id-Tracks e h = record {
    ring = set_bit-IsHistory pr.history _ v.ring (replay_index-lt pr.base (neg_u32 1));
    base_in = replay_index-lt pr.base (neg_u32 1);
    extent_in = ground (arith, v.extent_in);
    extent_le_id = ground (arith, v.extent_le_id);
    id_in = h;
    times = times-cons;
    ids = λ j. ids-cons i j (omega arith) (omega arith);
    window = λ k hk. next_id_window k e (ground (arith, v.extent_in)) (ground arith);
  }

  jump_within_window :
      (k : ℕ)
      → pr.id + 1 < i
      → i - pr.id < 2048
      → k < 2048
      → k < pr.extent + (i - pr.id)
      → let delta = i - pr.id in
        let base = replay_index pr.base (neg_u32 delta) in
        test_bit (clear_loop (delta - 1) 1 base (set_bit pr.history base)) (replay_index base k)
        ≡ seen ((pr.time, i) ∷ acc) pr.time (i - k)
  jump_within_window k hj hd hs hk =
      let base = replay_index pr.base (neg_u32 (i - pr.id)) in
      let base_lt = replay_index-lt pr.base (neg_u32 (i - pr.id)) in
      ground (
        arith,
        test_bit-clear_loop (i - pr.id - 1) 1 base k (set_bit pr.history base)
            (set_bit-IsHistory pr.history base v.ring base_lt) (omega arith) hs,
        test_base pr.history base k v.ring base_lt hs,
        old_offset pr.base (i - pr.id) k v.base_in,
        v.window (k - (i - pr.id)),
        unseen_above (i - k) v,
        v.extent_le_id,
      )

  pub jump_within-Tracks :
      pr.id + 1 < i → i - pr.id < 2048 → i < 2 ^ 32 → Tracks (jump_within pr i) ((pr.time, i) ∷ acc)
  unfolding jump_within
  jump_within-Tracks hj hd h = record {
    ring =
        clear_loop-IsHistory _ 1 _ _
          (set_bit-IsHistory pr.history _ v.ring (replay_index-lt pr.base (neg_u32 (i - pr.id))));
    base_in = replay_index-lt pr.base (neg_u32 (i - pr.id));
    extent_in = ground (arith, v.extent_in);
    extent_le_id = ground (arith, v.extent_le_id, v.extent_in);
    id_in = h;
    times = times-cons;
    ids = λ j. ids-cons i j (omega arith) (omega arith);
    window = λ k hk.
        jump_within_window k hj hd (ground (arith, v.extent_in)) (ground (arith, v.extent_in));
  }

  pub jump_past-Tracks :
      2048 ≤ i - pr.id → i < 2 ^ 32 → Tracks (jump_past pr i) ((pr.time, i) ∷ acc)
  unfolding jump_past
  jump_past-Tracks hd h = record {
    ring = one-IsHistory;
    base_in = omega arith;
    extent_in = omega arith;
    extent_le_id = omega arith;
    id_in = h;
    times = times-cons;
    ids = λ j. ids-cons i j (omega arith) (omega arith);
    window = λ k hk.
        ground
          (arith, test_bit-one (replay_index 0 k), replay_index_lem 0 k, unseen_above (i - k) v);
  }

  -- A backtracking id that is accepted sets its own bit.
  pub set_bit-Tracks :
      i ≤ pr.id
      → pr.id - i < pr.extent
      → Tracks
          (record pr { history = set_bit pr.history (replay_index pr.base (pr.id - i)) })
          ((pr.time, i) ∷ acc)
  set_bit-Tracks hi hd = record {
    ring = set_bit-IsHistory pr.history _ v.ring (replay_index-lt pr.base (pr.id - i));
    base_in = v.base_in;
    extent_in = v.extent_in;
    extent_le_id = v.extent_le_id;
    id_in = v.id_in;
    times = times-cons;
    ids = λ j. ids-cons pr.id j (omega arith) (omega arith);
    window = λ k hk. ground (
      arith,
      test_bit-set_bit pr.history (replay_index pr.base (pr.id - i)) (replay_index pr.base k) v.ring
          (replay_index-lt pr.base (pr.id - i)) (replay_index-lt pr.base k),
      replay_index_lem pr.base (pr.id - i),
      replay_index_lem pr.base k,
      v.window k,
      v.extent_in,
      v.extent_le_id,
    );
  }
