-- ===== src/Pktid/Window.antt =====
-- The ring of bits of `struct ovpn_pktid_recv`: single bits of the byte array, and positions
-- relative to `base`.
use ovpn_dco.Base.{
  ℕ, zero, suc, ◌+◌, ◌-◌, ◌/◌, ◌%◌, ◌^◌, ◌≤◌, ◌<◌, ◌≡◌, refl, ◌∙◌, sym, ap, List, arith, Bool, true,
  false, not, ◌&&◌, ◌||◌, ltb, leb, ◌==◌, if◌then◌else◌, length, get_or, set, replicate, length-set,
  get_or-set_self, get_or-set_ne, get_or-replicate, bit_and, bit_or,
}
use ovpn_dco.Base.Bits.{bit_and-mask}
use native.Mathlib.Decide.{ℕ_discrete}
use ovpn_dco.Pktid.{
  replay_window_bytes, replay_index, neg_u32, set_bit, clear_bit, test_bit, clear_loop,
}

-- An array of the declared size, of bytes.
pub record IsHistory (h : List ℕ) : Type 0 where
  pub size : length h ≡ replay_window_bytes
  pub bytes : (k : ℕ) → get_or h k 0 < 256

abbrev byte_test : ℕ → ℕ → Bool
byte_test x i = not (bit_and x (2 ^ i) == 0)

abbrev same : Bool → Bool → Bool
same true b = b
same false b = not b

all_below : ℕ → (ℕ → Bool) → Bool
all_below zero p = true
all_below (suc n) p = p n && all_below n p

all_below-holds : (n : ℕ) (p : ℕ → Bool) (x : ℕ) → all_below n p ≡ true → x < n → p x ≡ true
unfolding all_below
all_below-holds zero p x h lt = absurd (omega arith)
all_below-holds (suc n) p x h lt = ground (arith, all_below-holds n p x)

abbrev or_case : ℕ → ℕ → ℕ → Bool
or_case x j i = same (byte_test (bit_or x (2 ^ j) % 2 ^ 8) i) (j == i || byte_test x i)

abbrev and_case : ℕ → ℕ → ℕ → Bool
and_case x j i =
    same (byte_test (bit_and x (2 ^ 64 - 1 - 2 ^ j) % 2 ^ 8) i) (not (j == i) && byte_test x i)

abbrev one_case : ℕ → Bool
one_case c = same (test_bit (set (replicate replay_window_bytes 0) 0 1) c) (c == 0)

one_table : all_below 2048 one_case ≡ true
unfolding all_below test_bit
one_table = refl

or_table : all_below 256 (λ x. all_below 8 (λ j. all_below 8 (or_case x j))) ≡ true
unfolding all_below
or_table = refl

and_table : all_below 256 (λ x. all_below 8 (λ j. all_below 8 (and_case x j))) ≡ true
unfolding all_below
and_table = refl

same→eq : (a b : Bool) → same a b ≡ true → a ≡ b
same→eq true b h = sym h
same→eq false b h = ground arith

byte_test-or :
    (x j i : ℕ)
    → x < 256
    → j < 8
    → i < 8
    → byte_test (bit_or x (2 ^ j) % 2 ^ 8) i ≡ (j == i || byte_test x i)
byte_test-or x j i hx hj hi = same→eq _ _ (
    all_below-holds 8 (or_case x j) i
      (all_below-holds 8 (λ j'. all_below 8 (or_case x j')) j
        (all_below-holds 256 (λ x'. all_below 8 (λ j'. all_below 8 (or_case x' j'))) x or_table hx)
        hj)
      hi)

byte_test-and :
    (x j i : ℕ)
    → x < 256
    → j < 8
    → i < 8
    → byte_test (bit_and x (2 ^ 64 - 1 - 2 ^ j) % 2 ^ 8) i ≡ (not (j == i) && byte_test x i)
byte_test-and x j i hx hj hi = same→eq _ _ (
    all_below-holds 8 (and_case x j) i
      (all_below-holds 8 (λ j'. all_below 8 (and_case x j')) j
        (all_below-holds 256 (λ x'. all_below 8 (λ j'. all_below 8 (and_case x' j'))) x and_table
          hx)
        hj)
      hi)

set-IsHistory : (h : List ℕ) (k v : ℕ) → IsHistory h → k < 256 → v < 256 → IsHistory (set h k v)
set-IsHistory h k v ih hk hv = record {
  size = length-set h k v ∙ ih.size;
  bytes = λ j. elim (ℕ_discrete k j) [
    | yes e ↦ rw (← e) (ground (arith, get_or-set_self h k v 0, ih.size))
    | no ne ↦ ground (arith, get_or-set_ne h k j v 0 ne, ih.bytes j)
  ];
}

pub set_bit-IsHistory : (h : List ℕ) (b : ℕ) → IsHistory h → b < 2048 → IsHistory (set_bit h b)
unfolding set_bit
set_bit-IsHistory h b ih hb = set-IsHistory h (b / 8) _ ih (omega arith) (omega arith)

pub clear_bit-IsHistory : (h : List ℕ) (b : ℕ) → IsHistory h → b < 2048 → IsHistory (clear_bit h b)
unfolding clear_bit
clear_bit-IsHistory h b ih hb = set-IsHistory h (b / 8) _ ih (omega arith) (omega arith)

low_digits : (b c : ℕ) → b / 8 ≡ c / 8 → (b % 8 == c % 8) ≡ (b == c)
low_digits b c e = ground arith

-- Setting a bit sets that bit and no other.
pub test_bit-set_bit :
    (h : List ℕ) (b c : ℕ)
    → IsHistory h
    → b < 2048
    → c < 2048
    → test_bit (set_bit h b) c ≡ (b == c || test_bit h c)
unfolding test_bit set_bit
test_bit-set_bit h b c ih hb hc = elim (ℕ_discrete (b / 8) (c / 8)) [
  | yes e ↦
      rw
        (
          ← e,
          get_or-set_self h (b / 8) (bit_or (get_or h (b / 8) 0) (2 ^ (b % 8)) % 2 ^ 8) 0
              (ground (arith, ih.size)),
        )
        (byte_test-or (get_or h (b / 8) 0) (b % 8) (c % 8) (ih.bytes (b / 8)) (omega arith)
            (omega arith)
          ∙ ap (λ (t : Bool). t || byte_test (get_or h (b / 8) 0) (c % 8)) (low_digits b c e))
  | no ne ↦
      rw (get_or-set_ne h (b / 8) (c / 8) (bit_or (get_or h (b / 8) 0) (2 ^ (b % 8)) % 2 ^ 8) 0 ne)
        (ground arith)
]

-- Clearing a bit clears that bit and no other.
pub test_bit-clear_bit :
    (h : List ℕ) (b c : ℕ)
    → IsHistory h
    → b < 2048
    → c < 2048
    → test_bit (clear_bit h b) c ≡ (not (b == c) && test_bit h c)
unfolding test_bit clear_bit
test_bit-clear_bit h b c ih hb hc = elim (ℕ_discrete (b / 8) (c / 8)) [
  | yes e ↦
      rw
        (
          ← e,
          get_or-set_self h (b / 8)
              (bit_and (get_or h (b / 8) 0) (2 ^ 64 - 1 - 2 ^ (b % 8)) % 2 ^ 8) 0
              (ground (arith, ih.size)),
        )
        (byte_test-and (get_or h (b / 8) 0) (b % 8) (c % 8) (ih.bytes (b / 8)) (omega arith)
            (omega arith)
          ∙ ap (λ (t : Bool). not t && byte_test (get_or h (b / 8) 0) (c % 8)) (low_digits b c e))
  | no ne ↦
      rw
        (get_or-set_ne h (b / 8) (c / 8)
          (bit_and (get_or h (b / 8) 0) (2 ^ 64 - 1 - 2 ^ (b % 8)) % 2 ^ 8) 0 ne)
        (ground arith)
]

-- `REPLAY_INDEX` is addition round the ring.
pub replay_index_lem : (base i : ℕ) → replay_index base i ≡ (base + i) % 2048
unfolding replay_index
replay_index_lem base i = rw (bit_and-mask 11) (omega arith)

-- Moving `base` back by `delta` is adding `2048 - delta`.
pub replay_index-back :
    (base delta : ℕ)
    → base < 2048
    → 0 < delta
    → delta ≤ 2048
    → replay_index base (neg_u32 delta) ≡ (base + (2048 - delta)) % 2048
replay_index-back base delta hb hd hs = omega (arith, replay_index_lem base (neg_u32 delta))

pub replay_index-lt : (base i : ℕ) → replay_index base i < 2048
replay_index-lt base i = omega (arith, replay_index_lem base i)

index_eq :
    (base i j : ℕ) → i < 2048 → j < 2048 → (replay_index base i == replay_index base j) ≡ (i == j)
index_eq base i j hi hj = ground (arith, replay_index_lem base i, replay_index_lem base j)

-- The loop clears the offsets from `i` on, one for each round, and no others.
pub test_bit-clear_loop :
    (left i base m : ℕ) (h : List ℕ)
    → IsHistory h
    → i + left ≤ 2048
    → m < 2048
    → test_bit (clear_loop left i base h) (replay_index base m)
      ≡ (if leb i m && ltb m (i + left) then false else test_bit h (replay_index base m))
unfolding clear_loop
test_bit-clear_loop zero i base m h ih hi hm = ground arith
test_bit-clear_loop (suc left) i base m h ih hi hm = ground (
  arith,
  test_bit-clear_loop left (i + 1) base m (clear_bit h (replay_index base i))
      (clear_bit-IsHistory h (replay_index base i) ih (replay_index-lt base i)) (omega arith) hm,
  test_bit-clear_bit h (replay_index base i) (replay_index base m) ih (replay_index-lt base i)
      (replay_index-lt base m),
  index_eq base i m,
)

pub clear_loop-IsHistory :
    (left i base : ℕ) (h : List ℕ) → IsHistory h → IsHistory (clear_loop left i base h)
unfolding clear_loop
clear_loop-IsHistory zero i base h ih = ih
clear_loop-IsHistory (suc left) i base h ih =
    clear_loop-IsHistory left (i + 1) base (clear_bit h (replay_index base i))
      (clear_bit-IsHistory h (replay_index base i) ih (replay_index-lt base i))

pub zeros-IsHistory : IsHistory (replicate replay_window_bytes 0)
zeros-IsHistory = record {
  size = refl;
  bytes = λ k. omega (arith, get_or-replicate {A = ℕ} 256 k 0);
}

-- What `memset` and `history[0] = 1` leave: offset 0 of base 0.
pub one-IsHistory : IsHistory (set (replicate replay_window_bytes 0) 0 1)
one-IsHistory = set-IsHistory _ 0 1 zeros-IsHistory (omega arith) (omega arith)

pub test_bit-one :
    (c : ℕ) → c < 2048 → test_bit (set (replicate replay_window_bytes 0) 0 1) c ≡ (c == 0)
unfolding test_bit
test_bit-one c hc = same→eq _ _ (all_below-holds 2048 one_case c one_table hc)
