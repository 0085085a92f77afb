-- ===== src/Base/Bits.antt =====
-- Shifts and masks as arithmetic: `|` of fields that do not overlap is a sum, and `&` with a low
-- mask is a remainder. Each law is proved from the lowest binary digit up.
use Prim.Native.Nat.{
  ℕ, zero, suc, ◌+◌, ◌-◌, ◌*◌, ◌/◌, ◌%◌, ◌^◌, ◌≤◌, ◌<◌, min, max, bit_and, bit_or, digits,
  bit_and-bitwise, bit_or-bitwise,
}
use mathlib.Core.Path.{◌≡◌, refl, ap}
use native.Mathlib.Nat.{pow-suc, one-le-pow}
use native.Mathlib.Omega.{arith}

-- The recursion on digits does not depend on its fuel.
enough_digits :
    (z : ℕ → ℕ) (f : ℕ → ℕ → ℕ) (n m a b : ℕ) → a ≤ n → a ≤ m → digits z f n a b ≡ digits z f m a b
enough_digits z f zero zero a b p q = refl
enough_digits z f zero (suc m) zero b p q = refl
enough_digits z f zero (suc m) (suc a) b p q = absurd (omega arith)
enough_digits z f (suc n) zero zero b p q = refl
enough_digits z f (suc n) zero (suc a) b p q = absurd (omega arith)
enough_digits z f (suc n) (suc m) zero b p q = refl
enough_digits z f (suc n) (suc m) (suc a) b p q =
    rw (enough_digits z f n m (suc a / 2) (b / 2) (omega arith) (omega arith))

or_lowest : (a b : ℕ) → bit_or a b ≡ bit_or (a / 2) (b / 2) * 2 + max (a % 2) (b % 2)
or_lowest zero b = simp bit_or-bitwise (omega arith)
or_lowest (suc a) b = omega (
  arith,
  bit_or-bitwise (suc a) b,
  bit_or-bitwise (suc a / 2) (b / 2),
  enough_digits (λ y. y) max a (suc a / 2) (suc a / 2) (b / 2) (omega arith) (omega arith),
)

and_lowest : (a b : ℕ) → bit_and a b ≡ bit_and (a / 2) (b / 2) * 2 + min (a % 2) (b % 2)
and_lowest zero b = simp bit_and-bitwise (omega arith)
and_lowest (suc a) b = omega (
  arith,
  bit_and-bitwise (suc a) b,
  bit_and-bitwise (suc a / 2) (b / 2),
  enough_digits (λ y. 0) min a (suc a / 2) (suc a / 2) (b / 2) (omega arith) (omega arith),
)

or_zero_upto : (n a : ℕ) → a ≤ n → bit_or a 0 ≡ a
or_zero_upto n zero h = refl
or_zero_upto zero (suc a) h = absurd (omega arith)
or_zero_upto (suc n) (suc a) h =
    omega (arith, or_lowest (suc a) 0, or_zero_upto n (suc a / 2) (omega arith))

and_zero_upto : (n a : ℕ) → a ≤ n → bit_and a 0 ≡ 0
and_zero_upto n zero h = refl
and_zero_upto zero (suc a) h = absurd (omega arith)
and_zero_upto (suc n) (suc a) h =
    omega (arith, and_lowest (suc a) 0, and_zero_upto n (suc a / 2) (omega arith))

double_shift : (q k : ℕ) → q * 2 ^ suc k ≡ 2 * (q * 2 ^ k)
double_shift q k = omega (arith, ap (λ (t : ℕ). q * t) (pow-suc 2 k))

-- `(q << k) | r` is a sum when `r` has at most `k` bits.
pub bit_or-shift : (k q r : ℕ) → r < 2 ^ k → bit_or (q * 2 ^ k) r ≡ q * 2 ^ k + r
bit_or-shift zero q r h = ground (arith, or_zero_upto q q)
bit_or-shift (suc k) q r h = ground (
  arith,
  or_lowest (q * 2 ^ suc k) r,
  double_shift q k,
  pow-suc 2 k,
  bit_or-shift k q (r / 2) (omega arith),
)

and_mask_sum : (k q r : ℕ) → r < 2 ^ k → bit_and (q * 2 ^ k + r) (2 ^ k - 1) ≡ r
and_mask_sum zero q r h =
    rw (and_zero_upto (q * 2 ^ 0 + r) (q * 2 ^ 0 + r) (omega arith)) (omega arith)
and_mask_sum (suc k) q r h = ground (
  arith,
  and_lowest (q * 2 ^ suc k + r) (2 ^ suc k - 1),
  double_shift q k,
  pow-suc 2 k,
  one-le-pow k 2,
  and_mask_sum k q (r / 2) (omega arith),
)

-- A mask of `k` low bits leaves the remainder by `2 ^ k`.
pub bit_and-mask : (k a : ℕ) → bit_and a (2 ^ k - 1) ≡ a % 2 ^ k
bit_and-mask k a = ground (arith, one-le-pow k 2, and_mask_sum k (a / 2 ^ k) (a % 2 ^ k))
