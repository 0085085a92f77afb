-- ===== src/Pktid/Xmit.antt =====
-- The transmit side of pktid.h: what a whole run of calls of `ovpn_pktid_xmit_next` returns.
use ovpn_dco.Base.{
  ℕ, zero, suc, ◌+◌, ◌^◌, ◌<◌, ◌≡◌, ◌≢◌, List, arith, ltb, if◌then◌else◌, ok, err, erange,
}
use ovpn_dco.Pktid.{PktidXmit, xmit_init, xmit_next, seq_limit, aead_write}

-- the state after a number of calls
pub after_calls : ℕ → PktidXmit → PktidXmit
after_calls zero pid = pid
after_calls (suc n) pid = (xmit_next (after_calls n pid)).1

seq_num-after_calls :
    (n : ℕ)
    → (after_calls n xmit_init).seq_num ≡ (if ltb (n + 1) seq_limit then n + 1 else seq_limit)
unfolding after_calls xmit_init xmit_next
seq_num-after_calls zero = ground arith
seq_num-after_calls (suc n) = ground (arith, seq_num-after_calls n)

-- Call number n, counted from 0, of a fresh transmitter returns the id n + 1 as long as that fits
-- 32 bits, and -ERANGE from then on.
pub xmit_next-after_calls :
    (n : ℕ)
    → (xmit_next (after_calls n xmit_init)).0
      ≡ (if ltb (n + 1) seq_limit then ok (n + 1) else err erange)
unfolding xmit_next
xmit_next-after_calls n = ground (arith, seq_num-after_calls n)

first_word :
    (a b : ℕ) (tail : List ℕ)
    → a < 2 ^ 32
    → b < 2 ^ 32
    → aead_write a tail ≡ aead_write b tail
    → a ≡ b
unfolding aead_write
first_word a b tail ha hb e = ground arith

-- Two different successful calls of a fresh transmitter never give the same IV with one nonce tail.
pub iv_never_reused :
    (m n a b : ℕ) (nonce_tail : List ℕ)
    → m ≢ n
    → (xmit_next (after_calls m xmit_init)).0 ≡ ok a
    → (xmit_next (after_calls n xmit_init)).0 ≡ ok b
    → aead_write a nonce_tail ≢ aead_write b nonce_tail
iv_never_reused m n a b nonce_tail ne ha hb e =
    ground (arith, xmit_next-after_calls m, xmit_next-after_calls n, first_word a b nonce_tail)
