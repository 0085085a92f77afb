-- ===== src/Pktid.antt =====
-- drivers/net/ovpn-dco/pktid.h and pktid.c: the packet ids of one key. The transmitter counts up
-- to the end of the 32-bit space; the receiver keeps a window of 2048 recent ids as a ring of
-- bits. `jiffies` is the argument `now`, below 2 ^ 64, and HZ, a constant of the kernel's build,
-- the argument `hz`. The spinlock serialises the calls, so each is one step.
pub mod Xmit
pub mod Window
pub mod Steps
pub mod Replay
pub mod Runs
use ovpn_dco.Base.{
  ℕ, zero, suc, ◌+◌, ◌-◌, ◌*◌, ◌/◌, ◌%◌, ◌^◌, List, [], ◌∷◌, ◌++◌, Bool, true, false, not, ltb,
  ◌==◌, if◌then◌else◌, get_or, set, replicate, bit_and, bit_or, Result, ok, err, Status, erange,
  einval, etime,
}
use ovpn_dco.Proto.{htonl}

abbrev pub seq_limit : ℕ
seq_limit = 0x100000000

-- `struct ovpn_pktid_xmit`; its member `tcp_linear` is never used.
pub record PktidXmit : Type 0 where
  pub seq_num : ℕ

unfoldable pub xmit_init : PktidXmit
xmit_init = record { seq_num = 1 }

-- `atomic64_fetch_add_unless` on `seq_num`, then the test of the old value.
unfoldable pub xmit_next : PktidXmit → Result ℕ × PktidXmit
xmit_next pid =
    let seq_num = pid.seq_num in
    let pid' = if seq_num == seq_limit then pid else record { seq_num = seq_num + 1 } in
    (if seq_num == seq_limit then err erange else ok (seq_num % 2 ^ 32), pid')

-- The IV: 4 bytes of packet id, then the 8 bytes of nonce tail.
unfoldable pub aead_write : ℕ → List ℕ → List ℕ
aead_write pktid nonce_tail = htonl pktid ++ nonce_tail

abbrev pub replay_window_bytes : ℕ
replay_window_bytes = 2 ^ 8

abbrev pub replay_window_size : ℕ
replay_window_size = replay_window_bytes * 8

-- `((base) + (i)) & (REPLAY_WINDOW_SIZE - 1)` on `unsigned int`
unfoldable pub replay_index : ℕ → ℕ → ℕ
replay_index base i = bit_and ((base + i) % 2 ^ 32) (replay_window_size - 1)

-- `-x` on `unsigned int`
abbrev pub neg_u32 : ℕ → ℕ
neg_u32 x = (2 ^ 32 - x) % 2 ^ 32

-- `struct ovpn_pktid_recv` but its lock
pub record PktidRecv : Type 0 where
  pub history : List ℕ
  pub base : ℕ
  pub extent : ℕ
  pub expire : ℕ
  pub id : ℕ
  pub time : ℕ
  pub id_floor : ℕ
  pub max_backtrack : ℕ

unfoldable pub recv_init : PktidRecv
recv_init = record {
  history = replicate replay_window_bytes 0;
  base = 0;
  extent = 0;
  expire = 0;
  id = 0;
  time = 0;
  id_floor = 0;
  max_backtrack = 0;
}

-- `history[b / 8] |= (1 << (b % 8))` on u8
unfoldable pub set_bit : List ℕ → ℕ → List ℕ
set_bit history b = set history (b / 8) (bit_or (get_or history (b / 8) 0) (2 ^ (b % 8)) % 2 ^ 8)

-- `history[b / 8] &= ~BIT(b % 8)` on u8, with `BIT` an unsigned long
unfoldable pub clear_bit : List ℕ → ℕ → List ℕ
clear_bit history b =
    set history (b / 8) (bit_and (get_or history (b / 8) 0) (2 ^ 64 - 1 - 2 ^ (b % 8)) % 2 ^ 8)

-- `history[b / 8] & (1 << (b % 8))` as a condition
unfoldable pub test_bit : List ℕ → ℕ → Bool
test_bit history b = not (bit_and (get_or history (b / 8) 0) (2 ^ (b % 8)) == 0)

-- The loop `for (i = 1; i < delta; ++i)`, with the rounds left and `i`.
unfoldable pub clear_loop : ℕ → ℕ → ℕ → List ℕ → List ℕ
clear_loop zero i base history = history
clear_loop (suc left) i base history =
    clear_loop left (i + 1) base (clear_bit history (replay_index base i))

-- `time_after_eq(now, pr->expire)`: a signed test of the difference of two unsigned longs.
abbrev pub time_after_eq : ℕ → ℕ → Bool
time_after_eq a b = ltb ((a + 2 ^ 64 - b) % 2 ^ 64) (2 ^ 63)

unfoldable pub expire_floor : PktidRecv → ℕ → PktidRecv
expire_floor pr now = if time_after_eq now pr.expire then record pr { id_floor = pr.id } else pr

-- time moved forward
unfoldable pub new_time : PktidRecv → ℕ → PktidRecv
new_time pr pkt_time = record pr { base = 0; extent = 0; id = 0; time = pkt_time; id_floor = 0 }

-- an id that is the last one plus 1
unfoldable pub next_id : PktidRecv → ℕ → PktidRecv
next_id pr pkt_id =
    let base = replay_index pr.base (neg_u32 1) in
    record pr {
      base = base;
      history = set_bit pr.history base;
      extent = if ltb pr.extent replay_window_size then pr.extent + 1 else pr.extent;
      id = pkt_id;
    }

-- an id that jumped forward, by less than the window
unfoldable pub jump_within : PktidRecv → ℕ → PktidRecv
jump_within pr pkt_id =
    let delta = pkt_id - pr.id in
    let base = replay_index pr.base (neg_u32 delta) in
    let extent = (pr.extent + delta) % 2 ^ 32 in
    record pr {
      base = base;
      extent = if ltb replay_window_size extent then replay_window_size else extent;
      history = clear_loop (delta - 1) 1 base (set_bit pr.history base);
      id = pkt_id;
    }

-- and by the window or more
unfoldable pub jump_past : PktidRecv → ℕ → PktidRecv
jump_past pr pkt_id = record pr {
  base = 0;
  extent = replay_window_size;
  history = set (replicate replay_window_bytes 0) 0 1;
  id = pkt_id;
}

-- an id at or below the highest
unfoldable pub backtrack : PktidRecv → ℕ → Status × PktidRecv
backtrack pr pkt_id =
    let delta = pr.id - pkt_id in
    let pr' = record pr {
      max_backtrack = if ltb pr.max_backtrack delta then delta else pr.max_backtrack;
    } in
    let ri = replay_index pr.base delta in
    if ltb delta pr.extent
    then (if ltb pr.id_floor pkt_id
        then (if test_bit pr.history ri
            then (err einval, pr')
            else (ok tt, record pr' { history = set_bit pr.history ri }))
        else (err einval, pr'))
    else (err einval, pr')

-- the three branches on the id; a return before the end leaves `expire` alone
unfoldable pub recv_id : PktidRecv → ℕ → Status × PktidRecv
recv_id pr pkt_id =
    if pkt_id == (pr.id + 1) % 2 ^ 32
    then (ok tt, next_id pr pkt_id)
    else (if ltb pr.id pkt_id
        then (if ltb (pkt_id - pr.id) replay_window_size
            then (ok tt, jump_within pr pkt_id)
            else (ok tt, jump_past pr pkt_id))
        else backtrack pr pkt_id)

-- `pr->expire = now + PKTID_RECV_EXPIRE` on the way to `return 0`
unfoldable pub set_expire : ℕ → ℕ → Status × PktidRecv → Status × PktidRecv
set_expire hz now (ok _, pr) = (ok tt, record pr { expire = (now + 30 * hz) % 2 ^ 64 })
set_expire hz now (err e, pr) = (err e, pr)

unfoldable pub recv_locked : ℕ → PktidRecv → ℕ → ℕ → ℕ → Status × PktidRecv
recv_locked hz pr now pkt_id pkt_time =
    let pr' = expire_floor pr now in
    if pkt_id == 0
    then (err einval, pr')
    else (if pkt_time == pr'.time
        then set_expire hz now (recv_id pr' pkt_id)
        else (if ltb pr'.time pkt_time
            then set_expire hz now (recv_id (new_time pr' pkt_time) pkt_id)
            else (err etime, pr')))

-- `ovpn_pktid_recv`, under the lock and with ENABLE_REPLAY_PROTECTION as in main.h
unfoldable pub recv : ℕ → PktidRecv → ℕ → ℕ → ℕ → Status × PktidRecv
unfolding recv_locked
recv hz pr now pkt_id pkt_time = recv_locked hz pr now pkt_id pkt_time
