-- ===== src/Tcp.antt =====
-- drivers/net/ovpn-dco/tcp.c and tcp.h: packets over a TCP stream, each behind its length in two
-- bytes. What `kernel_recvmsg` returns is the data type `Received`; it never gives more bytes than
-- were asked for. Whether an skb can be allocated is the argument `alloc`.
pub mod Chunks
pub mod Frames
pub mod Send
use ovpn_dco.Base.{
  ℕ, ◌+◌, ◌-◌, ◌*◌, ◌/◌, ◌%◌, ◌^◌, List, [], ◌∷◌, ◌++◌, Bool, true, false, Option, none, some, ◌==◌,
  if◌then◌else◌, length, Errno, Result, ok, err, einval, eagain,
}

-- `peer->tcp`, the reading side: the bytes of the length, the skb with what it holds so far
pub record TcpRx : Type 0 where
  pub raw_len : ℕ × ℕ
  pub skb : Option (List ℕ)
  pub offset : ℕ
  pub data_len : ℕ

-- what one call of `kernel_recvmsg` returns
pub data Received : Type 0 where
  bytes : List ℕ → Received
  closed : Received
  failed : Errno → Received

-- the fields that `ovpn_tcp_socket_attach` sets
unfoldable pub rx_init : TcpRx
rx_init = record { raw_len = (0, 0); skb = none; offset = 0; data_len = 0 }

-- the bytes asked for
unfoldable pub want : TcpRx → ℕ
want t = elim t.skb [ none ↦ 2 - t.offset | some buf ↦ t.data_len - t.offset ]

-- bytes written to `raw_len` from `offset` on
abbrev pub put_raw : ℕ × ℕ → ℕ → List ℕ → ℕ × ℕ
put_raw raw offset [] = raw
put_raw (a, b) offset (x ∷ []) = if offset == 0 then (x, b) else (a, x)
put_raw (a, b) offset (x ∷ y ∷ zs) = if offset == 0 then (x, y) else (a, x)

-- `ntohs` of the two bytes
abbrev pub ntohs : ℕ × ℕ → ℕ
ntohs (a, b) = (a * 256 + b) % 2 ^ 16

-- `ovpn_tcp_rx_one`: its value, the packet that it hands to `ovpn_recv`, and the new state. An
-- allocation that fails leaves no skb, but an offset of 0.
unfoldable pub rx_one : Bool → TcpRx → Received → Result ℕ × Option (List ℕ) × TcpRx
rx_one alloc t closed = (ok 0, none, t)
rx_one alloc t (failed e) = (err e, none, t)
rx_one alloc t (bytes got) =
    let n = length got in
    let offset = (t.offset + n) % 2 ^ 16 in
    elim t.skb [
      | none ↦
          let raw = put_raw t.raw_len t.offset got in
          if offset == 2
          then (if ntohs raw == 0
              then (err einval, none, record t { raw_len = raw; offset = offset })
              else (
                ok n,
                none,
                record t {
                  raw_len = raw;
                  skb = if alloc then some [] else none;
                  offset = 0;
                  data_len = ntohs raw;
                },
              ))
          else (ok n, none, record t { raw_len = raw; offset = offset })
      | some buf ↦
          if offset == t.data_len
          then (ok n, some (buf ++ got), record t { skb = none; offset = 0; data_len = 0 })
          else (ok n, none, record t { skb = some (buf ++ got); offset = offset })
    ]

abbrev pub deliver : Option (List ℕ) → List (List ℕ) → List (List ℕ)
deliver none ps = ps
deliver (some p) ps = p ∷ ps

-- what is left of a run after one call: it stops at an error and at a closed stream
abbrev pub follow :
    Result ℕ
    → Option (List ℕ)
    → TcpRx
    → Result ℕ × List (List ℕ) × TcpRx
    → Result ℕ × List (List ℕ) × TcpRx
follow (err e) packet t' rest = (err e, deliver packet [], t')
follow (ok n) packet t' (last, packets, t'') =
    if n == 0 then (ok 0, deliver packet [], t') else (last, deliver packet packets, t'')

-- `ovpn_tcp_rx_work` on what the calls return, each with whether an skb can be allocated in it: its
-- last value, the packets handed on and the state.
-- A call after the last one has nothing to read.
unfoldable pub rx_work : TcpRx → List (Bool × Received) → Result ℕ × List (List ℕ) × TcpRx
rx_work t [] = (err eagain, [], t)
rx_work t ((alloc, r) ∷ rs) =
    let (ret, packet, t') = rx_one alloc t r in follow ret packet t' (rx_work t' rs)

-- `ovpn_tcp_send_skb`: the packet behind its length
unfoldable pub frame : List ℕ → List ℕ
frame skb = let len = length skb % 2 ^ 16 in len / 256 ∷ len % 256 ∷ skb
