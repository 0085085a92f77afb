-- ===== src/Proto/RoundTrip.antt =====
-- The header word that the transmitter composes reads back on the other side.
use ovpn_dco.Base.{ℕ, ◌+◌, ◌*◌, ◌%◌, ◌^◌, ◌<◌, ◌≡◌, arith}
use ovpn_dco.Base.Bits.{bit_or-shift, bit_and-mask}
use ovpn_dco.Proto.{opcode_from_skb, key_id_from_skb, htonl, peer_id_from_skb, opcode_compose}

pub compose_as_sum :
    (opcode key_id peer_id : ℕ)
    → opcode < 32
    → opcode_compose opcode key_id peer_id ≡ (opcode * 8 + key_id % 8) * 2 ^ 24 + peer_id % 2 ^ 24
unfolding opcode_compose
compose_as_sum opcode key_id peer_id h =
    rw
      (
        bit_and-mask 3 key_id,
        bit_and-mask 24 peer_id,
        bit_or-shift 3 opcode (key_id % 8) (omega arith),
        bit_or-shift 24 ((opcode * 8 + key_id % 8) % 256) (peer_id % 2 ^ 24) (omega arith),
      )
      (omega arith)

-- A composed header of a 5-bit opcode, a 3-bit key id and a 24-bit peer id, stored in network
-- order, is read back field by field by the three receive-side accessors.
pub compose_fields :
    (opcode key_id peer_id : ℕ)
    → opcode < 32
    → key_id < 8
    → peer_id < 2 ^ 24
    → let skb = htonl (opcode_compose opcode key_id peer_id) in
      (opcode_from_skb skb 0 ≡ opcode)
      × (key_id_from_skb skb ≡ key_id)
      × (peer_id_from_skb skb 0 ≡ peer_id)
unfolding opcode_from_skb key_id_from_skb peer_id_from_skb
compose_fields opcode key_id peer_id ho hk hp = (
  omega (arith, compose_as_sum opcode key_id peer_id ho),
  rw (bit_and-mask 3) (omega (arith, compose_as_sum opcode key_id peer_id ho)),
  rw (bit_and-mask 24) (omega (arith, compose_as_sum opcode key_id peer_id ho)),
)
