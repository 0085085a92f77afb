-- ===== src/Proto.antt =====
-- drivers/net/ovpn-dco/proto.h: the first word of a data packet. An opcode of 5 bits and a key id
-- of 3 share the first byte; the peer id takes the other three. Bytes are numbers below 256.
pub mod RoundTrip
use ovpn_dco.Base.{ℕ, ◌+◌, ◌*◌, ◌/◌, ◌%◌, ◌^◌, List, [], ◌∷◌, get_or, bit_and, bit_or}

abbrev pub key_id_mask : ℕ
key_id_mask = 0x07

abbrev pub opcode_shift : ℕ
opcode_shift = 3

abbrev pub data_v1 : ℕ
data_v1 = 6

abbrev pub data_v2 : ℕ
data_v2 = 9

abbrev pub op_size_v2 : ℕ
op_size_v2 = 4

abbrev pub peer_id_mask : ℕ
peer_id_mask = 0x00ffffff

abbrev pub peer_id_undef : ℕ
peer_id_undef = 0x00ffffff

-- `byte >> OVPN_OPCODE_SHIFT`
unfoldable pub opcode_from_byte : ℕ → ℕ
opcode_from_byte byte = byte / 2 ^ opcode_shift

-- A read past the end of the buffer gives 0; callers pull the bytes first.
unfoldable pub opcode_from_skb : List ℕ → ℕ → ℕ
unfolding opcode_from_byte
opcode_from_skb skb offset = opcode_from_byte (get_or skb offset 0)

unfoldable pub key_id_from_skb : List ℕ → ℕ
key_id_from_skb skb = bit_and (get_or skb 0 0) key_id_mask

-- The four bytes that `*(__be32 *)data = htonl(word)` stores.
abbrev pub htonl : ℕ → List ℕ
htonl word = word / 2 ^ 24 % 256 ∷ word / 2 ^ 16 % 256 ∷ word / 2 ^ 8 % 256 ∷ word % 256 ∷ []

-- The 32-bit big-endian number at an offset: `ntohl(*(__be32 *)(data + offset))`.
unfoldable pub ntohl_at : List ℕ → ℕ → ℕ
ntohl_at skb offset =
    get_or skb offset 0 * 2 ^ 24
    + get_or skb (offset + 1) 0 * 2 ^ 16
    + get_or skb (offset + 2) 0 * 2 ^ 8
    + get_or skb (offset + 3) 0

unfoldable pub peer_id_from_skb : List ℕ → ℕ → ℕ
unfolding ntohl_at
peer_id_from_skb skb offset = bit_and (ntohl_at skb offset) peer_id_mask

-- `op` is a u8: the shifted opcode is cut to 8 bits.
unfoldable pub opcode_compose : ℕ → ℕ → ℕ → ℕ
opcode_compose opcode key_id peer_id =
    let op = bit_or (opcode * 2 ^ opcode_shift) (bit_and key_id key_id_mask) % 2 ^ 8 in
    bit_or (op * 2 ^ 24) (bit_and peer_id peer_id_mask)
