-- ===== src/Tests/Link.antt =====
-- Witnesses for the properties of the wire format, the packet ids and the cipher.
use ovpn_dco.Base.{ℕ, ◌+◌, ◌≡◌, ◌≢◌, refl, List, [], ◌∷◌, arith, ok}
use ovpn_dco.Proto.{
  opcode_compose, opcode_from_skb, key_id_from_skb, peer_id_from_skb, ntohl_at, data_v2,
}
use ovpn_dco.Pktid.{xmit_init, xmit_next, aead_write, recv_init}
use ovpn_dco.Pktid.Xmit.{xmit_next-after_calls, iv_never_reused}
use ovpn_dco.Pktid.Runs.{no_replay, accepted, AllDistinct}
use ovpn_dco.Aead.{aead_encrypt, prepare, seal_packet}
use ovpn_dco.Aead.Header.{encrypt_layout, IsPaired, IsSealed}
use ovpn_dco.Aead.Replay.{delivered, delivered_once}
use ovpn_dco.Tests.{toy, room, slot, payload, wire, forged, tail, sevens}

iv_never_reused_example : aead_write 1 tail ≢ aead_write 2 tail
iv_never_reused_example =
    iv_never_reused 0 1 1 2 tail (λ e. ground arith) (xmit_next-after_calls 0)
      (xmit_next-after_calls 1)

abbrev three_calls : List (ℕ × ℕ × ℕ)
three_calls = (100, 1, 0) ∷ (101, 1, 0) ∷ (102, 2, 0) ∷ []

no_replay_example : AllDistinct (accepted 250 recv_init [] three_calls)
no_replay_example = no_replay 250 three_calls (omega arith, (omega arith, (omega arith, tt)))

sealed_wire : (aead_encrypt toy room slot payload 5).0 ≡ ok wire
unfolding aead_encrypt xmit_next xmit_init prepare seal_packet opcode_compose aead_write
sealed_wire = refl

encrypt_layout_example :
    (opcode_from_skb wire 0 ≡ data_v2)
    × (key_id_from_skb wire ≡ 2)
    × (peer_id_from_skb wire 0 ≡ 5)
    × (ntohl_at wire 4 ≡ slot.pid_xmit.seq_num)
    × ((aead_encrypt toy room slot payload 5).1.pid_xmit.seq_num ≡ slot.pid_xmit.seq_num + 1)
    × IsSealed toy slot 5 slot.pid_xmit.seq_num payload wire
unfolding xmit_init
encrypt_layout_example =
    encrypt_layout toy room slot 5 payload wire (omega arith) (omega arith) (omega arith)
      sealed_wire

pub toy-IsPaired : IsPaired toy slot slot
toy-IsPaired = record {
  inverse = λ iv ad text ciphertext tag e.
      let t : sevens ≡ tag = cc in let c : text ≡ ciphertext = cc in rw (← t, ← c) refl;
  tag_length = λ iv ad text ciphertext tag e. (let t : sevens ≡ tag = cc in rw (← t) refl);
  nonce_tails = refl;
}

delivered_once_example :
    AllDistinct
      (delivered toy 250 slot [] ((100, room, wire) ∷ (101, room, forged) ∷ (102, room, wire) ∷ []))
unfolding ntohl_at
delivered_once_example =
    delivered_once toy 250 ((100, room, wire) ∷ (101, room, forged) ∷ (102, room, wire) ∷ []) slot
      refl (omega arith, (omega arith, (omega arith, tt)))
