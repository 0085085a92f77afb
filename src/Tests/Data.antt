-- ===== src/Tests/Data.antt =====
-- Witnesses for the properties of the data channel: an interface in P2P mode whose peer 5 is object
-- 1 and has the two keys of `two_keys`.
use mathlib.Core.Path.{subst}
use ovpn_dco.Base.{
  ◌==◌, if◌then◌else◌, sym, ◌∙◌, ℕ, ◌≡◌, refl, List, [], ◌∷◌, arith, true, false, Option, none,
  some, ok, err, einval, inr, Errno, update,
}
use ovpn_dco.Pktid.{recv_init, seq_limit, xmit_next, xmit_init, aead_write}
use ovpn_dco.KeySlot.{KeySlot}
use ovpn_dco.Aead.{aead_decrypt, aead_encrypt, seal_packet, prepare, unseal_packet}
use ovpn_dco.Crypto.{slot_primary, hold_or_null, slot_hold, slot_put}
use ovpn_dco.Crypto.Refs.{Ensures}
use ovpn_dco.Proto.{key_id_from_skb, opcode_compose}
use ovpn_dco.Peer.{Peer, Ovpn, VpnNode, mode_mp, peer_create, mode_p2p, stats_increment, stats_init}
use ovpn_dco.Data.{Kernel, Handling, ip_packet, ip_check_protocol}
use ovpn_dco.Addr.{protocol_to_family}
use ovpn_dco.Data.Filter.{headers}
use ovpn_dco.Peer.Lookup.Kinds.{OneKind}
use ovpn_dco.Data.Receive.{decrypt_one, decrypt_work, open_one}
use ovpn_dco.Data.Transmit.{Queueing, queue_skb, encrypt_one, encrypt_with, kill_exhausted}
use ovpn_dco.Data.Refine.{Selects, open_one_lem, stored}
use ovpn_dco.Data.RoundTrip.{Sends, open-encrypt, key_exhausted}
use ovpn_dco.Data.Decrypt.{Routable, decrypt_one_forged}
use ovpn_dco.Data.References.{Worked, decrypt_work-refs, Queued, queue_skb-refs}
use ovpn_dco.Tests.{toy, room, slot, payload, wire, forged}
use ovpn_dco.Pktid.Replay.{recv_lem}
use ovpn_dco.Pktid.Runs.{recv_init-Tracks}
use ovpn_dco.Tests.Link.{toy-IsPaired}
use ovpn_dco.Tests.Keys.{two_keys, nobody, two_keys-IsCounted}
use ovpn_dco.Tests.Peers.{hash_toy, one_peer, moved}

abbrev pub kernel : Kernel
kernel = record {
  api = toy;
  jhash = hash_toy;
  route4 = λ _. ok none;
  route6 = λ _. ok none;
  msecs_to_jiffies = λ ms. ms;
  hz = 1000;
}

abbrev pub handling : Handling
handling = record { now = 100; buffers = room; memory = λ _. true; checksum = true; beyond = [] }

abbrev keyed : Peer
keyed = record (peer_create 5 17) { crypto = two_keys }

abbrev pub tunnel : Ovpn
tunnel = record one_peer { mode = mode_p2p; peer = some 1; peers = λ p. keyed }

Selects-wire : Selects two_keys nobody wire 0 slot
unfolding key_id_from_skb
Selects-wire = record { counted = two_keys-IsCounted; selected = refl; there = refl; alive = refl }

Selects-forged : Selects two_keys nobody forged 0 slot
unfolding key_id_from_skb
Selects-forged = record {
  counted = two_keys-IsCounted;
  selected = refl;
  there = refl;
  alive = refl;
}

sends : Sends keyed nobody 0 slot
unfolding peer_create
sends = record { counted = two_keys-IsCounted; first = refl; there = refl; alive = refl }

decrypt_one_forged_example :
    (f : Errno) × (decrypt_one kernel handling tunnel 1 moved forged [] ≡ some (err f, tunnel, []))
unfolding unseal_packet
decrypt_one_forged_example =
    decrypt_one_forged kernel handling tunnel 1 nobody moved forged []
      (inr (0, slot, einval, Selects-forged, refl))

open_one_lem_example :
    let (ret, ks) = aead_decrypt toy room 1000 100 slot wire in
    open_one kernel handling two_keys wire
    ≡ some (ret, stored two_keys 0 (record ks { refcount = 1 }))
open_one_lem_example = open_one_lem kernel handling two_keys nobody wire 0 slot Selects-wire

abbrev last : KeySlot
last = record slot { pid_xmit = record { seq_num = seq_limit } }

abbrev spent : Peer
spent = record keyed { crypto = record two_keys { slots = update two_keys.slots 0 (some last) } }

key_exhausted_example :
    Ensures
      (λ (r : Option (List ℕ) × Peer).
        (r.0 ≡ none)
        × ((h : Handling) (next : List ℕ) → encrypt_one kernel h r.1 next ≡ some (none, r.1)))
      (encrypt_one kernel handling spent payload)
unfolding prepare peer_create
key_exhausted_example =
    key_exhausted kernel handling spent nobody 0 last payload
      (record {
        counted = record { counted = λ p. ground arith; unused = λ p h. ground arith };
        first = refl;
        there = refl;
        alive = refl;
      })
      refl refl refl

-- the slot once it has given out its first packet id, with a number of references
abbrev used : ℕ → KeySlot
used n = record slot { pid_xmit = record { seq_num = 2 }; refcount = n }

-- the peer that has sent `payload`
abbrev after : Peer
after = record keyed {
  stats = record keyed.stats { tx = record { bytes = 4; packets = 1 } };
  crypto = stored (stored (stored two_keys 0 (record slot { refcount = 2 })) 0 (used 2)) 0 (used 1);
}

sent_wire : encrypt_one kernel handling keyed payload ≡ some (some wire, after)
unfolding encrypt_one encrypt_with slot_primary hold_or_null slot_hold slot_put aead_encrypt prepare
    seal_packet xmit_next opcode_compose aead_write kill_exhausted peer_create stats_increment
    stats_init xmit_init
sent_wire = refl

wire_opens :
    let ks = (aead_decrypt toy room 1000 100 slot wire).1 in
    open_one kernel handling two_keys wire
    ≡ some (ok payload, stored two_keys 0 (record ks { refcount = 1 }))
unfolding prepare recv_init xmit_init peer_create
wire_opens =
    open-encrypt kernel handling handling keyed after two_keys nobody nobody 0 0 slot slot payload
      wire sends refl sent_wire (omega arith) (omega arith) (omega arith) toy-IsPaired
      two_keys-IsCounted refl refl refl refl refl
      (recv_lem 1000 100 1 0 recv_init-Tracks (omega arith)).0

-- the same in MP mode, with the peer's IPv4 node in bucket 0
abbrev network : Ovpn
network = record tunnel {
  mode = mode_mp;
  peer = none;
  by_vpn_addr = λ b. if b == 0 then VpnNode.addr4 1 ∷ [] else [];
}

network-OneKind : OneKind network (headers handling payload)
unfolding ip_packet ip_check_protocol protocol_to_family
network-OneKind m = (λ f b. ground arith, λ f. absurd (ground (arith, f)))

wire-Routable : Routable kernel handling network 1 wire
wire-Routable text cs e =
    let same : text ≡ payload = ground (arith, sym e ∙ wire_opens) in
    subst (λ t. OneKind network (headers handling t)) (sym same) network-OneKind

decrypt_work-refs_example :
    Ensures
      (Worked network 1 nobody)
      (decrypt_work kernel network 1 ((handling, moved, wire) ∷ []) [])
unfolding peer_create
decrypt_work-refs_example =
    decrypt_work-refs kernel network 1 nobody ((handling, moved, wire) ∷ []) [] two_keys-IsCounted
      (wire-Routable, λ r e. tt) (λ z. ground arith)

abbrev queueing : Queueing
queueing = record { ring_full = false; work_queued = true }

queue_skb-refs_example :
    Ensures (Queued queueing tunnel) (queue_skb kernel queueing tunnel moved (payload ∷ []))
queue_skb-refs_example =
    queue_skb-refs kernel queueing tunnel moved (payload ∷ []) (λ m. absurd (ground arith))
