-- ===== src/Data/Receive.antt =====
-- drivers/net/ovpn-dco/ovpn.c: from the ring of received packets of a peer to the ring that the
-- network stack polls. `none` is a fault, as for the key slots and the tables.
use ovpn_dco.Base.{
  ℕ, List, [], ◌∷◌, ◌++◌, Bool, true, false, ◌||◌, not, Option, none, some, ◌==◌, leb, is_ok,
  if◌then◌else◌, length, update, Result, ok, err, Status, einval, eperm, enospc, eprotonosupport,
}
use ovpn_dco.Proto.{key_id_from_skb}
use ovpn_dco.Addr.{Packet}
use ovpn_dco.Aead.{aead_decrypt}
use ovpn_dco.Crypto.{CryptoState, ◌>>=◌, key_id_to_slot, slot_put}
use ovpn_dco.Peer.{Peer, Ovpn, set_peer, peer_put, stats_increment_rx}
use ovpn_dco.Peer.Timer.{keepalive_recv_reset}
use ovpn_dco.Peer.Endpoint.{update_local_endpoint}
use ovpn_dco.Peer.Lookup.{lookup_vpn_addr}
use ovpn_dco.Tcp.Send.{queue_len}
use ovpn_dco.Data.{
  Kernel, Handling, ipproto_udp, may_pull, is_keepalive, ip_check_protocol, ip_packet,
}

-- the decryption with a slot that is held, which is put afterwards
unfoldable pub decrypt_with :
    Kernel → Handling → CryptoState → ℕ → List ℕ → Option (Result (List ℕ) × CryptoState)
decrypt_with k h cs p skb = do
  ks ← cs.slots p
  let (ret, ks') = aead_decrypt k.api h.buffers k.hz h.now ks skb
  cs' ← slot_put (record cs { slots = update cs.slots p (some ks') }) p
  some (ret, cs')

-- the start of `ovpn_decrypt_one`, to the end of the decryption
unfoldable pub open_one :
    Kernel → Handling → CryptoState → List ℕ → Option (Result (List ℕ) × CryptoState)
open_one k h cs skb = do
  (found, cs') ← key_id_to_slot cs (key_id_from_skb skb)
  elim found [ none ↦ some (err eperm, cs') | some p ↦ decrypt_with k h cs' p skb ]

-- what an authenticated packet of a length changes of its peer
unfoldable pub note_received : Kernel → Handling → Peer → Packet → ℕ → Peer
note_received k h pr packet len =
    let pr' = keepalive_recv_reset k.msecs_to_jiffies pr h.now in
    let pr'' = if pr'.protocol == ipproto_udp then update_local_endpoint pr' packet else pr' in
    stats_increment_rx pr'' len

-- `ptr_ring_produce_bh` on a ring of OVPN_QUEUE_LEN places
unfoldable pub produce {ℓ} : {A : Type ℓ} → List A → A → Status × List A
produce ring skb =
    if leb queue_len (length ring) then (err enospc, ring) else (ok tt, ring ++ (skb ∷ []))

-- the rest of `ovpn_decrypt_one`: the kinds of packet, reverse path filtering, and the ring
unfoldable pub admit_one :
    Kernel → Handling → Ovpn → ℕ → List ℕ → List (List ℕ) → Option (Status × Ovpn × List (List ℕ))
admit_one k h o p text ring =
    let proto = ip_check_protocol h.memory text in
    if proto == 0
    then (if not (may_pull h.memory 1 text)
        then some (err einval, o, ring)
        else (if is_keepalive h.memory text
            then some (err eperm, o, ring)
            else some (err eprotonosupport, o, ring)))
    else (do
      (allowed, o') ←
          lookup_vpn_addr k.jhash k.route4 k.route6 o (ip_packet proto (text ++ h.beyond)) true
      elim allowed [
        | none ↦ some (err eperm, o', ring)
        | some q ↦
            let (ret, ring') = produce ring text in
            if q == p
            then some (ret, peer_put o' q, ring')
            else some (err eperm, peer_put o' q, ring)
      ])

-- `ovpn_decrypt_one`, with the headers that the packet came with
unfoldable pub decrypt_one :
    Kernel
    → Handling
    → Ovpn
    → ℕ
    → Packet
    → List ℕ
    → List (List ℕ)
    → Option (Status × Ovpn × List (List ℕ))
decrypt_one k h o p packet skb ring = do
  (ret, cs) ← open_one k h (o.peers p).crypto skb
  let pr = record (o.peers p) { crypto = cs }
  elim ret [
    | err e ↦ some (err e, set_peer o p pr, ring)
    | ok text ↦ admit_one k h (set_peer o p (note_received k h pr packet (length skb))) p text ring
  ]

-- `ovpn_decrypt_work` over what its ring holds, with whether NAPI is scheduled
unfoldable pub decrypt_work :
    Kernel
    → Ovpn
    → ℕ
    → List (Handling × Packet × List ℕ)
    → List (List ℕ)
    → Option (Bool × Ovpn × List (List ℕ))
decrypt_work k o p [] ring = some (false, peer_put o p, ring)
decrypt_work k o p ((h, packet, skb) ∷ rx) ring = do
  (ret, o', ring') ← decrypt_one k h o p packet skb ring
  (more, o'', ring'') ← decrypt_work k o' p rx ring'
  some (is_ok ret || more, o'', ring'')
