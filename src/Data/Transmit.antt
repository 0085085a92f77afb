-- ===== src/Data/Transmit.antt =====
-- drivers/net/ovpn-dco/ovpn.c: from the network device, or from a packet of the driver's own, to
-- the transport.
use ovpn_dco.Base.{
  ltb, ℕ, ◌+◌, ◌%◌, ◌^◌, List, [], ◌∷◌, ◌++◌, Bool, true, false, ◌||◌, not, Option, none, some,
  ◌==◌, if◌then◌else◌, length, update, Result, ok, err, Errno, Status, enomem, ehostunreach,
}
use ovpn_dco.Addr.{Packet}
use ovpn_dco.Aead.{aead_encrypt}
use ovpn_dco.Crypto.{CryptoState, ◌>>=◌, slot_primary, slot_put, kill_primary}
use ovpn_dco.Peer.{Peer, Ovpn, set_peer, peer_hold, peer_put, stats_increment_tx}
use ovpn_dco.Peer.Timer.{keepalive_xmit_reset}
use ovpn_dco.Peer.Lookup.{lookup_id, lookup_vpn_addr}
use ovpn_dco.Tcp.Send.{queue_tcp_skb, tcp_send_skb}
use ovpn_dco.Tcp.{frame}
use ovpn_dco.Data.{
  Kernel, Handling, ipproto_udp, ipproto_tcp, keepalive_message, explicit_exit_notify_message,
  ip_check_protocol, ip_packet,
}

abbrev pub is_erange : Result (List ℕ) → Bool
is_erange (ok _) = false
is_erange (err Errno.erange) = true
is_erange (err _) = false

-- a key that has used up its packet ids is killed
unfoldable pub kill_exhausted : Result (List ℕ) → CryptoState → Option CryptoState
kill_exhausted ret cs = if is_erange ret then kill_primary cs else some cs

abbrev pub success : Result (List ℕ) → Option (List ℕ)
success (ok skb) = some skb
success (err _) = none

-- `ovpn_encrypt_one` once a slot is held, which is put at the end
unfoldable pub encrypt_with :
    Kernel → Handling → Peer → ℕ → List ℕ → Option (Option (List ℕ) × Peer)
encrypt_with k h pr p skb =
    if not h.checksum
    then (do cs ← slot_put pr.crypto p; some (none, record pr { crypto = cs }))
    else (do
      ks ← pr.crypto.slots p
      let pr' = stats_increment_tx pr (length skb)
      let (ret, ks') = aead_encrypt k.api h.buffers ks skb pr.id
      cs ← kill_exhausted ret (record pr.crypto { slots = update pr.crypto.slots p (some ks') })
      cs' ← slot_put cs p
      some (success ret, record pr' { crypto = cs' }))

-- `ovpn_encrypt_one`: the packet to send, if it succeeds
unfoldable pub encrypt_one : Kernel → Handling → Peer → List ℕ → Option (Option (List ℕ) × Peer)
encrypt_one k h pr skb = do
  (found, cs) ← slot_primary pr.crypto
  let pr' = record pr { crypto = cs }
  elim found [ none ↦ some (none, pr') | some p ↦ encrypt_with k h pr' p skb ]

-- The segments of one packet: either all are encrypted, or the packet is dropped.
unfoldable pub encrypt_list :
    Kernel → Peer → List (Handling × List ℕ) → Option (Option (List (List ℕ)) × Peer)
encrypt_list k pr [] = some (some [], pr)
encrypt_list k pr ((h, skb) ∷ skbs) = do
  (sealed, pr') ← encrypt_one k h pr skb
  elim sealed [
    | none ↦ some (none, pr')
    | some out ↦ do
      (rest, pr'') ← encrypt_list k pr' skbs
      some (elim rest [ none ↦ none | some outs ↦ some (out ∷ outs) ], pr'')
  ]

-- What was handed to `ovpn_udp_send_skb`, and the ring of the TCP transport.
pub record Transport : Type 0 where
  pub udp : List (List ℕ)
  pub tcp_tx_ring : List (List ℕ)

-- the `switch` over the transport's protocol
unfoldable pub send_one : ℕ → Transport → List ℕ → Transport
send_one protocol out curr =
    if protocol == ipproto_udp
    then record out { udp = out.udp ++ (curr ∷ []) }
    else (if protocol == ipproto_tcp
        then record out { tcp_tx_ring = tcp_send_skb out.tcp_tx_ring curr }
        else out)

unfoldable pub send_list : ℕ → Transport → List (List ℕ) → Transport
send_list protocol out [] = out
send_list protocol out (curr ∷ skbs) = send_list protocol (send_one protocol out curr) skbs

-- `ovpn_encrypt_work` over what its ring holds; `now` is the time of the keepalive reset
unfoldable pub encrypt_work :
    Kernel → Ovpn → ℕ → List (ℕ × List (Handling × List ℕ)) → Transport → Option (Ovpn × Transport)
encrypt_work k o p [] out = some (peer_put o p, out)
encrypt_work k o p ((now, skbs) ∷ tx) out = do
  (sealed, pr) ← encrypt_list k (o.peers p) skbs
  elim sealed [
    | none ↦ encrypt_work k (set_peer o p pr) p tx out
    | some curr ↦
        encrypt_work k (set_peer o p (keepalive_xmit_reset k.msecs_to_jiffies pr now)) p tx
          (send_list pr.protocol out curr)
  ]

-- Whether the ring is full, and whether `queue_work` queues the work anew.
pub record Queueing : Type 0 where
  pub ring_full : Bool
  pub work_queued : Bool

-- `ovpn_queue_skb` with a peer whose reference is held: what goes to the ring of which peer
unfoldable pub queue_to : Queueing → Ovpn → ℕ → List (List ℕ) → Ovpn × Option (ℕ × List (List ℕ))
queue_to env o p skbs =
    if env.ring_full
    then (peer_put o p, none)
    else (if env.work_queued then o else peer_put o p, some (p, skbs))

-- `ovpn_queue_skb` without one: the look-up reads the first segment
unfoldable pub queue_skb :
    Kernel → Queueing → Ovpn → Packet → List (List ℕ) → Option (Ovpn × Option (ℕ × List (List ℕ)))
queue_skb k env o packet skbs = do
  (found, o') ← lookup_vpn_addr k.jhash k.route4 k.route6 o packet false
  elim found [ none ↦ some (o', none) | some p ↦ some (queue_to env o' p skbs) ]

-- What happens to a packet of the network device before it is queued: its ethertype, whether and
-- how `skb_gso_segment` cuts it, whether `skb_share_check` gives every
-- segment, and what lies in memory after the packet.
pub record Outgoing : Type 0 where
  pub protocol : ℕ
  pub memory : ℕ → Bool
  pub segments : Option (Result (List (List ℕ)))
  pub share : Bool
  pub beyond : List ℕ

-- the packets to queue, unless the packet is dropped
unfoldable pub segment : Outgoing → List ℕ → Option (List (List ℕ))
segment env skb =
    let proto = ip_check_protocol env.memory skb in
    if (proto == 0) || not (env.protocol == proto) then none else elim env.segments [
      | some (err _) ↦ none
      | some (ok skbs) ↦ if env.share then some skbs else none
      | none ↦ if env.share then some (skb ∷ []) else none
    ]

-- `ovpn_net_xmit`: whether the packet was taken, and what goes to the ring of which peer. The
-- headers of the first segment are those of the packet.
unfoldable pub net_xmit :
    Kernel → Outgoing → Queueing → Ovpn → List ℕ → Option (Bool × Ovpn × Option (ℕ × List (List ℕ)))
net_xmit k env queue o skb = elim (segment env skb) [
  | none ↦ some (false, o, none)
  | some skbs ↦ do
    (o', ring) ← queue_skb k queue o (ip_packet env.protocol (skb ++ env.beyond)) skbs
    some (true, o', ring)
]

-- `ovpn_xmit_special`, with whether the buffer can be allocated
unfoldable pub xmit_special :
    Bool → Queueing → Ovpn → ℕ → List ℕ → Ovpn × Option (ℕ × List (List ℕ))
xmit_special alloc env o p bytes =
    if not alloc
    then (o, none)
    else (let (held, o') = peer_hold o p in
        if held then queue_to env o' p (bytes ∷ []) else (o', none))

unfoldable pub keepalive_xmit : Bool → Queueing → Ovpn → ℕ → Ovpn × Option (ℕ × List (List ℕ))
unfolding xmit_special
keepalive_xmit alloc env o p = xmit_special alloc env o p keepalive_message

unfoldable pub explicit_exit_notify_xmit :
    Bool → Queueing → Ovpn → ℕ → Ovpn × Option (ℕ × List (List ℕ))
unfolding xmit_special
explicit_exit_notify_xmit alloc env o p = xmit_special alloc env o p explicit_exit_notify_message

-- `ovpn_peer_ping`, the callback of the timer `keepalive_xmit`
unfoldable pub peer_ping : Bool → Queueing → Ovpn → ℕ → Ovpn × Option (ℕ × List (List ℕ))
unfolding keepalive_xmit
peer_ping alloc env o p = keepalive_xmit alloc env o p

-- The room that `ovpn_send_data` allocates, a u16; `header` is SKB_HEADER_LEN.
unfoldable pub skb_len_for : ℕ → ℕ → ℕ → ℕ
skb_len_for header protocol len =
    let skb_len = (header + len) % 2 ^ 16 in
    if protocol == ipproto_tcp then (skb_len + 2) % 2 ^ 16 else skb_len

-- `ovpn_send_data`, with the room of a buffer that is allocated for a size, if it can be: the peer
-- and its transport. The length of the data is in front of it for TCP. `skb_put_data` past the end
-- of the buffer is a fault, `none`.
unfoldable pub send_data :
    Kernel
    → (ℕ → Option ℕ)
    → ℕ
    → Ovpn
    → ℕ
    → List ℕ
    → (ℕ → Transport)
    → Option (Status × Ovpn × (ℕ → Transport))
send_data k alloc header o peer_id bytes out =
    let (found, o') = lookup_id k.jhash o peer_id in
    elim found [
      | none ↦ some (err ehostunreach, o', out)
      | some p ↦
          let protocol = (o'.peers p).protocol in
          let tcp = record (out p) {
            tcp_tx_ring = queue_tcp_skb (out p).tcp_tx_ring (frame bytes);
          } in
          let udp = record (out p) { udp = (out p).udp ++ (bytes ∷ []) } in
          elim (alloc (skb_len_for header protocol (length bytes))) [
            | none ↦ some (err enomem, peer_put o' p, out)
            | some size ↦
                if ltb size (header + length bytes)
                then none
                else some (
                  ok tt,
                  peer_put o' p,
                  update out p (if protocol == ipproto_tcp then tcp else udp),
                )
          ]
    ]
