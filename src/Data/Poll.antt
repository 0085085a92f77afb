-- ===== src/Data/Poll.antt =====
-- drivers/net/ovpn-dco/ovpn.c: from the ring of decrypted packets of a peer to the network stack, as
-- NAPI polls it. A packet in the ring has the size that it was received with, `rx_stats_size`.
use mathlib.Core.List.{append_assoc, append-nil}
use ovpn_dco.Base.{
  ℕ, zero, suc, ◌+◌, ◌%◌, ◌^◌, ◌<◌, ◌⊎◌, inl, inr, ◌≤◌, take, drop, ◌≡◌, refl, ap, ◌∙◌, arith, List,
  [], ◌∷◌, ◌++◌, Bool, ◌&&◌, Option, none, some, ltb, if◌then◌else◌, length,
}

-- the counters of the interface, of 64 bits, and what the network stack received from it
pub record Tun : Type 0 where
  pub rx_packets : ℕ
  pub rx_bytes : ℕ
  pub received : List (List ℕ)

-- `tun_netdev_write`; the fields of the packet that it resets are not part of the state
unfoldable pub tun_netdev_write : Tun → ℕ × List ℕ → Tun
tun_netdev_write tun skb = record {
  rx_packets = (tun.rx_packets + 1) % 2 ^ 64;
  rx_bytes = (tun.rx_bytes + skb.0) % 2 ^ 64;
  received = tun.received ++ (skb.1 ∷ []);
}

-- the loop of `ovpn_napi_poll`: the number of packets written, the interface and the ring
unfoldable pub poll_loop : ℕ → Tun → List (ℕ × List ℕ) → ℕ × Tun × List (ℕ × List ℕ)
unfolding tun_netdev_write
poll_loop zero tun ring = (0, tun, ring)
poll_loop (suc budget) tun [] = (0, tun, [])
poll_loop (suc budget) tun (skb ∷ ring) =
    let (work_done, tun', rest) = poll_loop budget (tun_netdev_write tun skb) ring in
    (suc work_done, tun', rest)

-- `ovpn_napi_poll`, with whether `napi_complete_done` is called. A budget that is not positive is 0.
unfoldable pub napi_poll : ℕ → Tun → List (ℕ × List ℕ) → (ℕ × Bool) × Tun × List (ℕ × List ℕ)
unfolding poll_loop
napi_poll budget tun ring =
    let (work_done, tun', rest) = poll_loop budget tun ring in
    ((work_done, ltb 0 budget && ltb work_done budget), tun', rest)

-- Polls with one budget until one is complete, `none` if that takes more than a number of polls.
unfoldable pub polls : ℕ → ℕ → Tun → List (ℕ × List ℕ) → Option Tun
unfolding napi_poll
polls zero budget tun ring = none
polls (suc n) budget tun ring =
    let ((work_done, complete), tun', rest) = napi_poll budget tun ring in
    let later = polls n budget tun' rest in if complete then some tun' else later

abbrev bytes_of : List (ℕ × List ℕ) → ℕ
bytes_of [] = 0
bytes_of (skb ∷ ring) = skb.0 + bytes_of ring

abbrev texts_of : List (ℕ × List ℕ) → List (List ℕ)
texts_of [] = []
texts_of (skb ∷ ring) = skb.1 ∷ texts_of ring

-- the interface once some packets were written
unfoldable pub written : Tun → List (ℕ × List ℕ) → Tun
written tun skbs = record {
  rx_packets = (tun.rx_packets + length skbs) % 2 ^ 64;
  rx_bytes = (tun.rx_bytes + bytes_of skbs) % 2 ^ 64;
  received = tun.received ++ texts_of skbs;
}

-- the packets of a list, written one after the other
abbrev writes : Tun → List (ℕ × List ℕ) → Tun
writes tun [] = tun
writes tun (skb ∷ ring) = writes (tun_netdev_write tun skb) ring

poll_loop_drains :
    (budget : ℕ) (tun : Tun) (ring : List (ℕ × List ℕ))
    → length ring < budget
    → poll_loop budget tun ring ≡ (length ring, writes tun ring, [])
unfolding poll_loop
poll_loop_drains zero tun ring h = absurd (omega arith)
poll_loop_drains (suc budget) tun [] h = refl
poll_loop_drains (suc budget) tun (skb ∷ ring) h =
    rw (poll_loop_drains budget (tun_netdev_write tun skb) ring (omega arith))

poll_loop_stops :
    (budget : ℕ) (tun : Tun) (ring : List (ℕ × List ℕ))
    → budget ≤ length ring
    → poll_loop budget tun ring ≡ (budget, writes tun (take budget ring), drop budget ring)
unfolding poll_loop
poll_loop_stops zero tun ring h = refl
poll_loop_stops (suc budget) tun [] h = absurd (omega arith)
poll_loop_stops (suc budget) tun (skb ∷ ring) h =
    rw (poll_loop_stops budget (tun_netdev_write tun skb) ring (omega arith))

writes-take-drop :
    (n : ℕ) (tun : Tun) (ring : List (ℕ × List ℕ))
    → writes (writes tun (take n ring)) (drop n ring) ≡ writes tun ring
writes-take-drop zero tun ring = refl
writes-take-drop (suc n) tun [] = refl
writes-take-drop (suc n) tun (skb ∷ ring) = writes-take-drop n (tun_netdev_write tun skb) ring

length-drop :
    (n : ℕ) (ring : List (ℕ × List ℕ)) → n ≤ length ring → length (drop n ring) + n ≡ length ring
length-drop zero ring h = omega arith
length-drop (suc n) [] h = absurd (omega arith)
length-drop (suc n) (skb ∷ ring) h = omega (arith, length-drop n ring (omega arith))

le_or_lt : (m n : ℕ) → (m ≤ n) ⊎ (n < m)
le_or_lt m n = omega arith

polls-writes :
    (n budget : ℕ) (tun : Tun) (ring : List (ℕ × List ℕ))
    → 0 < budget
    → length ring < n
    → polls n budget tun ring ≡ some (writes tun ring)
unfolding polls napi_poll
polls-writes zero budget tun ring h g = absurd (omega arith)
polls-writes (suc n) budget tun ring h g = elim (le_or_lt budget (length ring)) [
  | inl full ↦
      let later =
        polls-writes n budget (writes tun (take budget ring)) (drop budget ring) h
          (omega (arith, length-drop budget ring full)) in
      rw (poll_loop_stops budget tun ring full)
        (ground (arith, later ∙ ap some (writes-take-drop budget tun ring)))
  | inr short ↦ rw (poll_loop_drains budget tun ring short) (ground arith)
]

writes-written :
    (tun : Tun) (ring : List (ℕ × List ℕ))
    → tun.rx_packets < 2 ^ 64
    → tun.rx_bytes < 2 ^ 64
    → writes tun ring ≡ written tun ring
unfolding written tun_netdev_write
writes-written tun [] h g =
    let e : tun.received ++ texts_of [] ≡ tun.received = append-nil tun.received in
    ground (arith, e)
writes-written tun (skb ∷ ring) h g =
    let e : (tun.received ++ (skb.1 ∷ [])) ++ texts_of ring
        ≡ tun.received ++ texts_of (skb ∷ ring) =
      append_assoc tun.received (skb.1 ∷ []) (texts_of ring) in
    writes-written (tun_netdev_write tun skb) ring (omega arith) (omega arith) ∙ ground (arith, e)

poll_loop-le :
    (budget : ℕ) (tun : Tun) (ring : List (ℕ × List ℕ)) → (poll_loop budget tun ring).0 ≤ budget
poll_loop-le budget tun ring = elim (le_or_lt budget (length ring)) [
  | inl full ↦ rw (poll_loop_stops budget tun ring full) (omega arith)
  | inr short ↦ rw (poll_loop_drains budget tun ring short) (omega arith)
]

-- With a positive budget, and counters that fit their 64 bits: a poll writes no more packets than
-- its budget. Polls go on until one is complete, which takes at most one more than there are
-- packets in the ring, and when they end all packets have reached the network stack, in the order
-- of the ring. The interface has then counted each packet once, with the size it was received with,
-- modulo 2 ^ 64.
pub polls-written :
    (n budget : ℕ) (tun : Tun) (ring : List (ℕ × List ℕ))
    → 0 < budget
    → length ring < n
    → tun.rx_packets < 2 ^ 64
    → tun.rx_bytes < 2 ^ 64
    → ((napi_poll budget tun ring).0.0 ≤ budget)
      × (polls n budget tun ring ≡ some (written tun ring))
unfolding napi_poll
polls-written n budget tun ring h g packets bytes = (
  poll_loop-le budget tun ring,
  polls-writes n budget tun ring h g ∙ ap some (writes-written tun ring packets bytes),
)
