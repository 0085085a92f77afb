-- ===== src/Peer/Timer.antt =====
-- The keepalive timers of peer.c and peer.h. `msecs_to_jiffies` is the kernel's; it takes an
-- unsigned int, and its result goes to a u32. An armed timer is the time that it fires at.
use ovpn_dco.Base.{ℕ, ◌+◌, ◌*◌, ◌%◌, ◌^◌, ◌≡◌, arith, Option, none, some, ◌==◌, ltb, if◌then◌else◌}
use ovpn_dco.Peer.{Peer}

module _ (msecs_to_jiffies : ℕ → ℕ) where
  -- `delta` for a number of seconds
  unfoldable pub delta_of : ℕ → ℕ
  delta_of seconds = msecs_to_jiffies (seconds * 1000 % 2 ^ 32) % 2 ^ 32

  -- `mod_timer(timer, jiffies + delta)`
  unfoldable pub fires_at : ℕ → ℕ → ℕ
  unfolding delta_of
  fires_at now seconds = (now + delta_of seconds) % 2 ^ 64

  -- `ovpn_peer_keepalive_set`
  unfoldable pub keepalive_set : Peer → ℕ → ℕ → ℕ → Peer
  unfolding fires_at
  keepalive_set pr now interval timeout = record pr {
    keepalive_interval = interval;
    keepalive_xmit = if ltb 0 interval then some (fires_at now interval) else none;
    keepalive_timeout = timeout;
    keepalive_recv = if ltb 0 timeout then some (fires_at now timeout) else none;
  }

  -- `ovpn_peer_keepalive_recv_reset`
  unfoldable pub keepalive_recv_reset : Peer → ℕ → Peer
  unfolding fires_at
  keepalive_recv_reset pr now =
      if delta_of pr.keepalive_timeout == 0
      then pr
      else record pr { keepalive_recv = some (fires_at now pr.keepalive_timeout) }

  -- `ovpn_peer_keepalive_xmit_reset`
  unfoldable pub keepalive_xmit_reset : Peer → ℕ → Peer
  unfolding fires_at
  keepalive_xmit_reset pr now =
      if delta_of pr.keepalive_interval == 0
      then pr
      else record pr { keepalive_xmit = some (fires_at now pr.keepalive_interval) }

  delta-zero : msecs_to_jiffies 0 ≡ 0 → delta_of 0 ≡ 0
  unfolding delta_of
  delta-zero zero = ground (arith, zero)

  -- what traffic at `later` leaves of a timer that was configured at `now`
  abbrev rearmed : ℕ → ℕ → ℕ → Option ℕ
  rearmed now later seconds =
      if seconds == 0
      then none
      else (if delta_of seconds == 0
          then some (fires_at now seconds)
          else some (fires_at later seconds))

  -- Periods that differ by 2 ^ 29 seconds come to one number of milliseconds, modulo 2 ^ 32.
  fires_at_wraps : (now seconds : ℕ) → fires_at now (seconds + 2 ^ 29) ≡ fires_at now seconds
  unfolding fires_at delta_of
  fires_at_wraps now seconds =
      let same : (seconds + 2 ^ 29) * 1000 % 2 ^ 32 ≡ seconds * 1000 % 2 ^ 32 = omega arith in
      rw same

  -- Where 0 milliseconds are 0 jiffies: after the keepalive was configured, traffic in a direction
  -- never arms a timer that was switched off by a zero, leaves one alone whose period comes to 0
  -- jiffies, and arms any other again from the time of the traffic. A period that is longer by 2 ^ 29
  -- seconds arms the timer for the same time as the period itself.
  pub keepalive_resets :
      (pr : Peer) (now later interval timeout : ℕ)
      → msecs_to_jiffies 0 ≡ 0
      → let pr' = keepalive_set pr now interval timeout in
        ((keepalive_xmit_reset pr' later).keepalive_xmit ≡ rearmed now later interval)
        × ((keepalive_recv_reset pr' later).keepalive_recv ≡ rearmed now later timeout)
        × ((keepalive_set pr now (interval + 2 ^ 29) timeout).keepalive_xmit
            ≡ some (fires_at now interval))
  unfolding keepalive_set keepalive_xmit_reset keepalive_recv_reset
  keepalive_resets pr now later interval timeout zero = (
    ground (arith, delta-zero zero),
    ground (arith, delta-zero zero),
    ground (arith, fires_at_wraps now interval),
  )
