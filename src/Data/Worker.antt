-- ===== src/Data/Worker.antt =====
-- drivers/net/ovpn-dco/ovpn.c: a ring with its work item, as `ovpn_recv` and `ovpn_decrypt_work`
-- share them, and `ovpn_queue_skb` and `ovpn_encrypt_work`. Any number of callers put packets into
-- the ring while the work runs. `queue_work` queues a work item unless it is queued already, also
-- while it runs, and a work item does not run twice at once.
pub mod Safety
pub mod Liveness
use ovpn_dco.Base.{
  ℕ, zero, suc, ◌+◌, ◌-◌, ◌≤◌, ◌<◌, ◌≡◌, ◌≢◌, List, [], ◌∷◌, ◌++◌, Bool, true, false, length,
  if◌then◌else◌,
}
use ovpn_dco.Tcp.Send.{queue_len}

-- where the work item stands: not running, in its loop, or past it and before the put
pub data Phase : Type 0 where
  idle draining leaving : Phase

-- `arriving` callers hold a reference and have not reached the ring, `produced` callers have put a
-- packet there and not called `queue_work`; `others` are the references held elsewhere, and
-- `leaked` those of callers that met a full ring and kept theirs: `ovpn_udp_encap_recv` and
-- `ovpn_queue_skb` give it back there (`full`), `ovpn_tcp_rx_one` does not (`full_kept`). `accepted`
-- and `taken` are the packets that went into the ring and came out of it.
pub record Work : Type 0 where
  pub ring : List (List ℕ)
  pub pending : Bool
  pub phase : Phase
  pub arriving : ℕ
  pub produced : ℕ
  pub others : ℕ
  pub leaked : ℕ
  pub refcount : ℕ
  pub accepted : List (List ℕ)
  pub taken : List (List ℕ)

-- One step of one thread.
pub data Step (w w' : Work) : Type 0 where
  hold :
      w.refcount ≢ 0
      → w' ≡ record w { arriving = w.arriving + 1; refcount = w.refcount + 1 }
      → Step w w'
  hold_other :
      w.refcount ≢ 0
      → w' ≡ record w { others = w.others + 1; refcount = w.refcount + 1 }
      → Step w w'
  put_other :
      w.others ≢ 0 → w' ≡ record w { others = w.others - 1; refcount = w.refcount - 1 } → Step w w'
  full :
      w.arriving ≢ 0
      → queue_len ≤ length w.ring
      → w' ≡ record w { arriving = w.arriving - 1; refcount = w.refcount - 1 }
      → Step w w'
  full_kept :
      w.arriving ≢ 0
      → queue_len ≤ length w.ring
      → w' ≡ record w { arriving = w.arriving - 1; leaked = w.leaked + 1 }
      → Step w w'
  produce :
      (skb : List ℕ)
      → w.arriving ≢ 0
      → length w.ring < queue_len
      → w' ≡ record w {
        arriving = w.arriving - 1;
        produced = w.produced + 1;
        ring = w.ring ++ (skb ∷ []);
        accepted = w.accepted ++ (skb ∷ []);
      }
      → Step w w'
  queue_new :
      w.produced ≢ 0
      → w.pending ≡ false
      → w' ≡ record w { produced = w.produced - 1; pending = true }
      → Step w w'
  queue_old :
      w.produced ≢ 0
      → w.pending ≡ true
      → w' ≡ record w { produced = w.produced - 1; refcount = w.refcount - 1 }
      → Step w w'
  start :
      w.pending ≡ true
      → w.phase ≡ idle
      → w' ≡ record w { pending = false; phase = draining }
      → Step w w'
  consume :
      (skb : List ℕ) (rest : List (List ℕ))
      → w.phase ≡ draining
      → w.ring ≡ skb ∷ rest
      → w' ≡ record w { ring = rest; taken = w.taken ++ (skb ∷ []) }
      → Step w w'
  empty : w.phase ≡ draining → w.ring ≡ [] → w' ≡ record w { phase = leaving } → Step w w'
  put : w.phase ≡ leaving → w' ≡ record w { phase = idle; refcount = w.refcount - 1 } → Step w w'

-- The states that the threads reach.
pub data Reach (w : Work) : Work → Type 0 where
  here : Reach w w
  next : {w' w'' : Work} → Reach w w' → Step w' w'' → Reach w w''

-- a peer with so many references and nothing in its ring
unfoldable pub rest : ℕ → Work
rest n = record {
  ring = [];
  pending = false;
  phase = idle;
  arriving = 0;
  produced = 0;
  others = n;
  leaked = 0;
  refcount = n;
  accepted = [];
  taken = [];
}

-- what the work item itself does next, by where it stands
unfoldable pub turn_from : Phase → Bool → List (List ℕ) → Work → Work
turn_from Phase.idle true ring w = record w { pending = false; phase = draining }
turn_from Phase.idle false ring w = w
turn_from Phase.draining pending [] w = record w { phase = leaving }
turn_from Phase.draining pending (skb ∷ skbs) w = record w {
  ring = skbs;
  taken = w.taken ++ (skb ∷ []);
}
turn_from Phase.leaving pending ring w = record w { phase = idle; refcount = w.refcount - 1 }

unfoldable pub turn : Work → Work
unfolding turn_from
turn w = turn_from w.phase w.pending w.ring w

pub turns : ℕ → Work → Work
turns zero w = w
turns (suc n) w = turns n (turn w)
