-- ===== src/Data/RoundTrip.antt =====
-- The two ends of the data channel: what one peer encrypts, the other opens; and the end of a key.
use mathlib.Core.Path.{subst}
use ovpn_dco.Base.{
  ℕ, List, ◌+◌, ◌^◌, ◌<◌, ◌≤◌, ◌≡◌, refl, sym, ap, ◌∙◌, arith, true, false, Option, none, some,
  ◌==◌, if◌then◌else◌, update_self, Result, ok, err, erange,
}
use ovpn_dco.KeySlot.{KeySlot}
use ovpn_dco.Pktid.{xmit_next, recv, seq_limit}
use ovpn_dco.Aead.{prepare, aead_decrypt, aead_encrypt}
use ovpn_dco.Aead.Header.{IsPaired, encrypt_layout}
use ovpn_dco.Aead.Replay.{decrypt-encrypt}
use ovpn_dco.Crypto.{CryptoState, slot_put, hold_or_null, slot_primary}
use ovpn_dco.Crypto.Refs.{
  IsCounted, Ensures, Ensures->>=, Ensures-map, gain, SamePointers, slot_put-IsCounted,
}
use ovpn_dco.Crypto.Slots.{Kept, chosen, slot_primary_lem}
use ovpn_dco.Peer.{Peer}
use ovpn_dco.Data.{Kernel, Handling}
use ovpn_dco.Data.Receive.{open_one}
use ovpn_dco.Data.Transmit.{encrypt_with, encrypt_one, kill_exhausted, is_erange, success}
use ovpn_dco.Data.Keys.{store-IsCounted, kill_exhausted-IsCounted}
use ovpn_dco.Data.Refine.{more, stored, hold_lem, encrypt_more, open_one_lem}

-- A peer sends with the live slot at an address.
pub record Sends (pr : Peer) (held : ℕ → ℕ) (p : ℕ) (ks : KeySlot) : Type 0 where
  pub counted : IsCounted pr.crypto held
  pub first : pr.crypto.primary ≡ some p
  pub there : pr.crypto.slots p ≡ some ks
  pub alive : (ks.refcount == 0) ≡ false

primary_held :
    (pr : Peer) (held : ℕ → ℕ) (p : ℕ) (ks : KeySlot)
    → Sends pr held p ks
    → (slot_primary pr.crypto ≡ some (some p, stored pr.crypto p (more ks)))
      × IsCounted (stored pr.crypto p (more ks)) (gain (some p) held)
unfolding slot_primary
primary_held pr held p ks s =
    let e : slot_primary pr.crypto ≡ some (some p, stored pr.crypto p (more ks)) =
      ap (hold_or_null pr.crypto) s.first ∙ hold_lem pr.crypto p ks s.there s.alive in
    (
      e,
      (subst
          (Ensures (λ (r : Option ℕ × CryptoState).
            (r.0 ≡ pr.crypto.primary) × Kept held r × SamePointers pr.crypto r.1))
          e (slot_primary_lem pr.crypto held s.counted)).1,
    )

-- what an encryption gives, and what becomes of the primary pointer
abbrev Outcome : Kernel → Handling → Peer → KeySlot → List ℕ → Option (List ℕ) × Peer → Type 0
Outcome k h pr ks skb r =
    let ret = (aead_encrypt k.api h.buffers ks skb pr.id).0 in
    (r.0 ≡ success ret) × (r.1.crypto.primary ≡ (if is_erange ret then none else pr.crypto.primary))

encrypt_one-Outcome :
    (k : Kernel) (h : Handling) (pr : Peer) (held : ℕ → ℕ) (p : ℕ) (ks : KeySlot) (skb : List ℕ)
    → Sends pr held p ks
    → h.checksum ≡ true
    → Ensures (Outcome k h pr ks skb) (encrypt_one k h pr skb)
unfolding encrypt_one encrypt_with
encrypt_one-Outcome k h pr held p ks skb s sum =
    let (e, v) = primary_held pr held p ks s in
    let (ret, ks') = aead_encrypt k.api h.buffers ks skb pr.id in
    let cs = stored pr.crypto p (more ks) in
    let used : KeySlot = record ks' { refcount = ks.refcount + 1 } in
    let kept =
      store-IsCounted cs (gain (some p) held) p (more ks) used
        (update_self pr.crypto.slots p (some (more ks))) refl v in
    rw
      (
        encrypt_one,
        e,
        encrypt_with,
        sum,
        update_self pr.crypto.slots p (some (more ks)),
        encrypt_more k.api h.buffers (ks.refcount + 1) pr.id ks skb,
      )
      (Ensures->>= _ _ (kill_exhausted ret (stored cs p used)) _
        (kill_exhausted-IsCounted ret (stored cs p used) (gain (some p) held) p kept s.first)
        (λ cs' r.
          Ensures->>= _ _ (slot_put cs' p) _ (slot_put-IsCounted cs' held p r.0)
            (λ cs'' t. (refl, t.1.0 ∙ r.2))))

exhausted_erange :
    (k : Kernel) (h : Handling) (ks : KeySlot) (skb : List ℕ) (id : ℕ)
    → prepare h.buffers ≡ ok tt
    → ks.pid_xmit.seq_num ≡ seq_limit
    → (aead_encrypt k.api h.buffers ks skb id).0 ≡ err erange
unfolding aead_encrypt xmit_next
exhausted_erange k h ks skb id ready full =
    let e : (ks.pid_xmit.seq_num == seq_limit) ≡ true = ap (λ n. n == seq_limit) full in
    rw (aead_encrypt, ready, e) refl

no_primary :
    (k : Kernel) (h : Handling) (pr : Peer) (skb : List ℕ)
    → pr.crypto.primary ≡ none
    → encrypt_one k h pr skb ≡ some (none, pr)
unfolding encrypt_one slot_primary hold_or_null
no_primary k h pr skb e =
    let found : slot_primary pr.crypto ≡ some (none, pr.crypto) = ap (hold_or_null pr.crypto) e in
    rw (encrypt_one, found) refl

-- A peer sends with a live primary key that has given out all of its packet ids, its key slots are
-- counted right, and the checksum and buffer calls for the packet succeed. Then the packet is not
-- sent, which does not fault, and no packet after it is, whatever its calls return: each is refused
-- and leaves the peer as it is.
pub key_exhausted :
    (k : Kernel) (h : Handling) (pr : Peer) (held : ℕ → ℕ) (p : ℕ) (ks : KeySlot) (skb : List ℕ)
    → Sends pr held p ks
    → h.checksum ≡ true
    → prepare h.buffers ≡ ok tt
    → ks.pid_xmit.seq_num ≡ seq_limit
    → Ensures
        (λ r.
          (r.0 ≡ none)
          × ((h' : Handling) (next : List ℕ) → encrypt_one k h' r.1 next ≡ some (none, r.1)))
        (encrypt_one k h pr skb)
key_exhausted k h pr held p ks skb s sum ready full =
    let e = exhausted_erange k h ks skb pr.id ready full in
    Ensures-map (Outcome k h pr ks skb) _ (encrypt_one k h pr skb)
      (encrypt_one-Outcome k h pr held p ks skb s sum)
      (λ (r : Option (List ℕ) × Peer) out. (
        out.0 ∙ ap success e,
        λ h' next.
            no_primary k h' r.1 next
              (out.1 ∙ ap (λ ret. if is_erange ret then none else pr.crypto.primary) e),
      ))

success-some : (ret : Result (List ℕ)) (skb : List ℕ) → success ret ≡ some skb → ret ≡ ok skb
success-some (ok x) skb e = ground arith
success-some (err x) skb e = absurd (ground arith)

pub open-encrypt :
    (k : Kernel) (h h' : Handling) (pr pr' : Peer) (cs : CryptoState) (held held' : ℕ → ℕ) (p q : ℕ)
    (ks kr : KeySlot) (payload skb : List ℕ)
    → Sends pr held p ks
    → h.checksum ≡ true
    → encrypt_one k h pr payload ≡ some (some skb, pr')
    → ks.pid_xmit.seq_num ≤ seq_limit
    → ks.key_id < 8
    → pr.id < 2 ^ 24
    → IsPaired k.api ks kr
    → IsCounted cs held'
    → chosen cs ks.key_id ≡ some q
    → cs.slots q ≡ some kr
    → (kr.refcount == 0) ≡ false
    → prepare h'.buffers ≡ ok tt
    → h'.buffers.may_pull ≡ true
    → (recv k.hz kr.pid_recv h'.now ks.pid_xmit.seq_num 0).0 ≡ ok tt
    → let kr' = (aead_decrypt k.api h'.buffers k.hz h'.now kr skb).1 in
      open_one k h' cs skb ≡ some (ok payload, stored cs q (record kr' { refcount = kr.refcount }))
open-encrypt k h h' pr pr' cs held held' p q ks kr payload skb s sum sent hs hk hid pair v sel there
      alive ready pull fresh =
    let out =
      subst (Ensures (Outcome k h pr ks payload)) sent
        (encrypt_one-Outcome k h pr held p ks payload s sum) in
    let e = success-some (aead_encrypt k.api h.buffers ks payload pr.id).0 skb (sym out.0) in
    let layout = encrypt_layout k.api h.buffers ks pr.id payload skb hs hk hid e in
    let opened =
      decrypt-encrypt k.api h.buffers h'.buffers k.hz h'.now pr.id ks kr payload skb pair hs ready
        pull e fresh in
    let kr' = (aead_decrypt k.api h'.buffers k.hz h'.now kr skb).1 in
    open_one_lem k h' cs held' skb q kr (record {
      counted = v;
      selected = ap (chosen cs) layout.1 ∙ sel;
      there = there;
      alive = alive;
    })
    ∙ ap (λ ret. some (ret, stored cs q (record kr' { refcount = kr.refcount }))) opened
