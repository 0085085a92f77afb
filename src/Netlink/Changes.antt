-- ===== src/Netlink/Changes.antt =====
-- What the commands on the keys and the keepalive change.
use ovpn_dco.Base.{
  ℕ, ◌+◌, ◌-◌, ◌≡◌, ◌≢◌, refl, sym, ap, ◌∙◌, arith, false, Option, none, some, ◌==◌, ◌⊎◌, inl, inr,
  update, update_self, update-update, Result, ok, err, Errno, Status, enoent, eq_of_ne,
}
use mathlib.Core.Path.{subst}
use ovpn_dco.KeySlot.{KeySlot, PeerKeyReset}
use ovpn_dco.Aead.{key_slot_new}
use ovpn_dco.Crypto.{◌>>=◌, state_reset, slot_delete, slots_swap}
use ovpn_dco.Crypto.Refs.{IsCounted, Ensures, Ensures->>=}
use ovpn_dco.Crypto.Ops.{state_reset-IsCounted, slot_delete-IsCounted}
use ovpn_dco.Peer.{Peer, Ovpn, set_peer, peer_put}
use ovpn_dco.Peer.Timer.{keepalive_set}
use ovpn_dco.Peer.Lookup.{Key, lookup_id}
use ovpn_dco.Peer.Lookup.ById.{held, held-none}
use ovpn_dco.Peer.References.{refs, Takes, lookup_id-Takes}
use ovpn_dco.Data.{Kernel}
use ovpn_dco.Netlink.{new_key_args, del_key_args, swap_keys_args, set_peer_args}
use ovpn_dco.Netlink.Commands.{
  checked, with_peer, install_key, remove_key, exchange_keys, configure, Command, run, new_key,
  del_key, swap_keys, netlink_set_peer,
}

-- no reference to a key slot is held outside the state
abbrev pub nobody : ℕ → ℕ
nobody p = 0

-- The key slots of every peer are counted right.
abbrev pub IsSound : Ovpn → Type 0
IsSound o = (p : ℕ) → IsCounted (o.peers p).crypto nobody

-- One peer has changed, but not its id and its count, and its key slots are counted right.
pub record Changes (o o' : Ovpn) : Type 0 where
  pub changed : ℕ
  pub after : Peer
  pub others : o' ≡ set_peer o changed after
  pub counted : IsCounted after.crypto nobody
  pub same_count : after.refcount ≡ (o.peers changed).refcount
  pub same_id : after.id ≡ (o.peers changed).id

-- A command fails and changes nothing, or it changes one peer.
abbrev pub Commanded : Ovpn → Status × Ovpn → Type 0
Commanded o r = ((e : Errno) × (r ≡ (err e, o))) ⊎ Changes o r.1

-- what a command makes of its peer
abbrev Alters : Peer → Status × Peer → Type 0
Alters pr r = IsCounted r.1.crypto nobody × (r.1.refcount ≡ pr.refcount) × (r.1.id ≡ pr.id)

put_changed :
    (o : Ovpn) (p : ℕ) (pr : Peer)
    → refs o p ≢ 0
    → pr.refcount ≡ refs o p + 1
    → peer_put (set_peer (held o (some p)) p pr) p
      ≡ set_peer o p (record pr { refcount = refs o p })
unfolding peer_put held
put_changed o p pr alive more =
    let zero' = eq_of_ne (refs o p) 0 alive in
    let two : (pr.refcount == 1) ≡ false = ground (arith, more, alive) in
    let back : pr.refcount - 1 ≡ refs o p = omega (arith, more) in
    let before : Peer = record (o.peers p) { refcount = (o.peers p).refcount + 1 } in
    let last : Peer = record pr { refcount = refs o p } in
    let peers = update o.peers p before in
    rw
      (
        update_self peers p pr,
        two,
        back,
        update-update peers p pr last,
        update-update o.peers p before last,
      )
      refl

with_peer-Commanded :
    (jhash : Key → ℕ) (o : Ovpn) (id : ℕ) (change : Peer → Option (Status × Peer))
    → IsSound o
    → ((pr : Peer) → IsCounted pr.crypto nobody → Ensures (Alters pr) (change pr))
    → Ensures (Commanded o) (with_peer jhash o id change)
unfolding with_peer
with_peer-Commanded jhash o id change sound alters =
    found (lookup_id jhash o id) (lookup_id-Takes jhash o id)
  where
    found :
        (s : Option ℕ × Ovpn)
        → Takes o s
        → Ensures (Commanded o) (elim s.0 [
          | none ↦ some (err enoent, s.1)
          | some p ↦ change (s.1.peers p) >>= λ r. some (r.0, peer_put (set_peer s.1 p r.1) p)
        ])
    found (none, o') takes = inl (enoent, ap (λ x. (err enoent, x)) (takes.0 ∙ held-none o))
    found (some p, o') takes =
        let there : o'.peers p ≡ record (o.peers p) { refcount = refs o p + 1 } =
          ap (λ (x : Ovpn). x.peers p) takes.0
          ∙ (unfold held in
              update_self o.peers p (record (o.peers p) { refcount = refs o p + 1 })) in
        let counted : IsCounted (o'.peers p).crypto nobody =
          subst (λ (pr : Peer). IsCounted pr.crypto nobody) (sym there) (sound p) in
        Ensures->>= _ _ (change (o'.peers p)) _ (alters (o'.peers p) counted)
          (λ (r : Status × Peer) a. inr (record {
            changed = p;
            after = record r.1 { refcount = refs o p };
            others =
                ap (λ x. peer_put (set_peer x p r.1) p) takes.0
                ∙ put_changed o p r.1 (takes.1 p refl)
                    (a.1 ∙ ap (λ (pr : Peer). pr.refcount) there);
            counted = a.0;
            same_count = refl;
            same_id = a.2 ∙ ap (λ (pr : Peer). pr.id) there;
          }))

new_slot :
    (k : Kernel) (pkr : PeerKeyReset) (ks : KeySlot)
    → key_slot_new k.api pkr.key ≡ ok ks
    → ks.refcount ≡ 1
unfolding key_slot_new
new_slot k pkr ks e = ground arith

install_key-Alters :
    (k : Kernel) (pkr : PeerKeyReset) (pr : Peer)
    → IsCounted pr.crypto nobody
    → Ensures (Alters pr) (install_key k pkr pr)
unfolding install_key
install_key-Alters k pkr pr v =
    Ensures->>= _ _ (state_reset pr.crypto pkr.slot (key_slot_new k.api pkr.key)) _
      (state_reset-IsCounted pr.crypto nobody pkr.slot (key_slot_new k.api pkr.key) v
        (λ ks e. new_slot k pkr ks e))
      (λ r c. (c, refl, refl))

remove_key-Alters :
    (slot : ℕ) (pr : Peer) → IsCounted pr.crypto nobody → Ensures (Alters pr) (remove_key slot pr)
unfolding remove_key
remove_key-Alters slot pr v =
    Ensures->>= _ _ (slot_delete pr.crypto slot) _ (slot_delete-IsCounted pr.crypto nobody slot v)
      (λ cs c. (c, refl, refl))

exchange_keys-Alters :
    (pr : Peer) → IsCounted pr.crypto nobody → Ensures (Alters pr) (exchange_keys pr)
unfolding exchange_keys slots_swap
exchange_keys-Alters pr v =
    (record { counted = λ q. omega (arith, v.counted q); unused = v.unused }, refl, refl)

configure-Alters :
    (k : Kernel) (now : ℕ) (interval timeout : Option ℕ) (pr : Peer)
    → IsCounted pr.crypto nobody
    → Ensures (Alters pr) (configure k now interval timeout pr)
unfolding configure keepalive_set
configure-Alters k now (some interval) (some timeout) pr v = (v, refl, refl)
configure-Alters k now (some interval) none pr v = (v, refl, refl)
configure-Alters k now none timeout pr v = (v, refl, refl)

checked-Commanded :
    {A : Type 0} (o : Ovpn) (args : Result A) (command : A → Option (Status × Ovpn))
    → ((a : A) → Ensures (Commanded o) (command a))
    → Ensures (Commanded o) (checked o args command)
checked-Commanded o (err e) command h = inl (e, refl)
checked-Commanded o (ok a) command h = h a

-- Where the key slots of the peers are counted right, a command on keys or the keepalive does not
-- fault. It either fails and changes nothing, or it changes one peer, whose id and reference count
-- stay, and whose key slots are counted right again.
pub run-Commanded :
    (k : Kernel) (now : ℕ) (o : Ovpn) (c : Command)
    → IsSound o
    → Ensures (Commanded o) (run k now o c)
unfolding run new_key del_key swap_keys netlink_set_peer
run-Commanded k now o (Command.cmd_new_key attr) sound =
    checked-Commanded o (new_key_args attr) _ (λ args.
      with_peer-Commanded k.jhash o args.0 (install_key k args.1) sound
        (install_key-Alters k args.1))
run-Commanded k now o (Command.cmd_del_key attr) sound =
    checked-Commanded o (del_key_args attr) _ (λ args.
      with_peer-Commanded k.jhash o args.0 (remove_key args.1) sound (remove_key-Alters args.1))
run-Commanded k now o (Command.cmd_swap_keys attr) sound =
    checked-Commanded o (swap_keys_args attr) _
      (λ peer_id. with_peer-Commanded k.jhash o peer_id exchange_keys sound exchange_keys-Alters)
run-Commanded k now o (Command.cmd_set_peer attr) sound =
    checked-Commanded o (set_peer_args attr) _ (λ args.
      with_peer-Commanded k.jhash o args.0 (configure k now args.1 args.2) sound
        (configure-Alters k now args.1 args.2))
