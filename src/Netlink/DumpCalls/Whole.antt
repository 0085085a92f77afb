-- ===== src/Netlink/DumpCalls/Whole.antt =====
-- A whole dump shows every peer, and gives back the reference to the device.
use mathlib.Core.Path.{subst}
use ovpn_dco.Base.{
  ℕ, ◌+◌, ◌-◌, ◌≤◌, ◌≡◌, ◌⊎◌, refl, sym, ap, ◌∙◌, inl, inr, arith, List, [], ◌∷◌, ◌++◌, Bool, true,
  false, Option, none, some, length, length-append, drop, update, update_self, update_same,
  update-update, Result, ok, err, Errno, Status,
}
use ovpn_dco.Netlink.{get_dev_from_attrs}
use ovpn_dco.Netlink.Peers.{dump_loop, dump_peers, all_peers}
use ovpn_dco.Netlink.Dump.{HaveRoom, dump_loop-drop, dump_loop_advances, length_zero}
use ovpn_dco.Netlink.DumpCalls.{
  DumpArgs, first_args, Dumping, dump_prepare, dump_done, first_dump, dump_call, in_front,
  after_call, dump_all,
}

abbrev dumping : ℕ → ℕ → DumpArgs
dumping d idx = record { ovpn = some d; last_idx = idx }

-- What a dump that has begun shows; it is all that is left when there is room enough.
abbrev Shows : Dumping → ℕ → ℕ → (ℕ → ℕ) → List ℕ → Type 0
Shows env d idx refs rooms =
    (out : List ℕ) × (dump_all env (dumping d idx) refs rooms
      ≡ some (out, update refs d (refs d - 1)))
    × (HaveRoom rooms
        → length (drop idx (all_peers (env.interfaces d))) ≤ length rooms
        → out ≡ drop idx (all_peers (env.interfaces d)))

dump_call_lem :
    (env : Dumping) (d idx room : ℕ) (refs : ℕ → ℕ)
    → let out = dump_loop idx room (all_peers (env.interfaces d)) in
      dump_call env (dumping d idx) refs room ≡ (ok out, dumping d (idx + length out), refs)
unfolding dump_call dump_peers
dump_call_lem env d idx room refs = refl

-- a call whose message is known
called :
    (env : Dumping) (cb cb' : DumpArgs) (refs refs' : ℕ → ℕ) (room : ℕ) (rooms : List ℕ)
    (ret : Result (List ℕ))
    → dump_call env cb refs room ≡ (ret, cb', refs')
    → dump_all env cb refs (room ∷ rooms) ≡ after_call ret cb' refs' (dump_all env cb' refs' rooms)
unfolding dump_all
called env cb cb' refs refs' room rooms ret e =
    ap
      (λ (c : Result (List ℕ) × DumpArgs × (ℕ → ℕ)).
        after_call c.0 c.1 c.2 (dump_all env c.1 c.2 rooms))
      e

-- one more call in front
next_call :
    (env : Dumping) (d idx room : ℕ) (refs : ℕ → ℕ) (rooms : List ℕ)
    → ((n : ℕ) → Shows env d n refs rooms)
    → Shows env d idx refs (room ∷ rooms)
unfolding after_call dump_done
next_call env d idx room refs rooms ih = go (dump_loop idx room ps) refl
  where
    ps : List ℕ
    ps = all_peers (env.interfaces d)

    shows :
        (out : List ℕ)
        → dump_loop idx room ps ≡ out
        → dump_all env (dumping d idx) refs (room ∷ rooms)
          ≡ after_call
              (ok out)
              (dumping d (idx + length out))
              refs
              (dump_all env (dumping d (idx + length out)) refs rooms)
    shows out e =
        called env (dumping d idx) (dumping d (idx + length out)) refs refs room rooms (ok out) (
          subst
            (λ x.
              dump_call env (dumping d idx) refs room ≡ (ok x, dumping d (idx + length x), refs))
            e (dump_call_lem env d idx room refs))

    go : (out : List ℕ) → dump_loop idx room ps ≡ out → Shows env d idx refs (room ∷ rooms)
    go [] e = (
      [],
      shows [] e,
      λ h short. elim (dump_loop_advances idx room ps h.0) [
        | inl l ↦ sym (length_zero (drop idx ps) (omega (arith, l)))
        | inr l ↦ absurd (omega (arith, l, ap length e))
      ],
    )
    go (p ∷ qs) e =
        let (out, shown, whole) = ih (idx + length (p ∷ qs)) in
        let split : (p ∷ qs) ++ drop (idx + length (p ∷ qs)) ps ≡ drop idx ps =
          subst (λ x. x ++ drop (idx + length x) ps ≡ drop idx ps) e (dump_loop-drop idx room ps) in
        (
          (p ∷ qs) ++ out,
          shows (p ∷ qs) e ∙ ap (in_front (p ∷ qs)) shown,
          λ h short.
              ap (λ x. (p ∷ qs) ++ x)
                (whole h.1 (
                  omega (
                    arith,
                    short,
                    ap length split,
                    length-append (p ∷ qs) (drop (idx + length (p ∷ qs)) ps),
                  )))
              ∙ split,
        )

dump_all-Shows :
    (env : Dumping) (d idx : ℕ) (refs : ℕ → ℕ) (rooms : List ℕ) → Shows env d idx refs rooms
unfolding dump_all dump_done
dump_all-Shows env d idx refs [] =
    ([], refl, λ room short. sym (length_zero (drop idx (all_peers (env.interfaces d))) short))
dump_all-Shows env d idx refs (room ∷ rooms) =
    next_call env d idx room refs rooms (λ n. dump_all-Shows env d n refs rooms)

-- the preparation takes a reference to the device that it finds, and none when it fails
abbrev Prepared : (ℕ → ℕ) → Result ℕ × (ℕ → ℕ) → Type 0
Prepared refs (ok d, refs') = refs' ≡ update refs d (refs d + 1)
Prepared refs (err e, refs') = refs' ≡ refs

taken_back : (refs : ℕ → ℕ) (d : ℕ) → update (update refs d (refs d + 1)) d (refs d + 1 - 1) ≡ refs
taken_back refs d =
    let back : refs d + 1 - 1 ≡ refs d = omega arith in
    rw (update-update refs d (refs d + 1) (refs d + 1 - 1), back) (update_same refs d)

get_dev-Prepared :
    (devices : ℕ → Option Bool) (refs : ℕ → ℕ) (ifindex : Option ℕ)
    → Prepared refs (get_dev_from_attrs devices refs ifindex)
unfolding get_dev_from_attrs
get_dev-Prepared devices refs none = refl
get_dev-Prepared devices refs (some i) = go (devices i) refl
  where
    go :
        (o : Option Bool) → devices i ≡ o → Prepared refs (get_dev_from_attrs devices refs (some i))
    go none e = rw (get_dev_from_attrs, e) refl
    go (some true) e = rw (get_dev_from_attrs, e) refl
    go (some false) e =
        rw (get_dev_from_attrs, e, update_self refs i (refs i + 1)) (taken_back refs i)

dump_prepare-Prepared : (env : Dumping) (refs : ℕ → ℕ) → Prepared refs (dump_prepare env refs)
unfolding dump_prepare
dump_prepare-Prepared env refs = go env.alloc env.parse
  where
    go :
        (alloc parse : Status)
        → Prepared refs (elim alloc [
          | err e ↦ (err e, refs)
          | ok _ ↦ elim parse [
            | err e ↦ (err e, refs)
            | ok _ ↦ get_dev_from_attrs env.devices refs env.ifindex
          ]
        ])
    go (err e) parse = refl
    go (ok _) (err e) = refl
    go (ok _) (ok _) = get_dev-Prepared env.devices refs env.ifindex

-- What a dump comes to: the first call fails and its end dereferences NULL, or all peers are shown
-- and the device's reference is given back.
abbrev pub Dumped : Dumping → (ℕ → ℕ) → List ℕ → Type 0
Dumped env refs rooms =
    ((e : Errno) × ((dump_prepare env refs).0 ≡ err e)
      × (dump_all env first_args refs rooms ≡ none))
    ⊎ ((d : ℕ) × ((dump_prepare env refs).0 ≡ ok d)
        × (dump_all env first_args refs rooms ≡ some (all_peers (env.interfaces d), refs)))

-- the first call, from what the preparation gives
begins :
    (env : Dumping) (refs : ℕ → ℕ) (room : ℕ) (r : Result ℕ × (ℕ → ℕ))
    → dump_prepare env refs ≡ r
    → dump_call env first_args refs room ≡ first_dump env first_args room r
unfolding dump_call
begins env refs room r f = ap (first_dump env first_args room) f

first_found :
    (env : Dumping) (d room : ℕ) (refs : ℕ → ℕ)
    → first_dump env first_args room (ok d, refs) ≡ dump_call env (dumping d 0) refs room
unfolding dump_call first_dump
first_found env d room refs = refl

first_call :
    (env : Dumping) (refs : ℕ → ℕ) (room : ℕ) (rooms : List ℕ) (r : Result ℕ × (ℕ → ℕ))
    → dump_prepare env refs ≡ r
    → Prepared refs r
    → HaveRoom (room ∷ rooms)
    → ((d : ℕ)
        → (dump_prepare env refs).0 ≡ ok d
        → length (all_peers (env.interfaces d)) ≤ length (room ∷ rooms))
    → Dumped env refs (room ∷ rooms)
unfolding after_call dump_done first_dump
first_call env refs room rooms (err e, refs') f same h short = inl (
  e,
  ap (λ (x : Result ℕ × (ℕ → ℕ)). x.0) f,
  called env first_args first_args refs refs' room rooms (err e)
      (begins env refs room (err e, refs') f),
)
first_call env refs room rooms (ok d, refs') f same h short =
    let found = ap (λ (x : Result ℕ × (ℕ → ℕ)). x.0) f in
    let (out, shown, whole) = dump_all-Shows env d 0 refs' (room ∷ rooms) in
    let c = dump_call env (dumping d 0) refs' room in
    let same_call : dump_call env first_args refs room ≡ c =
      begins env refs room (ok d, refs') f ∙ first_found env d room refs' in
    let balanced : update refs' d (refs' d - 1) ≡ refs =
      subst (λ x. update x d (x d - 1) ≡ refs) (sym same)
        (rw (update_self refs d (refs d + 1)) (taken_back refs d)) in
    inr (
      d,
      found,
      called env first_args c.1 refs c.2 room rooms c.0 same_call
          ∙ sym (called env (dumping d 0) c.1 refs' c.2 room rooms c.0 refl)
          ∙ shown
          ∙ ap (λ x. some (x, update refs' d (refs' d - 1))) (whole h (short d found))
          ∙ ap (λ x. some (all_peers (env.interfaces d), x)) balanced,
    )

-- A dump in which each message has room for a peer, and with as many messages as the interface has
-- peers, on a table that does not change: if the preparation succeeds, exactly the peers of the
-- table are shown, in order, and the reference to the device is given back at the end. If it fails,
-- the end of the dump dereferences NULL.
pub dump_all-Dumped :
    (env : Dumping) (refs : ℕ → ℕ) (room : ℕ) (rooms : List ℕ)
    → HaveRoom (room ∷ rooms)
    → ((d : ℕ)
        → (dump_prepare env refs).0 ≡ ok d
        → length (all_peers (env.interfaces d)) ≤ length (room ∷ rooms))
    → Dumped env refs (room ∷ rooms)
dump_all-Dumped env refs room rooms h short =
    first_call env refs room rooms (dump_prepare env refs) refl (dump_prepare-Prepared env refs) h
      short
