-- ===== src/Netlink/DumpCalls.antt =====
-- A dump from the first call to the last: `ovpn_netlink_dump_prepare` in front, and
-- `ovpn_netlink_dump_done`, which the kernel calls when a message is empty or an error, or when the
-- socket is closed.
pub mod Whole
use ovpn_dco.Base.{
  ℕ, ◌-◌, List, [], ◌∷◌, ◌++◌, Bool, Option, none, some, update, Result, ok, err, Status,
}
use ovpn_dco.Peer.{Ovpn}
use ovpn_dco.Netlink.{get_dev_from_attrs}
use ovpn_dco.Netlink.Peers.{dump_peers}

-- `cb->args` of the dump: the interface, 0 at first, and the index
pub record DumpArgs : Type 0 where
  pub ovpn : Option ℕ
  pub last_idx : ℕ

abbrev pub first_args : DumpArgs
first_args = record { ovpn = none; last_idx = 0 }

-- What the request meets: whether the attributes can be allocated and parsed, and the devices.
pub record Dumping : Type 0 where
  pub alloc : Status
  pub parse : Status
  pub devices : ℕ → Option Bool
  pub ifindex : Option ℕ
  pub interfaces : ℕ → Ovpn

unfoldable pub dump_prepare : Dumping → (ℕ → ℕ) → Result ℕ × (ℕ → ℕ)
unfolding get_dev_from_attrs
dump_prepare env refs = elim env.alloc [
  | err e ↦ (err e, refs)
  | ok _ ↦ elim env.parse [
    | err e ↦ (err e, refs)
    | ok _ ↦ get_dev_from_attrs env.devices refs env.ifindex
  ]
]

-- `none` is a dereference of NULL
unfoldable pub dump_done : DumpArgs → (ℕ → ℕ) → Option (ℕ → ℕ)
dump_done cb refs = elim cb.ovpn [ none ↦ none | some d ↦ some (update refs d (refs d - 1)) ]

-- the first call, once it has been prepared
unfoldable pub first_dump :
    Dumping → DumpArgs → ℕ → Result ℕ × (ℕ → ℕ) → Result (List ℕ) × DumpArgs × (ℕ → ℕ)
unfolding dump_peers
first_dump env cb room (err e, refs) = (err e, cb, refs)
first_dump env cb room (ok d, refs) =
    let (dumped, idx) = dump_peers (env.interfaces d) cb.last_idx room in
    (ok dumped, record { ovpn = some d; last_idx = idx }, refs)

-- `ovpn_netlink_dump_peers`, with the preparation in the first call
unfoldable pub dump_call : Dumping → DumpArgs → (ℕ → ℕ) → ℕ → Result (List ℕ) × DumpArgs × (ℕ → ℕ)
unfolding dump_prepare dump_peers first_dump
dump_call env cb refs room = elim cb.ovpn [
  | some d ↦
      let (dumped, idx) = dump_peers (env.interfaces d) cb.last_idx room in
      (ok dumped, record cb { last_idx = idx }, refs)
  | none ↦ first_dump env cb room (dump_prepare env refs)
]

-- a message before those that follow
abbrev pub in_front : List ℕ → Option (List ℕ × (ℕ → ℕ)) → Option (List ℕ × (ℕ → ℕ))
in_front shown none = none
in_front shown (some (out, refs)) = some (shown ++ out, refs)

-- the end: `done` is called, and no more is shown
abbrev pub ended : Option (ℕ → ℕ) → Option (List ℕ × (ℕ → ℕ))
ended none = none
ended (some refs) = some ([], refs)

-- what follows a call: its message in front of the rest, or the end
unfoldable pub after_call :
    Result (List ℕ) → DumpArgs → (ℕ → ℕ) → Option (List ℕ × (ℕ → ℕ)) → Option (List ℕ × (ℕ → ℕ))
unfolding dump_done
after_call (err e) cb refs rest = ended (dump_done cb refs)
after_call (ok []) cb refs rest = ended (dump_done cb refs)
after_call (ok (p ∷ ps)) cb refs rest = in_front (p ∷ ps) rest

-- the calls for messages with so much room, and the end: what was shown, and the devices' references
unfoldable pub dump_all : Dumping → DumpArgs → (ℕ → ℕ) → List ℕ → Option (List ℕ × (ℕ → ℕ))
unfolding dump_call dump_done after_call
dump_all env cb refs [] = ended (dump_done cb refs)
dump_all env cb refs (room ∷ rooms) =
    let (ret, cb', refs') = dump_call env cb refs room in
    after_call ret cb' refs' (dump_all env cb' refs' rooms)
