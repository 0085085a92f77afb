-- ===== src/Resource.antt =====
-- What the driver acquires from the kernel and gives back: the registrations of the module (main.c,
-- netlink.c), the allocations of an interface (ovpn.c) and those of a peer (peer.c). The state is
-- the list of what is held, the latest first, and to give back what is not held is a fault, `none`.
use ovpn_dco.Base.{
  Bool, true, false, ℕ, List, [], ◌∷◌, ◌≡◌, is_ok, Option, none, some, ◌==◌, if◌then◌else◌, ok, err,
  Status,
}

pub data Resource : Type 0 where
  rtnl_link genl_family notifier : Resource
  crypto_wq events_wq tstats security : Resource
  memory dst_cache tx_ring rx_ring netif_rx_ring napi napi_enabled dev_reference : Resource

abbrev number : Resource → ℕ
number Resource.rtnl_link = 0
number Resource.genl_family = 1
number Resource.notifier = 2
number Resource.crypto_wq = 3
number Resource.events_wq = 4
number Resource.tstats = 5
number Resource.security = 6
number Resource.memory = 7
number Resource.dst_cache = 8
number Resource.tx_ring = 9
number Resource.rx_ring = 10
number Resource.netif_rx_ring = 11
number Resource.napi = 12
number Resource.napi_enabled = 13
number Resource.dev_reference = 14

-- what cannot be used anymore when another is gone: all of a peer lies in its memory, and NAPI that
-- is deleted must be disabled
abbrev needs : Resource → Resource → Bool
needs Resource.dst_cache Resource.memory = true
needs Resource.tx_ring Resource.memory = true
needs Resource.rx_ring Resource.memory = true
needs Resource.netif_rx_ring Resource.memory = true
needs Resource.napi Resource.memory = true
needs Resource.napi_enabled Resource.memory = true
needs Resource.dev_reference Resource.memory = true
needs Resource.napi_enabled Resource.napi = true
needs _ _ = false

-- The latest of its kind is given back. It is a fault if something that was acquired after it, and
-- needs it, is still held.
unfoldable pub give_back : Resource → List Resource → Option (List Resource)
give_back r [] = none
give_back r (q ∷ held) =
    let rest = give_back r held in
    if number r == number q
    then some held
    else if needs q r
    then none
    else elim rest [ none ↦ none | some left ↦ some (q ∷ left) ]

-- several, in the order of the list
unfoldable pub give_back_all : List Resource → List Resource → Option (List Resource)
give_back_all [] held = some held
give_back_all (r ∷ rs) held = elim (give_back r held) [
  | none ↦ none
  | some left ↦ give_back_all rs left
]

-- What a sequence of acquisitions comes to that stops at the first one that fails: its status, and
-- what was acquired before it, the latest first.
unfoldable pub acquire : List (Resource × Status) → List Resource → Status × List Resource
acquire [] got = (ok tt, got)
acquire ((r, ret) ∷ calls) got = elim ret [ err e ↦ (err e, got) | ok _ ↦ acquire calls (r ∷ got) ]

-- A construction that unwinds, and its way back: the status is that of the first call that fails,
-- what is held is then as before and otherwise all, and the way back from there ends where it began.
unfoldable pub IsUndone :
    (List Resource → Option (Status × List Resource))
    → (List Resource → Option (List Resource))
    → List (Resource × Status)
    → List Resource
    → Type 0
IsUndone build undo calls held =
    let (ret, got) = acquire calls held in
    (build held ≡ some (ret, if is_ok ret then got else held))
    × ((if is_ok ret then undo got else some held) ≡ some held)
