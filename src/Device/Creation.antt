-- ===== src/Device/Creation.antt =====
-- drivers/net/ovpn-dco/main.c and ovpn.c: a new interface, from `ovpn_newlink`, with what it
-- allocates, and the release of that by the kernel's destructor.
use ovpn_dco.Base.{
  ◌&&◌, ℕ, ◌≡◌, arith, is_ok, List, [], ◌∷◌, Bool, false, not, Option, none, some, if◌then◌else◌,
  ok, err, ◌>>◌, Status, enomem,
}
use ovpn_dco.Crypto.{◌>>=◌}
use ovpn_dco.Peer.{Ovpn, mode_p2p}
use ovpn_dco.Peer.Lookup.{Key, lookup_id, scan, scan_p2p}
use ovpn_dco.Netlink.Packets.{netlink_init}
use ovpn_dco.Resource.{Resource, give_back, give_back_all, acquire}

-- What the calls of `ovpn_newlink` and `ovpn_struct_init` return: the two of the security module,
-- the allocations of the work queues and statistics, and the registration. `destructs` is whether a
-- registration that fails gets far enough to call the destructor of the device.
pub record Newlink : Type 0 where
  pub dev_create : Status
  pub crypto_wq : Bool
  pub events_wq : Bool
  pub tstats : Bool
  pub alloc_security : Status
  pub registers : Status
  pub destructs : Bool

-- the `memset` of `ovpn_struct_init`; the MTU belongs to the network device
unfoldable pub zeroed : Ovpn → Ovpn
zeroed o = record o {
  mode = 0;
  by_id = λ _. [];
  by_transp_addr = λ _. [];
  by_vpn_addr = λ _. [];
  peer = none;
  registered_nl_portid = 0;
  registered_nl_portid_set = false;
}

-- the allocations of `ovpn_struct_init`: a failure returns at once
unfoldable pub allocate : Newlink → List Resource → Status × List Resource
allocate env held =
    let queues = Resource.events_wq ∷ Resource.crypto_wq ∷ held in
    if not env.crypto_wq
    then (err enomem, held)
    else (if not env.events_wq
        then (err enomem, Resource.crypto_wq ∷ held)
        else (if not env.tstats then (err enomem, queues) else elim env.alloc_security [
          | err e ↦ (err e, Resource.tstats ∷ queues)
          | ok _ ↦ (ok tt, Resource.security ∷ Resource.tstats ∷ queues)
        ]))

-- `ovpn_struct_init`
unfoldable pub struct_init : Newlink → Ovpn → List Resource → Status × Ovpn × List Resource
unfolding zeroed allocate netlink_init
struct_init env o held =
    let (ret, held') = allocate env held in (ret, netlink_init (zeroed o), held')

-- `ovpn_struct_free`
unfoldable pub struct_free : List Resource → Option (List Resource)
struct_free =
    give_back_all
      (Resource.security ∷ Resource.tstats ∷ Resource.crypto_wq ∷ Resource.events_wq ∷ [])

-- `register_netdevice` at the end of `ovpn_newlink`: its destructor is `ovpn_struct_free`
unfoldable pub register : Newlink → List Resource → Option (List Resource)
unfolding struct_free
register env held = elim env.registers [
  | ok _ ↦ some held
  | err e ↦ if env.destructs then struct_free held else some held
]

-- `ovpn_newlink`: a new interface, in P2P mode unless a mode is given
unfoldable pub newlink :
    Newlink → Ovpn → Option ℕ → List Resource → Option (Status × Ovpn × List Resource)
unfolding struct_init register
newlink env o mode held = elim env.dev_create [
  | err e ↦ some (err e, o, held)
  | ok _ ↦
      let (ret, o', held') = struct_init env o held in
      elim ret [
        | err e ↦ some (err e, o', held')
        | ok _ ↦ (do
          held'' ← register env held'
          some (
            env.registers,
            record o' { mode = elim mode [ none ↦ mode_p2p | some m ↦ m ] },
            held'',
          ))
      ]
]

abbrev pub allocations : Newlink → List (Resource × Status)
allocations env =
    (Resource.crypto_wq, if env.crypto_wq then ok tt else err enomem)
    ∷ (Resource.events_wq, if env.events_wq then ok tt else err enomem)
    ∷ (Resource.tstats, if env.tstats then ok tt else err enomem)
    ∷ (Resource.security, env.alloc_security)
    ∷ []

-- the mode that is asked for
abbrev pub mode_of : Option ℕ → ℕ
mode_of none = mode_p2p
mode_of (some m) = m

-- the interface after the calls: from a successful first call on its state is a new one, and it has
-- its mode when all is allocated
abbrev made : Newlink → Ovpn → Option ℕ → Bool → Ovpn
made env o mode allocated =
    if is_ok env.dev_create
    then (if allocated
        then record (netlink_init (zeroed o)) { mode = mode_of mode }
        else netlink_init (zeroed o))
    else o

-- Whatever is held before: the creation of an interface does not fault, and returns the status of
-- the first call that fails, or 0. A failed allocation unwinds nothing: what was allocated before
-- it stays allocated. A failed registration that calls the destructor leaves what was held before,
-- and one that does not leaves all allocated. If all is allocated, the destructor gives back
-- exactly that. Where the creation succeeds the interface has the mode it was asked for, or P2P.
-- Past the first call, even in a failure, it has no listener, and no peer is found under any id.
pub newlink_lem :
    (jhash : Key → ℕ) (env : Newlink) (o : Ovpn) (mode : Option ℕ) (held : List Resource) (id : ℕ)
    → let (allocated, got) = acquire (allocations env) held in
      let ret = env.dev_create >> (allocated >> env.registers) in
      let destroyed = is_ok allocated && (not (is_ok env.registers) && env.destructs) in
      (o' : Ovpn) × (newlink env o mode held
        ≡ some (ret, o', if is_ok env.dev_create && not destroyed then got else held))
      × ((if is_ok allocated then struct_free got else some held) ≡ some held)
      × ((if is_ok ret then o'.mode else mode_of mode) ≡ mode_of mode)
      × (o'.registered_nl_portid_set
          ≡ (if is_ok env.dev_create then false else o.registered_nl_portid_set))
      × ((lookup_id jhash o' id).0
          ≡ (if is_ok env.dev_create then none else (lookup_id jhash o id).0))
unfolding newlink register struct_init struct_free zeroed allocate netlink_init give_back
    give_back_all acquire lookup_id scan scan_p2p
newlink_lem jhash env o mode held id = (
  made env o mode (is_ok (acquire (allocations env) held).0),
  ground arith,
  ground arith,
  ground arith,
  ground arith,
  ground arith,
)
