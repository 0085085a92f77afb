-- ===== src/Device/Module.antt =====
-- drivers/net/ovpn-dco/main.c and netlink.c: loading and unloading of the module, which registers
-- its kind of link, its family of netlink commands and its notifier of closed netlink sockets.
use ovpn_dco.Base.{arith, List, [], ◌∷◌, Option, some, ok, err, Status}
use ovpn_dco.Crypto.{◌>>=◌}
use ovpn_dco.Resource.{Resource, give_back, give_back_all, acquire, IsUndone}

-- what the three registrations return
pub record Registers : Type 0 where
  pub rtnl_link : Status
  pub genl_family : Status
  pub notifier : Status

-- `ovpn_netlink_register`
unfoldable pub netlink_register : Registers → List Resource → Option (Status × List Resource)
netlink_register env held = elim env.genl_family [
  | err e ↦ some (err e, held)
  | ok _ ↦ elim env.notifier [
    | err e ↦ (do
      held' ← give_back Resource.genl_family (Resource.genl_family ∷ held)
      some (err e, held'))
    | ok _ ↦ some (ok tt, Resource.notifier ∷ Resource.genl_family ∷ held)
  ]
]

-- `ovpn_netlink_unregister`
unfoldable pub netlink_unregister : List Resource → Option (List Resource)
netlink_unregister = give_back_all (Resource.notifier ∷ Resource.genl_family ∷ [])

-- `ovpn_init`, the entry of the module
unfoldable pub module_init : Registers → List Resource → Option (Status × List Resource)
unfolding netlink_register
module_init env held = elim env.rtnl_link [
  | err e ↦ some (err e, held)
  | ok _ ↦ (do
    (ret, held') ← netlink_register env (Resource.rtnl_link ∷ held)
    elim ret [
      | err e ↦ (do held'' ← give_back Resource.rtnl_link held'; some (err e, held''))
      | ok _ ↦ some (ok tt, held')
    ])
]

-- `ovpn_cleanup`, the exit of the module
unfoldable pub module_cleanup : List Resource → Option (List Resource)
unfolding netlink_unregister
module_cleanup held = do held' ← give_back Resource.rtnl_link held; netlink_unregister held'

abbrev pub registrations : Registers → List (Resource × Status)
registrations env =
    (Resource.rtnl_link, env.rtnl_link)
    ∷ (Resource.genl_family, env.genl_family)
    ∷ (Resource.notifier, env.notifier)
    ∷ []

-- Whatever is registered before: loading returns the status of the first registration that fails, or
-- 0. If one fails, those before it are taken back, without a fault, and the registrations are as
-- before. If none fails, all three stand, and unloading takes back exactly these, without a fault.
pub module_init-cleanup :
    (env : Registers) (held : List Resource)
    → IsUndone (module_init env) module_cleanup (registrations env) held
unfolding module_init module_cleanup netlink_register netlink_unregister give_back give_back_all
    acquire IsUndone
module_init-cleanup env held = ground arith
