-- ===== src/Interface.antt =====
-- The interface list: simple-router-project/router/sr_if.c, and `sr_get_interface_by_ip` of
-- simple-router-project/router/sr_router.c.
pub mod Laws
use computer_networking.Base.{ℕ, Bool, Option, none, some, List, [], ◌∷◌, ◌==◌, if◌then◌else◌}
use computer_networking.Proto.{iface_namelen}
use computer_networking.State.{If, strncpy, names_eq}

-- The first interface of that name.
unfoldable pub get_interface : List ℕ → List If → Option If
get_interface name [] = none
get_interface name (i ∷ is) = if names_eq i.name name then some i else get_interface name is

unfoldable pub get_interface_by_ip : ℕ → List If → Option If
get_interface_by_ip ip [] = none
get_interface_by_ip ip (i ∷ is) = if i.ip == ip then some i else get_interface_by_ip ip is

-- A new node goes to the end. `raw` is what `malloc` returned: only the name is written.
unfoldable pub add_interface : If → List ℕ → List If → List If
add_interface raw name [] = record raw { name = strncpy iface_namelen name } ∷ []
add_interface raw name (i ∷ is) = i ∷ add_interface raw name is

-- Both setters write to the last interface; on an empty list their `assert` fails.
unfoldable pub set_ether_addr : List ℕ → List If → Option (List If)
set_ether_addr addr [] = none
set_ether_addr addr (i ∷ []) = some (record i { addr = addr } ∷ [])
set_ether_addr addr (i ∷ j ∷ is) = elim (set_ether_addr addr (j ∷ is)) [
  | none ↦ none
  | some js ↦ some (i ∷ js)
]

unfoldable pub set_ether_ip : ℕ → List If → Option (List If)
set_ether_ip ip [] = none
set_ether_ip ip (i ∷ []) = some (record i { ip = ip } ∷ [])
set_ether_ip ip (i ∷ j ∷ is) = elim (set_ether_ip ip (j ∷ is)) [
  | none ↦ none
  | some js ↦ some (i ∷ js)
]
