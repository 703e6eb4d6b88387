-- ===== src/State.antt =====
-- The state of the router: `struct sr_instance` of simple-router-project/router/sr_router.h with
-- the interface list (sr_if.h), the routing table (sr_rt.h) and the ARP cache (sr_arpcache.h).
-- A C string is the list of its bytes before the NUL.
use computer_networking.Base.{ℕ, Bool, Option, List, take, bytes_eq}
use computer_networking.Proto.{iface_namelen}

-- `struct sr_if`, a node of `if_list`.
pub record If : Type 0 where
  pub name : List ℕ
  pub addr : List ℕ
  pub ip : ℕ
  pub speed : ℕ

-- `struct sr_rt`, a node of `routing_table`.
pub record Rt : Type 0 where
  pub dest : ℕ
  pub gw : ℕ
  pub mask : ℕ
  pub interface : List ℕ

-- `struct sr_packet`; its `len` is the length of `buf`.
pub record Packet : Type 0 where
  pub buf : List ℕ
  pub iface : List ℕ

pub record ArpEntry : Type 0 where
  pub mac : List ℕ
  pub ip : ℕ
  pub added : ℕ
  pub valid : Bool

-- `node` is the address of the node: `calloc` takes the cache's `next_node`, which is new.
pub record ArpReq : Type 0 where
  pub node : ℕ
  pub ip : ℕ
  pub sent : ℕ
  pub times_sent : ℕ
  pub packets : List Packet

pub record ArpCache : Type 0 where
  pub entries : List ArpEntry
  pub requests : List ArpReq
  pub next_node : ℕ

-- `wire` is what was written to `sockfd`, oldest first, and `accepts` says whether the socket
-- takes a message whole. `logfile` holds the captured bytes, if a log is open.
pub record Router : Type 0 where
  pub if_list : List If
  pub routing_table : List Rt
  pub cache : ArpCache
  pub logfile : Option (List (List ℕ))
  pub wire : List (List ℕ)
  pub accepts : List ℕ → Bool

-- `strncpy` into an array of `n` characters, and `strncmp(a, b, n) == 0`.
abbrev pub strncpy : ℕ → List ℕ → List ℕ
strncpy = take

unfoldable pub strncmp_eq : ℕ → List ℕ → List ℕ → Bool
strncmp_eq n a b = bytes_eq (take n a) (take n b)

abbrev pub names_eq : List ℕ → List ℕ → Bool
names_eq = strncmp_eq iface_namelen
