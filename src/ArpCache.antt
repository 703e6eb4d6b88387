-- ===== src/ArpCache.antt =====
-- The ARP cache of simple-router-project/router/sr_arpcache.c: the table of mappings and the queue
-- of requests. Each of these functions holds the mutex from its start to its end, so that it is one
-- step of the state.
pub mod Entries
pub mod Requests
pub mod Waiting
use computer_networking.Base.{
  ℕ, suc, ◌+◌, ◌-◌, Bool, true, false, ◌&&◌, Option, none, some, List, [], ◌∷◌, map, ltb, ◌==◌,
  if◌then◌else◌, length, replicate,
}
use computer_networking.State.{ArpEntry, ArpReq, ArpCache, Packet, strncpy}
use computer_networking.Proto.{iface_namelen}

abbrev pub arpcache_sz : ℕ
arpcache_sz = 100

abbrev pub arpcache_to : ℕ
arpcache_to = 15

abbrev pub zero_entry : ArpEntry
zero_entry = record { mac = 0 ∷ 0 ∷ 0 ∷ 0 ∷ 0 ∷ 0 ∷ []; ip = 0; added = 0; valid = false }

-- `sr_arpcache_init`: the table is zeroed and the queue is empty.
unfoldable pub init : ArpCache
init = record { entries = replicate arpcache_sz zero_entry; requests = []; next_node = 0 }

-- The loop of `sr_arpcache_lookup`: a later match replaces an earlier one.
unfoldable pub lookup_loop : ℕ → Option ArpEntry → List ArpEntry → Option ArpEntry
lookup_loop ip found [] = found
lookup_loop ip found (e ∷ es) = lookup_loop ip (if e.valid && e.ip == ip then some e else found) es

unfoldable pub lookup : ℕ → ArpCache → Option ArpEntry
unfolding lookup_loop
lookup ip c = lookup_loop ip none c.entries

-- The entry goes into the first slot that is not valid, if there is one.
unfoldable pub fill_slot : ArpEntry → List ArpEntry → List ArpEntry
fill_slot new [] = []
fill_slot new (e ∷ es) = if e.valid then e ∷ fill_slot new es else new ∷ es

-- Unlinks the first request for the address, and returns it.
unfoldable pub unlink_ip : ℕ → List ArpReq → Option ArpReq × List ArpReq
unlink_ip ip [] = (none, [])
unlink_ip ip (r ∷ rs) =
    let (found, rest) = unlink_ip ip rs in if r.ip == ip then (some r, rs) else (found, r ∷ rest)

-- `sr_arpcache_insert`.
unfoldable pub insert : ℕ → List ℕ → ℕ → ArpCache → Option ArpReq × ArpCache
unfolding fill_slot unlink_ip
insert now mac ip c =
    let (found, rest) = unlink_ip ip c.requests in
    let new : ArpEntry = record { mac = mac; ip = ip; added = now; valid = true } in
    (found, record c { entries = fill_slot new c.entries; requests = rest })

-- The first loop of `sr_arpcache_queuereq`: the first request for the address.
unfoldable pub find_ip : ℕ → List ArpReq → Option ArpReq
find_ip ip [] = none
find_ip ip (r ∷ rs) = if r.ip == ip then some r else find_ip ip rs

-- A write through a pointer to the node at that address.
unfoldable pub on_node : ℕ → (ArpReq → ArpReq) → List ArpReq → List ArpReq
on_node node f [] = []
on_node node f (r ∷ rs) = if r.node == node then f r ∷ rs else r ∷ on_node node f rs

abbrev pub add_packet : List ℕ → List ℕ → ArpReq → ArpReq
add_packet packet iface req = if length packet == 0 then req else record req {
  packets = record { buf = packet; iface = strncpy iface_namelen iface } ∷ req.packets;
}

abbrev pub new_req : ℕ → ℕ → ArpReq
new_req node ip = record { node = node; ip = ip; sent = 0; times_sent = 0; packets = [] }

-- `sr_arpcache_queuereq`, with the request that it returns a pointer to. The packet is copied.
unfoldable pub queuereq : ℕ → List ℕ → List ℕ → ArpCache → ArpReq × ArpCache
unfolding find_ip on_node
queuereq ip packet iface c = elim (find_ip ip c.requests) [
  | none ↦
      let req = add_packet packet iface (new_req c.next_node ip) in
      (req, record c { requests = req ∷ c.requests; next_node = suc c.next_node })
  | some r ↦
      let push = add_packet packet iface in
      (push r, record c { requests = on_node r.node push c.requests })
]

-- `sr_arpreq_destroy`: unlinks the node, if it is on the queue.
unfoldable pub unlink_node : ℕ → List ArpReq → List ArpReq
unlink_node node [] = []
unlink_node node (r ∷ rs) = if r.node == node then rs else r ∷ unlink_node node rs

unfoldable pub destroy : ArpReq → ArpCache → ArpCache
unfolding unlink_node
destroy req c = record c { requests = unlink_node req.node c.requests }

abbrev pub stamped : ℕ → ℕ → ArpReq → ArpReq
stamped now times req = record req { sent = now; times_sent = times }

-- `req->sent = now; req->times_sent = times;`
unfoldable pub stamp : ℕ → ℕ → ArpReq → ArpCache → ArpCache
unfolding on_node
stamp now times req c = record c { requests = on_node req.node (stamped now times) c.requests }

-- The loop of `sr_arpcache_timeout` over the table.
unfoldable pub expire_entry : ℕ → ArpEntry → ArpEntry
expire_entry curtime e =
    if e.valid && ltb arpcache_to (curtime - e.added) then record e { valid = false } else e

unfoldable pub expire : ℕ → ArpCache → ArpCache
unfolding expire_entry
expire curtime c = record c { entries = map (expire_entry curtime) c.entries }
