-- ===== src/ArpCache/Waiting.antt =====
-- A property of all packets that wait is kept by every operation on the queue.
use computer_networking.Base.{
  ℕ, inl, inr, Option, none, some, List, [], ◌∷◌, All, length, ◌==◌, Bool-cases, Option-cases,
}
use computer_networking.State.{ArpReq, ArpCache, Packet, strncpy}
use computer_networking.Proto.{iface_namelen}
use computer_networking.ArpCache.{
  unlink_ip, insert, find_ip, on_node, add_packet, new_req, queuereq, unlink_node, destroy, stamp,
  stamped,
}

module _ (Ok : Packet → Type 0) where
  abbrev pub Waiting : List ArpReq → Type 0
  Waiting = All λ r. All Ok r.packets

  abbrev pub Released : Option ArpReq → Type 0
  Released none = Unit {0}
  Released (some r) = All Ok r.packets

  unlink_ip-Waiting :
      (ip : ℕ) (rs : List ArpReq)
      → Waiting rs
      → Released (unlink_ip ip rs).0 × Waiting (unlink_ip ip rs).1
  unfolding unlink_ip
  unlink_ip-Waiting ip [] w = (tt, tt)
  unlink_ip-Waiting ip (r ∷ rs) w = elim (Bool-cases (r.ip == ip)) [
    | inl e ↦ rw e w
    | inr e ↦ let (f, u) = unlink_ip-Waiting ip rs w.1 in rw e (f, (w.0, u))
  ]

  unlink_node-Waiting : (node : ℕ) (rs : List ArpReq) → Waiting rs → Waiting (unlink_node node rs)
  unfolding unlink_node
  unlink_node-Waiting node [] w = tt
  unlink_node-Waiting node (r ∷ rs) w = elim (Bool-cases (r.node == node)) [
    | inl e ↦ rw (e, unlink_node) w.1
    | inr e ↦ rw (e, unlink_node) (w.0, unlink_node-Waiting node rs w.1)
  ]

  on_node-Waiting :
      (node : ℕ) (f : ArpReq → ArpReq) (rs : List ArpReq)
      → ((r : ArpReq) → All Ok r.packets → All Ok (f r).packets)
      → Waiting rs
      → Waiting (on_node node f rs)
  unfolding on_node
  on_node-Waiting node f [] k w = tt
  on_node-Waiting node f (r ∷ rs) k w = elim (Bool-cases (r.node == node)) [
    | inl e ↦ rw (e, on_node) (k r w.0, w.1)
    | inr e ↦ rw (e, on_node) (w.0, on_node-Waiting node f rs k w.1)
  ]

  pub insert-Waiting :
      (now : ℕ) (mac : List ℕ) (ip : ℕ) (c : ArpCache)
      → Waiting c.requests
      → Released (insert now mac ip c).0 × Waiting (insert now mac ip c).1.requests
  unfolding insert
  insert-Waiting now mac ip c w = unlink_ip-Waiting ip c.requests w

  pub destroy-Waiting :
      (req : ArpReq) (c : ArpCache) → Waiting c.requests → Waiting (destroy req c).requests
  unfolding destroy
  destroy-Waiting req c w = unlink_node-Waiting req.node c.requests w

  pub stamp-Waiting :
      (now times : ℕ) (req : ArpReq) (c : ArpCache)
      → Waiting c.requests
      → Waiting (stamp now times req c).requests
  unfolding stamp
  stamp-Waiting now times req c w =
      on_node-Waiting req.node (stamped now times) c.requests (λ r h. h) w

  module _ (packet iface : List ℕ)
      (ok : Ok (record { buf = packet; iface = strncpy iface_namelen iface })) where
    add_packet-Ok : (r : ArpReq) → All Ok r.packets → All Ok (add_packet packet iface r).packets
    add_packet-Ok r h = elim (Bool-cases (length packet == 0)) [
      | inl e ↦ rw e h
      | inr e ↦ rw e (ok, h)
    ]

    pub queuereq-Waiting :
        (ip : ℕ) (c : ArpCache)
        → Waiting c.requests
        → Waiting (queuereq ip packet iface c).1.requests
    unfolding queuereq
    queuereq-Waiting ip c w = elim (Option-cases (find_ip ip c.requests)) [
      | inl e ↦ rw (e, queuereq) (add_packet-Ok (new_req c.next_node ip) tt, w)
      | inr (r, e) ↦
          rw (e, queuereq)
            (on_node-Waiting r.node (add_packet packet iface) c.requests add_packet-Ok w)
    ]
