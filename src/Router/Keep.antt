-- ===== src/Router/Keep.antt =====
-- What the primitives keep, every packet handler keeps.
use computer_networking.Base.{ℕ, ◌≤◌, true, false, none, some, List, [], ◌∷◌, arith}
use computer_networking.State.{Router, Packet, ArpReq, If}
use computer_networking.Exec.{M, if_null}
use computer_networking.Exec.Keeps.{
  Keeps, Keeps-pure, Keeps-fault, Keeps-lift, Keeps-gets, Keeps-bind, keeps_rules,
}
use computer_networking.Wire.{send_packet}
use computer_networking.Router.Arp.{
  send_arp_request, send_waiting_packet, send_waiting, arpcache_insert, arpreq_destroy,
}
use computer_networking.Router.Icmp.{arpcache_queuereq, arpreq_stamp, enqueue}
use computer_networking.Router.Parts.{
  Parts, returns, faults, lifts, reads, tests, nulls, binds, sends, inserts, destroys, asks,
  handlepacket_parts,
}
use computer_networking.Router.{handlepacket}
use computer_networking.Retry.{expire_entries}

-- The six actions that change the state, each with a proof that it keeps `P`.
pub record IsKept {ℓ} (P : Router → Type ℓ) : Type ℓ where
  pub sends : (buf iface : List ℕ) → Keeps P (send_packet buf iface)
  pub inserts : (now : ℕ) (mac : List ℕ) (ip : ℕ) → Keeps P (arpcache_insert now mac ip)
  pub destroys : (req : ArpReq) → Keeps P (arpreq_destroy req)
  pub queues : (ip : ℕ) (packet iface : List ℕ) → Keeps P (arpcache_queuereq ip packet iface)
  pub stamps : (now times : ℕ) (req : ArpReq) → times ≤ 5 → Keeps P (arpreq_stamp now times req)
  pub expires : (now : ℕ) → Keeps P (expire_entries now)

-- What sends do not change, the release of what waited does not change, and asking does not.
module _ {ℓ} {P : Router → Type ℓ}
    (sends : (buf iface : List ℕ) → Keeps P (send_packet buf iface)) where
  send_waiting_packet-Keeps : (sha : List ℕ) (pkt : Packet) → Keeps P (send_waiting_packet sha pkt)
  unfolding send_waiting_packet
  send_waiting_packet-Keeps sha pkt = search (keeps_rules, sends) depth 24

  pub send_waiting-Keeps : (sha : List ℕ) (pkts : List Packet) → Keeps P (send_waiting sha pkts)
  unfolding send_waiting
  send_waiting-Keeps sha [] = Keeps-pure tt
  send_waiting-Keeps sha (pkt ∷ pkts) =
      Keeps-bind _ _ (send_waiting_packet-Keeps sha pkt) (λ _. send_waiting-Keeps sha pkts)

  pub send_arp_request-Keeps :
      (tip : ℕ) (interface : List ℕ) → Keeps P (send_arp_request tip interface)
  unfolding send_arp_request
  send_arp_request-Keeps tip interface = search (keeps_rules, sends) depth 24

module _ {ℓ} {P : Router → Type ℓ} (k : IsKept P) where
  enqueue-Keeps :
      (now hop : ℕ) (frame : List ℕ) (out_iface : If) → Keeps P (enqueue now hop frame out_iface)
  unfolding enqueue
  enqueue-Keeps now hop frame out_iface =
      search (keeps_rules, k.queues, k.stamps now 1 _ (omega arith), send_arp_request-Keeps k.sends)
        depth 24

  -- What is put together from the primitives keeps what they keep.
  pub Parts-Keeps : {A : Type 0} {m : M A} → Parts A m → Keeps P m
  unfolding if_null
  Parts-Keeps (returns value) = Keeps-pure value
  Parts-Keeps faults = Keeps-fault
  Parts-Keeps (lifts o) = Keeps-lift o
  Parts-Keeps (reads read) = Keeps-gets read
  Parts-Keeps (tests true yes' no') = Parts-Keeps yes'
  Parts-Keeps (tests false yes' no') = Parts-Keeps no'
  Parts-Keeps (nulls none null found) = Parts-Keeps null
  Parts-Keeps (nulls (some a) null found) = Parts-Keeps (found a)
  Parts-Keeps (binds first rest) = Keeps-bind _ _ (Parts-Keeps first) (λ a. Parts-Keeps (rest a))
  Parts-Keeps (sends buf iface) = k.sends buf iface
  Parts-Keeps (inserts now mac ip) = k.inserts now mac ip
  Parts-Keeps (destroys req) = k.destroys req
  Parts-Keeps (asks now hop frame out_iface) = enqueue-Keeps now hop frame out_iface

  -- Whatever the frame, `sr_handlepacket` keeps what the primitives keep.
  pub handlepacket-Keeps :
      (now : ℕ) (packet interface : List ℕ) → Keeps P (handlepacket now packet interface)
  handlepacket-Keeps now packet interface = Parts-Keeps (handlepacket_parts now packet interface)
