-- ===== src/Router/Parts.antt =====
-- How the handlers of simple-router-project/router/sr_router.c are put together from the actions
-- that read or change the shared state.
use computer_networking.Base.{ℕ, Bool, Option, List, [], ◌∷◌, if◌then◌else◌}
use computer_networking.State.{Router, Packet, ArpReq, If}
use computer_networking.Exec.{M, pure, fault, gets, lift, if_null, ◌>>=◌}
use computer_networking.Wire.{send_packet}
use computer_networking.Router.Arp.{
  send_arp_reply, send_waiting_packet, send_waiting, arpcache_insert, arpreq_destroy,
  handle_arp_packet, handle_arp_op, handle_arp_request, handle_arp_answer,
}
use computer_networking.Router.Icmp.{send_icmp_echo_reply, enqueue, send_icmp_t3}
use computer_networking.Router.Forward.{route_packet, forward_on, forward_ip_packet}
use computer_networking.Router.{deliver, handle_ip_packet, dispatch, handlepacket}

-- The text of an action.
pub data Parts : (A : Type 0) → M A → Type 1 where
  returns : {A : Type 0} (value : A) → Parts A (pure value)
  faults : {A : Type 0} → Parts A fault
  lifts : {A : Type 0} (o : Option A) → Parts A (lift o)
  reads : {A : Type 0} (read : Router → A) → Parts A (gets read)
  tests :
      {A : Type 0} {taken other : M A} (test : Bool)
      → Parts A taken
      → Parts A other
      → Parts A (if test then taken else other)
  nulls :
      {A B : Type 0} {m : M B} {f : A → M B} (o : Option A)
      → Parts B m
      → ((a : A) → Parts B (f a))
      → Parts B (if_null o m f)
  binds :
      {A B : Type 0} {first : M A} {rest : A → M B}
      → Parts A first
      → ((a : A) → Parts B (rest a))
      → Parts B (first >>= rest)
  sends : (buf iface : List ℕ) → Parts Bool (send_packet buf iface)
  inserts : (now : ℕ) (mac : List ℕ) (ip : ℕ) → Parts (Option ArpReq) (arpcache_insert now mac ip)
  destroys : (req : ArpReq) → Parts Unit (arpreq_destroy req)
  asks :
      (now hop : ℕ) (frame : List ℕ) (out_iface : If) → Parts Unit (enqueue now hop frame out_iface)

ruleset parts_rules = (
  Parts.returns, Parts.faults, Parts.lifts, Parts.reads, Parts.tests, Parts.nulls, Parts.binds,
  Parts.sends, Parts.inserts, Parts.destroys, Parts.asks,
)

unfoldable send_waiting_packet_parts :
    (sha : List ℕ) (pkt : Packet) → Parts Unit (send_waiting_packet sha pkt)
unfolding send_waiting_packet
send_waiting_packet_parts sha pkt = search (parts_rules) depth 24

unfoldable send_waiting_parts :
    (sha : List ℕ) (pkts : List Packet) → Parts Unit (send_waiting sha pkts)
unfolding send_waiting send_waiting_packet_parts
send_waiting_parts sha [] = Parts.returns tt
send_waiting_parts sha (pkt ∷ pkts) =
    Parts.binds (send_waiting_packet_parts sha pkt) (λ _. send_waiting_parts sha pkts)

unfoldable send_arp_reply_parts :
    (packet interface : List ℕ) → Parts Unit (send_arp_reply packet interface)
unfolding send_arp_reply
send_arp_reply_parts packet interface = search (parts_rules) depth 24

unfoldable handle_arp_packet_parts :
    (now : ℕ) (packet interface : List ℕ) → Parts Unit (handle_arp_packet now packet interface)
unfolding handle_arp_packet handle_arp_op handle_arp_request handle_arp_answer send_arp_reply_parts
    send_waiting_parts
handle_arp_packet_parts now packet interface =
    search (parts_rules, send_arp_reply_parts, send_waiting_parts) depth 24

unfoldable send_icmp_t3_parts :
    (now : ℕ) (packet : List ℕ) (type' code : ℕ) → Parts Unit (send_icmp_t3 now packet type' code)
unfolding send_icmp_t3
send_icmp_t3_parts now packet type' code = search (parts_rules) depth 30

unfoldable echo_parts :
    (packet interface : List ℕ) → Parts Unit (send_icmp_echo_reply packet interface)
unfolding send_icmp_echo_reply
echo_parts packet interface = search (parts_rules) depth 30

unfoldable forward_ip_packet_parts :
    (now : ℕ) (packet : List ℕ) → Parts Unit (forward_ip_packet now packet)
unfolding forward_ip_packet forward_on route_packet send_icmp_t3_parts
forward_ip_packet_parts now packet = search (parts_rules, send_icmp_t3_parts) depth 30

unfoldable handle_ip_packet_parts :
    (now : ℕ) (packet interface : List ℕ) → Parts Unit (handle_ip_packet now packet interface)
unfolding handle_ip_packet deliver forward_ip_packet_parts send_icmp_t3_parts echo_parts
handle_ip_packet_parts now packet interface =
    search (parts_rules, forward_ip_packet_parts, send_icmp_t3_parts, echo_parts) depth 24

-- `sr_handlepacket` is put together from these parts.
unfoldable pub handlepacket_parts :
    (now : ℕ) (packet interface : List ℕ) → Parts Unit (handlepacket now packet interface)
unfolding handlepacket dispatch handle_arp_packet_parts handle_ip_packet_parts
handlepacket_parts now packet interface =
    search (parts_rules, handle_arp_packet_parts, handle_ip_packet_parts) depth 24
