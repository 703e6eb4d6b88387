-- ===== src/Router.antt =====
-- The packet handlers of simple-router-project/router/sr_router.c. `now` is the value of
-- `time(NULL)` during the call. Printing and freeing are left out.
pub mod Messages
pub mod Arp
pub mod Icmp
pub mod Forward
pub mod Keep
pub mod Parts
pub mod Returns
pub mod Answers
pub mod Learning
pub mod Transit
pub mod Queueing
pub mod Releasing
pub mod Entry
pub mod Echo
pub mod Errors
pub mod Unroutable
use Arp.{handle_arp_packet}
use Icmp.{send_icmp_echo_reply, send_icmp_t3}
use Forward.{forward_ip_packet}
use computer_networking.Base.{
  ℕ, ◌*◌, Option, none, some, List, [], ◌∷◌, ltb, ◌==◌, if◌then◌else◌, length, ntohs,
}
use computer_networking.Proto.{
  IpHdr, decode_eth, decode_ip, load8, ethertype_arp, ethertype_ip, ip_protocol_icmp,
}
use computer_networking.Exec.{M, pure, if_null, gets, lift, ◌>>=◌, ◌>>◌}
use computer_networking.Interface.{get_interface_by_ip}

-- A packet for an address of the router itself. The ICMP type is the first byte behind the header.
unfoldable pub deliver : ℕ → IpHdr → List ℕ → List ℕ → List ℕ → M (Unit {0})
deliver now ip payload packet interface =
    if ip.ip_p == ip_protocol_icmp
    then (do
      (icmp_type, _) ← lift (load8 payload)
      if icmp_type == 8 then send_icmp_echo_reply packet interface else pure tt)
    else send_icmp_t3 now packet 3 3

unfoldable pub handle_ip_packet : ℕ → List ℕ → List ℕ → M (Unit {0})
handle_ip_packet now packet interface = if ltb (length packet) 34 then pure tt else do
  (_, p) ← lift (decode_eth packet)
  (ip, payload) ← lift (decode_ip p)
  iface ← gets (λ s. get_interface_by_ip ip.ip_dst s.if_list)
  if_null iface (forward_ip_packet now packet) λ i. deliver now ip payload packet interface

unfoldable pub dispatch : ℕ → ℕ → List ℕ → List ℕ → M (Unit {0})
dispatch ether_type now packet interface =
    if ether_type == ethertype_arp
    then handle_arp_packet now packet interface
    else (if ether_type == ethertype_ip then handle_ip_packet now packet interface else pure tt)

unfoldable pub handlepacket : ℕ → List ℕ → List ℕ → M (Unit {0})
handlepacket now packet interface = if ltb (length packet) 14 then pure tt else do
  (eth, _) ← lift (decode_eth packet)
  dispatch (ntohs eth.ether_type) now packet interface
