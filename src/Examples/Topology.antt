-- ===== src/Examples/Topology.antt =====
-- The router of IP_CONFIG: three interfaces and three host routes, and frames that arrive at it.

use computer_networking.Base.{
  ℕ, ◌+◌, ◌*◌, ◌^◌, true, none, some, List, [], ◌∷◌, ◌++◌, replicate, htons, split_at?, bytes_eq,
}
use computer_networking.Checksum.{fold_carry, sum_be, sum_native, cksum, ip_checksum}
use computer_networking.Proto.{
  decode_eth, encode_eth, decode_arp, encode_arp, decode_ip, encode_ip, decode_icmp, encode_icmp,
  encode_icmp_t3, ethertype_arp, ethertype_ip,
}
use computer_networking.State.{If, Rt, Router, strncmp_eq}
use computer_networking.Exec.{pure, fault, gets, modify, lift, if_null, ◌>>=◌}
use computer_networking.Interface.{get_interface, get_interface_by_ip}
use computer_networking.Route.{matches, lpm_loop, lpm_lookup, missing, verify_routing_table}
use computer_networking.ArpCache.{init, lookup, insert, queuereq, destroy, stamp, expire}
use computer_networking.Wire.{packet_message, log_packet, ether_addrs_match_interface, send_packet}
use computer_networking.Router.Arp.{
  arp_request_frame, send_arp_request, arp_reply_frame, send_arp_reply, send_waiting_packet,
  send_waiting, arpcache_insert, arpreq_destroy, handle_arp_packet, handle_arp_op,
  handle_arp_request, handle_arp_answer,
}
use computer_networking.Router.Icmp.{
  refresh_checksum, echo_icmp, send_icmp_echo_reply, t3_body, arpcache_queuereq, arpreq_stamp,
  enqueue, send_icmp_t3,
}
use computer_networking.Router.Forward.{route_packet, forward_on, forward_ip_packet}
use computer_networking.Router.{deliver, dispatch, handle_ip_packet, handlepacket}
use computer_networking.Retry.{
  send_arp_request_for_req, unreachable_body, unreachable_packet, send_icmp_host_unreachable,
  handle_arpreq, sweep_loop, sweepreqs, expire_entries, timeout_round,
}
use computer_networking.System.{Event, receives, ticks, handle, run, boot}

-- An address in network byte order, as the little-endian host loads it.
abbrev pub ipv4 : ℕ → ℕ → ℕ → ℕ → ℕ
ipv4 a b c d = a + 256 * b + 2 ^ 16 * c + 2 ^ 24 * d

abbrev pub mac : ℕ → List ℕ
mac n = 2 ∷ 0 ∷ 0 ∷ 0 ∷ 0 ∷ n ∷ []

-- "eth1", "eth2", "eth3"
abbrev pub eth : ℕ → List ℕ
eth n = 101 ∷ 116 ∷ 104 ∷ (48 + n) ∷ []

abbrev pub interfaces : List If
interfaces =
    record { name = eth 1; addr = mac 1; ip = ipv4 192 168 2 1; speed = 0 }
    ∷ record { name = eth 2; addr = mac 2; ip = ipv4 172 64 3 1; speed = 0 }
    ∷ record { name = eth 3; addr = mac 3; ip = ipv4 10 0 1 1; speed = 0 }
    ∷ []

abbrev pub host_mask : ℕ
host_mask = 0xffff_ffff

abbrev pub client : ℕ
client = ipv4 10 0 1 100

abbrev pub server1 : ℕ
server1 = ipv4 192 168 2 2

abbrev pub server2 : ℕ
server2 = ipv4 172 64 3 10

abbrev pub host_route : ℕ → ℕ → Rt
host_route ip n = record { dest = ip; gw = ip; mask = host_mask; interface = eth n }

abbrev pub routes : List Rt
routes = host_route client 3 ∷ host_route server1 1 ∷ host_route server2 2 ∷ []

abbrev pub ready : Router
ready = boot interfaces routes (λ _. true)

-- Opens what a run computes with.
unfoldable pub machine : ℕ
unfolding fold_carry sum_be sum_native cksum ip_checksum decode_eth encode_eth decode_arp encode_arp
    decode_ip encode_ip decode_icmp encode_icmp encode_icmp_t3 split_at? bytes_eq strncmp_eq pure
    fault gets modify lift if_null ◌>>=◌ get_interface get_interface_by_ip matches lpm_loop
    lpm_lookup missing verify_routing_table init lookup insert queuereq destroy stamp expire
    packet_message log_packet ether_addrs_match_interface send_packet arp_request_frame
    send_arp_request arp_reply_frame send_arp_reply send_waiting_packet send_waiting arpcache_insert
    arpreq_destroy handle_arp_packet handle_arp_op handle_arp_request handle_arp_answer deliver
    dispatch forward_on refresh_checksum echo_icmp send_icmp_echo_reply t3_body arpcache_queuereq
    arpreq_stamp enqueue send_icmp_t3 route_packet forward_ip_packet handle_ip_packet handlepacket
    send_arp_request_for_req unreachable_body unreachable_packet send_icmp_host_unreachable
    handle_arpreq sweep_loop sweepreqs expire_entries timeout_round handle run
machine = 0

-- ARP from a host with address `mac sha` to one with `tha`.
abbrev pub arp_frame : ℕ → List ℕ → List ℕ → ℕ → List ℕ → ℕ → List ℕ
arp_frame op dhost sha sip tha tip =
    encode_eth (record { ether_dhost = dhost; ether_shost = sha; ether_type = htons ethertype_arp })
    ++ encode_arp (record {
      ar_hrd = htons 1;
      ar_pro = htons ethertype_ip;
      ar_hln = 6;
      ar_pln = 4;
      ar_op = htons op;
      ar_sha = sha;
      ar_sip = sip;
      ar_tha = tha;
      ar_tip = tip;
    })

-- "Who has 192.168.2.1?" from server1, which arrives by eth1, and the answer of server1 to the
-- router.
abbrev pub who_has : List ℕ
who_has = arp_frame 1 (replicate 6 255) (mac 11) server1 (replicate 6 0) (ipv4 192 168 2 1)

abbrev pub is_at : List ℕ
is_at = arp_frame 2 (mac 1) (mac 11) server1 (mac 1) (ipv4 192 168 2 1)

-- A ping from the client to the address, with the time to live.
abbrev pub ping : ℕ → ℕ → List ℕ
ping dst ttl =
    encode_eth
      (record { ether_dhost = mac 3; ether_shost = mac 13; ether_type = htons ethertype_ip })
    ++ (encode_ip (record {
      ip_hl = 5;
      ip_v = 4;
      ip_tos = 0;
      ip_len = htons 28;
      ip_id = 7;
      ip_off = 0;
      ip_ttl = ttl;
      ip_p = 1;
      ip_sum = 0;
      ip_src = client;
      ip_dst = dst;
    })
        ++ 8 ∷ 0 ∷ 0 ∷ 0 ∷ 0 ∷ 1 ∷ 0 ∷ 2 ∷ [])

-- A ping is forwarded: the router asks for server1, and sends the ping when it answers.
abbrev pub forwarding : List Event
forwarding =
    receives 100 who_has (eth 1)
    ∷ receives 101 (ping server1 64) (eth 3)
    ∷ receives 102 is_at (eth 1)
    ∷ ticks 103
    ∷ []

abbrev pub state_after : List Event → Router
state_after es = elim (run es ready) [ none ↦ ready | some (_, s) ↦ s ]
