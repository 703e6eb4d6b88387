-- ===== src/Retry.antt =====
-- The request queue as time goes on: `handle_arpreq`, `sr_arpcache_sweepreqs` and one round of
-- `sr_arpcache_timeout` of simple-router-project/router/sr_arpcache.c.
pub mod Keep
pub mod Returns
pub mod Bound
pub mod GivingUp
use computer_networking.Base.{
  ℕ, suc, ◌+◌, ◌-◌, Option, none, some, List, [], ◌∷◌, ◌++◌, leb, if◌then◌else◌, replicate,
  split_at?, htons, u32,
}
use computer_networking.Checksum.{cksum}
use computer_networking.Proto.{
  decode_eth, encode_eth, decode_ip, encode_ip, encode_icmp_t3, ethertype_ip, icmp_data_size,
}
use computer_networking.State.{If, Packet, ArpReq, Router}
use computer_networking.Exec.{M, pure, if_null, gets, modify, lift, ◌>>=◌, ◌>>◌}
use computer_networking.Interface.{get_interface}
use computer_networking.Route.{lpm_lookup}
use computer_networking.ArpCache.{lookup, expire}
use computer_networking.Wire.{send_packet}
use computer_networking.Router.Arp.{arp_request_frame, arpreq_destroy}
use computer_networking.Router.Icmp.{t3_ip, t3_icmp, next_hop, arpreq_stamp}

-- `req->packets`: null, or the packet that was queued last.
abbrev pub first_packet : List Packet → Option Packet
first_packet [] = none
first_packet (pkt ∷ _) = some pkt

-- The request goes out by the interface of that packet.
unfoldable pub send_arp_request_for_req : ArpReq → M (Unit {0})
send_arp_request_for_req req = if_null (first_packet req.packets) (pure tt) λ pkt. do
  found ← gets (λ s. get_interface pkt.iface s.if_list)
  if_null found (pure tt)
      λ iface. do send_packet (arp_request_frame iface req.ip) iface.name; pure tt

-- Header and message of `send_icmp_host_unreachable`, with both checksums stored as `cksum` gives
-- them.
unfoldable pub unreachable_body : ℕ → ℕ → List ℕ → List ℕ
unreachable_body src dst quoted =
    encode_ip (t3_ip src dst (cksum (encode_ip (t3_ip src dst 0))))
    ++ encode_icmp_t3 (t3_icmp 3 1 quoted (cksum (encode_icmp_t3 (t3_icmp 3 1 quoted 0))))

-- The body of the loop, for one waiting packet.
unfoldable pub unreachable_packet : Packet → M (Unit {0})
unreachable_packet pkt = do
  found ← gets (λ s. get_interface pkt.iface s.if_list)
  if_null found (pure tt) λ out_iface. do
    (_, orig) ← lift (decode_eth pkt.buf)
    (orig_ip, _) ← lift (decode_ip orig)
    (quoted, _) ← lift (split_at? icmp_data_size orig)
    let body = unreachable_body out_iface.ip orig_ip.ip_src quoted
    best ← gets (λ s. lpm_lookup orig_ip.ip_src s.routing_table)
    if_null best (pure tt) λ rt. do
      sender ← gets (λ s. get_interface rt.interface s.if_list)
      if_null sender (pure tt) λ send_iface. do
        entry ← gets (λ s. lookup (next_hop rt orig_ip.ip_src) s.cache)
        if_null entry (pure tt) λ e. do
          let eth = encode_eth (record {
            ether_dhost = e.mac;
            ether_shost = send_iface.addr;
            ether_type = htons ethertype_ip;
          })
          send_packet (eth ++ body) send_iface.name
          pure tt

unfoldable pub send_icmp_host_unreachable : List Packet → M (Unit {0})
send_icmp_host_unreachable [] = pure tt
send_icmp_host_unreachable (pkt ∷ pkts) = do unreachable_packet pkt; send_icmp_host_unreachable pkts

unfoldable pub handle_arpreq : ℕ → ArpReq → M (Unit {0})
handle_arpreq now req =
    if leb 1 (now - req.sent)
    then (if leb 5 req.times_sent
        then (do send_icmp_host_unreachable req.packets; arpreq_destroy req)
        else (do send_arp_request_for_req req; arpreq_stamp now (u32 (req.times_sent + 1)) req))
    else pure tt

-- The loop of `sr_arpcache_sweepreqs`. A request is read before its turn: the calls for the others
-- change no field of it.
unfoldable pub sweep_loop : ℕ → List ArpReq → M (Unit {0})
sweep_loop now [] = pure tt
sweep_loop now (req ∷ reqs) = do handle_arpreq now req; sweep_loop now reqs

unfoldable pub sweepreqs : ℕ → M (Unit {0})
sweepreqs now = do reqs ← gets (λ s. s.cache.requests); sweep_loop now reqs

-- One round of the loop of `sr_arpcache_timeout`, after its `sleep`.
unfoldable pub expire_entries : ℕ → M (Unit {0})
expire_entries now = modify (λ s. record s { cache = expire now s.cache })

unfoldable pub timeout_round : ℕ → M (Unit {0})
timeout_round now = do expire_entries now; sweepreqs now
