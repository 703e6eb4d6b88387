-- ===== src/Router/Arp.antt =====
-- ARP: `handle_arp_packet`, `send_arp_request` and `send_arp_reply` of
-- simple-router-project/router/sr_router.c.
use computer_networking.Base.{
  ℕ, Option, some, List, [], ◌∷◌, ◌++◌, ltb, ◌==◌, if◌then◌else◌, length, replicate, htons, ntohs,
}
use computer_networking.Proto.{
  EthernetHdr, ArpHdr, decode_eth, encode_eth, decode_arp, encode_arp, ethertype_arp, ethertype_ip,
  arp_op_request, arp_op_reply, arp_hrd_ethernet,
}
use computer_networking.State.{If, Packet, ArpReq}
use computer_networking.Exec.{M, pure, if_null, fault, gets, modify, lift, ◌>>=◌, ◌>>◌}
use computer_networking.Interface.{get_interface, get_interface_by_ip}
use computer_networking.ArpCache.{insert, destroy}
use computer_networking.Wire.{send_packet}

-- The frame that asks who has the address; also built by `send_arp_request_for_req`.
unfoldable pub arp_request_frame : If → ℕ → List ℕ
arp_request_frame iface tip =
    encode_eth (record {
      ether_dhost = replicate 6 0xff;
      ether_shost = iface.addr;
      ether_type = htons ethertype_arp;
    })
    ++ encode_arp (record {
      ar_hrd = htons arp_hrd_ethernet;
      ar_pro = htons ethertype_ip;
      ar_hln = 6;
      ar_pln = 4;
      ar_op = htons arp_op_request;
      ar_sha = iface.addr;
      ar_sip = iface.ip;
      ar_tha = replicate 6 0;
      ar_tip = tip;
    })

unfoldable pub send_arp_request : ℕ → List ℕ → M (Unit {0})
send_arp_request tip interface = do
  found ← gets (λ s. get_interface interface s.if_list)
  if_null found (pure tt) λ iface. do send_packet (arp_request_frame iface tip) interface; pure tt

unfoldable pub arp_reply_frame : If → EthernetHdr → ArpHdr → List ℕ
arp_reply_frame iface req_eth req_arp =
    encode_eth (record {
      ether_dhost = req_eth.ether_shost;
      ether_shost = iface.addr;
      ether_type = htons ethertype_arp;
    })
    ++ encode_arp (record {
      ar_hrd = htons arp_hrd_ethernet;
      ar_pro = htons ethertype_ip;
      ar_hln = 6;
      ar_pln = 4;
      ar_op = htons arp_op_reply;
      ar_sha = iface.addr;
      ar_sip = iface.ip;
      ar_tha = req_arp.ar_sha;
      ar_tip = req_arp.ar_sip;
    })

unfoldable pub send_arp_reply : List ℕ → List ℕ → M (Unit {0})
send_arp_reply packet interface = do
  (req_eth, p) ← lift (decode_eth packet)
  (req_arp, _) ← lift (decode_arp p)
  found ← gets (λ s. get_interface_by_ip req_arp.ar_tip s.if_list)
  if_null found (pure tt)
      λ iface. do send_packet (arp_reply_frame iface req_eth req_arp) interface; pure tt

-- The body of the loop that sends what waited for the address. An unknown interface is a null
-- pointer that is read.
unfoldable pub send_waiting_packet : List ℕ → Packet → M (Unit {0})
send_waiting_packet sha pkt = do
  found ← gets (λ s. get_interface pkt.iface s.if_list)
  if_null found fault λ out_iface. do
    (_, payload) ← lift (decode_eth pkt.buf)
    let eth = encode_eth (record {
      ether_dhost = sha;
      ether_shost = out_iface.addr;
      ether_type = htons ethertype_ip;
    })
    send_packet (eth ++ payload) pkt.iface
    pure tt

unfoldable pub send_waiting : List ℕ → List Packet → M (Unit {0})
send_waiting sha [] = pure tt
send_waiting sha (pkt ∷ pkts) = do send_waiting_packet sha pkt; send_waiting sha pkts

-- `sr_arpcache_insert` on the router's cache.
unfoldable pub arpcache_insert : ℕ → List ℕ → ℕ → M (Option ArpReq)
unfolding pure
arpcache_insert now mac ip s =
    let (req, cache) = insert now mac ip s.cache in some (req, record s { cache = cache })

unfoldable pub arpreq_destroy : ArpReq → M (Unit {0})
arpreq_destroy req = modify (λ s. record s { cache = destroy req s.cache })

-- The two branches of `handle_arp_packet`.
unfoldable pub handle_arp_request : ArpHdr → List ℕ → List ℕ → M (Unit {0})
handle_arp_request arp_hdr packet interface = do
  iface ← gets (λ s. get_interface_by_ip arp_hdr.ar_tip s.if_list)
  if_null iface (pure tt) λ i. send_arp_reply packet interface

unfoldable pub handle_arp_answer : ℕ → ArpHdr → M (Unit {0})
handle_arp_answer now arp_hdr = do
  req ← arpcache_insert now arp_hdr.ar_sha arp_hdr.ar_sip
  if_null req (pure tt) λ r. do send_waiting arp_hdr.ar_sha r.packets; arpreq_destroy r

unfoldable pub handle_arp_op : ℕ → ArpHdr → List ℕ → List ℕ → M (Unit {0})
handle_arp_op now arp_hdr packet interface =
    let op = ntohs arp_hdr.ar_op in
    if op == arp_op_request
    then handle_arp_request arp_hdr packet interface
    else (if op == arp_op_reply then handle_arp_answer now arp_hdr else pure tt)

unfoldable pub handle_arp_packet : ℕ → List ℕ → List ℕ → M (Unit {0})
handle_arp_packet now packet interface = if ltb (length packet) 42 then pure tt else do
  (_, p) ← lift (decode_eth packet)
  (arp_hdr, _) ← lift (decode_arp p)
  handle_arp_op now arp_hdr packet interface
