-- ===== src/Router/Icmp.antt =====
-- ICMP: `send_icmp_echo_reply` and `send_icmp_t3` of simple-router-project/router/sr_router.c.
-- A checksum of `hl * 4` bytes that reach past the buffer is a fault.
use computer_networking.Base.{
  ℕ, ◌*◌, Option, none, some, List, ◌++◌, ◌==◌, if◌then◌else◌, replicate, split_at?, htons,
}
use computer_networking.Checksum.{ip_checksum}
use computer_networking.Proto.{
  IpHdr, IcmpHdr, IcmpT3Hdr, decode_eth, encode_eth, decode_ip, encode_ip, decode_icmp, encode_icmp,
  encode_icmp_t3, ethertype_ip, ip_protocol_icmp, icmp_data_size,
}
use computer_networking.State.{If, Rt, ArpReq}
use computer_networking.Exec.{M, pure, if_null, fault, gets, modify, lift, ◌>>=◌, ◌>>◌}
use computer_networking.Interface.{get_interface}
use computer_networking.Route.{lpm_lookup}
use computer_networking.ArpCache.{lookup, queuereq, stamp}
use computer_networking.Wire.{send_packet}
use computer_networking.Router.Arp.{send_arp_request}

-- Clears `ip_sum`, sums the first `ip_hl * 4` bytes of the header and what follows it, and stores
-- `htons` of the result.
unfoldable pub refresh_checksum : IpHdr → List ℕ → Option IpHdr
refresh_checksum ip payload =
    let cleared : IpHdr = record ip { ip_sum = 0 } in
    elim (split_at? (ip.ip_hl * 4) (encode_ip cleared ++ payload)) [
      | none ↦ none
      | some (summed, _) ↦ some (record ip { ip_sum = htons (ip_checksum summed) })
    ]

-- The IP header of the reply: the addresses change places, and the rest is kept.
abbrev pub echo_ip : IpHdr → IpHdr
echo_ip ip = record ip { ip_src = ip.ip_dst; ip_dst = ip.ip_src; ip_ttl = 64 }

-- The ICMP part of the reply; its checksum runs to the end of the frame.
unfoldable pub echo_icmp : List ℕ → List ℕ
echo_icmp rest =
    let cleared : IcmpHdr = record { icmp_type = 0; icmp_code = 0; icmp_sum = 0 } in
    let sum = htons (ip_checksum (encode_icmp cleared ++ rest)) in
    encode_icmp (record cleared { icmp_sum = sum }) ++ rest

unfoldable pub send_icmp_echo_reply : List ℕ → List ℕ → M (Unit {0})
send_icmp_echo_reply packet interface = do
  (req_eth, p) ← lift (decode_eth packet)
  (req_ip, payload) ← lift (decode_ip p)
  found ← gets (λ s. get_interface interface s.if_list)
  if_null found (fault) λ iface. do
    reply_ip ← lift (refresh_checksum (echo_ip req_ip) payload)
    (_, rest) ← lift (decode_icmp payload)
    let reply_eth =
        encode_eth (record req_eth { ether_dhost = req_eth.ether_shost; ether_shost = iface.addr })
    send_packet (reply_eth ++ (encode_ip reply_ip ++ echo_icmp rest)) interface
    pure tt

-- The IP header of an ICMP error; `sum` is its checksum field.
abbrev pub t3_ip : ℕ → ℕ → ℕ → IpHdr
t3_ip src dst sum = record {
  ip_hl = 5;
  ip_v = 4;
  ip_tos = 0;
  ip_len = htons 56;
  ip_id = 0;
  ip_off = 0;
  ip_ttl = 64;
  ip_p = ip_protocol_icmp;
  ip_sum = sum;
  ip_src = src;
  ip_dst = dst;
}

abbrev pub t3_icmp : ℕ → ℕ → List ℕ → ℕ → IcmpT3Hdr
t3_icmp type' code quoted sum = record {
  icmp_type = type';
  icmp_code = code;
  icmp_sum = sum;
  unused = 0;
  next_mtu = 0;
  icmp_data = quoted;
}

-- Header and message of `send_icmp_t3`, with both checksums stored by `htons`.
unfoldable pub t3_body : ℕ → ℕ → ℕ → ℕ → List ℕ → List ℕ
t3_body src dst type' code quoted =
    encode_ip (t3_ip src dst (htons (ip_checksum (encode_ip (t3_ip src dst 0)))))
    ++ encode_icmp_t3 (
        t3_icmp type' code quoted
          (htons (ip_checksum (encode_icmp_t3 (t3_icmp type' code quoted 0)))))

abbrev pub next_hop : Rt → ℕ → ℕ
next_hop rt dst = if rt.gw == 0 then dst else rt.gw

-- `sr_arpcache_queuereq` on the router's cache.
unfoldable pub arpcache_queuereq : ℕ → List ℕ → List ℕ → M ArpReq
arpcache_queuereq ip packet iface s =
    let (req, cache) = queuereq ip packet iface s.cache in some (req, record s { cache = cache })

-- `req->sent = now; req->times_sent = times;`
unfoldable pub arpreq_stamp : ℕ → ℕ → ArpReq → M (Unit {0})
arpreq_stamp now times req = modify (λ s. record s { cache = stamp now times req s.cache })

-- The frame waits for the address, which is asked for if it was not asked for yet.
unfoldable pub enqueue : ℕ → ℕ → List ℕ → If → M (Unit {0})
enqueue now hop frame out_iface = do
  req ← arpcache_queuereq hop frame out_iface.name
  if req.times_sent == 0
      then (do send_arp_request hop out_iface.name; arpreq_stamp now 1 req)
      else pure tt

unfoldable pub send_icmp_t3 : ℕ → List ℕ → ℕ → ℕ → M (Unit {0})
send_icmp_t3 now packet type' code = do
  (_, req) ← lift (decode_eth packet)
  (req_ip, _) ← lift (decode_ip req)
  route ← gets (λ s. lpm_lookup req_ip.ip_src s.routing_table)
  if_null route (pure tt) λ rt. do
    found ← gets (λ s. get_interface rt.interface s.if_list)
    if_null found (pure tt) λ out_iface. do
      (quoted, _) ← lift (split_at? icmp_data_size req)
      let body = t3_body out_iface.ip req_ip.ip_src type' code quoted
      let hop = next_hop rt req_ip.ip_src
      let eth = λ (dhost : List ℕ). encode_eth (record {
        ether_dhost = dhost;
        ether_shost = out_iface.addr;
        ether_type = htons ethertype_ip;
      })
      entry ← gets (λ s. lookup hop s.cache)
      if_null entry (enqueue now hop (eth (replicate 6 0) ++ body) out_iface)
          λ e. do send_packet (eth e.mac ++ body) out_iface.name; pure tt
