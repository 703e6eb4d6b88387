-- ===== src/Examples/Errors.antt =====
-- The theorems on ICMP errors at concrete inputs.
use computer_networking.Base.{ℕ, ◌<◌, ◌^◌, ◌≡◌, refl, none, some, List, [], ◌∷◌, ◌++◌, arith}
use computer_networking.Proto.{IpHdr}
use computer_networking.Proto.RoundTrip.{IpFits}
use computer_networking.State.{ArpReq, Router}
use computer_networking.ArpCache.{find_ip, new_req}
use computer_networking.Wire.{packet_message}
use computer_networking.Wire.Delivery.{after_sending}
use computer_networking.Router.Icmp.{refresh_checksum}
use computer_networking.Router.Messages.{fresh_sum}
use computer_networking.Router.{handlepacket}
use computer_networking.Router.Entry.{packet_of}
use computer_networking.Router.Transit.{IsTransit, forwarded}
use computer_networking.Router.Errors.{IsWholePacket, error_frame, handlepacket-refuses}
use computer_networking.Router.Unroutable.{handlepacket-unroutable}
use computer_networking.Retry.GivingUp.{unreachable_frame}
use computer_networking.System.{Event, receives, ticks}
use computer_networking.Examples.Topology.{
  machine, state_after, arp_frame, eth, mac, ipv4, client, server1, host_route, ping,
}
use computer_networking.Examples.Replies.{eth1}
use computer_networking.Examples.Pings.{
  eth3, link, link-EthFits, header, header-IpFits, told, heard, client-KnowsWay,
}

abbrev eight : List ℕ
eight = 8 ∷ 0 ∷ 0 ∷ 0 ∷ 0 ∷ 1 ∷ 0 ∷ 2 ∷ []

-- No route leads to 8.8.8.8.
abbrev elsewhere : ℕ
elsewhere = ipv4 8 8 8 8

elsewhere-IsTransit : IsTransit told link (header 64 elsewhere) (eight ++ [])
unfolding machine
elsewhere-IsTransit = record {
  eth_fits = link-EthFits;
  ip_fits = header-IpFits 64 elsewhere (omega arith) (omega arith);
  is_ip = refl;
  not_ours = refl;
  alive = omega arith;
  header = omega arith;
}

handlepacket-unroutable_example :
    (sum : ℕ) × (sum ≡ fresh_sum (header 63 elsewhere) eight)
    × (handlepacket 100 (packet_of link (header 64 elsewhere) eight) (eth 3) told
        ≡ some (
          tt,
          after_sending
              (error_frame eth3 heard (forwarded (header 64 elsewhere) sum) 3 0 eight)
              (eth 3)
              told,
        ))
unfolding machine
handlepacket-unroutable_example =
    handlepacket-unroutable 100 link (header 64 elsewhere) eight [] (eth 3) told
      (host_route client 3) eth3 heard elsewhere-IsTransit refl refl client-KnowsWay (λ _. refl)

-- A UDP datagram for the router.
abbrev datagram : IpHdr
datagram = record (header 64 (ipv4 192 168 2 1)) { ip_p = 17 }

other_header-IpFits :
    (ttl dst p sum : ℕ)
    → IpFits (header ttl dst)
    → p < 256
    → sum < 2 ^ 16
    → IpFits (record (header ttl dst) { ip_p = p; ip_sum = sum })
other_header-IpFits ttl dst p sum f h l = record {
  hl = f.hl;
  v = f.v;
  tos = f.tos;
  len = f.len;
  id = f.id;
  off = f.off;
  ttl = f.ttl;
  p = h;
  sum = l;
  src = f.src;
  dst = f.dst;
}

datagram-IpFits : IpFits datagram
datagram-IpFits =
    other_header-IpFits 64 (ipv4 192 168 2 1) 17 0
      (header-IpFits 64 (ipv4 192 168 2 1) (omega arith) (omega arith)) (omega arith) (omega arith)

datagram-IsWholePacket : IsWholePacket link datagram eight
datagram-IsWholePacket = record {
  eth_fits = link-EthFits;
  ip_fits = datagram-IpFits;
  is_ip = refl;
  long = refl;
}

handlepacket-refuses_example :
    handlepacket 100 (packet_of link datagram eight) (eth 3) told
    ≡ some (tt, after_sending (error_frame eth3 heard datagram 3 3 eight) (eth 3) told)
unfolding machine
handlepacket-refuses_example =
    handlepacket-refuses 100 link datagram eight [] (eth 3) told (host_route client 3) eth3 heard
      datagram-IsWholePacket client-KnowsWay (λ _. refl) eth1 refl refl

-- A ping for server1, which does not answer.
abbrev unanswered : List Event
unanswered =
    receives 99 (arp_frame 2 (mac 3) (mac 13) client (mac 3) (ipv4 10 0 1 1)) (eth 3)
    ∷ receives 101 (ping server1 64) (eth 3)
    ∷ ticks 102
    ∷ ticks 103
    ∷ ticks 104
    ∷ ticks 105
    ∷ []

abbrev tried : Router
tried = state_after unanswered

abbrev request : ArpReq
request = elim (find_ip server1 tried.cache.requests) [ none ↦ new_req 0 0 | some r ↦ r ]

abbrev sent_header : IpHdr
sent_header = elim (refresh_checksum (header 63 server1) eight) [
  | none ↦ header 63 server1
  | some ip ↦ ip
]

abbrev message : List ℕ
message = packet_message (unreachable_frame eth1 eth3 heard sent_header eight) (eth 3)
