-- ===== src/Examples/Replies.antt =====
-- The theorems on what the handlers send, at concrete inputs.
use computer_networking.Base.{
  ℕ, ◌≡◌, refl, true, some, List, [], ◌∷◌, ◌++◌, arith, htons, replicate,
}
use computer_networking.Proto.{
  EthernetHdr, ArpHdr, IpHdr, encode_eth, encode_arp, encode_ip, ethertype_arp, ethertype_ip,
}
use computer_networking.Proto.RoundTrip.{IpFits}
use computer_networking.State.{If, ArpEntry, Router}
use computer_networking.Wire.Delivery.{after_sending}
use computer_networking.Router.Messages.{fresh_sum}
use computer_networking.Router.{handlepacket}
use computer_networking.Router.Answers.{IsRequest, answer, handlepacket-answers}
use computer_networking.Router.Transit.{
  IsTransit, KnowsWay, forwarded, outgoing, handlepacket-sends,
}
use computer_networking.System.{receives}
use computer_networking.Examples.Topology.{
  machine, ready, state_after, is_at, eth, mac, ipv4, client, server1, host_route,
}

abbrev pub eth1 : If
eth1 = record { name = eth 1; addr = mac 1; ip = ipv4 192 168 2 1; speed = 0 }

abbrev asked_by : EthernetHdr
asked_by = record {
  ether_dhost = replicate 6 255;
  ether_shost = mac 11;
  ether_type = htons ethertype_arp;
}

abbrev asked : ArpHdr
asked = record {
  ar_hrd = htons 1;
  ar_pro = htons ethertype_ip;
  ar_hln = 6;
  ar_pln = 4;
  ar_op = htons 1;
  ar_sha = mac 11;
  ar_sip = server1;
  ar_tha = replicate 6 0;
  ar_tip = ipv4 192 168 2 1;
}

asked-IsRequest : IsRequest ready asked_by asked (eth 1) eth1
unfolding machine
asked-IsRequest = record {
  eth_fits = record { dhost = refl; shost = refl; type' = omega arith };
  arp_fits = record {
    hrd = omega arith;
    pro = omega arith;
    hln = omega arith;
    pln = omega arith;
    op = omega arith;
    sha = refl;
    sip = omega arith;
    tha = refl;
    tip = omega arith;
  };
  is_arp = refl;
  asks = refl;
  for_it = refl;
  came_by = refl;
  addr = refl;
}

handlepacket-answers_example :
    handlepacket 100 (encode_eth asked_by ++ (encode_arp asked ++ [])) (eth 1) ready
    ≡ some (tt, after_sending (answer eth1 asked_by asked) (eth 1) ready)
handlepacket-answers_example =
    handlepacket-answers 100 asked_by asked [] (eth 1) ready eth1 asked-IsRequest refl

-- The router has heard from server1, and a ping for it arrives.
abbrev knowing : Router
knowing = state_after (receives 99 is_at (eth 1) ∷ [])

abbrev pub ping_eth : EthernetHdr
ping_eth = record { ether_dhost = mac 3; ether_shost = mac 13; ether_type = htons ethertype_ip }

abbrev pub ping_ip : IpHdr
ping_ip = record {
  ip_hl = 5;
  ip_v = 4;
  ip_tos = 0;
  ip_len = htons 28;
  ip_id = 7;
  ip_off = 0;
  ip_ttl = 64;
  ip_p = 1;
  ip_sum = 0;
  ip_src = client;
  ip_dst = server1;
}

abbrev pub echo : List ℕ
echo = 8 ∷ 0 ∷ 0 ∷ 0 ∷ 0 ∷ 1 ∷ 0 ∷ 2 ∷ []

abbrev heard : ArpEntry
heard = record { mac = mac 11; ip = server1; added = 99; valid = true }

pub ping_ip-Fits : IpFits ping_ip
ping_ip-Fits = record {
  hl = omega arith;
  v = omega arith;
  tos = omega arith;
  len = omega arith;
  id = omega arith;
  off = omega arith;
  ttl = omega arith;
  p = omega arith;
  sum = omega arith;
  src = omega arith;
  dst = omega arith;
}

ping-IsTransit : IsTransit knowing ping_eth ping_ip echo
unfolding machine
ping-IsTransit = record {
  eth_fits = record { dhost = refl; shost = refl; type' = omega arith };
  ip_fits = ping_ip-Fits;
  is_ip = refl;
  not_ours = refl;
  alive = omega arith;
  header = omega arith;
}

server1-KnowsWay : KnowsWay knowing server1 (host_route server1 1) eth1 heard
unfolding machine
server1-KnowsWay = record {
  route = refl;
  interface = refl;
  by_name = refl;
  resolved = refl;
  addr = refl;
  mac = refl;
}

taken : (frame : List ℕ) → knowing.accepts frame ≡ true
unfolding machine
taken frame = refl

handlepacket-sends_example :
    (sum : ℕ) × (sum ≡ fresh_sum (record ping_ip { ip_ttl = 63 }) echo)
    × (handlepacket 100 (encode_eth ping_eth ++ (encode_ip ping_ip ++ echo)) (eth 3) knowing
        ≡ some (
          tt,
          after_sending (outgoing eth1 (mac 11) (forwarded ping_ip sum) echo) (eth 1) knowing,
        ))
handlepacket-sends_example =
    handlepacket-sends 100 ping_eth ping_ip echo (eth 3) knowing (host_route server1 1) eth1 heard
      ping-IsTransit server1-KnowsWay taken
