-- ===== src/Examples/Pings.antt =====
-- The theorems on ICMP at concrete inputs.
use computer_networking.Base.{ℕ, ◌≤◌, ◌≡◌, refl, true, some, [], ◌∷◌, ◌++◌, arith, htons}
use computer_networking.Proto.{EthernetHdr, IpHdr, encode_eth, encode_ip, ethertype_ip}
use computer_networking.Proto.RoundTrip.{EthFits, IpFits}
use computer_networking.State.{ArpEntry, If, Router}
use computer_networking.Wire.Delivery.{after_sending}
use computer_networking.Router.Messages.{fresh_sum}
use computer_networking.Router.{handlepacket}
use computer_networking.Router.Entry.{packet_of}
use computer_networking.Router.Transit.{KnowsWay}
use computer_networking.Router.Echo.{IsPing, echo_request, reply, handlepacket-echoes, answered}
use computer_networking.Router.Errors.{IsWholePacket, error_frame, handlepacket-expires}
use computer_networking.System.{receives}
use computer_networking.Examples.Topology.{
  machine, ready, state_after, arp_frame, eth, mac, ipv4, client, server1, host_route,
}

abbrev pub eth3 : If
eth3 = record { name = eth 3; addr = mac 3; ip = ipv4 10 0 1 1; speed = 0 }

abbrev pub link : EthernetHdr
link = record { ether_dhost = mac 3; ether_shost = mac 13; ether_type = htons ethertype_ip }

pub link-EthFits : EthFits link
link-EthFits = record { dhost = refl; shost = refl; type' = omega arith }

-- A ping of the client.
abbrev pub header : ℕ → ℕ → IpHdr
header ttl dst = record {
  ip_hl = 5;
  ip_v = 4;
  ip_tos = 0;
  ip_len = htons 28;
  ip_id = 7;
  ip_off = 0;
  ip_ttl = ttl;
  ip_p = 1;
  ip_sum = 0;
  ip_src = client;
  ip_dst = dst;
}

pub header-IpFits : (ttl dst : ℕ) → ttl ≤ 255 → dst ≤ 0xffff_ffff → IpFits (header ttl dst)
header-IpFits ttl dst h l = record {
  hl = omega arith;
  v = omega arith;
  tos = omega arith;
  len = omega arith;
  id = omega arith;
  off = omega arith;
  ttl = omega arith;
  p = omega arith;
  sum = omega arith;
  src = omega arith;
  dst = omega arith;
}

header-IsPing : IsPing ready link (header 64 (ipv4 192 168 2 1)) (0 ∷ 1 ∷ 0 ∷ 2 ∷ []) (eth 3) eth3
unfolding machine
header-IsPing = record {
  owner = _;
  ours = refl;
  came_by = refl;
  eth_fits = link-EthFits;
  ip_fits = header-IpFits 64 (ipv4 192 168 2 1) (omega arith) (omega arith);
  is_ip = refl;
  is_icmp = refl;
  header = omega arith;
  addr = refl;
}

handlepacket-echoes_example :
    (sum : ℕ) × (sum
      ≡ fresh_sum
          (answered (header 64 (ipv4 192 168 2 1)) 0)
          (echo_request 0 0 0 (0 ∷ 1 ∷ 0 ∷ 2 ∷ [])))
    × (handlepacket 100
          (encode_eth link
            ++ (encode_ip (header 64 (ipv4 192 168 2 1))
                ++ echo_request 0 0 0 (0 ∷ 1 ∷ 0 ∷ 2 ∷ [])))
          (eth 3)
          ready
        ≡ some (
          tt,
          after_sending
              (reply eth3 link (header 64 (ipv4 192 168 2 1)) sum (0 ∷ 1 ∷ 0 ∷ 2 ∷ []))
              (eth 3)
              ready,
        ))
handlepacket-echoes_example =
    handlepacket-echoes 100 link (header 64 (ipv4 192 168 2 1)) 0 0 0 (0 ∷ 1 ∷ 0 ∷ 2 ∷ []) (eth 3)
      ready eth3 header-IsPing (λ _. refl)

-- The client has told its address.
abbrev pub told : Router
told =
    state_after
      (receives 99 (arp_frame 2 (mac 3) (mac 13) client (mac 3) (ipv4 10 0 1 1)) (eth 3) ∷ [])

abbrev pub heard : ArpEntry
heard = record { mac = mac 13; ip = client; added = 99; valid = true }

pub client-KnowsWay : KnowsWay told client (host_route client 3) eth3 heard
unfolding machine
client-KnowsWay = record {
  route = refl;
  interface = refl;
  by_name = refl;
  resolved = refl;
  addr = refl;
  mac = refl;
}

header-IsWholePacket : IsWholePacket link (header 1 server1) (8 ∷ 0 ∷ 0 ∷ 0 ∷ 0 ∷ 1 ∷ 0 ∷ 2 ∷ [])
header-IsWholePacket = record {
  eth_fits = link-EthFits;
  ip_fits = header-IpFits 1 server1 (omega arith) (omega arith);
  is_ip = refl;
  long = refl;
}

handlepacket-expires_example :
    handlepacket 100
      (packet_of link (header 1 server1) ((8 ∷ 0 ∷ 0 ∷ 0 ∷ 0 ∷ 1 ∷ 0 ∷ 2 ∷ []) ++ []))
      (eth 3)
      told
    ≡ some (
      tt,
      after_sending
          (error_frame eth3 heard (header 1 server1) 11 0 (8 ∷ 0 ∷ 0 ∷ 0 ∷ 0 ∷ 1 ∷ 0 ∷ 2 ∷ []))
          (eth 3)
          told,
    )
unfolding machine
handlepacket-expires_example =
    handlepacket-expires 100 link (header 1 server1) (8 ∷ 0 ∷ 0 ∷ 0 ∷ 0 ∷ 1 ∷ 0 ∷ 2 ∷ []) [] (eth 3)
      told (host_route client 3) eth3 heard header-IsWholePacket client-KnowsWay (λ _. refl) refl
      (omega arith)
