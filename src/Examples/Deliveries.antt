-- ===== src/Examples/Deliveries.antt =====
-- A packet that waits for an address, and the reply that releases it, on the topology.
use computer_networking.Base.{ℕ, ◌≡◌, refl, none, some, [], ◌∷◌, ◌++◌, arith, htons}
use computer_networking.Proto.{
  EthernetHdr, ArpHdr, encode_eth, encode_arp, encode_ip, ethertype_arp, ethertype_ip,
}
use computer_networking.State.{Router, ArpReq}
use computer_networking.ArpCache.{find_ip, new_req}
use computer_networking.ArpCache.Requests.{init-Inv}
use computer_networking.Wire.{packet_message}
use computer_networking.Router.Messages.{fresh_sum, question}
use computer_networking.Router.Transit.{IsTransit, forwarded, outgoing}
use computer_networking.Router.Queueing.{MustAsk}
use computer_networking.Router.Returns.{IsReady}
use computer_networking.System.{receives, run}
use computer_networking.System.Delivery.{IsReply, run-delivers}
use computer_networking.Examples.Topology.{
  machine, ready, interfaces, state_after, eth, mac, ipv4, server1, host_route,
}
use computer_networking.Examples.Runs.{addrs_fit, asking}
use computer_networking.Examples.Replies.{eth1, ping_eth, ping_ip, echo, ping_ip-Fits}

ready-IsTransit : IsTransit ready ping_eth ping_ip echo
unfolding machine
ready-IsTransit = record {
  eth_fits = record { dhost = refl; shost = refl; type' = omega arith };
  ip_fits = ping_ip-Fits;
  is_ip = refl;
  not_ours = refl;
  alive = omega arith;
  header = omega arith;
}

ready-MustAsk : MustAsk ready server1 (host_route server1 1) eth1
unfolding machine find_ip
ready-MustAsk = record {
  route = refl;
  interface = refl;
  by_name = refl;
  unresolved = refl;
  unasked = refl;
  addr = refl;
}

-- The reply of server1.
abbrev reply_eth : EthernetHdr
reply_eth = record { ether_dhost = mac 1; ether_shost = mac 11; ether_type = htons ethertype_arp }

abbrev reply : ArpHdr
reply = record {
  ar_hrd = htons 1;
  ar_pro = htons ethertype_ip;
  ar_hln = 6;
  ar_pln = 4;
  ar_op = htons 2;
  ar_sha = mac 11;
  ar_sip = server1;
  ar_tha = mac 1;
  ar_tip = ipv4 192 168 2 1;
}

reply-IsReply : IsReply reply_eth reply server1
reply-IsReply = record {
  eth_fits = record { dhost = refl; shost = refl; type' = omega arith };
  arp_fits = record {
    hrd = omega arith;
    pro = omega arith;
    hln = omega arith;
    pln = omega arith;
    op = omega arith;
    sha = refl;
    sip = omega arith;
    tha = refl;
    tip = omega arith;
  };
  is_arp = refl;
  replies = refl;
  from_hop = refl;
}

ready-IsReady : IsReady interfaces ready
unfolding machine
ready-IsReady = record { same_ifs = refl; waiting = tt }

run-delivers_example :
    (sum : ℕ) × (sum ≡ fresh_sum (record ping_ip { ip_ttl = 63 }) echo)
    × (u : Router) × (run
          (receives 100 (encode_eth ping_eth ++ (encode_ip ping_ip ++ echo)) (eth 3)
            ∷ receives 101 (encode_eth reply_eth ++ (encode_arp reply ++ [])) (eth 1)
            ∷ [])
          ready
        ≡ some (tt, u))
    × (u.wire
        ≡ []
          ++ packet_message (question eth1 server1) (eth 1)
            ∷ packet_message (outgoing eth1 (mac 11) (forwarded ping_ip sum) echo) (eth 1)
            ∷ [])
    × (find_ip server1 u.cache.requests ≡ none)
run-delivers_example =
    run-delivers interfaces 100 101 ping_eth ping_ip echo (eth 3) reply_eth reply [] (eth 1) ready
      (host_route server1 1) eth1 addrs_fit ready-IsReady init-Inv (λ _. refl) ready-IsTransit
      ready-MustAsk (omega arith) (omega arith) reply-IsReply

-- The request that the ping of the client waits in.
abbrev waiting_request : ArpReq
waiting_request = elim (find_ip server1 (state_after asking).cache.requests) [
  | none ↦ new_req 0 0
  | some r ↦ r
]
