-- ===== src/Router/Answers.antt =====
-- The answer to an ARP request for the address of the interface that it came by.
use computer_networking.Base.{
  ℕ, ◌≡◌, refl, ◌∙◌, true, some, List, ◌++◌, ◌==◌, arith, length, htons, ntohs,
}
use computer_networking.Proto.{
  EthernetHdr, ArpHdr, encode_eth, encode_arp, ethertype_arp, ethertype_ip, arp_op_request,
}
use computer_networking.Proto.RoundTrip.{EthFits, ArpFits, decode-encode_eth, decode-encode_arp}
use computer_networking.State.{If, Router}
use computer_networking.Exec.{pure}
use computer_networking.Exec.Steps.{step-action, step-lift, step-found, step-then}
use computer_networking.Interface.{get_interface, get_interface_by_ip}
use computer_networking.Wire.{packet_message}
use computer_networking.Wire.Delivery.{after_sending, send_packet_own}
use computer_networking.Router.Arp.{
  arp_reply_frame, send_arp_reply, handle_arp_request, handle_arp_op,
}
use computer_networking.Router.{handlepacket}
use computer_networking.Router.Entry.{handlepacket-arp}

-- The answer of an interface: its own addresses, for the host that asked.
abbrev pub answer : If → EthernetHdr → ArpHdr → List ℕ
answer i e a =
    encode_eth (record {
      ether_dhost = e.ether_shost;
      ether_shost = i.addr;
      ether_type = htons ethertype_arp;
    })
    ++ encode_arp (record {
      ar_hrd = htons 1;
      ar_pro = htons ethertype_ip;
      ar_hln = 6;
      ar_pln = 4;
      ar_op = htons 2;
      ar_sha = i.addr;
      ar_sip = i.ip;
      ar_tha = a.ar_sha;
      ar_tip = a.ar_sip;
    })

-- A request for the address of the interface, from whatever host.
pub record IsRequest (s : Router) (e : EthernetHdr) (a : ArpHdr) (interface : List ℕ) (i : If)
    : Type 0 where
  pub eth_fits : EthFits e
  pub arp_fits : ArpFits a
  pub is_arp : ntohs e.ether_type ≡ ethertype_arp
  pub asks : ntohs a.ar_op ≡ arp_op_request
  pub for_it : get_interface_by_ip a.ar_tip s.if_list ≡ some i
  pub came_by : get_interface interface s.if_list ≡ some i
  pub addr : length i.addr ≡ 6

send_arp_reply-sends :
    (e : EthernetHdr) (a : ArpHdr) (r interface : List ℕ) (s : Router) (i : If)
    → IsRequest s e a interface i
    → s.accepts (packet_message (answer i e a) interface) ≡ true
    → send_arp_reply (encode_eth e ++ (encode_arp a ++ r)) interface s
      ≡ some (tt, after_sending (answer i e a) interface s)
unfolding send_arp_reply arp_reply_frame pure
send_arp_reply-sends e a r interface s i q taken =
    step-lift _ _ s (e, encode_arp a ++ r) (decode-encode_eth e (encode_arp a ++ r) q.eth_fits)
    ∙ (step-lift _ _ s (a, r) (decode-encode_arp a r q.arp_fits)
        ∙ (step-found _ _ _ s i q.for_it
            ∙ step-action _ _ s (after_sending (answer i e a) interface s) true (
                send_packet_own _ _ interface s i
                  (record { dhost = q.eth_fits.shost; shost = q.addr; type' = omega arith })
                  q.came_by refl taken)))

-- If the socket takes it, the router answers an ARP request for the address of the interface that
-- it came by with one message, by that interface: the interface's addresses as the sender's, and
-- those of the host that asked as the target's. Nothing else is changed: what the sender tells of
-- itself is not put in the cache.
pub handlepacket-answers :
    (now : ℕ) (e : EthernetHdr) (a : ArpHdr) (r interface : List ℕ) (s : Router) (i : If)
    → IsRequest s e a interface i
    → s.accepts (packet_message (answer i e a) interface) ≡ true
    → handlepacket now (encode_eth e ++ (encode_arp a ++ r)) interface s
      ≡ some (tt, after_sending (answer i e a) interface s)
unfolding handle_arp_op handle_arp_request
handlepacket-answers now e a r interface s i q taken =
    handlepacket-arp now e a r interface s q.eth_fits q.arp_fits q.is_arp
    ∙ (step-then (ntohs a.ar_op == arp_op_request) _ _ s (ground (arith, q.asks))
        ∙ (step-found _ _ _ s i q.for_it ∙ send_arp_reply-sends e a r interface s i q taken))
