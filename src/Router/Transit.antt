-- ===== src/Router/Transit.antt =====
-- What forwarding a packet does when the next hop's address is known.
use computer_networking.Base.{
  ℕ, ◌+◌, ◌*◌, ◌-◌, ◌≤◌, ◌<◌, ◌≡◌, refl, ◌∙◌, true, none, some, List, ◌++◌, arith, length, leb,
  ntohs, htons,
}
use computer_networking.Proto.{EthernetHdr, IpHdr, encode_eth, encode_ip, ethertype_ip}
use computer_networking.Proto.RoundTrip.{EthFits, IpFits, decode-encode_eth, decode-encode_ip}
use computer_networking.State.{If, Rt, ArpEntry, Router}
use computer_networking.Exec.{pure}
use computer_networking.Exec.Steps.{step-action, step-lift, step-found, step-null, step-else}
use computer_networking.Interface.{get_interface, get_interface_by_ip}
use computer_networking.Route.{lpm_lookup}
use computer_networking.ArpCache.{lookup}
use computer_networking.Wire.{packet_message}
use computer_networking.Wire.Delivery.{after_sending, send_packet_own}
use computer_networking.Router.Forward.{route_packet, forward_on, forward_ip_packet}
use computer_networking.Router.{handlepacket}
use computer_networking.Router.Entry.{handlepacket-ip}
use computer_networking.Router.Messages.{via, fresh_sum, refresh_checksum-fresh}

-- The header that leaves: one hop less, and a fresh checksum.
abbrev pub forwarded : IpHdr → ℕ → IpHdr
forwarded ip sum = record ip { ip_ttl = ip.ip_ttl - 1; ip_sum = sum }

-- The frame that leaves by the interface, for the link address.
abbrev pub outgoing : If → List ℕ → IpHdr → List ℕ → List ℕ
outgoing out dhost ip payload =
    encode_eth
      (record { ether_dhost = dhost; ether_shost = out.addr; ether_type = htons ethertype_ip })
    ++ (encode_ip ip ++ payload)

-- The router knows the way: route, interface and link address of the next hop.
pub record KnowsWay (s : Router) (dst : ℕ) (rt : Rt) (out : If) (e : ArpEntry) : Type 0 where
  pub route : lpm_lookup dst s.routing_table ≡ some rt
  pub interface : get_interface rt.interface s.if_list ≡ some out
  pub by_name : get_interface out.name s.if_list ≡ some out
  pub resolved : lookup (via rt dst) s.cache ≡ some e
  pub addr : length out.addr ≡ 6
  pub mac : length e.mac ≡ 6

route_packet-sends :
    (now : ℕ) (eth : EthernetHdr) (ip : IpHdr) (payload : List ℕ) (s : Router) (rt : Rt) (out : If)
    (e : ArpEntry)
    → KnowsWay s ip.ip_dst rt out e
    → s.accepts (packet_message (outgoing out e.mac ip payload) out.name) ≡ true
    → route_packet now eth ip payload s
      ≡ some (tt, after_sending (outgoing out e.mac ip payload) out.name s)
unfolding route_packet pure
route_packet-sends now eth ip payload s rt out e way taken =
    step-found _ _ _ s rt way.route
    ∙ (step-found _ _ _ s out way.interface
        ∙ (step-found _ _ _ s e way.resolved
            ∙ step-action _ _ s (after_sending (outgoing out e.mac ip payload) out.name s) true (
                send_packet_own _ (encode_ip ip ++ payload) out.name s out
                  (record { dhost = way.mac; shost = way.addr; type' = omega arith }) way.by_name
                  refl taken)))

-- A packet for elsewhere that may still travel.
pub record IsTransit (s : Router) (e : EthernetHdr) (ip : IpHdr) (payload : List ℕ) : Type 0 where
  pub eth_fits : EthFits e
  pub ip_fits : IpFits ip
  pub is_ip : ntohs e.ether_type ≡ ethertype_ip
  pub not_ours : get_interface_by_ip ip.ip_dst s.if_list ≡ none
  pub alive : 1 < ip.ip_ttl
  pub header : ip.ip_hl * 4 ≤ length payload + 20

-- A packet for elsewhere with a time to live above 1 and a header length inside the packet, of any
-- version and checksum, whose route, interface and next hop's link address the router knows, leaves as one message by that
-- interface and for that link address, if the socket takes every message: the header has a hop less
-- and a fresh checksum, and the payload is as it came.
pub handlepacket-sends :
    (now : ℕ) (eth : EthernetHdr) (ip : IpHdr) (payload interface : List ℕ) (s : Router) (rt : Rt)
    (out : If) (e : ArpEntry)
    → IsTransit s eth ip payload
    → KnowsWay s ip.ip_dst rt out e
    → ((frame : List ℕ) → s.accepts frame ≡ true)
    → (sum : ℕ) × (sum ≡ fresh_sum (record ip { ip_ttl = ip.ip_ttl - 1 }) payload)
      × (handlepacket now (encode_eth eth ++ (encode_ip ip ++ payload)) interface s
          ≡ some (tt, after_sending (outgoing out e.mac (forwarded ip sum) payload) out.name s))
unfolding forward_ip_packet forward_on
handlepacket-sends now eth ip payload interface s rt out e t way taken =
    let p = encode_ip ip ++ payload in
    let d = decode-encode_eth eth p t.eth_fits in
    let d' = decode-encode_ip ip payload t.ip_fits in
    let less : IpHdr = record ip { ip_ttl = ip.ip_ttl - 1 } in
    let sum = fresh_sum less payload in
    let fresh = refresh_checksum-fresh less payload t.header in
    (
      sum,
      refl,
      handlepacket-ip now eth ip payload interface s t.eth_fits t.ip_fits t.is_ip
          ∙ (step-null _ _ _ s t.not_ours
              ∙ (step-lift _ _ s (eth, p) d
                  ∙ (step-lift _ _ s (ip, payload) d'
                      ∙ (step-else (leb ip.ip_ttl 1) _ _ s (ground (arith, t.alive))
                          ∙ (step-lift _ _ s (forwarded ip sum) fresh
                              ∙ route_packet-sends now eth (forwarded ip sum) payload s rt out e
                                  (record {
                                    route = way.route;
                                    interface = way.interface;
                                    by_name = way.by_name;
                                    resolved = way.resolved;
                                    addr = way.addr;
                                    mac = way.mac;
                                  })
                                  (taken _)))))),
    )
