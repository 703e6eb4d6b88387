-- ===== src/Router/Queueing.antt =====
-- What forwarding a packet does when the next hop's address is not known.
use computer_networking.Base.{
  ℕ, suc, ◌≤◌, ◌-◌, ◌≡◌, refl, ◌∙◌, inl, inr, true, none, some, List, [], ◌∷◌, ◌++◌, arith, length,
  leb, Option-cases,
}
use computer_networking.Proto.{EthernetHdr, IpHdr, encode_eth, encode_ip, iface_namelen}
use computer_networking.Proto.RoundTrip.{decode-encode_eth, decode-encode_ip}
use computer_networking.State.{If, Rt, Router, ArpReq, ArpCache, strncpy}
use computer_networking.Exec.{pure, modify}
use computer_networking.Exec.Steps.{step-action, step-lift, step-found, step-null, step-else}
use computer_networking.Interface.{get_interface}
use computer_networking.Route.{lpm_lookup}
use computer_networking.ArpCache.{
  lookup, find_ip, queuereq, stamp, stamped, on_node, add_packet, new_req,
}
use computer_networking.Wire.{packet_message, log_packet}
use computer_networking.Wire.Delivery.{after_sending, send_packet_own}
use computer_networking.Router.Arp.{arp_request_frame, send_arp_request}
use computer_networking.Router.Icmp.{next_hop, arpcache_queuereq, arpreq_stamp, enqueue}
use computer_networking.Router.Forward.{route_packet, forward_on, forward_ip_packet}
use computer_networking.Router.{handlepacket}
use computer_networking.Router.Entry.{handlepacket-ip}
use computer_networking.Router.Returns.Ip.{frame_long}
use computer_networking.Router.Messages.{via, fresh_sum, refresh_checksum-fresh}
use computer_networking.Router.Transit.{IsTransit, forwarded, outgoing}

-- The first request for an address, sent once, with the frame that waits.
abbrev pub first_request : ℕ → ℕ → ℕ → List ℕ → List ℕ → ArpReq
first_request node now hop frame name = record {
  node = node;
  ip = hop;
  sent = now;
  times_sent = 1;
  packets = record { buf = frame; iface = strncpy iface_namelen name } ∷ [];
}

abbrev pub with_request : ℕ → ℕ → List ℕ → List ℕ → ArpCache → ArpCache
with_request now hop frame name c = record c {
  requests = first_request c.next_node now hop frame name ∷ c.requests;
  next_node = suc c.next_node;
}

-- The router has asked by the interface who has the address, and the frame waits.
abbrev pub after_asking : ℕ → ℕ → List ℕ → If → Router → Router
after_asking now hop frame out s = record (after_sending (arp_request_frame out hop) out.name s) {
  cache = with_request now hop frame out.name s.cache;
}

queuereq-new :
    (hop : ℕ) (frame name : List ℕ) (c : ArpCache)
    → find_ip hop c.requests ≡ none
    → queuereq hop frame name c ≡ (
      add_packet frame name (new_req c.next_node hop),
      record c {
        requests = add_packet frame name (new_req c.next_node hop) ∷ c.requests;
        next_node = suc c.next_node;
      },
    )
unfolding queuereq
queuereq-new hop frame name c e = rw (e, queuereq) refl

log_packet-cache :
    (buf : List ℕ) (s : Router) (c : ArpCache)
    → log_packet buf (record s { cache = c }) ≡ record (log_packet buf s) { cache = c }
unfolding log_packet
log_packet-cache buf s c = elim (Option-cases s.logfile) [
  | inl e ↦ rw (e, log_packet) refl
  | inr (l, e) ↦ rw (e, log_packet) refl
]

send_arp_request-sends :
    (hop : ℕ) (out : If) (s : Router)
    → get_interface out.name s.if_list ≡ some out
    → length out.addr ≡ 6
    → s.accepts (packet_message (arp_request_frame out hop) out.name) ≡ true
    → send_arp_request hop out.name s
      ≡ some (tt, after_sending (arp_request_frame out hop) out.name s)
unfolding send_arp_request arp_request_frame pure
send_arp_request-sends hop out s known addr taken =
    step-found _ _ _ s out known
    ∙ step-action _ _ s (after_sending (arp_request_frame out hop) out.name s) true (
        send_packet_own _ _ out.name s out
          (record { dhost = refl; shost = addr; type' = omega arith }) known refl taken)

-- The request before it is stamped.
abbrev unsent : ℕ → ℕ → List ℕ → List ℕ → ArpReq
unsent node hop frame name = record (first_request node 0 hop frame name) { times_sent = 0 }

add_packet-new :
    (node hop : ℕ) (frame name : List ℕ)
    → 42 ≤ length frame
    → add_packet frame name (new_req node hop) ≡ unsent node hop frame name
add_packet-new node hop frame name h = ground arith

on_node-head :
    (r : ArpReq) (f : ArpReq → ArpReq) (rs : List ArpReq) → on_node r.node f (r ∷ rs) ≡ f r ∷ rs
unfolding on_node
on_node-head r f rs = ground arith

abbrev with_unsent : ℕ → List ℕ → List ℕ → ArpCache → ArpCache
with_unsent hop frame name c = record c {
  requests = unsent c.next_node hop frame name ∷ c.requests;
  next_node = suc c.next_node;
}

stamp-asking :
    (now hop : ℕ) (frame : List ℕ) (out : If) (s : Router)
    → arpreq_stamp now 1 (unsent s.cache.next_node hop frame out.name) (
        after_sending
          (arp_request_frame out hop)
          out.name
          (record s { cache = with_unsent hop frame out.name s.cache }))
      ≡ some (tt, after_asking now hop frame out s)
unfolding arpreq_stamp modify stamp
stamp-asking now hop frame out s =
    rw
      (
        log_packet-cache (arp_request_frame out hop) s (with_unsent hop frame out.name s.cache),
        on_node-head (unsent s.cache.next_node hop frame out.name) (stamped now 1) s.cache.requests,
      )
      refl

queuereq-asking :
    (hop : ℕ) (frame : List ℕ) (out : If) (s : Router)
    → find_ip hop s.cache.requests ≡ none
    → 42 ≤ length frame
    → arpcache_queuereq hop frame out.name s
      ≡ some (
        unsent s.cache.next_node hop frame out.name,
        record s { cache = with_unsent hop frame out.name s.cache },
      )
unfolding arpcache_queuereq
queuereq-asking hop frame out s new long =
    rw
      (
        queuereq-new hop frame out.name s.cache new,
        add_packet-new s.cache.next_node hop frame out.name long,
      )
      refl

enqueue-asks :
    (now hop : ℕ) (frame : List ℕ) (out : If) (s : Router)
    → find_ip hop s.cache.requests ≡ none
    → 42 ≤ length frame
    → get_interface out.name s.if_list ≡ some out
    → length out.addr ≡ 6
    → s.accepts (packet_message (arp_request_frame out hop) out.name) ≡ true
    → enqueue now hop frame out s ≡ some (tt, after_asking now hop frame out s)
unfolding enqueue
enqueue-asks now hop frame out s new long known addr taken =
    let req = unsent s.cache.next_node hop frame out.name in
    let t : Router = record s { cache = with_unsent hop frame out.name s.cache } in
    step-action _ _ s t req (queuereq-asking hop frame out s new long)
    ∙ step-action _ _ t (after_sending (arp_request_frame out hop) out.name t) tt
        (send_arp_request-sends hop out t known addr taken)
    ∙ stamp-asking now hop frame out s

-- The router knows route and interface, but not the link address of the next hop, and has not asked
-- for it.
pub record MustAsk (s : Router) (dst : ℕ) (rt : Rt) (out : If) : Type 0 where
  pub route : lpm_lookup dst s.routing_table ≡ some rt
  pub interface : get_interface rt.interface s.if_list ≡ some out
  pub by_name : get_interface out.name s.if_list ≡ some out
  pub unresolved : lookup (via rt dst) s.cache ≡ none
  pub unasked : find_ip (via rt dst) s.cache.requests ≡ none
  pub addr : length out.addr ≡ 6

module _ (now : ℕ) (eth : EthernetHdr) (ip : IpHdr) (payload : List ℕ) (s : Router) (rt : Rt)
    (out : If) where
  route_packet-queues :
      MustAsk s ip.ip_dst rt out
      → 42 ≤ length (outgoing out eth.ether_dhost ip payload)
      → s.accepts (packet_message (arp_request_frame out (next_hop rt ip.ip_dst)) out.name) ≡ true
      → route_packet now eth ip payload s
        ≡ some (
          tt,
          after_asking now (next_hop rt ip.ip_dst) (outgoing out eth.ether_dhost ip payload) out s,
        )
  unfolding route_packet
  route_packet-queues way long taken =
      step-found _ _ _ s rt way.route
      ∙ step-found _ _ _ s out way.interface
      ∙ step-null _ _ _ s way.unresolved
      ∙ enqueue-asks now (next_hop rt ip.ip_dst) (outgoing out eth.ether_dhost ip payload) out s
          way.unasked long way.by_name way.addr taken

-- A packet for elsewhere with a time to live above 1, a header length inside the packet and at least
-- 8 bytes behind its header, whose route and interface the router knows, but whose next hop it does
-- not and has not asked for: if the socket takes every message, one message leaves, the broadcast
-- question for the next hop by that interface. The packet waits, with a hop less and a fresh
-- checksum, as the only one of a new request, which was sent once, now; all else is as before.
pub handlepacket-queues :
    (now : ℕ) (eth : EthernetHdr) (ip : IpHdr) (payload interface : List ℕ) (s : Router) (rt : Rt)
    (out : If)
    → IsTransit s eth ip payload
    → MustAsk s ip.ip_dst rt out
    → 8 ≤ length payload
    → ((frame : List ℕ) → s.accepts frame ≡ true)
    → (sum : ℕ) × (sum ≡ fresh_sum (record ip { ip_ttl = ip.ip_ttl - 1 }) payload)
      × (handlepacket now (encode_eth eth ++ (encode_ip ip ++ payload)) interface s
          ≡ some (
            tt,
            after_asking now
                (next_hop rt ip.ip_dst)
                (outgoing out eth.ether_dhost (forwarded ip sum) payload)
                out
                s,
          ))
unfolding forward_ip_packet forward_on
handlepacket-queues now eth ip payload interface s rt out t way long taken =
    let p = encode_ip ip ++ payload in
    let less : IpHdr = record ip { ip_ttl = ip.ip_ttl - 1 } in
    let sum = fresh_sum less payload in
    let fresh = refresh_checksum-fresh less payload t.header in
    (
      sum,
      refl,
      handlepacket-ip now eth ip payload interface s t.eth_fits t.ip_fits t.is_ip
          ∙ step-null _ _ _ s t.not_ours
          ∙ step-lift _ _ s (eth, p) (decode-encode_eth eth p t.eth_fits)
          ∙ step-lift _ _ s (ip, payload) (decode-encode_ip ip payload t.ip_fits)
          ∙ step-else (leb ip.ip_ttl 1) _ _ s (ground (arith, t.alive))
          ∙ step-lift _ _ s (forwarded ip sum) fresh
          ∙ route_packet-queues now eth (forwarded ip sum) payload s rt out way
              (frame_long _ _ payload t.eth_fits.dhost way.addr long) (taken _),
    )
