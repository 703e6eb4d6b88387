-- ===== src/Router/Unroutable.antt =====
-- The ICMP error for a packet whose destination matches no route.
use computer_networking.Base.{
  ℕ, ◌-◌, ◌<◌, ◌^◌, ◌*◌, ◌≡◌, refl, ◌∙◌, inl, inr, true, none, some, List, ◌++◌, arith, length, leb,
  split_at?, Option-cases,
}
use computer_networking.Proto.{EthernetHdr, IpHdr, encode_ip}
use computer_networking.Proto.RoundTrip.{IpFits, decode-encode_eth, decode-encode_ip}
use computer_networking.State.{If, Rt, ArpEntry, Router}
use computer_networking.Exec.Steps.{step-lift, step-null, step-else}
use computer_networking.Route.{lpm_lookup}
use computer_networking.Wire.Delivery.{after_sending}
use computer_networking.Router.Icmp.{refresh_checksum}
use computer_networking.Router.Forward.{route_packet, forward_on, forward_ip_packet}
use computer_networking.Router.{handlepacket}
use computer_networking.Router.Entry.{packet_of, handlepacket-ip}
use computer_networking.Router.Errors.{error_frame, send_icmp_t3-sends}
use computer_networking.Router.Messages.{fresh_sum, refresh_checksum-fresh}
use computer_networking.Router.Transit.{IsTransit, KnowsWay, forwarded}

refresh_checksum-fits :
    (ip fresh : IpHdr) (payload : List ℕ)
    → refresh_checksum ip payload ≡ some fresh
    → fresh.ip_sum < 2 ^ 16
unfolding refresh_checksum
refresh_checksum-fits ip fresh payload e =
    elim (Option-cases
      (split_at? (ip.ip_hl * 4) (encode_ip (record ip { ip_sum = 0 }) ++ payload))) [
        | inl n ↦ ground (arith, n)
        | inr (_, f) ↦ ground (arith, f)
      ]

forwarded-IpFits : (ip : IpHdr) (sum : ℕ) → IpFits ip → sum < 2 ^ 16 → IpFits (forwarded ip sum)
forwarded-IpFits ip sum f h = record {
  hl = f.hl;
  v = f.v;
  tos = f.tos;
  len = f.len;
  id = f.id;
  off = f.off;
  ttl = omega (arith, f.ttl);
  p = f.p;
  sum = h;
  src = f.src;
  dst = f.dst;
}

-- A packet for elsewhere, of any version and checksum, with a time to live above 1, a header length inside the packet and at least
-- 8 bytes behind its header, whose destination matches no route, is not forwarded: if the router
-- knows the way to its source and the socket takes every message, one message leaves for the source,
-- an ICMP error of type 3 and code 0. It does not quote the header as it came, but the header with a hop less and a fresh checksum, and
-- the first 8 bytes behind it.
pub handlepacket-unroutable :
    (now : ℕ) (eth : EthernetHdr) (ip : IpHdr) (first rest interface : List ℕ) (s : Router)
    (rt : Rt) (out : If) (entry : ArpEntry)
    → IsTransit s eth ip (first ++ rest)
    → length first ≡ 8
    → lpm_lookup ip.ip_dst s.routing_table ≡ none
    → KnowsWay s ip.ip_src rt out entry
    → ((frame : List ℕ) → s.accepts frame ≡ true)
    → (sum : ℕ) × (sum ≡ fresh_sum (record ip { ip_ttl = ip.ip_ttl - 1 }) (first ++ rest))
      × (handlepacket now (packet_of eth ip (first ++ rest)) interface s
          ≡ some
              (tt, after_sending (error_frame out entry (forwarded ip sum) 3 0 first) out.name s))
unfolding forward_ip_packet forward_on route_packet
handlepacket-unroutable now eth ip first rest interface s rt out entry t long lost way takes =
    let payload = first ++ rest in
    let p = encode_ip ip ++ payload in
    let less : IpHdr = record ip { ip_ttl = ip.ip_ttl - 1 } in
    let sum = fresh_sum less payload in
    let fresh = refresh_checksum-fresh less payload t.header in
    let fits =
      forwarded-IpFits ip sum t.ip_fits
        (refresh_checksum-fits _ (forwarded ip sum) payload fresh) in
    (
      sum,
      refl,
      handlepacket-ip now eth ip payload interface s t.eth_fits t.ip_fits t.is_ip
          ∙ step-null _ _ _ s t.not_ours
          ∙ step-lift _ _ s (eth, p) (decode-encode_eth eth p t.eth_fits)
          ∙ step-lift _ _ s (ip, payload) (decode-encode_ip ip payload t.ip_fits)
          ∙ step-else (leb ip.ip_ttl 1) _ _ s (ground (arith, t.alive))
          ∙ step-lift _ _ s (forwarded ip sum) fresh
          ∙ step-null _ _ _ s lost
          ∙ send_icmp_t3-sends now eth (forwarded ip sum) 3 0 first rest s rt out entry t.eth_fits
              fits long way takes,
    )
