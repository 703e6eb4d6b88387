-- ===== src/Router/Errors.antt =====
-- The ICMP errors that the router reports.
use mathlib.Core.List.{append_assoc}
use computer_networking.Base.{
  ℕ, ◌≤◌, ◌≡◌, refl, sym, ap, ◌∙◌, true, false, none, some, List, ◌++◌, ◌==◌, arith, length, leb,
  htons, split_at?, split_at?-append, ntohs,
}
use computer_networking.Proto.{
  EthernetHdr, IpHdr, encode_eth, encode_ip, ethertype_ip, icmp_data_size, ip_protocol_icmp,
}
use computer_networking.Proto.RoundTrip.{
  EthFits, IpFits, decode-encode_eth, decode-encode_ip, length-encode_ip,
}
use computer_networking.State.{If, Rt, ArpEntry, Router}
use computer_networking.Exec.{pure}
use computer_networking.Exec.Steps.{
  step-action, step-lift, step-found, step-null, step-then, step-else,
}
use computer_networking.Interface.{get_interface_by_ip}
use computer_networking.Wire.Delivery.{after_sending, send_packet_own}
use computer_networking.Checksum.{ip_checksum}
use computer_networking.Router.Icmp.{t3_body, send_icmp_t3}
use computer_networking.Router.Messages.{icmp_error, t3_body-icmp_error}
use computer_networking.Router.Forward.{forward_ip_packet}
use computer_networking.Router.{deliver, handlepacket}
use computer_networking.Router.Entry.{packet_of, handlepacket-ip}
use computer_networking.Router.Transit.{KnowsWay}

-- The error of that type and code about a packet, which quotes its IP header and 8 bytes.
abbrev pub error_frame : If → ArpEntry → IpHdr → ℕ → ℕ → List ℕ → List ℕ
error_frame out e ip type' code first =
    encode_eth
      (record { ether_dhost = e.mac; ether_shost = out.addr; ether_type = htons ethertype_ip })
    ++ icmp_error (λ bytes. htons (ip_checksum bytes)) out.ip ip.ip_src type' code
        (encode_ip ip ++ first)

pub quoted-split :
    (ip : IpHdr) (first rest : List ℕ)
    → length first ≡ 8
    → split_at? icmp_data_size (encode_ip ip ++ (first ++ rest))
      ≡ some (encode_ip ip ++ first, rest)
quoted-split ip first rest h =
    ap (split_at? icmp_data_size) (sym (append_assoc (encode_ip ip) first rest))
    ∙ split_at?-append icmp_data_size (encode_ip ip ++ first) rest
        (omega (arith, length-encode_ip ip first, h))

pub send_icmp_t3-sends :
    (now : ℕ) (e : EthernetHdr) (ip : IpHdr) (type' code : ℕ) (first rest : List ℕ) (s : Router)
    (rt : Rt) (out : If) (entry : ArpEntry)
    → EthFits e
    → IpFits ip
    → length first ≡ 8
    → KnowsWay s ip.ip_src rt out entry
    → ((m : List ℕ) → s.accepts m ≡ true)
    → send_icmp_t3 now (packet_of e ip (first ++ rest)) type' code s
      ≡ some (tt, after_sending (error_frame out entry ip type' code first) out.name s)
unfolding send_icmp_t3 pure
send_icmp_t3-sends now e ip type' code first rest s rt out entry fits fits' h way taken =
    let p = encode_ip ip ++ (first ++ rest) in
    let eth : List ℕ = encode_eth (record {
      ether_dhost = entry.mac;
      ether_shost = out.addr;
      ether_type = htons ethertype_ip;
    }) in
    let built : List ℕ = t3_body out.ip ip.ip_src type' code (encode_ip ip ++ first) in
    step-lift _ _ s (e, p) (decode-encode_eth e p fits)
    ∙ (step-lift _ _ s (ip, first ++ rest) (decode-encode_ip ip (first ++ rest) fits')
        ∙ (step-found _ _ _ s rt way.route
            ∙ (step-found _ _ _ s out way.interface
                ∙ (step-lift _ _ s (encode_ip ip ++ first, rest) (quoted-split ip first rest h)
                    ∙ (step-found _ _ _ s entry way.resolved
                        ∙ step-action _ _ s (after_sending (eth ++ built) out.name s) true (
                            send_packet_own _ _ out.name s out
                              (record { dhost = way.mac; shost = way.addr; type' = omega arith })
                              way.by_name refl (taken _)))))))
    ∙ ap (λ body. some (tt, after_sending (eth ++ body) out.name s))
        (t3_body-icmp_error out.ip ip.ip_src type' code (encode_ip ip ++ first))

-- A whole IP packet of at least 28 bytes.
pub record IsWholePacket (e : EthernetHdr) (ip : IpHdr) (first : List ℕ) : Type 0 where
  pub eth_fits : EthFits e
  pub ip_fits : IpFits ip
  pub is_ip : ntohs e.ether_type ≡ ethertype_ip
  pub long : length first ≡ 8

module _ (now : ℕ) (e : EthernetHdr) (ip : IpHdr) (first rest interface : List ℕ) (s : Router)
    (rt : Rt) (out : If) (entry : ArpEntry) (q : IsWholePacket e ip first)
    (way : KnowsWay s ip.ip_src rt out entry) (taken : (m : List ℕ) → s.accepts m ≡ true) where
  forward_ip_packet-expires :
      ip.ip_ttl ≤ 1
      → forward_ip_packet now (packet_of e ip (first ++ rest)) s
        ≡ some (tt, after_sending (error_frame out entry ip 11 0 first) out.name s)
  unfolding forward_ip_packet
  forward_ip_packet-expires dead =
      step-lift _ _ s (e, encode_ip ip ++ (first ++ rest))
        (decode-encode_eth e (encode_ip ip ++ (first ++ rest)) q.eth_fits)
      ∙ (step-lift _ _ s (ip, first ++ rest) (decode-encode_ip ip (first ++ rest) q.ip_fits)
          ∙ (step-then (leb ip.ip_ttl 1) _ _ s (ground (arith, dead))
              ∙ send_icmp_t3-sends now e ip 11 0 first rest s rt out entry q.eth_fits q.ip_fits
                  q.long way taken))

  -- A packet for elsewhere, of any version and checksum, with a time to live of 0 or 1, whose IP header is followed by at least 8
  -- bytes, is not forwarded: if the router knows the way to its source and the socket takes every
  -- message, one message leaves for the source, an ICMP error of type 11 and code 0 from the address of
  -- that interface, that quotes the header and these 8 bytes.
  pub handlepacket-expires :
      get_interface_by_ip ip.ip_dst s.if_list ≡ none
      → ip.ip_ttl ≤ 1
      → handlepacket now (packet_of e ip (first ++ rest)) interface s
        ≡ some (tt, after_sending (error_frame out entry ip 11 0 first) out.name s)
  handlepacket-expires not_ours dead =
      handlepacket-ip now e ip (first ++ rest) interface s q.eth_fits q.ip_fits q.is_ip
      ∙ (step-null _ _ _ s not_ours ∙ forward_ip_packet-expires dead)

  deliver-refuses :
      (ip.ip_p == ip_protocol_icmp) ≡ false
      → deliver now ip (first ++ rest) (packet_of e ip (first ++ rest)) interface s
        ≡ some (tt, after_sending (error_frame out entry ip 3 3 first) out.name s)
  unfolding deliver
  deliver-refuses other =
      step-else (ip.ip_p == ip_protocol_icmp) _ _ s other
      ∙ send_icmp_t3-sends now e ip 3 3 first rest s rt out entry q.eth_fits q.ip_fits q.long way
          taken

  -- A packet for an address of the router, of any protocol but ICMP, whose IP header is followed by at least
  -- 8 bytes, is answered, if the router knows the way to its source and the socket takes every
  -- message: one message leaves for the source, an ICMP error of type 3 and code 3 that quotes the
  -- header and these 8 bytes.
  pub handlepacket-refuses :
      (owner : If)
      → get_interface_by_ip ip.ip_dst s.if_list ≡ some owner
      → (ip.ip_p == ip_protocol_icmp) ≡ false
      → handlepacket now (packet_of e ip (first ++ rest)) interface s
        ≡ some (tt, after_sending (error_frame out entry ip 3 3 first) out.name s)
  handlepacket-refuses owner ours other =
      handlepacket-ip now e ip (first ++ rest) interface s q.eth_fits q.ip_fits q.is_ip
      ∙ (step-found _ _ _ s owner ours ∙ deliver-refuses other)
