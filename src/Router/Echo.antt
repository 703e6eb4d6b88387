-- ===== src/Router/Echo.antt =====
-- The answer to a ping.
use computer_networking.Base.{
  ℕ, ◌+◌, ◌*◌, ◌≤◌, ◌≡◌, refl, ◌∙◌, true, some, List, ◌∷◌, ◌++◌, ◌==◌, arith, length, ntohs,
}
use computer_networking.Proto.{
  EthernetHdr, IpHdr, encode_eth, encode_ip, ethertype_ip, ip_protocol_icmp,
}
use computer_networking.Proto.RoundTrip.{EthFits, IpFits, decode-encode_eth, decode-encode_ip}
use computer_networking.State.{If, Router}
use computer_networking.Exec.{pure}
use computer_networking.Exec.Steps.{step-action, step-lift, step-found, step-then}
use computer_networking.Interface.{get_interface, get_interface_by_ip}
use computer_networking.Wire.Delivery.{after_sending, send_packet_own}
use computer_networking.Proto.{decode_icmp, encode_icmp}
use computer_networking.Router.Icmp.{echo_ip, echo_icmp, send_icmp_echo_reply}
use computer_networking.Router.{deliver, handlepacket}
use computer_networking.Router.Entry.{handlepacket-ip}
use computer_networking.Router.Messages.{echo_answer, fresh_sum, refresh_checksum-fresh}

-- The ICMP part of a ping: its type is 8, and its code and checksum are any bytes.
abbrev pub echo_request : ℕ → ℕ → ℕ → List ℕ → List ℕ
echo_request code a b rest = 8 ∷ code ∷ a ∷ b ∷ rest

-- A ping for an address of the router, with a header length inside it, that came by the interface.
pub record IsPing (s : Router) (e : EthernetHdr) (ip : IpHdr) (rest interface : List ℕ) (i : If)
    : Type 0 where
  pub owner : If
  pub ours : get_interface_by_ip ip.ip_dst s.if_list ≡ some owner
  pub came_by : get_interface interface s.if_list ≡ some i
  pub eth_fits : EthFits e
  pub ip_fits : IpFits ip
  pub is_ip : ntohs e.ether_type ≡ ethertype_ip
  pub is_icmp : ip.ip_p ≡ ip_protocol_icmp
  pub header : ip.ip_hl * 4 ≤ length rest + 24
  pub addr : length i.addr ≡ 6

-- The IP header of the reply: the addresses change places, and the time to live is 64.
abbrev pub answered : IpHdr → ℕ → IpHdr
answered ip sum = record ip { ip_src = ip.ip_dst; ip_dst = ip.ip_src; ip_ttl = 64; ip_sum = sum }

-- The reply, with the checksum of its IP header.
abbrev pub reply : If → EthernetHdr → IpHdr → ℕ → List ℕ → List ℕ
reply i e ip sum rest =
    encode_eth (record e { ether_dhost = e.ether_shost; ether_shost = i.addr })
    ++ (encode_ip (answered ip sum) ++ echo_answer rest)

-- A ping of any IP version and checksum for an address of the router, that came by an interface with a six-byte address, with a
-- header length inside it, is answered by one message by that interface, if the socket takes every
-- message: link and IP addresses change places, with the interface's own as the source, the time to
-- live is 64, both checksums are fresh, and what follows the ICMP header is as it came.
pub handlepacket-echoes :
    (now : ℕ) (e : EthernetHdr) (ip : IpHdr) (code a b : ℕ) (rest interface : List ℕ) (s : Router)
    (i : If)
    → IsPing s e ip rest interface i
    → ((m : List ℕ) → s.accepts m ≡ true)
    → (sum : ℕ) × (sum ≡ fresh_sum (answered ip 0) (echo_request code a b rest))
      × (handlepacket now (encode_eth e ++ (encode_ip ip ++ echo_request code a b rest)) interface s
          ≡ some (tt, after_sending (reply i e ip sum rest) interface s))
unfolding deliver send_icmp_echo_reply decode_icmp pure echo_icmp encode_icmp
handlepacket-echoes now e ip code a b rest interface s i q taken =
    let payload = echo_request code a b rest in
    let p = encode_ip ip ++ payload in
    let d = decode-encode_eth e p q.eth_fits in
    let d' = decode-encode_ip ip payload q.ip_fits in
    let sum = fresh_sum (answered ip 0) payload in
    let fresh = refresh_checksum-fresh (echo_ip ip) payload (omega (arith, q.header)) in
    (
      sum,
      refl,
      handlepacket-ip now e ip payload interface s q.eth_fits q.ip_fits q.is_ip
          ∙ (step-found _ _ _ s q.owner q.ours
              ∙ (step-then (ip.ip_p == ip_protocol_icmp) _ _ s (ground (arith, q.is_icmp))
                  ∙ (step-lift _ _ s (8, code ∷ a ∷ b ∷ rest) refl
                      ∙ (step-lift _ _ s (e, p) d
                          ∙ (step-lift _ _ s (ip, payload) d'
                              ∙ (step-found _ _ _ s i q.came_by
                                  ∙ (step-lift _ _ s _ fresh
                                      ∙ (step-lift _ _ s _ refl
                                          ∙ step-action _ _ s
                                              (after_sending (reply i e ip sum rest) interface s)
                                              true
                                              (send_packet_own _ _ interface s i
                                                (record {
                                                  dhost = q.eth_fits.shost;
                                                  shost = q.addr;
                                                  type' = q.eth_fits.type';
                                                })
                                                q.came_by refl (taken _)))))))))),
    )
