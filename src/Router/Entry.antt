-- ===== src/Router/Entry.antt =====
-- The way of a packet into its handler.
use mathlib.Core.List.{append_assoc}
use computer_networking.Base.{
  ℕ, ◌≤◌, length-append, ◌≡◌, ◌∙◌, List, ◌++◌, ◌==◌, arith, length, ltb, ntohs,
}
use computer_networking.Proto.{
  store32, EthernetHdr, IpHdr, ArpHdr, encode_eth, encode_ip, encode_arp, ethertype_ip,
  ethertype_arp,
}
use computer_networking.Proto.RoundTrip.{
  EthFits, IpFits, ArpFits, decode-encode_arp, decode-encode_eth, decode-encode_ip,
  length-encode_eth, length-encode_ip,
}
use computer_networking.State.{Router}
use computer_networking.Exec.{M, gets, if_null, ◌>>=◌}
use computer_networking.Exec.Steps.{step-lift, step-then, step-else}
use computer_networking.Interface.{get_interface_by_ip}
use computer_networking.Router.Arp.{handle_arp_packet, handle_arp_op}
use computer_networking.Router.Forward.{forward_ip_packet}
use computer_networking.Router.{deliver, dispatch, handle_ip_packet, handlepacket}

abbrev pub packet_of : EthernetHdr → IpHdr → List ℕ → List ℕ
packet_of e ip payload = encode_eth e ++ (encode_ip ip ++ payload)

-- For one of the router's addresses, or for elsewhere.
abbrev pub deliver_or_forward : ℕ → EthernetHdr → IpHdr → List ℕ → List ℕ → M (Unit {0})
deliver_or_forward now e ip payload interface =
    gets (λ s. get_interface_by_ip ip.ip_dst s.if_list) >>= λ iface.
    if_null iface (forward_ip_packet now (packet_of e ip payload))
      λ i. deliver now ip payload (packet_of e ip payload) interface

pub handlepacket-ip :
    (now : ℕ) (e : EthernetHdr) (ip : IpHdr) (payload interface : List ℕ) (s : Router)
    → EthFits e
    → IpFits ip
    → ntohs e.ether_type ≡ ethertype_ip
    → handlepacket now (packet_of e ip payload) interface s
      ≡ deliver_or_forward now e ip payload interface s
unfolding handlepacket dispatch handle_ip_packet
handlepacket-ip now e ip payload interface s fits fits' is_ip =
    let p = encode_ip ip ++ payload in
    let d = decode-encode_eth e p fits in
    let size = length-encode_eth e p fits.dhost fits.shost in
    let size' = length-encode_ip ip payload in
    step-else (ltb (length (encode_eth e ++ p)) 14) _ _ s (ground (arith, size))
    ∙ (step-lift _ _ s (e, p) d
        ∙ (step-else (ntohs e.ether_type == ethertype_arp) _ _ s (ground (arith, is_ip))
            ∙ (step-then (ntohs e.ether_type == ethertype_ip) _ _ s (ground (arith, is_ip))
                ∙ (step-else (ltb (length (encode_eth e ++ p)) 34) _ _ s
                      (ground (arith, size, size'))
                    ∙ (step-lift _ _ s (e, p) d
                        ∙ step-lift _ _ s (ip, payload) (decode-encode_ip ip payload fits'))))))

length-encode_arp : (a : ArpHdr) (r : List ℕ) → ArpFits a → 28 ≤ length (encode_arp a ++ r)
unfolding encode_arp
length-encode_arp a r f =
    rw (append_assoc a.ar_sha, append_assoc a.ar_tha)
      (omega (
        arith,
        length-append a.ar_sha (store32 a.ar_sip ++ (a.ar_tha ++ (store32 a.ar_tip ++ r))),
        length-append a.ar_tha (store32 a.ar_tip ++ r),
        f.sha,
        f.tha,
      ))

-- An ARP packet that is well formed is handled as its opcode says.
pub handlepacket-arp :
    (now : ℕ) (e : EthernetHdr) (a : ArpHdr) (r interface : List ℕ) (s : Router)
    → EthFits e
    → ArpFits a
    → ntohs e.ether_type ≡ ethertype_arp
    → handlepacket now (encode_eth e ++ (encode_arp a ++ r)) interface s
      ≡ handle_arp_op now a (encode_eth e ++ (encode_arp a ++ r)) interface s
unfolding handlepacket dispatch handle_arp_packet
handlepacket-arp now e a r interface s fits fits' is_arp =
    let p = encode_arp a ++ r in
    let d = decode-encode_eth e p fits in
    let size = length-encode_eth e p fits.dhost fits.shost in
    let size' = length-encode_arp a r fits' in
    step-else (ltb (length (encode_eth e ++ p)) 14) _ _ s (ground (arith, size))
    ∙ (step-lift _ _ s (e, p) d
        ∙ (step-then (ntohs e.ether_type == ethertype_arp) _ _ s (ground (arith, is_arp))
            ∙ (step-else (ltb (length (encode_eth e ++ p)) 42) _ _ s (ground (arith, size, size'))
                ∙ (step-lift _ _ s (e, p) d
                    ∙ step-lift _ _ s (a, r) (decode-encode_arp a r fits')))))
