-- ===== src/Retry/GivingUp.antt =====
-- What the timer sends when it gives a request up.
use computer_networking.Base.{ℕ, ◌≡◌, some, List, [], ◌∷◌, ◌++◌, length, ◌==◌, if◌then◌else◌, htons}
use computer_networking.Proto.{EthernetHdr, IpHdr, encode_eth, encode_ip, ethertype_ip}
use computer_networking.Proto.RoundTrip.{EthFits, IpFits}
use computer_networking.State.{If, Rt, ArpEntry, ArpReq, Packet, Router}
use computer_networking.Interface.{get_interface}
use computer_networking.Wire.{packet_message}
use computer_networking.Router.Entry.{packet_of}
use computer_networking.Checksum.{cksum}
use computer_networking.Router.Messages.{icmp_error}
use computer_networking.Router.Transit.{KnowsWay}

-- The error for one packet: from the address of the interface that the packet waited for.
abbrev pub unreachable_frame : If → If → ArpEntry → IpHdr → List ℕ → List ℕ
unreachable_frame waited out e ip first =
    encode_eth
      (record { ether_dhost = e.mac; ether_shost = out.addr; ether_type = htons ethertype_ip })
    ++ icmp_error cksum waited.ip ip.ip_src 3 1 (encode_ip ip ++ first)

-- A waiting packet, and the message that tells its source that it was given up.
pub record IsTold (s : Router) (pkt : Packet) (message : List ℕ) : Type 0 where
  pub eth : EthernetHdr
  pub ip : IpHdr
  pub first : List ℕ
  pub rest : List ℕ
  pub waited : If
  pub rt : Rt
  pub out : If
  pub entry : ArpEntry
  pub frame : pkt.buf ≡ packet_of eth ip (first ++ rest)
  pub eth_fits : EthFits eth
  pub ip_fits : IpFits ip
  pub long : length first ≡ 8
  pub known : get_interface pkt.iface s.if_list ≡ some waited
  pub way : KnowsWay s ip.ip_src rt out entry
  pub error : message ≡ packet_message (unreachable_frame waited out entry ip first) out.name

abbrev pub AreTold : Router → List Packet → List (List ℕ) → Type 0
AreTold s [] [] = Unit {0}
AreTold s (pkt ∷ pkts) (m ∷ ms) = IsTold s pkt m × AreTold s pkts ms
AreTold s _ _ = ⊥

-- The requests of all other nodes.
abbrev pub without : ℕ → List ArpReq → List ArpReq
without node [] = []
without node (r ∷ rs) = if r.node == node then without node rs else r ∷ without node rs
