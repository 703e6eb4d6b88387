-- ===== src/Wire/Delivery.antt =====
-- What sending a frame of one's own does.
use computer_networking.Base.{
  ℕ, ◌≡◌, refl, true, false, some, List, ◌++◌, arith, ltb, length, bytes_eq_refl,
}
use computer_networking.Proto.{EthernetHdr, encode_eth}
use computer_networking.Proto.RoundTrip.{EthFits, decode-encode_eth, length-encode_eth}
use computer_networking.State.{If, Router}
use computer_networking.Interface.{get_interface}
use computer_networking.Wire.{
  log_packet, write_message, packet_message, send_packet, ether_addrs_match_interface,
}
use computer_networking.Wire.Safety.{send_packet_frame}

own_address-match :
    (e : EthernetHdr) (name : List ℕ) (ifs : List If) (i : If)
    → get_interface name ifs ≡ some i
    → e.ether_shost ≡ i.addr
    → ether_addrs_match_interface e name ifs ≡ true
unfolding ether_addrs_match_interface
own_address-match e name ifs i f same =
    rw (f, ether_addrs_match_interface, same) (bytes_eq_refl i.addr)

-- What a frame of an interface of that name, from its own address, does: it is logged, and one
-- message goes on the wire if the socket takes it.
abbrev pub after_sending : List ℕ → List ℕ → Router → Router
after_sending buf iface s = write_message (packet_message buf iface) (log_packet buf s)

pub send_packet_own :
    (e : EthernetHdr) (p iface : List ℕ) (s : Router) (i : If)
    → EthFits e
    → get_interface iface s.if_list ≡ some i
    → e.ether_shost ≡ i.addr
    → s.accepts (packet_message (encode_eth e ++ p) iface) ≡ true
    → send_packet (encode_eth e ++ p) iface s
      ≡ some (true, after_sending (encode_eth e ++ p) iface s)
send_packet_own e p iface s i fits known own taken =
    let buf = encode_eth e ++ p in
    let long : ltb (length buf) 14 ≡ false =
      ground (arith, length-encode_eth e p fits.dhost fits.shost) in
    let ours : ether_addrs_match_interface e iface s.if_list ≡ true =
      own_address-match e iface s.if_list i known own in
    rw (send_packet_frame buf iface s e p long (decode-encode_eth e p fits), ours, taken) refl
