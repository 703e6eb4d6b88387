-- ===== src/Router/Returns/Frames.antt =====
-- From the handlers of IP packets to `sr_handlepacket`.
use computer_networking.Base.{
  ℕ, ◌*◌, ◌-◌, ◌≤◌, ◌≡◌, refl, some, List, [], ◌∷◌, arith, length, ltb→ge, ltb, leb, ntohs, ==→eq,
  ◌==◌,
}
use computer_networking.Proto.{
  EthernetHdr, IpHdr, decode_eth, decode_ip, ethertype_ip, ethertype_arp, ip_protocol_icmp,
}
use computer_networking.Proto.RoundTrip.{decode_eth_total, decode_ip_total, decode_icmp_total}
use computer_networking.State.{If}
use computer_networking.Exec.Runs.{
  Runs, Any, Runs-pure, Runs-if, Runs-if_null, Runs-gets, Runs-lift,
}
use computer_networking.Interface.{get_interface}
use computer_networking.Interface.Laws.{get_interface-All}
use computer_networking.Router.Icmp.{echo_ip, send_icmp_echo_reply, next_hop}
use computer_networking.Router.Forward.{route_packet, forward_on, forward_ip_packet}
use computer_networking.Router.{deliver, dispatch, handle_ip_packet, handlepacket}
use computer_networking.Router.Returns.{AddrsFit, IsReady, send-Runs, handle_arp_packet-Runs}
use computer_networking.Router.Returns.Ip.{
  frame_long, refresh_checksum_total, enqueue-Runs, send_icmp_t3-Runs,
}

-- What the handlers need of an IP packet: an ICMP error can quote it, and its header's length
-- stays inside it.
pub record IsWhole (packet : List ℕ) : Type 0 where
  pub quoted : 42 ≤ length packet
  pub header :
      (e : EthernetHdr) (p : List ℕ) (ip : IpHdr) (payload : List ℕ)
      → decode_eth packet ≡ some (e, p)
      → decode_ip p ≡ some (ip, payload)
      → ip.ip_hl * 4 ≤ length p

module _ (ifs : List If) where
  send_icmp_echo_reply-Runs :
      (packet interface : List ℕ) (i : If)
      → get_interface interface ifs ≡ some i
      → IsWhole packet
      → Runs (IsReady ifs) Any (send_icmp_echo_reply packet interface)
  unfolding send_icmp_echo_reply
  send_icmp_echo_reply-Runs packet interface i known w =
      let (e, p, d, l, _, _) = decode_eth_total packet (omega (arith, w.quoted)) in
      let (ip, r, d', l') = decode_ip_total p (omega (arith, l, w.quoted)) in
      let (h, z, d'', _) = decode_icmp_total r (omega (arith, l, l', w.quoted)) in
      let (sum, fresh) =
        refresh_checksum_total (echo_ip ip) r (omega (arith, l', w.header e p ip r d d')) in
      Runs-lift _ _ (e, p) d
        (Runs-lift _ _ (ip, r) d'
          (Runs-gets _ _ λ s v.
            Runs-if_null _ _ _ (λ n. absurd (ground (arith, v.same_ifs, known)))
              λ _ _.
                Runs-lift _ _ (record (echo_ip ip) { ip_sum = sum }) fresh
                  (Runs-lift _ _ (h, z) d'' (send-Runs ifs _ interface))))

  route_packet-Runs :
      (now : ℕ) (eth : EthernetHdr) (ip : IpHdr) (payload : List ℕ)
      → AddrsFit ifs
      → length eth.ether_dhost ≡ 6
      → length eth.ether_shost ≡ 6
      → 8 ≤ length payload
      → Runs (IsReady ifs) Any (route_packet now eth ip payload)
  unfolding route_packet
  route_packet-Runs now eth ip payload fit dh sh long = Runs-gets _ _ λ _ _.
      Runs-if_null _ _ _
        (λ _. send_icmp_t3-Runs ifs now _ 3 0 fit (frame_long eth ip payload dh sh long))
        λ rt _. Runs-gets _ _ λ s v.
          Runs-if_null _ _ _ (λ _. Runs-pure tt)
            λ i found.
              let known : get_interface rt.interface ifs ≡ some i = rw v.same_ifs at found in
              Runs-gets _ _ λ _ _.
                Runs-if_null _ _ _
                  (λ _. enqueue-Runs ifs now (next_hop rt ip.ip_dst) _ rt.interface i known (
                    frame_long _ ip payload dh (get_interface-All _ rt.interface ifs i known fit)
                      long))
                  (λ x _. send-Runs ifs _ i.name)

  forward_ip_packet-Runs :
      (now : ℕ) (packet : List ℕ)
      → AddrsFit ifs
      → IsWhole packet
      → Runs (IsReady ifs) Any (forward_ip_packet now packet)
  unfolding forward_ip_packet forward_on
  forward_ip_packet-Runs now packet fit w =
      let (e, p, d, l, dh, sh) = decode_eth_total packet (omega (arith, w.quoted)) in
      let (ip, r, d', l') = decode_ip_total p (omega (arith, l, w.quoted)) in
      let (sum, fresh) =
        refresh_checksum_total (record ip { ip_ttl = ip.ip_ttl - 1 }) r
          (omega (arith, l', w.header e p ip r d d')) in
      Runs-lift _ _ (e, p) d
        (Runs-lift _ _ (ip, r) d'
          (Runs-if (leb ip.ip_ttl 1) _ _ (λ _. send_icmp_t3-Runs ifs now packet 11 0 fit w.quoted)
            (λ _.
              Runs-lift _ _ (record ip { ip_ttl = ip.ip_ttl - 1; ip_sum = sum }) fresh
                (route_packet-Runs now e _ r fit dh sh (omega (arith, l, l', w.quoted))))))

  deliver-Runs :
      (now : ℕ) (ip : IpHdr) (payload packet interface : List ℕ) (i : If)
      → AddrsFit ifs
      → get_interface interface ifs ≡ some i
      → IsWhole packet
      → 1 ≤ length payload
      → Runs (IsReady ifs) Any (deliver now ip payload packet interface)
  unfolding deliver
  deliver-Runs now ip [] packet interface i fit known w h = absurd (omega arith)
  deliver-Runs now ip (t ∷ r) packet interface i fit known w h =
      Runs-if (ip.ip_p == ip_protocol_icmp) _ _
        (λ _.
          Runs-lift _ _ (t, r) refl
            (Runs-if (t == 8) _ _ (λ _. send_icmp_echo_reply-Runs packet interface i known w)
              (λ _. Runs-pure tt)))
        (λ _. send_icmp_t3-Runs ifs now packet 3 3 fit w.quoted)

  handle_ip_packet-Runs :
      (now : ℕ) (packet interface : List ℕ) (i : If)
      → AddrsFit ifs
      → get_interface interface ifs ≡ some i
      → IsWhole packet
      → Runs (IsReady ifs) Any (handle_ip_packet now packet interface)
  unfolding handle_ip_packet
  handle_ip_packet-Runs now packet interface i fit known w =
      let (e, p, d, l, _, _) = decode_eth_total packet (omega (arith, w.quoted)) in
      let (ip, r, d', l') = decode_ip_total p (omega (arith, l, w.quoted)) in
      Runs-if (ltb (length packet) 34) _ _ (λ _. Runs-pure tt)
        λ _.
          Runs-lift _ _ (e, p) d
            (Runs-lift _ _ (ip, r) d'
              (Runs-gets _ _ λ _ _.
                Runs-if_null _ _ _ (λ _. forward_ip_packet-Runs now packet fit w)
                  λ x _.
                    deliver-Runs now ip r packet interface i fit known w
                      (omega (arith, l, l', w.quoted))))

  -- A frame on a known interface, whole if it claims to carry IP, is handled without undefined
  -- behaviour.
  pub handlepacket-Runs :
      (now : ℕ) (packet interface : List ℕ) (i : If)
      → AddrsFit ifs
      → get_interface interface ifs ≡ some i
      → ((e : EthernetHdr) (p : List ℕ)
          → decode_eth packet ≡ some (e, p)
          → ntohs e.ether_type ≡ ethertype_ip
          → IsWhole packet)
      → Runs (IsReady ifs) Any (handlepacket now packet interface)
  unfolding handlepacket dispatch
  handlepacket-Runs now packet interface i fit known w =
      Runs-if (ltb (length packet) 14) _ _ (λ _. Runs-pure tt)
        λ long.
          let (e, p, d, l, _, _) = decode_eth_total packet (ltb→ge (length packet) 14 long) in
          Runs-lift _ _ (e, p) d
            (Runs-if (ntohs e.ether_type == ethertype_arp) _ _
              (λ _. handle_arp_packet-Runs ifs now packet interface)
              λ _.
                Runs-if (ntohs e.ether_type == ethertype_ip) _ _
                  (λ ip.
                    handle_ip_packet-Runs now packet interface i fit known
                      (w e p d (==→eq (ntohs e.ether_type) ethertype_ip ip)))
                  (λ _. Runs-pure tt))
