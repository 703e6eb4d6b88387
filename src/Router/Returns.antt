-- ===== src/Router/Returns.antt =====
-- The handlers have no undefined behaviour on frames of the usual size: no access outside a
-- buffer, no null pointer that is read.
pub mod Ip
pub mod Frames
use mathlib.Core.Path.{subst}
use computer_networking.Base.{
  ℕ, ◌+◌, ◌*◌, ◌-◌, ◌≤◌, ◌<◌, ◌≡◌, refl, sym, inl, inr, Bool, Option, none, some, List, [], ◌∷◌,
  ◌++◌, All, arith, length, length-append, replicate, split_at?, split_at?_total, htons, ltb→ge,
  ltb, ntohs, ==→eq, ◌==◌,
}
use computer_networking.Proto.{
  EthernetHdr, ArpHdr, IpHdr, arp_op_request, arp_op_reply, decode_eth, encode_eth, decode_ip,
  encode_ip, encode_icmp_t3, decode_arp, ethertype_ip, icmp_data_size, iface_namelen,
}
use computer_networking.Proto.RoundTrip.{
  decode_eth_total, decode_ip_total, decode_icmp_total, decode_arp_total, length-encode_ip,
  length-encode_eth,
}
use computer_networking.State.{If, Router, Packet, ArpReq, strncpy}
use computer_networking.Exec.{pure, modify, ◌>>=◌}
use computer_networking.Exec.Runs.{
  Runs, Any, Within, Runs-pure, Runs-if, Runs-if_null, Runs-bind, Runs-gets, Runs-lift,
}
use computer_networking.Interface.{get_interface}
use computer_networking.Interface.Laws.{get_interface_copy, get_interface-All}
use computer_networking.ArpCache.Waiting.{
  Waiting, Released, insert-Waiting, destroy-Waiting, stamp-Waiting, queuereq-Waiting,
}
use computer_networking.Wire.{send_packet}
use computer_networking.Wire.Safety.{
  Sending, too_short, refused, sent, send_packet-Sending, if_list-log_packet, cache-log_packet,
}
use computer_networking.Router.Arp.{
  send_arp_request, send_arp_reply, send_waiting_packet, send_waiting, arpcache_insert,
  arpreq_destroy, handle_arp_request, handle_arp_answer, handle_arp_op, handle_arp_packet,
}
use computer_networking.Router.Icmp.{
  refresh_checksum, send_icmp_echo_reply, t3_body, t3_ip, t3_icmp, arpcache_queuereq, arpreq_stamp,
  enqueue, send_icmp_t3,
}
use computer_networking.Router.Forward.{route_packet, forward_ip_packet}
use computer_networking.Router.{handle_ip_packet, handlepacket}

-- A packet that waits: its interface exists, and an ICMP error can quote it.
pub record IsQuotable (ifs : List If) (pkt : Packet) : Type 0 where
  pub out : If
  pub known : get_interface pkt.iface ifs ≡ some out
  pub long : 42 ≤ length pkt.buf

abbrev pub AddrsFit : List If → Type 0
AddrsFit = All λ i. length i.addr ≡ 6

pub record IsReady (ifs : List If) (s : Router) : Type 0 where
  pub same_ifs : s.if_list ≡ ifs
  pub waiting : Waiting (IsQuotable ifs) s.cache.requests

module _ (ifs : List If) where
  Sending-IsReady :
      (buf iface : List ℕ) (s : Router) (r : Option (Bool × Router))
      → Sending buf iface s r
      → IsReady ifs s
      → Within (λ a t. Any a × IsReady ifs t) r
  Sending-IsReady buf iface s _ (too_short h) v = (tt, v)
  Sending-IsReady buf iface s _ refused v = (
    tt,
    record { same_ifs = rw if_list-log_packet v.same_ifs; waiting = rw cache-log_packet v.waiting },
  )
  Sending-IsReady buf iface s _ (sent m a) v = (
    tt,
    record { same_ifs = rw if_list-log_packet v.same_ifs; waiting = rw cache-log_packet v.waiting },
  )

  pub send_packet-Runs : (buf iface : List ℕ) → Runs (IsReady ifs) Any (send_packet buf iface)
  send_packet-Runs buf iface = record {
    at = λ s v. Sending-IsReady buf iface s _ (send_packet-Sending buf iface s) v;
  }

  -- Sending, with the result ignored.
  pub send-Runs :
      (buf iface : List ℕ) → Runs (IsReady ifs) Any (send_packet buf iface >>= λ _. pure tt)
  send-Runs buf iface = Runs-bind Any _ _ (send_packet-Runs buf iface) (λ _ _. Runs-pure tt)

  pub send_arp_request-Runs :
      (tip : ℕ) (interface : List ℕ) → Runs (IsReady ifs) Any (send_arp_request tip interface)
  unfolding send_arp_request
  send_arp_request-Runs tip interface =
      Runs-gets _ _ λ s v. Runs-if_null _ _ _ (λ _. Runs-pure tt) (λ i _. send-Runs _ interface)

  send_arp_reply-Runs :
      (packet interface : List ℕ)
      → 42 ≤ length packet
      → Runs (IsReady ifs) Any (send_arp_reply packet interface)
  unfolding send_arp_reply
  send_arp_reply-Runs packet interface h =
      let (e, p, d, l, _, _) = decode_eth_total packet (omega arith) in
      let (a, r, d', _) = decode_arp_total p (omega (arith, l)) in
      Runs-lift _ _ (e, p) d
        (Runs-lift _ _ (a, r) d'
          (Runs-gets _ _
            λ s v. Runs-if_null _ _ _ (λ _. Runs-pure tt) (λ i _. send-Runs _ interface)))

  send_waiting_packet-Runs :
      (sha : List ℕ) (pkt : Packet)
      → IsQuotable ifs pkt
      → Runs (IsReady ifs) Any (send_waiting_packet sha pkt)
  unfolding send_waiting_packet
  send_waiting_packet-Runs sha pkt q =
      let (e, p, d, _, _, _) = decode_eth_total pkt.buf (omega (arith, q.long)) in
      Runs-gets _ _ λ s v.
        Runs-if_null _ _ _ (λ n. absurd (ground (arith, v.same_ifs, q.known)))
          (λ i _. Runs-lift _ _ (e, p) d (send-Runs _ pkt.iface))

  send_waiting-Runs :
      (sha : List ℕ) (pkts : List Packet)
      → All (IsQuotable ifs) pkts
      → Runs (IsReady ifs) Any (send_waiting sha pkts)
  unfolding send_waiting
  send_waiting-Runs sha [] q = Runs-pure tt
  send_waiting-Runs sha (pkt ∷ pkts) q =
      Runs-bind Any _ _ (send_waiting_packet-Runs sha pkt q.0)
        (λ _ _. send_waiting-Runs sha pkts q.1)

  arpcache_insert-Runs :
      (now : ℕ) (mac : List ℕ) (ip : ℕ)
      → Runs (IsReady ifs) (Released (IsQuotable ifs)) (arpcache_insert now mac ip)
  unfolding arpcache_insert
  arpcache_insert-Runs now mac ip = record {
    at = λ s v.
        let (r, w) = insert-Waiting (IsQuotable ifs) now mac ip s.cache v.waiting in
        (r, record { same_ifs = v.same_ifs; waiting = w });
  }

  pub arpreq_destroy-Runs : (req : ArpReq) → Runs (IsReady ifs) Any (arpreq_destroy req)
  unfolding arpreq_destroy modify
  arpreq_destroy-Runs req = record {
    at = λ s v. (
      tt,
      record {
        same_ifs = v.same_ifs;
        waiting = destroy-Waiting (IsQuotable ifs) req s.cache v.waiting;
      },
    );
  }

  handle_arp_request-Runs :
      (a : ArpHdr) (packet interface : List ℕ)
      → 42 ≤ length packet
      → Runs (IsReady ifs) Any (handle_arp_request a packet interface)
  unfolding handle_arp_request
  handle_arp_request-Runs a packet interface h =
      Runs-gets _ _ λ s v.
        Runs-if_null _ _ _ (λ _. Runs-pure tt) (λ i _. send_arp_reply-Runs packet interface h)

  pub handle_arp_answer-Runs :
      (now : ℕ) (a : ArpHdr) → Runs (IsReady ifs) Any (handle_arp_answer now a)
  unfolding handle_arp_answer
  handle_arp_answer-Runs now a =
      Runs-bind (Released (IsQuotable ifs)) _ _ (arpcache_insert-Runs now a.ar_sha a.ar_sip)
        λ found q.
          Runs-if_null _ _ _ (λ _. Runs-pure tt)
            λ req f.
              Runs-bind Any _ _
                (send_waiting-Runs a.ar_sha req.packets (subst (Released (IsQuotable ifs)) f q))
                (λ _ _. arpreq_destroy-Runs req)

  handle_arp_op-Runs :
      (now : ℕ) (a : ArpHdr) (packet interface : List ℕ)
      → 42 ≤ length packet
      → Runs (IsReady ifs) Any (handle_arp_op now a packet interface)
  unfolding handle_arp_op
  handle_arp_op-Runs now a packet interface h =
      Runs-if (ntohs a.ar_op == arp_op_request) _ _
        (λ _. handle_arp_request-Runs a packet interface h)
        λ _.
          Runs-if (ntohs a.ar_op == arp_op_reply) (handle_arp_answer now a) (pure tt)
            (λ _. handle_arp_answer-Runs now a) (λ _. Runs-pure tt)

  pub handle_arp_packet-Runs :
      (now : ℕ) (packet interface : List ℕ)
      → Runs (IsReady ifs) Any (handle_arp_packet now packet interface)
  unfolding handle_arp_packet
  handle_arp_packet-Runs now packet interface =
      Runs-if (ltb (length packet) 42) _ _ (λ _. Runs-pure tt)
        λ long.
          let h = ltb→ge (length packet) 42 long in
          let (e, p, d, l, _, _) = decode_eth_total packet (omega (arith, h)) in
          let (a, r, d', _) = decode_arp_total p (omega (arith, l, h)) in
          Runs-lift _ _ (e, p) d
            (Runs-lift _ _ (a, r) d' (handle_arp_op-Runs now a packet interface h))
