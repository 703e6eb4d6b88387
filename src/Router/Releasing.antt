-- ===== src/Router/Releasing.antt =====
-- What an ARP reply releases: the packets that waited for the address.
use mathlib.Core.Path.{subst}
use mathlib.Core.List.{append_assoc, append-nil}
use computer_networking.Base.{
  ℕ, ◌≡◌, refl, ap, sym, ◌∙◌, true, none, some, List, [], ◌∷◌, ◌++◌, map, All, arith, length, htons,
}
use computer_networking.Proto.{EthernetHdr, ArpHdr, encode_eth, decode_eth, ethertype_ip}
use computer_networking.Proto.RoundTrip.{decode_eth_total}
use computer_networking.State.{If, Router, Packet, ArpReq, ArpCache}
use computer_networking.Exec.{pure, modify, if_null}
use computer_networking.Exec.Steps.{step-action, step-lift, step-found}
use computer_networking.Interface.{get_interface}
use computer_networking.Interface.Laws.{get_interface-All}
use computer_networking.ArpCache.{insert, find_ip, unlink_ip, destroy}
use computer_networking.ArpCache.Requests.{Inv, find_ip-unlinked, find_ip-unlink_node}
use computer_networking.ArpCache.Waiting.{insert-Waiting, Released}
use computer_networking.Wire.{packet_message}
use computer_networking.Wire.Safety.{
  wire-log_packet, cache-log_packet, if_list-log_packet, accepts-log_packet,
}
use computer_networking.Wire.Delivery.{after_sending, send_packet_own}
use computer_networking.Router.Arp.{
  arpcache_insert, arpreq_destroy, send_waiting_packet, send_waiting, handle_arp_answer,
}
use computer_networking.Router.Returns.{AddrsFit, IsReady, IsQuotable}

-- The message that a waiting packet leaves as: for the link address, from the interface that it
-- waited for.
unfoldable pub released : List ℕ → List If → Packet → List ℕ
released sha ifs pkt = elim (get_interface pkt.iface ifs) [
  | none ↦ []
  | some out ↦ elim (decode_eth pkt.buf) [
    | none ↦ []
    | some (_, payload) ↦
        packet_message
          (encode_eth (record {
            ether_dhost = sha;
            ether_shost = out.addr;
            ether_type = htons ethertype_ip;
          })
            ++ payload)
          pkt.iface
  ]
]

pub released_lem :
    (sha : List ℕ) (ifs : List If) (pkt : Packet) (out : If) (e : EthernetHdr) (p : List ℕ)
    → get_interface pkt.iface ifs ≡ some out
    → decode_eth pkt.buf ≡ some (e, p)
    → released sha ifs pkt
      ≡ packet_message
          (encode_eth (record {
            ether_dhost = sha;
            ether_shost = out.addr;
            ether_type = htons ethertype_ip;
          })
            ++ p)
          pkt.iface
unfolding released
released_lem sha ifs pkt out e p known d = rw (known, released, d) refl

-- The interfaces are these, and the socket takes every message.
pub record Serves (ifs : List If) (s : Router) : Type 0 where
  pub same_ifs : s.if_list ≡ ifs
  pub takes : (frame : List ℕ) → s.accepts frame ≡ true

module _ (ifs : List If) (fit : AddrsFit ifs) (sha : List ℕ) (six : length sha ≡ 6) where
  after_sending-Serves :
      (buf iface : List ℕ) (s : Router) → Serves ifs s → Serves ifs (after_sending buf iface s)
  after_sending-Serves buf iface s v = record {
    same_ifs = rw if_list-log_packet v.same_ifs;
    takes = λ frame. rw accepts-log_packet (v.takes frame);
  }

  send_waiting_packet-sends :
      (pkt : Packet) (s : Router)
      → IsQuotable ifs pkt
      → Serves ifs s
      → (buf : List ℕ) × (released sha ifs pkt ≡ packet_message buf pkt.iface)
        × (send_waiting_packet sha pkt s ≡ some (tt, after_sending buf pkt.iface s))
  unfolding send_waiting_packet pure
  send_waiting_packet-sends pkt s q v =
      let (e, p, d, _, _, _) = decode_eth_total pkt.buf (omega (arith, q.long)) in
      let known : get_interface pkt.iface s.if_list ≡ some q.out =
        ap (get_interface pkt.iface) v.same_ifs ∙ q.known in
      let buf =
        encode_eth
          (record { ether_dhost = sha; ether_shost = q.out.addr; ether_type = htons ethertype_ip })
        ++ p in
      (
        buf,
        released_lem sha ifs pkt q.out e p q.known d,
        step-found _ _ _ s q.out known
            ∙ step-lift _ _ s (e, p) d
            ∙ step-action _ _ s (after_sending buf pkt.iface s) true (
                send_packet_own _ p pkt.iface s q.out
                  (record {
                    dhost = six;
                    shost = get_interface-All _ pkt.iface ifs q.out q.known fit;
                    type' = omega arith;
                  })
                  known refl (v.takes _)),
      )

  send_waiting-sends :
      (pkts : List Packet) (s : Router)
      → All (IsQuotable ifs) pkts
      → Serves ifs s
      → (t : Router) × (send_waiting sha pkts s ≡ some (tt, t))
        × (t.wire ≡ s.wire ++ map (released sha ifs) pkts)
        × (t.cache ≡ s.cache)
  unfolding send_waiting pure
  send_waiting-sends [] s q v = (s, refl, sym (append-nil s.wire), refl)
  send_waiting-sends (pkt ∷ pkts) s q v =
      let (buf, m, e) = send_waiting_packet-sends pkt s q.0 v in
      let s' = after_sending buf pkt.iface s in
      let (t, e', w, c) = send_waiting-sends pkts s' q.1 (after_sending-Serves buf pkt.iface s v) in
      (
        t,
        step-action _ _ s s' tt e ∙ e',
        w
            ∙ ap (λ l. (l ++ packet_message buf pkt.iface ∷ []) ++ map (released sha ifs) pkts)
                (wire-log_packet buf s)
            ∙ append_assoc s.wire (packet_message buf pkt.iface ∷ []) (map (released sha ifs) pkts)
            ∙ ap (λ x. s.wire ++ x ∷ map (released sha ifs) pkts) (sym m),
        c ∙ cache-log_packet buf s,
      )

unlink_ip-found : (ip : ℕ) (rs : List ArpReq) → (unlink_ip ip rs).0 ≡ find_ip ip rs
unfolding unlink_ip find_ip
unlink_ip-found ip [] = refl
unlink_ip-found ip (r ∷ rs) = ground (arith, unlink_ip-found ip rs)

insert-found :
    (now : ℕ) (mac : List ℕ) (ip : ℕ) (c : ArpCache)
    → (insert now mac ip c).0 ≡ find_ip ip c.requests
unfolding insert
insert-found now mac ip c = unlink_ip-found ip c.requests

insert-settled :
    (now : ℕ) (mac : List ℕ) (ip : ℕ) (c : ArpCache)
    → Inv c
    → find_ip ip (insert now mac ip c).1.requests ≡ none
unfolding insert
insert-settled now mac ip c v = find_ip-unlinked ip c.requests v.one_per_ip

pub handle_arp_answer-releases :
    (ifs : List If) (now : ℕ) (a : ArpHdr) (s : Router) (r : ArpReq)
    → AddrsFit ifs
    → length a.ar_sha ≡ 6
    → IsReady ifs s
    → Inv s.cache
    → ((frame : List ℕ) → s.accepts frame ≡ true)
    → find_ip a.ar_sip s.cache.requests ≡ some r
    → (t : Router) × (handle_arp_answer now a s ≡ some (tt, t))
      × (t.wire ≡ s.wire ++ map (released a.ar_sha ifs) r.packets)
      × (find_ip a.ar_sip t.cache.requests ≡ none)
unfolding handle_arp_answer arpcache_insert arpreq_destroy modify destroy if_null
handle_arp_answer-releases ifs now a s r fit six ready inv takes asked =
    let c = (insert now a.ar_sha a.ar_sip s.cache).1 in
    let s' : Router = record s { cache = c } in
    let found : (insert now a.ar_sha a.ar_sip s.cache).0 ≡ some r =
      insert-found now a.ar_sha a.ar_sip s.cache ∙ asked in
    let waiting : All (IsQuotable ifs) r.packets =
      subst (Released (IsQuotable ifs)) found
        (insert-Waiting (IsQuotable ifs) now a.ar_sha a.ar_sip s.cache ready.waiting).0 in
    let (t, e, w, same) =
      send_waiting-sends ifs fit a.ar_sha six r.packets s' waiting
        (record { same_ifs = ready.same_ifs; takes = takes }) in
    (
      record t { cache = destroy r t.cache },
      step-action (arpcache_insert now a.ar_sha a.ar_sip) _ s s' (some r)
            (ap (λ o. some (o, s')) found)
          ∙ step-action _ _ s' t tt e,
      w,
      find_ip-unlink_node a.ar_sip r.node t.cache.requests
          (rw same (insert-settled now a.ar_sha a.ar_sip s.cache inv)),
    )
