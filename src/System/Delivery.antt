-- ===== src/System/Delivery.antt =====
-- A packet for a next hop that the router does not know, from its arrival until it leaves.
use mathlib.Core.List.{append_assoc}
use computer_networking.Base.{
  ℕ, ◌-◌, ◌≤◌, ◌≡◌, ap, sym, ◌∙◌, true, none, some, List, [], ◌∷◌, ◌++◌, arith, length, ◌==◌, ntohs,
  take-all,
}
use computer_networking.Proto.{
  EthernetHdr, ArpHdr, IpHdr, encode_eth, encode_arp, encode_ip, ethertype_arp, arp_op_request,
  arp_op_reply, iface_namelen,
}
use computer_networking.Proto.RoundTrip.{EthFits, ArpFits, decode-encode_eth}
use computer_networking.State.{If, Rt, Router, ArpReq, strncpy}
use computer_networking.Exec.{pure}
use computer_networking.Exec.Steps.{step-action, step-then, step-else}
use computer_networking.Interface.{get_interface}
use computer_networking.ArpCache.{find_ip}
use computer_networking.ArpCache.Requests.{Inv}
use computer_networking.Wire.{packet_message}
use computer_networking.Wire.Safety.{wire-log_packet, if_list-log_packet, accepts-log_packet}
use computer_networking.Router.Arp.{arp_request_frame, handle_arp_op, handle_arp_answer}
use computer_networking.Router.Messages.{via, question, arp_request_frame-question, fresh_sum}
use computer_networking.Router.{handlepacket}
use computer_networking.Router.Entry.{handlepacket-arp}
use computer_networking.Router.Transit.{IsTransit, forwarded, outgoing}
use computer_networking.Router.Queueing.{MustAsk, first_request, after_asking, handlepacket-queues}
use computer_networking.Router.Releasing.{released, released_lem, handle_arp_answer-releases}
use computer_networking.Router.Returns.{AddrsFit, IsReady}
use computer_networking.Router.Returns.Ip.{frame_long}
use computer_networking.System.{receives, handle, run}

-- A reply of the host.
pub record IsReply (e : EthernetHdr) (a : ArpHdr) (hop : ℕ) : Type 0 where
  pub eth_fits : EthFits e
  pub arp_fits : ArpFits a
  pub is_arp : ntohs e.ether_type ≡ ethertype_arp
  pub replies : ntohs a.ar_op ≡ arp_op_reply
  pub from_hop : a.ar_sip ≡ hop

-- An ARP reply is handled as an answer.
handlepacket-reply :
    (now : ℕ) (e : EthernetHdr) (a : ArpHdr) (r interface : List ℕ) (hop : ℕ) (s : Router)
    → IsReply e a hop
    → handlepacket now (encode_eth e ++ (encode_arp a ++ r)) interface s ≡ handle_arp_answer now a s
unfolding handle_arp_op
handlepacket-reply now e a r interface hop s q =
    handlepacket-arp now e a r interface s q.eth_fits q.arp_fits q.is_arp
    ∙ step-else (ntohs a.ar_op == arp_op_request) _ _ s (ground (arith, q.replies))
    ∙ step-then (ntohs a.ar_op == arp_op_reply) _ _ s (ground (arith, q.replies))

find_ip-head : (r : ArpReq) (rs : List ArpReq) → find_ip r.ip (r ∷ rs) ≡ some r
unfolding find_ip
find_ip-head r rs = ground arith

run-two :
    (now later : ℕ) (packet interface reply interface' : List ℕ) (s s' t : Router)
    → handlepacket now packet interface s ≡ some (tt, s')
    → handlepacket later reply interface' s' ≡ some (tt, t)
    → run (receives now packet interface ∷ receives later reply interface' ∷ []) s ≡ some (tt, t)
unfolding run handle pure
run-two now later packet interface reply interface' s s' t e e' =
    step-action (handlepacket now packet interface) _ s s' tt e
    ∙ step-action (handlepacket later reply interface') _ s' t tt e'

-- The state in which the packet waits is ready for the reply.
module _ (ifs : List If) (now hop : ℕ) (frame : List ℕ) (out : If) (s : Router) where
  after_asking-IsReady :
      IsReady ifs s
      → get_interface out.name s.if_list ≡ some out
      → length out.name ≤ iface_namelen
      → 42 ≤ length frame
      → IsReady ifs (after_asking now hop frame out s)
  after_asking-IsReady ready known short long = record {
    same_ifs = rw if_list-log_packet ready.same_ifs;
    waiting = (
      (
        record {
          out = out;
          known =
              rw (take-all iface_namelen out.name short)
                (ap (get_interface out.name) (sym ready.same_ifs) ∙ known);
          long = long;
        },
        tt,
      ),
      ready.waiting,
    );
  }

  after_asking-Inv :
      Inv s.cache
      → find_ip hop s.cache.requests ≡ none
      → Inv (after_asking now hop frame out s).cache
  after_asking-Inv inv new = record {
    slots = inv.slots;
    nodes = (omega arith, inv.nodes);
    one_per_ip = (new, inv.one_per_ip);
    few_sent = (omega arith, inv.few_sent);
  }

module _ (ifs : List If) (now later : ℕ) (eth : EthernetHdr) (ip : IpHdr)
    (payload interface : List ℕ) (e : EthernetHdr) (a : ArpHdr) (r interface' : List ℕ) (s : Router)
    (rt : Rt) (out : If) (fit : AddrsFit ifs) (ready : IsReady ifs s) (inv : Inv s.cache)
    (takes : (frame : List ℕ) → s.accepts frame ≡ true) (t : IsTransit s eth ip payload)
    (way : MustAsk s ip.ip_dst rt out) (long : 8 ≤ length payload)
    (short : length out.name ≤ iface_namelen) (reply : IsReply e a (via rt ip.ip_dst)) where
  abbrev hop : ℕ
  hop = via rt ip.ip_dst

  abbrev asking : List ℕ
  asking = packet_message (arp_request_frame out hop) out.name

  -- The only packet that the reply releases.
  released-alone :
      (sent : IpHdr)
      → released a.ar_sha ifs (record {
        buf = outgoing out eth.ether_dhost sent payload;
        iface = strncpy iface_namelen out.name;
      })
        ≡ packet_message (outgoing out a.ar_sha sent payload) out.name
  released-alone sent =
      let buf = outgoing out eth.ether_dhost sent payload in
      ap (λ name. released a.ar_sha ifs (record { buf = buf; iface = name }))
        (take-all iface_namelen out.name short)
      ∙ released_lem a.ar_sha ifs (record { buf = buf; iface = out.name }) out _
          (encode_ip sent ++ payload)
          (ap (get_interface out.name) (sym ready.same_ifs) ∙ way.by_name)
          (decode-encode_eth _ (encode_ip sent ++ payload)
            (record { dhost = t.eth_fits.dhost; shost = way.addr; type' = omega arith }))

  -- A packet for elsewhere, of any version and checksum, with a time to live above 1, a header length inside it and 8 bytes behind
  -- its header, arrives, and then a reply of its next hop; the router has six-byte addresses and a
  -- well-formed cache, its waiting packets have a known interface and 42 bytes, it knows route and
  -- interface, whose name fits its array, but not the hop's address, and has not asked for it, and
  -- its socket takes every message. Then the run of the two returns, and exactly two messages leave:
  -- the broadcast question for the next hop, and the packet for the link address of the reply, with
  -- a hop less and a fresh checksum. No request for the next hop is left.
  pub run-delivers :
      (sum : ℕ) × (sum ≡ fresh_sum (record ip { ip_ttl = ip.ip_ttl - 1 }) payload)
      × (u : Router) × (run
            (receives now (encode_eth eth ++ (encode_ip ip ++ payload)) interface
              ∷ receives later (encode_eth e ++ (encode_arp a ++ r)) interface'
              ∷ [])
            s
          ≡ some (tt, u))
      × (u.wire
          ≡ s.wire
            ++ packet_message (question out hop) out.name
              ∷ packet_message (outgoing out a.ar_sha (forwarded ip sum) payload) out.name
              ∷ [])
      × (find_ip hop u.cache.requests ≡ none)
  run-delivers =
      let (sum, fresh, first) =
        handlepacket-queues now eth ip payload interface s rt out t way long takes in
      let frame = outgoing out eth.ether_dhost (forwarded ip sum) payload in
      let s' = after_asking now hop frame out s in
      let ready' =
        after_asking-IsReady ifs now hop frame out s ready way.by_name short
          (frame_long _ _ payload t.eth_fits.dhost way.addr long) in
      let (u, second, wire, settled) =
        handle_arp_answer-releases ifs later a s'
          (first_request s.cache.next_node now hop frame out.name) fit reply.arp_fits.sha ready'
          (after_asking-Inv ifs now hop frame out s inv way.unasked)
          (λ f. rw accepts-log_packet (takes f))
          (rw reply.from_hop (
            find_ip-head (first_request s.cache.next_node now hop frame out.name)
              s.cache.requests)) in
      (
        sum,
        fresh,
        u,
        run-two now later _ interface _ interface' s s' u first
            (handlepacket-reply later e a r interface' hop s' reply ∙ second),
        wire
            ∙ ap
                (λ l.
                  (l ++ asking ∷ [])
                  ++ released a.ar_sha ifs
                      (record { buf = frame; iface = strncpy iface_namelen out.name })
                    ∷ [])
                (wire-log_packet (arp_request_frame out hop) s)
            ∙ append_assoc s.wire (asking ∷ []) _
            ∙ ap (λ x. s.wire ++ asking ∷ x ∷ []) (released-alone (forwarded ip sum))
            ∙ ap
                (λ x.
                  s.wire
                  ++ packet_message x out.name
                    ∷ packet_message (outgoing out a.ar_sha (forwarded ip sum) payload) out.name
                    ∷ [])
                (arp_request_frame-question out hop),
        ap (λ i. find_ip i u.cache.requests) (sym reply.from_hop) ∙ settled,
      )
