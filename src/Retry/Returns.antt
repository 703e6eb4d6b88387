-- ===== src/Retry/Returns.antt =====
-- A round of the timer has no undefined behaviour.
use computer_networking.Base.{ℕ, ◌+◌, ◌-◌, List, [], ◌∷◌, All, arith, leb, split_at?_total, u32}
use computer_networking.Proto.{icmp_data_size}
use computer_networking.Proto.RoundTrip.{decode_eth_total, decode_ip_total}
use computer_networking.State.{If, Packet, ArpReq}
use computer_networking.Exec.{modify}
use computer_networking.Exec.Runs.{
  Runs, Any, Runs-pure, Runs-if, Runs-if_null, Runs-bind, Runs-gets, Runs-lift,
}
use computer_networking.ArpCache.{expire}
use computer_networking.Router.Returns.{IsQuotable, IsReady, send-Runs, arpreq_destroy-Runs}
use computer_networking.Router.Returns.Ip.{arpreq_stamp-Runs}
use computer_networking.Retry.{
  send_arp_request_for_req, unreachable_packet, send_icmp_host_unreachable, handle_arpreq,
  sweep_loop, sweepreqs, expire_entries, timeout_round,
}

module _ (ifs : List If) where
  pub send_arp_request_for_req-Runs :
      (req : ArpReq) → Runs (IsReady ifs) Any (send_arp_request_for_req req)
  unfolding send_arp_request_for_req
  send_arp_request_for_req-Runs req =
      Runs-if_null _ _ _ (λ _. Runs-pure tt)
        λ pkt _.
          Runs-gets _ _ λ _ _. Runs-if_null _ _ _ (λ _. Runs-pure tt) λ i _. send-Runs ifs _ i.name

  unreachable_packet-Runs :
      (pkt : Packet) → IsQuotable ifs pkt → Runs (IsReady ifs) Any (unreachable_packet pkt)
  unfolding unreachable_packet
  unreachable_packet-Runs pkt q =
      let (e, p, d, l, _, _) = decode_eth_total pkt.buf (omega (arith, q.long)) in
      let (ip, r, d', l') = decode_ip_total p (omega (arith, l, q.long)) in
      let (s, z, eq, _, _) = split_at?_total icmp_data_size p (omega (arith, l, q.long)) in
      Runs-gets _ _ λ _ _.
        Runs-if_null _ _ _ (λ _. Runs-pure tt)
          λ i _.
            Runs-lift _ _ (e, p) d
              (Runs-lift _ _ (ip, r) d'
                (Runs-lift _ _ (s, z) eq
                  (Runs-gets _ _ λ _ _.
                    Runs-if_null _ _ _ (λ _. Runs-pure tt)
                      λ rt _. Runs-gets _ _ λ _ _.
                        Runs-if_null _ _ _ (λ _. Runs-pure tt)
                          λ out _. Runs-gets _ _ λ _ _.
                            Runs-if_null _ _ _ (λ _. Runs-pure tt)
                              λ x _. send-Runs ifs _ out.name)))

  pub unreachable-Runs :
      (pkts : List Packet)
      → All (IsQuotable ifs) pkts
      → Runs (IsReady ifs) Any (send_icmp_host_unreachable pkts)
  unfolding send_icmp_host_unreachable
  unreachable-Runs [] q = Runs-pure tt
  unreachable-Runs (pkt ∷ pkts) q =
      Runs-bind Any _ _ (unreachable_packet-Runs pkt q.0) (λ _ _. unreachable-Runs pkts q.1)

  pub handle_arpreq-Runs :
      (now : ℕ) (req : ArpReq)
      → All (IsQuotable ifs) req.packets
      → Runs (IsReady ifs) Any (handle_arpreq now req)
  unfolding handle_arpreq
  handle_arpreq-Runs now req q =
      Runs-if (leb 1 (now - req.sent)) _ _
        (λ _.
          Runs-if (leb 5 req.times_sent) _ _
            (λ _.
              Runs-bind Any _ _ (unreachable-Runs req.packets q)
                (λ _ _. arpreq_destroy-Runs ifs req))
            (λ _.
              Runs-bind Any _ _ (send_arp_request_for_req-Runs req)
                (λ _ _. arpreq_stamp-Runs ifs now (u32 (req.times_sent + 1)) req)))
        (λ _. Runs-pure tt)

  sweep_loop-Runs :
      (now : ℕ) (reqs : List ArpReq)
      → All (λ r. All (IsQuotable ifs) r.packets) reqs
      → Runs (IsReady ifs) Any (sweep_loop now reqs)
  unfolding sweep_loop
  sweep_loop-Runs now [] q = Runs-pure tt
  sweep_loop-Runs now (req ∷ reqs) q =
      Runs-bind Any _ _ (handle_arpreq-Runs now req q.0) (λ _ _. sweep_loop-Runs now reqs q.1)

  pub expire_entries-Runs : (now : ℕ) → Runs (IsReady ifs) Any (expire_entries now)
  unfolding expire_entries modify expire
  expire_entries-Runs now = record {
    at = λ s v. (tt, record { same_ifs = v.same_ifs; waiting = v.waiting });
  }

  pub timeout_round-Runs : (now : ℕ) → Runs (IsReady ifs) Any (timeout_round now)
  unfolding timeout_round sweepreqs
  timeout_round-Runs now =
      Runs-bind Any _ _ (expire_entries-Runs now)
        λ _ _. Runs-gets _ _ λ s v. sweep_loop-Runs now s.cache.requests v.waiting
