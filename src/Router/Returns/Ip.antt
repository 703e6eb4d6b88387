-- ===== src/Router/Returns/Ip.antt =====
-- The handlers of IP packets have no undefined behaviour, if the header's length stays inside the
-- packet and an ICMP error can quote it.
use computer_networking.Base.{
  ℕ, ◌+◌, ◌*◌, ◌≤◌, ◌≡◌, refl, some, List, ◌++◌, arith, length, split_at?_total, htons, ◌==◌,
}
use computer_networking.Checksum.{ip_checksum}
use computer_networking.Proto.{
  EthernetHdr, IpHdr, encode_eth, encode_ip, encode_icmp_t3, icmp_data_size, iface_namelen,
}
use computer_networking.Proto.RoundTrip.{
  decode_eth_total, decode_ip_total, length-encode_ip, length-encode_eth,
}
use computer_networking.State.{If, ArpReq, strncpy}
use computer_networking.Exec.{modify}
use computer_networking.Exec.Runs.{
  Runs, Any, Runs-pure, Runs-if, Runs-if_null, Runs-bind, Runs-gets, Runs-lift,
}
use computer_networking.Interface.{get_interface}
use computer_networking.Interface.Laws.{get_interface_copy, get_interface-All}
use computer_networking.ArpCache.Waiting.{stamp-Waiting, queuereq-Waiting}
use computer_networking.Router.Icmp.{
  refresh_checksum, t3_body, arpcache_queuereq, arpreq_stamp, enqueue, send_icmp_t3,
}
use computer_networking.Router.Returns.{
  IsQuotable, AddrsFit, IsReady, send-Runs, send_arp_request-Runs,
}

-- A frame with an IP packet that is long enough stays long enough.
pub frame_long :
    (e : EthernetHdr) (h : IpHdr) (r : List ℕ)
    → length e.ether_dhost ≡ 6
    → length e.ether_shost ≡ 6
    → 8 ≤ length r
    → 42 ≤ length (encode_eth e ++ (encode_ip h ++ r))
frame_long e h r d s l =
    omega (arith, length-encode_eth e (encode_ip h ++ r) d s, length-encode_ip h r)

length-encode_icmp_t3 : (h : _) → 8 ≤ length (encode_icmp_t3 h)
unfolding encode_icmp_t3
length-encode_icmp_t3 h = omega arith

pub refresh_checksum_total :
    (ip : IpHdr) (payload : List ℕ)
    → ip.ip_hl * 4 ≤ length payload + 20
    → (sum : ℕ) × (refresh_checksum ip payload ≡ some (record ip { ip_sum = sum }))
unfolding refresh_checksum
refresh_checksum_total ip payload h =
    let cleared : IpHdr = record ip { ip_sum = 0 } in
    let (ys, zs, e, _, _) =
      split_at?_total (ip.ip_hl * 4) (encode_ip cleared ++ payload)
        (omega (arith, h, length-encode_ip cleared payload)) in
    (htons (ip_checksum ys), rw (e, refresh_checksum) refl)

module _ (ifs : List If) where
  pub arpcache_queuereq-Runs :
      (ip : ℕ) (packet name : List ℕ)
      → IsQuotable ifs (record { buf = packet; iface = strncpy iface_namelen name })
      → Runs (IsReady ifs) Any (arpcache_queuereq ip packet name)
  unfolding arpcache_queuereq
  arpcache_queuereq-Runs ip packet name q = record {
    at = λ s v. (
      tt,
      record {
        same_ifs = v.same_ifs;
        waiting = queuereq-Waiting (IsQuotable ifs) packet name q ip s.cache v.waiting;
      },
    );
  }

  pub arpreq_stamp-Runs :
      (now times : ℕ) (req : ArpReq) → Runs (IsReady ifs) Any (arpreq_stamp now times req)
  unfolding arpreq_stamp modify
  arpreq_stamp-Runs now times req = record {
    at = λ s v. (
      tt,
      record {
        same_ifs = v.same_ifs;
        waiting = stamp-Waiting (IsQuotable ifs) now times req s.cache v.waiting;
      },
    );
  }

  -- A frame of the interface that was found for `name` may wait.
  pub enqueue-Runs :
      (now hop : ℕ) (frame name : List ℕ) (i : If)
      → get_interface name ifs ≡ some i
      → 42 ≤ length frame
      → Runs (IsReady ifs) Any (enqueue now hop frame i)
  unfolding enqueue
  enqueue-Runs now hop frame name i known long =
      let (j, copy) = get_interface_copy name ifs i known in
      Runs-bind Any _ _
        (arpcache_queuereq-Runs hop frame i.name (record { out = j; known = copy; long = long }))
        λ req _.
          Runs-if (req.times_sent == 0) _ _
            (λ _.
              Runs-bind Any _ _ (send_arp_request-Runs ifs hop i.name)
                (λ _ _. arpreq_stamp-Runs now 1 req))
            (λ _. Runs-pure tt)

  pub send_icmp_t3-Runs :
      (now : ℕ) (packet : List ℕ) (type' code : ℕ)
      → AddrsFit ifs
      → 42 ≤ length packet
      → Runs (IsReady ifs) Any (send_icmp_t3 now packet type' code)
  unfolding send_icmp_t3 t3_body
  send_icmp_t3-Runs now packet type' code fit long =
      let (e, p, d, l, _, _) = decode_eth_total packet (omega arith) in
      let (ip, r, d', l') = decode_ip_total p (omega (arith, l)) in
      let (q, z, eq, _, _) = split_at?_total icmp_data_size p (omega (arith, l)) in
      Runs-lift _ _ (e, p) d
        (Runs-lift _ _ (ip, r) d'
          (Runs-gets _ _ λ _ _.
            Runs-if_null _ _ _ (λ _. Runs-pure tt)
              λ rt _. Runs-gets _ _ λ s v.
                Runs-if_null _ _ _ (λ _. Runs-pure tt)
                  λ i found.
                    Runs-lift _ _ (q, z) eq
                      (Runs-gets _ _ λ _ _.
                        Runs-if_null _ _ _
                          (λ _.
                            let known : get_interface rt.interface ifs ≡ some i =
                              rw (v.same_ifs) at found in
                            enqueue-Runs now _ _ rt.interface i known (
                              frame_long _ _ _ refl
                                (get_interface-All _ rt.interface ifs i known fit)
                                (length-encode_icmp_t3 _)))
                          (λ x _. send-Runs ifs _ i.name))))
