-- ===== src/Retry/Keep.antt =====
-- What the primitives keep, the timer keeps.
use computer_networking.Base.{ℕ, ◌+◌, ◌%◌, ◌^◌, ◌≤◌, ◌≡◌, false, List, [], ◌∷◌, arith, leb}
use computer_networking.State.{Router, Packet, ArpReq}
use computer_networking.Exec.Keeps.{Keeps, Keeps-pure, Keeps-bind, keeps_rules}
use computer_networking.Wire.{send_packet}
use computer_networking.Retry.{
  send_arp_request_for_req, unreachable_packet, send_icmp_host_unreachable, handle_arpreq,
  sweep_loop, sweepreqs, timeout_round,
}
use computer_networking.Router.Keep.{IsKept}

-- The counter stays within the limit when it is below it.
few_sent : (n : ℕ) → leb 5 n ≡ false → (n + 1) % 2 ^ 32 ≤ 5
few_sent n h = ground arith

-- What sends do not change, asking and giving up do not change.
module _ {ℓ} {P : Router → Type ℓ}
    (sends : (buf iface : List ℕ) → Keeps P (send_packet buf iface)) where
  pub send_arp_request_for_req-Keeps : (req : ArpReq) → Keeps P (send_arp_request_for_req req)
  unfolding send_arp_request_for_req
  send_arp_request_for_req-Keeps req = search (keeps_rules, sends) depth 24

  unreachable_packet-Keeps : (pkt : Packet) → Keeps P (unreachable_packet pkt)
  unfolding unreachable_packet
  unreachable_packet-Keeps pkt = search (keeps_rules, sends) depth 40

  pub unreachable-Keeps : (pkts : List Packet) → Keeps P (send_icmp_host_unreachable pkts)
  unfolding send_icmp_host_unreachable
  unreachable-Keeps [] = Keeps-pure tt
  unreachable-Keeps (pkt ∷ pkts) =
      Keeps-bind _ _ (unreachable_packet-Keeps pkt) (λ _. unreachable-Keeps pkts)

module _ {ℓ} {P : Router → Type ℓ} (k : IsKept P) where
  open k use {sends, destroys, stamps, expires}

  handle_arpreq-Keeps : (now : ℕ) (req : ArpReq) → Keeps P (handle_arpreq now req)
  unfolding handle_arpreq
  handle_arpreq-Keeps now req =
      search
        (
          keeps_rules,
          destroys,
          stamps,
          unreachable-Keeps sends,
          send_arp_request_for_req-Keeps sends,
          few_sent,
        )
        depth 24

  sweep_loop-Keeps : (now : ℕ) (reqs : List ArpReq) → Keeps P (sweep_loop now reqs)
  unfolding sweep_loop
  sweep_loop-Keeps now [] = Keeps-pure tt
  sweep_loop-Keeps now (req ∷ reqs) =
      Keeps-bind _ _ (handle_arpreq-Keeps now req) (λ _. sweep_loop-Keeps now reqs)

  -- A round of the timer keeps what the primitives keep.
  pub timeout_round-Keeps : (now : ℕ) → Keeps P (timeout_round now)
  unfolding timeout_round sweepreqs
  timeout_round-Keeps now = search (keeps_rules, expires, sweep_loop-Keeps) depth 24
