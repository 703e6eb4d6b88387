-- ===== src/Examples/Runs.antt =====
-- The theorems of the other files at concrete inputs.
use computer_networking.Base.{
  htons, ℕ, ◌*◌, ◌≤◌, ◌≡◌, refl, ◌≢◌, ◌↔◌, true, some, List, [], ◌∷◌, All, length, arith, ntohs,
}
use computer_networking.Proto.{ArpHdr, EthernetHdr, IpHdr, decode_eth, decode_ip, ethertype_ip}
use computer_networking.State.{Router}
use computer_networking.ArpCache.Entries.{has_room, new_entry}
use computer_networking.Router.Arp.{handle_arp_answer}
use computer_networking.Router.Learning.{IsLearnt, handle_arp_answer-learns}
use computer_networking.Route.{lpm_lookup, verify_routing_table}
use computer_networking.Route.Lpm.{IsLongestMatch, lpm_lookup-IsLongestMatch}
use computer_networking.Route.Verify.{HasInterface, verify_routing_table_lem}
use computer_networking.ArpCache.Requests.{Inv}
use computer_networking.Wire.{send_packet}
use computer_networking.Wire.Safety.{Sending, send_packet-Sending}
use computer_networking.Router.Returns.{IsReady, AddrsFit}
use computer_networking.Router.Returns.Frames.{IsWhole}
use computer_networking.Retry.{timeout_round}
use computer_networking.Retry.Bound.{swept, timeout_round-swept}
use computer_networking.System.{Event, receives, run}
use computer_networking.System.Invariant.{run-Inv}
use computer_networking.System.Returns.{IsProperFrame, run-returns}
use computer_networking.System.Liveness.{rounds, rounds_drain}
use computer_networking.Examples.Topology.{
  mac, ipv4, server1, machine, ready, interfaces, routes, forwarding, state_after, who_has, is_at,
  ping, eth, client, server1,
}

-- A frame with another type than IP may be of any length.
other_type :
    (packet : List ℕ) (e₀ : EthernetHdr) (p₀ : List ℕ)
    → decode_eth packet ≡ some (e₀, p₀)
    → ntohs e₀.ether_type ≢ ethertype_ip
    → (e : EthernetHdr) (p : List ℕ) → decode_eth packet ≡ some (e, p)
    → ntohs e.ether_type ≡ ethertype_ip
    → IsWhole packet
other_type packet e₀ p₀ d n e p d' h = let same : e₀ ≡ e = cc in absurd (ground (arith, same, n, h))

IsWhole-frame :
    (packet : List ℕ) (e₀ : EthernetHdr) (p₀ : List ℕ) (ip₀ : IpHdr) (r₀ : List ℕ)
    → decode_eth packet ≡ some (e₀, p₀)
    → decode_ip p₀ ≡ some (ip₀, r₀)
    → ip₀.ip_hl * 4 ≤ length p₀
    → 42 ≤ length packet
    → IsWhole packet
IsWhole-frame packet e₀ p₀ ip₀ r₀ d₀ d₁ h q = record {
  quoted = q;
  header =
      λ e p ip r d d'. let same : p₀ ≡ p = cc in let same' : ip₀ ≡ ip = cc in rw (same, same') at h;
}

ping_proper : IsProperFrame interfaces (ping server1 64) (eth 3)
unfolding machine
ping_proper = record {
  arrived_by = _;
  known = refl;
  whole = λ _ _ _ _. IsWhole-frame (ping server1 64) _ _ _ _ refl refl (omega arith) (omega arith);
}

pub who_has_proper : IsProperFrame interfaces who_has (eth 1)
unfolding machine
who_has_proper = record {
  arrived_by = _;
  known = refl;
  whole = other_type who_has _ _ refl (λ e. absurd (omega arith));
}

is_at_proper : IsProperFrame interfaces is_at (eth 1)
unfolding machine
is_at_proper = record {
  arrived_by = _;
  known = refl;
  whole = other_type is_at _ _ refl (λ e. absurd (omega arith));
}

pub addrs_fit : AddrsFit interfaces
addrs_fit = (refl, (refl, (refl, tt)))

run-returns_example : (s : Router) × (run forwarding ready ≡ some (tt, s))
run-returns_example =
    run-returns interfaces routes (λ _. true) forwarding addrs_fit
      (who_has_proper, (ping_proper, (is_at_proper, (tt, tt))))

abbrev pub asking : List Event
asking = receives 101 (ping server1 64) (eth 3) ∷ []

abbrev six_rounds : List ℕ
six_rounds = 102 ∷ 103 ∷ 104 ∷ 105 ∷ 106 ∷ 107 ∷ []

rounds_drain_example :
    (u : Router) × (run (rounds six_rounds) (state_after asking) ≡ some (tt, u))
    × (u.cache.requests ≡ [])
unfolding machine
rounds_drain_example =
    rounds_drain interfaces routes (λ _. true) asking (state_after asking) 101 six_rounds addrs_fit
      (ping_proper, tt) refl (omega arith, tt) refl
      (omega arith, (omega arith, (omega arith, (omega arith, (omega arith, (omega arith, tt))))))

pub asking-IsReady : IsReady interfaces (state_after asking)
unfolding machine
asking-IsReady = record {
  same_ifs = refl;
  waiting = ((record { out = _; known = refl; long = omega arith }, tt), tt);
}

pub asking-Inv : Inv (state_after asking).cache
unfolding machine
asking-Inv = run-Inv interfaces routes (λ _. true) asking (state_after asking) refl

timeout_round-swept_example :
    (t : Router) × (timeout_round 102 (state_after asking) ≡ some (tt, t))
    × IsReady interfaces t
    × (t.cache.requests ≡ swept 102 (state_after asking).cache.requests)
timeout_round-swept_example =
    timeout_round-swept interfaces 102 (state_after asking) asking-IsReady asking-Inv

lpm_lookup-IsLongestMatch_example : IsLongestMatch client routes (lpm_lookup client routes)
lpm_lookup-IsLongestMatch_example = lpm_lookup-IsLongestMatch client routes

verify_routing_table_example :
    (verify_routing_table interfaces routes ≡ 0)
    ↔ (routes ≢ []) × All (HasInterface interfaces) routes
verify_routing_table_example = verify_routing_table_lem interfaces routes

send_packet-Sending_example : Sending who_has (eth 1) ready (send_packet who_has (eth 1) ready)
send_packet-Sending_example = send_packet-Sending who_has (eth 1) ready

-- The answer of server1, for which a ping waits.
abbrev answered : ArpHdr
answered = record {
  ar_hrd = htons 1;
  ar_pro = htons ethertype_ip;
  ar_hln = 6;
  ar_pln = 4;
  ar_op = htons 2;
  ar_sha = mac 11;
  ar_sip = server1;
  ar_tha = mac 1;
  ar_tip = ipv4 192 168 2 1;
}

handle_arp_answer-learns_example :
    (t : Router) × (handle_arp_answer 102 answered (state_after asking) ≡ some (tt, t))
    × IsLearnt server1 (new_entry 102 (mac 11) server1) t
unfolding machine has_room
handle_arp_answer-learns_example =
    handle_arp_answer-learns interfaces 102 answered (state_after asking) asking-IsReady asking-Inv
      refl refl
