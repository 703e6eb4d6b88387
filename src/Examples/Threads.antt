-- ===== src/Examples/Threads.antt =====
-- Two threads: rounds of the timer inside the handlers, on the topology.
use computer_networking.Base.{
  ℕ, ◌≡◌, refl, zero, suc, ◌+◌, true, none, some, List, [], ◌∷◌, arith, length,
}
use computer_networking.State.{If, Router, ArpReq}
use computer_networking.ArpCache.{find_ip, new_req}
use computer_networking.ArpCache.Requests.{Inv}
use computer_networking.Wire.Safety.{IsSafe}
use computer_networking.Router.Icmp.{enqueue}
use computer_networking.Router.Parts.{handlepacket_parts}
use computer_networking.Router.Returns.{IsReady}
use computer_networking.System.{Event, receives, ticks}
use computer_networking.System.Invariant.{run-Inv}
use computer_networking.System.Threads.{
  Plan, rounds_at, meanwhile, use_shared, find_node, read_req, enqueue_among, among, run_among,
}
use computer_networking.System.Threads.Safety.{run_among-IsSafe, run_among-Inv}
use computer_networking.System.Threads.Race.{enqueue_among-races}
use computer_networking.Examples.Topology.{
  machine, ready, interfaces, routes, forwarding, state_after, ping, eth, server1, mac, ipv4,
}

-- A round each second, before every use of the shared state.
abbrev each_second : ℕ → ℕ → Plan
each_second now zero = []
each_second now (suc n) = (now ∷ []) ∷ each_second (now + 1) n

abbrev plan : Plan
plan = each_second 101 10

abbrev among_after : List Event → Plan → Router
among_after es plan = elim (run_among es plan ready) [ none ↦ ready | some (_, s) ↦ s ]

-- Opens what such a run computes with.
unfoldable two_threads : ℕ
unfolding machine rounds_at meanwhile use_shared find_node read_req enqueue_among among run_among
    handlepacket_parts
two_threads = 0

-- A request is repeated inside a handler.
sent_among :
    (length (state_after forwarding).wire ≡ 3) × (length (among_after forwarding plan).wire ≡ 4)
unfolding two_threads
sent_among = (refl, refl)

run_among-IsSafe_example : IsSafe interfaces routes (among_after forwarding plan)
unfolding two_threads
run_among-IsSafe_example =
    run_among-IsSafe interfaces routes (λ _. true) forwarding plan (among_after forwarding plan)
      refl

run_among-Inv_example : Inv (among_after forwarding plan).cache
unfolding two_threads
run_among-Inv_example =
    run_among-Inv interfaces routes (λ _. true) forwarding plan (among_after forwarding plan) refl

-- A request for server1 that was sent five times.
abbrev tried : List Event
tried = receives 101 (ping server1 64) (eth 3) ∷ ticks 102 ∷ ticks 103 ∷ ticks 104 ∷ ticks 105 ∷ []

tried-IsReady : IsReady interfaces (state_after tried)
unfolding machine
tried-IsReady = record {
  same_ifs = refl;
  waiting = ((record { out = _; known = refl; long = omega arith }, tt), tt);
}

tried-Inv : Inv (state_after tried).cache
unfolding machine
tried-Inv = run-Inv interfaces routes (λ _. true) tried (state_after tried) refl

abbrev eth1 : If
eth1 = record { name = eth 1; addr = mac 1; ip = ipv4 192 168 2 1; speed = 0 }

abbrev asked_for : ArpReq
asked_for = elim (find_ip server1 (state_after tried).cache.requests) [
  | none ↦ new_req 0 0
  | some r ↦ r
]

enqueue_among-races_example :
    ((u : Router) × (enqueue 105 server1 (ping server1 63) eth1 (state_after tried) ≡ some (tt, u)))
    × (enqueue_among 105 server1 (ping server1 63) eth1 ([] ∷ (106 ∷ []) ∷ []) (state_after tried)
        ≡ none)
unfolding machine find_ip
enqueue_among-races_example =
    enqueue_among-races interfaces 105 server1 106 (ping server1 63) (eth 1) eth1
      (state_after tried) asked_for tried-IsReady tried-Inv refl (omega arith) refl (omega arith)
      (omega arith)
