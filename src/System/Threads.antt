-- ===== src/System/Threads.antt =====
-- The two threads together: while the main thread handles a frame, the timer's thread of
-- `sr_arpcache_timeout` may take the cache's mutex between two uses of the shared state. A round is
-- taken whole, since it holds the mutex from its start to its end.
pub mod Alone
pub mod Safety
pub mod Race
use computer_networking.Base.{
  ℕ, Bool, true, false, Option, none, some, List, [], ◌∷◌, ◌==◌, if◌then◌else◌,
}
use computer_networking.State.{If, ArpReq}
use computer_networking.Exec.{M, pure, if_null, fault, gets, lift, ◌>>=◌, ◌>>◌}
use computer_networking.Wire.{send_packet}
use computer_networking.Router.Arp.{send_arp_request, arpcache_insert, arpreq_destroy}
use computer_networking.Router.Icmp.{arpcache_queuereq, arpreq_stamp}
use computer_networking.Router.Parts.{
  Parts, returns, faults, lifts, reads, tests, nulls, binds, sends, inserts, destroys, asks,
  handlepacket_parts,
}
use computer_networking.Retry.{timeout_round}
use computer_networking.System.{Event, receives, ticks}

-- The times of the rounds that run before each use of the shared state; none when it is used up.
abbrev pub Plan : Type 0
Plan = List (List ℕ)

unfoldable pub rounds_at : List ℕ → M (Unit {0})
rounds_at [] = pure tt
rounds_at (now ∷ times) = do timeout_round now; rounds_at times

-- The rounds that are due, and what is left of the plan.
unfoldable pub meanwhile : Plan → M Plan
unfolding rounds_at
meanwhile [] = pure []
meanwhile (times ∷ later) = do rounds_at times; pure later

-- One use of the shared state.
unfoldable pub use_shared : {A : Type 0} → M A → Plan → M (A × Plan)
unfolding meanwhile
use_shared action plan = do later ← meanwhile plan; value ← action; pure (value, later)

-- The node at that address, if it is on the queue.
unfoldable pub find_node : ℕ → List ArpReq → Option ArpReq
find_node node [] = none
find_node node (r ∷ rs) = if r.node == node then some r else find_node node rs

-- A read through the pointer that `sr_arpcache_queuereq` returned: undefined behaviour if the timer
-- has freed the node.
unfoldable pub read_req : ArpReq → M ArpReq
unfolding find_node
read_req req = do
  found ← gets (λ s. find_node req.node s.cache.requests)
  if_null found (fault) pure

-- What follows a failed lookup in the handlers: `sr_arpcache_queuereq` has let go of the mutex when
-- the fields of the request are read and written.
unfoldable pub enqueue_among : ℕ → ℕ → List ℕ → If → Plan → M (Unit {0} × Plan)
unfolding use_shared read_req
enqueue_among now hop frame out_iface plan = do
  (queued, plan) ← use_shared (arpcache_queuereq hop frame out_iface.name) plan
  (req, plan) ← use_shared (read_req queued) plan
  if req.times_sent == 0
      then (do
        (_, plan) ← use_shared (send_arp_request hop out_iface.name) plan
        use_shared (do live ← read_req req; arpreq_stamp now 1 live) plan)
      else pure (tt, plan)

-- An action of the main thread, with the rounds of the plan in between.
unfoldable pub among : {A : Type 0} {m : M A} → Parts A m → Plan → M (A × Plan)
unfolding use_shared enqueue_among
among (returns value) plan = pure (value, plan)
among faults plan = fault
among (lifts o) plan = do value ← lift o; pure (value, plan)
among (reads read) plan = use_shared (gets read) plan
among (tests true yes' no') plan = among yes' plan
among (tests false yes' no') plan = among no' plan
among (nulls none null found) plan = among null plan
among (nulls (some a) null found) plan = among (found a) plan
among (binds first rest) plan = do (a, plan) ← among first plan; among (rest a) plan
among (sends buf iface) plan = use_shared (send_packet buf iface) plan
among (inserts now mac ip) plan = use_shared (arpcache_insert now mac ip) plan
among (destroys req) plan = use_shared (arpreq_destroy req) plan
among (asks now hop frame out_iface) plan = enqueue_among now hop frame out_iface plan

-- Frames that arrive while the timer's thread runs.
unfoldable pub run_among : List Event → Plan → M (Unit {0})
unfolding among handlepacket_parts
run_among [] plan = pure tt
run_among (receives now packet interface ∷ es) plan = do
  (_, plan) ← among (handlepacket_parts now packet interface) plan
  run_among es plan
run_among (ticks now ∷ es) plan = do timeout_round now; run_among es plan
