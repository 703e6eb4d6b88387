-- ===== src/System/Threads/Safety.antt =====
-- What the primitives keep, the two threads keep together.
use mathlib.Core.Path.{subst}
use computer_networking.Base.{ℕ, ◌≡◌, refl, Bool, true, false, none, some, List, [], ◌∷◌, arith}
use computer_networking.State.{If, Rt, Router, ArpReq}
use computer_networking.Exec.{M}
use computer_networking.Exec.Keeps.{Keeps, Keeps-pure, Keeps-bind, After, keeps_rules}
use computer_networking.ArpCache.Requests.{Inv, init-Inv}
use computer_networking.Wire.Safety.{IsSafe}
use computer_networking.Router.Parts.{
  Parts, returns, faults, lifts, reads, tests, nulls, binds, sends, inserts, destroys, asks,
  handlepacket_parts,
}
use computer_networking.Router.Keep.{IsKept, send_arp_request-Keeps}
use computer_networking.Retry.Keep.{timeout_round-Keeps}
use computer_networking.System.{Event, receives, ticks, boot}
use computer_networking.System.Invariant.{IsSafe-IsKept, CacheInv, Inv-IsKept}
use computer_networking.System.Threads.{
  Plan, rounds_at, meanwhile, use_shared, read_req, enqueue_among, among, run_among,
}

module _ {ℓ} {P : Router → Type ℓ} (k : IsKept P) where
  rounds_at-Keeps : (times : List ℕ) → Keeps P (rounds_at times)
  unfolding rounds_at
  rounds_at-Keeps [] = Keeps-pure tt
  rounds_at-Keeps (now ∷ times) =
      Keeps-bind _ _ (timeout_round-Keeps k now) (λ _. rounds_at-Keeps times)

  meanwhile-Keeps : (plan : Plan) → Keeps P (meanwhile plan)
  unfolding meanwhile
  meanwhile-Keeps [] = Keeps-pure []
  meanwhile-Keeps (times ∷ later) = search (keeps_rules, rounds_at-Keeps)

  use_shared-Keeps :
      {A : Type 0} {m : M A} → Keeps P m → (plan : Plan) → Keeps P (use_shared m plan)
  unfolding use_shared
  use_shared-Keeps km plan =
      Keeps-bind _ _ (meanwhile-Keeps plan)
        (λ later. Keeps-bind _ _ km (λ value. Keeps-pure (value, later)))

  read_req-Keeps : (req : ArpReq) → Keeps P (read_req req)
  unfolding read_req
  read_req-Keeps req = search (keeps_rules)

  enqueue_among-Keeps :
      (now hop : ℕ) (frame : List ℕ) (out_iface : If) (plan : Plan)
      → Keeps P (enqueue_among now hop frame out_iface plan)
  unfolding enqueue_among
  enqueue_among-Keeps now hop frame out_iface plan =
      search
        (
          keeps_rules,
          use_shared-Keeps,
          read_req-Keeps,
          k.queues,
          k.stamps now 1 _ (omega arith),
          send_arp_request-Keeps k.sends,
        )
        depth 24

  -- Whatever the plan, an action of these parts keeps it.
  among-Keeps :
      {A : Type 0} {m : M A} (parts : Parts A m) (plan : Plan) → Keeps P (among parts plan)
  unfolding among
  among-Keeps (returns value) plan = Keeps-pure _
  among-Keeps faults plan = search (keeps_rules)
  among-Keeps (lifts o) plan = search (keeps_rules)
  among-Keeps (reads read) plan = search (keeps_rules, use_shared-Keeps)
  among-Keeps (tests true yes' no') plan = among-Keeps yes' plan
  among-Keeps (tests false yes' no') plan = among-Keeps no' plan
  among-Keeps (nulls none null found) plan = among-Keeps null plan
  among-Keeps (nulls (some a) null found) plan = among-Keeps (found a) plan
  among-Keeps (binds first rest) plan =
      Keeps-bind _ _ (among-Keeps first plan) (λ (a, later). among-Keeps (rest a) later)
  among-Keeps (sends buf iface) plan = use_shared-Keeps (k.sends buf iface) plan
  among-Keeps (inserts now mac ip) plan = use_shared-Keeps (k.inserts now mac ip) plan
  among-Keeps (destroys req) plan = use_shared-Keeps (k.destroys req) plan
  among-Keeps (asks now hop frame out_iface) plan = enqueue_among-Keeps now hop frame out_iface plan

  run_among-Keeps : (es : List Event) (plan : Plan) → Keeps P (run_among es plan)
  unfolding run_among
  run_among-Keeps [] plan = Keeps-pure tt
  run_among-Keeps (receives now packet interface ∷ es) plan =
      Keeps-bind _ _ (among-Keeps (handlepacket_parts now packet interface) plan)
        (λ (_, later). run_among-Keeps es later)
  run_among-Keeps (ticks now ∷ es) plan =
      Keeps-bind _ _ (timeout_round-Keeps k now) (λ _. run_among-Keeps es plan)

module _ (ifs : List If) (table : List Rt) (accepts : List ℕ → Bool) (es : List Event) (plan : Plan)
    (s : Router) (ran : run_among es plan (boot ifs table accepts) ≡ some (tt, s)) where
  -- In every state in which a run of any events from the start of the router ends, with any rounds
  -- of the timer between the handlers' uses of the shared state, the interfaces and routes are those
  -- of the start, and every message on the wire is a frame sent by an interface of that name from
  -- that interface's own address.
  pub run_among-IsSafe : IsSafe ifs table s
  run_among-IsSafe = subst (After (λ _. IsSafe ifs table)) ran (
      (run_among-Keeps (IsSafe-IsKept ifs table) es plan).at (boot ifs table accepts)
        (record { same_ifs = refl; same_table = refl; all_sent = tt }))

  -- In every state in which a run of any events from the start of the router ends, with any rounds
  -- of the timer between the handlers' uses of the shared state, the cache has 100 slots, the
  -- requests are distinct nodes for distinct addresses, and the count `times_sent` of no request is
  -- above five.
  pub run_among-Inv : Inv s.cache
  run_among-Inv =
      subst (After (λ _. CacheInv)) ran
        ((run_among-Keeps Inv-IsKept es plan).at (boot ifs table accepts) init-Inv)
