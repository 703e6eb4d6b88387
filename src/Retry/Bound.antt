-- ===== src/Retry/Bound.antt =====
-- What a round of the timer does to the queue of requests, and that requests do not stay on it.
use computer_networking.Base.{
  ℕ, suc, ◌+◌, ◌-◌, ◌≤◌, ◌<◌, ◌≡◌, refl, ap, ◌≢◌, inl, inr, Bool, true, Option, some, List, [], ◌∷◌,
  All, arith, leb, if◌then◌else◌, u32, Bool-cases,
}
use computer_networking.State.{If, Router, ArpReq}
use computer_networking.Exec.{pure, modify, gets, ◌>>=◌}
use computer_networking.Exec.Keeps.{Keeps, After}
use computer_networking.Exec.Runs.{Leads, Runs-Leads, Leads-bind, Within-some}
use computer_networking.ArpCache.{unlink_node, on_node, destroy, stamp, stamped, expire}
use computer_networking.ArpCache.Requests.{Below, Inv}
use computer_networking.Wire.{send_packet}
use computer_networking.Wire.Safety.{
  Sending, too_short, refused, sent, send_packet-Sending, cache-log_packet,
}
use computer_networking.Router.Arp.{arpreq_destroy}
use computer_networking.Router.Icmp.{arpreq_stamp}
use computer_networking.Router.Returns.{IsReady, IsQuotable}
use computer_networking.Retry.{
  send_arp_request_for_req, send_icmp_host_unreachable, handle_arpreq, sweep_loop, sweepreqs,
  expire_entries, timeout_round,
}
use computer_networking.Retry.Keep.{send_arp_request_for_req-Keeps, unreachable-Keeps}
use computer_networking.Router.Returns.{arpreq_destroy-Runs}
use computer_networking.Router.Returns.Ip.{arpreq_stamp-Runs}
use computer_networking.Retry.Returns.{unreachable-Runs, send_arp_request_for_req-Runs}

-- The queue after a round: a request that is younger than a second stays as it is, one that was
-- sent five times goes, and any other was sent once more, now.
unfoldable pub swept : ℕ → List ArpReq → List ArpReq
swept now [] = []
swept now (r ∷ rs) =
    let rest = swept now rs in
    if leb 1 (now - r.sent)
    then (if leb 5 r.times_sent then rest else stamped now (r.times_sent + 1) r ∷ rest)
    else r ∷ rest

-- What the call for one request does to the queue.
unfoldable effect : ℕ → ArpReq → List ArpReq → List ArpReq
effect now r q =
    if leb 1 (now - r.sent)
    then (if leb 5 r.times_sent
        then unlink_node r.node q
        else on_node r.node (stamped now (u32 (r.times_sent + 1))) q)
    else q

unfoldable effects : ℕ → List ArpReq → List ArpReq → List ArpReq
effects now [] q = q
effects now (r ∷ rs) q = effects now rs (effect now r q)

NotIn : ArpReq → List ArpReq → Type 0
NotIn x = All λ r. x.node ≢ r.node

effect-skip :
    (now : ℕ) (r x : ArpReq) (q : List ArpReq)
    → x.node ≢ r.node
    → effect now r (x ∷ q) ≡ x ∷ effect now r q
unfolding effect unlink_node on_node
effect-skip now r x q n = ground arith

effects-skip :
    (now : ℕ) (x : ArpReq) (rs q : List ArpReq)
    → NotIn x rs
    → effects now rs (x ∷ q) ≡ x ∷ effects now rs q
unfolding effects NotIn
effects-skip now x [] q n = refl
effects-skip now x (r ∷ rs) q n =
    rw (effect-skip now r x q n.0) (effects-skip now x rs (effect now r q) n.1)

Below→NotIn : (x : ArpReq) (n : ℕ) (rs : List ArpReq) → n ≤ x.node → Below n rs → NotIn x rs
unfolding NotIn
Below→NotIn x n [] h b = tt
Below→NotIn x n (r ∷ rs) h b =
    (λ e. omega (arith, h, b.0, e), Below→NotIn x r.node rs (omega (arith, h, b.0)) b.1)

effects-swept : (now n : ℕ) (rs : List ArpReq) → Below n rs → effects now rs rs ≡ swept now rs
unfolding effects effect swept unlink_node on_node
effects-swept now n [] b = refl
effects-swept now n (r ∷ rs) b = ground (
  arith,
  effects-swept now r.node rs b.1,
  effects-skip now r rs rs (Below→NotIn r r.node rs (omega arith) b.1),
  effects-skip now (stamped now (r.times_sent + 1) r) rs rs
      (Below→NotIn (stamped now (r.times_sent + 1) r) r.node rs (omega arith) b.1),
)

-- The queue is `q`, and the router can go on.
HasQueue : List If → List ArpReq → Router → Type 0
HasQueue ifs q s = IsReady ifs s × (s.cache.requests ≡ q)

Sending-queue :
    (q : List ArpReq) (buf iface : List ℕ) (s : Router) (r : Option (Bool × Router))
    → Sending buf iface s r
    → s.cache.requests ≡ q
    → After (λ _ t. t.cache.requests ≡ q) r
Sending-queue q buf iface s _ (too_short h) e = e
Sending-queue q buf iface s _ refused e = rw cache-log_packet e
Sending-queue q buf iface s _ (sent m a) e = rw cache-log_packet e

send_packet-queue :
    (q : List ArpReq) (buf iface : List ℕ)
    → Keeps (λ s. s.cache.requests ≡ q) (send_packet buf iface)
send_packet-queue q buf iface = record {
  at = λ s e. Sending-queue q buf iface s _ (send_packet-Sending buf iface s) e;
}

module _ (ifs : List If) where
  -- Giving a request up, and sending it again.
  give_up-Leads :
      (r : ArpReq) (q : List ArpReq)
      → All (IsQuotable ifs) r.packets
      → Leads
          (HasQueue ifs q)
          (HasQueue ifs (unlink_node r.node q))
          (send_icmp_host_unreachable r.packets >>= λ _. arpreq_destroy r)
  unfolding HasQueue arpreq_destroy destroy modify
  give_up-Leads r q quotable =
      Leads-bind (HasQueue ifs q) _ _
        (Runs-Leads (IsReady ifs) _ _ _ (unreachable-Runs ifs r.packets quotable)
          ((unreachable-Keeps (send_packet-queue q) r.packets).at))
        (λ _.
          Runs-Leads (IsReady ifs) _ _ _ (arpreq_destroy-Runs ifs r)
            (λ s e. ap (unlink_node r.node) e))

  ask_again-Leads :
      (now : ℕ) (r : ArpReq) (q : List ArpReq)
      → Leads
          (HasQueue ifs q)
          (HasQueue ifs (on_node r.node (stamped now (u32 (r.times_sent + 1))) q))
          (send_arp_request_for_req r >>= λ _. arpreq_stamp now (u32 (r.times_sent + 1)) r)
  unfolding HasQueue arpreq_stamp stamp modify
  ask_again-Leads now r q =
      Leads-bind (HasQueue ifs q) _ _
        (Runs-Leads (IsReady ifs) _ _ _ (send_arp_request_for_req-Runs ifs r)
          ((send_arp_request_for_req-Keeps (send_packet-queue q) r).at))
        (λ _.
          Runs-Leads (IsReady ifs) _ _ _ (arpreq_stamp-Runs ifs now (u32 (r.times_sent + 1)) r)
            (λ s e. ap (on_node r.node (stamped now (u32 (r.times_sent + 1)))) e))

  handle_arpreq-Leads :
      (now : ℕ) (r : ArpReq) (q : List ArpReq)
      → All (IsQuotable ifs) r.packets
      → Leads (HasQueue ifs q) (HasQueue ifs (effect now r q)) (handle_arpreq now r)
  unfolding handle_arpreq effect pure HasQueue
  handle_arpreq-Leads now r q quotable = elim (Bool-cases (leb 1 (now - r.sent))) [
    | inl old ↦ elim (Bool-cases (leb 5 r.times_sent)) [
      | inl many ↦ rw (old, many) (give_up-Leads r q quotable)
      | inr few ↦ rw (old, few) (ask_again-Leads now r q)
    ]
    | inr young ↦ rw young (record { at = λ s h. h })
  ]

  sweep_loop-Leads :
      (now : ℕ) (rs q : List ArpReq)
      → All (λ r. All (IsQuotable ifs) r.packets) rs
      → Leads (HasQueue ifs q) (HasQueue ifs (effects now rs q)) (sweep_loop now rs)
  unfolding sweep_loop effects pure
  sweep_loop-Leads now [] q w = record { at = λ s h. h }
  sweep_loop-Leads now (r ∷ rs) q w =
      Leads-bind (HasQueue ifs (effect now r q)) _ _ (handle_arpreq-Leads now r q w.0)
        (λ _. sweep_loop-Leads now rs (effect now r q) w.1)

  -- A round of the timer, from a state whose waiting packets have a known interface and 42 bytes
  -- and whose cache is well formed, returns to such a state of the waiting packets. On the queue, a
  -- request younger than a second stays as it was, one that was sent five times is gone, and every
  -- other is stamped with the time and one more try.
  pub timeout_round-swept :
      (now : ℕ) (s : Router)
      → IsReady ifs s
      → Inv s.cache
      → (t : Router) × (timeout_round now s ≡ some (tt, t))
        × IsReady ifs t
        × (t.cache.requests ≡ swept now s.cache.requests)
  unfolding timeout_round expire_entries sweepreqs gets modify expire ◌>>=◌ HasQueue
  timeout_round-swept now s v i =
      let expired = record s { cache = expire now s.cache } in
      let (t, e, (w, q)) =
        Within-some (λ _. HasQueue ifs (effects now s.cache.requests s.cache.requests))
          (sweep_loop now s.cache.requests expired)
          ((sweep_loop-Leads now s.cache.requests s.cache.requests v.waiting).at expired
            (record { same_ifs = v.same_ifs; waiting = v.waiting }, refl)) in
      let same = effects-swept now s.cache.next_node s.cache.requests i.nodes in
      (t, e, w, rw same at q)

-- Every request was last sent by the time `t`, and at least `k` times.
pub record IsAsked (t k : ℕ) (r : ArpReq) : Type 0 where
  pub by : r.sent ≤ t
  pub times : k ≤ r.times_sent

-- A round at a later time drops the requests that were sent five times, and sends the others.
pub swept-IsAsked :
    (t now k : ℕ) (q : List ArpReq)
    → t < now
    → All (IsAsked t k) q
    → All (IsAsked now (suc k)) (swept now q)
unfolding swept
swept-IsAsked t now k [] h a = tt
swept-IsAsked t now k (r ∷ rs) h a = elim (Bool-cases (leb 5 r.times_sent)) [
  | inl many ↦ rw (old, many, swept) (swept-IsAsked t now k rs h a.1)
  | inr few ↦
      rw (old, few, swept)
        (
          record { by = omega arith; times = omega (arith, head.times) },
          swept-IsAsked t now k rs h a.1,
        )
]
  where
    head : IsAsked t k r
    head = a.0

    old : leb 1 (now - r.sent) ≡ true
    old = ground (arith, head.by, h)
