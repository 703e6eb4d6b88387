-- ===== src/System/Threads/Race.antt =====
-- The request that `sr_arpcache_queuereq` returned, when the timer runs before it is read.
use computer_networking.Base.{
  ℕ, ◌≤◌, ◌<◌, ◌≡◌, refl, ap, ◌∙◌, none, some, List, [], ◌∷◌, arith, length,
}
use computer_networking.State.{If, Router, ArpReq, ArpCache}
use computer_networking.Exec.{M, pure, fault, ◌>>=◌}
use computer_networking.Exec.Runs.{Within-some}
use computer_networking.Exec.Steps.{step-action, step-null}
use computer_networking.ArpCache.{find_ip, queuereq, add_packet}
use computer_networking.ArpCache.Requests.{
  Inv, Below, Below-mono, queuereq-Inv, times_sent-add_packet,
}
use computer_networking.Interface.{get_interface}
use computer_networking.Interface.Laws.{get_interface_copy}
use computer_networking.Router.Icmp.{arpcache_queuereq, enqueue}
use computer_networking.Router.Returns.{IsReady}
use computer_networking.Router.Returns.Ip.{arpcache_queuereq-Runs, enqueue-Runs}
use computer_networking.Retry.{timeout_round}
use computer_networking.Retry.Bound.{swept, timeout_round-swept}
use computer_networking.System.Threads.{
  Plan, rounds_at, meanwhile, use_shared, find_node, read_req, enqueue_among,
}
use computer_networking.System.Threads.Alone.{find_node-queuereq}

find_node-above : (node n : ℕ) (q : List ArpReq) → Below n q → n ≤ node → find_node node q ≡ none
unfolding find_node
find_node-above node n [] b h = refl
find_node-above node n (r ∷ rs) b h = ground (arith, find_node-above node r.node rs b.1)

swept-Below : (now n : ℕ) (q : List ArpReq) → Below n q → Below n (swept now q)
unfolding swept
swept-Below now n [] b = tt
swept-Below now n (r ∷ rs) b =
    ground (arith, swept-Below now r.node rs b.1, Below-mono r.node n (swept now rs))

-- A round frees the request that was sent five times.
find_node-swept :
    (now n : ℕ) (q : List ArpReq) (node : ℕ) (x : ArpReq)
    → Below n q
    → find_node node q ≡ some x
    → 5 ≤ x.times_sent
    → x.sent < now
    → find_node node (swept now q) ≡ none
unfolding find_node swept
find_node-swept now n [] node x b e many old = refl
find_node-swept now n (r ∷ rs) node x b e many old = ground (
  arith,
  find_node-swept now r.node rs node x b.1,
  find_node-above node r.node (swept now rs) (swept-Below now r.node rs b.1),
)

module _ {A : Type 0} where
  use_shared-step :
      (m : M A) (plan later : Plan) (s t : Router)
      → meanwhile plan s ≡ some (later, t)
      → use_shared m plan s ≡ (m >>= λ value. pure (value, later)) t
  unfolding use_shared ◌>>=◌
  use_shared-step m plan later s t e =
      ap (λ o. elim o [ none ↦ none | some (b, u) ↦ (m >>= λ value. pure (value, b)) u ]) e

meanwhile-none : (plan : Plan) (s : Router) → meanwhile ([] ∷ plan) s ≡ some (plan, s)
unfolding meanwhile rounds_at pure ◌>>=◌
meanwhile-none plan s = refl

meanwhile-one :
    (now : ℕ) (plan : Plan) (s t : Router)
    → timeout_round now s ≡ some (tt, t)
    → meanwhile ((now ∷ []) ∷ plan) s ≡ some (plan, t)
unfolding meanwhile rounds_at pure
meanwhile-one now plan s t e = step-action _ _ s t tt (step-action (timeout_round now) _ s t tt e)

step-fault : {A B : Type 0} (m : M A) (f : A → M B) (s : Router) → m s ≡ none → (m >>= f) s ≡ none
unfolding ◌>>=◌
step-fault m f s e = ap (λ o. elim o [ none ↦ none | some (b, u) ↦ f b u ]) e

sent-add_packet : (packet iface : List ℕ) (r : ArpReq) → (add_packet packet iface r).sent ≡ r.sent
sent-add_packet packet iface r = ground arith

-- The request that is returned for an address that has one.
module _ (hop : ℕ) (frame name : List ℕ) (c : ArpCache) (r : ArpReq)
    (queued : find_ip hop c.requests ≡ some r) where
  queuereq-again : (queuereq hop frame name c).0 ≡ add_packet frame name r
  unfolding queuereq
  queuereq-again = rw (queued, queuereq) refl

read_req-freed :
    (req : ArpReq) (s : Router) → find_node req.node s.cache.requests ≡ none → read_req req s ≡ none
unfolding read_req fault
read_req-freed req s e = step-null (λ s. find_node req.node s.cache.requests) (fault) pure s e

module _ (ifs : List If) (now hop later : ℕ) (frame name : List ℕ) (i : If) (s : Router)
    (r : ArpReq) (ready : IsReady ifs s) (inv : Inv s.cache)
    (known : get_interface name ifs ≡ some i) (long : 42 ≤ length frame)
    (queued : find_ip hop s.cache.requests ≡ some r) (many : 5 ≤ r.times_sent)
    (old : r.sent < later) where
  read-freed :
      let (req, c) = queuereq hop frame i.name s.cache in
      use_shared (read_req req) ((later ∷ []) ∷ []) (record s { cache = c }) ≡ none
  unfolding arpcache_queuereq
  read-freed =
      let (req, c) = queuereq hop frame i.name s.cache in
      let t : Router = record s { cache = c } in
      let (j, copy) = get_interface_copy name ifs i known in
      let (_, ready') =
        (arpcache_queuereq-Runs ifs hop frame i.name
            (record { out = j; known = copy; long = long })).at
          s ready in
      let inv' : Inv c = queuereq-Inv hop frame i.name s.cache inv in
      let (u, f, _, q) = timeout_round-swept ifs later t ready' inv' in
      let again : req ≡ add_packet frame i.name r =
        queuereq-again hop frame i.name s.cache r queued in
      let gone : find_node req.node (swept later c.requests) ≡ none =
        find_node-swept later c.next_node c.requests req.node req inv'.nodes
          (find_node-queuereq hop frame i.name s.cache inv)
          (rw again (omega (arith, times_sent-add_packet frame i.name r)))
          (rw again (omega (arith, sent-add_packet frame i.name r))) in
      use_shared-step (read_req req) ((later ∷ []) ∷ []) [] t u (meanwhile-one later [] t u f)
      ∙ step-fault (read_req req) _ u (read_req-freed req u (rw q gone))

  -- A handler queues a frame of 42 bytes or more, for a known interface, behind a request that was
  -- sent five times, in a state whose waiting packets have a known interface and 42 bytes and whose
  -- cache is well formed. By itself it returns. If a later round of the timer comes when the frame is
  -- queued and the request is not read yet, the handler has undefined behaviour.
  pub enqueue_among-races :
      ((u : Router) × (enqueue now hop frame i s ≡ some (tt, u)))
      × (enqueue_among now hop frame i ([] ∷ (later ∷ []) ∷ []) s ≡ none)
  unfolding enqueue_among arpcache_queuereq pure
  enqueue_among-races =
      let (req, c) = queuereq hop frame i.name s.cache in
      let (u, e, _) =
        Within-some _ _ ((enqueue-Runs ifs now hop frame name i known long).at s ready) in
      (
        (u, e),
        step-action (use_shared (arpcache_queuereq hop frame i.name) ([] ∷ (later ∷ []) ∷ [])) _ s
              (record s { cache = c }) (req, (later ∷ []) ∷ [])
              (use_shared-step (arpcache_queuereq hop frame i.name) ([] ∷ (later ∷ []) ∷ [])
                  ((later ∷ []) ∷ []) s s (meanwhile-none _ s)
                ∙ step-action (arpcache_queuereq hop frame i.name) _ s (record s { cache = c }) req
                    refl)
            ∙ step-fault (use_shared (read_req req) ((later ∷ []) ∷ [])) _ (record s { cache = c })
                read-freed,
      )
