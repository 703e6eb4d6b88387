-- ===== src/System/Threads/Alone.antt =====
-- A main thread that the timer leaves alone.
use computer_networking.Base.{
  ℕ, ◌<◌, ◌≡◌, refl, ap, ◌∙◌, inl, inr, Bool, true, false, Option, none, some, List, [], ◌∷◌, arith,
  ◌==◌, if◌then◌else◌, Option-cases,
}
use computer_networking.State.{If, Router, ArpReq, ArpCache}
use computer_networking.Exec.Steps.{step-action, step-found}
use computer_networking.Exec.{M, pure, fault, gets, lift, if_null, ◌>>=◌}
use computer_networking.Exec.Keeps.{After, Keeps}
use computer_networking.ArpCache.{queuereq, find_ip, on_node, add_packet, new_req}
use computer_networking.ArpCache.Requests.{Inv, Below, node-add_packet}
use computer_networking.Wire.{send_packet}
use computer_networking.Wire.Safety.{
  Sending, too_short, refused, sent, send_packet-Sending, cache-log_packet,
}
use computer_networking.Router.Arp.{send_arp_request, arpcache_insert, arpreq_destroy}
use computer_networking.Router.{handlepacket}
use computer_networking.Retry.{timeout_round}
use computer_networking.Retry.Keep.{timeout_round-Keeps}
use computer_networking.System.{Event, receives, ticks, handle, run}
use computer_networking.Router.Icmp.{enqueue, arpcache_queuereq, arpreq_stamp}
use computer_networking.Router.Parts.{
  Parts, returns, faults, lifts, reads, tests, nulls, binds, sends, inserts, destroys, asks,
  handlepacket_parts,
}
use computer_networking.Router.Keep.{Parts-Keeps, handlepacket-Keeps, send_arp_request-Keeps}
use computer_networking.System.Invariant.{Inv-IsKept}
use computer_networking.System.Threads.{
  Plan, meanwhile, use_shared, find_node, read_req, enqueue_among, among, run_among,
}

module _ {A : Type 0} where
  -- A result with a plan that is used up.
  abbrev pub with_nil : Option (A × Router) → Option ((A × Plan) × Router)
  with_nil none = none
  with_nil (some (a, s)) = some ((a, []), s)

  with_nil-pure :
      (o : Option (A × Router))
      → elim o [ none ↦ none | some (a, t) ↦ pure {A = A × Plan} (a, []) t ] ≡ with_nil o
  unfolding pure
  with_nil-pure none = refl
  with_nil-pure (some (a, t)) = refl

  pure-nil : (a : A) (s : Router) → pure {A = A × Plan} (a, []) s ≡ with_nil (pure a s)
  unfolding pure
  pure-nil a s = refl

  fault-nil : (s : Router) → fault {A = A × Plan} s ≡ with_nil (fault {A = A} s)
  unfolding fault
  fault-nil s = refl

  lift-nil :
      (o : Option A) (s : Router)
      → (lift o >>= λ a. pure {A = A × Plan} (a, [])) s ≡ with_nil (lift o s)
  unfolding lift ◌>>=◌ pure
  lift-nil none s = refl
  lift-nil (some a) s = refl

  use_shared-nil : (m : M A) (s : Router) → use_shared m [] s ≡ with_nil (m s)
  unfolding use_shared meanwhile ◌>>=◌ pure
  use_shared-nil m s = with_nil-pure (m s)

  if-nil :
      (b : Bool) (taken other : M (A × Plan)) (m n : M A) (s : Router)
      → taken s ≡ with_nil (m s)
      → other s ≡ with_nil (n s)
      → (if b then taken else other) s ≡ with_nil ((if b then m else n) s)
  if-nil true taken other m n s et en = et
  if-nil false taken other m n s et en = en

module _ {A B : Type 0} where
  elim_nil :
      (o : Option (A × Router)) (f : A → M B) (g : A × Plan → M (B × Plan))
      → After (λ a t. g (a, []) t ≡ with_nil (f a t)) o
      → elim (with_nil o) [ none ↦ none | some (b, u) ↦ g b u ]
        ≡ with_nil (elim o [ none ↦ none | some (a, u) ↦ f a u ])
  elim_nil none f g h = refl
  elim_nil (some (a, t)) f g h = h

  bind-nil :
      (m : M A) (m' : M (A × Plan)) (f : A → M B) (g : A × Plan → M (B × Plan)) (s : Router)
      → m' s ≡ with_nil (m s)
      → After (λ a t. g (a, []) t ≡ with_nil (f a t)) (m s)
      → (m' >>= g) s ≡ with_nil ((m >>= f) s)
  unfolding ◌>>=◌
  bind-nil m m' f g s e h =
      ap (λ o. elim o [ none ↦ none | some (b, u) ↦ g b u ]) e ∙ elim_nil (m s) f g h

After-map {ℓ κ} :
    {A : Type 0} {P : A → Router → Type ℓ} {Q : A → Router → Type κ} (o : Option (A × Router))
    → After P o
    → ((a : A) (s : Router) → P a s → Q a s)
    → After Q o
After-map none h f = tt
After-map (some (a, s)) h f = f a s h

-- The request that the queue returns is on it.
find_ip-Below :
    (n ip : ℕ) (rs : List ArpReq) (r : ArpReq) → Below n rs → find_ip ip rs ≡ some r → r.node < n
unfolding find_ip
find_ip-Below n ip [] r b e = absurd (cc)
find_ip-Below n ip (q ∷ rs) r b e = ground (arith, find_ip-Below q.node ip rs r b.1)

find_node-on_node :
    (f : ArpReq → ArpReq) (n ip : ℕ) (rs : List ArpReq) (r : ArpReq)
    → ((q : ArpReq) → (f q).node ≡ q.node)
    → Below n rs
    → find_ip ip rs ≡ some r
    → find_node r.node (on_node r.node f rs) ≡ some (f r)
unfolding find_ip find_node on_node
find_node-on_node f n ip [] r same b e = absurd (cc)
find_node-on_node f n ip (q ∷ rs) r same b e =
    ground
      (arith, same q, find_ip-Below q.node ip rs r b.1, find_node-on_node f q.node ip rs r same b.1)

find_node-head : (r : ArpReq) (rs : List ArpReq) → find_node r.node (r ∷ rs) ≡ some r
unfolding find_node
find_node-head r rs = ground arith

pub find_node-queuereq :
    (ip : ℕ) (packet iface : List ℕ) (c : ArpCache)
    → Inv c
    → find_node (queuereq ip packet iface c).0.node (queuereq ip packet iface c).1.requests
      ≡ some (queuereq ip packet iface c).0
unfolding queuereq
find_node-queuereq ip packet iface c v = elim (Option-cases (find_ip ip c.requests)) [
  | inl e ↦
      rw (e, queuereq)
        (find_node-head (add_packet packet iface (new_req c.next_node ip)) c.requests)
  | inr (r, e) ↦
      rw (e, queuereq, node-add_packet packet iface r)
        (find_node-on_node (add_packet packet iface) c.next_node ip c.requests r
          (node-add_packet packet iface) v.nodes e)
]

-- A request that is on the queue is read as it is.
read_req-found :
    (req : ArpReq) (s : Router)
    → find_node req.node s.cache.requests ≡ some req
    → read_req req s ≡ some (req, s)
unfolding read_req pure
read_req-found req s e = step-found (λ s. find_node req.node s.cache.requests) (fault) pure s req e

abbrev SameCache : ArpCache → Router → Type 0
SameCache c s = s.cache ≡ c

Sending-SameCache :
    (c : ArpCache) (buf iface : List ℕ) (s : Router) (r : Option (Bool × Router))
    → Sending buf iface s r
    → s.cache ≡ c
    → After (λ _. SameCache c) r
Sending-SameCache c buf iface s _ (too_short h) v = v
Sending-SameCache c buf iface s _ refused v = rw cache-log_packet v
Sending-SameCache c buf iface s _ (sent m a) v = rw cache-log_packet v

send_packet-SameCache :
    (c : ArpCache) (buf iface : List ℕ) → Keeps (SameCache c) (send_packet buf iface)
send_packet-SameCache c buf iface = record {
  at = λ s v. Sending-SameCache c buf iface s _ (send_packet-Sending buf iface s) v;
}

module _ (now hop : ℕ) (frame : List ℕ) (out_iface : If) where
  stamp-nil :
      (req : ArpReq) (s : Router)
      → find_node req.node s.cache.requests ≡ some req
      → use_shared (do live ← read_req req; arpreq_stamp now 1 live) [] s
        ≡ with_nil (arpreq_stamp now 1 req s)
  stamp-nil req s e =
      use_shared-nil _ s
      ∙ ap with_nil
          (step-action (read_req req) (arpreq_stamp now 1) s s req (read_req-found req s e))

  enqueue-nil :
      (s : Router)
      → Inv s.cache
      → enqueue_among now hop frame out_iface [] s ≡ with_nil (enqueue now hop frame out_iface s)
  unfolding enqueue_among enqueue arpcache_queuereq
  enqueue-nil s v =
      let (req, c) = queuereq hop frame out_iface.name s.cache in
      let t : Router = record s { cache = c } in
      let on_queue : find_node req.node c.requests ≡ some req =
        find_node-queuereq hop frame out_iface.name s.cache v in
      bind-nil (arpcache_queuereq hop frame out_iface.name) _ _ _ s (use_shared-nil _ s) (
        step-action (use_shared (read_req req) []) _ t t (req, [])
          (use_shared-nil _ t ∙ ap with_nil (read_req-found req t on_queue))
        ∙ if-nil (req.times_sent == 0) _ _ _ _ t
            (bind-nil (send_arp_request hop out_iface.name) _ _ _ t (use_shared-nil _ t) (
              After-map (send_arp_request hop out_iface.name t)
                ((send_arp_request-Keeps (send_packet-SameCache c) hop out_iface.name).at t refl)
                (λ a u e. stamp-nil req u (rw e on_queue))))
            (pure-nil tt t))

-- With no round of the timer in between, an action does what it does by itself.
pub among-nil :
    {A : Type 0} {m : M A} (parts : Parts A m) (s : Router)
    → Inv s.cache
    → among parts [] s ≡ with_nil (m s)
unfolding among if_null
among-nil (returns value) s v = pure-nil value s
among-nil {A} faults s v = fault-nil s
among-nil (lifts o) s v = lift-nil o s
among-nil (reads read) s v = use_shared-nil (gets read) s
among-nil (tests true yes' no') s v = among-nil yes' s v
among-nil (tests false yes' no') s v = among-nil no' s v
among-nil (nulls none null found) s v = among-nil null s v
among-nil (nulls (some a) null found) s v = among-nil (found a) s v
among-nil (binds {first = m} first rest) s v =
    bind-nil m _ _ _ s (among-nil first s v)
      (After-map (m s) ((Parts-Keeps Inv-IsKept first).at s v) (λ a t w. among-nil (rest a) t w))
among-nil (sends buf iface) s v = use_shared-nil (send_packet buf iface) s
among-nil (inserts now mac ip) s v = use_shared-nil (arpcache_insert now mac ip) s
among-nil (destroys req) s v = use_shared-nil (arpreq_destroy req) s
among-nil (asks now hop frame out_iface) s v = enqueue-nil now hop frame out_iface s v

rest_run :
    (es : List Event) (o : Option (Unit {0} × Router))
    → After (λ _ t. run_among es [] t ≡ run es t) o
    → elim (with_nil o) [ none ↦ none | some ((_, later), t) ↦ run_among es later t ]
      ≡ elim o [ none ↦ none | some (_, t) ↦ run es t ]
rest_run es none h = refl
rest_run es (some (_, t)) h = h

rest_ticks :
    (es : List Event) (o : Option (Unit {0} × Router))
    → After (λ _ t. run_among es [] t ≡ run es t) o
    → elim o [ none ↦ none | some (_, t) ↦ run_among es [] t ]
      ≡ elim o [ none ↦ none | some (_, t) ↦ run es t ]
rest_ticks es none h = refl
rest_ticks es (some (_, t)) h = h

-- From every state with a well-formed cache, the run of two threads with no rounds of the timer
-- inside a handler is the run of the calls one after the other.
pub run_among-run : (es : List Event) (s : Router) → Inv s.cache → run_among es [] s ≡ run es s
unfolding run_among run handle ◌>>=◌
run_among-run [] s v = refl
run_among-run (receives now packet interface ∷ es) s v =
    ap (λ o. elim o [ none ↦ none | some ((_, later), t) ↦ run_among es later t ])
      (among-nil (handlepacket_parts now packet interface) s v)
    ∙ rest_run es (handlepacket now packet interface s) (
        After-map (handlepacket now packet interface s)
          ((handlepacket-Keeps Inv-IsKept now packet interface).at s v)
          (λ _ t w. run_among-run es t w))
run_among-run (ticks now ∷ es) s v = rest_ticks es (timeout_round now s) (
    After-map (timeout_round now s) ((timeout_round-Keeps Inv-IsKept now).at s v)
      (λ _ t w. run_among-run es t w))
