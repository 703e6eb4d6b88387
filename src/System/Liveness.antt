-- ===== src/System/Liveness.antt =====
-- Requests do not stay on the queue: without an answer, each is given up.
use mathlib.Core.Path.{subst}
use computer_networking.Base.{
  ℕ, suc, ◌+◌, ◌≤◌, ◌<◌, ◌≡◌, refl, ap, sym, ◌∙◌, Bool, none, some, List, [], ◌∷◌, All, arith,
  length,
}
use computer_networking.State.{If, Rt, Router, ArpReq}
use computer_networking.Exec.{pure, modify, gets, ◌>>=◌}
use computer_networking.Exec.Keeps.{After}
use computer_networking.ArpCache.{init, expire, expire_entry}
use computer_networking.ArpCache.Requests.{Inv, FewSent}
use computer_networking.Router.Returns.{AddrsFit, IsReady}
use computer_networking.Retry.{timeout_round, expire_entries, sweepreqs, sweep_loop}
use computer_networking.Retry.Keep.{timeout_round-Keeps}
use computer_networking.Retry.Bound.{timeout_round-swept, IsAsked, swept-IsAsked}
use computer_networking.System.{Event, ticks, handle, run, boot}
use computer_networking.System.Invariant.{Inv-IsKept, CacheInv, run-Inv}
use computer_networking.System.Returns.{IsProper, run-IsReady}

-- The times rise, from `t` on.
abbrev pub Rising : ℕ → List ℕ → Type 0
Rising t [] = Unit {0}
Rising t (now ∷ ts) = (t < now) × Rising now ts

abbrev pub rounds : List ℕ → List Event
rounds [] = []
rounds (now ∷ ts) = ticks now ∷ rounds ts

no_requests : (t : ℕ) (q : List ArpReq) → FewSent q → All (IsAsked t 6) q → q ≡ []
no_requests t [] f a = refl
no_requests t (r ∷ rs) (few, f) (asked, a) = absurd (omega (arith, few, asked.times))

run-ticks :
    (now : ℕ) (es : List Event) (s t : Router)
    → timeout_round now s ≡ some (tt, t)
    → run (ticks now ∷ es) s ≡ run es t
unfolding run handle ◌>>=◌
run-ticks now es s t e = ap (λ o. elim o [ none ↦ none | some (_, u) ↦ run es u ]) e

rounds-empty :
    (ifs : List If) (t k : ℕ) (ts : List ℕ) (s : Router)
    → IsReady ifs s
    → Inv s.cache
    → All (IsAsked t k) s.cache.requests
    → length ts + k ≡ 6
    → Rising t ts
    → (u : Router) × (run (rounds ts) s ≡ some (tt, u)) × (u.cache.requests ≡ [])
unfolding run pure
rounds-empty ifs t k [] s v i a n r =
    let six : k ≡ 6 = omega arith in
    (s, refl, no_requests t s.cache.requests i.few_sent (rw six at a))
rounds-empty ifs t k (now ∷ ts) s v i a n r =
    let (s', e, v', q) = timeout_round-swept ifs now s v i in
    let i' : Inv s'.cache =
      subst (After (λ _. CacheInv)) e ((timeout_round-Keeps Inv-IsKept now).at s i) in
    let a' : All (IsAsked now (suc k)) s'.cache.requests =
      subst (All (IsAsked now (suc k))) (sym q) (swept-IsAsked t now k s.cache.requests r.0 a) in
    let (u, f, empty) = rounds-empty ifs now (suc k) ts s' v' i' a' (omega (arith, n)) r.1 in
    (u, rw (run-ticks now (rounds ts) s s' e) f, empty)

at_least_none : (t : ℕ) (q : List ArpReq) → All (λ r. r.sent ≤ t) q → All (IsAsked t 0) q
at_least_none t [] h = tt
at_least_none t (r ∷ rs) h = (record { by = h.0; times = omega arith }, at_least_none t rs h.1)

-- From every state that the router with six-byte interface addresses reaches by proper events, six
-- rounds of the timer, each at least a second after the one before and the first after the last
-- request of any address, run to their end and leave no request on the queue.
pub rounds_drain :
    (ifs : List If) (table : List Rt) (accepts : List ℕ → Bool) (es : List Event) (s : Router)
    (t : ℕ) (ts : List ℕ)
    → AddrsFit ifs
    → All (IsProper ifs) es
    → run es (boot ifs table accepts) ≡ some (tt, s)
    → All (λ r. r.sent ≤ t) s.cache.requests
    → length ts ≡ 6
    → Rising t ts
    → (u : Router) × (run (rounds ts) s ≡ some (tt, u)) × (u.cache.requests ≡ [])
rounds_drain ifs table accepts es s t ts fit proper ran by six rising =
    let (s', e, v) = run-IsReady ifs table accepts es fit proper in
    let same : s' ≡ s = cc in
    rounds-empty ifs t 0 ts s (rw same at v) (run-Inv ifs table accepts es s ran)
      (at_least_none t s.cache.requests by) (omega (arith, six)) rising

expire-init : (now : ℕ) → expire now init ≡ init
unfolding expire init expire_entry
expire-init now = refl

timeout_round-idle :
    (now : ℕ) (s : Router)
    → timeout_round now (record s { cache = init }) ≡ some (tt, record s { cache = init })
unfolding timeout_round expire_entries sweepreqs sweep_loop modify gets pure ◌>>=◌ init expire
    expire_entry
timeout_round-idle now s = refl

-- Rounds of the timer with an empty cache change nothing.
pub run-idle :
    (ts : List ℕ) (s : Router)
    → run (rounds ts) (record s { cache = init }) ≡ some (tt, record s { cache = init })
unfolding run pure
run-idle [] s = refl
run-idle (now ∷ ts) s =
    run-ticks now (rounds ts) (record s { cache = init }) (record s { cache = init })
      (timeout_round-idle now s)
    ∙ run-idle ts s
