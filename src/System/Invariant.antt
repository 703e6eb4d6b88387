-- ===== src/System/Invariant.antt =====
-- What holds in every state that the router reaches.
use mathlib.Core.Path.{subst}
use computer_networking.Base.{ℕ, ◌≡◌, refl, Bool, Option, some, List, [], ◌∷◌}
use computer_networking.State.{If, Rt, Router, ArpCache}
use computer_networking.Exec.{modify}
use computer_networking.Exec.Keeps.{Keeps, Keeps-pure, Keeps-bind, After}
use computer_networking.ArpCache.Requests.{
  Inv, init-Inv, insert-Inv, destroy-Inv, queuereq-Inv, stamp-Inv, expire-Inv,
}
use computer_networking.Wire.Safety.{
  IsSafe, Sending, too_short, refused, sent, send_packet-Sending, send_packet-IsSafe,
  cache-log_packet,
}
use computer_networking.Router.Arp.{arpcache_insert, arpreq_destroy}
use computer_networking.Router.Icmp.{arpcache_queuereq, arpreq_stamp}
use computer_networking.Router.Keep.{IsKept, handlepacket-Keeps}
use computer_networking.Retry.{expire_entries}
use computer_networking.Retry.Keep.{timeout_round-Keeps}
use computer_networking.System.{Event, receives, ticks, handle, run, boot}

run-Keeps {ℓ} : {P : Router → Type ℓ} → IsKept P → (es : List Event) → Keeps P (run es)
unfolding run handle
run-Keeps k [] = Keeps-pure tt
run-Keeps k (receives now packet interface ∷ es) =
    Keeps-bind _ _ (handlepacket-Keeps k now packet interface) (λ _. run-Keeps k es)
run-Keeps k (ticks now ∷ es) = Keeps-bind _ _ (timeout_round-Keeps k now) (λ _. run-Keeps k es)

with_cache-IsSafe :
    {ifs : List If} {table : List Rt} (s : Router) (c : ArpCache)
    → IsSafe ifs table s
    → IsSafe ifs table (record s { cache = c })
with_cache-IsSafe s c v = record {
  same_ifs = v.same_ifs;
  same_table = v.same_table;
  all_sent = v.all_sent;
}

pub IsSafe-IsKept : (ifs : List If) (table : List Rt) → IsKept (IsSafe ifs table)
unfolding arpcache_insert arpreq_destroy arpcache_queuereq arpreq_stamp expire_entries modify
IsSafe-IsKept ifs table = record {
  sends = send_packet-IsSafe ifs table;
  inserts = λ now mac ip. record { at = λ s v. with_cache-IsSafe s _ v };
  destroys = λ req. record { at = λ s v. with_cache-IsSafe s _ v };
  queues = λ ip packet iface. record { at = λ s v. with_cache-IsSafe s _ v };
  stamps = λ now times req h. record { at = λ s v. with_cache-IsSafe s _ v };
  expires = λ now. record { at = λ s v. with_cache-IsSafe s _ v };
}

abbrev pub CacheInv : Router → Type 0
CacheInv s = Inv s.cache

Sending-Inv :
    (buf iface : List ℕ) (s : Router) (r : Option (Bool × Router))
    → Sending buf iface s r
    → Inv s.cache
    → After (λ _. CacheInv) r
Sending-Inv buf iface s _ (too_short h) v = v
Sending-Inv buf iface s _ refused v = rw cache-log_packet v
Sending-Inv buf iface s _ (sent m a) v = rw cache-log_packet v

pub Inv-IsKept : IsKept CacheInv
unfolding arpcache_insert arpreq_destroy arpcache_queuereq arpreq_stamp expire_entries modify
Inv-IsKept = record {
  sends = λ buf iface. record {
    at = λ s v. Sending-Inv buf iface s _ (send_packet-Sending buf iface s) v;
  };
  inserts = λ now mac ip. record { at = λ s v. insert-Inv now mac ip s.cache v };
  destroys = λ req. record { at = λ s v. destroy-Inv req s.cache v };
  queues = λ ip packet iface. record { at = λ s v. queuereq-Inv ip packet iface s.cache v };
  stamps = λ now times req h. record { at = λ s v. stamp-Inv now times req s.cache h v };
  expires = λ now. record { at = λ s v. expire-Inv now s.cache v };
}

module _ (ifs : List If) (table : List Rt) (accepts : List ℕ → Bool) (es : List Event) (s : Router)
    (ran : run es (boot ifs table accepts) ≡ some (tt, s)) where
  -- In every state in which a run of any events from the start of the router ends, the interfaces
  -- and routes are those of the start, and every message on the wire is a frame sent by an interface
  -- of that name from that interface's own address.
  pub run-IsSafe : IsSafe ifs table s
  run-IsSafe = subst (After (λ _. IsSafe ifs table)) ran (
      (run-Keeps (IsSafe-IsKept ifs table) es).at (boot ifs table accepts)
        (record { same_ifs = refl; same_table = refl; all_sent = tt }))

  -- In every state in which a run of any events from the start of the router ends, the cache has 100
  -- slots, the requests are distinct nodes for distinct addresses, and no request was sent more than
  -- five times.
  pub run-Inv : Inv s.cache
  run-Inv =
      subst (After (λ _. CacheInv)) ran
        ((run-Keeps Inv-IsKept es).at (boot ifs table accepts) init-Inv)
