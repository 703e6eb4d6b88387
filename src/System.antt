-- ===== src/System.antt =====
-- The router as a whole: frames arrive (`sr_handlepacket`) and the timer fires
-- (`sr_arpcache_timeout`), in any order. Here calls are taken one at a time; in
-- System/Threads rounds of the timer run in the middle of a handler.
pub mod Invariant
pub mod Returns
pub mod Liveness
pub mod Threads
pub mod Delivery
use computer_networking.Base.{ℕ, Bool, Option, none, some, List, [], ◌∷◌}
use computer_networking.State.{If, Rt, Router}
use computer_networking.Exec.{M, pure, ◌>>=◌, ◌>>◌}
use computer_networking.ArpCache
use computer_networking.Router.{handlepacket}
use computer_networking.Retry.{timeout_round}

-- A call, with the time that the clock shows.
pub data Event : Type 0 where
  receives : (now : ℕ) (packet interface : List ℕ) → Event
  ticks : (now : ℕ) → Event

unfoldable pub handle : Event → M (Unit {0})
handle (receives now packet interface) = handlepacket now packet interface
handle (ticks now) = timeout_round now

unfoldable pub run : List Event → M (Unit {0})
run [] = pure tt
run (e ∷ es) = do handle e; run es

-- The state behind `sr_init`: the interfaces and routes are known, and nothing was sent.
abbrev pub boot : List If → List Rt → (List ℕ → Bool) → Router
boot ifs table accepts = record {
  if_list = ifs;
  routing_table = table;
  cache = ArpCache.init;
  logfile = none;
  wire = [];
  accepts = accepts;
}
