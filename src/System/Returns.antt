-- ===== src/System/Returns.antt =====
-- The router never stops on its own: no call of `sr_handlepacket` or of the timer has undefined
-- behaviour, whatever was handled before.

use computer_networking.Base.{ℕ, ◌≡◌, refl, Bool, some, List, [], ◌∷◌, All, ntohs}
use computer_networking.Proto.{EthernetHdr, decode_eth, ethertype_ip}
use computer_networking.State.{If, Rt, Router}
use computer_networking.Exec.Runs.{Runs, Any, Runs-pure, Runs-bind, Within-some}
use computer_networking.Interface.{get_interface}
use computer_networking.ArpCache.{init}
use computer_networking.Router.Returns.{AddrsFit, IsReady}
use computer_networking.Router.Returns.Frames.{IsWhole, handlepacket-Runs}
use computer_networking.Retry.Returns.{timeout_round-Runs}
use computer_networking.System.{Event, receives, ticks, handle, run, boot}

-- A frame arrives on an interface of the router. If it claims to carry IP, it has 42 bytes, and
-- its header's length stays inside it.
pub record IsProperFrame (ifs : List If) (packet interface : List ℕ) : Type 0 where
  pub arrived_by : If
  pub known : get_interface interface ifs ≡ some arrived_by
  pub whole :
      (e : EthernetHdr) (p : List ℕ)
      → decode_eth packet ≡ some (e, p)
      → ntohs e.ether_type ≡ ethertype_ip
      → IsWhole packet

abbrev pub IsProper : List If → Event → Type 0
IsProper ifs (receives now packet interface) = IsProperFrame ifs packet interface
IsProper ifs (ticks now) = Unit

pub run-Runs :
    (ifs : List If) (es : List Event)
    → AddrsFit ifs
    → All (IsProper ifs) es
    → Runs (IsReady ifs) Any (run es)
unfolding run handle
run-Runs ifs [] fit proper = Runs-pure tt
run-Runs ifs (receives now packet interface ∷ es) fit proper =
    let f : IsProperFrame ifs packet interface = proper.0 in
    Runs-bind Any _ _ (handlepacket-Runs ifs now packet interface f.arrived_by fit f.known f.whole)
      (λ _ _. run-Runs ifs es fit proper.1)
run-Runs ifs (ticks now ∷ es) fit proper =
    Runs-bind Any _ _ (timeout_round-Runs ifs now) (λ _ _. run-Runs ifs es fit proper.1)

boot-IsReady :
    (ifs : List If) (table : List Rt) (accepts : List ℕ → Bool)
    → IsReady ifs (boot ifs table accepts)
unfolding init
boot-IsReady ifs table accepts = record { same_ifs = refl; waiting = tt }

pub run-IsReady :
    (ifs : List If) (table : List Rt) (accepts : List ℕ → Bool) (es : List Event)
    → AddrsFit ifs
    → All (IsProper ifs) es
    → (s : Router) × (run es (boot ifs table accepts) ≡ some (tt, s)) × IsReady ifs s
run-IsReady ifs table accepts es fit proper =
    let (s, e, (_, v)) =
      Within-some _ (run es (boot ifs table accepts)) (
        (run-Runs ifs es fit proper).at (boot ifs table accepts)
          (boot-IsReady ifs table accepts)) in
    (s, e, v)

-- From the start of the router with six-byte interface addresses, any sequence of timer rounds and
-- proper frames runs to its end. A frame is proper if it arrives by an interface of the router and,
-- if it claims to carry IP, has 42 bytes and a header length that stays inside it.
pub run-returns :
    (ifs : List If) (table : List Rt) (accepts : List ℕ → Bool) (es : List Event)
    → AddrsFit ifs
    → All (IsProper ifs) es
    → (s : Router) × (run es (boot ifs table accepts) ≡ some (tt, s))
run-returns ifs table accepts es fit proper =
    let (s, e, _) = run-IsReady ifs table accepts es fit proper in (s, e)
