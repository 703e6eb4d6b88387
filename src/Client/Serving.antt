-- ===== src/Client/Serving.antt =====
-- The main loop on proper frames, until the server closes the session.

use computer_networking.Base.{
  ℕ, suc, ◌+◌, ◌≡◌, refl, ap, ◌∙◌, inl, false, none, some, List, [], ◌∷◌, ◌++◌, All, arith, length,
  split_at?, ltb, ltb→ge,
}
use computer_networking.Proto.RoundTrip.{decode_eth_total, decode_arp_total}
use computer_networking.State.{If, Router}
use computer_networking.Exec.{modify}
use computer_networking.Exec.Runs.{
  Runs, Any, Within-some, Runs-pure, Runs-if, Runs-if_null, Runs-bind, Runs-gets, Runs-lift,
}
use computer_networking.Text.{c_string}
use computer_networking.Wire.{log_packet}
use computer_networking.Wire.Safety.{if_list-log_packet, cache-log_packet}
use computer_networking.Router.Returns.{AddrsFit, IsReady}
use computer_networking.Router.Returns.Frames.{handlepacket-Runs}
use computer_networking.System.{run}
use computer_networking.System.Liveness.{rounds}
use computer_networking.System.Returns.{IsProperFrame, IsProper, run-Runs}
use computer_networking.Vns.{Received, on_packet, arp_req_not_for_us}
use computer_networking.Session.{
  Surroundings, Config, Client, closed, on_command, terminated, vnsclose, read_from_server_expect,
}
use computer_networking.Session.Messages.{IsSent, awaiting, read-IsSent}
use computer_networking.Client.{Turns, turn, loop_on, serve}
use computer_networking.Client.Frames.{
  with_router, Stream, arrival, deliver_all, behind, serve-deliver_all,
}

-- A message with a proper frame: 16 bytes name an interface of the router, and the frame behind
-- them has 42 bytes and a header length that stays inside it, if it claims to carry IP.
pub record IsProperMessage (ifs : List If) (rest : List ℕ) : Type 0 where
  pub name : List ℕ
  pub frame : List ℕ
  pub split : split_at? 16 rest ≡ some (name, frame)
  pub proper : IsProperFrame ifs frame (c_string rest)

module _ (ifs : List If) (fit : AddrsFit ifs) where
  arp_req_not_for_us-Runs :
      (frame interface : List ℕ)
      → IsProperFrame ifs frame interface
      → Runs (IsReady ifs) Any (arp_req_not_for_us frame interface)
  unfolding arp_req_not_for_us
  arp_req_not_for_us-Runs frame interface f = Runs-gets _ _ λ s v.
      Runs-if (ltb (length frame) 42) _ _ (λ _. Runs-pure false)
        λ long.
          Runs-if_null _ _ _ (λ e. let same = v.same_ifs in let known = f.known in absurd (cc))
            λ iface _.
              let (e, p, d, l, _, _) =
                decode_eth_total frame (omega (arith, ltb→ge (length frame) 42 long)) in
              let (a, r, d', _) =
                decode_arp_total p (omega (arith, l, ltb→ge (length frame) 42 long)) in
              Runs-lift _ _ (e, p) d (Runs-lift _ _ (a, r) d' (Runs-pure _))

  log_packet-Runs : (frame : List ℕ) → Runs (IsReady ifs) Any (modify (log_packet frame))
  unfolding modify
  log_packet-Runs frame = record {
    at = λ s v. (
      tt,
      record {
        same_ifs = if_list-log_packet frame s ∙ v.same_ifs;
        waiting = rw (cache-log_packet frame s) v.waiting;
      },
    );
  }

  on_packet-Runs :
      (now : ℕ) (rest : List ℕ)
      → IsProperMessage ifs rest
      → Runs (IsReady ifs) Any (on_packet now rest)
  unfolding on_packet
  on_packet-Runs now rest m =
      let f = m.proper in
      Runs-lift _ _ (m.name, m.frame) m.split
        (Runs-bind Any _ _ (arp_req_not_for_us-Runs m.frame (c_string rest) f) λ drop _.
          Runs-if drop _ _ (λ _. Runs-pure tt)
            λ _. Runs-bind Any _ _ (log_packet-Runs m.frame) λ _ _.
              handlepacket-Runs ifs now m.frame (c_string rest) f.arrived_by fit f.known f.whole)

  rounds-IsProper : (ts : List ℕ) → All (IsProper ifs) (rounds ts)
  rounds-IsProper [] = tt
  rounds-IsProper (now ∷ ts) = (tt, rounds-IsProper ts)

  deliver_all-Runs :
      (turns : Turns) (k : ℕ) (rests : List (List ℕ))
      → All (IsProperMessage ifs) rests
      → Runs (IsReady ifs) Any (deliver_all turns k rests)
  unfolding deliver_all arrival
  deliver_all-Runs turns k [] h = Runs-pure tt
  deliver_all-Runs turns k (rest ∷ rests) h =
      Runs-bind Any _ _
        (Runs-bind Any _ _ (run-Runs ifs (rounds (turns k).0) fit (rounds-IsProper (turns k).0))
          λ _ _. on_packet-Runs (turns k).1 rest h.0)
        λ _ _. deliver_all-Runs turns (suc k) rests h.1

-- A close behind the timer's rounds ends the loop.
serve-close :
    (ifs : List If) (w : Surroundings) (g : Config) (turns : Turns) (n k : ℕ) (rest reason : List ℕ)
    (a back : List Received) (c : Client)
    → AddrsFit ifs
    → IsReady ifs c.router
    → IsSent vnsclose rest a
    → terminated rest ≡ some reason
    → (r : Router) × IsReady ifs r
      × (serve (suc n) w g turns k (awaiting (a ++ back) c)
          ≡ some (closed, awaiting back (with_router r c)))
unfolding serve turn on_command
serve-close ifs w g turns n k rest reason a back c fit v m e =
    let next = serve n w g turns (suc k) in
    let (r, f, (_, v')) = Within-some _ (run (rounds (turns k).0) c.router) (
      (run-Runs ifs (rounds (turns k).0) fit (rounds-IsProper ifs fit (turns k).0)).at c.router
        v) in
    (
      r,
      v',
      ap
            (λ o.
              loop_on
                (elim o [
                  | none ↦ none
                  | some (_, u) ↦
                      read_from_server_expect w g (turns k).1 0
                        (awaiting (a ++ back) (with_router u c))
                ])
                next)
            f
          ∙ ap (λ x. loop_on x next)
              (read-IsSent w g (turns k).1 0 vnsclose rest a back (with_router r c) m (inl refl)
                ∙ ap
                    (λ o. elim o [
                      | none ↦ none
                      | some _ ↦ some (closed, awaiting back (with_router r c))
                    ])
                    e),
    )

-- For a router that is ready, whose interfaces have six-byte addresses: where the socket gives any
-- number of messages with proper frames and then a close whose reason ends inside it, all in any
-- pieces, the main loop has no undefined behaviour, handles all of them, and ends with the close.
-- The router is ready again, and the answers behind the close are not used. The fuel is any number
-- above that of the messages.
pub serve-closes :
    (ifs : List If) (w : Surroundings) (g : Config) (turns : Turns) (n k : ℕ)
    (rests : List (List ℕ)) (rest reason : List ℕ) (s a back : List Received) (c : Client)
    → AddrsFit ifs
    → IsReady ifs c.router
    → All (IsProperMessage ifs) rests
    → Stream rests s
    → IsSent vnsclose rest a
    → terminated rest ≡ some reason
    → (r : Router) × IsReady ifs r
      × (serve (length rests + suc n) w g turns k (awaiting (s ++ (a ++ back)) c)
          ≡ some (closed, awaiting back (with_router r c)))
serve-closes ifs w g turns n k rests rest reason s a back c fit v proper stream m e =
    let (r, f, (_, v')) =
      Within-some _ (deliver_all turns k rests c.router)
        ((deliver_all-Runs ifs fit turns k rests proper).at c.router v) in
    let (r', v2, q) =
      serve-close ifs w g turns n (length rests + k) rest reason a back (with_router r c) fit v' m
        e in
    (
      r',
      v2,
      serve-deliver_all w g turns (suc n) k rests s (a ++ back) c stream
          ∙ (ap (behind w g turns (suc n) (length rests + k) (a ++ back) c) f ∙ q),
    )
