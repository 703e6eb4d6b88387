-- ===== src/Client/Frames.antt =====
-- The main loop on a stream of frames: it does what the router's handlers do, one after the other.
use mathlib.Core.List.{append_assoc}
use computer_networking.Base.{
  ℕ, suc, ◌+◌, ◌≡◌, refl, ap, ◌∙◌, inl, Option, none, some, List, [], ◌∷◌, ◌++◌, arith, length,
}
use computer_networking.State.{Router}
use computer_networking.Exec.{M, pure, ◌>>=◌, ◌>>◌}
use computer_networking.Wire.{vns_packet}
use computer_networking.System.{run}
use computer_networking.System.Liveness.{rounds}
use computer_networking.Vns.{Received, on_packet}
use computer_networking.Session.{
  Surroundings, Config, Client, Outcome, goes_on, on_command, on_router, read_from_server_expect,
}
use computer_networking.Session.Messages.{IsSent, awaiting, read-IsSent}
use computer_networking.Client.{Turns, turn, loop_on, serve}

abbrev pub with_router : Router → Client → Client
with_router r c = record c { router = r }

-- The answers that give messages with frames, one after the other.
pub data Stream : List (List ℕ) → List Received → Type 0 where
  no_more : Stream [] []
  packet :
      {rests : List (List ℕ)} {s : List Received} (rest : List ℕ) (a : List Received)
      → IsSent vns_packet rest a
      → Stream rests s
      → Stream (rest ∷ rests) (a ++ s)

-- What a turn does to the router: the timer's rounds, and the handling of the frame.
unfoldable pub arrival : List ℕ × ℕ → List ℕ → M (Unit {0})
arrival (ts, now) rest = do run (rounds ts); on_packet now rest

unfoldable pub deliver_all : Turns → ℕ → List (List ℕ) → M (Unit {0})
unfolding arrival
deliver_all turns k [] = pure tt
deliver_all turns k (rest ∷ rests) = do arrival (turns k) rest; deliver_all turns (suc k) rests

abbrev packet_after : ℕ → List ℕ → Option (Unit {0} × Router) → Option (Unit {0} × Router)
packet_after now rest o = elim o [ none ↦ none | some (_, r) ↦ on_packet now rest r ]

abbrev went_on : Client → Option (Unit {0} × Router) → Option (Outcome × Client)
went_on c o = elim o [ none ↦ none | some (_, r) ↦ some (goes_on, with_router r c) ]

abbrev fuel_for : List (List ℕ) → ℕ → ℕ
fuel_for [] n = n
fuel_for (_ ∷ rests) n = suc (fuel_for rests n)

abbrev turn_after : List (List ℕ) → ℕ → ℕ
turn_after [] k = k
turn_after (_ ∷ rests) k = turn_after rests (suc k)

fuel_for-length : (rests : List (List ℕ)) (n : ℕ) → length rests + n ≡ fuel_for rests n
fuel_for-length [] n = omega arith
fuel_for-length (_ ∷ rests) n = omega (arith, fuel_for-length rests n)

turn_after-length : (rests : List (List ℕ)) (k : ℕ) → length rests + k ≡ turn_after rests k
turn_after-length [] k = omega arith
turn_after-length (_ ∷ rests) k = omega (arith, turn_after-length rests (suc k))

module _ (w : Surroundings) (g : Config) (turns : Turns) where
  abbrev read_after : ℕ → Client → Option (Unit {0} × Router) → Option (Outcome × Client)
  read_after now c o = elim o [
    | none ↦ none
    | some (_, r) ↦ read_from_server_expect w g now 0 (with_router r c)
  ]

  turn-packet :
      (t : List ℕ × ℕ) (rest : List ℕ) (a s : List Received) (c : Client)
      → IsSent vns_packet rest a
      → turn w g t (awaiting (a ++ s) c) ≡ on_router (arrival t rest) (λ _. goes_on) (awaiting s c)
  unfolding turn arrival ◌>>=◌ on_command
  turn-packet (ts, now) rest a s c m =
      elim (run (rounds ts) c.router)
        as (λ o.
          read_after now (awaiting (a ++ s) c) o
          ≡ went_on (awaiting s c) (packet_after now rest o)) [
            | none ↦ refl
            | some (_, r) ↦ read-IsSent w g now 0 vns_packet rest a s (with_router r c) m (inl refl)
          ]

  -- The loop behind the frames.
  abbrev pub behind :
      ℕ → ℕ → List Received → Client → Option (Unit {0} × Router) → Option (Outcome × Client)
  behind n k back c o = elim o [
    | none ↦ none
    | some (_, r) ↦ serve n w g turns k (awaiting back (with_router r c))
  ]

  deliver_after : ℕ → List (List ℕ) → Option (Unit {0} × Router) → Option (Unit {0} × Router)
  deliver_after k rests o = elim o [ none ↦ none | some (_, r) ↦ deliver_all turns k rests r ]

  serve-Stream :
      (n k : ℕ) (rests : List (List ℕ)) (s back : List Received) (c : Client)
      → Stream rests s
      → serve (fuel_for rests n) w g turns k (awaiting (s ++ back) c)
        ≡ behind n (turn_after rests k) back c (deliver_all turns k rests c.router)
  unfolding deliver_all serve pure ◌>>=◌ deliver_after
  serve-Stream n k _ _ back c no_more = refl
  serve-Stream n k _ _ back c (packet {rests} {s} rest a m more) =
      let next = serve (fuel_for rests n) w g turns (suc k) in
      ap (λ x. serve (suc (fuel_for rests n)) w g turns k (awaiting x c)) (append_assoc a s back)
      ∙ (ap (λ r. loop_on r next) (turn-packet (turns k) rest a (s ++ back) c m)
          ∙ elim (arrival (turns k) rest c.router)
              as (λ o.
                loop_on (went_on (awaiting (s ++ back) c) o) next
                ≡ behind n (turn_after rests (suc k)) back c (deliver_after (suc k) rests o)) [
                  | none ↦ refl
                  | some (_, r) ↦ serve-Stream n (suc k) rests s back (with_router r c) more
                ])

  -- Where the socket gives messages with frames, in any pieces, the main loop runs the timer's
  -- rounds and handles the frames in their order, and then goes on with what the socket gives next;
  -- until then it has undefined behaviour exactly where these have.
  pub serve-deliver_all :
      (n k : ℕ) (rests : List (List ℕ)) (s back : List Received) (c : Client)
      → Stream rests s
      → serve (length rests + n) w g turns k (awaiting (s ++ back) c)
        ≡ behind n (length rests + k) back c (deliver_all turns k rests c.router)
  serve-deliver_all n k rests s back c m =
      rw (fuel_for-length rests n, turn_after-length rests k) (serve-Stream n k rests s back c m)
