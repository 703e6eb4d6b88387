-- ===== src/Client/Loop.antt =====
-- The main loop ends: each of its turns uses an answer of the socket.
use computer_networking.Base.{
  ℕ, zero, suc, ◌≤◌, ◌<◌, ◌≢◌, refl, ap, inl, inr, Option, none, some, List, [], arith, length,
}
use computer_networking.Proto.{load32}
use computer_networking.Vns.{Received, Reading}
use computer_networking.Vns.Progress.{
  left, no_failure, no_whole, UnusedIf, undefined, defined, sized, sized-Unused, read_message-sized,
  read_loop-first, elim-both,
}
use computer_networking.System.{run}
use computer_networking.System.Liveness.{rounds}
use computer_networking.Session.{
  Surroundings, Config, Client, Outcome, goes_on, closed, broken, blocked, on_reading,
  read_from_server_expect,
}
use computer_networking.Session.Answers.{Leaves, on_message-Leaves}
use computer_networking.Client.{Turns, turn, loop_on, serve}

-- A call ends the loop, or leaves fewer answers than there were.
pub data Progress (n : ℕ) : Option (Outcome × Client) → Type 0 where
  faults : Progress n none
  goes : (o : Outcome) (c : Client) → length c.answers < n → Progress n (some (o, c))
  stops : (o : Outcome) (c : Client) → o ≢ goes_on → Progress n (some (o, c))

-- What a call may do with the answers.
Leaves-Progress :
    {n : ℕ} {s : List Received} {r : Option (Outcome × Client)}
    → length s < n
    → Leaves s r
    → Progress n r
Leaves-Progress h Leaves.faults = faults
Leaves-Progress h (Leaves.leaves o c e) = goes o c (omega (arith, ap length e, h))

on_reading-Progress :
    (w : Surroundings) (g : Config) (now expected n : ℕ) (c : Client) {o : Option Reading}
    → UnusedIf n o
    → Progress (suc n) (on_reading w g now expected o c)
unfolding on_reading
on_reading-Progress w g now expected n c undefined = faults
on_reading-Progress w g now expected n c (defined _ (left got unused h)) =
    Leaves-Progress (omega (arith, h))
      (on_message-Leaves w g now expected (load32 got) (record c { answers = unused }))
on_reading-Progress w g now expected n c (defined _ no_failure) = stops broken _ (λ e. absurd (cc))
on_reading-Progress w g now expected n c (defined _ (no_whole got)) =
    stops blocked _ (λ e. absurd (cc))

Progress-weaken : {m n : ℕ} {r : Option (Outcome × Client)} → m ≤ n → Progress m r → Progress n r
Progress-weaken h faults = faults
Progress-weaken h (goes o c l) = goes o c (omega (arith, l, h))
Progress-weaken h (stops o c d) = stops o c d

read-Progress :
    (w : Surroundings) (g : Config) (now expected : ℕ) (c : Client)
    → Progress (length c.answers) (read_from_server_expect w g now expected c)
unfolding read_from_server_expect on_reading sized
read-Progress w g now expected c =
    rw (read_message-sized c.answers) (elim (read_loop-first c.answers) [
      | inl e ↦ rw e (stops blocked (record c { answers = [] }) (λ e'. absurd (cc)))
      | inr (n, h, u) ↦
          Progress-weaken (omega (arith, h))
            (on_reading-Progress w g now expected n c (sized-Unused u))
    ])

turn-Progress :
    (w : Surroundings) (g : Config) (t : List ℕ × ℕ) (c : Client)
    → Progress (length c.answers) (turn w g t c)
unfolding turn
turn-Progress w g (ts, now) c =
    elim-both (Progress (length c.answers)) (run (rounds ts) c.router) faults
      λ r. read-Progress w g now 0 (record c { router = r.1 })

-- How the loop ends: by undefined behaviour, or with an outcome that is no order to go on.
pub data Ended : Option (Outcome × Client) → Type 0 where
  by_fault : Ended none
  by_outcome : (o : Outcome) (c : Client) → o ≢ goes_on → Ended (some (o, c))

loop_on-Ended :
    {m : ℕ} {r : Option (Outcome × Client)} (next : Client → Option (Outcome × Client))
    → Progress m r
    → ((c : Client) → length c.answers < m → Ended (next c))
    → Ended (loop_on r next)
loop_on-Ended next faults f = by_fault
loop_on-Ended next (goes goes_on c h) f = f c h
loop_on-Ended next (goes closed c h) f = by_outcome closed c (λ e. absurd (cc))
loop_on-Ended next (goes broken c h) f = by_outcome broken c (λ e. absurd (cc))
loop_on-Ended next (goes blocked c h) f = by_outcome blocked c (λ e. absurd (cc))
loop_on-Ended next (stops goes_on c d) f = absurd (d refl)
loop_on-Ended next (stops closed c d) f = by_outcome closed c d
loop_on-Ended next (stops broken c d) f = by_outcome broken c d
loop_on-Ended next (stops blocked c d) f = by_outcome blocked c d

-- The main loop ends, whatever the socket answers: with more fuel than there are answers, it is
-- never cut off. It ends by undefined behaviour, with a close, with an error, or in a call that
-- waits for answers that do not come.
pub serve-Ended :
    (n : ℕ) (w : Surroundings) (g : Config) (turns : Turns) (k : ℕ) (c : Client)
    → length c.answers < n
    → Ended (serve n w g turns k c)
unfolding serve
serve-Ended zero w g turns k c h = absurd (omega arith)
serve-Ended (suc n) w g turns k c h =
    loop_on-Ended (serve n w g turns (suc k)) (turn-Progress w g (turns k) c)
      (λ after l. serve-Ended n w g turns (suc k) after (omega (arith, l, h)))
