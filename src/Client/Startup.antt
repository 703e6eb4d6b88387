-- ===== src/Client/Startup.antt =====
-- The first turn of the main loop: the server describes the hardware.
use mathlib.Core.Path.{subst}
use computer_networking.Base.{
  ℕ, suc, ◌≤◌, ◌<◌, ◌≡◌, refl, sym, ap, ◌∙◌, inl, none, some, List, ◌++◌, arith, length,
  length-append,
}
use computer_networking.ArpCache.{init}
use computer_networking.State.{If, Router}
use computer_networking.Exec.{pure}
use computer_networking.Route.{verify_routing_table}
use computer_networking.System.{run}
use computer_networking.System.Liveness.{rounds, run-idle}
use computer_networking.Vns.{HwEntry, Received}
use computer_networking.Vns.Setup.{equip}
use computer_networking.Vns.Stream.{Delivers, done, piece, again}
use computer_networking.Vns.Hardware.{Describes, encode_entries, on_hwinfo-equip}
use computer_networking.Session.{
  Surroundings, Config, Client, on_command, one_or_broken, read_from_server_expect, vnshwinfo,
}
use computer_networking.Session.Messages.{IsSent, awaiting, read-IsSent}
use computer_networking.Client.{Turns, turn, loop_on, serve}
use computer_networking.Client.Frames.{with_router, Stream, no_more, packet}

Delivers-some : {n : ℕ} {d : List ℕ} {s : List Received} → 0 < n → Delivers n d s → 1 ≤ length s
Delivers-some h done = absurd (omega arith)
Delivers-some h (piece chunk l r) = omega arith
Delivers-some h (again l r) = omega arith

pub length-IsSent :
    (command : ℕ) (rest : List ℕ) (a : List Received) → IsSent command rest a → 1 ≤ length a
length-IsSent command rest a m =
    let some_size : 1 ≤ length m.size_part = Delivers-some (omega arith) m.size in
    omega (arith, ap length m.same, length-append m.size_part m.body_part)

pub length-Stream :
    {rests : List (List ℕ)} {s : List Received} → Stream rests s → length rests ≤ length s
length-Stream no_more = omega arith
length-Stream (packet {rests} {s} rest a m more) =
    omega (arith, length-IsSent _ rest a m, length-append a s, length-Stream more)

-- The interfaces that the message describes, behind those that are there.
abbrev pub equipped : (List If → If) → List If → Router → Router
equipped raw is s = record s { if_list = s.if_list ++ equip raw s.if_list is }

pub serve-hwinfo :
    (w : Surroundings) (g : Config) (turns : Turns) (n k : ℕ) (es : List HwEntry) (is : List If)
    (a back : List Received) (c : Client)
    → c.router ≡ record c.router { cache = init }
    → Describes es is
    → verify_routing_table (equipped w.raw is c.router).if_list c.router.routing_table ≡ 0
    → IsSent vnshwinfo (encode_entries es) a
    → serve (suc n) w g turns k (awaiting (a ++ back) c)
      ≡ serve n w g turns (suc k) (awaiting back (with_router (equipped w.raw is c.router) c))
unfolding serve turn run pure on_command
serve-hwinfo w g turns n k es is a back c fresh d v m =
    let next = serve n w g turns (suc k) in
    let idle : (ts : List ℕ) → run (rounds ts) c.router ≡ some (tt, c.router) =
      λ ts. subst (λ s. run (rounds ts) s ≡ some (tt, s)) (sym fresh) (run-idle ts c.router) in
    let now = (turns k).1 in
    let rest = encode_entries es in
    ap
      (λ o.
        loop_on
          (elim o [
            | none ↦ none
            | some (_, s) ↦
                read_from_server_expect w g now 0 (awaiting (a ++ back) (with_router s c))
          ])
          next)
      (idle (turns k).0)
    ∙ ap (λ x. loop_on x next)
        (read-IsSent w g now 0 vnshwinfo rest a back c m (inl refl)
          ∙ ap
              (λ o. elim o [
                | none ↦ none
                | some (b, s) ↦ some (one_or_broken b, awaiting back (with_router s c))
              ])
              (on_hwinfo-equip w.raw es is c.router d v))
