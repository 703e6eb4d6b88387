-- ===== src/Program/Ends.antt =====
-- The program ends or waits for the server: its main loop is not cut off.
use computer_networking.Base.{
  ◌%◌, ◌^◌, ℕ, suc, refl, Option, none, some, List, arith, length, bytes_eq,
}
use computer_networking.Text.{text}
use computer_networking.Route.Load.{load_rt}
use computer_networking.Vns.{Received}
use computer_networking.Vns.Progress.{if-both, elim-both}
use computer_networking.Session.{Config, Client, Outcome, goes_on, closed, broken, blocked}
use computer_networking.Client.{connect_to_server}
use computer_networking.Client.Loop.{Ended, by_outcome, serve-Ended}
use computer_networking.Wire.{packet_dump_size}
use computer_networking.Dump.{dump_open}
use computer_networking.Program.{
  Flag, Options, Host, exits, waits, Ending, config, load_rt_wrap, first_load, second_load,
  router_init, open_log, behind_loop, main_loop, behind_connect, with_options, initial, main,
  read_options, default_options, with_table,
}

-- The program has undefined behaviour, ends with a code, or waits for the server.
pub data Finished : Ending → Type 0 where
  faulted : Finished none
  by_exit : (code : ℕ) (c : Client) → Finished (some (exits code, c))
  by_waiting : (c : Client) → Finished (some (waits, c))

behind_loop-Finished : {r : Option (Outcome × Client)} → Ended r → Finished (behind_loop r)
behind_loop-Finished Ended.by_fault = faulted
behind_loop-Finished (by_outcome goes_on c n) = absurd (n refl)
behind_loop-Finished (by_outcome closed c n) = by_exit 0 c
behind_loop-Finished (by_outcome broken c n) = by_exit 0 c
behind_loop-Finished (by_outcome blocked c n) = by_waiting c

main_loop-Finished : (h : Host) (g : Config) (c : Client) → Finished (main_loop h g c)
unfolding main_loop
main_loop-Finished h g c =
    behind_loop-Finished (serve-Ended (suc (length c.answers)) h.around g h.turns 0 c (omega arith))

behind_connect-Finished :
    (r : Option (Outcome × Client)) (next : Client → Ending)
    → ((c : Client) → Finished (next c))
    → Finished (behind_connect r next)
behind_connect-Finished none next f = faulted
behind_connect-Finished (some (goes_on, c)) next f = f c
behind_connect-Finished (some (closed, c)) next f = by_exit 1 c
behind_connect-Finished (some (broken, c)) next f = by_exit 1 c
behind_connect-Finished (some (blocked, c)) next f = by_waiting c

load_rt_wrap-Finished :
    (name : List ℕ) (c : Client) (next : Client → Ending)
    → ((c : Client) → Finished (next c))
    → Finished (load_rt_wrap name c next)
unfolding load_rt_wrap
load_rt_wrap-Finished name c next f =
    elim-both Finished (load_rt (c.files name) c.router.routing_table) faulted
      λ r. if-both Finished r.0 (f (with_table r.1 c)) (by_exit 1 (with_table r.1 c))

open_log-Finished :
    (h : Host) (o : Options) (c : Client) (next : Client → Ending)
    → ((c : Client) → Finished (next c))
    → Finished (open_log h o c next)
open_log-Finished h o c next f = elim-both Finished o.logfile (f c) λ name.
    elim-both Finished (dump_open h.dumpable name 0 packet_dump_size) (by_exit 1 c) (λ _. f _)

first_load-Finished :
    (o : Options) (c : Client) (next : Client → Ending)
    → ((c : Client) → Finished (next c))
    → Finished (first_load o c next)
first_load-Finished o c next f =
    elim-both Finished o.template (load_rt_wrap-Finished o.rtable c next f) λ _. f c

second_load-Finished :
    (o : Options) (c : Client) (next : Client → Ending)
    → ((c : Client) → Finished (next c))
    → Finished (second_load o c next)
second_load-Finished o c next f =
    elim-both Finished o.template (load_rt_wrap-Finished o.rtable c next f) λ _.
      if-both Finished (bytes_eq o.rtable (text "rtable.vrhost"))
        (load_rt_wrap-Finished (text "rtable.vrhost") c next f)
        (load_rt_wrap-Finished o.rtable c next f)

with_options-Finished : (h : Host) (o : Options) (c : Client) → Finished (with_options h o c)
unfolding with_options
with_options-Finished h o c = first_load-Finished o c _ λ c1. open_log-Finished h o c1 _ λ c2.
    behind_connect-Finished
      (connect_to_server h.around (config o h.login) (h.reaches o.server (o.port % 2 ^ 16)) h.start
        c2)
      _
      λ c3.
        second_load-Finished o c3 _ λ c4. main_loop-Finished h (config o h.login) (router_init c4)

-- Whatever the options, the files and the answers of the socket are, the program's main loop is
-- never cut off: the program has undefined behaviour, ends with an exit code, or waits in a call
-- for answers of the server that do not come.
pub main-Finished :
    (h : Host) (flags : List Flag) (files : List ℕ → Option (List ℕ)) (answers : List Received)
    → Finished (main h flags files answers)
unfolding main
main-Finished h flags files answers =
    elim-both Finished (read_options flags default_options) (by_exit 0 (initial h files answers))
      λ o. with_options-Finished h o (initial h files answers)
