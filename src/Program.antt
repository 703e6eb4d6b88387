-- ===== src/Program.antt =====
-- The program: `main`, `sr_set_user`, `sr_load_rt_wrap` and `sr_destroy_instance` of
-- simple-router-project/router/sr_main.c, with `sr_init` of simple-router-project/router/sr_router.c.
pub mod Ends
pub mod Whole
pub mod Template
use computer_networking.Base.{
  ℕ, suc, ◌%◌, ◌^◌, Bool, true, false, not, Option, none, some, List, [], ◌∷◌, if◌then◌else◌,
  length, bytes_eq,
}
use computer_networking.State.{Rt, Router, strncpy}
use computer_networking.Text.{text}
use computer_networking.ArpCache
use computer_networking.Wire.{packet_dump_size}
use computer_networking.Dump.{dump_open}
use computer_networking.Route.Load.{load_rt}
use computer_networking.Vns.{Received}
use computer_networking.System.{boot}
use computer_networking.Session.{
  Surroundings, Config, Client, Outcome, goes_on, closed, broken, blocked,
}
use computer_networking.Client.{connect_to_server, Turns, serve}

-- What `getopt` gives. A port and a topology are what `atoi` makes of the argument, as the
-- unsigned number that it is stored in. `unknown` is any other character that it returns.
pub data Flag : Type 0 where
  help : Flag
  port : (n : ℕ) → Flag
  topo : (n : ℕ) → Flag
  host : (s : List ℕ) → Flag
  user : (s : List ℕ) → Flag
  server : (s : List ℕ) → Flag
  log : (s : List ℕ) → Flag
  rtable : (s : List ℕ) → Flag
  template : (s : List ℕ) → Flag
  unknown : Flag

pub record Options : Type 0 where
  pub port : ℕ
  pub topo : ℕ
  pub host : List ℕ
  pub user : Option (List ℕ)
  pub server : List ℕ
  pub logfile : Option (List ℕ)
  pub rtable : List ℕ
  pub template : Option (List ℕ)

abbrev pub default_options : Options
default_options = record {
  port = 8888;
  topo = 0;
  host = text "vrhost";
  user = none;
  server = text "localhost";
  logfile = none;
  rtable = text "rtable";
  template = none;
}

-- `none` stands for the option that prints the usage and ends the program.
abbrev pub with_flag : Flag → Options → Option Options
with_flag help o = none
with_flag (port n) o = some (record o { port = n })
with_flag (topo n) o = some (record o { topo = n })
with_flag (host s) o = some (record o { host = s })
with_flag (user s) o = some (record o { user = some s })
with_flag (server s) o = some (record o { server = s })
with_flag (log s) o = some (record o { logfile = some s })
with_flag (rtable s) o = some (record o { rtable = s })
with_flag (template s) o = some (record o { template = some s })
with_flag unknown o = some o

unfoldable pub read_options : List Flag → Options → Option Options
read_options [] o = some o
read_options (f ∷ fs) o = elim (with_flag f o) [ none ↦ none | some after ↦ read_options fs after ]

-- What the program meets: beside the surroundings of the session, whether it reaches a server at a
-- port, which dump files it can open, the user's name if it is known, when its timer fires, and the
-- socket's answers to what it sends.
pub record Host : Type 0 where
  pub around : Surroundings
  pub reaches : List ℕ → ℕ → Bool
  pub dumpable : List ℕ → Bool
  pub login : Option (List ℕ)
  pub start : ℕ
  pub turns : Turns
  pub accepts : List ℕ → Bool

-- How the program ends: with an exit code, or not, since it waits for the server for ever. The
-- third form stands for a loop that was cut off.
pub data Exit : Type 0 where
  exits : (code : ℕ) → Exit
  waits : Exit
  cut_off : Exit

abbrev pub Ending : Type 0
Ending = Option (Exit × Client)

-- `sr_set_user`, or the option.
unfoldable pub user_name : Option (List ℕ) → Option (List ℕ) → List ℕ
user_name (some s) login = strncpy 32 s
user_name none none = strncpy 32 (text "something_silly")
user_name none (some name) = strncpy 32 name

-- `sr_init_instance` leaves the template as it is; `main` clears it where there is none.
unfoldable pub template_array : Option (List ℕ) → List ℕ
template_array none = []
template_array (some s) = strncpy 30 s

unfoldable pub config : Options → Option (List ℕ) → Config
unfolding user_name template_array
config o login = record {
  user = user_name o.user login;
  host = strncpy 32 o.host;
  template = template_array o.template;
  topo_id = o.topo % 2 ^ 16;
}

abbrev pub with_table : List Rt → Client → Client
with_table table c = record c { router = record c.router { routing_table = table } }

-- `sr_load_rt_wrap`, and then the rest of `main`.
unfoldable pub load_rt_wrap : List ℕ → Client → (Client → Ending) → Ending
load_rt_wrap name c next = elim (load_rt (c.files name) c.router.routing_table) [
  | none ↦ none
  | some (b, table) ↦ if b then next (with_table table c) else some (exits 1, with_table table c)
]

-- Without a template the table is loaded before the connection, too.
abbrev pub first_load : Options → Client → (Client → Ending) → Ending
first_load o c next = elim o.template [ none ↦ load_rt_wrap o.rtable c next | some _ ↦ next c ]

abbrev pub second_load : Options → Client → (Client → Ending) → Ending
second_load o c next = elim o.template [
  | none ↦ load_rt_wrap o.rtable c next
  | some _ ↦
      if bytes_eq o.rtable (text "rtable.vrhost")
      then load_rt_wrap (text "rtable.vrhost") c next
      else load_rt_wrap o.rtable c next
]

-- The capture file is opened by `sr_dump_open`. `logfile` holds what follows the file's header.
abbrev pub open_log : Host → Options → Client → (Client → Ending) → Ending
open_log h o c next = elim o.logfile [
  | none ↦ next c
  | some name ↦ elim (dump_open h.dumpable name 0 packet_dump_size) [
    | none ↦ some (exits 1, c)
    | some _ ↦ next (record c { router = record c.router { logfile = some [] } })
  ]
]

-- `sr_init`: the cache is emptied, and the timer's rounds may begin.
abbrev pub router_init : Client → Client
router_init c = record c { router = record c.router { cache = ArpCache.init } }

-- The loop ends with a close or an error; `sr_destroy_instance` and the exit code are the same.
abbrev pub behind_loop : Option (Outcome × Client) → Ending
behind_loop none = none
behind_loop (some (goes_on, c)) = some (cut_off, c)
behind_loop (some (closed, c)) = some (exits 0, c)
behind_loop (some (broken, c)) = some (exits 0, c)
behind_loop (some (blocked, c)) = some (waits, c)

-- The loop has fuel for one turn more than there are answers of the socket.
unfoldable pub main_loop : Host → Config → Client → Ending
main_loop h g c = behind_loop (serve (suc (length c.answers)) h.around g h.turns 0 c)

abbrev pub behind_connect : Option (Outcome × Client) → (Client → Ending) → Ending
behind_connect none next = none
behind_connect (some (goes_on, c)) next = next c
behind_connect (some (closed, c)) next = some (exits 1, c)
behind_connect (some (broken, c)) next = some (exits 1, c)
behind_connect (some (blocked, c)) next = some (waits, c)

unfoldable pub with_options : Host → Options → Client → Ending
unfolding load_rt_wrap main_loop config
with_options h o c =
    let g = config o h.login in
    first_load o c λ c1. open_log h o c1 λ c2.
      behind_connect
        (connect_to_server h.around g (h.reaches o.server (o.port % 2 ^ 16)) h.start c2)
        λ c3. second_load o c3 λ c4. main_loop h g (router_init c4)

abbrev pub initial : Host → (List ℕ → Option (List ℕ)) → List Received → Client
initial h files answers = record { router = boot [] [] h.accepts; files = files; answers = answers }

unfoldable pub main : Host → List Flag → (List ℕ → Option (List ℕ)) → List Received → Ending
unfolding with_options read_options
main h flags files answers = elim (read_options flags default_options) [
  | none ↦ some (exits 0, initial h files answers)
  | some o ↦ with_options h o (initial h files answers)
]
