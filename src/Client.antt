-- ===== src/Client.antt =====
-- The program around the router: `main`, `sr_set_user`, `sr_load_rt_wrap`, `sr_init_instance` and
-- `sr_destroy_instance` of simple-router-project/router/sr_main.c, and `sr_connect_to_server` of
-- simple-router-project/router/sr_vns_comm.c.
pub mod Loop
pub mod Frames
pub mod Serving
pub mod Startup
pub mod Handshake
pub mod Opening
use computer_networking.Base.{
  ℕ, zero, suc, ◌+◌, ◌%◌, ◌^◌, Bool, true, false, not, Option, none, some, List, [], ◌∷◌, ◌++◌, ltb,
  ◌==◌, if◌then◌else◌, length, take, replicate, htons, htonl, bytes_eq,
}
use computer_networking.Proto.Commands.{encode_open, encode_open_template}
use computer_networking.State.{Rt, Router, strncpy}
use computer_networking.Text.{text}
use computer_networking.Wire.{strncpy_padded, write_message}
use computer_networking.Route.Load.{load_rt}
use computer_networking.Vns.{Received}
use computer_networking.System.{run, boot}
use computer_networking.System.Liveness.{rounds}
use computer_networking.Session.{
  Surroundings, Config, Client, Outcome, goes_on, closed, broken, blocked, read_from_server_expect,
  vns_rtable, vns_auth_request, vns_auth_status, idsize, in_array,
}

abbrev pub vnsopen : ℕ
vnsopen = 1

abbrev pub vns_open_template : ℕ
vns_open_template = 64

-- `c_open`: 108 bytes, with no password.
unfoldable pub open_message : Config → List ℕ
open_message g = encode_open (record {
  m_len = htonl 108;
  m_type = htonl vnsopen;
  topo_id = htons g.topo_id;
  pad = 0;
  m_virtual_host_id = strncpy_padded idsize g.host;
  m_uid = strncpy_padded idsize g.user;
  m_pass = replicate idsize 0;
})

-- `c_open_template`: 70 bytes, with no source filters.
unfoldable pub open_template_message : Config → List ℕ
open_template_message g = encode_open_template (record {
  m_len = htonl 70;
  m_type = htonl vns_open_template;
  template_name = strncpy_padded 30 g.template;
  m_virtual_host_id = strncpy_padded idsize g.host;
})

-- The calls that `connect` is a sequence of. An expected message that comes is an outcome
-- `goes_on`; any other outcome ends it.
abbrev pub then_on :
    Option (Outcome × Client) → (Client → Option (Outcome × Client)) → Option (Outcome × Client)
then_on none next = none
then_on (some (goes_on, c)) next = next c
then_on (some (closed, c)) next = some (broken, c)
then_on (some (broken, c)) next = some (broken, c)
then_on (some (blocked, c)) next = some (blocked, c)

abbrev pub send_open : List ℕ → Client → Option (Outcome × Client)
send_open m c =
    if c.router.accepts m
    then some (goes_on, record c { router = write_message m c.router })
    else some (broken, c)

-- The message that opens the session, and the table where a template is asked for. `strlen` of a
-- template that fills its array reads past it.
unfoldable pub open_session : Surroundings → Config → ℕ → Client → Option (Outcome × Client)
unfolding open_message open_template_message
open_session w g now c = elim (in_array 30 g.template) [
  | none ↦ none
  | some [] ↦ send_open (open_message g) c
  | some (_ ∷ _) ↦
      then_on (send_open (open_template_message g) c) (read_from_server_expect w g now vns_rtable)
]

-- Behind `connect(2)`. The outcome `goes_on` stands for 0, and `broken` for -1.
unfoldable pub negotiate : Surroundings → Config → ℕ → Client → Option (Outcome × Client)
unfolding open_session
negotiate w g now c =
    then_on (read_from_server_expect w g now vns_auth_request c) λ c1.
      then_on (read_from_server_expect w g now vns_auth_status c1) λ c2. open_session w g now c2

-- `reachable` says whether the server's name, the socket and the connection are found.
unfoldable pub connect_to_server :
    Surroundings → Config → Bool → ℕ → Client → Option (Outcome × Client)
unfolding negotiate
connect_to_server w g reachable now c = if reachable then negotiate w g now c else some (broken, c)

-- One turn of the main loop: rounds of the timer run at the times in the first component while the
-- loop waits, and the clock then shows the second.
abbrev pub Turns : Type 0
Turns = ℕ → List ℕ × ℕ

-- Rounds of the timer, and then a call of `sr_read_from_server`.
unfoldable pub turn : Surroundings → Config → List ℕ × ℕ → Client → Option (Outcome × Client)
turn w g (ts, now) c = elim (run (rounds ts) c.router) [
  | none ↦ none
  | some (_, s) ↦ read_from_server_expect w g now 0 (record c { router = s })
]

-- `while (sr_read_from_server(&sr) == 1);`, behind one call.
abbrev pub loop_on :
    Option (Outcome × Client) → (Client → Option (Outcome × Client)) → Option (Outcome × Client)
loop_on none next = none
loop_on (some (goes_on, c)) next = next c
loop_on (some (closed, c)) next = some (closed, c)
loop_on (some (broken, c)) next = some (broken, c)
loop_on (some (blocked, c)) next = some (blocked, c)

-- The loop, from its turn `k` on. The outcome `goes_on` means that the fuel is used up.
unfoldable pub serve : ℕ → Surroundings → Config → Turns → ℕ → Client → Option (Outcome × Client)
unfolding turn
serve zero w g turns k c = some (goes_on, c)
serve (suc n) w g turns k c = loop_on (turn w g (turns k) c) (serve n w g turns (suc k))
