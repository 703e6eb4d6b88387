-- ===== src/Session.antt =====
-- The session with the server: `sr_handle_rtable`, `sr_handle_auth_request`,
-- `sr_handle_auth_status` and `sr_read_from_server_expect` of
-- simple-router-project/router/sr_vns_comm.c, with the commands of
-- simple-router-project/router/vnscommand.h.
pub mod Answers
pub mod Messages
pub mod Table
use computer_networking.Base.{
  ℕ, ◌+◌, ◌-◌, Bool, true, false, not, ◌&&◌, Option, none, some, List, [], ◌∷◌, ◌++◌, ltb, ◌==◌,
  if◌then◌else◌, length, take, drop, htonl, ntohl, bytes_eq,
}
use computer_networking.Proto.Commands.{encode_auth_reply}
use computer_networking.Proto.{load32, store32}
use computer_networking.State.{If, Router}
use computer_networking.Exec.{M}
use computer_networking.Text.{text, c_string, fgets_lines}
use computer_networking.Wire.{write_message, vns_packet}
use computer_networking.Vns.{
  Received, Reading, whole, failure, waiting, read_message, on_packet, on_hwinfo,
}

abbrev pub vnsclose : ℕ
vnsclose = 2

abbrev pub vnsbanner : ℕ
vnsbanner = 8

abbrev pub vnshwinfo : ℕ
vnshwinfo = 16

abbrev pub vns_rtable : ℕ
vns_rtable = 32

abbrev pub vns_auth_request : ℕ
vns_auth_request = 128

abbrev pub vns_auth_reply : ℕ
vns_auth_reply = 256

abbrev pub vns_auth_status : ℕ
vns_auth_status = 512

abbrev pub idsize : ℕ
idsize = 32

-- What the session meets outside the program. `sha1` gives the five words of the digest of the
-- inputs of `SHA1Input` one after the other, or `none` where `SHA1Result` fails; `writable` says
-- which files `fopen` opens for writing, and such a file takes all that is written; `stack` is what
-- the array `auth_key` holds before it is written, and `raw` what `malloc` gives for an interface.
pub record Surroundings : Type 0 where
  pub sha1 : List (List ℕ) → Option (List ℕ)
  pub writable : List ℕ → Bool
  pub stack : List ℕ
  pub raw : List If → If

-- The fields of `struct sr_instance` that stay as `main` sets them.
pub record Config : Type 0 where
  pub user : List ℕ
  pub host : List ℕ
  pub template : List ℕ
  pub topo_id : ℕ

-- What changes: the router, the files that can be read, and the answers of `recv` to come.
pub record Client : Type 0 where
  pub router : Router
  pub files : List ℕ → Option (List ℕ)
  pub answers : List Received

-- The C string at the front of these bytes, if it ends inside them.
unfoldable pub terminated : List ℕ → Option (List ℕ)
terminated [] = none
terminated (b ∷ bs) =
    let rest = terminated bs in
    if b == 0 then some [] else elim rest [ none ↦ none | some s ↦ some (b ∷ s) ]

-- A text in an array of `n` characters, where it is used as a C string.
abbrev pub in_array : ℕ → List ℕ → Option (List ℕ)
in_array n s = if ltb (length s) n then some s else none

abbrev pub rtable_prefix : List ℕ
rtable_prefix = text "rtable."

abbrev pub write_file : List ℕ → List ℕ → Client → Client
write_file name content c = record c {
  files = λ n. if bytes_eq n name then some content else c.files n;
}

-- The file of the table: 32 bytes in the message name the host. The array for the name takes 32
-- characters behind the prefix, and a message without these 32 bytes has a negative size.
unfoldable pub save_rtable : Surroundings → List ℕ → List ℕ → Client → Option (Bool × Client)
save_rtable w id rest c =
    if ltb idsize (length id)
    then none
    else (if not (w.writable (rtable_prefix ++ id))
        then some (false, c)
        else (if ltb (length rest) idsize
            then none
            else some (true, write_file (rtable_prefix ++ id) (drop idsize rest) c)))

unfoldable pub handle_rtable : Surroundings → List ℕ → Client → Option (Bool × Client)
unfolding save_rtable
handle_rtable w rest c = elim (terminated rest) [ none ↦ none | some id ↦ save_rtable w id rest c ]

abbrev pub auth_key_len : ℕ
auth_key_len = 64

-- The first 64 bytes of the array `auth_key`, behind `fgets`.
unfoldable pub auth_key : List ℕ → List ℕ → List ℕ
auth_key line stack = take auth_key_len (line ++ 0 ∷ drop (length line + 1) stack)

abbrev pub digest_bytes : List ℕ → List ℕ
digest_bytes [] = []
digest_bytes (v ∷ vs) = store32 (htonl v) ++ digest_bytes vs

-- `c_auth_reply`, with the name and the digest behind its 12 bytes.
unfoldable pub auth_reply : List ℕ → List ℕ → List ℕ
auth_reply user digest =
    encode_auth_reply
      (record {
        m_len = htonl (12 + length user + 20);
        m_type = htonl vns_auth_reply;
        username_len = htonl (length user);
      })
      (user ++ digest_bytes digest)

abbrev pub send_reply : List ℕ → Client → Bool × Client
send_reply m c =
    if c.router.accepts m
    then (true, record c { router = write_message m c.router })
    else (false, c)

unfoldable pub answer_auth : Option (List ℕ) → Option (List ℕ) → Client → Option (Bool × Client)
unfolding auth_reply
answer_auth none user c = some (false, c)
answer_auth (some digest) none c = none
answer_auth (some digest) (some user) c = some (send_reply (auth_reply user digest) c)

unfoldable pub handle_auth_request :
    Surroundings → Config → List ℕ → Client → Option (Bool × Client)
unfolding answer_auth auth_key fgets_lines
handle_auth_request w g salt c = elim (c.files (text "auth_key")) [
  | none ↦ some (false, c)
  | some file ↦ elim (fgets_lines (auth_key_len + 1) [] file) [
    | [] ↦ some (false, c)
    | line ∷ _ ↦ answer_auth (w.sha1 (salt ∷ auth_key line w.stack ∷ [])) (in_array 32 g.user) c
  ]
]

-- The message behind a refusal is printed.
unfoldable pub handle_auth_status : List ℕ → Option Bool
handle_auth_status [] = none
handle_auth_status (ok ∷ msg) =
    if ok == 0 then elim (terminated msg) [ none ↦ none | some _ ↦ some false ] else some true

-- How a call of `sr_read_from_server` ends: with 1, 0 or -1, or not, since no more answers come.
pub data Outcome : Type 0 where
  goes_on : Outcome
  closed : Outcome
  broken : Outcome
  blocked : Outcome

abbrev pub one_or_broken : Bool → Outcome
one_or_broken true = goes_on
one_or_broken false = broken

abbrev pub ending : Option (Bool × Client) → Option (Outcome × Client)
ending none = none
ending (some (b, c)) = some (one_or_broken b, c)

abbrev pub on_router : {A : Type 0} → M A → (A → Outcome) → Client → Option (Outcome × Client)
on_router m f c = elim (m c.router) [
  | none ↦ none
  | some (a, s) ↦ some (f a, record c { router = s })
]

abbrev pub printing : List ℕ → Outcome → Client → Option (Outcome × Client)
printing message o c = elim (terminated message) [ none ↦ none | some _ ↦ some (o, c) ]

-- The switch: the message's bytes behind its size and its command.
unfoldable pub on_command :
    Surroundings → Config → ℕ → ℕ → List ℕ → Client → Option (Outcome × Client)
unfolding handle_rtable handle_auth_request handle_auth_status
on_command w g now command rest c =
    if command == vns_packet
    then on_router (on_packet now rest) (λ _. goes_on) c
    else if command == vnsclose
    then printing rest closed c
    else if command == vnsbanner
    then printing rest goes_on c
    else if command == vnshwinfo
    then on_router (on_hwinfo w.raw rest) one_or_broken c
    else if command == vns_rtable
    then ending (handle_rtable w rest c)
    else if command == vns_auth_request
    then ending (handle_auth_request w g rest c)
    else if command == vns_auth_status
    then elim (handle_auth_status rest) [ none ↦ none | some b ↦ some (one_or_broken b, c) ]
    else some (goes_on, c)

-- The command is checked, if one is expected; a close always goes through.
unfoldable pub on_message :
    Surroundings → Config → ℕ → ℕ → Option (ℕ × List ℕ) → Client → Option (Outcome × Client)
unfolding on_command
on_message w g now expected none c = none
on_message w g now expected (some (command, rest)) c =
    if not (expected == 0) && (not (ntohl command == expected) && not (ntohl command == vnsclose))
    then some (broken, c)
    else on_command w g now (ntohl command) rest c

unfoldable pub on_reading :
    Surroundings → Config → ℕ → ℕ → Option Reading → Client → Option (Outcome × Client)
unfolding on_message
on_reading w g now expected none c = none
on_reading w g now expected (some failure) c = some (broken, record c { answers = [] })
on_reading w g now expected (some (waiting _)) c = some (blocked, record c { answers = [] })
on_reading w g now expected (some (whole body unused)) c =
    on_message w g now expected (load32 body) (record c { answers = unused })

-- 0 stands for no expectation, as in `sr_read_from_server`.
unfoldable pub read_from_server_expect :
    Surroundings → Config → ℕ → ℕ → Client → Option (Outcome × Client)
unfolding on_reading read_message
read_from_server_expect w g now expected c = on_reading w g now expected (read_message c.answers) c
