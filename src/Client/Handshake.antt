-- ===== src/Client/Handshake.antt =====
-- The start of a session: authentication, and the message that opens it.

use computer_networking.Base.{
  ℕ, suc, ◌+◌, ◌<◌, ◌≡◌, refl, ap, ◌∙◌, inr, Bool, true, false, Option, none, some, List, [], ◌∷◌,
  ◌++◌, All, arith, length, if◌then◌else◌,
}
use computer_networking.Text.{text, fgets_lines}
use computer_networking.Wire.{write_message}
use computer_networking.Vns.{Received}
use computer_networking.Session.{
  Surroundings, Config, Client, Outcome, goes_on, broken, auth_key, auth_key_len, auth_reply,
  answer_auth, handle_auth_request, in_array, on_command, ending, vns_auth_request, vns_auth_status,
  read_from_server_expect, handle_auth_status, vns_rtable, idsize, rtable_prefix,
}
use computer_networking.Session.Messages.{IsSent, awaiting, read-IsSent}
use computer_networking.Session.Table.{padded, saved, handle_rtable-saves}
use computer_networking.Client.{
  open_message, open_template_message, send_open, open_session, negotiate, connect_to_server,
  then_on,
}

abbrev pub writing : List ℕ → Client → Client
writing m c = record c { router = write_message m c.router }

-- The program can answer: there is a key, its digest with the salt, and a user name that fits its
-- array.
pub record CanAnswer (w : Surroundings) (g : Config) (salt digest : List ℕ) (c : Client)
    : Type 0 where
  pub file : List ℕ
  pub line : List ℕ
  pub lines : List (List ℕ)
  pub readable : c.files (text "auth_key") ≡ some file
  pub read : fgets_lines (auth_key_len + 1) [] file ≡ line ∷ lines
  pub hashed : w.sha1 (salt ∷ auth_key line w.stack ∷ []) ≡ some digest
  pub name_fits : length g.user < 32

abbrev from_lines : Surroundings → Config → List ℕ → Client → List (List ℕ) → Option (Bool × Client)
from_lines w g salt c ls = elim ls [
  | [] ↦ some (false, c)
  | line ∷ _ ↦ answer_auth (w.sha1 (salt ∷ auth_key line w.stack ∷ [])) (in_array 32 g.user) c
]

module _ (w : Surroundings) (g : Config) (salt digest : List ℕ) (c : Client)
    (can : CanAnswer w g salt digest c)
    (taken : c.router.accepts (auth_reply g.user digest) ≡ true) where
  user-in_array : in_array 32 g.user ≡ some g.user
  user-in_array = ground (arith, can.name_fits)

  answer_auth-replies :
      answer_auth (some digest) (some g.user) c ≡ some (true, writing (auth_reply g.user digest) c)
  unfolding answer_auth
  answer_auth-replies = rw taken refl

  pub handle_auth_request-replies :
      handle_auth_request w g salt c ≡ some (true, writing (auth_reply g.user digest) c)
  unfolding handle_auth_request
  handle_auth_request-replies =
      ap
        (λ o. elim o [
          | none ↦ some (false, c)
          | some file ↦ from_lines w g salt c (fgets_lines (auth_key_len + 1) [] file)
        ])
        can.readable
      ∙ (ap (from_lines w g salt c) can.read
          ∙ (ap (λ d. answer_auth d (in_array 32 g.user) c) can.hashed
              ∙ (ap (λ u. answer_auth (some digest) u c) user-in_array ∙ answer_auth-replies)))

authenticates :
    (w : Surroundings) (g : Config) (now : ℕ) (salt digest : List ℕ) (c : Client)
    → CanAnswer w g salt digest c
    → c.router.accepts (auth_reply g.user digest) ≡ true
    → on_command w g now vns_auth_request salt c
      ≡ some (goes_on, writing (auth_reply g.user digest) c)
unfolding on_command
authenticates w g now salt digest c can taken =
    ap ending (handle_auth_request-replies w g salt digest c can taken)

accepted :
    (w : Surroundings) (g : Config) (now ok : ℕ) (msg : List ℕ) (c : Client)
    → on_command w g now vns_auth_status (suc ok ∷ msg) c ≡ some (goes_on, c)
unfolding on_command handle_auth_status
accepted w g now ok msg c = ground arith

opens :
    (w : Surroundings) (g : Config) (now : ℕ) (c : Client)
    → g.template ≡ []
    → c.router.accepts (open_message g) ≡ true
    → open_session w g now c ≡ some (goes_on, writing (open_message g) c)
unfolding open_session
opens w g now c plain taken = rw (plain, taken, open_session) refl

-- The authentication goes through, and the session is opened.
connect-open_session :
    (w : Surroundings) (g : Config) (now : ℕ) (salt digest msg : List ℕ) (ok : ℕ)
    (a1 a2 back : List Received) (c : Client)
    → CanAnswer w g salt digest c
    → c.router.accepts (auth_reply g.user digest) ≡ true
    → IsSent vns_auth_request salt a1
    → IsSent vns_auth_status (suc ok ∷ msg) a2
    → connect_to_server w g true now (awaiting (a1 ++ (a2 ++ back)) c)
      ≡ open_session w g now (awaiting back (writing (auth_reply g.user digest) c))
unfolding connect_to_server negotiate
connect-open_session w g now salt digest msg ok a1 a2 back c can taken m1 m2 =
    let c0 = awaiting (a2 ++ back) c in
    let c1 = writing (auth_reply g.user digest) c in
    ap
      (λ r.
        then_on r
          λ x. then_on (read_from_server_expect w g now vns_auth_status x) (open_session w g now))
      (read-IsSent w g now vns_auth_request vns_auth_request salt a1 (a2 ++ back) c m1 (inr refl)
        ∙ authenticates w g now salt digest c0
            (record {
              file = can.file;
              line = can.line;
              lines = can.lines;
              readable = can.readable;
              read = can.read;
              hashed = can.hashed;
              name_fits = can.name_fits;
            })
            taken)
    ∙ ap (λ r. then_on r (open_session w g now))
        (read-IsSent w g now vns_auth_status vns_auth_status (suc ok ∷ msg) a2 back c1 m2 (inr refl)
          ∙ accepted w g now ok msg (awaiting back c1))

-- For a client without a template that can answer, whose socket takes both messages it sends: if
-- the server sends a request for authentication with that salt, and then a status that is not 0,
-- in any pieces, `sr_connect_to_server` succeeds. It has sent the reply with the user's name and
-- the digest and then the message that opens the session; the files and all else of the router are
-- as before, and nothing behind the status is read.
pub connect-opens :
    (w : Surroundings) (g : Config) (now : ℕ) (salt digest msg : List ℕ) (ok : ℕ)
    (a1 a2 back : List Received) (c : Client)
    → g.template ≡ []
    → CanAnswer w g salt digest c
    → c.router.accepts (auth_reply g.user digest) ≡ true
    → c.router.accepts (open_message g) ≡ true
    → IsSent vns_auth_request salt a1
    → IsSent vns_auth_status (suc ok ∷ msg) a2
    → connect_to_server w g true now (awaiting (a1 ++ (a2 ++ back)) c)
      ≡ some
          (goes_on, awaiting back (writing (open_message g) (writing (auth_reply g.user digest) c)))
connect-opens w g now salt digest msg ok a1 a2 back c plain can taken1 taken2 m1 m2 =
    connect-open_session w g now salt digest msg ok a1 a2 back c can taken1 m1 m2
    ∙ opens w g now (awaiting back (writing (auth_reply g.user digest) c)) plain taken2

abbrev opening : Surroundings → Config → ℕ → Client → Option (List ℕ) → Option (Outcome × Client)
opening w g now c o = elim o [
  | none ↦ none
  | some [] ↦ send_open (open_message g) c
  | some (_ ∷ _) ↦
      then_on (send_open (open_template_message g) c) (read_from_server_expect w g now vns_rtable)
]

-- The message with the table, behind the message that asks for the template.
instantiates :
    (w : Surroundings) (g : Config) (now b : ℕ) (bs host content : List ℕ) (a3 back : List Received)
    (c : Client)
    → g.template ≡ b ∷ bs
    → length (b ∷ bs) < 30
    → c.router.accepts (open_template_message g) ≡ true
    → All (λ b. 0 < b) host
    → length host < idsize
    → w.writable (rtable_prefix ++ host) ≡ true
    → IsSent vns_rtable (padded idsize host ++ content) a3
    → open_session w g now (awaiting (a3 ++ back) c)
      ≡ some (goes_on, awaiting back (saved host content (writing (open_template_message g) c)))
unfolding open_session on_command
instantiates w g now b bs host content a3 back c named fits taken letters short can m =
    let c' = writing (open_template_message g) c in
    let c0 = awaiting (a3 ++ back) c in
    let array : in_array 30 (b ∷ bs) ≡ some (b ∷ bs) = ground (arith, fits) in
    ap (λ t. opening w g now c0 (in_array 30 t)) named
    ∙ ap (opening w g now c0) array
    ∙ ap
        (λ t.
          then_on (if t then some (goes_on, awaiting (a3 ++ back) c') else some (broken, c0))
            (read_from_server_expect w g now vns_rtable))
        taken
    ∙ read-IsSent w g now vns_rtable vns_rtable (padded idsize host ++ content) a3 back c' m
        (inr refl)
    ∙ ap ending (handle_rtable-saves w host content (awaiting back c') letters short can)

-- For a client with a template whose name has 1 to 29 bytes, that can answer, and whose socket takes
-- both messages it sends: if the server sends a request for authentication with that salt, a status
-- that is not 0, and then a table for a host whose name has less than 32 bytes that are not NUL and
-- whose file can be written, in any pieces, `sr_connect_to_server` succeeds. It has sent the reply
-- with the user's name and the digest and then the message that asks for the template, and the
-- table's text is in the file of the host; all else is as before, and nothing behind the table is
-- read.
pub connect-instantiates :
    (w : Surroundings) (g : Config) (now b ok : ℕ) (bs salt digest msg host content : List ℕ)
    (a1 a2 a3 back : List Received) (c : Client)
    → g.template ≡ b ∷ bs
    → length (b ∷ bs) < 30
    → CanAnswer w g salt digest c
    → c.router.accepts (auth_reply g.user digest) ≡ true
    → c.router.accepts (open_template_message g) ≡ true
    → All (λ b. 0 < b) host
    → length host < idsize
    → w.writable (rtable_prefix ++ host) ≡ true
    → IsSent vns_auth_request salt a1
    → IsSent vns_auth_status (suc ok ∷ msg) a2
    → IsSent vns_rtable (padded idsize host ++ content) a3
    → connect_to_server w g true now (awaiting (a1 ++ (a2 ++ (a3 ++ back))) c)
      ≡ some (
        goes_on,
        awaiting back (
            saved host content
              (writing (open_template_message g) (writing (auth_reply g.user digest) c))),
      )
connect-instantiates w g now b ok bs salt digest msg host content a1 a2 a3 back c named fits answer
      t1 t2 letters short can m1 m2 m3 =
    connect-open_session w g now salt digest msg ok a1 a2 (a3 ++ back) c answer t1 m1 m2
    ∙ instantiates w g now b bs host content a3 back (writing (auth_reply g.user digest) c) named
        fits t2 letters short can m3
