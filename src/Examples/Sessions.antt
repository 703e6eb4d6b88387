-- ===== src/Examples/Sessions.antt =====
-- The session with the server at concrete inputs.
use computer_networking.Base.{
  ℕ, suc, ◌+◌, ◌<◌, ◌≡◌, refl, sym, true, false, some, none, List, [], ◌∷◌, ◌++◌, arith, length,
  replicate, htonl, ntohl, ntohs, split_at?,
}
use mathlib.Core.Path.{subst}
use mathlib.Core.List.{append-nil}
use computer_networking.Proto.{store32, encode_eth, encode_arp}
use computer_networking.State.{Router}
use computer_networking.Text.{text, fgets_lines, c_string}
use computer_networking.Wire.{vns_packet}
use computer_networking.ArpCache.{init}
use computer_networking.Vns.{Received, bytes, interrupted}
use computer_networking.Vns.Stream.{Delivers, done, piece, again}
use computer_networking.Session.{
  Config, closed, broken, vnsclose, vnsbanner, vns_auth_request, read_from_server_expect,
  terminated,
}
use computer_networking.Session.Messages.{IsSent, awaiting, read-unexpected}
use computer_networking.Router.Returns.{IsReady}
use computer_networking.Client.{Turns, serve, open_message}
use computer_networking.Client.Frames.{
  with_router, Stream, no_more, packet, deliver_all, behind, serve-deliver_all,
}
use computer_networking.Client.Serving.{IsProperMessage, serve-closes}
use computer_networking.Proto.Commands.{COpen, decode_open}
use computer_networking.Client.{vnsopen}
use computer_networking.Client.Opening.{decode_open-open_message}
use computer_networking.Client.Handshake.{CanAnswer}
use computer_networking.Program.{Host}
use computer_networking.Examples.Topology.{interfaces, ready, eth, who_has}
use computer_networking.Examples.Table.{around, fresh}
use computer_networking.Examples.Runs.{who_has_proper}

abbrev settings : Config
settings = record { user = text "guest"; host = text "vrhost"; template = []; topo_id = 0 }

abbrev pub reason : List ℕ
reason = text "bye" ++ 0 ∷ []

pub terminated-reason : terminated reason ≡ some (text "bye")
unfolding terminated
terminated-reason = refl

-- A message whose size comes in two pieces, and the others in one.
abbrev pub answers_of : ℕ → List ℕ → List Received
answers_of command rest =
    bytes (0 ∷ [])
    ∷ interrupted
    ∷ bytes (0 ∷ 0 ∷ (length rest + 8) ∷ [])
    ∷ bytes (store32 (htonl command) ++ rest)
    ∷ []

small_size : (n : ℕ) → n < 256 → store32 (htonl n) ≡ 0 ∷ 0 ∷ 0 ∷ n ∷ []
small_size n h = ground arith

pub pieces-IsSent :
    (command : ℕ) (rest : List ℕ)
    → command < 512 + 1
    → length rest < 248
    → IsSent command rest (answers_of command rest)
pieces-IsSent command rest c l = record {
  size_part = bytes (0 ∷ []) ∷ interrupted ∷ bytes (0 ∷ 0 ∷ (length rest + 8) ∷ []) ∷ [];
  body_part = bytes (store32 (htonl command) ++ rest) ∷ [];
  same = refl;
  size =
      subst
        (λ b.
          Delivers 4 b (bytes (0 ∷ []) ∷ interrupted ∷ bytes (0 ∷ 0 ∷ (length rest + 8) ∷ []) ∷ []))
        (sym (small_size (length rest + 8) (omega arith)))
        (piece (0 ∷ []) (omega arith)
          (again (omega arith) (piece (0 ∷ 0 ∷ (length rest + 8) ∷ []) (omega arith) done)));
  body =
      subst
        (λ n.
          Delivers n (store32 (htonl command) ++ rest)
            (bytes (store32 (htonl command) ++ rest) ∷ []))
        (omega arith)
        (subst
          (λ d.
            Delivers (0 + length (store32 (htonl command) ++ rest)) d
              (bytes (store32 (htonl command) ++ rest) ∷ []))
          (append-nil (store32 (htonl command) ++ rest))
          (piece (store32 (htonl command) ++ rest) (omega arith) done));
  short = omega (arith, l);
  fits = omega (arith, c);
}

banner : List ℕ
banner = text "welcome" ++ 0 ∷ []

read-unexpected_example :
    read_from_server_expect around settings 7 vns_auth_request
      (awaiting (answers_of vnsbanner banner ++ []) fresh)
    ≡ some (broken, awaiting [] fresh)
unfolding banner
read-unexpected_example =
    read-unexpected around settings 7 vns_auth_request vnsbanner banner
      (answers_of vnsbanner banner) [] fresh
      (pieces-IsSent vnsbanner banner (omega arith) (omega arith)) (λ e. absurd (omega (arith, e)))
      (λ e. absurd (omega (arith, e))) (λ e. absurd (omega (arith, e)))

-- "Who has 192.168.2.1?" arrives by eth1, twice.
abbrev pub frame_message : List ℕ
frame_message = eth 1 ++ (replicate 12 0 ++ who_has)

abbrev pub frames : List (List ℕ)
frames = frame_message ∷ frame_message ∷ []

abbrev pub frame_answers : List Received
frame_answers = answers_of vns_packet frame_message

pub two_frames : Stream frames (frame_answers ++ (frame_answers ++ []))
unfolding encode_eth encode_arp
two_frames =
    let sent = pieces-IsSent vns_packet frame_message (omega arith) (omega arith) in
    packet frame_message frame_answers sent (packet frame_message frame_answers sent no_more)

-- The timer fires once before each call.
abbrev clock : Turns
clock k = ((10 + k) ∷ [], 10 + k)

serve-deliver_all_example :
    serve
      (2 + 1)
      around
      settings
      clock
      0
      (awaiting ((frame_answers ++ (frame_answers ++ [])) ++ answers_of vnsclose reason) fresh)
    ≡ behind around settings clock 1 2
        (answers_of vnsclose reason)
        fresh
        (deliver_all clock 0 frames ready)
serve-deliver_all_example =
    serve-deliver_all around settings clock 1 0 frames (frame_answers ++ (frame_answers ++ []))
      (answers_of vnsclose reason) fresh two_frames

who_has-IsProper : IsProperMessage interfaces frame_message
unfolding c_string split_at?
who_has-IsProper = record {
  name = eth 1 ++ replicate 12 0;
  frame = who_has;
  split = refl;
  proper = who_has_proper;
}

serve-closes_example :
    (r : Router) × IsReady interfaces r
    × (serve (2 + suc 0) around settings clock 0 (
          awaiting
            ((frame_answers ++ (frame_answers ++ [])) ++ (answers_of vnsclose reason ++ []))
            fresh)
        ≡ some (closed, awaiting [] (with_router r fresh)))
unfolding init
serve-closes_example =
    serve-closes interfaces around settings clock 0 0 frames reason (text "bye")
      (frame_answers ++ (frame_answers ++ [])) (answers_of vnsclose reason) [] fresh
      (refl, (refl, (refl, tt))) (record { same_ifs = refl; waiting = tt })
      (who_has-IsProper, (who_has-IsProper, tt)) two_frames
      (pieces-IsSent vnsclose reason (omega arith) (omega arith)) terminated-reason

abbrev pub salt : List ℕ
salt = 1 ∷ 2 ∷ 3 ∷ 4 ∷ []

abbrev pub digest : List ℕ
digest = 1 ∷ 2 ∷ 3 ∷ 4 ∷ 5 ∷ []

guest-CanAnswer : CanAnswer around settings salt digest fresh
unfolding fgets_lines
guest-CanAnswer = record {
  file = text "secret\n";
  line = text "secret\n";
  lines = [];
  readable = refl;
  read = refl;
  hashed = refl;
  name_fits = omega arith;
}

abbrev machine : Host
machine = record {
  around = around;
  reaches = λ _ _. true;
  dumpable = λ _. false;
  login = none;
  start = 7;
  turns = clock;
  accepts = λ _. true;
}

decode_open-open_message_example :
    (c : COpen) × (decode_open (open_message settings) ≡ some (c, []))
    × (ntohl c.m_len ≡ length (open_message settings))
    × (ntohl c.m_type ≡ vnsopen)
    × (ntohs c.topo_id ≡ 0)
    × (terminated c.m_virtual_host_id ≡ some (text "vrhost"))
    × (terminated c.m_uid ≡ some (text "guest"))
decode_open-open_message_example =
    decode_open-open_message settings
      (omega arith, (omega arith, (omega arith, (omega arith, (omega arith, (omega arith, tt))))))
      (omega arith) (omega arith, (omega arith, (omega arith, (omega arith, (omega arith, tt)))))
      (omega arith) (omega arith)
