-- ===== src/Examples/Whole.antt =====
-- A whole run of the program at a concrete input.
use computer_networking.Base.{
  ℕ, ◌+◌, ◌≡◌, refl, true, some, List, [], ◌∷◌, ◌++◌, arith, replicate, Option, if◌then◌else◌,
}
use computer_networking.State.{If, Router}
use computer_networking.Base.{bytes_eq}
use computer_networking.Route.{verify_routing_table}
use computer_networking.Route.Load.{print_entries}
use computer_networking.Router.Returns.{IsReady}
use computer_networking.Text.{text, fgets_lines, c_string}
use computer_networking.Proto.{store32}
use computer_networking.Vns.{HwEntry, Received}
use computer_networking.Vns.Setup.{IsDescribable, descriptions, telling}
use computer_networking.Vns.Hardware.{Describes, encode_entries}
use computer_networking.Session.{vns_auth_request, vns_auth_status, vnshwinfo, vnsclose}
use computer_networking.Session.Messages.{awaiting}
use computer_networking.Client.Frames.{with_router}
use computer_networking.Client.Handshake.{CanAnswer}
use computer_networking.Client.Serving.{IsProperMessage}
use computer_networking.Program.{
  Host, exits, initial, config, read_options, main, default_options, user_name,
}
use computer_networking.Program.Whole.{Talk, greeted, main-serves}
use computer_networking.Examples.Topology.{host_route, server1, eth, mac, ipv4, who_has, machine}
use computer_networking.Examples.Table.{around, routes-IsPrintable}
use computer_networking.Examples.Runs.{who_has_proper}
use computer_networking.Examples.Sessions.{
  answers_of, pieces-IsSent, reason, terminated-reason, frames, frame_answers, two_frames,
  frame_message, salt, digest,
}

-- One interface, and a host behind it.
abbrev pub nic : If
nic = record { name = eth 1; addr = mac 1; ip = ipv4 192 168 2 1; speed = 0 }

-- The interface as the router has it: nobody wrote its speed.
abbrev pub ready_nic : If
ready_nic = record nic { speed = 9 }

abbrev stored : List ℕ → Option (List ℕ)
stored name =
    if bytes_eq name (text "auth_key")
    then some (text "secret\n")
    else some (print_entries (host_route server1 1 ∷ []))

abbrev pub host : Host
host = record {
  around = around;
  reaches = λ _ _. true;
  dumpable = λ _. true;
  login = some (text "guest");
  start = 7;
  turns = λ k. ((10 + k) ∷ [], 10 + k);
  accepts = λ _. true;
}

-- The six entries that the server sends of an interface: its name, speed, addresses, subnet and mask.
abbrev pub entries : List HwEntry
entries =
    record { key = 1; value = eth 1 ++ replicate 28 0 }
    ∷ record { key = 2; value = replicate 32 0 }
    ∷ record { key = 32; value = mac 1 ++ replicate 26 0 }
    ∷ record { key = 64; value = store32 (ipv4 192 168 2 1) ++ replicate 28 0 }
    ∷ record { key = 4; value = replicate 32 0 }
    ∷ record { key = 128; value = 255 ∷ 255 ∷ 255 ∷ 0 ∷ replicate 28 0 }
    ∷ []

abbrev pub hardware : List ℕ
hardware = encode_entries entries

abbrev sent : List Received
sent =
    answers_of vns_auth_request salt
    ++ (answers_of vns_auth_status (1 ∷ 0 ∷ [])
        ++ (answers_of vnshwinfo hardware
            ++ ((frame_answers ++ (frame_answers ++ [])) ++ (answers_of vnsclose reason ++ []))))

sent-Talk : Talk salt 0 (0 ∷ []) entries frames reason [] sent
unfolding encode_entries
sent-Talk = record {
  a1 = answers_of vns_auth_request salt;
  a2 = answers_of vns_auth_status (1 ∷ 0 ∷ []);
  a3 = answers_of vnshwinfo hardware;
  s = frame_answers ++ (frame_answers ++ []);
  a4 = answers_of vnsclose reason;
  same = refl;
  request = pieces-IsSent vns_auth_request salt (omega arith) (omega arith);
  status = pieces-IsSent vns_auth_status (1 ∷ 0 ∷ []) (omega arith) (omega arith);
  hardware = pieces-IsSent vnshwinfo hardware (omega arith) (omega arith);
  frames = two_frames;
  close = pieces-IsSent vnsclose reason (omega arith) (omega arith);
}

guest-CanAnswer :
    CanAnswer around
      (config default_options (some (text "guest")))
      salt
      digest
      (initial host stored [])
unfolding fgets_lines config user_name bytes_eq
guest-CanAnswer = record {
  file = text "secret\n";
  line = text "secret\n";
  lines = [];
  readable = refl;
  read = refl;
  hashed = refl;
  name_fits = omega arith;
}

nic-IsDescribable : IsDescribable nic
nic-IsDescribable = record {
  letters = (omega arith, (omega arith, (omega arith, (omega arith, tt))));
  short = omega arith;
  addr = refl;
  ip = omega arith;
}

pub entries-Describes : Describes entries (nic ∷ [])
unfolding telling descriptions
entries-Describes = record {
  fits = (
    record { key = omega arith; value = refl },
    (
      record { key = omega arith; value = refl },
      (
        record { key = omega arith; value = refl },
        (
          record { key = omega arith; value = refl },
          (
            record { key = omega arith; value = refl },
            (record { key = omega arith; value = refl }, tt),
          ),
        ),
      ),
    ),
  );
  told = refl;
  describable = (nic-IsDescribable, tt);
}

pub frame-IsProper : IsProperMessage (ready_nic ∷ []) frame_message
unfolding machine c_string
frame-IsProper = record {
  name = eth 1 ++ replicate 12 0;
  frame = who_has;
  split = refl;
  proper = record { arrived_by = _; known = refl; whole = who_has_proper.whole };
}

stored_table : stored (text "rtable") ≡ some (print_entries (host_route server1 1 ∷ []))
unfolding bytes_eq
stored_table = refl

pub fitting : verify_routing_table (ready_nic ∷ []) (host_route server1 1 ∷ []) ≡ 0
unfolding machine
fitting = refl

main-serves_example :
    (u : Router) × IsReady (ready_nic ∷ []) u
    × (main host [] stored sent
        ≡ some (
          exits 0,
          awaiting [] (
              with_router u
                (greeted host default_options (host_route server1 1 ∷ []) digest stored)),
        ))
unfolding read_options
main-serves_example =
    main-serves host default_options [] stored sent [] (host_route server1 1) [] entries (nic ∷ [])
      frames salt digest (0 ∷ []) reason (text "bye") 0 sent-Talk guest-CanAnswer (λ _. refl) refl
      stored_table (routes-IsPrintable.1.0, tt) refl entries-Describes fitting (refl, tt)
      (frame-IsProper, (frame-IsProper, tt)) terminated-reason
