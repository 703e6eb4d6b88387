-- ===== src/Examples/Template.antt =====
-- A whole run with a topology template at a concrete input.
use computer_networking.Base.{
  ℕ, ◌≡◌, refl, none, some, List, [], ◌∷◌, ◌++◌, arith, Option, if◌then◌else◌, bytes_eq,
}
use computer_networking.State.{Router}
use computer_networking.Text.{text, fgets_lines, decimal, inet_ntoa}
use computer_networking.Route.Load.{print_entries, print_routing_entry}
use computer_networking.Router.Returns.{IsReady}
use computer_networking.Vns.{Received}
use computer_networking.Vns.Hardware.{encode_entries}
use computer_networking.Session.{
  vns_auth_request, vns_auth_status, vns_rtable, vnshwinfo, vnsclose, idsize,
}
use computer_networking.Session.Messages.{IsSent, awaiting}
use computer_networking.Session.Table.{padded}
use computer_networking.Client.Frames.{with_router}
use computer_networking.Client.Handshake.{CanAnswer}
use computer_networking.Program.{
  Flag, template, rtable, exits, initial, config, read_options, main, default_options, user_name,
}
use computer_networking.Program.Template.{TemplateTalk, templated, instantiated, main-instantiates}
use computer_networking.Examples.Topology.{host_route, server1}
use computer_networking.Examples.Table.{around, routes-IsPrintable}
use computer_networking.Examples.Sessions.{
  answers_of, pieces-IsSent, reason, terminated-reason, frames, frame_answers, two_frames, salt,
  digest,
}
use computer_networking.Examples.Whole.{
  nic, ready_nic, entries, entries-Describes, host, hardware, frame-IsProper, fitting,
}

-- Only the key is there before the run.
abbrev only_key : List ℕ → Option (List ℕ)
only_key name = if bytes_eq name (text "auth_key") then some (text "secret\n") else none

abbrev table_text : List ℕ
table_text = print_entries (host_route server1 1 ∷ [])

abbrev table_message : List ℕ
table_message = padded idsize (text "vrhost") ++ table_text

table_message-IsSent : IsSent vns_rtable table_message (answers_of vns_rtable table_message)
unfolding print_entries print_routing_entry inet_ntoa decimal
table_message-IsSent = pieces-IsSent vns_rtable table_message (omega arith) (omega arith)

abbrev sent : List Received
sent =
    answers_of vns_auth_request salt
    ++ (answers_of vns_auth_status (1 ∷ 0 ∷ [])
        ++ (answers_of vns_rtable table_message
            ++ (answers_of vnshwinfo hardware
                ++ ((frame_answers ++ (frame_answers ++ []))
                    ++ (answers_of vnsclose reason ++ [])))))

sent-TemplateTalk :
    TemplateTalk salt 0 (0 ∷ []) (text "vrhost") table_text entries frames reason [] sent
unfolding encode_entries
sent-TemplateTalk = record {
  a1 = answers_of vns_auth_request salt;
  a2 = answers_of vns_auth_status (1 ∷ 0 ∷ []);
  a3 = answers_of vns_rtable table_message;
  a4 = answers_of vnshwinfo hardware;
  s = frame_answers ++ (frame_answers ++ []);
  a5 = answers_of vnsclose reason;
  same = refl;
  request = pieces-IsSent vns_auth_request salt (omega arith) (omega arith);
  status = pieces-IsSent vns_auth_status (1 ∷ 0 ∷ []) (omega arith) (omega arith);
  table = table_message-IsSent;
  hardware = pieces-IsSent vnshwinfo hardware (omega arith) (omega arith);
  frames = two_frames;
  close = pieces-IsSent vnsclose reason (omega arith) (omega arith);
}

guest-CanAnswer :
    CanAnswer around
      (config (templated (text "pair") (text "vrhost") default_options) (some (text "guest")))
      salt
      digest
      (initial host only_key [])
unfolding fgets_lines config user_name bytes_eq
guest-CanAnswer = record {
  file = text "secret\n";
  line = text "secret\n";
  lines = [];
  readable = refl;
  read = refl;
  hashed = refl;
  name_fits = omega arith;
}

abbrev flags : List Flag
flags = template (text "pair") ∷ rtable (text "rtable.vrhost") ∷ []

main-instantiates_example :
    (u : Router) × IsReady (ready_nic ∷ []) u
    × (main host flags only_key sent
        ≡ some (
          exits 0,
          awaiting [] (
              with_router u (
                instantiated host default_options
                  (text "pair")
                  (text "vrhost")
                  (host_route server1 1 ∷ [])
                  digest
                  only_key)),
        ))
unfolding read_options
main-instantiates_example =
    main-instantiates host default_options flags only_key sent [] (host_route server1 1) [] entries
      (nic ∷ []) frames salt digest (0 ∷ []) reason (text "bye") (text "vrhost") (text "air") b'p' 0
      sent-TemplateTalk guest-CanAnswer (omega arith)
      (omega arith, (omega arith, (omega arith, (omega arith, (omega arith, (omega arith, tt))))))
      (omega arith) refl (λ _. refl) refl (routes-IsPrintable.1.0, tt) refl entries-Describes
      fitting (refl, tt) (frame-IsProper, (frame-IsProper, tt)) terminated-reason
