-- ===== src/Program/Template.antt =====
-- The program with a topology template, from its start to the close of the session.
use computer_networking.Base.{
  ℕ, suc, ◌%◌, ◌^◌, ◌<◌, ◌≡◌, refl, sym, ap, ◌∙◌, inl, inr, true, Option, none, some, List, [], ◌∷◌,
  ◌++◌, All, arith, length, take-all, if◌then◌else◌, bytes_eq, bytes_eq_refl, bytes_eq→eq,
  Bool-cases,
}
use computer_networking.State.{If, Rt, Router}
use computer_networking.ArpCache.{init}
use computer_networking.Text.{text}
use computer_networking.Route.{verify_routing_table}
use computer_networking.Route.Load.{load_rt, print_entries}
use computer_networking.Route.Load.Entries.{IsPrintable}
use computer_networking.Route.Load.Reload.{load_rt-print_entries}
use computer_networking.Router.Returns.{AddrsFit, IsReady}
use computer_networking.Vns.{HwEntry, Received}
use computer_networking.Vns.Setup.{equip}
use computer_networking.Vns.Hardware.{Describes, encode_entries}
use computer_networking.Session.{
  Client, goes_on, terminated, auth_reply, vns_auth_request, vns_auth_status, vns_rtable, vnshwinfo,
  vnsclose, idsize, rtable_prefix,
}
use computer_networking.Session.Messages.{IsSent, awaiting}
use computer_networking.Session.Table.{padded, saved}
use computer_networking.Client.{connect_to_server, open_template_message}
use computer_networking.Client.Frames.{Stream, with_router}
use computer_networking.Client.Handshake.{CanAnswer, writing, connect-instantiates}
use computer_networking.Client.Serving.{IsProperMessage}
use computer_networking.Program.{
  Flag, Options, Host, exits, Ending, config, load_rt_wrap, with_table, second_load, router_init,
  main_loop, behind_connect, with_options, initial, main, read_options, default_options,
}
use computer_networking.Program.Whole.{load_rt_wrap-loads, main_loop-closes}

-- What the server sends, one after the other: a request for authentication, its status, the table of
-- a host, the hardware, messages with frames, and a close.
pub record TemplateTalk (salt : List ℕ) (ok : ℕ) (msg host content : List ℕ) (es : List HwEntry)
    (rests : List (List ℕ)) (rest : List ℕ) (back answers : List Received) : Type 0 where
  pub a1 : List Received
  pub a2 : List Received
  pub a3 : List Received
  pub a4 : List Received
  pub s : List Received
  pub a5 : List Received
  pub same : answers ≡ a1 ++ (a2 ++ (a3 ++ (a4 ++ (s ++ (a5 ++ back)))))
  pub request : IsSent vns_auth_request salt a1
  pub status : IsSent vns_auth_status (suc ok ∷ msg) a2
  pub table : IsSent vns_rtable (padded idsize host ++ content) a3
  pub hardware : IsSent vnshwinfo (encode_entries es) a4
  pub frames : Stream rests s
  pub close : IsSent vnsclose rest a5

-- Options with a template and the file of a host's table, and without a log.
abbrev pub templated : List ℕ → List ℕ → Options → Options
templated name host o = record o {
  template = some name;
  logfile = none;
  rtable = rtable_prefix ++ host;
}

-- With a template, too, the table that is loaded last is the one that the option names.
second_load-names :
    (o : Options) (name : List ℕ) (c : Client) (next : Client → Ending)
    → o.template ≡ some name
    → second_load o c next ≡ load_rt_wrap o.rtable c next
second_load-names o name c next e =
    ap
      (λ t. elim t [
        | none ↦ load_rt_wrap o.rtable c next
        | some _ ↦
            if bytes_eq o.rtable (text "rtable.vrhost")
            then load_rt_wrap (text "rtable.vrhost") c next
            else load_rt_wrap o.rtable c next
      ])
      e
    ∙ elim (Bool-cases (bytes_eq o.rtable (text "rtable.vrhost"))) [
      | inl same ↦
          ap
            (λ b.
              if b
              then load_rt_wrap (text "rtable.vrhost") c next
              else load_rt_wrap o.rtable c next)
            same
          ∙ ap (λ n. load_rt_wrap n c next) (sym (bytes_eq→eq o.rtable (text "rtable.vrhost") same))
      | inr other ↦
          ap
            (λ b.
              if b
              then load_rt_wrap (text "rtable.vrhost") c next
              else load_rt_wrap o.rtable c next)
            other
    ]

-- The client behind the handshake, with its table.
abbrev pub instantiated :
    Host → Options → List ℕ → List ℕ → List Rt → List ℕ → (List ℕ → Option (List ℕ)) → Client
instantiated h o name host table digest files =
    let g = config (templated name host o) h.login in
    with_table table (
      saved host (print_entries table) (
        writing (open_template_message g)
          (writing (auth_reply g.user digest) (initial h files []))))

module _ (h : Host) (o : Options) (flags : List Flag) (files : List ℕ → Option (List ℕ))
    (answers back : List Received) (route : Rt) (routes : List Rt) (es : List HwEntry)
    (is : List If) (rests : List (List ℕ)) (salt digest msg rest reason host bs : List ℕ) (b ok : ℕ)
    (talk : TemplateTalk salt ok msg host
      (print_entries (route ∷ routes))
      es
      rests
      rest
      back
      answers)
    (can : CanAnswer h.around
      (config (templated (b ∷ bs) host o) h.login)
      salt
      digest
      (initial h files []))
    (short : length (b ∷ bs) < 30) (letters : All (λ c. 0 < c) host) (named : length host < idsize)
    (writable : h.around.writable (rtable_prefix ++ host) ≡ true)
    (taken : (m : List ℕ) → h.accepts m ≡ true)
    (reached : h.reaches o.server (o.port % 2 ^ 16) ≡ true)
    (printable : All IsPrintable (route ∷ routes)) where
  abbrev later : List Received
  later = talk.a4 ++ (talk.s ++ (talk.a5 ++ back))

  -- The client behind the handshake, before the table is loaded.
  abbrev connected : Client
  connected =
      let g = config (templated (b ∷ bs) host o) h.login in
      saved host (print_entries (route ∷ routes)) (
        writing (open_template_message g) (writing (auth_reply g.user digest) (initial h files [])))

  connects :
      connect_to_server h.around
        (config (templated (b ∷ bs) host o) h.login)
        (h.reaches o.server (o.port % 2 ^ 16))
        h.start
        (initial h files answers)
      ≡ some (goes_on, awaiting later connected)
  unfolding config
  connects =
      let g = config (templated (b ∷ bs) host o) h.login in
      let c = initial h files [] in
      ap (λ b. connect_to_server h.around g b h.start (initial h files answers)) reached
      ∙ ap (λ a. connect_to_server h.around g true h.start (awaiting a c)) talk.same
      ∙ connect-instantiates h.around g h.start b ok bs salt digest msg host
          (print_entries (route ∷ routes)) talk.a1 talk.a2 talk.a3 later c
          (take-all 30 (b ∷ bs) (omega arith)) short can (taken _) (taken _) letters named writable
          talk.request talk.status talk.table

  loads : load_rt (connected.files (rtable_prefix ++ host)) [] ≡ some (true, route ∷ routes)
  loads =
      rw (bytes_eq_refl (rtable_prefix ++ host)) (load_rt-print_entries route routes [] printable)

  -- A whole run, from options with a template whose name has 1 to 29 bytes and without a log file,
  -- on a socket that takes every message. The option for the table names the file "rtable." with
  -- the name of a host, of less than 32 bytes that are not NUL, and this file can be written;
  -- there is a key, and the user's name fits its array. The server is reached, and sends, in any
  -- pieces: a request for authentication, a status that is not 0, the lines of at least one
  -- printable route as the table of that host, the name and the addresses of interfaces that fit
  -- the routes, with entries of any other keys between them, any number of messages with proper
  -- frames, and a close whose reason ends inside it. Then the program has no undefined behaviour,
  -- reads all of these, and ends with the code 0; the router is ready, with the described
  -- interfaces, and the table's text is in the file of the host.
  pub main-instantiates :
      read_options flags default_options ≡ some (templated (b ∷ bs) host o)
      → Describes es is
      → verify_routing_table (equip h.around.raw [] is) (route ∷ routes) ≡ 0
      → AddrsFit (equip h.around.raw [] is)
      → All (IsProperMessage (equip h.around.raw [] is)) rests
      → terminated rest ≡ some reason
      → (u : Router) × IsReady (equip h.around.raw [] is) u
        × (main h flags files answers
            ≡ some (
              exits 0,
              awaiting back
                  (with_router u (instantiated h o (b ∷ bs) host (route ∷ routes) digest files)),
            ))
  unfolding main with_options init
  main-instantiates options d v fit proper e =
      let o' = templated (b ∷ bs) host o in
      let g = config o' h.login in
      let c = instantiated h o (b ∷ bs) host (route ∷ routes) digest files in
      let start = initial h files answers in
      let finish : Client → Ending = λ c4. main_loop h g (router_init c4) in
      let (u, ready, q) =
        main_loop-closes h g c es is rests rest reason talk.a4 talk.s talk.a5 back refl d v fit
          (record { same_ifs = refl; waiting = tt }) proper talk.hardware talk.frames talk.close
          e in
      (
        u,
        ready,
        ap (λ p. elim p [ none ↦ some (exits 0, start) | some q' ↦ with_options h q' start ])
              options
            ∙ ap (λ x. behind_connect x λ c3. second_load o' c3 finish) connects
            ∙ second_load-names o' (b ∷ bs) (awaiting later connected) finish refl
            ∙ load_rt_wrap-loads (rtable_prefix ++ host) (awaiting later connected) (route ∷ routes)
                finish loads
            ∙ q,
      )
