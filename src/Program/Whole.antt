-- ===== src/Program/Whole.antt =====
-- The program from its start to the close of the session.
use computer_networking.Base.{
  ℕ, suc, ◌+◌, ◌-◌, ◌%◌, ◌^◌, ◌≡◌, refl, ap, ◌∙◌, true, Option, none, some, List, [], ◌∷◌, ◌++◌,
  All, arith, length, length-append, if◌then◌else◌,
}
use computer_networking.State.{If, Rt, Router}
use computer_networking.ArpCache.{init}
use computer_networking.Route.{verify_routing_table}
use computer_networking.Route.Load.{load_rt, print_entries}
use computer_networking.Route.Load.Entries.{IsPrintable}
use computer_networking.Route.Load.Reload.{load_rt-print_entries}
use computer_networking.Router.Returns.{AddrsFit, IsReady}
use computer_networking.Vns.{HwEntry, Received}
use computer_networking.Vns.Setup.{equip}
use computer_networking.Vns.Hardware.{Describes, encode_entries}
use computer_networking.Session.{
  Config, Client, goes_on, terminated, auth_reply, vns_auth_request, vns_auth_status, vnshwinfo,
  vnsclose,
}
use computer_networking.Session.Messages.{IsSent, awaiting}
use computer_networking.Client.{connect_to_server, serve, open_message}
use computer_networking.Client.Frames.{Stream, with_router}
use computer_networking.Client.Handshake.{CanAnswer, writing, connect-opens}
use computer_networking.Client.Serving.{IsProperMessage, serve-closes}
use computer_networking.Client.Startup.{length-IsSent, length-Stream, equipped, serve-hwinfo}
use computer_networking.Program.{
  Flag, Options, Host, exits, Ending, config, load_rt_wrap, with_table, second_load, behind_loop,
  router_init, main_loop, behind_connect, with_options, initial, main, read_options,
  default_options,
}

-- What the server sends, one after the other: a request for authentication, its status, the
-- hardware, messages with frames, and a close.
pub record Talk (salt : List ℕ) (ok : ℕ) (msg : List ℕ) (es : List HwEntry) (rests : List (List ℕ))
    (rest : List ℕ) (back answers : List Received) : Type 0 where
  pub a1 : List Received
  pub a2 : List Received
  pub a3 : List Received
  pub s : List Received
  pub a4 : List Received
  pub same : answers ≡ a1 ++ (a2 ++ (a3 ++ (s ++ (a4 ++ back))))
  pub request : IsSent vns_auth_request salt a1
  pub status : IsSent vns_auth_status (suc ok ∷ msg) a2
  pub hardware : IsSent vnshwinfo (encode_entries es) a3
  pub frames : Stream rests s
  pub close : IsSent vnsclose rest a4

pub load_rt_wrap-loads :
    (name : List ℕ) (c : Client) (table : List Rt) (next : Client → Ending)
    → load_rt (c.files name) c.router.routing_table ≡ some (true, table)
    → load_rt_wrap name c next ≡ next (with_table table c)
unfolding load_rt_wrap
load_rt_wrap-loads name c table next e =
    ap
      (λ o. elim o [
        | none ↦ none
        | some (b, t) ↦ if b then next (with_table t c) else some (exits 1, with_table t c)
      ])
      e

pub main_loop-closes :
    (h : Host) (g : Config) (c : Client) (es : List HwEntry) (is : List If) (rests : List (List ℕ))
    (rest reason : List ℕ) (a3 s a4 back : List Received)
    → c.router ≡ record c.router { cache = init }
    → Describes es is
    → verify_routing_table (equipped h.around.raw is c.router).if_list c.router.routing_table ≡ 0
    → AddrsFit (equipped h.around.raw is c.router).if_list
    → IsReady (equipped h.around.raw is c.router).if_list (equipped h.around.raw is c.router)
    → All (IsProperMessage (equipped h.around.raw is c.router).if_list) rests
    → IsSent vnshwinfo (encode_entries es) a3
    → Stream rests s
    → IsSent vnsclose rest a4
    → terminated rest ≡ some reason
    → (u : Router) × IsReady (equipped h.around.raw is c.router).if_list u
      × (main_loop h g (awaiting (a3 ++ (s ++ (a4 ++ back))) c)
          ≡ some (exits 0, awaiting back (with_router u c)))
unfolding main_loop
main_loop-closes h g c es is rests rest reason a3 s a4 back fresh d v fit ready proper m3 m m4 e =
    let later = s ++ (a4 ++ back) in
    let c' = with_router (equipped h.around.raw is c.router) c in
    let n = length (a3 ++ later) - length rests - 1 in
    let fuel : length (a3 ++ later) ≡ length rests + suc n = omega (
      arith,
      length-append a3 later,
      length-append s (a4 ++ back),
      length-append a4 back,
      length-IsSent _ _ a3 m3,
      length-Stream m,
      length-IsSent _ _ a4 m4,
    ) in
    let (u, ready', q) =
      serve-closes (equipped h.around.raw is c.router).if_list h.around g h.turns n 1 rests rest
        reason s a4 back c' fit ready proper m m4 e in
    (
      u,
      ready',
      ap behind_loop (
          serve-hwinfo h.around g h.turns (length (a3 ++ later)) 0 es is a3 later c fresh d v m3
          ∙ (ap (λ k. serve k h.around g h.turns 1 (awaiting later c')) fuel ∙ q)),
    )

-- Options without a template and without a log.
abbrev pub plain : Options → Options
plain o = record o { template = none; logfile = none }

-- The client behind the handshake, with its table.
abbrev pub greeted : Host → Options → List Rt → List ℕ → (List ℕ → Option (List ℕ)) → Client
greeted h o table digest files =
    let g = config (plain o) h.login in
    with_table table (
      writing (open_message g)
        (writing (auth_reply g.user digest) (with_table table (initial h files []))))

module _ (h : Host) (o : Options) (flags : List Flag) (files : List ℕ → Option (List ℕ))
    (answers back : List Received) (route : Rt) (routes : List Rt) (es : List HwEntry)
    (is : List If) (rests : List (List ℕ)) (salt digest msg rest reason : List ℕ) (ok : ℕ)
    (talk : Talk salt ok msg es rests rest back answers)
    (can : CanAnswer h.around (config (plain o) h.login) salt digest (initial h files []))
    (taken : (m : List ℕ) → h.accepts m ≡ true)
    (reached : h.reaches o.server (o.port % 2 ^ 16) ≡ true)
    (file : files o.rtable ≡ some (print_entries (route ∷ routes)))
    (printable : All IsPrintable (route ∷ routes)) where
  loads : (old : List Rt) → load_rt (files o.rtable) old ≡ some (true, route ∷ routes)
  loads old = ap (λ f. load_rt f old) file ∙ load_rt-print_entries route routes old printable

  connects :
      connect_to_server h.around
        (config (plain o) h.login)
        (h.reaches o.server (o.port % 2 ^ 16))
        h.start
        (with_table (route ∷ routes) (initial h files answers))
      ≡ some (
        goes_on,
        awaiting (talk.a3 ++ (talk.s ++ (talk.a4 ++ back))) (
            writing (open_message (config (plain o) h.login)) (
              writing
                (auth_reply (config (plain o) h.login).user digest)
                (with_table (route ∷ routes) (initial h files [])))),
      )
  unfolding config
  connects =
      let g = config (plain o) h.login in
      let c = with_table (route ∷ routes) (initial h files []) in
      ap
        (λ b.
          connect_to_server h.around g b h.start
            (with_table (route ∷ routes) (initial h files answers)))
        reached
      ∙ (ap (λ a. connect_to_server h.around g true h.start (awaiting a c)) talk.same
          ∙ connect-opens h.around g h.start salt digest msg ok talk.a1 talk.a2
              (talk.a3 ++ (talk.s ++ (talk.a4 ++ back))) c refl
              (record {
                file = can.file;
                line = can.line;
                lines = can.lines;
                readable = can.readable;
                read = can.read;
                hashed = can.hashed;
                name_fits = can.name_fits;
              })
              (taken _) (taken _) talk.request talk.status)

  -- A whole run, from options without a template and a log file, on a socket that takes every
  -- message. The file of the table holds the lines of at least one printable route; there is a
  -- key, and the user's name fits its array. The server is reached, and sends, in any pieces: a
  -- request for authentication, a status that is not 0, the name and the addresses of interfaces
  -- that fit the routes, with entries of any other keys between them, any number of messages with
  -- proper frames, and a close whose reason ends inside it. Then the program has no undefined
  -- behaviour, reads all of these, and ends with the code 0; the router is ready, with the
  -- described interfaces, whose speeds are what the memory held.
  pub main-serves :
      read_options flags default_options ≡ some (plain o)
      → Describes es is
      → verify_routing_table (equip h.around.raw [] is) (route ∷ routes) ≡ 0
      → AddrsFit (equip h.around.raw [] is)
      → All (IsProperMessage (equip h.around.raw [] is)) rests
      → terminated rest ≡ some reason
      → (u : Router) × IsReady (equip h.around.raw [] is) u
        × (main h flags files answers
            ≡ some (
              exits 0,
              awaiting back (with_router u (greeted h o (route ∷ routes) digest files)),
            ))
  unfolding main with_options init
  main-serves options d v fit proper e =
      let g = config (plain o) h.login in
      let c = greeted h o (route ∷ routes) digest files in
      let start = initial h files answers in
      let onward : Client → Ending = λ c1.
        behind_connect
          (connect_to_server h.around g (h.reaches o.server (o.port % 2 ^ 16)) h.start c1)
          λ c3. second_load (plain o) c3 λ c4. main_loop h g (router_init c4) in
      let (u, ready, q) =
        main_loop-closes h g c es is rests rest reason talk.a3 talk.s talk.a4 back refl d v fit
          (record { same_ifs = refl; waiting = tt }) proper talk.hardware talk.frames talk.close
          e in
      (
        u,
        ready,
        ap (λ p. elim p [ none ↦ some (exits 0, start) | some q' ↦ with_options h q' start ])
              options
            ∙ (load_rt_wrap-loads o.rtable start (route ∷ routes) onward (loads [])
                ∙ (ap
                      (λ x.
                        behind_connect x
                          λ c3. second_load (plain o) c3 λ c4. main_loop h g (router_init c4))
                      connects
                    ∙ (load_rt_wrap-loads o.rtable _ (route ∷ routes)
                          (λ c4. main_loop h g (router_init c4)) (loads (route ∷ routes))
                        ∙ q))),
      )
