-- ===== src/Session/Messages.antt =====
-- A message that the server sends reaches its case of the switch.
use computer_networking.Base.{
  ℕ, ◌+◌, ◌^◌, ◌≤◌, ◌<◌, ◌≡◌, ◌≢◌, ◌⊎◌, inl, inr, refl, ap, ◌∙◌, Bool, true, false, not, ◌&&◌,
  Option, some, List, ◌++◌, arith, length, ◌==◌, if◌then◌else◌, htonl, ntohl,
}
use mathlib.Core.Path.{subst}
use mathlib.Core.List.{append_assoc}
use computer_networking.Proto.{store32}
use computer_networking.Proto.RoundTrip.{load32-store32}
use computer_networking.Vns.{Received, whole, read_message}
use computer_networking.Vns.Stream.{Delivers, read_message_lem}
use computer_networking.Session.{
  Surroundings, Config, Client, Outcome, broken, on_command, on_message, on_reading,
  read_from_server_expect, vnsclose,
}

-- The answers that give a message of this command, whose bytes behind the command are `rest`: its
-- size and then the others come in any pieces.
pub record IsSent (command : ℕ) (rest : List ℕ) (answers : List Received) : Type 0 where
  pub size_part : List Received
  pub body_part : List Received
  pub same : answers ≡ size_part ++ body_part
  pub size : Delivers 4 (store32 (htonl (length rest + 8))) size_part
  pub body : Delivers (length rest + 4) (store32 (htonl command) ++ rest) body_part
  pub short : length rest ≤ 9992
  pub fits : command < 2 ^ 32

read_message-IsSent :
    (command : ℕ) (rest : List ℕ) (answers back : List Received)
    → IsSent command rest answers
    → read_message (answers ++ back) ≡ some (whole (store32 (htonl command) ++ rest) back)
read_message-IsSent command rest answers back m =
    let body = store32 (htonl command) ++ rest in
    let long : length body ≡ length rest + 4 = omega arith in
    ap (λ a. read_message (a ++ back)) m.same
    ∙ (ap read_message (append_assoc m.size_part m.body_part back)
        ∙ read_message_lem body m.size_part m.body_part back (omega arith) (omega (arith, m.short))
            (subst (λ n. Delivers 4 (store32 (htonl n)) m.size_part) (omega arith) m.size)
            (subst (λ n. Delivers n body m.body_part) (omega arith) m.body))

ntohl-htonl : (v : ℕ) → v < 2 ^ 32 → ntohl (htonl v) ≡ v
ntohl-htonl v h = omega arith

abbrev unexpected : ℕ → ℕ → Bool
unexpected expected command =
    not (expected == 0) && (not (command == expected) && not (command == vnsclose))

not_unexpected :
    (expected command : ℕ)
    → (expected ≡ 0) ⊎ (expected ≡ command)
    → unexpected expected command ≡ false
not_unexpected expected command (inl e) = ground (arith, e)
not_unexpected expected command (inr e) = ground (arith, e)

is_unexpected :
    (expected command : ℕ)
    → expected ≢ 0
    → command ≢ expected
    → command ≢ vnsclose
    → unexpected expected command ≡ true
is_unexpected expected command e n l = ground (arith, e, n, l)

abbrev pub awaiting : List Received → Client → Client
awaiting answers c = record c { answers = answers }

module _ (w : Surroundings) (g : Config) (now : ℕ) where
  abbrev checked : ℕ → ℕ → List ℕ → Client → Option (Outcome × Client)
  checked expected command rest c =
      if unexpected expected command then some (broken, c) else on_command w g now command rest c

  on_reading-IsSent :
      (expected command : ℕ) (rest : List ℕ) (answers back : List Received) (c : Client)
      → IsSent command rest answers
      → read_from_server_expect w g now expected (awaiting (answers ++ back) c)
        ≡ on_message w g now expected (some (htonl command, rest)) (awaiting back c)
  unfolding read_from_server_expect on_reading
  on_reading-IsSent expected command rest answers back c m =
      ap (λ o. on_reading w g now expected o (awaiting (answers ++ back) c))
        (read_message-IsSent command rest answers back m)
      ∙ ap (λ o. on_message w g now expected o (awaiting back c))
          (load32-store32 (htonl command) rest (omega arith))

  -- A message that is expected, or that comes where none is expected, is handled.
  pub read-IsSent :
      (expected command : ℕ) (rest : List ℕ) (answers back : List Received) (c : Client)
      → IsSent command rest answers
      → (expected ≡ 0) ⊎ (expected ≡ command)
      → read_from_server_expect w g now expected (awaiting (answers ++ back) c)
        ≡ on_command w g now command rest (awaiting back c)
  unfolding on_message
  read-IsSent expected command rest answers back c m e =
      on_reading-IsSent expected command rest answers back c m
      ∙ (ap (λ n. checked expected n rest (awaiting back c)) (ntohl-htonl command m.fits)
          ∙ rw (not_unexpected expected command e) refl)

  -- A message that comes where another command is expected is refused, unless it is a close: the
  -- call fails, and neither the router nor a file changes.
  pub read-unexpected :
      (expected command : ℕ) (rest : List ℕ) (answers back : List Received) (c : Client)
      → IsSent command rest answers
      → expected ≢ 0
      → command ≢ expected
      → command ≢ vnsclose
      → read_from_server_expect w g now expected (awaiting (answers ++ back) c)
        ≡ some (broken, awaiting back c)
  unfolding on_message
  read-unexpected expected command rest answers back c m e n l =
      on_reading-IsSent expected command rest answers back c m
      ∙ (ap (λ n. checked expected n rest (awaiting back c)) (ntohl-htonl command m.fits)
          ∙ rw (is_unexpected expected command e n l) refl)
