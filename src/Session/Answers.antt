-- ===== src/Session/Answers.antt =====
-- A message that is handled leaves the answers that are to come.
use computer_networking.Base.{
  ℕ, ◌+◌, ◌≡◌, refl, Bool, true, false, not, ◌&&◌, Option, none, some, List, [], ◌∷◌, ◌++◌, length,
  ltb, ◌==◌, ntohl,
}
use computer_networking.Exec.{M}
use computer_networking.Text.{text, fgets_lines}
use computer_networking.Wire.{vns_packet}
use computer_networking.Vns.{Received, on_packet, on_hwinfo}
use computer_networking.Vns.Progress.{if-both, elim-both}
use computer_networking.Session.{
  Surroundings, Config, Client, Outcome, goes_on, closed, broken, on_message, on_command, printing,
  terminated, ending, on_router, one_or_broken, auth_reply, answer_auth, auth_key, auth_key_len,
  rtable_prefix, idsize, in_array, vnsclose, vnsbanner, vnshwinfo, vns_rtable, vns_auth_request,
  vns_auth_status, handle_auth_request, handle_auth_status, handle_rtable, save_rtable,
}

-- The answers that a call leaves.
pub data Leaves {A : Type 0} (s : List Received) : Option (A × Client) → Type 0 where
  faults : Leaves s none
  leaves : (a : A) (c : Client) → c.answers ≡ s → Leaves s (some (a, c))

module _ (w : Surroundings) (g : Config) where
  handle_rtable-Leaves : (rest : List ℕ) (c : Client) → Leaves c.answers (handle_rtable w rest c)
  unfolding handle_rtable save_rtable
  handle_rtable-Leaves rest c = elim-both (Leaves c.answers) (terminated rest) faults λ id.
      if-both (Leaves c.answers) (ltb idsize (length id)) faults (
        if-both (Leaves c.answers) (not (w.writable (rtable_prefix ++ id))) (leaves false c refl)
          (if-both (Leaves c.answers) (ltb (length rest) idsize) faults (leaves true _ refl)))

  answer_auth-Leaves :
      (digest user : Option (List ℕ)) (c : Client) → Leaves c.answers (answer_auth digest user c)
  unfolding answer_auth
  answer_auth-Leaves none user c = leaves false c refl
  answer_auth-Leaves (some digest) none c = faults
  answer_auth-Leaves (some digest) (some user) c =
      if-both (λ (r : Bool × Client). Leaves c.answers (some r))
        (c.router.accepts (auth_reply user digest)) (leaves true _ refl) (leaves false c refl)

  handle_auth_request-Leaves :
      (salt : List ℕ) (c : Client) → Leaves c.answers (handle_auth_request w g salt c)
  unfolding handle_auth_request
  handle_auth_request-Leaves salt c =
      elim-both (Leaves c.answers) (c.files (text "auth_key")) (leaves false c refl) λ file.
        elim (fgets_lines (auth_key_len + 1) [] file)
          as (λ ls. Leaves c.answers (elim ls [
            | [] ↦ some (false, c)
            | line ∷ _ ↦
                answer_auth (w.sha1 (salt ∷ auth_key line w.stack ∷ [])) (in_array 32 g.user) c
          ])) [ [] ↦ leaves false c refl | line ∷ _ ↦ answer_auth-Leaves _ _ c ]

  ending-Leaves :
      {s : List Received} {r : Option (Bool × Client)} → Leaves s r → Leaves s (ending r)
  ending-Leaves faults = faults
  ending-Leaves (leaves b c e) = leaves _ c e

  on_router-Leaves :
      {A : Type 0} (m : M A) (f : A → Outcome) (c : Client) → Leaves c.answers (on_router m f c)
  on_router-Leaves m f c =
      elim-both (Leaves c.answers) (m c.router) faults λ r. leaves (f r.0) _ refl

  on_command-Leaves :
      (now command : ℕ) (rest : List ℕ) (c : Client)
      → Leaves c.answers (on_command w g now command rest c)
  unfolding on_command
  on_command-Leaves now command rest c =
      let P = Leaves {A = Outcome} c.answers in
      let shown : (o : Outcome) → P (printing rest o c) =
        λ o. elim-both P (terminated rest) faults λ _. leaves o c refl in
      if-both P (command == vns_packet) (on_router-Leaves (on_packet now rest) (λ _. goes_on) c) (
        if-both P (command == vnsclose) (shown closed) (
          if-both P (command == vnsbanner) (shown goes_on) (
            if-both P (command == vnshwinfo)
              (on_router-Leaves (on_hwinfo w.raw rest) one_or_broken c)
              (if-both P (command == vns_rtable) (ending-Leaves (handle_rtable-Leaves rest c)) (
                if-both P (command == vns_auth_request)
                  (ending-Leaves (handle_auth_request-Leaves rest c))
                  (if-both P (command == vns_auth_status)
                    (elim-both P (handle_auth_status rest) faults
                      λ b. leaves (one_or_broken b) c refl)
                    (leaves goes_on c refl)))))))

  pub on_message-Leaves :
      (now expected : ℕ) (o : Option (ℕ × List ℕ)) (c : Client)
      → Leaves c.answers (on_message w g now expected o c)
  unfolding on_message
  on_message-Leaves now expected none c = faults
  on_message-Leaves now expected (some (command, rest)) c =
      if-both (Leaves c.answers)
        (not (expected == 0)
          && (not (ntohl command == expected) && not (ntohl command == vnsclose)))
        (leaves broken c refl) (on_command-Leaves now (ntohl command) rest c)
