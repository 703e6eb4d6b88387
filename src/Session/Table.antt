-- ===== src/Session/Table.antt =====
-- The table that the server sends is saved, and read from the file that it was saved to.
use mathlib.Core.List.{append_assoc}
use computer_networking.Base.{
  ℕ, zero, suc, ◌-◌, ◌<◌, ◌≡◌, refl, ap, ◌∙◌, true, false, none, some, List, [], ◌∷◌, ◌++◌, All,
  arith, length, length-append, ltb, drop, replicate, bytes_eq_refl,
}
use computer_networking.State.{Rt}
use computer_networking.Route.Load.{load_rt, print_entries}
use computer_networking.Route.Load.Entries.{IsPrintable}
use computer_networking.Route.Load.Reload.{load_rt-print_entries}
use computer_networking.Session.{
  Surroundings, Client, terminated, idsize, rtable_prefix, write_file, save_rtable, handle_rtable,
}

-- A text in an array of `n` bytes, padded with zeros.
abbrev pub padded : ℕ → List ℕ → List ℕ
padded n name = name ++ replicate (n - length name) 0

abbrev zeros : ℕ → List ℕ
zeros n = replicate n 0

terminated-NoNul :
    (name rest : List ℕ) → All (λ b. 0 < b) name → terminated (name ++ 0 ∷ rest) ≡ some name
unfolding terminated
terminated-NoNul [] rest h = refl
terminated-NoNul (b ∷ name) rest h = ground (arith, terminated-NoNul name rest h.1)

replicate-positive : (n : ℕ) → 0 < n → zeros n ≡ 0 ∷ zeros (n - 1)
replicate-positive zero h = absurd (omega arith)
replicate-positive (suc n) h = ap (λ k. 0 ∷ zeros k) (omega arith)

pub terminated-padded :
    (n : ℕ) (name rest : List ℕ)
    → All (λ b. 0 < b) name
    → length name < n
    → terminated (padded n name ++ rest) ≡ some name
terminated-padded n name rest h l =
    ap terminated (
      append_assoc name (replicate (n - length name) 0) rest
      ∙ ap (λ z. name ++ (z ++ rest)) (replicate-positive (n - length name) (omega arith)))
    ∙ terminated-NoNul name (replicate (n - length name - 1) 0 ++ rest) h

length-replicate : (n : ℕ) → length (zeros n) ≡ n
length-replicate zero = refl
length-replicate (suc n) = omega (arith, length-replicate n)

pub length-padded : (n : ℕ) (name : List ℕ) → length name < n → length (padded n name) ≡ n
length-padded n name h =
    omega (
      arith,
      length-append name (replicate (n - length name) 0),
      length-replicate (n - length name),
    )

drop-append : (n : ℕ) (xs ys : List ℕ) → length xs ≡ n → drop n (xs ++ ys) ≡ ys
drop-append zero [] ys e = refl
drop-append zero (x ∷ xs) ys e = absurd (omega arith)
drop-append (suc n) [] ys e = absurd (omega arith)
drop-append (suc n) (x ∷ xs) ys e = drop-append n xs ys (omega arith)

-- The file of that host, with this content.
abbrev pub saved : List ℕ → List ℕ → Client → Client
saved host content c = write_file (rtable_prefix ++ host) content c

save_rtable-saves :
    (w : Surroundings) (host content : List ℕ) (c : Client)
    → length host < idsize
    → w.writable (rtable_prefix ++ host) ≡ true
    → save_rtable w host (padded idsize host ++ content) c ≡ some (true, saved host content c)
unfolding save_rtable
save_rtable-saves w host content c h can =
    let fits : ltb idsize (length host) ≡ false = ground (arith, h) in
    let long : ltb (length (padded idsize host ++ content)) idsize ≡ false =
      ground (arith, length-append (padded idsize host) content, length-padded idsize host h) in
    rw (fits, can, long)
      (ap (λ t. some (true, saved host t c))
        (drop-append idsize (padded idsize host) content (length-padded idsize host h)))

pub handle_rtable-saves :
    (w : Surroundings) (host content : List ℕ) (c : Client)
    → All (λ b. 0 < b) host
    → length host < idsize
    → w.writable (rtable_prefix ++ host) ≡ true
    → handle_rtable w (padded idsize host ++ content) c ≡ some (true, saved host content c)
unfolding handle_rtable
handle_rtable-saves w host content c letters short can =
    ap (λ o. elim o [ none ↦ none | some id ↦ save_rtable w id (padded idsize host ++ content) c ])
      (terminated-padded idsize host content letters short)
    ∙ save_rtable-saves w host content c short can

-- For a host name of less than 32 bytes that are not NUL, whose file can be written, and a table of
-- at least one route whose addresses have 32 bits and whose interface names have 1 to 31 bytes that
-- are neither spaces nor control characters: the message with the name and the table's text is
-- saved, and `sr_load_rt` of the file "rtable." with the name reads this table, whatever routes
-- there were before.
pub handle_rtable-load_rt :
    (w : Surroundings) (host : List ℕ) (r : Rt) (rs old : List Rt) (c : Client)
    → All (λ b. 0 < b) host
    → length host < idsize
    → w.writable (rtable_prefix ++ host) ≡ true
    → All IsPrintable (r ∷ rs)
    → (after : Client) × (handle_rtable w (padded idsize host ++ print_entries (r ∷ rs)) c
        ≡ some (true, after))
      × (load_rt (after.files (rtable_prefix ++ host)) old ≡ some (true, r ∷ rs))
handle_rtable-load_rt w host r rs old c letters short can routes =
    let content = print_entries (r ∷ rs) in
    (
      saved host content c,
      handle_rtable-saves w host content c letters short can,
      rw (bytes_eq_refl (rtable_prefix ++ host)) (load_rt-print_entries r rs old routes),
    )
