-- ===== src/Route/Load/Entries.antt =====
-- The line that is printed for a route, and what the parser makes of it.
use mathlib.Core.List.{append_assoc}
use computer_networking.Base.{
  ℕ, zero, suc, ◌≤◌, ◌<◌, ◌^◌, ◌≡◌, ◌≢◌, refl, ap, ◌∙◌, true, none, some, List, [], ◌∷◌, ◌++◌, All,
  All-append, arith, length, length-append, take,
}
use computer_networking.Proto.{iface_namelen}
use computer_networking.State.{Rt, strncpy}
use computer_networking.Text.{inet_ntoa, is_space}
use computer_networking.Text.Dotted.{inet_aton-inet_ntoa}
use computer_networking.Text.Words.{
  IsWord, IsLine, inet_ntoa-IsWord, length-inet_ntoa, scan_word-append, scan_word-space,
  c_string-text,
}
use computer_networking.Route.{add_rt_entry}
use computer_networking.Route.Load.{
  Fields, words_then, scan_words, all_fit, scan_line, parse_fields, Parsed, refused, route,
  with_address, print_routing_entry,
}

-- Addresses of 32 bits, and a name of 1 to 31 bytes with neither spaces nor control characters.
pub record IsPrintable (r : Rt) : Type 0 where
  pub dest : r.dest < 2 ^ 32
  pub gw : r.gw < 2 ^ 32
  pub mask : r.mask < 2 ^ 32
  pub name : IsWord r.interface
  pub some_name : 1 ≤ length r.interface
  pub short : length r.interface < 32

-- The line without its end.
abbrev pub entry_text : Rt → List ℕ
entry_text r =
    inet_ntoa r.dest ++ (9 ∷ 9 ∷ (inet_ntoa r.gw ++ (9 ∷ (inet_ntoa r.mask ++ (9 ∷ r.interface)))))

pub print_routing_entry-append :
    (r : Rt) (file : List ℕ) → print_routing_entry r ++ file ≡ entry_text r ++ 10 ∷ file
unfolding print_routing_entry
print_routing_entry-append r file = simp append_assoc

pub print_routing_entry-line : (r : Rt) → print_routing_entry r ≡ entry_text r ++ 10 ∷ []
unfolding print_routing_entry
print_routing_entry-line r = simp append_assoc

module _ (P : ℕ → Type 0) (word : (b : ℕ) → 32 < b → P b) (tab : P 9) where
  All-word : (w : List ℕ) → IsWord w → All P w
  All-word [] h = tt
  All-word (b ∷ w) h = (word b h.0, All-word w h.1)

  entry_text-All : (r : Rt) → IsPrintable r → All P (entry_text r)
  entry_text-All r p = All-append P (inet_ntoa r.dest) _ (All-word _ (inet_ntoa-IsWord r.dest)) (
    tab,
    (
      tab,
      All-append P (inet_ntoa r.gw) _ (All-word _ (inet_ntoa-IsWord r.gw)) (
        tab,
        All-append P (inet_ntoa r.mask) _ (All-word _ (inet_ntoa-IsWord r.mask))
            (tab, All-word r.interface p.name),
      ),
    ),
  )

pub entry_text-IsLine : (r : Rt) → IsPrintable r → IsLine (entry_text r)
entry_text-IsLine r p =
    entry_text-All (λ b. (0 < b) × (b ≢ 10)) (λ b h. (omega arith, λ e. omega (arith, e)))
      (omega arith, λ e. absurd (omega (arith, e))) r p

pub length-entry_text : (r : Rt) → IsPrintable r → length (entry_text r) ≤ 80
length-entry_text r p = omega (
  arith,
  length-inet_ntoa r.dest,
  length-inet_ntoa r.gw,
  length-inet_ntoa r.mask,
  p.short,
  length-append (inet_ntoa r.dest)
      (9 ∷ 9 ∷ (inet_ntoa r.gw ++ (9 ∷ (inet_ntoa r.mask ++ (9 ∷ r.interface))))),
  length-append (inet_ntoa r.gw) (9 ∷ (inet_ntoa r.mask ++ (9 ∷ r.interface))),
  length-append (inet_ntoa r.mask) (9 ∷ r.interface),
)

pub scan_words-word :
    (n : ℕ) (w : List ℕ) (c : ℕ) (s : List ℕ)
    → 1 ≤ length w
    → IsWord w
    → is_space c ≡ true
    → scan_words (suc n) (w ++ c ∷ s) ≡ w ∷ scan_words n (c ∷ s)
unfolding scan_words words_then
scan_words-word n [] c s l h e = absurd (omega arith)
scan_words-word n (x ∷ w) c s l h e =
    ap (words_then (scan_words n)) (scan_word-append (x ∷ w) c s l h e)

scan_words-space :
    (n c : ℕ) (s : List ℕ) → is_space c ≡ true → scan_words (suc n) (c ∷ s) ≡ scan_words (suc n) s
unfolding scan_words
scan_words-space n c s e = ap (words_then (scan_words n)) (scan_word-space c s e)

words_of : Rt → List (List ℕ)
words_of r = inet_ntoa r.dest ∷ inet_ntoa r.gw ∷ inet_ntoa r.mask ∷ r.interface ∷ []

scan_words-entry : (r : Rt) → IsPrintable r → scan_words 4 (print_routing_entry r) ≡ words_of r
unfolding print_routing_entry words_of scan_words
scan_words-entry r p =
    scan_words-word 3 (inet_ntoa r.dest) 9 _ (length-inet_ntoa r.dest).0 (inet_ntoa-IsWord r.dest)
      refl
    ∙ ap (◌∷◌ (inet_ntoa r.dest)) (
        scan_words-space 2 9 _ refl
        ∙ (scan_words-space 2 9 _ refl
            ∙ (scan_words-word 2 (inet_ntoa r.gw) 9 _ (length-inet_ntoa r.gw).0
                  (inet_ntoa-IsWord r.gw) refl
                ∙ ap (◌∷◌ (inet_ntoa r.gw)) (
                    scan_words-space 1 9 _ refl
                    ∙ (scan_words-word 1 (inet_ntoa r.mask) 9 _ (length-inet_ntoa r.mask).0
                          (inet_ntoa-IsWord r.mask) refl
                        ∙ ap (◌∷◌ (inet_ntoa r.mask)) (
                            scan_words-space 0 9 _ refl
                            ∙ scan_words-word 0 r.interface 10 [] p.some_name p.name refl))))))

printed-NoNul : (r : Rt) → IsPrintable r → All (λ b. 0 < b) (print_routing_entry r)
printed-NoNul r p = rw (print_routing_entry-line r) (
    All-append _ (entry_text r) (10 ∷ []) (entry_text-All _ (λ b h. omega arith) (omega arith) r p)
      (omega arith, tt))

all_fit-entry : (r : Rt) → IsPrintable r → all_fit (words_of r) ≡ true
unfolding all_fit words_of
all_fit-entry r p =
    ground (arith, length-inet_ntoa r.dest, length-inet_ntoa r.gw, length-inet_ntoa r.mask, p.short)

-- The four arrays behind the line of a route.
abbrev pub fields_of : Rt → Fields
fields_of r = record {
  dest = some (inet_ntoa r.dest);
  gw = some (inet_ntoa r.gw);
  mask = some (inet_ntoa r.mask);
  iface = some r.interface;
}

-- Whatever the arrays held before.
pub scan_line-entry :
    (f : Fields) (r : Rt) → IsPrintable r → scan_line f (print_routing_entry r) ≡ some (fields_of r)
unfolding scan_line words_of all_fit
scan_line-entry f r p =
    rw (c_string-text (print_routing_entry r) (printed-NoNul r p), scan_words-entry r p)
      (rw (all_fit-entry r p) refl)

with_address-some :
    (a : ℕ) (f : ℕ → Parsed) → a < 2 ^ 32 → with_address (some (inet_ntoa a)) f ≡ f a
with_address-some a f h =
    ap (λ o. elim o [ none ↦ refused | some v ↦ f v ]) (inet_aton-inet_ntoa a h)

pub parse_fields-entry :
    (r : Rt) → IsPrintable r → parse_fields (fields_of r) ≡ route r.dest r.gw r.mask r.interface
unfolding parse_fields
parse_fields-entry r p =
    with_address-some r.dest _ p.dest
    ∙ (with_address-some r.gw _ p.gw ∙ with_address-some r.mask _ p.mask)

take_all : (n : ℕ) (xs : List ℕ) → length xs ≤ n → take n xs ≡ xs
take_all zero [] h = refl
take_all zero (x ∷ xs) h = absurd (omega arith)
take_all (suc n) [] h = refl
take_all (suc n) (x ∷ xs) h = ap (◌∷◌ x) (take_all n xs (omega arith))

add_rt_entry-append :
    (d g m : ℕ) (name : List ℕ) (table : List Rt)
    → add_rt_entry d g m name table
      ≡ table ++ record { dest = d; gw = g; mask = m; interface = strncpy iface_namelen name } ∷ []
unfolding add_rt_entry
add_rt_entry-append d g m name [] = refl
add_rt_entry-append d g m name (r ∷ rs) = ap (◌∷◌ r) (add_rt_entry-append d g m name rs)

pub add_rt_entry-entry :
    (r : Rt) (table : List Rt)
    → IsPrintable r
    → add_rt_entry r.dest r.gw r.mask r.interface table ≡ table ++ r ∷ []
add_rt_entry-entry r table p =
    add_rt_entry-append r.dest r.gw r.mask r.interface table
    ∙ ap (λ n. table ++ record { dest = r.dest; gw = r.gw; mask = r.mask; interface = n } ∷ [])
        (take_all 32 r.interface (omega (arith, p.short)))
