-- ===== src/Route/Load/Odd.antt =====
-- Lines that are no routes: a blank line, and one that `inet_aton` refuses.
use mathlib.Core.List.{append_assoc, append-nil}
use computer_networking.Base.{
  ℕ, ◌≤◌, ◌<◌, ◌≡◌, refl, sym, ap, ◌∙◌, true, false, none, some, List, [], ◌∷◌, ◌++◌, All,
  All-append, arith, length,
}
use computer_networking.State.{Rt}
use computer_networking.Text.{fgets_lines, inet_aton, c_string, scan_word}
use computer_networking.Text.Words.{IsWord, IsLine, c_string-text, fgets_lines-line}
use computer_networking.Route.Load.{
  Fields, scan_line, parse_fields, refused, route, load_lines, load_rt, bufsiz, print_entries,
  scan_words, all_fit, with_address, with_name,
}
use computer_networking.Route.Load.Entries.{
  IsPrintable, fields_of, scan_words-word, parse_fields-entry, add_rt_entry-entry,
}
use computer_networking.Route.Load.Reload.{
  entry_lines, fgets_lines-entries, load_lines-cons, load_lines-entries, fields_after,
  load_rt-entries,
}

IsWord-NoNul : (w : List ℕ) → IsWord w → All (λ b. 0 < b) w
IsWord-NoNul [] h = tt
IsWord-NoNul (b ∷ w) h = (omega (arith, h.0), IsWord-NoNul w h.1)

IsWord-IsLine : (w : List ℕ) → IsWord w → IsLine w
IsWord-IsLine [] h = tt
IsWord-IsLine (b ∷ w) h = ((omega (arith, h.0), λ e. omega (arith, h.0, e)), IsWord-IsLine w h.1)

scan_line-blank : (f : Fields) → scan_line f (10 ∷ []) ≡ some f
unfolding scan_line c_string scan_words scan_word all_fit
scan_line-blank f = refl

-- A line of one word.
scan_line-word :
    (f : Fields) (w : List ℕ)
    → IsWord w
    → 1 ≤ length w
    → length w < 32
    → scan_line f (w ++ 10 ∷ []) ≡ some (record f { dest = some w })
unfolding scan_line scan_words scan_word all_fit
scan_line-word f w h l s =
    rw
      (
        c_string-text (w ++ 10 ∷ [])
            (All-append _ w (10 ∷ []) (IsWord-NoNul w h) (omega arith, tt)),
        scan_words-word 3 w 10 [] l h refl,
      )
      (ground arith)

parse_fields-refused :
    (f : Fields) (w : List ℕ)
    → inet_aton w ≡ none
    → parse_fields (record f { dest = some w }) ≡ refused
unfolding parse_fields
parse_fields-refused f w e =
    ap
      (λ o. elim o [
        | none ↦ refused
        | some d ↦
            with_address f.gw λ g. with_address f.mask λ m. with_name f.iface λ i. route d g m i
      ])
      e

-- The lines of routes (at least one, with addresses of 32 bits and names of 1 to 31 bytes that are
-- neither spaces nor control characters), then a line that is one word of 1 to 31 such bytes which
-- `inet_aton` refuses, then any text: `sr_load_rt` fails, and it leaves the routes before that
-- line in the table.
pub load_rt-refused :
    (r : Rt) (rs old : List Rt) (w file : List ℕ)
    → All IsPrintable (r ∷ rs)
    → IsWord w
    → 1 ≤ length w
    → length w < 32
    → inet_aton w ≡ none
    → load_rt (some (print_entries (r ∷ rs) ++ (w ++ 10 ∷ file))) old ≡ some (false, r ∷ rs)
load_rt-refused r rs old w file h n l s e =
    let f = fields_after (fields_of r) rs in
    load_rt-entries r rs old (w ++ 10 ∷ file) h
    ∙ (ap (λ ls. load_lines true f ls (r ∷ rs))
          (fgets_lines-line bufsiz w file (IsWord-IsLine w n) (omega arith))
        ∙ load_lines-cons true f (record f { dest = some w }) refused (w ++ 10 ∷ [])
            (fgets_lines bufsiz [] file) (r ∷ rs) (scan_line-word f w n l s)
            (parse_fields-refused f w e))

fields_after-last :
    (f : Fields) (rs : List Rt) (r : Rt) → fields_after f (rs ++ r ∷ []) ≡ fields_of r
unfolding fields_after
fields_after-last f [] r = refl
fields_after-last f (x ∷ rs) r = fields_after-last (fields_of x) rs r

fgets_lines-blank :
    (more : List Rt)
    → All IsPrintable more
    → fgets_lines bufsiz [] (10 ∷ print_entries more) ≡ (10 ∷ []) ∷ entry_lines more []
unfolding fgets_lines
fgets_lines-blank more h =
    ap (λ file. (10 ∷ []) ∷ fgets_lines bufsiz [] file) (sym (append-nil (print_entries more)))
    ∙ ap (◌∷◌ (10 ∷ [])) (fgets_lines-entries more [] h)

-- The blank line: the arrays keep what they held.
load_lines-blank :
    (l : Rt) (more table : List Rt)
    → IsPrintable l
    → All IsPrintable more
    → load_lines true (fields_of l) ((10 ∷ []) ∷ entry_lines more []) table
      ≡ some (true, (table ++ l ∷ []) ++ more)
unfolding load_lines
load_lines-blank l more table p h =
    load_lines-cons true (fields_of l) (fields_of l) _ (10 ∷ []) (entry_lines more []) table
      (scan_line-blank (fields_of l)) (parse_fields-entry l p)
    ∙ (ap (load_lines true (fields_of l) (entry_lines more [])) (add_rt_entry-entry l table p)
        ∙ load_lines-entries (fields_of l) more [] (table ++ l ∷ []) h)

-- For routes whose addresses have 32 bits and whose interface names have 1 to 31 bytes that are
-- neither spaces nor control characters: where a blank line stands behind the line of a route `l`,
-- `sr_load_rt` succeeds, and the route `l` is in the table twice.
pub load_rt-blank :
    (before : List Rt) (l : Rt) (more old : List Rt)
    → All IsPrintable before
    → IsPrintable l
    → All IsPrintable more
    → load_rt (some (print_entries (before ++ l ∷ []) ++ 10 ∷ print_entries more)) old
      ≡ some (true, before ++ l ∷ l ∷ more)
unfolding fields_after
load_rt-blank [] l more old h p q =
    load_rt-entries l [] old (10 ∷ print_entries more) (p, tt)
    ∙ (ap (λ ls. load_lines true (fields_of l) ls (l ∷ [])) (fgets_lines-blank more q)
        ∙ load_lines-blank l more (l ∷ []) p q)
load_rt-blank (r ∷ rs) l more old h p q =
    load_rt-entries r (rs ++ l ∷ []) old (10 ∷ print_entries more)
      (h.0, All-append IsPrintable rs (l ∷ []) h.1 (p, tt))
    ∙ (ap
          (λ f.
            load_lines true f (fgets_lines bufsiz [] (10 ∷ print_entries more))
              (r ∷ (rs ++ l ∷ [])))
          (fields_after-last (fields_of r) rs l)
        ∙ (ap (λ ls. load_lines true (fields_of l) ls (r ∷ (rs ++ l ∷ [])))
              (fgets_lines-blank more q)
            ∙ (load_lines-blank l more (r ∷ (rs ++ l ∷ [])) p q
                ∙ ap (λ t. some (true, r ∷ t))
                    (append_assoc (rs ++ l ∷ []) (l ∷ []) more
                      ∙ append_assoc rs (l ∷ []) (l ∷ more)))))
