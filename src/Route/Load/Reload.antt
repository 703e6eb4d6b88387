-- ===== src/Route/Load/Reload.antt =====
-- A file of printed routes, and what `sr_load_rt` reads from it.
use mathlib.Core.List.{append_assoc, append-nil}
use computer_networking.Base.{
  ℕ, ◌≡◌, refl, sym, ap, ◌∙◌, Bool, true, false, Option, none, some, List, [], ◌∷◌, ◌++◌, All,
  arith, if◌then◌else◌,
}
use computer_networking.State.{Rt}
use computer_networking.Text.{fgets_lines}
use computer_networking.Text.Words.{fgets_lines-line}
use computer_networking.Route.{add_rt_entry}
use computer_networking.Route.Load.{
  Fields, uninitialised, scan_line, parse_fields, Parsed, undefined, refused, route, load_lines,
  load_rt, bufsiz, print_routing_entry, print_entries,
}
use computer_networking.Route.Load.Entries.{
  IsPrintable, entry_text, print_routing_entry-append, print_routing_entry-line, entry_text-IsLine,
  length-entry_text, fields_of, scan_line-entry, parse_fields-entry, add_rt_entry-entry,
}

-- The lines of a file that holds printed routes, and behind them those of the rest.
unfoldable pub entry_lines : List Rt → List (List ℕ) → List (List ℕ)
entry_lines [] rest = rest
entry_lines (r ∷ rs) rest = print_routing_entry r ∷ entry_lines rs rest

fgets_lines-entry :
    (r : Rt) (file : List ℕ)
    → IsPrintable r
    → fgets_lines bufsiz [] (print_routing_entry r ++ file)
      ≡ print_routing_entry r ∷ fgets_lines bufsiz [] file
fgets_lines-entry r file p =
    ap (fgets_lines bufsiz []) (print_routing_entry-append r file)
    ∙ (fgets_lines-line bufsiz (entry_text r) file (entry_text-IsLine r p)
          (omega (arith, length-entry_text r p))
        ∙ ap (λ l. l ∷ fgets_lines bufsiz [] file) (sym (print_routing_entry-line r)))

pub fgets_lines-entries :
    (rs : List Rt) (file : List ℕ)
    → All IsPrintable rs
    → fgets_lines bufsiz [] (print_entries rs ++ file) ≡ entry_lines rs (fgets_lines bufsiz [] file)
unfolding print_entries entry_lines
fgets_lines-entries [] file h = refl
fgets_lines-entries (r ∷ rs) file h =
    ap (fgets_lines bufsiz []) (append_assoc (print_routing_entry r) (print_entries rs) file)
    ∙ (fgets_lines-entry r (print_entries rs ++ file) h.0
        ∙ ap (◌∷◌ (print_routing_entry r)) (fgets_lines-entries rs file h.1))

-- The loop behind a line, from what the arrays give.
abbrev pub after_line : Bool → List (List ℕ) → List Rt → Fields → Parsed → Option (Bool × List Rt)
after_line cleared lines table f p = elim p [
  | undefined ↦ none
  | refused ↦ some (false, table)
  | route d g m i ↦ load_lines true f lines (add_rt_entry d g m i (if cleared then table else []))
]

pub load_lines-cons :
    (cleared : Bool) (f f' : Fields) (p : Parsed) (line : List ℕ) (lines : List (List ℕ))
    (table : List Rt)
    → scan_line f line ≡ some f'
    → parse_fields f' ≡ p
    → load_lines cleared f (line ∷ lines) table ≡ after_line cleared lines table f' p
unfolding load_lines
load_lines-cons cleared f f' p line lines table h e =
    ap (λ o. elim o [ none ↦ none | some g ↦ after_line cleared lines table g (parse_fields g) ]) h
    ∙ ap (after_line cleared lines table f') e

load_lines-entry :
    (cleared : Bool) (f : Fields) (r : Rt) (lines : List (List ℕ)) (table : List Rt)
    → IsPrintable r
    → load_lines cleared f (print_routing_entry r ∷ lines) table
      ≡ load_lines true (fields_of r) lines ((if cleared then table else []) ++ r ∷ [])
load_lines-entry cleared f r lines table p =
    load_lines-cons cleared f (fields_of r) _ (print_routing_entry r) lines table
      (scan_line-entry f r p) (parse_fields-entry r p)
    ∙ ap (load_lines true (fields_of r) lines)
        (add_rt_entry-entry r (if cleared then table else []) p)

-- The arrays behind the lines of these routes.
unfoldable pub fields_after : Fields → List Rt → Fields
fields_after f [] = f
fields_after f (r ∷ rs) = fields_after (fields_of r) rs

pub load_lines-entries :
    (f : Fields) (rs : List Rt) (lines : List (List ℕ)) (table : List Rt)
    → All IsPrintable rs
    → load_lines true f (entry_lines rs lines) table
      ≡ load_lines true (fields_after f rs) lines (table ++ rs)
unfolding entry_lines fields_after
load_lines-entries f [] lines table h = ap (load_lines true f lines) (sym (append-nil table))
load_lines-entries f (r ∷ rs) lines table h =
    load_lines-entry true f r (entry_lines rs lines) table h.0
    ∙ (load_lines-entries (fields_of r) rs lines (table ++ r ∷ []) h.1
        ∙ ap (load_lines true (fields_after (fields_of r) rs) lines)
            (append_assoc table (r ∷ []) rs))

-- A file that starts with the lines of routes.
pub load_rt-entries :
    (r : Rt) (rs old : List Rt) (file : List ℕ)
    → All IsPrintable (r ∷ rs)
    → load_rt (some (print_entries (r ∷ rs) ++ file)) old
      ≡ load_lines true (fields_after (fields_of r) rs) (fgets_lines bufsiz [] file) (r ∷ rs)
unfolding load_rt entry_lines
load_rt-entries r rs old file h =
    ap (λ ls. load_lines false uninitialised ls old) (fgets_lines-entries (r ∷ rs) file h)
    ∙ (load_lines-entry false uninitialised r _ old h.0
        ∙ load_lines-entries (fields_of r) rs (fgets_lines bufsiz [] file) (r ∷ []) h.1)

-- For a table of at least one route, whose addresses have 32 bits and whose interface names have 1
-- to 31 bytes that are neither spaces nor control characters: `sr_load_rt` succeeds on the file of
-- the lines that `sr_print_routing_entry` prints, and the table it leaves is the printed one,
-- whatever routes there were before.
pub load_rt-print_entries :
    (r : Rt) (rs old : List Rt)
    → All IsPrintable (r ∷ rs)
    → load_rt (some (print_entries (r ∷ rs))) old ≡ some (true, r ∷ rs)
unfolding load_lines fgets_lines
load_rt-print_entries r rs old h =
    ap (λ file. load_rt (some file) old) (sym (append-nil (print_entries (r ∷ rs))))
    ∙ load_rt-entries r rs old [] h
