-- ===== src/Route/Load.antt =====
-- The routing table as text: `sr_load_rt`, `sr_print_routing_table` and `sr_print_routing_entry` of
-- simple-router-project/router/sr_rt.c.
pub mod Entries
pub mod Reload
pub mod Odd
use computer_networking.Base.{
  ℕ, zero, suc, ◌≡◌, refl, Bool, true, false, ◌&&◌, Option, none, some, List, [], ◌∷◌, ◌++◌, ltb,
  if◌then◌else◌, length,
}
use computer_networking.Proto.{iface_namelen}
use computer_networking.State.{Rt, strncpy}
use computer_networking.Text.{text, inet_ntoa, inet_aton, fgets_lines, c_string, scan_word}
use computer_networking.Route.{add_rt_entry}

-- The arrays `dest`, `gw`, `mask` and `iface`: nothing, or the word that was stored last.
pub record Fields : Type 0 where
  pub dest : Option (List ℕ)
  pub gw : Option (List ℕ)
  pub mask : Option (List ℕ)
  pub iface : Option (List ℕ)

abbrev pub uninitialised : Fields
uninitialised = record { dest = none; gw = none; mask = none; iface = none }

-- A word that was found, and the words behind it; without a word the scan ends.
unfoldable pub words_then : (List ℕ → List (List ℕ)) → List ℕ × List ℕ → List (List ℕ)
words_then next ([], rest) = []
words_then next (c ∷ w, rest) = (c ∷ w) ∷ next rest

-- The words that `"%s %s %s %s"` finds, at most `n`.
unfoldable pub scan_words : ℕ → List ℕ → List (List ℕ)
unfolding words_then
scan_words zero s = []
scan_words (suc n) s = words_then (scan_words n) (scan_word s)

-- Each word overwrites its array; the arrays without a word keep what they held.
abbrev pub store_words : Fields → List (List ℕ) → Fields
store_words f [] = f
store_words f (d ∷ []) = record f { dest = some d }
store_words f (d ∷ g ∷ []) = record f { dest = some d; gw = some g }
store_words f (d ∷ g ∷ m ∷ []) = record f { dest = some d; gw = some g; mask = some m }
store_words f (d ∷ g ∷ m ∷ i ∷ _) = record f {
  dest = some d;
  gw = some g;
  mask = some m;
  iface = some i;
}

unfoldable pub all_fit : List (List ℕ) → Bool
all_fit [] = true
all_fit (w ∷ ws) = ltb (length w) 32 && all_fit ws

-- A word of 32 bytes or more is written past its array.
unfoldable pub scan_line : Fields → List ℕ → Option Fields
unfolding scan_words all_fit
scan_line f line =
    let ws = scan_words 4 (c_string line) in if all_fit ws then some (store_words f ws) else none

-- What the arrays give: undefined behaviour where one that is read was never written, a text that
-- is no address, or a route.
pub data Parsed : Type 0 where
  undefined : Parsed
  refused : Parsed
  route : (dest gw mask : ℕ) (iface : List ℕ) → Parsed

abbrev pub with_address : Option (List ℕ) → (ℕ → Parsed) → Parsed
with_address none f = undefined
with_address (some w) f = elim (inet_aton w) [ none ↦ refused | some a ↦ f a ]

abbrev pub with_name : Option (List ℕ) → (List ℕ → Parsed) → Parsed
with_name none f = undefined
with_name (some w) f = f w

unfoldable pub parse_fields : Fields → Parsed
parse_fields f =
    with_address f.dest
      λ d. with_address f.gw λ g. with_address f.mask λ m. with_name f.iface λ i. route d g m i

-- The loop of `sr_load_rt`, with the variable `clear_routing_table`. The result is true for 0 and
-- false for -1.
unfoldable pub load_lines : Bool → Fields → List (List ℕ) → List Rt → Option (Bool × List Rt)
load_lines cleared f [] table = some (true, table)
load_lines cleared f (line ∷ lines) table = elim (scan_line f line) [
  | none ↦ none
  | some f' ↦ elim (parse_fields f') [
    | undefined ↦ none
    | refused ↦ some (false, table)
    | route d g m i ↦
        load_lines true f' lines (add_rt_entry d g m i (if cleared then table else []))
  ]
]

abbrev pub bufsiz : ℕ
bufsiz = 8192

-- The file is `none` if it cannot be read.
unfoldable pub load_rt : Option (List ℕ) → List Rt → Option (Bool × List Rt)
unfolding load_lines scan_line parse_fields
load_rt none table = some (false, table)
load_rt (some file) table = load_lines false uninitialised (fgets_lines bufsiz [] file) table

-- One line: destination, gateway, mask and interface, with tabs between.
unfoldable pub print_routing_entry : Rt → List ℕ
print_routing_entry r =
    inet_ntoa r.dest
    ++ (9 ∷ 9 ∷ (inet_ntoa r.gw ++ (9 ∷ (inet_ntoa r.mask ++ (9 ∷ (r.interface ++ 10 ∷ []))))))

unfoldable pub print_entries : List Rt → List ℕ
print_entries [] = []
print_entries (r ∷ rs) = print_routing_entry r ++ print_entries rs

unfoldable pub print_routing_table : List Rt → List ℕ
unfolding print_entries
print_routing_table [] = text " *warning* Routing table empty " ++ 10 ∷ []
print_routing_table (r ∷ rs) =
    text "Destination"
    ++ (9
        ∷ (text "Gateway"
            ++ (9 ∷ 9 ∷ (text "Mask" ++ (9 ∷ (text "Iface" ++ (10 ∷ print_entries (r ∷ rs))))))))
