-- ===== src/Vns/Hardware.antt =====
-- The hardware message as bytes: its entries are read as they were written, and the session goes on
-- if the routes fit the interfaces.
use mathlib.Core.List.{append-nil}
use computer_networking.Base.{
  ℕ, zero, suc, ◌*◌, ◌/◌, ◌^◌, ◌<◌, ◌≡◌, refl, sym, ap, ◌∙◌, true, Option, none, some, List, [],
  ◌∷◌, ◌++◌, All, arith, length, length-append, replicate, split_at?, split_at?-append, htonl,
  ntohl, ◌==◌,
}
use computer_networking.Proto.{load32, store32}
use computer_networking.Proto.RoundTrip.{load32-store32}
use computer_networking.State.{If, Router}
use computer_networking.Exec.{pure, gets, modify, ◌>>=◌}
use computer_networking.Exec.Steps.{step-lift}
use computer_networking.Route.{verify_routing_table}
use computer_networking.Vns.{HwEntry, hw_entries, on_hwinfo}
use computer_networking.Vns.Setup.{
  IsDescribable, descriptions, telling, equip, handle_hwinfo-builds,
}

-- The key in network order, and 32 bytes of value.
unfoldable pub encode_entries : List HwEntry → List ℕ
encode_entries [] = []
encode_entries (e ∷ es) = store32 (htonl e.key) ++ (e.value ++ encode_entries es)

pub record EntryFits (e : HwEntry) : Type 0 where
  pub key : e.key < 2 ^ 32
  pub value : length e.value ≡ 32

ntohl-htonl : (v : ℕ) → v < 2 ^ 32 → ntohl (htonl v) ≡ v
ntohl-htonl v h = omega arith

-- One entry, from what its parts give.
abbrev entry_from : List ℕ → Option (ℕ × List ℕ) → Option (List HwEntry) → Option (List HwEntry)
entry_from v k more = elim k [
  | none ↦ none
  | some (key, _) ↦ elim more [
    | none ↦ none
    | some es ↦ some (record { key = ntohl key; value = v } ∷ es)
  ]
]

abbrev value_from : ℕ → List ℕ → Option (List ℕ × List ℕ) → Option (List HwEntry)
value_from n k o = elim o [
  | none ↦ none
  | some (v, rest) ↦ entry_from v (load32 k) (hw_entries n rest)
]

abbrev key_from : ℕ → Option (List ℕ × List ℕ) → Option (List HwEntry)
key_from n o = elim o [ none ↦ none | some (k, r) ↦ value_from n k (split_at? 32 r) ]

hw_entries-encode :
    (es : List HwEntry) → All EntryFits es → hw_entries (length es) (encode_entries es) ≡ some es
unfolding hw_entries encode_entries
hw_entries-encode [] h = refl
hw_entries-encode (e ∷ es) h =
    let k = store32 (htonl e.key) in
    let n = length es in
    let rest = encode_entries es in
    ap (key_from n) (split_at?-append 4 k (e.value ++ rest) refl)
    ∙ (ap (value_from n k) (split_at?-append 32 e.value rest h.0.value)
        ∙ (ap (λ o. entry_from e.value o (hw_entries n rest))
              (ap load32 (sym (append-nil k)) ∙ load32-store32 (htonl e.key) [] (omega arith))
            ∙ (ap (λ m. entry_from e.value (some (htonl e.key, [])) m) (hw_entries-encode es h.1)
                ∙ ap (λ key. some (record { key = key; value = e.value } ∷ es))
                    (ntohl-htonl e.key h.0.key))))

length-encode_entries :
    (es : List HwEntry) → All EntryFits es → length (encode_entries es) ≡ 36 * length es
unfolding encode_entries
length-encode_entries [] h = refl
length-encode_entries (e ∷ es) h =
    omega
      (arith, length-append e.value (encode_entries es), h.0.value, length-encode_entries es h.1)

length-zeros : (n : ℕ) → length (replicate {A = ℕ} n 0) ≡ n
length-zeros zero = refl
length-zeros (suc n) = omega (arith, length-zeros n)

-- A message's entries describe these interfaces: those that name an interface or give its addresses
-- are the descriptions of them, in their order, and the others have any keys and values.
pub record Describes (es : List HwEntry) (is : List If) : Type 0 where
  pub fits : All EntryFits es
  pub told : telling es ≡ descriptions is
  pub describable : All IsDescribable is

-- The message that describes any number of interfaces, each with a name of fewer than 32 bytes
-- without NUL, a hardware address of six bytes and a 32-bit IP address, adds exactly these
-- interfaces to the list, in their order; the session goes on if the routing table then passes the
-- check. The speed of each is what the allocated memory held.
pub on_hwinfo-equip :
    (raw : List If → If) (es : List HwEntry) (is : List If) (s : Router)
    → Describes es is
    → verify_routing_table (s.if_list ++ equip raw s.if_list is) s.routing_table ≡ 0
    → on_hwinfo raw (encode_entries es) s
      ≡ some (true, record s { if_list = s.if_list ++ equip raw s.if_list is })
unfolding on_hwinfo ◌>>=◌ gets modify pure
on_hwinfo-equip raw es is s d v =
    let rest = encode_entries es in
    let count : length rest / 36 ≡ length es = omega (arith, length-encode_entries es d.fits) in
    let built = s.if_list ++ equip raw s.if_list is in
    step-lift _ _ s es (ap (λ n. hw_entries n rest) count ∙ hw_entries-encode es d.fits)
    ∙ (step-lift _ _ s built (handle_hwinfo-builds raw es is s.if_list d.told d.describable)
        ∙ ap (λ n. some (n == 0, record s { if_list = built })) v)
