-- ===== src/Vns/Setup.antt =====
-- The interface list that the hardware information builds.
use mathlib.Core.List.{append_assoc, append-nil}
use computer_networking.Base.{
  ℕ, zero, suc, ◌-◌, ◌^◌, ◌≤◌, ◌<◌, ◌≡◌, refl, sym, ap, ◌∙◌, none, some, List, [], ◌∷◌, ◌++◌, All,
  arith, length, replicate, take, Bool, false, ◌==◌, ◌||◌, if◌then◌else◌, Bool-cases, inl, inr,
}
use computer_networking.Proto.{store32, iface_namelen}
use computer_networking.Proto.RoundTrip.{load32-store32}
use computer_networking.State.{If, strncpy}
use computer_networking.Text.{c_string}
use computer_networking.Interface.{add_interface, set_ether_addr, set_ether_ip}
use computer_networking.Vns.{HwEntry, hw_interface, hw_ether, hw_ethip, hw_entry, handle_hwinfo}

-- The three entries that describe an interface, with 32 bytes of value each.
abbrev pub described : If → List HwEntry → List HwEntry
described i es =
    record { key = hw_interface; value = i.name ++ replicate (32 - length i.name) 0 }
    ∷ record { key = hw_ether; value = i.addr ++ replicate 26 0 }
    ∷ record { key = hw_ethip; value = store32 i.ip ++ replicate 28 0 }
    ∷ es

unfoldable pub descriptions : List If → List HwEntry
descriptions [] = []
descriptions (i ∷ is) = described i (descriptions is)

-- A name of less than 32 bytes without a NUL, an address of six bytes, and one of 32 bits.
pub record IsDescribable (i : If) : Type 0 where
  pub letters : All (λ b. 0 < b) i.name
  pub short : length i.name < 32
  pub addr : length i.addr ≡ 6
  pub ip : i.ip < 2 ^ 32

c_string-padded :
    (name : List ℕ) (k : ℕ) → All (λ b. 0 < b) name → c_string (name ++ replicate k 0) ≡ name
unfolding c_string
c_string-padded [] zero h = refl
c_string-padded [] (suc k) h = refl
c_string-padded (b ∷ name) k h = ground (arith, c_string-padded name k h.1)

take-short : (n : ℕ) (xs : List ℕ) → length xs ≤ n → take n xs ≡ xs
take-short zero [] h = refl
take-short zero (x ∷ xs) h = absurd (omega arith)
take-short (suc n) [] h = refl
take-short (suc n) (x ∷ xs) h = ap (◌∷◌ x) (take-short n xs (omega arith))

take-append : (n : ℕ) (xs ys : List ℕ) → length xs ≡ n → take n (xs ++ ys) ≡ xs
take-append zero [] ys h = refl
take-append zero (x ∷ xs) ys h = absurd (omega arith)
take-append (suc n) [] ys h = absurd (omega arith)
take-append (suc n) (x ∷ xs) ys h = ap (◌∷◌ x) (take-append n xs ys (omega arith))

add_interface-append :
    (raw : If) (name : List ℕ) (ifs : List If)
    → add_interface raw name ifs ≡ ifs ++ record raw { name = strncpy iface_namelen name } ∷ []
unfolding add_interface
add_interface-append raw name [] = refl
add_interface-append raw name (i ∷ ifs) = ap (◌∷◌ i) (add_interface-append raw name ifs)

set_ether_addr-append :
    (addr : List ℕ) (ifs : List If) (x : If)
    → set_ether_addr addr (ifs ++ x ∷ []) ≡ some (ifs ++ record x { addr = addr } ∷ [])
unfolding set_ether_addr
set_ether_addr-append addr [] x = refl
set_ether_addr-append addr (i ∷ []) x = refl
set_ether_addr-append addr (i ∷ j ∷ ifs) x =
    rw (set_ether_addr-append addr (j ∷ ifs) x, set_ether_addr) refl

set_ether_ip-append :
    (ip : ℕ) (ifs : List If) (x : If)
    → set_ether_ip ip (ifs ++ x ∷ []) ≡ some (ifs ++ record x { ip = ip } ∷ [])
unfolding set_ether_ip
set_ether_ip-append ip [] x = refl
set_ether_ip-append ip (i ∷ []) x = refl
set_ether_ip-append ip (i ∷ j ∷ ifs) x = rw (set_ether_ip-append ip (j ∷ ifs) x, set_ether_ip) refl

-- One turn, and then the others.
handle_hwinfo-cons :
    (raw : List If → If) (e : HwEntry) (es : List HwEntry) (ifs after : List If)
    → hw_entry raw e ifs ≡ some after
    → handle_hwinfo raw (e ∷ es) ifs ≡ handle_hwinfo raw es after
unfolding handle_hwinfo
handle_hwinfo-cons raw e es ifs after h =
    ap (λ o. elim o [ none ↦ none | some next ↦ handle_hwinfo raw es next ]) h

described_lem :
    (raw : List If → If) (i : If) (es : List HwEntry) (ifs : List If)
    → IsDescribable i
    → handle_hwinfo raw (described i es) ifs
      ≡ handle_hwinfo raw es (ifs ++ record i { speed = (raw ifs).speed } ∷ [])
unfolding hw_entry
described_lem raw i es ifs d =
    let r : If = raw ifs in
    let named : List If = ifs ++ record r { name = i.name } ∷ [] in
    let placed : List If = ifs ++ record r { name = i.name; addr = i.addr } ∷ [] in
    let padding : List ℕ = replicate (32 - length i.name) 0 in
    let name_is : strncpy iface_namelen (c_string (i.name ++ padding)) ≡ i.name =
      rw (c_string-padded i.name (32 - length i.name) d.letters)
        (take-short 32 i.name (omega (arith, d.short))) in
    handle_hwinfo-cons raw _ _ ifs named (
      ap some (
        add_interface-append r (c_string (i.name ++ padding)) ifs
        ∙ ap (λ n. ifs ++ record r { name = n } ∷ []) name_is))
    ∙ (handle_hwinfo-cons raw _ _ named placed (
          ap (λ a. set_ether_addr a named) (take-append 6 i.addr (replicate 26 0) d.addr)
          ∙ set_ether_addr-append i.addr ifs (record r { name = i.name }))
        ∙ handle_hwinfo-cons raw _ _ placed (ifs ++ record i { speed = r.speed } ∷ []) (
            ap (λ o. elim o [ none ↦ none | some (ip, _) ↦ set_ether_ip ip placed ])
              (load32-store32 i.ip (replicate 28 0) d.ip)
            ∙ set_ether_ip-append i.ip ifs (record r { name = i.name; addr = i.addr })))

-- The interfaces behind those that are there: the speed of each is what the memory held that was
-- allocated for it.
abbrev pub equip : (List If → If) → List If → List If → List If
equip raw before [] = []
equip raw before (i ∷ is) =
    record i { speed = (raw before).speed }
    ∷ equip raw (before ++ record i { speed = (raw before).speed } ∷ []) is

-- The entries of any number of describable interfaces build these interfaces, in their order and
-- behind those that were there; the speed of each is what the allocated memory held. An interface is
-- describable if its name has fewer than 32 bytes and no NUL, its hardware address six bytes, and its
-- IP address 32 bits.
handle_hwinfo_lem :
    (raw : List If → If) (is ifs : List If)
    → All IsDescribable is
    → handle_hwinfo raw (descriptions is) ifs ≡ some (ifs ++ equip raw ifs is)
unfolding descriptions handle_hwinfo
handle_hwinfo_lem raw [] ifs d = ap some (sym (append-nil ifs))
handle_hwinfo_lem raw (i ∷ is) ifs d =
    let j : If = record i { speed = (raw ifs).speed } in
    described_lem raw i (descriptions is) ifs d.0
    ∙ (handle_hwinfo_lem raw is (ifs ++ j ∷ []) d.1
        ∙ ap some (append_assoc ifs (j ∷ []) (equip raw (ifs ++ j ∷ []) is)))

-- The keys of a name, a hardware address and an IP address.
abbrev tells : ℕ → Bool
tells key = key == 1 || (key == 64 || key == 32)

-- The entries with these keys; the server also sends a speed, a subnet and a mask.
unfoldable pub telling : List HwEntry → List HwEntry
telling [] = []
telling (e ∷ es) = if tells e.key then e ∷ telling es else telling es

hw_entry-untold :
    (raw : List If → If) (e : HwEntry) (ifs : List If)
    → tells e.key ≡ false
    → hw_entry raw e ifs ≡ some ifs
unfolding hw_entry
hw_entry-untold raw e ifs h = ground (arith, h)

handle_hwinfo-tail :
    (raw : List If → If) (e : HwEntry) (es es' : List HwEntry) (ifs : List If)
    → ((after : List If) → handle_hwinfo raw es after ≡ handle_hwinfo raw es' after)
    → handle_hwinfo raw (e ∷ es) ifs ≡ handle_hwinfo raw (e ∷ es') ifs
unfolding handle_hwinfo
handle_hwinfo-tail raw e es es' ifs h =
    λ i. elim (hw_entry raw e ifs) [ none ↦ none | some after ↦ h after i ]

handle_hwinfo-telling :
    (raw : List If → If) (es : List HwEntry) (ifs : List If)
    → handle_hwinfo raw es ifs ≡ handle_hwinfo raw (telling es) ifs
unfolding telling
handle_hwinfo-telling raw [] ifs = refl
handle_hwinfo-telling raw (e ∷ es) ifs =
    let kept : Bool → List HwEntry = λ b. if b then e ∷ telling es else telling es in
    elim (Bool-cases (tells e.key)) [
      | inl told ↦
          handle_hwinfo-tail raw e es (telling es) ifs (handle_hwinfo-telling raw es)
          ∙ ap (λ b. handle_hwinfo raw (kept b) ifs) (sym told)
      | inr untold ↦
          handle_hwinfo-cons raw e es ifs ifs (hw_entry-untold raw e ifs untold)
          ∙ handle_hwinfo-telling raw es ifs
          ∙ ap (λ b. handle_hwinfo raw (kept b) ifs) (sym untold)
    ]

-- The entries of describable interfaces, with any others between them, build these interfaces.
pub handle_hwinfo-builds :
    (raw : List If → If) (es : List HwEntry) (is ifs : List If)
    → telling es ≡ descriptions is
    → All IsDescribable is
    → handle_hwinfo raw es ifs ≡ some (ifs ++ equip raw ifs is)
handle_hwinfo-builds raw es is ifs t d =
    handle_hwinfo-telling raw es ifs
    ∙ ap (λ l. handle_hwinfo raw l ifs) t
    ∙ handle_hwinfo_lem raw is ifs d
