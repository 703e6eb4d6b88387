-- ===== src/Text.antt =====
-- What the program uses of the C library's text functions: `%d` and `%02X`, `inet_ntoa`,
-- `inet_aton`, `fgets` and `sscanf` with `%s`. A text is the list of its bytes.
pub mod Octets
pub mod Dotted
pub mod Words
use Prim.Native.Char.{code}
use Prim.Native.String.{String}
use mathlib.Core.Logic.{dite}
use mathlib.Core.WellFounded.{Acc}
use native.Mathlib.Decide.{dec_lt}
use computer_networking.Base.{
  ℕ, zero, suc, ◌+◌, ◌-◌, ◌*◌, ◌/◌, ◌%◌, ◌^◌, ◌<◌, ◌≡◌, refl, Bool, true, false, ◌&&◌, ◌||◌, Option,
  none, some, List, [], ◌∷◌, ◌++◌, arith, ltb, leb, ◌==◌, if◌then◌else◌, length, htonl, lt_wf,
}

-- The bytes of a literal in the source.
abbrev pub text : String → List ℕ
text String.[] = []
text (String.◌∷◌ c s) = code c ∷ text s

abbrev digit : ℕ → ℕ
digit n = b'0' + n % 10

-- `%d` of a number that is not negative.
decimal_acc : (n : ℕ) → Acc ◌<◌ n → List ℕ
decimal_acc n (Acc.intro _ smaller) =
    dite (dec_lt 9 n) (λ h. decimal_acc (n / 10) (smaller (n / 10) (omega arith)) ++ digit n ∷ [])
      (λ _. digit n ∷ [])

unfoldable pub decimal : ℕ → List ℕ
unfolding decimal_acc lt_wf dec_lt
decimal n = decimal_acc n (lt_wf.apply n)

-- `inet_ntoa` of an address as the little-endian host loads it.
unfoldable pub inet_ntoa : ℕ → List ℕ
inet_ntoa v =
    decimal (v % 256)
    ++ (b'.' ∷ decimal (v / 2 ^ 8 % 256)
        ++ (b'.' ∷ decimal (v / 2 ^ 16 % 256) ++ b'.' ∷ decimal (v / 2 ^ 24 % 256)))

-- `isspace` in the C locale.
abbrev pub is_space : ℕ → Bool
is_space c = c == 32 || (leb 9 c && leb c 13)

abbrev pub is_digit : ℕ → Bool
is_digit c = leb b'0' c && leb c b'9'

-- The value of a digit in a base up to 16, and 99 for any other byte.
unfoldable pub digit_value : ℕ → ℕ
digit_value c =
    if is_digit c
    then c - b'0'
    else (if leb b'a' c && leb c b'f'
        then c - b'a' + 10
        else (if leb b'A' c && leb c b'F' then c - b'A' + 10 else 99))

-- The number that the digits at the front spell behind `acc`, and what follows them.
unfoldable pub scan_digits : ℕ → ℕ → List ℕ → ℕ × List ℕ
scan_digits base acc [] = (acc, [])
scan_digits base acc (c ∷ s) =
    let d = digit_value c in
    let rest = scan_digits base (acc * base + d) s in if ltb d base then rest else (acc, c ∷ s)

-- `strtoul(s, &end, 0)` of a text that starts with a digit: the prefix tells the base.
unfoldable pub strtoul : List ℕ → ℕ × List ℕ
unfolding scan_digits digit_value
strtoul [] = (0, [])
strtoul (c ∷ []) = scan_digits 10 0 (c ∷ [])
strtoul (c ∷ x ∷ []) = scan_digits (if c == b'0' then 8 else 10) 0 (c ∷ x ∷ [])
strtoul (c ∷ x ∷ h ∷ s) =
    if c == b'0'
    then (if (x == b'x' || x == b'X') && ltb (digit_value h) 16
        then scan_digits 16 0 (h ∷ s)
        else scan_digits 8 0 (c ∷ x ∷ h ∷ s))
    else scan_digits 10 0 (c ∷ x ∷ h ∷ s)

abbrev pub starts_with_digit : List ℕ → Bool
starts_with_digit [] = false
starts_with_digit (c ∷ s) = is_digit c

-- A number that was read, with `k` bytes of the address behind its own, and what follows it: a dot
-- and another part, or the end or a space. The last part fills all the bytes that are left. A value
-- beyond the machine's `long` is beyond these limits too.
unfoldable pub aton_part : ℕ → (List ℕ → Option ℕ) → ℕ × List ℕ → Option ℕ
aton_part k next (v, []) = if ltb v (256 ^ suc k) then some v else none
aton_part k next (v, c ∷ s) =
    if c == b'.'
    then (if ltb v 256
        then elim (next s) [ none ↦ none | some w ↦ some (v * 256 ^ k + w) ]
        else none)
    else (if is_space c && ltb v (256 ^ suc k) then some v else none)

-- The last `k + 1` bytes of an address, in host order.
unfoldable pub aton_parts : ℕ → List ℕ → Option ℕ
unfolding strtoul aton_part
aton_parts zero s = if starts_with_digit s then aton_part 0 (λ _. none) (strtoul s) else none
aton_parts (suc k) s =
    if starts_with_digit s then aton_part (suc k) (aton_parts k) (strtoul s) else none

-- `inet_aton`, with the address as the host loads it.
unfoldable pub inet_aton : List ℕ → Option ℕ
unfolding aton_parts
inet_aton s = elim (aton_parts 3 s) [ none ↦ none | some v ↦ some (htonl v) ]

-- The lines that `fgets` with a buffer of `size` bytes gives, one call after the other, until the
-- end of the file: each ends behind a newline, or where the buffer is full.
unfoldable pub fgets_lines : ℕ → List ℕ → List ℕ → List (List ℕ)
fgets_lines size [] [] = []
fgets_lines size (c ∷ line) [] = (c ∷ line) ∷ []
fgets_lines size line (b ∷ file) =
    let line' = line ++ b ∷ [] in
    let next = line' ∷ fgets_lines size [] file in
    let on = fgets_lines size line' file in
    if b == 10 || leb (size - 1) (length line') then next else on

-- A C string in an array: the bytes before the first NUL.
unfoldable pub c_string : List ℕ → List ℕ
c_string [] = []
c_string (b ∷ bs) = let rest = c_string bs in if b == 0 then [] else b ∷ rest

unfoldable pub skip_spaces : List ℕ → List ℕ
skip_spaces [] = []
skip_spaces (c ∷ s) = let rest = skip_spaces s in if is_space c then rest else c ∷ s

unfoldable pub take_word : List ℕ → List ℕ × List ℕ
take_word [] = ([], [])
take_word (c ∷ s) = let (w, rest) = take_word s in if is_space c then ([], c ∷ s) else (c ∷ w, rest)

-- One `%s` of `sscanf`, with the spaces before it: the word, if there is one, and what follows.
unfoldable pub scan_word : List ℕ → List ℕ × List ℕ
unfolding skip_spaces take_word
scan_word s = take_word (skip_spaces s)

decimal_sample : decimal 1070 ≡ text "1070"
unfolding decimal
decimal_sample = refl

aton_samples :
    (inet_aton (text "10.0.1.100") ≡ some 0x6401000a)
    × (inet_aton (text "0x7f.1") ≡ some 0x0100007f)
    × (inet_aton (text "010.0.1.1") ≡ some 0x01010008)
    × (inet_aton (text "10.0.1") ≡ some 0x0100000a)
    × (inet_aton (text "10.0.1.256") ≡ none)
    × (inet_aton (text "10.0.1.1x") ≡ none)
    × (inet_aton (text "") ≡ none)
unfolding inet_aton
aton_samples = (refl, refl, refl, refl, refl, refl, refl)

lines_sample :
    fgets_lines 4 [] (text "abcd" ++ 10 ∷ text "e")
    ≡ text "abc" ∷ (text "d" ++ 10 ∷ []) ∷ text "e" ∷ []
unfolding fgets_lines
lines_sample = refl
