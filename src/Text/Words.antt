-- ===== src/Text/Words.antt =====
-- Lines and words that were printed with separators are found again.
use mathlib.Core.Path.{subst}
use mathlib.Core.List.{append_assoc}
use computer_networking.Base.{
  ℕ, ◌+◌, ◌/◌, ◌%◌, ◌-◌, ◌^◌, ◌≤◌, ◌<◌, ◌≡◌, ◌≢◌, refl, true, false, ◌||◌, List, [], ◌∷◌, ◌++◌, All,
  All-append, arith, leb, ◌==◌, length, length-append,
}
use computer_networking.Text.{
  decimal, inet_ntoa, is_space, fgets_lines, c_string, skip_spaces, take_word, scan_word,
}
use computer_networking.Text.Octets.{decimal-octet}

-- Neither space nor control characters.
abbrev pub IsWord : List ℕ → Type 0
IsWord = All λ b. 32 < b

abbrev pub IsLine : List ℕ → Type 0
IsLine = All λ b. (0 < b) × (b ≢ 10)

decimal-IsWord : (n : ℕ) → n < 256 → IsWord (decimal n)
decimal-IsWord n h = rw (decimal-octet n h) (ground arith)

length-decimal : (n : ℕ) → n < 256 → (1 ≤ length (decimal n)) × (length (decimal n) ≤ 3)
length-decimal n h = rw (decimal-octet n h) (ground arith)

pub inet_ntoa-IsWord : (v : ℕ) → IsWord (inet_ntoa v)
unfolding inet_ntoa
inet_ntoa-IsWord v = All-append _ (decimal (v % 256)) _ (decimal-IsWord (v % 256) (omega arith)) (
  omega arith,
  All-append _ (decimal (v / 2 ^ 8 % 256)) _ (decimal-IsWord (v / 2 ^ 8 % 256) (omega arith)) (
    omega arith,
    All-append _ (decimal (v / 2 ^ 16 % 256)) _ (decimal-IsWord (v / 2 ^ 16 % 256) (omega arith))
        (omega arith, decimal-IsWord (v / 2 ^ 24 % 256) (omega arith)),
  ),
)

pub length-inet_ntoa : (v : ℕ) → (1 ≤ length (inet_ntoa v)) × (length (inet_ntoa v) ≤ 15)
unfolding inet_ntoa
length-inet_ntoa v =
    let b = v / 2 ^ 8 % 256 in
    let c = v / 2 ^ 16 % 256 in
    let d = v / 2 ^ 24 % 256 in
    omega (
      arith,
      length-decimal (v % 256) (omega arith),
      length-decimal b (omega arith),
      length-decimal c (omega arith),
      length-decimal d (omega arith),
      length-append (decimal (v % 256))
          (b'.' ∷ (decimal b ++ (b'.' ∷ (decimal c ++ b'.' ∷ decimal d)))),
      length-append (decimal b) (b'.' ∷ (decimal c ++ b'.' ∷ decimal d)),
      length-append (decimal c) (b'.' ∷ decimal d),
    )

-- A word in front of a space is read as it is, whatever spaces stand before it.
take_word-append :
    (w : List ℕ) (c : ℕ) (s : List ℕ)
    → IsWord w
    → is_space c ≡ true
    → take_word (w ++ c ∷ s) ≡ (w, c ∷ s)
unfolding take_word
take_word-append [] c s h e = rw e refl
take_word-append (x ∷ w) c s h e = ground (arith, take_word-append w c s h.1 e)

pub scan_word-append :
    (w : List ℕ) (c : ℕ) (s : List ℕ)
    → 1 ≤ length w
    → IsWord w
    → is_space c ≡ true
    → scan_word (w ++ c ∷ s) ≡ (w, c ∷ s)
unfolding scan_word skip_spaces
scan_word-append [] c s l h e = absurd (omega arith)
scan_word-append (x ∷ w) c s l h e = ground (arith, take_word-append (x ∷ w) c s h e)

pub scan_word-space : (c : ℕ) (s : List ℕ) → is_space c ≡ true → scan_word (c ∷ s) ≡ scan_word s
unfolding scan_word skip_spaces
scan_word-space c s e = rw e refl

-- A C string without NUL in a text.
pub c_string-text : (s : List ℕ) → All (λ b. 0 < b) s → c_string s ≡ s
unfolding c_string
c_string-text [] h = refl
c_string-text (b ∷ s) h = ground (arith, c_string-text s h.1)

not_full :
    (size b : ℕ) (got : List ℕ)
    → b ≢ 10
    → length got + 3 ≤ size
    → (b == 10 || leb (size - 1) (length (got ++ b ∷ []))) ≡ false
not_full size b got n l = ground (arith, length-append got (b ∷ []))

-- A line that fits the buffer is given whole, and the next call starts behind it.
fgets_lines-rest :
    (size : ℕ) (got line file : List ℕ)
    → IsLine line
    → length got + length line + 2 ≤ size
    → fgets_lines size got (line ++ 10 ∷ file)
      ≡ (got ++ (line ++ 10 ∷ [])) ∷ fgets_lines size [] file
unfolding fgets_lines
fgets_lines-rest size [] [] file h l = refl
fgets_lines-rest size (g ∷ got) [] file h l = refl
fgets_lines-rest size [] (b ∷ line) file h l =
    rw (not_full size b [] h.0.1 (omega arith))
      (fgets_lines-rest size (b ∷ []) line file h.1 (omega arith))
fgets_lines-rest size (g ∷ got) (b ∷ line) file h l =
    rw (not_full size b (g ∷ got) h.0.1 (omega arith)) (
      subst
        (λ front.
          fgets_lines size (g ∷ (got ++ b ∷ [])) (line ++ 10 ∷ file)
          ≡ (g ∷ front) ∷ fgets_lines size [] file)
        (append_assoc got (b ∷ []) (line ++ 10 ∷ []))
        (fgets_lines-rest size (g ∷ (got ++ b ∷ [])) line file h.1
          (omega (arith, length-append got (b ∷ [])))))

pub fgets_lines-line :
    (size : ℕ) (line file : List ℕ)
    → IsLine line
    → length line + 2 ≤ size
    → fgets_lines size [] (line ++ 10 ∷ file) ≡ (line ++ 10 ∷ []) ∷ fgets_lines size [] file
fgets_lines-line size line file h l = fgets_lines-rest size [] line file h (omega arith)
