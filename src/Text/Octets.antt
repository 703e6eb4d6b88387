-- ===== src/Text/Octets.antt =====
-- The decimal text of a byte, by its digits, and reading it back.
use computer_networking.Base.{
  ℕ, zero, suc, ◌+◌, ◌/◌, ◌%◌, ◌<◌, ◌≡◌, refl, Bool, true, ◌&&◌, List, [], ◌∷◌, ◌++◌, arith, ltb,
  if◌then◌else◌, bytes_eq, bytes_eq→eq,
}
use computer_networking.Text.{decimal, strtoul, starts_with_digit}

-- One, two or three digits.
abbrev pub octet : ℕ → List ℕ
octet n =
    if ltb n 10
    then (b'0' + n) ∷ []
    else (if ltb n 100
        then (b'0' + n / 10) ∷ (b'0' + n % 10) ∷ []
        else (b'0' + n / 100) ∷ (b'0' + n / 10 % 10) ∷ (b'0' + n % 10) ∷ [])

agree_below : ℕ → Bool
agree_below zero = true
agree_below (suc n) = bytes_eq (decimal n) (octet n) && agree_below n

agree_256 : agree_below 256 ≡ true
unfolding agree_below decimal bytes_eq
agree_256 = refl

agree_sound : (k n : ℕ) → agree_below k ≡ true → n < k → decimal n ≡ octet n
unfolding agree_below
agree_sound zero n h lt = absurd (omega arith)
agree_sound (suc k) n h lt = ground (arith, agree_sound k n, bytes_eq→eq (decimal k) (octet k))

pub decimal-octet : (n : ℕ) → n < 256 → decimal n ≡ octet n
decimal-octet n h = agree_sound 256 n agree_256 h

-- The text goes on with no digit, and no letter that could belong to a number.
abbrev pub Stops : List ℕ → Type 0
Stops [] = Unit {0}
Stops (c ∷ s) = (c < b'0')

pub strtoul-octet :
    (n : ℕ) (rest : List ℕ) → n < 256 → Stops rest → strtoul (octet n ++ rest) ≡ (n, rest)
unfolding strtoul
strtoul-octet n [] h s = ground arith
strtoul-octet n (a ∷ []) h s = ground arith
strtoul-octet n (a ∷ b ∷ r) h s = ground arith

pub starts_with_digit-octet :
    (n : ℕ) (rest : List ℕ) → n < 256 → starts_with_digit (octet n ++ rest) ≡ true
starts_with_digit-octet n rest h = ground arith

-- Reading the text of a byte, whatever follows that stops a number.
pub strtoul-decimal :
    (n : ℕ) (rest : List ℕ) → n < 256 → Stops rest → strtoul (decimal n ++ rest) ≡ (n, rest)
strtoul-decimal n rest h s = rw (decimal-octet n h) (strtoul-octet n rest h s)

pub starts_with_digit-decimal :
    (n : ℕ) (rest : List ℕ) → n < 256 → starts_with_digit (decimal n ++ rest) ≡ true
starts_with_digit-decimal n rest h = rw (decimal-octet n h) (starts_with_digit-octet n rest h)
