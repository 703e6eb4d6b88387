-- ===== src/Checksum/Sums.antt =====
-- The word sums of the checksums, without wrap-around, and how the two byte orders are related.
use computer_networking.Base.{
  ℕ, ◌+◌, ◌*◌, ◌%◌, ◌^◌, ◌<◌, ◌≡◌, refl, List, [], ◌∷◌, ◌++◌, All, length, arith,
}
use computer_networking.Checksum.{sum_be, sum_native}

abbrev pub IsBytes : List ℕ → Type 0
IsBytes = All λ b. b < 256

-- The sum of the big-endian 16-bit words, unbounded.
abbrev pub words_be : List ℕ → ℕ
words_be [] = 0
words_be (a ∷ []) = a * 256
words_be (a ∷ b ∷ r) = a * 256 + b + words_be r

-- The sum of the little-endian 16-bit words, unbounded.
abbrev pub words_le : List ℕ → ℕ
words_le [] = 0
words_le (a ∷ []) = a
words_le (a ∷ b ∷ r) = a + 256 * b + words_le r

-- No 32-bit wrap-around happens in a buffer of fewer than 65536 bytes.
pub sum_be-words :
    (s : ℕ) (xs : List ℕ)
    → IsBytes xs
    → s + 65536 * length xs < 2 ^ 32
    → sum_be s xs ≡ s + words_be xs
unfolding sum_be
sum_be-words s [] h l = omega arith
sum_be-words s (a ∷ []) h l = omega arith
sum_be-words s (a ∷ b ∷ r) h l =
    omega (arith, sum_be-words ((s + (a * 256 + b)) % 2 ^ 32) r h.1.1 (omega arith))

pub sum_native-words :
    (s : ℕ) (xs : List ℕ)
    → IsBytes xs
    → s + 65536 * length xs < 2 ^ 32
    → sum_native s xs ≡ s + words_le xs
unfolding sum_native
sum_native-words s [] h l = omega arith
sum_native-words s (a ∷ []) h l = omega arith
sum_native-words s (a ∷ b ∷ r) h l =
    omega (arith, sum_native-words ((s + (a + 256 * b)) % 2 ^ 32) r h.1.1 (omega arith))

-- Swapping the bytes of each word multiplies the sum by 256, modulo 65535.
pub words_le-words_be : (xs : List ℕ) → words_le xs % 65535 ≡ 256 * words_be xs % 65535
words_le-words_be [] = refl
words_le-words_be (a ∷ []) = omega arith
words_le-words_be (a ∷ b ∷ r) = omega (arith, words_le-words_be r)

pub words_be_zero : (xs : List ℕ) → words_be xs ≡ 0 → words_le xs ≡ 0
words_be_zero [] h = refl
words_be_zero (a ∷ []) h = omega arith
words_be_zero (a ∷ b ∷ r) h = omega (arith, words_be_zero r)

pub words_le_zero : (xs : List ℕ) → words_le xs ≡ 0 → words_be xs ≡ 0
words_le_zero [] h = refl
words_le_zero (a ∷ []) h = omega arith
words_le_zero (a ∷ b ∷ r) h = omega (arith, words_le_zero r)

-- A word at an even offset counts as a word.
pub words_be-field :
    (pre : List ℕ) (a b : ℕ) (post : List ℕ)
    → length pre % 2 ≡ 0
    → words_be (pre ++ a ∷ b ∷ post) ≡ words_be pre + (a * 256 + b) + words_be post
words_be-field [] a b post e = omega arith
words_be-field (x ∷ []) a b post e = absurd (omega arith)
words_be-field (x ∷ y ∷ pre) a b post e = omega (arith, words_be-field pre a b post (omega arith))
