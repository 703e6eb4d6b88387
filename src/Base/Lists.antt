-- ===== src/Base/Lists.antt =====
-- Arrays and linked lists as lists, measured and indexed by native numbers.
use Prim.Native.Nat.{ℕ, zero, suc, ◌+◌, ◌≤◌}
use mathlib.Core.Path.{◌≡◌, refl, ap}
use mathlib.Core.List.{List, [], ◌∷◌, ◌++◌}
use mathlib.Core.Bool.{Bool, true, false, ◌&&◌}
use mathlib.Core.Option.{Option, none, some}
use native.Mathlib.Omega.{arith}
use computer_networking.Base.Tests.{◌==◌}

-- Every item satisfies `P`.
abbrev pub All {ℓ κ} : {A : Type ℓ} → (A → Type κ) → List A → Type κ
All Q [] = Unit
All Q (item ∷ rest) = Q item × All Q rest

pub All-append {ℓ κ} :
    {A : Type ℓ} (Q : A → Type κ) (front back : List A)
    → All Q front
    → All Q back
    → All Q (front ++ back)
All-append Q [] back none_left whole = whole
All-append Q (item ∷ front) back (one, rest) whole = (one, All-append Q front back rest whole)

module _ {ℓ} {A : Type ℓ} where
  abbrev pub length : List A → ℕ
  length [] = 0
  length (x ∷ xs) = suc (length xs)

  abbrev pub replicate : ℕ → A → List A
  replicate zero a = []
  replicate (suc n) a = a ∷ replicate n a

  abbrev pub take : ℕ → List A → List A
  take zero xs = []
  take (suc n) [] = []
  take (suc n) (x ∷ xs) = x ∷ take n xs

  pub take-all : (n : ℕ) (xs : List A) → length xs ≤ n → take n xs ≡ xs
  take-all zero [] h = refl
  take-all (suc n) [] h = refl
  take-all zero (x ∷ xs) h = absurd (omega arith)
  take-all (suc n) (x ∷ xs) h = ap (◌∷◌ x) (take-all n xs (omega arith))

  abbrev pub drop : ℕ → List A → List A
  drop zero xs = xs
  drop (suc n) [] = []
  drop (suc n) (x ∷ xs) = drop n xs

  pub length-append : (xs ys : List A) → length (xs ++ ys) ≡ length xs + length ys
  length-append [] ys = omega arith
  length-append (x ∷ xs) ys = omega (arith, length-append xs ys)

  -- The first `n` items and the rest, if there are as many.
  unfoldable pub split_at? : ℕ → List A → Option (List A × List A)
  split_at? zero xs = some ([], xs)
  split_at? (suc n) [] = none
  split_at? (suc n) (x ∷ xs) = elim (split_at? n xs) [
    | none ↦ none
    | some (ys, zs) ↦ some (x ∷ ys, zs)
  ]

  pub split_at?-append :
      (n : ℕ) (xs ys : List A) → length xs ≡ n → split_at? n (xs ++ ys) ≡ some (xs, ys)
  unfolding split_at?
  split_at?-append zero [] ys e = refl
  split_at?-append zero (x ∷ xs) ys e = absurd (omega arith)
  split_at?-append (suc n) [] ys e = absurd (omega arith)
  split_at?-append (suc n) (x ∷ xs) ys e = ground (arith, split_at?-append n xs ys (omega arith))

  -- It succeeds when there are enough items, and the rest has the others.
  pub split_at?_total :
      (n : ℕ) (xs : List A)
      → n ≤ length xs
      → (ys : List A) × (zs : List A) × (split_at? n xs ≡ some (ys, zs))
        × (length ys ≡ n)
        × (length zs + n ≡ length xs)
  unfolding split_at?
  split_at?_total zero xs h = ([], xs, refl, refl, omega arith)
  split_at?_total (suc n) [] h = absurd (omega arith)
  split_at?_total (suc n) (x ∷ xs) h =
      let (ys, zs, e, l, c) = split_at?_total n xs (omega arith) in
      (x ∷ ys, zs, ground (arith, e), omega (arith, l), omega (arith, c))

-- `memcmp(a, b, n) == 0` on arrays of the same length, and the comparison of C strings.
unfoldable pub bytes_eq : List ℕ → List ℕ → Bool
bytes_eq [] [] = true
bytes_eq [] (b ∷ bs) = false
bytes_eq (a ∷ as') [] = false
bytes_eq (a ∷ as') (b ∷ bs) = a == b && bytes_eq as' bs

pub bytes_eq→eq : (xs ys : List ℕ) → bytes_eq xs ys ≡ true → xs ≡ ys
unfolding bytes_eq
bytes_eq→eq [] [] h = refl
bytes_eq→eq [] (b ∷ bs) h = ground arith
bytes_eq→eq (a ∷ as') [] h = ground arith
bytes_eq→eq (a ∷ as') (b ∷ bs) h = ground (arith, bytes_eq→eq as' bs)

pub bytes_eq_refl : (xs : List ℕ) → bytes_eq xs xs ≡ true
unfolding bytes_eq
bytes_eq_refl [] = refl
bytes_eq_refl (a ∷ as') = ground (arith, bytes_eq_refl as')
