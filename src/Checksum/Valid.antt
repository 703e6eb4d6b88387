-- ===== src/Checksum/Valid.antt =====
-- The two checksum routines against one another, and what a receiver's check says of a field that
-- they fill in.
use computer_networking.Base.{
  ℕ, ◌+◌, ◌-◌, ◌*◌, ◌/◌, ◌%◌, ◌≤◌, ◌<◌, ◌≡◌, ◌↔◌, ◌⊎◌, List, ◌∷◌, ◌++◌, All-append, length,
  length-append, arith, htons,
}
use computer_networking.Checksum.{cksum, ip_checksum, sum_be, sum_native}
use computer_networking.Checksum.Fold.{IsFold, fold_carry-IsFold}
use computer_networking.Checksum.Sums.{
  IsBytes, words_be, words_le, sum_be-words, sum_native-words, words_le-words_be, words_be_zero,
  words_le_zero, words_be-field,
}

-- `ip_checksum` by the unbounded sum.
abbrev IsComplement : ℕ → ℕ → Type 0
IsComplement s c = (c ≤ 0xffff) × (IsFold s (0xffff - c))

pub ip_checksum_lem :
    (xs : List ℕ) → IsBytes xs → length xs < 65536 → IsComplement (words_le xs) (ip_checksum xs)
unfolding ip_checksum
ip_checksum_lem xs h l =
    omega (arith, fold_carry-IsFold (sum_native 0 xs), sum_native-words 0 xs h (omega arith))

-- The native value of `cksum` before the replacement of 0, by the unbounded sum.
cksum_lem :
    (xs : List ℕ)
    → IsBytes xs
    → length xs < 65536
    → (cksum xs ≤ 0xffff) × (0 < cksum xs) × ((htons (cksum xs) + words_be xs) % 65535 ≡ 0)
unfolding cksum
cksum_lem xs h l =
    ground (arith, fold_carry-IsFold (sum_be 0 xs), sum_be-words 0 xs h (omega arith))

-- On fewer than 65536 bytes the two routines give the same field, but for the two forms of zero:
-- where they differ `ip_checksum` gives 0 and `cksum` 0xffff.
pub ip_checksum-cksum :
    (xs : List ℕ)
    → IsBytes xs
    → length xs < 65536
    → (ip_checksum xs ≡ cksum xs) ⊎ ((ip_checksum xs ≡ 0) × (cksum xs ≡ 0xffff))
ip_checksum-cksum xs h l = omega (
  arith,
  ip_checksum_lem xs h l,
  cksum_lem xs h l,
  words_le-words_be xs,
  words_be_zero xs,
  words_le_zero xs,
)

module _ (pre post : List ℕ) (hp : IsBytes pre) (hq : IsBytes post) (even : length pre % 2 ≡ 0)
    (l : length pre + length post < 65534) where
  abbrev pub with_field : ℕ → List ℕ
  with_field v = pre ++ v % 256 ∷ v / 256 % 256 ∷ post

  with_field-IsBytes : (v : ℕ) → IsBytes (with_field v)
  with_field-IsBytes v =
      All-append (λ b. b < 256) pre (v % 256 ∷ v / 256 % 256 ∷ post) hp
        (omega arith, (omega arith, hq))

  length-with_field : (v : ℕ) → length (with_field v) ≡ length pre + length post + 2
  length-with_field v = omega (arith, length-append pre (v % 256 ∷ v / 256 % 256 ∷ post))

  words_be-with_field : (v : ℕ) → words_be (with_field v) ≡ words_be pre + words_be post + htons v
  words_be-with_field v = omega (arith, words_be-field pre (v % 256) (v / 256 % 256) post even)

  -- What the receiver's check computes, by the field and the sum of the rest.
  check_lem : (v : ℕ) → IsComplement (words_le (with_field v)) (ip_checksum (with_field v))
  check_lem v =
      ip_checksum_lem (with_field v) (with_field-IsBytes v) (omega (arith, length-with_field v))

  field_facts :
      (v : ℕ)
      → ((words_le (with_field v)) % 65535 ≡ 256 * (words_be (with_field v)) % 65535)
        × ((words_be (with_field v) ≡ 0) × (words_le (with_field v) ≡ 0)
            ⊎ (0 < words_be (with_field v)) × (0 < words_le (with_field v)))
  field_facts v = (
    words_le-words_be (with_field v),
    grind (arith, words_be_zero (with_field v), words_le_zero (with_field v)),
  )

  -- A field at an even place of fewer than 65536 bytes that `cksum` fills in passes the receiver's
  -- check: `ip_checksum` of the whole is 0.
  pub cksum_verifies : ip_checksum (with_field (cksum (with_field 0))) ≡ 0
  cksum_verifies = omega (
    arith,
    cksum_lem (with_field 0) (with_field-IsBytes 0) (omega (arith, length-with_field 0)),
    check_lem (cksum (with_field 0)),
    field_facts (cksum (with_field 0)),
    words_be-with_field 0,
    words_be-with_field (cksum (with_field 0)),
  )

  -- A field at an even place of fewer than 65536 bytes that holds `ip_checksum` as it is passes the
  -- check, unless all else is 0.
  pub ip_checksum_verifies :
      0 < words_be (with_field 0) → ip_checksum (with_field (ip_checksum (with_field 0))) ≡ 0
  ip_checksum_verifies h = omega (
    arith,
    check_lem 0,
    field_facts 0,
    check_lem (ip_checksum (with_field 0)),
    field_facts (ip_checksum (with_field 0)),
    words_be-with_field 0,
    words_be-with_field (ip_checksum (with_field 0)),
  )

  -- A field at an even place of fewer than 65536 bytes that holds `htons` of `ip_checksum` passes the
  -- check, unless all else is 0, if and only if the two bytes of the checksum are equal.
  pub htons-ip_checksum_verifies :
      0 < words_be (with_field 0)
      → (ip_checksum (with_field (htons (ip_checksum (with_field 0)))) ≡ 0)
        ↔ (ip_checksum (with_field 0) % 256 ≡ ip_checksum (with_field 0) / 256)
  htons-ip_checksum_verifies h =
      let v = htons (ip_checksum (with_field 0)) in
      (
        λ e. omega (
          arith,
          check_lem 0,
          field_facts 0,
          check_lem v,
          field_facts v,
          words_be-with_field 0,
          words_be-with_field v,
        ),
        λ e. omega (
          arith,
          check_lem 0,
          field_facts 0,
          check_lem v,
          field_facts v,
          words_be-with_field 0,
          words_be-with_field v,
        ),
      )
