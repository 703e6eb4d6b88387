-- ===== src/Text/Dotted.antt =====
-- An address that was printed is read back.
use mathlib.Core.List.{append-nil}
use computer_networking.Base.{
  ℕ, zero, suc, ◌+◌, ◌*◌, ◌/◌, ◌%◌, ◌^◌, ◌<◌, ◌≡◌, refl, ap, true, some, List, [], ◌∷◌, ◌++◌, arith,
  lt→ltb,
}
use computer_networking.Text.{
  decimal, inet_ntoa, aton_part, aton_parts, inet_aton, strtoul, starts_with_digit,
}
use computer_networking.Text.Octets.{strtoul-decimal, starts_with_digit-decimal}

aton_parts-dot :
    (k n w : ℕ) (rest : List ℕ)
    → n < 256
    → aton_parts k rest ≡ some w
    → aton_parts (suc k) (decimal n ++ b'.' ∷ rest) ≡ some (n * 256 ^ (suc k) + w)
unfolding aton_parts aton_part
aton_parts-dot k n w rest h e =
    rw
      (
        starts_with_digit-decimal n (b'.' ∷ rest) h,
        strtoul-decimal n (b'.' ∷ rest) h (omega arith),
        lt→ltb n 256 h,
        e,
      )
      refl

aton_parts-last : (n : ℕ) → n < 256 → aton_parts zero (decimal n) ≡ some n
unfolding aton_parts aton_part
aton_parts-last n h =
    let digits : starts_with_digit (decimal n) ≡ true =
      rw (append-nil (decimal n)) at (starts_with_digit-decimal n [] h) in
    let value : strtoul (decimal n) ≡ (n, []) =
      rw (append-nil (decimal n)) at (strtoul-decimal n [] h tt) in
    rw (digits, value, lt→ltb n 256 h) refl

-- The text that `inet_ntoa` gives for an address of 32 bits is read back by `inet_aton`.
pub inet_aton-inet_ntoa : (v : ℕ) → v < 2 ^ 32 → inet_aton (inet_ntoa v) ≡ some v
unfolding inet_aton inet_ntoa
inet_aton-inet_ntoa v h =
    let b = v / 2 ^ 8 % 256 in
    let c = v / 2 ^ 16 % 256 in
    let d = v / 2 ^ 24 % 256 in
    let third = aton_parts-dot 0 c d (decimal d) (omega arith) (aton_parts-last d (omega arith)) in
    let tail = decimal c ++ b'.' ∷ decimal d in
    let second = aton_parts-dot 1 b (c * 256 ^ 1 + d) tail (omega arith) third in
    let first =
      aton_parts-dot 2 (v % 256) (b * 256 ^ 2 + (c * 256 ^ 1 + d)) (decimal b ++ b'.' ∷ tail)
        (omega arith) second in
    rw (first, inet_aton) (ap some (omega arith))
