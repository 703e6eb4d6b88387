-- ===== src/Checksum.antt =====
-- The Internet checksum: `cksum` of simple-router-project/router/sr_utils.c, and `ip_checksum` of
-- simple-router-project/router/sr_router.c. A buffer of `len` bytes is a list of that length.
pub mod Fold
pub mod Sums
pub mod Valid
use mathlib.Core.Logic.{dite}
use mathlib.Core.WellFounded.{Acc}
use native.Mathlib.Decide.{dec_lt}
use computer_networking.Base.{
  ℕ, zero, suc, ◌+◌, ◌-◌, ◌*◌, ◌/◌, ◌%◌, ◌^◌, ◌<◌, ◌≡◌, refl, List, [], ◌∷◌, ◌++◌, arith, ◌==◌,
  if◌then◌else◌, u16, u32, htons, lt_wf,
}

-- `while (sum > 0xffff) sum = (sum >> 16) + (sum & 0xffff);` with no fuel: the sum falls.
fold_acc : (s : ℕ) → Acc ◌<◌ s → ℕ
fold_acc s (Acc.intro _ smaller) =
    dite (dec_lt 0xffff s)
      (λ h. fold_acc (s / 65536 + s % 65536) (smaller (s / 65536 + s % 65536) (omega arith)))
      (λ _. s)

unfoldable pub fold_carry : ℕ → ℕ
unfolding fold_acc lt_wf dec_lt
fold_carry s = fold_acc s (lt_wf.apply s)

-- The first loop of `cksum`: big-endian words, an odd last byte as a high byte.
unfoldable pub sum_be : ℕ → List ℕ → ℕ
sum_be sum [] = sum
sum_be sum (a ∷ []) = u32 (sum + a * 256)
sum_be sum (a ∷ b ∷ data') = sum_be (u32 (sum + (a * 256 + b))) data'

unfoldable pub cksum : List ℕ → ℕ
unfolding sum_be fold_carry
cksum data' =
    let sum = htons (u16 (2 ^ 32 - 1 - fold_carry (sum_be 0 data'))) in
    if sum == 0 then 0xffff else sum

-- The first loop of `ip_checksum`: words as the little-endian host loads them.
unfoldable pub sum_native : ℕ → List ℕ → ℕ
sum_native sum [] = sum
sum_native sum (a ∷ []) = u32 (sum + a)
sum_native sum (a ∷ b ∷ data') = sum_native (u32 (sum + (a + 256 * b))) data'

unfoldable pub ip_checksum : List ℕ → ℕ
unfolding sum_native fold_carry
ip_checksum buf = u16 (2 ^ 32 - 1 - fold_carry (sum_native 0 buf))

-- A 16-bit value as the host stores it.
abbrev pub store16 : ℕ → List ℕ
store16 v = v % 256 ∷ v / 256 % 256 ∷ []

abbrev sample : List ℕ
sample = 0x45 ∷ 0x00 ∷ 0x00 ∷ 0x54 ∷ 0x12 ∷ 0x34 ∷ []

cksum-sample : store16 (cksum sample) ≡ 0xa8 ∷ 0x77 ∷ []
unfolding cksum
cksum-sample = refl

ip_checksum-sample : store16 (ip_checksum sample) ≡ 0xa8 ∷ 0x77 ∷ []
unfolding ip_checksum
ip_checksum-sample = refl
