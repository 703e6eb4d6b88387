-- ===== src/Checksum/Fold.antt =====
-- What the carry loop of the checksums computes.
use mathlib.Core.WellFounded.{Acc}
use computer_networking.Base.{ℕ, ◌+◌, ◌/◌, ◌%◌, ◌≤◌, ◌<◌, ◌≡◌, ◌⊎◌, arith, lt_wf}
use computer_networking.Checksum.{fold_acc, fold_carry}

-- The residue modulo 65535, with 65535 in place of 0 for a sum that is not 0.
abbrev pub IsFold : ℕ → ℕ → Type 0
IsFold s r = (r ≤ 0xffff) × (r % 65535 ≡ s % 65535) × ((s ≡ 0) × (r ≡ 0) ⊎ (0 < s) × (0 < r))

fold_acc-IsFold : (s : ℕ) (w : Acc ◌<◌ s) → IsFold s (fold_acc s w)
unfolding fold_acc
fold_acc-IsFold s (Acc.intro _ smaller) = grind (
  arith,
  λ (p : s / 65536 + s % 65536 < s).
      fold_acc-IsFold (s / 65536 + s % 65536) (smaller (s / 65536 + s % 65536) p),
)

pub fold_carry-IsFold : (s : ℕ) → IsFold s (fold_carry s)
unfolding fold_carry
fold_carry-IsFold s = fold_acc-IsFold s (lt_wf.apply s)
