-- ===== src/Route/Lpm.antt =====
-- What the routing loop selects.
use computer_networking.Base.{
  ℕ, ◌≤◌, ◌<◌, ◌≡◌, refl, ap, ◌⊎◌, inl, inr, true, ◌&&◌, Option, none, some, List, [], ◌∷◌, ◌++◌,
  All, arith, ltb, Bool-cases, ntohl,
}
use computer_networking.State.{Rt}
use computer_networking.Route.{matches, lpm_loop, lpm_lookup}

-- No entry of the list both matches and has a mask above the bound; the second is the strict form.
abbrev pub MasksLe : ℕ → ℕ → List Rt → Type 0
MasksLe dst n = All λ r. matches dst r ≡ true → ntohl r.mask ≤ n

abbrev pub MasksLt : ℕ → ℕ → List Rt → Type 0
MasksLt dst n = All λ r. matches dst r ≡ true → ntohl r.mask < n

-- `b` is the first of the matching entries with the greatest mask, which is above `n`.
pub record IsFirstLongest (dst n : ℕ) (table : List Rt) (b : Rt) : Type 0 where
  pub before : List Rt
  pub behind : List Rt
  pub in_table : table ≡ before ++ b ∷ behind
  pub fits : matches dst b ≡ true
  pub above : n < ntohl b.mask
  pub shorter : MasksLt dst (ntohl b.mask) before
  pub no_longer : MasksLe dst (ntohl b.mask) behind

-- What the loop gives: the entry it had, or one of the list.
abbrev Selects : ℕ → Option Rt → ℕ → List Rt → Option Rt → Type 0
Selects dst best n table r =
    ((r ≡ best) × MasksLe dst n table) ⊎ ((b : Rt) × (r ≡ some b) × IsFirstLongest dst n table b)

take_head :
    (dst : ℕ) (best : Option Rt) (n : ℕ) (rt : Rt) (rts : List Rt) (r : Option Rt)
    → matches dst rt ≡ true
    → n < ntohl rt.mask
    → Selects dst (some rt) (ntohl rt.mask) rts r
    → Selects dst best n (rt ∷ rts) r
take_head dst best n rt rts r m l (inl (e, le)) = inr (
  rt,
  e,
  record {
    before = [];
    behind = rts;
    in_table = refl;
    fits = m;
    above = l;
    shorter = tt;
    no_longer = le;
  },
)
take_head dst best n rt rts r m l (inr (b, e, f)) = inr (
  b,
  e,
  record {
    before = rt ∷ f.before;
    behind = f.behind;
    in_table = ap (◌∷◌ rt) f.in_table;
    fits = f.fits;
    above = omega (arith, f.above);
    shorter = ((λ _. f.above), f.shorter);
    no_longer = f.no_longer;
  },
)

skip_head :
    (dst : ℕ) (best : Option Rt) (n : ℕ) (rt : Rt) (rts : List Rt) (r : Option Rt)
    → (matches dst rt ≡ true → ntohl rt.mask ≤ n)
    → Selects dst best n rts r
    → Selects dst best n (rt ∷ rts) r
skip_head dst best n rt rts r h (inl (e, le)) = inl (e, (h, le))
skip_head dst best n rt rts r h (inr (b, e, f)) = inr (
  b,
  e,
  record {
    before = rt ∷ f.before;
    behind = f.behind;
    in_table = ap (◌∷◌ rt) f.in_table;
    fits = f.fits;
    above = f.above;
    shorter = ((λ m. omega (arith, h m, f.above)), f.shorter);
    no_longer = f.no_longer;
  },
)

lpm_loop-Selects :
    (dst : ℕ) (best : Option Rt) (mask : ℕ) (table : List Rt)
    → Selects dst best (ntohl mask) table (lpm_loop dst best mask table)
unfolding lpm_loop
lpm_loop-Selects dst best mask [] = inl (refl, tt)
lpm_loop-Selects dst best mask (rt ∷ rts) =
    elim (Bool-cases (matches dst rt && ltb (ntohl mask) (ntohl rt.mask))) [
      | inl e ↦ rw e (
          take_head dst best (ntohl mask) rt rts (lpm_loop dst (some rt) rt.mask rts) (ground arith)
            (ground arith) (lpm_loop-Selects dst (some rt) rt.mask rts))
      | inr e ↦ rw e (
          skip_head dst best (ntohl mask) rt rts (lpm_loop dst best mask rts) (λ m. ground arith)
            (lpm_loop-Selects dst best mask rts))
    ]

-- The specification of a lookup: `none` where every matching entry has the mask 0.
abbrev pub IsLongestMatch : ℕ → List Rt → Option Rt → Type 0
IsLongestMatch dst table none = MasksLe dst 0 table
IsLongestMatch dst table (some b) = IsFirstLongest dst 0 table b

Selects-IsLongestMatch :
    (dst : ℕ) (table : List Rt) (r : Option Rt)
    → Selects dst none 0 table r
    → IsLongestMatch dst table r
Selects-IsLongestMatch dst table none (inl (e, le)) = le
Selects-IsLongestMatch dst table none (inr (b, e, f)) = absurd (cc)
Selects-IsLongestMatch dst table (some c) (inl (e, le)) = absurd (cc)
Selects-IsLongestMatch dst table (some c) (inr (b, e, f)) = let same : b ≡ c = cc in rw same at f

-- `lpm_lookup` returns the first of the matching entries with the greatest mask, and nothing only
-- if each matching entry has the mask 0.
pub lpm_lookup-IsLongestMatch :
    (dst : ℕ) (table : List Rt) → IsLongestMatch dst table (lpm_lookup dst table)
unfolding lpm_lookup
lpm_lookup-IsLongestMatch dst table =
    Selects-IsLongestMatch dst table (lpm_loop dst none 0 table) (lpm_loop-Selects dst none 0 table)
