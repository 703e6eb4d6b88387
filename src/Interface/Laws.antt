-- ===== src/Interface/Laws.antt =====
-- Looking interfaces up by name, and setting up the list.
use computer_networking.Base.{
  ℕ, zero, suc, ◌≡◌, refl, ap, inl, inr, true, some, List, [], ◌∷◌, All, arith, take, bytes_eq_refl,
  Bool-cases,
}
use mathlib.Core.Path.{subst}
use computer_networking.Proto.{iface_namelen}
use computer_networking.State.{If, strncpy, strncmp_eq, names_eq}
use computer_networking.Interface.{get_interface}

take-take : (n : ℕ) (xs : List ℕ) → take n (take n xs) ≡ take n xs
take-take zero xs = refl
take-take (suc n) [] = refl
take-take (suc n) (x ∷ xs) = ap (◌∷◌ x) (take-take n xs)

-- A name and its copy by `strncpy` are equal for `strncmp`.
pub names_eq_copy : (name : List ℕ) → names_eq name (strncpy iface_namelen name) ≡ true
unfolding strncmp_eq
names_eq_copy name = rw (take-take iface_namelen name) (bytes_eq_refl (take iface_namelen name))

-- An interface that was found is found by the copy of its own name, at the same or an earlier
-- place of the list.
pub get_interface_copy :
    (name : List ℕ) (ifs : List If) (i : If)
    → get_interface name ifs ≡ some i
    → (j : If) × (get_interface (strncpy iface_namelen i.name) ifs ≡ some j)
unfolding get_interface
get_interface_copy name [] i e = absurd (cc)
get_interface_copy name (x ∷ ifs) i e = elim (Bool-cases (names_eq x.name name)) [
  | inl hit ↦
      let same : x ≡ i = ground (arith, hit) in (x, ground (arith, names_eq_copy i.name, same))
  | inr miss ↦ elim (Bool-cases (names_eq x.name (strncpy iface_namelen i.name))) [
    | inl here ↦ (x, ground (arith, here))
    | inr on ↦
        let (j, f) = get_interface_copy name ifs i (ground (arith, miss)) in
        (j, rw (on, get_interface) f)
  ]
]

-- What holds of every interface holds of one that was found.
pub get_interface-All :
    (P : If → Type 0) (name : List ℕ) (ifs : List If) (i : If)
    → get_interface name ifs ≡ some i
    → All P ifs
    → P i
unfolding get_interface
get_interface-All P name [] i e h = absurd (cc)
get_interface-All P name (x ∷ ifs) i e h = elim (Bool-cases (names_eq x.name name)) [
  | inl hit ↦ let same : x ≡ i = ground (arith, hit) in subst P same h.0
  | inr miss ↦ get_interface-All P name ifs i (ground (arith, miss)) h.1
]
