-- ===== src/Exec/Keeps.antt =====
-- Properties of the state that actions keep.
use computer_networking.Base.{◌≡◌, refl, Bool, true, false, Option, none, some, if◌then◌else◌}
use computer_networking.State.{Router}
use computer_networking.Exec.{M, pure, fault, gets, modify, lift, if_null, ◌>>=◌}

abbrev pub After {ℓ} : {A : Type 0} → (A → Router → Type ℓ) → Option (A × Router) → Type ℓ
After Q none = Unit
After Q (some (a, s)) = Q a s

-- Where `m` returns from a state with `P`, the state has `P` again.
pub record Keeps {ℓ} {A : Type 0} (P : Router → Type ℓ) (m : M A) : Type ℓ where
  pub at : (s : Router) → P s → After (λ _. P) (m s)

module _ {ℓ} {A : Type 0} {P : Router → Type ℓ} where
  pub Keeps-lift : (o : Option A) → Keeps P (lift o)
  unfolding lift
  Keeps-lift none = record { at = λ router safe. tt }
  Keeps-lift (some a) = record { at = λ router safe. safe }

  pub Keeps-fault : Keeps P (fault {A = A})
  unfolding fault
  Keeps-fault = record { at = λ router safe. tt }

  pub Keeps-gets : (read : Router → A) → Keeps P (gets read)
  unfolding gets
  Keeps-gets read = record { at = λ router safe. safe }

  pub Keeps-pure : (value : A) → Keeps P (pure value)
  unfolding pure
  Keeps-pure value = record { at = λ router safe. safe }

  pub Keeps-if :
      (test : Bool) (taken other : M A)
      → (test ≡ true → Keeps P taken)
      → (test ≡ false → Keeps P other)
      → Keeps P (if test then taken else other)
  Keeps-if true taken other on_true on_false = on_true refl
  Keeps-if false taken other on_true on_false = on_false refl

pub Keeps-modify {ℓ} :
    {P : Router → Type ℓ} (f : Router → Router)
    → ((s : Router) → P s → P (f s))
    → Keeps P (modify f)
unfolding modify
Keeps-modify f h = record { at = h }

pub Keeps-if_null {ℓ} :
    {A B : Type 0} {P : Router → Type ℓ} (o : Option A) (m : M B) (f : A → M B)
    → Keeps P m
    → ((a : A) → Keeps P (f a))
    → Keeps P (if_null o m f)
unfolding if_null
Keeps-if_null none m f km kf = km
Keeps-if_null (some a) m f km kf = kf a

module _ {ℓ} {A B : Type 0} {P : Router → Type ℓ} where
  After-bind :
      (o : Option (A × Router)) (f : A → M B)
      → After (λ _. P) o
      → ((a : A) → Keeps P (f a))
      → After {A = B} (λ _. P) (elim o [ none ↦ none | some (a, s') ↦ f a s' ])
  After-bind none f h kf = tt
  After-bind (some (a, s)) f h kf = (kf a).at s h

  pub Keeps-bind :
      (first : M A) (then' : A → M B)
      → Keeps P first
      → ((a : A) → Keeps P (then' a))
      → Keeps P (first >>= then')
  unfolding ◌>>=◌
  Keeps-bind first then' one rest = record {
    at = λ router safe. After-bind (first router) then' (one.at router safe) rest;
  }

pub ruleset keeps_rules =
    (Keeps-pure, Keeps-fault, Keeps-gets, Keeps-lift, Keeps-if, Keeps-if_null, Keeps-bind)
