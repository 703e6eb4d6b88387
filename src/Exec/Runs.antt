-- ===== src/Exec/Runs.antt =====
-- Total correctness of actions: they return, and the state has the property again.
use computer_networking.Base.{◌≡◌, refl, Bool, true, false, Option, none, some, if◌then◌else◌}
use computer_networking.State.{Router}
use computer_networking.Exec.Keeps.{After}
use computer_networking.Exec.{M, pure, gets, lift, if_null, ◌>>=◌}

abbrev pub Within : {A : Type 0} → (A → Router → Type 0) → Option (A × Router) → Type 0
Within Q none = ⊥
Within Q (some (a, s)) = Q a s

-- From a state with `P` the action returns a value with `Q`, in a state with `P`.
pub record Runs {A : Type 0} (P : Router → Type 0) (Q : A → Type 0) (m : M A) : Type 0 where
  pub at : (s : Router) → P s → Within (λ a t. Q a × P t) (m s)

abbrev pub Any : {A : Type 0} → A → Type 0
Any a = Unit

module _ {A : Type 0} {P : Router → Type 0} where
  pub Runs-pure : (a : A) → Runs P Any (pure a)
  unfolding pure
  Runs-pure a = record { at = λ s h. (tt, h) }

  pub Runs-if :
      (b : Bool) (m n : M A)
      → (b ≡ true → Runs P Any m)
      → (b ≡ false → Runs P Any n)
      → Runs P Any (if b then m else n)
  Runs-if true m n km kn = km refl
  Runs-if false m n km kn = kn refl

module _ {A B : Type 0} {P : Router → Type 0} where
  pub Runs-if_null :
      (o : Option A) (m : M B) (f : A → M B)
      → (o ≡ none → Runs P Any m)
      → ((a : A) → o ≡ some a → Runs P Any (f a))
      → Runs P Any (if_null o m f)
  unfolding if_null
  Runs-if_null none m f km kf = km refl
  Runs-if_null (some a) m f km kf = kf a refl

  Within-bind :
      (Q : A → Type 0) (o : Option (A × Router)) (f : A → M B)
      → Within (λ a t. Q a × P t) o
      → ((a : A) → Q a → Runs P Any (f a))
      → Within {A = B} (λ b t. Any b × P t) (elim o [ none ↦ none | some (a, s') ↦ f a s' ])
  Within-bind Q none f h kf = absurd h
  Within-bind Q (some (a, s)) f h kf = (kf a h.0).at s h.1

  pub Runs-bind :
      (Q : A → Type 0) (m : M A) (f : A → M B)
      → Runs P Q m
      → ((a : A) → Q a → Runs P Any (f a))
      → Runs P Any (m >>= f)
  unfolding ◌>>=◌
  Runs-bind Q m f km kf = record { at = λ s h. Within-bind Q (m s) f (km.at s h) kf }

  -- What is read may be used with what the state's property says of it.
  pub Runs-gets :
      (g : Router → A) (f : A → M B)
      → ((s : Router) → P s → Runs P Any (f (g s)))
      → Runs P Any (gets g >>= f)
  unfolding gets ◌>>=◌
  Runs-gets g f kf = record { at = λ s h. (kf s h).at s h }

  pub Runs-lift :
      (o : Option A) (f : A → M B) (a : A)
      → o ≡ some a
      → Runs P Any (f a)
      → Runs P Any (lift o >>= f)
  unfolding lift ◌>>=◌
  Runs-lift o f a e kf = rw e kf

-- From a state with `P` the action returns, in a state with `R`.
pub record Leads {A : Type 0} (P R : Router → Type 0) (m : M A) : Type 0 where
  pub at : (s : Router) → P s → Within (λ _. R) (m s)

module _ {A : Type 0} where
  Within-and :
      (P R : Router → Type 0) (o : Option (A × Router))
      → Within (λ a t. Any a × P t) o
      → After (λ _. R) o
      → Within (λ _ t. P t × R t) o
  Within-and P R none w k = absurd w
  Within-and P R (some (a, s)) w k = (w.1, k)

  -- An action that runs, with what it does to a part of the state.
  pub Runs-Leads :
      (P Q R : Router → Type 0) (m : M A)
      → Runs P Any m
      → ((s : Router) → Q s → After (λ _. R) (m s))
      → Leads (λ s. P s × Q s) (λ s. P s × R s) m
  Runs-Leads P Q R m r k = record { at = λ s (p, q). Within-and P R (m s) (r.at s p) (k s q) }

  Within-then :
      {B : Type 0} (Q R : Router → Type 0) (o : Option (A × Router)) (f : A → M B)
      → Within (λ _. Q) o
      → ((a : A) → Leads Q R (f a))
      → Within {A = B} (λ _. R) (elim o [ none ↦ none | some (a, s') ↦ f a s' ])
  Within-then Q R none f h kf = absurd h
  Within-then Q R (some (a, s)) f h kf = (kf a).at s h

  pub Leads-bind :
      {B : Type 0} {P R : Router → Type 0} (Q : Router → Type 0) (m : M A) (f : A → M B)
      → Leads P Q m
      → ((a : A) → Leads Q R (f a))
      → Leads P R (m >>= f)
  unfolding ◌>>=◌
  Leads-bind {R = R} Q m f km kf = record { at = λ s h. Within-then Q R (m s) f (km.at s h) kf }

pub Within-some :
    (Q : Unit {0} → Router → Type 0) (o : Option (Unit {0} × Router))
    → Within Q o
    → (t : Router) × (o ≡ some (tt, t)) × Q tt t
Within-some Q none w = absurd w
Within-some Q (some (tt, t)) w = (t, refl, w)
