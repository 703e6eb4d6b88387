-- ===== src/Exec/Steps.antt =====
-- The first statement of an action, carried out.
use computer_networking.Base.{◌≡◌, refl, ap, Bool, true, false, Option, none, some, if◌then◌else◌}
use computer_networking.State.{Router}
use computer_networking.Exec.{M, gets, lift, if_null, ◌>>=◌}

module _ {A B : Type 0} where
  pub step-action :
      (m : M A) (f : A → M B) (s t : Router) (a : A) → m s ≡ some (a, t) → (m >>= f) s ≡ f a t
  unfolding ◌>>=◌
  step-action m f s t a e = ap (λ o. elim o [ none ↦ none | some (b, u) ↦ f b u ]) e

  pub step-lift :
      (o : Option A) (f : A → M B) (s : Router) (a : A) → o ≡ some a → (lift o >>= f) s ≡ f a s
  unfolding ◌>>=◌ lift
  step-lift o f s a e = rw e refl

  -- Reading a pointer that is not null.
  pub step-found :
      (read : Router → Option A) (m : M B) (f : A → M B) (s : Router) (a : A)
      → read s ≡ some a
      → (gets read >>= λ o. if_null o m f) s ≡ f a s
  unfolding ◌>>=◌ gets if_null
  step-found read m f s a e = rw e refl

  pub step-null :
      (read : Router → Option A) (m : M B) (f : A → M B) (s : Router)
      → read s ≡ none
      → (gets read >>= λ o. if_null o m f) s ≡ m s
  unfolding ◌>>=◌ gets if_null
  step-null read m f s e = rw e refl

module _ {A : Type 0} where
  pub step-then : (b : Bool) (m n : M A) (s : Router) → b ≡ true → (if b then m else n) s ≡ m s
  step-then true m n s e = refl
  step-then false m n s e = absurd (cc)

  pub step-else : (b : Bool) (m n : M A) (s : Router) → b ≡ false → (if b then m else n) s ≡ n s
  step-else true m n s e = absurd (cc)
  step-else false m n s e = refl
