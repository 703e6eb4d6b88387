-- ===== src/Exec.antt =====
-- The router's functions as actions on its state. `none` is undefined behaviour: an access outside
-- a buffer, a null pointer that is read, or an `assert` that fails.
pub mod Keeps
pub mod Runs
pub mod Steps
use computer_networking.Base.{Option, none, some}
use computer_networking.State.{Router}

abbrev pub M : Type 0 → Type 0
M A = Router → Option (A × Router)

unfoldable pub pure : {A : Type 0} → A → M A
pure a s = some (a, s)

unfoldable pub fault : {A : Type 0} → M A
fault s = none

unfoldable pub gets : {A : Type 0} → (Router → A) → M A
gets f s = some (f s, s)

unfoldable pub modify : (Router → Router) → M (Unit {0})
modify f s = some (tt, f s)

unfoldable pub lift : {A : Type 0} → Option A → M A
lift none s = none
lift (some a) s = some (a, s)

-- `if (p == NULL) m else f(*p)`
unfoldable pub if_null : {A B : Type 0} → Option A → M B → (A → M B) → M B
if_null none m f = m
if_null (some a) m f = f a

-- Statements one after the other; a fault ends the call.
unfoldable pub ◌>>=◌ : {A : Type 0} {B : Type 0} → M A → (A → M B) → M B
◌>>=◌ action rest s = elim (action s) [ none ↦ none | some (a, after) ↦ rest a after ]

abbrev pub ◌>>◌ : {A : Type 0} {B : Type 0} → M A → M B → M B
action >> rest = action >>= λ _. rest

infixl 5 ◌>>=◌ ◌>>◌
