-- ===== src/Vns/Progress.antt =====
-- Reading uses up the answers of the socket.
use computer_networking.Base.{
  ℕ, suc, ◌-◌, ◌≤◌, ◌<◌, ◌≡◌, ◌⊎◌, inl, inr, refl, Bool, true, false, Option, none, some, List, [],
  ◌∷◌, ◌++◌, arith, length, if◌then◌else◌, ltb, ntohl,
}
use computer_networking.Proto.{load32}
use computer_networking.Vns.{
  Received, bytes, interrupted, failed, Reading, whole, failure, waiting, read_loop, read_body,
  read_sized, read_message,
}

-- What is left of the answers is at most this many.
pub data Unused (n : ℕ) : Reading → Type 0 where
  left : (got : List ℕ) (unused : List Received) → length unused ≤ n → Unused n (whole got unused)
  no_failure : Unused n failure
  no_whole : (got : List ℕ) → Unused n (waiting got)

Unused-weaken : {m n : ℕ} {r : Reading} → m ≤ n → Unused m r → Unused n r
Unused-weaken h (left got unused u) = left got unused (omega (arith, u))
Unused-weaken h no_failure = no_failure
Unused-weaken h (no_whole got) = no_whole got

pub if-both {ℓ κ} :
    {A : Type ℓ} (P : A → Type κ) (b : Bool) {x y : A} → P x → P y → P (if b then x else y)
if-both P true p q = p
if-both P false p q = q

pub elim-both {ℓ κ μ} :
    {A : Type ℓ} {B : Type κ} (P : B → Type μ) (o : Option A) {x : B} {f : A → B}
    → P x
    → ((a : A) → P (f a))
    → P (elim o [ none ↦ x | some a ↦ f a ])
elim-both P none p q = p
elim-both P (some a) p q = q a

read_loop-Unused :
    (n : ℕ) (got : List ℕ) (s : List Received) → Unused (length s) (read_loop n got s)
unfolding read_loop
read_loop-Unused n got [] =
    if-both (Unused 0) (ltb (length got) n) (no_whole got) (left got [] (omega arith))
read_loop-Unused n got (bytes chunk ∷ s) =
    if-both (Unused (suc (length s))) (ltb (length got) n)
      (Unused-weaken (omega arith) (read_loop-Unused n (got ++ chunk) s)) (left got _ (omega arith))
read_loop-Unused n got (interrupted ∷ s) =
    if-both (Unused (suc (length s))) (ltb (length got) n)
      (Unused-weaken (omega arith) (read_loop-Unused n got s)) (left got _ (omega arith))
read_loop-Unused n got (failed ∷ s) =
    if-both (Unused (suc (length s))) (ltb (length got) n) no_failure (left got _ (omega arith))

-- A loop that needs bytes and has none takes an answer.
pub read_loop-first :
    (s : List Received)
    → (read_loop 4 [] s ≡ waiting []) ⊎ ((n : ℕ) × (n < length s) × Unused n (read_loop 4 [] s))
unfolding read_loop
read_loop-first [] = inl refl
read_loop-first (bytes chunk ∷ s) = inr (length s, omega arith, read_loop-Unused 4 chunk s)
read_loop-first (interrupted ∷ s) = inr (length s, omega arith, read_loop-Unused 4 [] s)
read_loop-first (failed ∷ s) = inr (length s, omega arith, no_failure)

pub data UnusedIf (n : ℕ) : Option Reading → Type 0 where
  undefined : UnusedIf n none
  defined : (r : Reading) → Unused n r → UnusedIf n (some r)

read_sized-Unused :
    (o : Option (ℕ × List ℕ)) (s : List Received) → UnusedIf (length s) (read_sized o s)
unfolding read_sized read_body
read_sized-Unused none s = undefined
read_sized-Unused (some (len, _)) s =
    if-both (UnusedIf (length s)) (ltb 10000 (ntohl len)) (defined failure no_failure) (
      if-both (UnusedIf (length s)) (ltb (ntohl len) 8) undefined
        (defined _ (read_loop-Unused (ntohl len - 4) [] s)))

UnusedIf-weaken : {m n : ℕ} {o : Option Reading} → m ≤ n → UnusedIf m o → UnusedIf n o
UnusedIf-weaken h undefined = undefined
UnusedIf-weaken h (defined r u) = defined r (Unused-weaken h u)

unfoldable pub sized : Reading → Option Reading
sized (whole size unused) = read_sized (load32 size) unused
sized failure = some failure
sized (waiting got) = some (waiting got)

pub sized-Unused : {n : ℕ} {r : Reading} → Unused n r → UnusedIf n (sized r)
unfolding sized
sized-Unused (left got unused h) = UnusedIf-weaken h (read_sized-Unused (load32 got) unused)
sized-Unused no_failure = defined failure no_failure
sized-Unused (no_whole got) = defined (waiting got) (no_whole got)

pub read_message-sized : (s : List Received) → read_message s ≡ sized (read_loop 4 [] s)
unfolding read_message sized
read_message-sized s =
    elim (read_loop 4 [] s)
      as (λ r.
        elim r [
          | whole size unused ↦ read_sized (load32 size) unused
          | failure ↦ some failure
          | waiting got ↦ some (waiting got)
        ]
        ≡ sized r) [ whole size unused ↦ refl | failure ↦ refl | waiting got ↦ refl ]
