-- ===== src/Route/Verify.antt =====
-- What `sr_verify_routing_table` promises to the routing code.
use computer_networking.Base.{
  ℕ, ◌≡◌, refl, ◌≢◌, ◌↔◌, inl, inr, some, List, [], ◌∷◌, ◌++◌, All, arith, Option-cases,
}
use computer_networking.State.{If, Rt}
use computer_networking.Interface.{get_interface}
use computer_networking.Route.{missing, verify_routing_table, lpm_lookup}
use computer_networking.Route.Lpm.{IsFirstLongest, lpm_lookup-IsLongestMatch}

abbrev pub HasInterface : List If → Rt → Type 0
HasInterface ifs r = (i : If) × (get_interface r.interface ifs ≡ some i)

missing→All :
    (ifs : List If) (table : List Rt) → missing ifs table ≡ 0 → All (HasInterface ifs) table
unfolding missing
missing→All ifs [] h = tt
missing→All ifs (r ∷ rs) h = elim (Option-cases (get_interface r.interface ifs)) [
  | inl e ↦ absurd (ground (arith, e))
  | inr (i, e) ↦ ((i, e), missing→All ifs rs (ground (arith, e)))
]

All→missing :
    (ifs : List If) (table : List Rt) → All (HasInterface ifs) table → missing ifs table ≡ 0
unfolding missing
All→missing ifs [] h = refl
All→missing ifs (r ∷ rs) ((i, e), h) = rw (e, missing) (All→missing ifs rs h)

-- The check returns 0 if and only if there are routes, and the interface of every route exists.
pub verify_routing_table_lem :
    (ifs : List If) (table : List Rt)
    → (verify_routing_table ifs table ≡ 0) ↔ (table ≢ []) × All (HasInterface ifs) table
unfolding verify_routing_table get_interface
verify_routing_table_lem [] [] = (λ h. absurd (omega arith), λ h. absurd (h.0 refl))
verify_routing_table_lem [] (r ∷ rs) = (λ h. absurd (omega arith), λ h. absurd (cc))
verify_routing_table_lem (i ∷ is) [] = (λ h. absurd (omega arith), λ h. absurd (h.0 refl))
verify_routing_table_lem (i ∷ is) (r ∷ rs) =
    (λ h. (λ e. cc, missing→All (i ∷ is) (r ∷ rs) h), λ h. All→missing (i ∷ is) (r ∷ rs) h.1)

All-middle :
    {A : Type 0} (P : A → Type 0) (front : List A) (x : A) (back : List A)
    → All P (front ++ x ∷ back)
    → P x
All-middle P [] x back h = h.0
All-middle P (y ∷ front) x back h = All-middle P front x back h.1

-- With a table that passes the check, the interface of the route that a lookup selects exists.
pub verified_route :
    (ifs : List If) (table : List Rt) (dst : ℕ) (b : Rt)
    → verify_routing_table ifs table ≡ 0
    → lpm_lookup dst table ≡ some b
    → HasInterface ifs b
verified_route ifs table dst b v e =
    let f : IsFirstLongest dst 0 table b = rw e at (lpm_lookup-IsLongestMatch dst table) in
    let (_, all) = (verify_routing_table_lem ifs table).0 v in
    All-middle (HasInterface ifs) f.before b f.behind (rw f.in_table at all)
