-- ===== src/Ovn/Routes/Names.antt =====
-- The names of the rows that a transaction inserts.
use cluster_controller.Prelude.{
  ℕ, zero, suc, ◌+◌, ◌-◌, ◌*◌, ◌%◌, ◌≤◌, ◌<◌, String, ◌≡◌, inl, inr, refl, sym, ap, ◌∙◌, Bool, true,
  false, ◌&&◌, List, [], ◌∷◌, map, arith, nat_eq, any, length, format, to_decimal, codes,
  Bool-cases, In,
}
use cluster_controller.Crd.{Route}
use cluster_controller.Ovn.Types.{StaticRoute}
use cluster_controller.Ovn.Routes.{same_route, routes_to_add}

abbrev pub Distinct : List String → Type 0
Distinct [] = Unit
Distinct (x ∷ xs) = (¬ (In x xs)) × Distinct xs

abbrev row_name : ℕ → String
row_name i = format ("new_route_" ∷ to_decimal i ∷ [])

-- The number in a name, behind its ten characters of text.
abbrev skip : ℕ → List ℕ → List ℕ
skip zero cs = cs
skip (suc n) [] = []
skip (suc n) (c ∷ cs) = skip n cs

abbrev value_onto : ℕ → List ℕ → ℕ
value_onto value [] = value
value_onto value (c ∷ cs) = value_onto (value * 10 + (c - 48)) cs

abbrev row_number : String → ℕ
row_number name = value_onto 0 (skip 10 (codes name))

-- The names of the numbers below `n` have these numbers.
abbrev numbered : ℕ → Bool
numbered zero = true
numbered (suc n) = nat_eq (row_number (row_name n)) n && numbered n

all_numbered : numbered 255 ≡ true
unfolding to_decimal
all_numbered = refl

numbered_step : (r n : ℕ) (rest : Bool) → (nat_eq r n && rest) ≡ true → (r ≡ n) × (rest ≡ true)
numbered_step r n rest h = (ground arith, ground arith)

numbered_below : (n i : ℕ) → numbered n ≡ true → i < n → row_number (row_name i) ≡ i
numbered_below zero i h below = absurd (omega arith)
numbered_below (suc n) i h below =
    let (same, rest) = numbered_step (row_number (row_name n)) n (numbered n) h in
    elim (Bool-cases (nat_eq i n)) [
      | inl e ↦ let p : i ≡ n = ground arith in ap (λ k. row_number (row_name k)) p ∙ same ∙ sym p
      | inr e ↦ numbered_below n i rest (ground arith)
    ]

-- The counter does not wrap below its bound.
next_number : (i added : ℕ) → i + suc added ≤ 255 → (i + 1) % 256 ≡ suc i
next_number i added bound = omega arith

-- A name with a number from `i` on.
abbrev pub Numbered : ℕ → String → Type 0
Numbered i name = (j : ℕ) × (i ≤ j) × (j < 255) × (name ≡ row_name j)

earlier :
    (i : ℕ) (name : String) (names : List String) (added : ℕ)
    → suc i + added ≤ 255
    → (In name names → Numbered (suc i) name)
    → In name (row_name i ∷ names)
    → Numbered i name
earlier i name names added bound rest (inl e) = (i, omega arith, omega arith, e)
earlier i name names added bound rest (inr m) =
    let (j, above, below, e) = rest m in (j, omega arith, below, e)

-- What the loop has named from `i` on, when all of its numbers are below 255.
module _ (old_routes : List StaticRoute) where
  names : ℕ → List Route → List String
  names i new_routes = map (λ (e : String × Route). e.0) (routes_to_add old_routes i new_routes)

  -- The loop on a route that no row has.
  added_first :
      (r : Route) (rest : List Route) (i : ℕ)
      → any (λ row. same_route row r) old_routes ≡ false
      → i + length (routes_to_add old_routes i (r ∷ rest)) ≤ 255
      → (routes_to_add old_routes i (r ∷ rest)
          ≡ (row_name i, r) ∷ routes_to_add old_routes (suc i) rest)
        × (suc i + length (routes_to_add old_routes (suc i) rest) ≤ 255)
  unfolding routes_to_add
  added_first r rest i e bound =
      let bound' : i + suc (length (routes_to_add old_routes ((i + 1) % 256) rest)) ≤ 255 =
        rw e at bound in
      let next : (i + 1) % 256 ≡ suc i = next_number i _ bound' in
      let bound'' : i + suc (length (routes_to_add old_routes (suc i) rest)) ≤ 255 =
        rw next at bound' in
      (rw (e, next) refl, omega arith)

  names-Numbered :
      (new_routes : List Route) (i : ℕ) (name : String)
      → i + length (routes_to_add old_routes i new_routes) ≤ 255
      → In name (names i new_routes)
      → Numbered i name
  unfolding names routes_to_add
  names-Numbered [] i name bound m = absurd m.1
  names-Numbered (r ∷ rest) i name bound m =
      elim (Bool-cases (any (λ row. same_route row r) old_routes)) [
        | inl e ↦ names-Numbered rest i name (rw e at bound) (rw e at m)
        | inr e ↦
            let (same, bound') = added_first r rest i e bound in
            earlier i name _ _ bound' (names-Numbered rest (suc i) name bound') (rw same at m)
      ]

  names-Distinct :
      (new_routes : List Route) (i : ℕ)
      → i + length (routes_to_add old_routes i new_routes) ≤ 255
      → Distinct (names i new_routes)
  unfolding names routes_to_add
  names-Distinct [] i bound = tt
  names-Distinct (r ∷ rest) i bound =
      elim (Bool-cases (any (λ row. same_route row r) old_routes))
        as (λ x. Distinct (names i (r ∷ rest))) [
          | inl e ↦ rw e (names-Distinct rest i (rw e at bound))
          | inr e ↦
              let (same, bound') = added_first r rest i e bound in
              rw same (
                (λ m.
                    let (j, above, below, eq) = names-Numbered rest (suc i) (row_name i) bound' m in
                    let p : i ≡ j =
                      sym (numbered_below 255 i all_numbered (omega arith))
                      ∙ ap row_number eq
                      ∙ numbered_below 255 j all_numbered below in
                    omega arith),
                names-Distinct rest (suc i) bound',
              )
        ]

-- When at most 255 routes have to be inserted, the rows of the transaction have different names: its
-- counter, which is a byte, does not wrap.
pub route_names-Distinct :
    (old_routes : List StaticRoute) (new_routes : List Route)
    → length (routes_to_add old_routes 0 new_routes) ≤ 255
    → Distinct (map (λ (e : String × Route). e.0) (routes_to_add old_routes 0 new_routes))
unfolding names
route_names-Distinct old_routes new_routes bound =
    names-Distinct old_routes new_routes 0 (omega arith)
