-- ===== src/Ovn/Routes/Sync.antt =====
-- The routes that a router has after its routes have been set.
use mathlib.Core.Path.{subst}
use cluster_controller.Prelude.{
  ℕ, String, ◌≡◌, ◌⊎◌, inl, inr, refl, sym, ap, Bool, true, false, List, [], ◌∷◌, map, arith,
  if◌then◌else◌, any, Bool-cases, eq_iff, In, ◌↔◌, any-true, any-In,
}
use cluster_controller.Crd.{Route}
use cluster_controller.Ovn.Types.{StaticRoute}
use cluster_controller.Ovn.Routes.{same_route, routes_to_add, routes_to_remove}

-- A route of the specification is among the rows.
abbrev pub HasRow : Route → List StaticRoute → Type 0
HasRow r rows =
    (row : StaticRoute) × In row rows × (row.ip_prefix ≡ r.cidr) × (row.nexthop ≡ r.nexthop)

-- A row is wanted by the specification.
abbrev pub IsWanted : StaticRoute → List Route → Type 0
IsWanted row new_routes =
    (r : Route) × In r new_routes × (row.ip_prefix ≡ r.cidr) × (row.nexthop ≡ r.nexthop)

same_route-eq :
    (row : StaticRoute) (r : Route)
    → same_route row r ≡ true
    → (row.ip_prefix ≡ r.cidr) × (row.nexthop ≡ r.nexthop)
same_route-eq row r h = ground (arith, eq_iff row.ip_prefix r.cidr, eq_iff row.nexthop r.nexthop)

eq-same_route :
    (row : StaticRoute) (r : Route)
    → row.ip_prefix ≡ r.cidr
    → row.nexthop ≡ r.nexthop
    → same_route row r ≡ true
eq-same_route row r p q = ground (arith, eq_iff row.ip_prefix r.cidr, eq_iff row.nexthop r.nexthop)

add_step :
    (known : Bool) (id : String) (r x : Route) (later : List (String × Route))
    → In x (map (λ (e : String × Route). e.1) (if known then later else (id, r) ∷ later))
    → ((known ≡ false) × (x ≡ r)) ⊎ In x (map (λ (e : String × Route). e.1) later)
add_step true id r x later m = inr m
add_step false id r x later (inl e) = inl (refl, e)
add_step false id r x later (inr m) = inr m

-- The routes that are inserted are those of the specification that no row has.
module _ (old_routes : List StaticRoute) where
  added : ℕ → List Route → List Route
  added i new_routes = map (λ (e : String × Route). e.1) (routes_to_add old_routes i new_routes)

  added_sound :
      (new_routes : List Route) (i : ℕ) (x : Route)
      → In x (added i new_routes)
      → In x new_routes × (any (λ row. same_route row x) old_routes ≡ false)
  unfolding added routes_to_add
  added_sound [] i x m = absurd m.1
  added_sound (r ∷ rest) i x m =
      elim (add_step (any (λ row. same_route row r) old_routes) _ r x _ m) [
        | inl (e, same) ↦ (inl same, rw same e)
        | inr later ↦ let (k, e) = added_sound rest _ x later in (inr k, e)
      ]

  keep_later :
      (known : Bool) (id : String) (r x : Route) (later : List (String × Route))
      → In x (map (λ (e : String × Route). e.1) later)
      → In x (map (λ (e : String × Route). e.1) (if known then later else (id, r) ∷ later))
  keep_later true id r x later m = m
  keep_later false id r x later m = inr m

  added_complete :
      (new_routes : List Route) (i : ℕ) (x : Route)
      → In x new_routes
      → any (λ row. same_route row x) old_routes ≡ false
      → In x (added i new_routes)
  unfolding added routes_to_add
  added_complete [] i x m e = absurd m.1
  added_complete (r ∷ rest) i x (inl same) e =
      rw (subst (λ y. any (λ row. same_route row y) old_routes ≡ false) same e) (inl same)
  added_complete (r ∷ rest) i x (inr m) e =
      keep_later (any (λ row. same_route row r) old_routes) _ r x _ (added_complete rest _ x m e)

removed_step :
    (wanted : Bool) (row : StaticRoute) (u : String) (later : List String)
    → In u (if wanted then later else row.uuid ∷ later)
    → ((wanted ≡ false) × (u ≡ row.uuid)) ⊎ In u later
removed_step true row u later m = inr m
removed_step false row u later (inl e) = inl (refl, e)
removed_step false row u later (inr m) = inr m

removed_sound :
    (old_routes : List StaticRoute) (new_routes : List Route) (u : String)
    → In u (routes_to_remove old_routes new_routes)
    → (row : StaticRoute) × In row old_routes
      × (u ≡ row.uuid)
      × (any (same_route row) new_routes ≡ false)
unfolding routes_to_remove
removed_sound [] new_routes u m = absurd m.1
removed_sound (row ∷ rest) new_routes u m =
    elim (removed_step (any (same_route row) new_routes) row u _ m) [
      | inl (e, same) ↦ (row, inl refl, same, e)
      | inr later ↦ let (r, k, s, e) = removed_sound rest new_routes u later in (r, inr k, s, e)
    ]

removed_later :
    (wanted : Bool) (row : StaticRoute) (u : String) (later : List String)
    → In u later
    → In u (if wanted then later else row.uuid ∷ later)
removed_later true row u later m = m
removed_later false row u later m = inr m

removed_complete :
    (old_routes : List StaticRoute) (new_routes : List Route) (row : StaticRoute)
    → In row old_routes
    → any (same_route row) new_routes ≡ false
    → In row.uuid (routes_to_remove old_routes new_routes)
unfolding routes_to_remove
removed_complete [] new_routes row m e = absurd m.1
removed_complete (r ∷ rest) new_routes row (inl same) e =
    rw (subst (λ (x : StaticRoute). any (same_route x) new_routes ≡ false) same e)
      (inl (ap (λ (x : StaticRoute). x.uuid) same))
removed_complete (r ∷ rest) new_routes row (inr m) e =
    removed_later (any (same_route r) new_routes) r row.uuid _
      (removed_complete rest new_routes row m e)

-- Rows have distinct UUIDs.
abbrev pub DistinctUuids : List StaticRoute → Type 0
DistinctUuids rows = (a b : StaticRoute) → In a rows → In b rows → a.uuid ≡ b.uuid → a ≡ b

-- A row of the router that is not among those removed.
abbrev pub Kept : List StaticRoute → List String → StaticRoute → Type 0
Kept old_routes removed row = In row old_routes × ¬ (In row.uuid removed)

-- A route that is inserted, under some name.
abbrev pub Inserted : List (String × Route) → Route → Type 0
Inserted inserted r = In r (map (λ (e : String × Route). e.1) inserted)

module _ (old_routes : List StaticRoute) (new_routes : List Route) where
  Kept-IsWanted :
      DistinctUuids old_routes
      → (row : StaticRoute) → In row old_routes
      → (Kept old_routes (routes_to_remove old_routes new_routes) row ↔ IsWanted row new_routes)
  Kept-IsWanted distinct row m = (to, from)
    where
      to : Kept old_routes (routes_to_remove old_routes new_routes) row → IsWanted row new_routes
      to k = elim (Bool-cases (any (same_route row) new_routes)) [
        | inl e ↦
            let (r, i, t) = any-true (same_route row) new_routes e in
            let (p, q) = same_route-eq row r t in (r, i, p, q)
        | inr e ↦ absurd (k.1 (removed_complete old_routes new_routes row m e))
      ]

      from : IsWanted row new_routes → Kept old_routes (routes_to_remove old_routes new_routes) row
      from (r, i, p, q) = (
        m,
        λ gone.
            let (other, k, same, e) = removed_sound old_routes new_routes row.uuid gone in
            let eq = distinct row other m k same in
            let e' : any (same_route row) new_routes ≡ false =
              subst (λ (x : StaticRoute). any (same_route x) new_routes ≡ false) (sym eq) e in
            absurd (cc (any-In (same_route row) new_routes i (eq-same_route row r p q), e')),
      )

  reaches :
      DistinctUuids old_routes
      → (r : Route) → In r new_routes
      → ((row : StaticRoute) × Kept old_routes (routes_to_remove old_routes new_routes) row
          × (row.ip_prefix ≡ r.cidr)
          × (row.nexthop ≡ r.nexthop))
        ⊎ Inserted (routes_to_add old_routes 0 new_routes) r
  reaches distinct r m = elim (Bool-cases (any (λ row. same_route row r) old_routes)) [
    | inl e ↦
        let (row, k, t) = any-true (λ row. same_route row r) old_routes e in
        let (p, q) = same_route-eq row r t in
        inl (row, (Kept-IsWanted distinct row k).1 (r, m, p, q), p, q)
    | inr e ↦ inr (unfold added in added_complete old_routes new_routes 0 r m e)
  ]

  Inserted-wanted :
      (r : Route)
      → Inserted (routes_to_add old_routes 0 new_routes) r
      → In r new_routes × ¬ HasRow r old_routes
  Inserted-wanted r m =
      let (i, e) = added_sound old_routes new_routes 0 r (unfold added in m) in
      (
        i,
        λ (row, k, p, q).
            absurd (cc (any-In (λ x. same_route x r) old_routes k (eq-same_route row r p q), e)),
      )

-- What the removal and the insertion of routes leaves.
abbrev pub Reaches : List StaticRoute → List Route → List (String × Route) → List String → Type 0
Reaches old_routes new_routes inserted removed =
    ((r : Route)
      → In r new_routes
      → ((row : StaticRoute) × Kept old_routes removed row
          × (row.ip_prefix ≡ r.cidr)
          × (row.nexthop ≡ r.nexthop))
        ⊎ Inserted inserted r)
    × ((r : Route) → Inserted inserted r → In r new_routes × ¬ HasRow r old_routes)
    × ((row : StaticRoute)
        → In row old_routes
        → (Kept old_routes removed row ↔ IsWanted row new_routes))

-- Where the rows of the router have distinct UUIDs, the routes that are inserted and the rows that
-- are removed leave it with the routes of the specification.
pub set_routes-Reaches :
    (old_routes : List StaticRoute) (new_routes : List Route)
    → DistinctUuids old_routes
    → Reaches old_routes new_routes
        (routes_to_add old_routes 0 new_routes)
        (routes_to_remove old_routes new_routes)
set_routes-Reaches old_routes new_routes distinct = (
  reaches old_routes new_routes distinct,
  Inserted-wanted old_routes new_routes,
  Kept-IsWanted old_routes new_routes distinct,
)
